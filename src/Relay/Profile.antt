-- ===== src/Relay/Profile.antt =====
-- `getUserProfile` and `updateUserProfile`.
pub mod Clean
use noudle_agents.Base.{
  ℕ, String, Option, none, some, List, [], ◌∷◌, ◌++◌, Bool, true, false, not, ◌&&◌, ◌||◌, ◌==◌, leb,
  ltb, eqb, length, if◌then◌else◌,
}
use noudle_agents.Base.Text
use noudle_agents.Base.Map
use noudle_agents.Base.Map.{Map}
use Prim.Native.Char.{code}
use noudle_agents.Protocol.{Workspace, UserProfilePatch}
use noudle_agents.Repository.Entities
use noudle_agents.App.{
  App, Failure, Result, ok, err, asks, config, lift, not_found, now, or_throw, pure, throw_if,
  ◌>>=◌, ◌>>◌,
}

abbrev pub Profile : Type 0
Profile = Map String

unfoldable pub stored_workspace : App Workspace
stored_workspace = do
  c ← config
  found ← Entities.get_workspace c.workspace_id
  or_throw not_found found

unfoldable pub get_user_profile : App Profile
get_user_profile = do workspace ← stored_workspace; pure workspace.profile

abbrev is_key_char : ℕ → Bool
is_key_char c = (leb b'a' c && leb c b'z') || (leb b'0' c && leb c b'9')

-- `.replace(/[^a-z0-9]+/g, "_")`; `within` says that the character before was replaced.
abbrev pub underscored : Bool → String → String
underscored within String.[] = ""
underscored within (String.◌∷◌ c s) =
    let plain = is_key_char (code c) in
    let rest = underscored (not plain) s in
    if plain then String.◌∷◌ c rest else if within then rest else Text.append "_" rest

-- `.replace(/^_+|_+$/g, "")`.
abbrev strip_start : String → String
strip_start String.[] = ""
strip_start (String.◌∷◌ c s) =
    let rest = strip_start s in if eqb (code c) b'_' then rest else String.◌∷◌ c s

abbrev strip_end : String → String
strip_end String.[] = ""
strip_end (String.◌∷◌ c s) =
    let rest = strip_end s in if eqb (code c) b'_' && rest == "" then "" else String.◌∷◌ c rest

unfoldable pub normalized_profile_key : (String → String) → String → String
normalized_profile_key lower s = strip_end (strip_start (underscored false (lower (Text.trim s))))

-- `s.slice(n)` on a key, whose characters are all ASCII.
abbrev rest_after : String → String → String
rest_after String.[] s = s
rest_after (String.◌∷◌ d t) String.[] = ""
rest_after (String.◌∷◌ d t) (String.◌∷◌ c s) = rest_after t s

abbrev skip_one : String → String
skip_one String.[] = ""
skip_one (String.◌∷◌ c s) = s

-- Words with at most one character between two of them, as `two.?factor`, at the text's start.
abbrev pub words_at : List String → String → Bool
words_at [] s = true
words_at (word ∷ more) s =
    let after = rest_after word s in
    Text.starts_with s word && (words_at more after || words_at more (skip_one after))

abbrev pub words_in : List String → String → Bool
words_in words String.[] = words_at words ""
words_in words (String.◌∷◌ c s) = words_at words (String.◌∷◌ c s) || words_in words s

abbrev pub forbidden_words : List (List String)
forbidden_words =
    ("password" ∷ [])
    ∷ ("passphrase" ∷ [])
    ∷ ("passcode" ∷ [])
    ∷ ("pin" ∷ [])
    ∷ ("otp" ∷ [])
    ∷ ("two" ∷ "factor" ∷ [])
    ∷ ("2fa" ∷ [])
    ∷ ("verification" ∷ "code" ∷ [])
    ∷ ("captcha" ∷ [])
    ∷ ("cvv" ∷ [])
    ∷ ("cvc" ∷ [])
    ∷ ("security" ∷ "answer" ∷ [])
    ∷ ("recovery" ∷ "code" ∷ [])
    ∷ ("access" ∷ "token" ∷ [])
    ∷ ("refresh" ∷ "token" ∷ [])
    ∷ ("api" ∷ "key" ∷ [])
    ∷ ("secret" ∷ [])
    ∷ ("private" ∷ "key" ∷ [])
    ∷ ("card" ∷ "number" ∷ [])
    ∷ []

abbrev any_words : List (List String) → String → Bool
any_words [] s = false
any_words (words ∷ more) s = words_in words s || any_words more s

-- `forbiddenProfileKey.test(key)`, on a normalized key.
unfoldable pub forbidden_key : String → Bool
forbidden_key key = any_words forbidden_words key

-- The profile being edited, and the keys so far.
pub record Edit : Type 0 where
  pub profile : Profile
  pub keys : List String

-- One round of the loop over `input.values`.
unfoldable pub set_value : (String → String) → String × String → Edit → Result Edit
set_value lower (raw_key, raw_value) edit =
    let key = normalized_profile_key lower raw_key in
    let value = Text.trim raw_value in
    if key == "" || ltb 80 (Text.utf16_length key)
    then err (Failure.domain 400 "invalid_profile_key")
    else if forbidden_key key
    then err (Failure.domain 400 "profile_secret_forbidden")
    else if value == ""
    then err (Failure.domain 400 "invalid_profile_value")
    else ok (record { profile = Map.set key value edit.profile; keys = edit.keys ++ key ∷ [] })

abbrev pub then_edit : Result Edit → (Edit → Result Edit) → Result Edit
then_edit (ok edit) next = next edit
then_edit (err x) next = err x

unfoldable pub set_values : (String → String) → List (String × String) → Edit → Result Edit
set_values lower [] edit = ok edit
set_values lower (entry ∷ more) edit =
    then_edit (set_value lower entry edit) (set_values lower more)

-- One round of the loop over `input.remove`.
unfoldable pub remove_key : (String → String) → String → Edit → Edit
remove_key lower raw_key edit =
    let key = normalized_profile_key lower raw_key in
    if not (key == "") && Map.has_key key edit.profile
    then record { profile = Map.delete key edit.profile; keys = edit.keys ++ key ∷ [] }
    else edit

unfoldable pub remove_keys : (String → String) → List String → Edit → Edit
remove_keys lower [] edit = edit
remove_keys lower (key ∷ more) edit = remove_keys lower more (remove_key lower key edit)

pub record ProfileChange : Type 0 where
  pub updated_keys : List String
  pub removed_keys : List String

unfoldable pub update_user_profile : UserProfilePatch → App ProfileChange
update_user_profile input = do
  workspace ← stored_workspace
  lower ← asks (λ e. e.lower_case)
  edited ← lift (set_values lower input.values (record { profile = workspace.profile; keys = [] }))
  let removed = remove_keys lower input.remove (record { profile = edited.profile; keys = [] })
  throw_if (ltb 100 (length removed.profile)) (Failure.domain 400 "profile_too_large")
  at ← now
  Entities.put_workspace (record workspace { profile = removed.profile; updated_at = at })
  pure (record { updated_keys = edited.keys; removed_keys = removed.keys })

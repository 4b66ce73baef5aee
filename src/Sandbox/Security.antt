-- ===== src/Sandbox/Security.antt =====
-- services/sandbox-manager/src/security.ts: `requireSafeKey`, `resolveWorkspace`, `containerName`.
-- The functions of node's path library are parameters.
use noudle_agents.Base.{
  ℕ, String, List, [], ◌∷◌, Bool, true, false, ◌&&◌, ◌||◌, eqb, ltb, leb, length, is_empty,
  if◌then◌else◌,
}
use noudle_agents.Base.Text
use Prim.Native.Char.{code}
use noudle_agents.App.{Result, ok, err, Failure}

abbrev pub is_letter_or_digit : ℕ → Bool
is_letter_or_digit c =
    (leb b'a' c && leb c b'z') || (leb b'A' c && leb c b'Z') || (leb b'0' c && leb c b'9')

-- `[a-zA-Z0-9_-]*`.
abbrev pub all_safe : String → Bool
all_safe String.[] = true
all_safe (String.◌∷◌ c s) =
    (is_letter_or_digit (code c) || eqb (code c) b'_' || eqb (code c) b'-') && all_safe s

-- `SAFE_KEY.test(value)`: a letter or digit, and up to 79 characters more.
unfoldable pub is_safe_key : String → Bool
is_safe_key String.[] = false
is_safe_key (String.◌∷◌ c s) =
    is_letter_or_digit (code c) && all_safe s && leb (Text.utf16_length s) 79

unfoldable pub require_safe_key : String → String → Result String
require_safe_key value label =
    if is_safe_key value
    then ok value
    else err (Failure.thrown (Text.append label " contains unsupported characters"))

module _ {A : Type 0} {B : Type 0} where
  abbrev pub then_safe : Result A → (A → Result B) → Result B
  then_safe (ok a) next = next a
  then_safe (err x) next = err x

unfoldable pub require_segments : List String → Result (Unit {0})
require_segments [] = ok tt
require_segments (segment ∷ more) =
    then_safe (require_safe_key segment "workspaceKey segment") λ s. require_segments more

-- `path.resolve`, `path.relative` and `path.isAbsolute`.
pub record PathLibrary : Type 0 where
  pub resolve : String → List String → String
  pub relative : String → String → String
  pub is_absolute : String → Bool

unfoldable pub within_root : PathLibrary → String → String → Result String
within_root path root candidate =
    let relative = path.relative root candidate in
    if Text.starts_with relative ".." || path.is_absolute relative
    then err (Failure.thrown "Workspace escaped the configured root")
    else ok candidate

unfoldable pub resolve_workspace : PathLibrary → String → String → Result String
resolve_workspace path root key =
    let segments = Text.split b'/' key in
    if is_empty segments || ltb 8 (length segments)
    then err (Failure.thrown "workspaceKey contains too many path segments")
    else then_safe (require_segments segments)
        λ u. within_root path root (path.resolve root segments)

unfoldable pub container_name : (String → String) → String → Result String
container_name lower id =
    then_safe (require_safe_key id "sandbox id") λ key. ok (Text.append "relay-agent-" (lower key))

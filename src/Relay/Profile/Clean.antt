-- ===== src/Relay/Profile/Clean.antt =====
-- What `updateUserProfile` keeps true of the stored profile.
use noudle_agents.App.{
  World, Env, Result, ok, err, now, not_found, throw_if, lift, pure, ◌>>=◌, ◌>>◌,
}
use noudle_agents.Base.{
  ◌≡◌, refl, sym, subst, ◌≤◌, String, Option, none, some, List, [], ◌∷◌, Bool, false, ◌==◌, ◌||◌,
  ◌&&◌, not, ltb, length, arith, Bool-cases, inl, inr,
}
use noudle_agents.Base.Text
use noudle_agents.Base.Map
use noudle_agents.Base.Map.{Map, get-set-same}
use noudle_agents.Protocol.{Workspace, UserProfilePatch}
use noudle_agents.Repository.Entities
use noudle_agents.App.Holds.{Holds, returned, threw, Holds-bind, Holds-or_throw, Holds-throw_if}
use noudle_agents.Relay.Profile.{
  Profile, normalized_profile_key, forbidden_key, Edit, set_value, then_edit, set_values,
  remove_key, remove_keys, ProfileChange, stored_workspace, update_user_profile,
}

-- A field that may be kept: a key of 1 to 80 characters which names no secret, and a value.
pub record IsField (key value : String) : Type 0 where
  pub named : (key == "") ≡ false
  pub short : ltb 80 (Text.utf16_length key) ≡ false
  pub harmless : forbidden_key key ≡ false
  pub filled : (value == "") ≡ false

abbrev pub IsClean : Profile → Type 0
IsClean [] = Unit
IsClean ((key, value) ∷ m) = IsField key value × IsClean m

set-IsClean :
    (key value : String) (m : Profile)
    → IsField key value
    → IsClean m
    → IsClean (Map.set key value m)
unfolding Map.set
set-IsClean key value [] h c = (h, tt)
set-IsClean key value ((j, v) ∷ m) h c = elim (Bool-cases (j == key)) [
  | inl t ↦ rw t (h, c.1)
  | inr t ↦ rw t (c.0, set-IsClean key value m h c.1)
]

delete-IsClean : (key : String) (m : Profile) → IsClean m → IsClean (Map.delete key m)
unfolding Map.delete
delete-IsClean key [] c = tt
delete-IsClean key ((j, v) ∷ m) c = elim (Bool-cases (j == key)) [
  | inl t ↦ rw t (delete-IsClean key m c.1)
  | inr t ↦ rw t (c.0, delete-IsClean key m c.1)
]

abbrev IsCleanEdit : Result Edit → Type 0
IsCleanEdit (ok edit) = IsClean edit.profile
IsCleanEdit (err x) = Unit

or_false : (a b : Bool) → (a || b) ≡ false → (a ≡ false) × (b ≡ false)
or_false a b h = (ground (arith, h), ground (arith, h))

set_value-IsClean :
    (lower : String → String) (entry : String × String) (edit : Edit)
    → IsClean edit.profile
    → IsCleanEdit (set_value lower entry edit)
unfolding set_value
set_value-IsClean lower (raw_key, raw_value) edit c =
    let key = normalized_profile_key lower raw_key in
    elim (Bool-cases (key == "" || ltb 80 (Text.utf16_length key))) [
      | inl t ↦ rw t tt
      | inr t ↦ elim (Bool-cases (forbidden_key key)) [
        | inl u ↦ rw (t, u) tt
        | inr u ↦ elim (Bool-cases (Text.trim raw_value == "")) [
          | inl v ↦ rw (t, u, v) tt
          | inr v ↦
              let k = or_false (key == "") _ t in
              rw (t, u, v)
                (set-IsClean key (Text.trim raw_value) edit.profile
                  (record { named = k.0; short = k.1; harmless = u; filled = v }) c)
        ]
      ]
    ]

then_edit-IsClean :
    (r : Result Edit) (next : Edit → Result Edit)
    → IsCleanEdit r
    → ((edit : Edit) → IsClean edit.profile → IsCleanEdit (next edit))
    → IsCleanEdit (then_edit r next)
then_edit-IsClean (ok edit) next c h = h edit c
then_edit-IsClean (err x) next c h = tt

set_values-IsClean :
    (lower : String → String) (entries : List (String × String)) (edit : Edit)
    → IsClean edit.profile
    → IsCleanEdit (set_values lower entries edit)
unfolding set_values
set_values-IsClean lower [] edit c = c
set_values-IsClean lower (entry ∷ more) edit c =
    then_edit-IsClean _ _ (set_value-IsClean lower entry edit c) (set_values-IsClean lower more)

remove_key-IsClean :
    (lower : String → String) (key : String) (edit : Edit)
    → IsClean edit.profile
    → IsClean (remove_key lower key edit).profile
unfolding remove_key
remove_key-IsClean lower raw_key edit c =
    let key = normalized_profile_key lower raw_key in
    elim (Bool-cases (not (key == "") && Map.has_key key edit.profile)) [
      | inl t ↦ rw t (delete-IsClean key edit.profile c)
      | inr t ↦ rw t c
    ]

remove_keys-IsClean :
    (lower : String → String) (keys : List String) (edit : Edit)
    → IsClean edit.profile
    → IsClean (remove_keys lower keys edit).profile
unfolding remove_keys
remove_keys-IsClean lower [] edit c = c
remove_keys-IsClean lower (key ∷ more) edit c =
    remove_keys-IsClean lower more (remove_key lower key edit) (remove_key-IsClean lower key edit c)

abbrev IsStored : Option Workspace → Type 0
IsStored none = Unit
IsStored (some v) = IsClean v.profile × (length v.profile ≤ 100)

-- The stored profile, if there is one, has at most 100 fields, each of which may be kept.
abbrev pub HasProfile : String → World → Type 0
HasProfile id w = IsStored (Map.get id w.repo.workspace)

-- The workspace is stored under its id.
saved-HasProfile :
    (v : Workspace) (id : String) (w : World)
    → v.id ≡ id
    → IsClean v.profile
    → length v.profile ≤ 100
    → HasProfile id
        (record w { repo = record w.repo { workspace = Map.set v.id v w.repo.workspace } })
saved-HasProfile v id w same c few =
    let here =
      subst (λ i. Map.get i (Map.set v.id v w.repo.workspace) ≡ some v) same
        (get-set-same v.id v w.repo.workspace) in
    subst IsStored (sym here) (c, few)

stored_workspace-found :
    (e : Env) (w : World)
    → Holds
        (λ v w'. (w' ≡ w) × (Map.get e.config.workspace_id w.repo.workspace ≡ some v))
        (λ w'. w' ≡ w)
        (stored_workspace e w)
unfolding stored_workspace Entities.get_workspace ◌>>=◌
stored_workspace-found e w = Holds-or_throw _ (λ w'. w' ≡ w) not_found _ e w (λ v p. (refl, p)) refl

lift-IsClean :
    (r : Result Edit) (e : Env) (w v : World)
    → v ≡ w
    → IsCleanEdit r
    → Holds (λ edit w'. (w' ≡ w) × IsClean edit.profile) (λ w'. w' ≡ w) (lift r e v)
lift-IsClean (ok edit) e w v same c = returned (same, c)
lift-IsClean (err x) e w v same c = threw same

save-HasProfile :
    (v : Workspace) (change : ProfileChange) (e : Env) (w t : World)
    → v.id ≡ e.config.workspace_id
    → IsClean v.profile
    → ltb 100 (length v.profile) ≡ false
    → Holds
        (λ change w'. HasProfile e.config.workspace_id w')
        (λ w'. w' ≡ t)
        ((Entities.put_workspace v >> pure change) e w)
unfolding Entities.put_workspace ◌>>=◌
save-HasProfile v change e w t same c few =
    returned (saved-HasProfile v e.config.workspace_id w same c (ground (arith, few)))

now-any : (e : Env) (w t : World) → Holds (λ at w'. Unit {0}) (λ w'. w' ≡ t) (now e w)
unfolding now
now-any e w t = returned tt

abbrev pub IsKeyed : String → Option Workspace → Type 0
IsKeyed id none = Unit
IsKeyed id (some v) = v.id ≡ id

-- `updateUserProfile` of a clean profile of at most 100 fields, which is stored under the workspace's
-- id, either throws and leaves the world as it is, or returns and leaves such a profile.
pub update_user_profile-HasProfile :
    (input : UserProfilePatch) (e : Env) (w : World)
    → HasProfile e.config.workspace_id w
    → IsKeyed e.config.workspace_id (Map.get e.config.workspace_id w.repo.workspace)
    → Holds
        (λ change w'. HasProfile e.config.workspace_id w')
        (λ w'. w' ≡ w)
        (update_user_profile input e w)
unfolding update_user_profile
update_user_profile-HasProfile input e w has keyed =
    Holds-bind _ stored_workspace _ e w (stored_workspace-found e w) λ v w1 (s1, found).
      Holds-bind (λ lower w'. w' ≡ w) _ _ e w1 (returned s1)
        λ lower w2 s2.
          Holds-bind _ (lift _) _ e w2
            (lift-IsClean _ e w w2 s2
              (set_values-IsClean lower input.values _ (subst IsStored found has).0))
            λ edited w3 (s3, c).
              let removed =
                remove_keys lower input.remove (record { profile = edited.profile; keys = [] }) in
              Holds-bind (λ _ w'. (ltb 100 (length removed.profile)) ≡ false) (throw_if _ _) _ e w3
                (Holds-throw_if _ (λ w'. w' ≡ w) _ _ e w3 (λ few. few) s3)
                λ _ w4 few. Holds-bind _ now _ e w4 (now-any e w4 w) λ at w5 _.
                  save-HasProfile _ _ e w5 w (subst (IsKeyed e.config.workspace_id) found keyed)
                    (remove_keys-IsClean lower input.remove _ c) few

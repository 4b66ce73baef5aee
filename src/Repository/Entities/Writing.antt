-- ===== src/Repository/Entities/Writing.antt =====
-- What `put` and `delete` do to what `get` and `list` find.
use noudle_agents.Base.{
  keep, not, ◌≡◌, ◌⊎◌, refl, ap, ◌∙◌, String, Option, none, some, Bool, true, false, ◌==◌,
  Bool-cases, inl, inr, if◌then◌else◌, [], ◌∷◌,
}
use noudle_agents.Base.Map
use noudle_agents.Base.Map.{get-set, get-delete, Map, values, delete_where}
use noudle_agents.Protocol.{Message}
use noudle_agents.Repository.State.{
  EntityKind, EntityMap, id_of, workspace_of, table, set_table, Repository,
}
use noudle_agents.Repository.Entities.{get, put, put_over, store, other_workspace, delete, cascade}
use noudle_agents.App.{World, Env, ok, err}

table-store :
    (k : EntityKind) (v : EntityMap k) (r : Repository)
    → table k (store k v r) ≡ Map.set (id_of k v) v (table k r)
table-store EntityKind.agents v r = refl
table-store EntityKind.conversations v r = refl
table-store EntityKind.messages v r = refl
table-store EntityKind.tasks v r = refl
table-store EntityKind.runs v r = refl
table-store EntityKind.approvals v r = refl
table-store EntityKind.schedules v r = refl

table-cascade :
    (k : EntityKind) (id : String) (r : Repository)
    → table k (cascade k id (set_table k (Map.delete id (table k r)) r)) ≡ Map.delete id (table k r)
table-cascade EntityKind.agents id r = refl
table-cascade EntityKind.conversations id r = refl
table-cascade EntityKind.messages id r = refl
table-cascade EntityKind.tasks id r = refl
table-cascade EntityKind.runs id r = refl
table-cascade EntityKind.approvals id r = refl
table-cascade EntityKind.schedules id r = refl

-- What `get` finds under every id after `v` was stored.
abbrev pub Written : (k : EntityKind) → EntityMap k → Env → World → World → Type 0
Written k v e w w' =
    (id : String) → (get k id e w').0 ≡ (if id_of k v == id then ok (some v) else (get k id e w).0)

ok-if {ℓ} : {A : Type ℓ} (b : Bool) (x y : A) → ok (if b then x else y) ≡ (if b then ok x else ok y)
ok-if true x y = refl
ok-if false x y = refl

store-Written :
    (k : EntityKind) (v : EntityMap k) (e : Env) (w : World)
    → Written k v e w (record w { repo = store k v w.repo })
unfolding get
store-Written k v e w id =
    ap (λ m. ok (Map.get id m)) (table-store k v w.repo)
    ∙ ap ok (get-set (id_of k v) id v (table k w.repo))
    ∙ ok-if (id_of k v == id) (some v) (Map.get id (table k w.repo))

-- The workspace may write over what it finds there: nothing, or an entity of its own.
abbrev pub Belongs : (k : EntityKind) → EntityMap k → Option (EntityMap k) → Type 0
Belongs k v none = Unit {0}
Belongs k v (some old) = (workspace_of k old == workspace_of k v) ≡ true

put_over-get :
    (k : EntityKind) (v : EntityMap k) (e : Env) (w : World) (o : Option (EntityMap k))
    → (((put_over k o v e w).0 ≡ ok tt) × Belongs k v o × Written k v e w (put_over k o v e w).1)
      ⊎ ((put_over k o v e w ≡ (err other_workspace, w))
          × ((old : EntityMap k) × (o ≡ some old)
              × ((workspace_of k old == workspace_of k v) ≡ false)))
unfolding put_over
put_over-get k v e w none = inl (refl, tt, store-Written k v e w)
put_over-get k v e w (some old) = elim (Bool-cases (workspace_of k old == workspace_of k v)) [
  | inl same ↦ rw same (inl (refl, refl, store-Written k v e w))
  | inr other ↦ rw other (inr (refl, (old, refl, other)))
]

-- Either there is no entity with the id, or one of the same workspace, and `put` stores the entity,
-- after which `get` finds it under its id and everything of the kind under another id as before; or
-- there is an entity with the id in another workspace, and `put` throws, leaving the world as it is.
pub put-get :
    (k : EntityKind) (v : EntityMap k) (e : Env) (w : World)
    → (((put k v e w).0 ≡ ok tt)
        × Belongs k v (Map.get (id_of k v) (table k w.repo))
        × Written k v e w (put k v e w).1)
      ⊎ ((put k v e w ≡ (err other_workspace, w))
          × ((old : EntityMap k) × ((get k (id_of k v) e w).0 ≡ ok (some old))
              × ((workspace_of k old == workspace_of k v) ≡ false)))
unfolding put get
put-get k v e w = elim (put_over-get k v e w (Map.get (id_of k v) (table k w.repo))) [
  | inl h ↦ inl h
  | inr (h, (old, found, other)) ↦ inr (h, (old, ap ok found, other))
]

-- After `delete`, `get` finds nothing under the id, and everything of the kind under another id as
-- before.
pub delete-get :
    (k : EntityKind) (id j : String) (e : Env) (w : World)
    → (get k j e (delete k id e w).1).0 ≡ (if id == j then ok none else (get k j e w).0)
unfolding delete get
delete-get k id j e w =
    ap (λ m. ok (Map.get j m)) (table-cascade k id w.repo)
    ∙ ap ok (get-delete id j (table k w.repo))
    ∙ ok-if (id == j) none (Map.get j (table k w.repo))

values-delete_where :
    (p : Message → Bool) (m : Map Message)
    → values (delete_where p m) ≡ keep (λ v. not (p v)) (values m)
unfolding delete_where
values-delete_where p [] = refl
values-delete_where p ((k, v) ∷ m) = elim (Bool-cases (p v)) [
  | inl t ↦ rw t (values-delete_where p m)
  | inr t ↦ rw t (ap (λ vs. v ∷ vs) (values-delete_where p m))
]

-- Deleting a conversation deletes exactly the messages that belong to it, and keeps the others in
-- their order.
pub delete-messages :
    (id : String) (e : Env) (w : World)
    → values (delete EntityKind.conversations id e w).1.repo.messages
      ≡ keep (λ (m : Message). not (m.conversation_id == id)) (values w.repo.messages)
unfolding delete
delete-messages id e w = values-delete_where _ w.repo.messages

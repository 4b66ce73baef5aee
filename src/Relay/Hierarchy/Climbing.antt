-- ===== src/Relay/Hierarchy/Climbing.antt =====
-- The loop of `validateParent`: it only reads the table, it ends within the fuel, and where it ends
-- without an error the way to the root avoids the task that is to be moved.
use noudle_agents.Base.{
  ℕ, zero, suc, ◌+◌, ◌≤◌, ◌<◌, ◌≡◌, ◌≢◌, refl, String, Option, none, some, List, [], ◌∷◌, false,
  arith, eq_iff, ◌==◌, is, contains, length, Bool-cases, Option-cases, inl, inr, if◌then◌else◌,
  subst,
}
use noudle_agents.Base.Map
use noudle_agents.Base.Map.{Map}
use noudle_agents.Protocol.{Task}
use noudle_agents.Repository.Entities
use noudle_agents.Relay.Lookup.{require}
use noudle_agents.Relay.Hierarchy.{follow, climb}
use noudle_agents.Relay.Hierarchy.Forest.{
  parent_of, Clear, Rooted, IsForest, IsForest-found, IsKeyed, IsKeyed-found,
}
use noudle_agents.App.{World, Env, App, Result, ok, err, Failure, conflict, not_found, ◌>>=◌}

-- The loop as a function of the table.
unfoldable pub found_then : (Task → Result (Unit {0})) → Option Task → Result (Unit {0})
found_then next none = err not_found
found_then next (some t) = next t

unfoldable pub followed : Map Task → (Task → Result (Unit {0})) → Option String → Result (Unit {0})
followed m next none = ok tt
followed m next (some id) = found_then next (Map.get id m)

unfoldable pub climbed : Map Task → ℕ → Option String → List String → Task → Result (Unit {0})
climbed m zero task_id visited cursor = err Failure.diverged
climbed m (suc fuel) task_id visited cursor =
    let next = followed m (climbed m fuel task_id (cursor.id ∷ visited)) (parent_of cursor) in
    if is task_id cursor.id
    then err (conflict "task_cycle")
    else if contains cursor.id visited
    then err (conflict "task_cycle")
    else next

follow-followed :
    (w : World) (e : Env) (next : Task → App (Unit {0})) (spec : Task → Result (Unit {0}))
    (id : Option String)
    → ((t : Task) → next t e w ≡ (spec t, w))
    → follow next id e w ≡ (followed w.repo.tasks spec id, w)
unfolding follow followed found_then require Entities.get ◌>>=◌
follow-followed w e next spec none h = refl
follow-followed w e next spec (some id) h = elim (Option-cases (Map.get id w.repo.tasks)) [
  | inl missing ↦ rw missing
  | inr (t, found) ↦ rw found (h t)
]

pub climb-climbed :
    (fuel : ℕ) (task_id : Option String) (visited : List String) (t : Task) (e : Env) (w : World)
    → climb fuel task_id visited t e w ≡ (climbed w.repo.tasks fuel task_id visited t, w)
unfolding climb climbed ◌>>=◌
climb-climbed zero task_id visited t e w = refl
climb-climbed (suc fuel) task_id visited t e w =
    let next =
      follow-followed w e (climb fuel task_id (t.id ∷ visited))
        (climbed w.repo.tasks fuel task_id (t.id ∷ visited)) (parent_of t)
        (λ p. climb-climbed fuel task_id (t.id ∷ visited) p e w) in
    elim (Bool-cases (is task_id t.id)) [
      | inl cycle ↦ rw cycle
      | inr ne ↦ elim (Bool-cases (contains t.id visited)) [
        | inl seen ↦ rw (ne, seen)
        | inr new ↦ rw (ne, new) next
      ]
    ]

-- A climb that succeeds has found a way to the root that avoids the task.
pub climbed-Clear :
    (m : Map Task) (fuel : ℕ) (a : String) (visited : List String) (t : Task)
    → IsForest m
    → Map.get t.id m ≡ some t
    → climbed m fuel (some a) visited t ≡ ok tt
    → Clear m a t.id
unfolding climbed followed found_then
climbed-Clear m zero a visited t h found e = cc
climbed-Clear m (suc fuel) a visited t h found e =
    let ne : (a == t.id) ≡ false = ground arith in
    elim (Option-cases (parent_of t)) [
      | inl top ↦ Clear.root ne found top
      | inr (p, up) ↦ elim (Option-cases (Map.get p m)) [
        | inl missing ↦ absurd (ground arith)
        | inr (q, at_p) ↦
            let key = h.keyed p q at_p in
            let again : climbed m fuel (some a) (t.id ∷ visited) q ≡ ok tt = ground arith in
            Clear.under ne found up (
              subst (Clear m a) key
                (climbed-Clear m fuel a (t.id ∷ visited) q h (IsForest-found m p q h at_p) again))
      ]
    ]

-- A climb that succeeds, over any table of tasks stored under
-- their ids, has found the way to a root.
pub climbed-Rooted :
    (m : Map Task) (fuel : ℕ) (task_id : Option String) (visited : List String) (t : Task)
    → IsKeyed m
    → Map.get t.id m ≡ some t
    → climbed m fuel task_id visited t ≡ ok tt
    → Rooted m t.id
unfolding climbed followed found_then
climbed-Rooted m zero task_id visited t h found e = cc
climbed-Rooted m (suc fuel) task_id visited t h found e = elim (Option-cases (parent_of t)) [
  | inl top ↦ Rooted.root found top
  | inr (p, up) ↦ elim (Option-cases (Map.get p m)) [
    | inl missing ↦ absurd (ground arith)
    | inr (q, at_p) ↦
        let again : climbed m fuel task_id (t.id ∷ visited) q ≡ ok tt = ground arith in
        Rooted.under found up (
          subst (Rooted m) (h.keyed p q at_p)
            (climbed-Rooted m fuel task_id (t.id ∷ visited) q h (IsKeyed-found m p q h at_p) again))
  ]
]

-- How many entries a climb has not visited.
unfoldable pub unvisited : List String → Map Task → ℕ
unvisited visited [] = 0
unvisited visited ((k, t) ∷ m) = (if contains k visited then 0 else 1) + unvisited visited m

unvisited-le :
    (visited : List String) (k : String) (m : Map Task)
    → unvisited (k ∷ visited) m ≤ unvisited visited m
unfolding unvisited
unvisited-le visited k [] = omega arith
unvisited-le visited k ((j, t) ∷ m) = ground (arith, unvisited-le visited k m)

unvisited-lt :
    (visited : List String) (k : String) (m : Map Task) (t : Task)
    → Map.get k m ≡ some t
    → contains k visited ≡ false
    → unvisited (k ∷ visited) m < unvisited visited m
unfolding unvisited Map.get
unvisited-lt visited k [] t found new = cc
unvisited-lt visited k ((j, u) ∷ m) t found new =
    ground (arith, eq_iff j k, unvisited-le visited k m, unvisited-lt visited k m t)

pub climbed-ne-diverged :
    (m : Map Task) (fuel : ℕ) (task_id : Option String) (visited : List String) (t : Task)
    → IsKeyed m
    → Map.get t.id m ≡ some t
    → unvisited visited m < fuel
    → climbed m fuel task_id visited t ≢ err Failure.diverged
unfolding climbed followed found_then
climbed-ne-diverged m zero task_id visited t h found lt = absurd (omega arith)
climbed-ne-diverged m (suc fuel) task_id visited t h found lt = elim (Option-cases (parent_of t)) [
  | inl top ↦ ground arith
  | inr (p, up) ↦ elim (Option-cases (Map.get p m)) [
    | inl missing ↦ ground arith
    | inr (q, at_p) ↦ ground (
      arith,
      h.keyed p q at_p,
      unvisited-lt visited t.id m t found,
      climbed-ne-diverged m fuel task_id (t.id ∷ visited) q h (IsKeyed-found m p q h at_p),
    )
  ]
]

pub unvisited-none : (m : Map Task) → unvisited [] m ≡ length m
unfolding unvisited
unvisited-none [] = refl
unvisited-none ((k, t) ∷ m) = omega (arith, unvisited-none m)

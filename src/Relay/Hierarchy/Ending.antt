-- ===== src/Relay/Hierarchy/Ending.antt =====
-- The loop of `validateParent` over the ancestors comes to an end on any table of tasks, cyclic or not.
use noudle_agents.Base.{
  ℕ, suc, ◌+◌, ◌≡◌, ◌≢◌, refl, sym, ap, subst, String, Option, none, some, [], is, ltb, leb, length,
  truthy, Bool-cases, Option-cases, inl, inr, arith,
}
use noudle_agents.App.{World, Env, Result, ok, err, Failure}
use noudle_agents.Base.Map
use noudle_agents.Base.Map.{Map}
use noudle_agents.Protocol.{Task, TaskBudget}
use noudle_agents.Relay.Hierarchy.{bad_budget, validate_some, validate_parent}
use noudle_agents.Relay.Hierarchy.Forest.{Rooted, IsKeyed, IsKeyed-found}
use noudle_agents.Relay.Hierarchy.Climbing.{climbed-Rooted, climbed-ne-diverged, unvisited-none}
use noudle_agents.Relay.Hierarchy.Validation.{
  siblings, granted, with_parent, validated, validate_under-validated,
}

-- From the parent, if there is one, parents lead to a root in finitely many steps.
abbrev pub Leads : Map Task → Option String → Type 0
Leads m none = Unit {0}
Leads m (some p) = Rooted m p

-- The check has come to an end: with an error that is not the end of the fuel, or it has granted a
-- place under a parent from which parents lead to a root.
abbrev pub IsEnd : Map Task → Option String → Result ℕ → Type 0
IsEnd m parent (ok d) = Leads m parent
IsEnd m parent (err x) = x ≢ Failure.diverged

err-injective : (x y : Failure) → ◌≡◌ {A = Result (Unit {0})} (err x) (err y) → x ≡ y
err-injective x y h = cc

granted-IsEnd :
    (e : Env) (m : Map Task) (p : String) (b : Option TaskBudget) (t : Task) (r : Result (Unit {0}))
    → r ≢ err Failure.diverged
    → (r ≡ ok tt → Rooted m p)
    → IsEnd m (some p) (granted e b t r)
unfolding granted
granted-IsEnd e m p b t (err x) ends rooted = λ same. ends (ap err same)
granted-IsEnd e m p b t (ok u) ends rooted =
    elim (Bool-cases (ltb e.config.max_delegation_depth (t.depth + 1))) [
      | inl deep ↦ rw deep (λ same. cc)
      | inr fine ↦ elim (Bool-cases (bad_budget b (t.depth + 1))) [
        | inl bad ↦ rw (fine, bad) (λ same. cc)
        | inr good ↦ rw (fine, good) (rooted refl)
      ]
    ]

validated-IsEnd :
    (e : Env) (m : Map Task) (task_id : Option String) (p : String) (b : Option TaskBudget)
    → IsKeyed m
    → IsEnd m (some p) (validated e m task_id p b)
unfolding validated with_parent
validated-IsEnd e m task_id p b h = elim (Bool-cases (is task_id p)) [
  | inl same ↦ rw same (λ e. cc)
  | inr ne ↦ elim (Option-cases (Map.get p m)) [
    | inl missing ↦ rw (ne, missing) (λ e. cc)
    | inr (t, found) ↦
        let own = IsKeyed-found m p t h found in
        elim (Bool-cases (leb t.budget.max_child_tasks (length (siblings e m task_id p)))) [
          | inl full ↦ rw (ne, found, full) (λ e. cc)
          | inr room ↦
              rw (ne, found, room)
                (granted-IsEnd e m p b t _
                  (climbed-ne-diverged m (suc (length m)) task_id [] t h own
                    (omega (arith, unvisited-none m)))
                  (λ climbs.
                    subst (Rooted m) (h.keyed p t found)
                      (climbed-Rooted m (suc (length m)) task_id [] t h own climbs)))
        ]
  ]
]

validate_some-IsEnd :
    (e : Env) (w : World) (task_id parent : Option String) (b : Option TaskBudget)
    → IsKeyed w.repo.tasks
    → IsEnd w.repo.tasks parent (validate_some task_id parent b e w).0
unfolding validate_some
validate_some-IsEnd e w task_id none b h = tt
validate_some-IsEnd e w task_id (some p) b h =
    subst (IsEnd w.repo.tasks (some p))
      (sym (ap (λ t. t.0) (validate_under-validated e w task_id p b)))
      (validated-IsEnd e w.repo.tasks task_id p b h)

-- On any table that stores tasks under their ids, with cycles and missing parents or without,
-- `validateParent` comes to an end: one round more than there are tasks is enough for the loop. What
-- it grants is a place without a parent, or under a parent from which parents lead to a root in
-- finitely many steps.
pub validate_parent-IsEnd :
    (e : Env) (w : World) (task_id parent : Option String) (b : Option TaskBudget)
    → IsKeyed w.repo.tasks
    → IsEnd w.repo.tasks (truthy parent) (validate_parent task_id parent b e w).0
unfolding validate_parent
validate_parent-IsEnd e w task_id parent b h = validate_some-IsEnd e w task_id (truthy parent) b h

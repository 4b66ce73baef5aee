-- ===== src/Relay/Hierarchy/Validation.antt =====
-- What `validateParent` grants and when it refuses.
use noudle_agents.Base.{
  subst, ℕ, suc, ◌+◌, ◌≤◌, ◌<◌, ◌≡◌, refl, sym, ap, ◌∙◌, String, Option, none, some, List, [],
  arith, ◌==◌, is, ltb, leb, length, keep, sort_by, truthy, Bool-cases, Option-cases, inl, inr,
  if◌then◌else◌, ◌⊎◌,
}
use noudle_agents.App.{
  pure, throw_if, config, continue, World, Env, Result, ok, err, Failure, conflict, not_found,
  ◌>>=◌, ◌>>◌,
}
use noudle_agents.Base.Map
use noudle_agents.Base.Map.{Map, values}
use noudle_agents.Protocol.{Task, TaskBudget}
use noudle_agents.Repository.Entities
use noudle_agents.Relay.Lookup.{require, list_all}
use noudle_agents.Relay.Hierarchy.{
  is_sibling, bad_budget, validate_under, validate_some, validate_parent,
}
use noudle_agents.Relay.Hierarchy.Forest.{Clear, IsForest, IsForest-found}
use noudle_agents.Relay.Hierarchy.Climbing.{climbed, climb-climbed, climbed-Clear}

-- The tasks of the workspace that hang under `parent_id`, without `task_id` itself.
abbrev pub siblings : Env → Map Task → Option String → String → List Task
siblings e m task_id parent_id = keep (is_sibling task_id parent_id) (
    sort_by (λ (t : Task). t.created_at)
      (keep (λ (t : Task). t.workspace_id == e.config.workspace_id) (values m)))

ok-inj : (m n : ℕ) → ok n ≡ ok m → m ≡ n
ok-inj m n e = cc

unfoldable pub granted : Env → Option TaskBudget → Task → Result (Unit {0}) → Result ℕ
granted e b t (err x) = err x
granted e b t (ok u) =
    if ltb e.config.max_delegation_depth (t.depth + 1)
    then err (conflict "task_depth_limit")
    else if bad_budget b (t.depth + 1)
    then err (Failure.domain 400 "invalid_budget")
    else ok (t.depth + 1)

unfoldable pub with_parent :
    Env → Map Task → Option String → String → Option TaskBudget → Option Task → Result ℕ
with_parent e m task_id p b none = err not_found
with_parent e m task_id p b (some t) =
    if leb t.budget.max_child_tasks (length (siblings e m task_id p))
    then err (conflict "task_fanout_limit")
    else granted e b t (climbed m (suc (length m)) task_id [] t)

-- `validateParent` as a function of the table.
unfoldable pub validated : Env → Map Task → Option String → String → Option TaskBudget → Result ℕ
validated e m task_id p b =
    if is task_id p then err (conflict "task_cycle") else with_parent e m task_id p b (Map.get p m)

granted-lem :
    (e : Env) (w : World) (b : Option TaskBudget) (t : Task) (r : Result (Unit {0}))
    → continue r
        (λ _. config >>= λ c.
          throw_if (ltb c.max_delegation_depth (t.depth + 1)) (conflict "task_depth_limit")
          >> (throw_if (bad_budget b (t.depth + 1)) (Failure.domain 400 "invalid_budget")
              >> pure (t.depth + 1)))
        e
        w
      ≡ (granted e b t r, w)
unfolding granted ◌>>=◌
granted-lem e w b t (err x) = refl
granted-lem e w b t (ok u) = elim (Bool-cases (ltb e.config.max_delegation_depth (t.depth + 1))) [
  | inl deep ↦ rw deep
  | inr fine ↦ elim (Bool-cases (bad_budget b (t.depth + 1))) [
    | inl bad ↦ rw (fine, bad)
    | inr good ↦ rw (fine, good)
  ]
]

pub validate_under-validated :
    (e : Env) (w : World) (task_id : Option String) (p : String) (b : Option TaskBudget)
    → validate_under task_id p b e w ≡ (validated e w.repo.tasks task_id p b, w)
unfolding validate_under validated with_parent require list_all Entities.get Entities.list ◌>>=◌
validate_under-validated e w task_id p b = elim (Bool-cases (is task_id p)) [
  | inl same ↦ rw same
  | inr ne ↦ elim (Option-cases (Map.get p w.repo.tasks)) [
    | inl missing ↦ rw (ne, missing)
    | inr (t, found) ↦
        elim (Bool-cases
          (leb t.budget.max_child_tasks (length (siblings e w.repo.tasks task_id p)))) [
            | inl full ↦ rw (ne, found, full)
            | inr room ↦ rw (ne, found, room, climb-climbed) (granted-lem e w b t _)
          ]
  ]
]

-- The task that is placed does not lie on the way from its parent to the root.
abbrev pub Apart : Map Task → Option String → String → Type 0
Apart m none p = Unit {0}
Apart m (some a) p = Clear m a p

-- A place under an existing parent that has room, within the depth, apart from the task itself.
pub record IsPlace (e : Env) (m : Map Task) (task_id : Option String) (p : String) (d : ℕ)
    : Type 0 where
  pub parent : Task
  pub found : Map.get p m ≡ some parent
  pub room : length (siblings e m task_id p) < parent.budget.max_child_tasks
  pub deeper : d ≡ parent.depth + 1
  pub within : d ≤ e.config.max_delegation_depth
  pub apart : Apart m task_id p

climbed-Apart :
    (m : Map Task) (task_id : Option String) (p : String) (t : Task)
    → IsForest m
    → Map.get p m ≡ some t
    → climbed m (suc (length m)) task_id [] t ≡ ok tt
    → Apart m task_id p
climbed-Apart m none p t h found e = tt
climbed-Apart m (some a) p t h found e =
    subst (Clear m a) (h.keyed p t found)
      (climbed-Clear m (suc (length m)) a [] t h (IsForest-found m p t h found) e)

granted_sound :
    (e : Env) (b : Option TaskBudget) (t : Task) (r : Result (Unit {0})) (d : ℕ)
    → granted e b t r ≡ ok d
    → (r ≡ ok tt) × (d ≡ t.depth + 1) × (d ≤ e.config.max_delegation_depth)
unfolding granted
granted_sound e b t (ok u) d h = (refl, ground arith, ground arith)
granted_sound e b t (err x) d h = cc

validated_sound :
    (e : Env) (m : Map Task) (task_id : Option String) (p : String) (b : Option TaskBudget) (d : ℕ)
    → IsForest m
    → validated e m task_id p b ≡ ok d
    → IsPlace e m task_id p d
unfolding validated with_parent
validated_sound e m task_id p b d h v = elim (Option-cases (Map.get p m)) [
  | inl missing ↦ absurd (ground arith)
  | inr (t, found) ↦
      let rest : granted e b t (climbed m (suc (length m)) task_id [] t) ≡ ok d = ground arith in
      let (climbs, deeper, within) = granted_sound e b t _ d rest in
      record {
        parent = t;
        found = found;
        room = ground arith;
        deeper = deeper;
        within = within;
        apart = climbed-Apart m task_id p t h found climbs;
      }
]

validate_some_sound :
    (e : Env) (w : World) (task_id parent : Option String) (b : Option TaskBudget) (d : ℕ)
    → IsForest w.repo.tasks
    → (validate_some task_id parent b e w).0 ≡ ok d
    → ((parent ≡ none) × (d ≡ 0))
      ⊎ ((p : String) × (parent ≡ some p) × IsPlace e w.repo.tasks task_id p d)
unfolding validate_some
validate_some_sound e w task_id none b d h v = inl (refl, ok-inj d 0 v)
validate_some_sound e w task_id (some p) b d h v = inr (
  p,
  refl,
  validated_sound e w.repo.tasks task_id p b d h
      (sym (ap (λ t. t.0) (validate_under-validated e w task_id p b)) ∙ v),
)

-- In a forest of tasks, what `validateParent` grants is depth 0 to a task without a parent, or
-- under a parent only a place that has room, one deeper than the parent and within the configured
-- depth, where the task itself is not among the ancestors.
pub validate_parent_sound :
    (e : Env) (w : World) (task_id parent : Option String) (b : Option TaskBudget) (d : ℕ)
    → IsForest w.repo.tasks
    → (validate_parent task_id parent b e w).0 ≡ ok d
    → ((truthy parent ≡ none) × (d ≡ 0))
      ⊎ ((p : String) × (truthy parent ≡ some p) × IsPlace e w.repo.tasks task_id p d)
unfolding validate_parent
validate_parent_sound e w task_id parent b d h v =
    validate_some_sound e w task_id (truthy parent) b d h v

-- ===== src/Relay/Tasks/Forest.antt =====
-- `updateTask` on a forest of tasks.
use noudle_agents.Base.{
  ◌≡◌, refl, sym, ap, ◌∙◌, subst, String, Option, none, some, Bool, true, false, eq_iff,
  same_option, truthy, Bool-cases, inl, inr, if◌then◌else◌, ◌otherwise◌, ℕ,
}
use noudle_agents.Base.Map
use noudle_agents.Base.Map.{Map}
use noudle_agents.Protocol.{Task, TaskPatch, Creator, parse_task-trimmed}
use noudle_agents.Repository.State.{agents, conversations, tasks}
use noudle_agents.Relay.Effects.{Steps-require, Steps-announce, check, done, ◌⨾◌}
use noudle_agents.Relay.Effects.Agents.{step-check_actor, step-check_optional}
use noudle_agents.Relay.Effects.Tasks.{step-updated_depth}
use noudle_agents.Relay.Hierarchy.{validate_parent}
use noudle_agents.Relay.Hierarchy.Forest.{IsForest, Fits}
use noudle_agents.Relay.Hierarchy.Validation.{validate_parent_sound}
use noudle_agents.Relay.Tasks.{updated_depth, update_task}
use noudle_agents.Relay.Tasks.Keeping.{
  tasks_of, tasks-IsReader, InForest, InForest-tasks, then_rest, then_put, or_throw-some,
  require-some,
}
use noudle_agents.App.{World, Env, App, Failure, ok}

same_option-eq : (p q : Option String) → same_option p q ≡ true → p ≡ q
same_option-eq none none h = refl
same_option-eq none (some t) h = absurd cc
same_option-eq (some s) none h = absurd cc
same_option-eq (some s) (some t) h = ap some ((eq_iff s t).0 h)

else-of :
    (b : Bool) (x y : App ℕ) (d : ℕ) (e : Env) (w : World)
    → b ≡ false
    → ((if b then x else y) e w).0 ≡ ok d
    → (y e w).0 ≡ ok d
else-of true x y d e w h i = absurd cc
else-of false x y d e w h i = i

-- Where `updateTask` may put a task.
Fits-updated :
    (id : String) (parent : Option String) (current v : Task) (d : ℕ) (e : Env) (w : World)
    → IsForest (tasks_of w)
    → Map.get id (tasks_of w) ≡ some current
    → v.parent_task_id ≡ parent
    → (updated_depth id parent current e w).0 ≡ ok d
    → Fits (tasks_of w) id v
unfolding updated_depth
Fits-updated id parent current v d e w h found hung i =
    elim (Bool-cases (same_option parent current.parent_task_id)) [
      | inl same ↦
          Fits.kept found (ap truthy (hung ∙ same_option-eq parent current.parent_task_id same))
      | inr moved ↦
          let granted = else-of _ _ (validate_parent (some id) parent none) d e w moved i in
          elim (validate_parent_sound e w (some id) parent none d h granted) [
            | inl (nowhere, _) ↦ Fits.top (ap truthy hung ∙ nowhere)
            | inr (p, under, place) ↦ Fits.below (ap truthy hung ∙ under) place.apart
          ]
    ]

pub Fits-at :
    {m n : Map Task} {id : String} {t : Task} → m ≡ n → t.id ≡ id → Fits m id t → Fits n t.id t
Fits-at {m} {n} {id} {t} s key fits =
    subst (λ l. Fits l t.id t) s (subst (λ j. Fits m j t) (sym key) fits)

update_task-InForest :
    (id : String) (p : TaskPatch) (actor_type : Creator) (actor_id : String) (e : Env) (w : World)
    → IsForest (tasks_of w)
    → InForest (update_task id p actor_type actor_id e w)
unfolding update_task
update_task-InForest id p actor_type actor_id e w h =
    let m = tasks_of w in
    then_rest m h _ _ e w (step-check_actor actor_type actor_id) refl λ _ w1 s1 _.
      then_rest m h _ _ e w1 (Steps-require tasks id) s1 λ current w2 s2 i2.
        then_rest m h _ _ e w2 (step-check_optional agents _) s2 λ _ w3 s3 _.
          then_rest m h _ _ e w3 (step-check_optional conversations _) s3 λ _ w4 s4 _.
            let parent = p.parent_task_id otherwise current.parent_task_id in
            then_rest m h _ _ e w4 (step-updated_depth id parent current) s4 λ d w5 s5 i5.
              then_rest m h _ _ e w5 (check Failure.invalid _) s5 λ b w6 s6 _.
                then_rest m h _ _ e w6 tasks-IsReader.tick s6 λ updated w7 s7 _.
                  then_rest m h _ _ e w7 (check Failure.invalid _) s7 λ t w8 s8 i8.
                    let found = sym (ap (Map.get id) s1) ∙ require-some id current e w1 i2 in
                    let same = parse_task-trimmed _ t (or_throw-some Failure.invalid _ t e w7 i8) in
                    let key = ap (λ (u : Task). u.id) same ∙ h.keyed id current found in
                    let fits =
                      Fits-updated id parent current t d e w4 (subst IsForest (sym s4) h)
                        (ap (Map.get id) s4 ∙ found) (ap (λ (u : Task). u.parent_task_id) same)
                        i5 in
                    then_put m h t _ e w8 s8 (Fits-at s4 key fits)
                      (Steps-announce _ _ _ _ _ _ ⨾ λ _. done _)

-- In a forest of tasks, which has no cycle and no missing parent, updating a task leaves a forest,
-- whatever the patch and the parent that it names, and whether the update returns or throws.
pub update_task-IsForest :
    (id : String) (p : TaskPatch) (actor_type : Creator) (actor_id : String) (e : Env) (w : World)
    → IsForest w.repo.tasks
    → IsForest (update_task id p actor_type actor_id e w).1.repo.tasks
update_task-IsForest id p actor_type actor_id e w h =
    InForest-tasks _ (update_task-InForest id p actor_type actor_id e w h)

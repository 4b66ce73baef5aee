-- ===== src/Relay/Tasks/Creation.antt =====
-- Creating a task keeps the forest of tasks.
use noudle_agents.Base.{
  ◌≡◌, refl, sym, ap, ◌∙◌, subst, String, Option, none, some, truthy, inl, inr, ℕ,
}
use noudle_agents.Base.Map
use noudle_agents.Base.Text
use noudle_agents.Relay.Events.{new_id}
use noudle_agents.Base.Map.{Map}
use noudle_agents.Protocol.{Task, TaskBudget, CreateTaskInput, Creator, parse_task-trimmed}
use noudle_agents.Repository.State.{agents, conversations}
use noudle_agents.Relay.Effects.{Steps-new_id, Steps-env_config, Steps-announce, check, done, ◌⨾◌}
use noudle_agents.Relay.Effects.Agents.{step-check_actor, step-check_optional}
use noudle_agents.Relay.Effects.Tasks.{step-validate_parent}
use noudle_agents.Relay.Hierarchy.{validate_parent}
use noudle_agents.Relay.Hierarchy.Forest.{IsForest, Fits, fresh-Clear}
use noudle_agents.Relay.Hierarchy.Validation.{validate_parent_sound}
use noudle_agents.Relay.Tasks.{create_task}
use noudle_agents.Relay.Tasks.Keeping.{
  tasks_of, tasks-IsReader, InForest, InForest-tasks, then_rest, then_put, or_throw-some,
}
use noudle_agents.App.{random_uuid, ◌>>=◌, World, Env, Failure, ok}
use noudle_agents.Relay.Tasks.Forest.{Fits-at}

ok_id : (s t : String) → ok s ≡ ok t → s ≡ t
ok_id s t h = cc

-- The ids that `createTask` may draw are not in use.
abbrev pub IsFresh : Env → Map Task → Type 0
IsFresh e m = (n : ℕ) → Map.get (Text.append "tsk" (Text.append "_" (e.uuid n))) m ≡ none

new_id-fresh :
    (e : Env) (w : World) (m : Map Task) (id : String)
    → IsFresh e m
    → (new_id "tsk" e w).0 ≡ ok id
    → Map.get id m ≡ none
unfolding new_id random_uuid ◌>>=◌
new_id-fresh e w m id fresh i = subst (λ j. Map.get j m ≡ none) (ok_id _ id i) (fresh w.draws)

Fits-new :
    (id : String) (parent : Option String) (b : Option TaskBudget) (t : Task) (d : ℕ) (e : Env)
    (w : World)
    → IsForest (tasks_of w)
    → Map.get id (tasks_of w) ≡ none
    → t.parent_task_id ≡ parent
    → (validate_parent none parent b e w).0 ≡ ok d
    → Fits (tasks_of w) id t
Fits-new id parent b t d e w h new hung granted =
    elim (validate_parent_sound e w none parent b d h granted) [
      | inl (nowhere, _) ↦ Fits.top (ap truthy hung ∙ nowhere)
      | inr (p, under, place) ↦
          Fits.below (ap truthy hung ∙ under)
            (fresh-Clear new (h.rooted p place.parent place.found))
    ]

create_task-InForest :
    (i : CreateTaskInput) (actor_type : Creator) (actor_id : String) (e : Env) (w : World)
    → IsForest (tasks_of w)
    → IsFresh e (tasks_of w)
    → InForest (create_task i actor_type actor_id e w)
unfolding create_task
create_task-InForest i actor_type actor_id e w h fresh =
    let m = tasks_of w in
    then_rest m h _ _ e w (step-check_actor actor_type actor_id) refl λ _ w1 s1 _.
      then_rest m h _ _ e w1 (step-check_optional agents _) s1 λ _ w2 s2 _.
        then_rest m h _ _ e w2 (step-check_optional conversations _) s2 λ _ w3 s3 _.
          then_rest m h _ _ e w3 (check Failure.invalid _) s3 λ b w4 s4 _.
            then_rest m h _ _ e w4 (step-validate_parent _ _ _) s4 λ d w5 s5 i5.
              then_rest m h _ _ e w5 tasks-IsReader.tick s5 λ created w6 s6 _.
                then_rest m h _ _ e w6 (Steps-new_id "tsk") s6 λ id w7 s7 i7.
                  then_rest m h _ _ e w7 Steps-env_config s7 λ c w8 s8 _.
                    then_rest m h _ _ e w8 (check Failure.invalid _) s8 λ t w9 s9 i9.
                      let same =
                        parse_task-trimmed _ t (or_throw-some Failure.invalid _ t e w8 i9) in
                      let new = new_id-fresh e w6 m id fresh i7 in
                      let fits =
                        Fits-new id i.parent_task_id (some b) t d e w4 (subst IsForest (sym s4) h)
                          (ap (Map.get id) s4 ∙ new) (ap (λ (u : Task). u.parent_task_id) same)
                          i5 in
                      then_put m h t _ e w9 s9 (Fits-at s4 (ap (λ (u : Task). u.id) same) fits)
                        (Steps-announce _ _ _ _ _ _ ⨾ λ _. done _)

-- In a forest of tasks, creating a task leaves a forest, whatever parent the input names, and
-- whether the method returns or throws; the ids that randomUUID yields are taken to be unused.
pub create_task-IsForest :
    (i : CreateTaskInput) (actor_type : Creator) (actor_id : String) (e : Env) (w : World)
    → IsForest w.repo.tasks
    → IsFresh e w.repo.tasks
    → IsForest (create_task i actor_type actor_id e w).1.repo.tasks
create_task-IsForest i actor_type actor_id e w h fresh =
    InForest-tasks _ (create_task-InForest i actor_type actor_id e w h fresh)

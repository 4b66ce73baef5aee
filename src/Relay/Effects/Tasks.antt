-- ===== src/Relay/Effects/Tasks.antt =====
-- The methods on tasks, and `resolveApproval`.
use noudle_agents.Relay.Effects.{IsKept-IsReader}
use noudle_agents.Base.{ℕ, zero, suc, String, Option, none, some, List, ◌∷◌, Bool}
use noudle_agents.Protocol.{
  Task, TaskBudget, CreateTaskInput, TaskPatch, DelegateTaskInput, Creator,
}
use noudle_agents.Repository.State.{agents, conversations, tasks, approvals}
use noudle_agents.App.{World, App}
use noudle_agents.App.Steps.{Steps}
use noudle_agents.Relay.Effects.{
  IsKept, IsReader, IsKept-IsReader, ◌⨾◌, done, check, guard, Steps-new_id, Steps-announce,
  Steps-require, Steps-list_all, Steps-reads, Steps-env_config, Steps-choice, Steps-refuse,
}
use noudle_agents.Relay.Effects.Agents.{step-check_agent, step-check_actor, step-check_optional}
use noudle_agents.Relay.Hierarchy.{follow, climb, validate_under, validate_some, validate_parent}
use noudle_agents.Relay.Tasks.{
  create_task, updated_depth, update_task, delegate_task, block_task, complete_task,
}
use noudle_agents.Relay.Approvals.{Decision, resolve_approval, write_decision}

module _ {ℓ} {R : World → World → Type ℓ} ⦃s : IsReader R⦄ where
  step-follow :
      (next : Task → App (Unit {0})) (id : Option String)
      → ((t : Task) → Steps R (next t))
      → Steps R (follow next id)
  unfolding follow
  step-follow next none h = done _
  step-follow next (some id) h = Steps-require tasks _ ⨾ λ t. h t

  step-climb :
      (fuel : ℕ) (task_id : Option String) (visited : List String) (t : Task)
      → Steps R (climb fuel task_id visited t)
  unfolding climb
  step-climb zero task_id visited t = Steps-refuse _
  step-climb (suc fuel) task_id visited t =
      guard _ _ ⨾ λ _. guard _ _ ⨾ λ _. step-follow _ _ (step-climb fuel task_id (t.id ∷ visited))

  step-validate_under :
      (task_id : Option String) (parent_id : String) (b : Option TaskBudget)
      → Steps R (validate_under task_id parent_id b)
  unfolding validate_under
  step-validate_under task_id parent_id b = guard _ _ ⨾ λ _. Steps-require tasks _ ⨾ λ _.
      Steps-list_all tasks ⨾ λ _. guard _ _ ⨾ λ _. Steps-reads _ ⨾ λ _.
      step-climb _ _ _ _ ⨾ λ _. Steps-env_config ⨾ λ _. guard _ _ ⨾ λ _. guard _ _ ⨾ λ _. done _

  step-validate_some :
      (task_id parent_id : Option String) (b : Option TaskBudget)
      → Steps R (validate_some task_id parent_id b)
  unfolding validate_some
  step-validate_some task_id none b = done _
  step-validate_some task_id (some p) b = step-validate_under task_id p b

  pub step-validate_parent :
      (task_id parent_id : Option String) (b : Option TaskBudget)
      → Steps R (validate_parent task_id parent_id b)
  unfolding validate_parent
  step-validate_parent task_id parent_id b = step-validate_some task_id _ b

  pub step-updated_depth :
      (id : String) (parent : Option String) (t : Task) → Steps R (updated_depth id parent t)
  unfolding updated_depth
  step-updated_depth id parent t = Steps-choice _ _ _ (done _) (step-validate_parent _ _ _)

module _ {ℓ} {R : World → World → Type ℓ} ⦃s : IsKept R⦄ where
  pub step-create_task :
      (i : CreateTaskInput) (t : Creator) (a : String) → Steps R (create_task i t a)
  unfolding create_task
  step-create_task i t a = step-check_actor _ _ ⨾ λ _. step-check_optional agents _ ⨾ λ _.
      step-check_optional conversations _ ⨾ λ _. check _ _ ⨾ λ _. step-validate_parent _ _ _ ⨾ λ _.
      s.tick ⨾ λ _. Steps-new_id _ ⨾ λ _. Steps-env_config ⨾ λ _.
      check _ _ ⨾ λ _. s.write tasks _ ⨾ λ _. Steps-announce _ _ _ _ _ _ ⨾ λ _. done _

  pub step-update_task :
      (id : String) (p : TaskPatch) (t : Creator) (a : String) → Steps R (update_task id p t a)
  unfolding update_task
  step-update_task id p t a = step-check_actor _ _ ⨾ λ _. Steps-require tasks _ ⨾ λ _.
      step-check_optional agents _ ⨾ λ _. step-check_optional conversations _ ⨾ λ _.
      step-updated_depth _ _ _ ⨾ λ _. check _ _ ⨾ λ _.
      s.tick ⨾ λ _. check _ _ ⨾ λ _. s.write tasks _ ⨾ λ _. Steps-announce _ _ _ _ _ _ ⨾ λ _. done _

  pub step-delegate_task :
      (id : String) (i : DelegateTaskInput) (t : Creator) (a : String)
      → Steps R (delegate_task id i t a)
  unfolding delegate_task
  step-delegate_task id i t a = step-check_actor _ _ ⨾ λ _. Steps-require tasks _ ⨾ λ _.
      Steps-require agents _ ⨾ λ _. guard _ _ ⨾ λ _. step-validate_parent _ _ _ ⨾ λ _.
      s.tick ⨾ λ _. check _ _ ⨾ λ _. s.write tasks _ ⨾ λ _. Steps-announce _ _ _ _ _ _ ⨾ λ _. done _

  pub step-block_task :
      (id blocker : String) (b : Bool) (a : String) → Steps R (block_task id blocker b a)
  unfolding block_task
  step-block_task id blocker b a = step-check_agent _ ⨾ λ _. step-update_task _ _ _ _

  pub step-complete_task :
      (id summary : String) (xs ys : List String) (a : String)
      → Steps R (complete_task id summary xs ys a)
  unfolding complete_task
  step-complete_task id summary xs ys a = step-check_agent _ ⨾ λ _. Steps-require tasks _ ⨾ λ _.
      guard _ _ ⨾ λ _.
      s.tick ⨾ λ _. check _ _ ⨾ λ _. s.write tasks _ ⨾ λ _. Steps-announce _ _ _ _ _ _ ⨾ λ _. done _

  pub step-resolve_approval : (id : String) (d : Decision) → Steps R (resolve_approval id d)
  unfolding resolve_approval write_decision
  step-resolve_approval id d = Steps-require approvals _ ⨾ λ _. guard _ _ ⨾ λ _. s.tick ⨾ λ _.
      guard _ _ ⨾ λ _. s.tick ⨾ λ _. check _ _ ⨾ λ _.
      s.write approvals _ ⨾ λ _. Steps-env_config ⨾ λ _. Steps-announce _ _ _ _ _ _ ⨾ λ _. done _

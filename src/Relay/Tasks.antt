-- ===== src/Relay/Tasks.antt =====
-- `createTask`, `updateTask`, `delegateTask`, `blockTask`, `completeTask`.
pub mod Keeping
pub mod Forest
pub mod Creation
pub mod Single
pub mod Transitions
pub mod Ended
use noudle_agents.Base.{
  ℕ, String, Option, none, some, List, [], ◌∷◌, Bool, true, false, not, ◌&&◌, truthy, same_option,
  ◌otherwise◌, if◌then◌else◌,
}
use noudle_agents.Protocol.{
  Task, TaskStatus, TaskBudget, BudgetPatch, Priority, CreateTaskInput, TaskPatch,
  DelegateTaskInput, Creator, EventType, Value, parse_task, parse_budget, is_terminal,
}
use noudle_agents.Repository.State.{EntityKind}
use noudle_agents.Repository.Entities
use noudle_agents.Relay.Events.{new_id, announce}
use noudle_agents.Relay.Lookup.{get_agent, get_task}
use noudle_agents.Relay.Conversations.{check_agent, check_actor, check_optional}
use noudle_agents.Relay.Hierarchy.{validate_parent}
use noudle_agents.App.{App, config, conflict, now, parsed, pure, throw_if, ◌>>=◌, ◌>>◌}

-- `{ ...budget, ...patch }`.
abbrev pub patch_budget : Option BudgetPatch → TaskBudget → TaskBudget
patch_budget none b = b
patch_budget (some p) b = record {
  max_tokens = p.max_tokens otherwise b.max_tokens;
  max_wall_seconds = p.max_wall_seconds otherwise b.max_wall_seconds;
  max_child_tasks = p.max_child_tasks otherwise b.max_child_tasks;
}

-- The defaults of `TaskBudgetSchema`.
abbrev pub default_budget : TaskBudget
default_budget = record { max_tokens = 100000; max_wall_seconds = 3600; max_child_tasks = 4 }

-- `input.ownerAgentId ? "accepted" : "draft"`.
abbrev pub initial_status : Option String → TaskStatus
initial_status none = TaskStatus.draft
initial_status (some id) = TaskStatus.accepted

unfoldable pub create_task : CreateTaskInput → Creator → String → App Task
create_task input actor_type actor_id = do
  check_actor actor_type actor_id
  check_optional EntityKind.agents input.owner_agent_id
  check_optional EntityKind.conversations input.conversation_id
  budget ← parsed (parse_budget (patch_budget input.budget default_budget))
  depth ← validate_parent none input.parent_task_id (some budget)
  created ← now
  id ← new_id "tsk"
  c ← config
  task ← parsed (
      parse_task (record {
        id = id;
        workspace_id = c.workspace_id;
        parent_task_id = input.parent_task_id;
        conversation_id = input.conversation_id;
        title = input.title;
        objective = input.objective;
        acceptance_criteria = input.acceptance_criteria otherwise [];
        owner_agent_id = input.owner_agent_id;
        created_by_type = actor_type;
        created_by_id = actor_id;
        status = initial_status (truthy input.owner_agent_id);
        priority = input.priority otherwise Priority.normal;
        depth = depth;
        budget = budget;
        blocker = none;
        result_summary = none;
        created_at = created;
        updated_at = created;
      }))
  Entities.put EntityKind.tasks task
  announce "task" task.id EventType.task_created (("task", Value.task task) ∷ []) actor_type
      actor_id
  pure task

abbrev pub given : Option (Option String) → Option String
given none = none
given (some o) = o

-- `{ ...current, ...patch, budget, parentTaskId, depth }`.
abbrev pub patch_task : TaskPatch → TaskBudget → Option String → ℕ → Task → Task
patch_task p budget parent depth t = record t {
  title = p.title otherwise t.title;
  objective = p.objective otherwise t.objective;
  acceptance_criteria = p.acceptance_criteria otherwise t.acceptance_criteria;
  owner_agent_id = p.owner_agent_id otherwise t.owner_agent_id;
  parent_task_id = parent;
  conversation_id = p.conversation_id otherwise t.conversation_id;
  status = p.status otherwise t.status;
  priority = p.priority otherwise t.priority;
  depth = depth;
  budget = budget;
  blocker = p.blocker otherwise t.blocker;
  result_summary = p.result_summary otherwise t.result_summary;
}

-- `parentTaskId === current.parentTaskId ? current.depth : await this.validateParent(…)`.
unfoldable pub updated_depth : String → Option String → Task → App ℕ
updated_depth id parent current =
    if same_option parent current.parent_task_id
    then pure current.depth
    else validate_parent (some id) parent none

abbrev pub update_event : TaskStatus → EventType
update_event TaskStatus.completed = EventType.task_completed
update_event TaskStatus.blocked = EventType.task_blocked
update_event _ = EventType.task_updated

unfoldable pub update_task : String → TaskPatch → Creator → String → App Task
update_task id patch actor_type actor_id = do
  check_actor actor_type actor_id
  current ← get_task id
  check_optional EntityKind.agents (given patch.owner_agent_id)
  check_optional EntityKind.conversations (given patch.conversation_id)
  let parent = patch.parent_task_id otherwise current.parent_task_id
  depth ← updated_depth id parent current
  budget ← parsed (parse_budget (patch_budget patch.budget current.budget))
  updated ← now
  task ←
      parsed (
        parse_task (record (patch_task patch budget parent depth current) { updated_at = updated }))
  Entities.put EntityKind.tasks task
  announce "task" task.id (update_event task.status) (("task", Value.task task) ∷ []) actor_type
      actor_id
  pure task

text_or_null : Option String → Value
text_or_null none = Value.null
text_or_null (some s) = Value.text s

unfoldable pub delegate_task : String → DelegateTaskInput → Creator → String → App Task
unfolding text_or_null
delegate_task id input actor_type actor_id = do
  check_actor actor_type actor_id
  task ← get_task id
  agent ← get_agent input.agent_id
  throw_if (is_terminal task.status) (conflict "task_terminal")
  validate_parent (some task.id) task.parent_task_id none
  updated ← now
  delegated ← parsed (
      parse_task (record task {
        owner_agent_id = some agent.id;
        status = TaskStatus.accepted;
        updated_at = updated;
      }))
  Entities.put EntityKind.tasks delegated
  announce "task" task.id EventType.task_delegated
      (("task", Value.task delegated)
        ∷ ("fromAgentId", text_or_null task.owner_agent_id)
        ∷ ("toAgentId", Value.text agent.id)
        ∷ ("message", Value.text input.message)
        ∷ ("contextRefs", Value.texts input.context_refs)
        ∷ [])
      actor_type actor_id
  pure delegated

abbrev pub no_patch : TaskPatch
no_patch = record {
  title = none;
  objective = none;
  acceptance_criteria = none;
  owner_agent_id = none;
  parent_task_id = none;
  conversation_id = none;
  status = none;
  priority = none;
  budget = none;
  blocker = none;
  result_summary = none;
}

unfoldable pub block_task : String → String → Bool → String → App Task
block_task id blocker needs_user actor_agent_id = do
  check_agent actor_agent_id
  update_task id
      (record no_patch {
        status = some (if needs_user then TaskStatus.waiting_user else TaskStatus.blocked);
        blocker = some (some blocker);
      })
      Creator.agent actor_agent_id

abbrev pub is_completed : TaskStatus → Bool
is_completed TaskStatus.completed = true
is_completed _ = false

unfoldable pub complete_task : String → String → List String → List String → String → App Task
complete_task id summary artifact_ids evidence_refs actor_agent_id = do
  check_agent actor_agent_id
  current ← get_task id
  throw_if (is_terminal current.status && not (is_completed current.status))
      (conflict "task_terminal")
  updated ← now
  task ← parsed (
      parse_task (record current {
        status = TaskStatus.completed;
        blocker = none;
        result_summary = some summary;
        updated_at = updated;
      }))
  Entities.put EntityKind.tasks task
  announce "task" task.id EventType.task_completed
      (("task", Value.task task)
        ∷ ("summary", Value.text summary)
        ∷ ("artifactIds", Value.texts artifact_ids)
        ∷ ("evidenceRefs", Value.texts evidence_refs)
        ∷ [])
      Creator.agent actor_agent_id
  pure task

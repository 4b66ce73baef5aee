-- ===== src/Relay/Hierarchy.antt =====
-- `validateParent`: where a task may hang in the hierarchy of tasks.
pub mod Forest
pub mod Climbing
pub mod Validation
pub mod Ending
use noudle_agents.Base.{
  ℕ, zero, suc, ◌+◌, String, Option, none, some, List, [], ◌∷◌, Bool, false, not, ◌&&◌, is, ltb,
  leb, contains, keep, length, truthy,
}
use noudle_agents.Protocol.{Task, TaskBudget}
use noudle_agents.Relay.Lookup.{get_task, list_tasks}
use noudle_agents.App.{App, Failure, config, conflict, gets, pure, throw, throw_if, ◌>>=◌, ◌>>◌}

-- `cursor.parentTaskId ? await this.getTask(cursor.parentTaskId) : null`, and on from there.
unfoldable pub follow : (Task → App (Unit {0})) → Option String → App (Unit {0})
follow next none = pure tt
follow next (some id) = do parent ← get_task id; next parent

-- The loop `while (cursor)`. Each round visits a task that it has not visited, so one more round
-- than there are tasks is enough.
unfoldable pub climb : ℕ → Option String → List String → Task → App (Unit {0})
climb zero task_id visited cursor = throw Failure.diverged
climb (suc fuel) task_id visited cursor = do
  throw_if (is task_id cursor.id) (conflict "task_cycle")
  throw_if (contains cursor.id visited) (conflict "task_cycle")
  follow (climb fuel task_id (cursor.id ∷ visited)) (truthy cursor.parent_task_id)

-- `task.parentTaskId === parentId && task.id !== taskId`.
abbrev pub is_sibling : Option String → String → Task → Bool
is_sibling task_id parent_id t = is t.parent_task_id parent_id && not (is task_id t.id)

-- `budget && depth > 0 && budget.maxChildTasks > 8`.
abbrev pub bad_budget : Option TaskBudget → ℕ → Bool
bad_budget none depth = false
bad_budget (some b) depth = ltb 0 depth && ltb 8 b.max_child_tasks

unfoldable pub validate_under : Option String → String → Option TaskBudget → App ℕ
validate_under task_id parent_id budget = do
  throw_if (is task_id parent_id) (conflict "task_cycle")
  parent ← get_task parent_id
  tasks ← list_tasks
  throw_if (leb parent.budget.max_child_tasks (length (keep (is_sibling task_id parent_id) tasks)))
      (conflict "task_fanout_limit")
  fuel ← gets (λ w. suc (length w.repo.tasks))
  climb fuel task_id [] parent
  c ← config
  throw_if (ltb c.max_delegation_depth (parent.depth + 1)) (conflict "task_depth_limit")
  throw_if (bad_budget budget (parent.depth + 1)) (Failure.domain 400 "invalid_budget")
  pure (parent.depth + 1)

unfoldable pub validate_some : Option String → Option String → Option TaskBudget → App ℕ
validate_some task_id none budget = pure 0
validate_some task_id (some parent_id) budget = validate_under task_id parent_id budget

unfoldable pub validate_parent : Option String → Option String → Option TaskBudget → App ℕ
validate_parent task_id parent_id budget = validate_some task_id (truthy parent_id) budget

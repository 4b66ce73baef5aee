-- ===== src/Relay/Tasks/Ended.antt =====
-- A task that was completed stays out of delegation.
use noudle_agents.Base.{◌≡◌, ◌≢◌, sym, ap, ◌∙◌, String, some, List, false, eq_refl, arith}
use noudle_agents.Base.Map
use noudle_agents.Base.Map.{get-set}
use noudle_agents.Protocol.{Task, TaskStatus, DelegateTaskInput, Creator, is_terminal}
use noudle_agents.App.{World, Env, ok}
use noudle_agents.App.Holds.{Holds-ok}
use noudle_agents.Relay.Tasks.{delegate_task, complete_task}
use noudle_agents.Relay.Tasks.Transitions.{delegate_task-IsDelegation, complete_task-IsCompletion}

some-injective : (t u : Task) → some t ≡ some u → t ≡ u
some-injective t u h = cc

completed-terminal : (s : TaskStatus) → s ≡ TaskStatus.completed → is_terminal s ≢ false
completed-terminal s h unsettled = ground (arith, h, unsettled)

-- Once a task has been completed, no delegation of it returns, to whatever agent and by whatever
-- actor, in any later world in which the task's entry is still the one that the completion left.
pub complete_task-delegate_task :
    (id summary : String) (xs ys : List String) (actor_id : String) (i : DelegateTaskInput)
    (actor_type : Creator) (delegator_id : String) (e : Env) (w w' : World) (t u : Task)
    → (complete_task id summary xs ys actor_id e w).0 ≡ ok t
    → Map.get t.id w'.repo.tasks
      ≡ Map.get t.id (complete_task id summary xs ys actor_id e w).1.repo.tasks
    → (delegate_task t.id i actor_type delegator_id e w').0 ≢ ok u
complete_task-delegate_task id summary xs ys actor_id i actor_type delegator_id e w w' t u h kept
      again =
    let done = Holds-ok (complete_task-IsCompletion id summary xs ys actor_id e w) h in
    let next = Holds-ok (delegate_task-IsDelegation t.id i actor_type delegator_id e w') again in
    let stored : Map.get t.id w'.repo.tasks ≡ some t =
      kept ∙ ap (Map.get t.id) done.written ∙ get-set t.id t.id t w.repo.tasks ∙ rw eq_refl in
    let same = some-injective next.current t (sym next.found ∙ stored) in
    completed-terminal next.current.status (ap (λ (v : Task). v.status) same ∙ done.status)
      next.unsettled

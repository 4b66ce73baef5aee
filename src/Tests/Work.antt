-- ===== src/Tests/Work.antt =====
-- The properties of the worker, at concrete inputs.
use noudle_agents.Protocol.{
  JobStatus, parse_run, parse_agent, parse_message, QueueJob, Creator, CreateScheduleInput,
  UpdateScheduleInput,
}
use noudle_agents.Relay.Effects.{IsKept-IsReader}
use noudle_agents.Base.{◌≡◌, refl, String, Option, none, some, [], ◌∷◌, Bool}
use noudle_agents.Base.Map
use noudle_agents.Base.Text
use noudle_agents.Repository.State.{create_memory_state}
use noudle_agents.Repository.Entities
use noudle_agents.Repository.Entities.{put, put_over}
use noudle_agents.Repository.EventLog.{append_event, last_sequence, stamp}
use noudle_agents.Repository.Jobs.{complete_found, complete_job}
use noudle_agents.Relay.Events.{emit, new_id}
use noudle_agents.Repository.ScheduleClaims.{next_due}
use noudle_agents.Relay.Calls.Log.{LogStep-IsKept}
use noudle_agents.Relay.Schedules.{create_schedule, update_schedule, delete_schedule}
use noudle_agents.Relay.Schedules.Triggering.{touch_found, trigger_webhook}
use noudle_agents.Relay.Schedules.Keeping.{AllStanding}
use noudle_agents.App.{now, random_uuid, publish, World, App, ok, pure, ◌>>=◌, ◌>>◌}
use noudle_agents.Worker.Processing.{
  guarded, delegation, emit_runtime, finish_task, quietly, set_agent_status, Worker, RuntimeContext,
  RuntimeEvent, RuntimeEventType, RuntimeResult,
}
use noudle_agents.Worker.Jobs.{
  process, process_id, process_found, process_run, get_optional, attempt_found, attempt, start_run,
  complete_run, execute_run, recover, respond,
}
use noudle_agents.Worker.Jobs.Settling.{IsSettled, process-IsSettled}
use noudle_agents.Worker.Polling.{dispatch_one_schedule}
use noudle_agents.Worker.Polling.Locks.{IsReleased, dispatch_one_schedule-unlocks}
use noudle_agents.Worker.Polling.Standing.{schedules-Standing}
use noudle_agents.Tests.Samples.{env, world, agent, message, run, job, schedule, conversation}

-- A runtime that reports one piece of its answer.
abbrev speak : RuntimeContext → (RuntimeEvent → App (Unit {0})) → App RuntimeResult
speak x report =
    report (record { type = RuntimeEventType.message_delta; payload = [] })
    >> pure (record {
      content = "Done";
      summary = "Answered";
      response_parts = none;
      suggested_delegation = none;
    })

abbrev worker : Worker
worker = record {
  id = "worker_1";
  runtime_name = "mock";
  execute = speak;
  notify = λ m a. pure tt;
  error_text = λ x. "Error";
}

-- A run that waits, its job claimed for the second time.
abbrev busy : World
busy = world (record create_memory_state {
  agents = Map.set "a1" (agent "a1") [];
  conversations = Map.set "c1" (conversation "c1" ("a1" ∷ [])) [];
  messages = Map.set "m1" (message "m1" "c1") [];
  runs = Map.set "r1" (run "r1") [];
  jobs = Map.set "j1" (record (job "j1") { attempts = 2 }) [];
})

abbrev claimed : QueueJob
claimed = record (job "j1") { attempts = 2 }

busy-returns : (process worker claimed env busy).0 ≡ ok tt
unfolding process process_id ◌>>=◌ Entities.get process_found Map.get Map.set process_run
    get_optional attempt_found attempt now guarded parse_run Text.utf16_length start_run put
    put_over publish random_uuid Text.trim parse_agent parse_message emit new_id touch_found
    append_event last_sequence stamp complete_found complete_job complete_run execute_run recover
    respond delegation emit_runtime finish_task quietly set_agent_status
busy-returns = refl

abbrev finished : QueueJob
finished = record claimed { status = JobStatus.completed; updated_at = 1010 }

busy-found : Map.get "j1" (process worker claimed env busy).1.repo.jobs ≡ some finished
unfolding process process_id ◌>>=◌ Entities.get process_found Map.get Map.set process_run
    get_optional attempt_found attempt now guarded parse_run Text.utf16_length start_run put
    put_over publish random_uuid Text.trim parse_agent parse_message emit new_id touch_found
    append_event last_sequence stamp complete_found complete_job complete_run execute_run recover
    respond delegation emit_runtime finish_task quietly set_agent_status
busy-found = refl

process-IsSettled_example : IsSettled env 2 finished
process-IsSettled_example =
    process-IsSettled worker claimed env busy busy-returns finished busy-found

abbrev due_world : World
due_world = world (record create_memory_state { schedules = Map.set "s1" (schedule "s1") [] })

dispatch_one_schedule-unlocks_example :
    ((b : Bool) × ((dispatch_one_schedule worker env due_world).0 ≡ ok b))
    × IsReleased (next_due "ws" 1000 due_world.repo) (dispatch_one_schedule worker env due_world).1
dispatch_one_schedule-unlocks_example = dispatch_one_schedule-unlocks worker env due_world

due_world-AllStanding : AllStanding due_world.repo.schedules
unfolding Map.set
due_world-AllStanding = (record { timed = refl; opened = refl }, tt)

schedules-Standing_example :
    ((i : CreateScheduleInput) (t : Creator) (a : String)
      → AllStanding (create_schedule i t a env due_world).1.repo.schedules)
    × ((id : String) (i : UpdateScheduleInput) (t : Creator) (a : String)
        → AllStanding (update_schedule id i t a env due_world).1.repo.schedules)
    × ((id : String) (t : Creator) (a : String)
        → AllStanding (delete_schedule id t a env due_world).1.repo.schedules)
    × ((id token : String) (payload : Option String)
        → AllStanding (trigger_webhook id token payload env due_world).1.repo.schedules)
    × ((w : Worker) → AllStanding (dispatch_one_schedule w env due_world).1.repo.schedules)
schedules-Standing_example = schedules-Standing env due_world due_world-AllStanding

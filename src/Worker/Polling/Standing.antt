-- ===== src/Worker/Polling/Standing.antt =====
-- The operations on schedules, the worker's among them, keep the schedules standing well.
use noudle_agents.Base.{
  true, false, ◌≡◌, refl, ℕ, String, Option, none, some, [], ◌∷◌, All, All-head, All-keep,
  All-sort_by, ◌otherwise◌,
}
use noudle_agents.Base.Map.{Map, values}
use noudle_agents.Protocol.{Schedule, CreateScheduleInput, UpdateScheduleInput, Creator}
use noudle_agents.Repository.ScheduleClaims.{
  next_due, lock_due, claim_due_schedule, release_schedule_claim,
}
use noudle_agents.Relay.Schedules.{create_schedule, update_schedule, delete_schedule}
use noudle_agents.Relay.Schedules.Triggering.{trigger_due, trigger_webhook}
use noudle_agents.Relay.Schedules.Keeping.{
  IsStanding, AllStanding, schedules_of, Standing, Standing-schedules,
}
use noudle_agents.Relay.Schedules.Standing.{
  create_schedule-Standing, update_schedule-Standing, delete_schedule-Standing,
  trigger_schedule-Standing, trigger_webhook-Standing,
}
use noudle_agents.App.{World, Env, Result, now, pure, ◌>>=◌, ◌>>◌}
use noudle_agents.App.Holds.{returned, threw}
use noudle_agents.Worker.Processing.{Worker, settle, guarded}
use noudle_agents.Worker.Polling.{dispatch_claimed, dispatch_one_schedule}

values-Standing : (m : Map Schedule) → AllStanding m → All IsStanding (values m)
values-Standing [] h = tt
values-Standing ((k, s) ∷ m) h = (h.0, values-Standing m h.1)

-- What is due is in the table.
next_due-IsStanding :
    (workspace_id : String) (at : ℕ) (w : World) (s : Schedule)
    → AllStanding (schedules_of w)
    → next_due workspace_id at w.repo ≡ some s
    → IsStanding s
unfolding next_due
next_due-IsStanding workspace_id at w s all h =
    All-head IsStanding _ s
      (All-sort_by IsStanding _ _ (All-keep IsStanding _ _ (values-Standing _ all))) h

trigger_due-Standing :
    (s : Schedule) (at : ℕ) (e : Env) (w : World)
    → IsStanding s
    → AllStanding (schedules_of w)
    → Standing (trigger_due s at e w)
unfolding trigger_due ◌>>=◌
trigger_due-Standing s at e w h all = trigger_schedule-Standing s at _ _ _ e w h all

settle-Standing :
    {A : Type 0} (s : Schedule) (r : Result A × World) (e : Env)
    → Standing r
    → AllStanding (
        schedules_of
          (settle r.0
            (λ error. release_schedule_claim s.id >> pure false)
            (λ sent. pure true)
            e
            r.1).1)
unfolding release_schedule_claim ◌>>=◌
settle-Standing s _ e (returned h) = h
settle-Standing s _ e (threw {x} {w} h) = h

dispatch_claimed-Standing :
    (at : ℕ) (s : Schedule) (e : Env) (w : World)
    → IsStanding s
    → AllStanding (schedules_of w)
    → AllStanding (schedules_of (dispatch_claimed at (some s) e w).1)
unfolding dispatch_claimed guarded
dispatch_claimed-Standing at s e w h all =
    settle-Standing s (trigger_due s (s.next_run_at otherwise at) e w) e
      (trigger_due-Standing s _ e w h all)

dispatch_none-Standing :
    (at : ℕ) (e : Env) (w : World)
    → AllStanding (schedules_of w)
    → AllStanding (schedules_of (dispatch_claimed at none e w).1)
unfolding dispatch_claimed
dispatch_none-Standing at e w all = all

lock_due-Standing :
    (id : String) (at : ℕ) (o : Option Schedule) (e : Env) (w : World)
    → ((s : Schedule) → o ≡ some s → IsStanding s)
    → AllStanding (schedules_of w)
    → AllStanding (schedules_of ((lock_due id at o >>= dispatch_claimed at) e w).1)
unfolding lock_due ◌>>=◌
lock_due-Standing id at none e w h all = dispatch_none-Standing at e w all
lock_due-Standing id at (some s) e w h all = dispatch_claimed-Standing at s e _ (h s refl) all

dispatch_one_schedule-Standing :
    (worker : Worker) (e : Env) (w : World)
    → AllStanding (schedules_of w)
    → AllStanding (schedules_of (dispatch_one_schedule worker e w).1)
unfolding dispatch_one_schedule claim_due_schedule ◌>>=◌ now
dispatch_one_schedule-Standing worker e w all =
    lock_due-Standing worker.id (e.clock w.ticks) _ e _ (λ s h. next_due-IsStanding _ _ w s all h)
      all

-- From a world in which every schedule has a next run exactly when it is enabled and timed, and a
-- token exactly when it is triggered by a webhook, each operation on schedules leads to such a world,
-- whether it returns or throws.
pub schedules-Standing :
    (e : Env) (w : World)
    → AllStanding (schedules_of w)
    → ((i : CreateScheduleInput) (t : Creator) (a : String)
        → AllStanding (schedules_of (create_schedule i t a e w).1))
      × ((id : String) (i : UpdateScheduleInput) (t : Creator) (a : String)
          → AllStanding (schedules_of (update_schedule id i t a e w).1))
      × ((id : String) (t : Creator) (a : String)
          → AllStanding (schedules_of (delete_schedule id t a e w).1))
      × ((id token : String) (payload : Option String)
          → AllStanding (schedules_of (trigger_webhook id token payload e w).1))
      × ((worker : Worker) → AllStanding (schedules_of (dispatch_one_schedule worker e w).1))
schedules-Standing e w all = (
  λ i t a. Standing-schedules _ (create_schedule-Standing i t a e w all),
  λ id i t a. Standing-schedules _ (update_schedule-Standing id i t a e w all),
  λ id t a. Standing-schedules _ (delete_schedule-Standing id t a e w all),
  λ id token payload. Standing-schedules _ (trigger_webhook-Standing id token payload e w all),
  λ worker. dispatch_one_schedule-Standing worker e w all,
)

-- ===== src/Worker/Polling.antt =====
-- `dispatchOneSchedule`, `drainOnce` and the loops of `poll`.
pub mod Locks
pub mod Standing
use noudle_agents.Base.{
  ℕ, zero, suc, Option, none, some, List, [], ◌∷◌, Bool, true, false, ◌otherwise◌, if◌then◌else◌,
}
use noudle_agents.Protocol.{Schedule, QueueJob}
use noudle_agents.App.{App, config, now, pure, ◌>>=◌, ◌>>◌}
use noudle_agents.Worker.Processing.{Worker, guarded}
use noudle_agents.Worker.Jobs.{process}
use noudle_agents.Repository.Jobs.{claim}
use noudle_agents.Repository.ScheduleClaims.{claim_due_schedule, release_schedule_claim}
use noudle_agents.Relay.Schedules.Triggering.{trigger_due}

unfoldable pub dispatch_claimed : ℕ → Option Schedule → App Bool
dispatch_claimed at none = pure false
dispatch_claimed at (some schedule) =
    guarded (trigger_due schedule (schedule.next_run_at otherwise at))
      (λ error. release_schedule_claim schedule.id >> pure false) (λ sent. pure true)

unfoldable pub dispatch_one_schedule : Worker → App Bool
dispatch_one_schedule worker = do
  at ← now
  c ← config
  schedule ← claim_due_schedule c.workspace_id worker.id at
  dispatch_claimed at schedule

-- `claim(this.config.workspaceId, this.workerId, ["agent.run"])`.
unfoldable pub claim_run : Worker → App (Option QueueJob)
claim_run worker = do c ← config; claim c.workspace_id worker.id ("agent.run" ∷ [])

unfoldable pub drain_claimed : Worker → Option QueueJob → App Bool
drain_claimed worker none = pure false
drain_claimed worker (some job) = process worker job >> pure true

unfoldable pub drain_job : Worker → Bool → App Bool
drain_job worker true = pure true
drain_job worker false = do job ← claim_run worker; drain_claimed worker job

unfoldable pub drain_once : Worker → App Bool
drain_once worker = do dispatched ← dispatch_one_schedule worker; drain_job worker dispatched

-- The first loop of `poll`: at most `n` schedules, until none is dispatched.
unfoldable pub dispatch_upto : ℕ → Worker → App (Unit {0})
dispatch_upto zero worker = pure tt
dispatch_upto (suc n) worker = do
  dispatched ← dispatch_one_schedule worker
  if dispatched then dispatch_upto n worker else pure tt

-- The second loop: jobs are claimed while fewer than `maxConcurrentRuns` are active; `n` is how many
-- more may be. The processing of the jobs goes on after `poll`.
unfoldable pub claim_more : Option QueueJob → App (List QueueJob) → App (List QueueJob)
claim_more none rest = pure []
claim_more (some job) rest = do jobs ← rest; pure (job ∷ jobs)

unfoldable pub claim_upto : ℕ → Worker → App (List QueueJob)
unfolding claim_more
claim_upto zero worker = pure []
claim_upto (suc n) worker = do job ← claim_run worker; claim_more job (claim_upto n worker)

unfoldable pub poll : ℕ → Worker → App (List QueueJob)
poll capacity worker = dispatch_upto 25 worker >> claim_upto capacity worker

-- ===== src/Repository/Jobs.antt =====
-- The job queue: `enqueue`, `claim`, `completeJob`, `failJob`.
pub mod Exclusion
use noudle_agents.Base.{
  ℕ, ◌+◌, ◌*◌, String, Option, none, some, List, Bool, true, false, ◌&&◌, ◌||◌, ◌==◌, ltb, leb,
  keep, sort_by, head?, contains, ◌otherwise◌,
}
use noudle_agents.Base.Map
use noudle_agents.Base.Map.{values}
use noudle_agents.Protocol.{QueueJob, JobStatus}
use noudle_agents.App.{App, gets, modify, now, pure, ◌>>=◌, ◌>>◌}

abbrev pub lease : ℕ
lease = 5 * 60000

abbrev is_queued : JobStatus → Bool
is_queued JobStatus.queued = true
is_queued _ = false

abbrev is_running : JobStatus → Bool
is_running JobStatus.running = true
is_running _ = false

-- `lockedAt !== null && lockedAt < staleBefore`, with `staleBefore` five minutes before `at`.
abbrev pub is_stale : ℕ → Option ℕ → Bool
is_stale at none = false
is_stale at (some locked) = ltb (locked + lease) at

-- The filter of `claim`.
unfoldable pub claimable : String → List String → ℕ → QueueJob → Bool
claimable workspace_id kinds at j =
    j.workspace_id == workspace_id
    && contains j.kind kinds
    && ((is_queued j.status && leb j.available_at at)
        || (is_running j.status && is_stale at j.locked_at))

unfoldable pub locked : String → ℕ → QueueJob → QueueJob
locked worker_id at j = record j {
  status = JobStatus.running;
  attempts = j.attempts + 1;
  locked_at = some at;
  locked_by = some worker_id;
  updated_at = at;
}

-- The job that `claim` picks: the oldest of the claimable ones.
unfoldable pub next_job : String → List String → ℕ → Map.Map QueueJob → Option QueueJob
next_job workspace_id kinds at m =
    head? (sort_by (λ j. j.created_at) (keep (claimable workspace_id kinds at) (values m)))

unfoldable pub write_job : QueueJob → App (Unit {0})
write_job j = modify (λ r. record r { jobs = Map.set j.id j r.jobs })

unfoldable pub enqueue : QueueJob → App (Unit {0})
enqueue j = write_job j

unfoldable pub lock_next : String → ℕ → Option QueueJob → App (Option QueueJob)
lock_next worker_id at none = pure none
lock_next worker_id at (some j) = do
  write_job (locked worker_id at j)
  pure (some (locked worker_id at j))

-- `new Date()` and `Date.now()` are read as one instant.
unfoldable pub claim : String → String → List String → App (Option QueueJob)
unfolding lock_next
claim workspace_id worker_id kinds = do
  at ← now
  next ← gets (λ w. next_job workspace_id kinds at w.repo.jobs)
  lock_next worker_id at next

unfoldable pub complete_found : String → Option QueueJob → App (Unit {0})
complete_found id none = pure tt
complete_found id (some j) = do
  at ← now
  modify (λ r. record r {
    jobs = Map.set id (record j { status = JobStatus.completed; updated_at = at }) r.jobs;
  })

unfoldable pub complete_job : String → App (Unit {0})
unfolding complete_found
complete_job id = do found ← gets (λ w. Map.get id w.repo.jobs); complete_found id found

abbrev retry_status : Option ℕ → JobStatus
retry_status none = JobStatus.failed
retry_status (some at) = JobStatus.queued

unfoldable pub failed_job : String → Option ℕ → ℕ → QueueJob → QueueJob
failed_job error retry_at at j = record j {
  status = retry_status retry_at;
  available_at = retry_at otherwise j.available_at;
  locked_at = none;
  locked_by = none;
  error = some error;
  updated_at = at;
}

unfoldable pub fail_found : String → String → Option ℕ → Option QueueJob → App (Unit {0})
fail_found id error retry_at none = pure tt
fail_found id error retry_at (some j) = do
  at ← now
  modify (λ r. record r { jobs = Map.set id (failed_job error retry_at at j) r.jobs })

unfoldable pub fail_job : String → String → Option ℕ → App (Unit {0})
unfolding fail_found
fail_job id error retry_at = do
  found ← gets (λ w. Map.get id w.repo.jobs)
  fail_found id error retry_at found

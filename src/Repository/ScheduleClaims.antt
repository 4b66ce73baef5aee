-- ===== src/Repository/ScheduleClaims.antt =====
-- `claimDueSchedule` and `releaseScheduleClaim`.
pub mod Exclusion
use noudle_agents.Base.{
  ℕ, ◌+◌, String, Option, none, some, Bool, true, false, ◌&&◌, ◌==◌, ltb, leb, keep, sort_by, head?,
  ◌otherwise◌,
}
use noudle_agents.Base.Map
use noudle_agents.Base.Map.{Map, values}
use noudle_agents.Protocol.{Schedule}
use noudle_agents.Repository.State.{ScheduleLock, Repository}
use noudle_agents.Repository.Jobs.{lease}
use noudle_agents.App.{App, gets, modify, pure, ◌>>=◌, ◌>>◌}

abbrev pub is_due : ℕ → Option ℕ → Bool
is_due at none = false
is_due at (some next) = leb next at

-- `!lock || lock.lockedAt < staleBefore`.
abbrev pub unlocked : ℕ → Option ScheduleLock → Bool
unlocked at none = true
unlocked at (some lock) = ltb (lock.locked_at + lease) at

unfoldable pub due : String → ℕ → Map ScheduleLock → Schedule → Bool
due workspace_id at locks s =
    s.workspace_id == workspace_id
    && s.enabled
    && is_due at s.next_run_at
    && unlocked at (Map.get s.id locks)

unfoldable pub next_due : String → ℕ → Repository → Option Schedule
next_due workspace_id at r = head? (
    sort_by (λ s. s.next_run_at otherwise 0)
      (keep (due workspace_id at r.schedule_locks) (values r.schedules)))

unfoldable pub lock_due : String → ℕ → Option Schedule → App (Option Schedule)
lock_due worker_id at none = pure none
lock_due worker_id at (some s) = do
  modify (λ r. record r {
    schedule_locks =
        Map.set s.id (record { locked_at = at; locked_by = worker_id }) r.schedule_locks;
  })
  pure (some s)

unfoldable pub claim_due_schedule : String → String → ℕ → App (Option Schedule)
unfolding lock_due
claim_due_schedule workspace_id worker_id at = do
  next ← gets (λ w. next_due workspace_id at w.repo)
  lock_due worker_id at next

unfoldable pub release_schedule_claim : String → App (Unit {0})
release_schedule_claim id =
    modify (λ r. record r { schedule_locks = Map.delete id r.schedule_locks })

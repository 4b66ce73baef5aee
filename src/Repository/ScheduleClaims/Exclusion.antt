-- ===== src/Repository/ScheduleClaims/Exclusion.antt =====
-- A schedule that a worker has claimed is not given to another.
use noudle_agents.Base.{
  ℕ, ◌+◌, ◌≤◌, ◌≡◌, ◌≢◌, ◌otherwise◌, ap, ◌∙◌, String, Option, none, some, true, arith, eq_refl,
  head-sort-keep,
}
use noudle_agents.Base.Map
use noudle_agents.Base.Map.{get-set, values}
use noudle_agents.Protocol.{Schedule}
use noudle_agents.Repository.Jobs.{lease}
use noudle_agents.Repository.State.{Repository}
use noudle_agents.Repository.ScheduleClaims.{lock_due, due, next_due, claim_due_schedule}
use noudle_agents.App.{World, Env, ok, ◌>>=◌}

-- What `next_due` yields is due.
next_due-due :
    (workspace_id : String) (at : ℕ) (r : Repository) (s : Schedule)
    → next_due workspace_id at r ≡ some s
    → due workspace_id at r.schedule_locks s ≡ true
unfolding next_due
next_due-due workspace_id at r s h =
    head-sort-keep (λ (t : Schedule). t.next_run_at otherwise 0)
      (due workspace_id at r.schedule_locks) (values r.schedules) s h

locked-not_due :
    (workspace_id worker_id id : String) (at later : ℕ) (r : Repository) (s : Schedule)
    → later ≤ at + lease
    → Map.get id r.schedule_locks ≡ some (record { locked_at = at; locked_by = worker_id })
    → due workspace_id later r.schedule_locks s ≡ true
    → s.id ≢ id
unfolding due
locked-not_due workspace_id worker_id id at later r s soon lock h same =
    let lock' : Map.get s.id r.schedule_locks
        ≡ some (record { locked_at = at; locked_by = worker_id }) =
      rw same lock in
    ground (arith, lock')

ok_some-injective : (s t : Schedule) → ok (some s) ≡ ok (some t) → s ≡ t
ok_some-injective s t h = cc

lock_due-locked :
    (worker_id : String) (at : ℕ) (e : Env) (w : World) (s : Schedule) (o : Option Schedule)
    → (lock_due worker_id at o e w).0 ≡ ok (some s)
    → (o ≡ some s)
      × (Map.get s.id (lock_due worker_id at o e w).1.repo.schedule_locks
          ≡ some (record { locked_at = at; locked_by = worker_id }))
unfolding lock_due ◌>>=◌
lock_due-locked worker_id at e w s none h = absurd cc
lock_due-locked worker_id at e w s (some t) h =
    let same = ok_some-injective t s h in
    (ap some same, rw same (get-set s.id s.id _ w.repo.schedule_locks ∙ rw eq_refl))

-- A claim that yields a schedule yields one that is due, and locks it.
claim_due :
    (workspace_id worker_id : String) (at : ℕ) (e : Env) (w : World) (s : Schedule)
    → (claim_due_schedule workspace_id worker_id at e w).0 ≡ ok (some s)
    → (due workspace_id at w.repo.schedule_locks s ≡ true)
      × (Map.get s.id (claim_due_schedule workspace_id worker_id at e w).1.repo.schedule_locks
          ≡ some (record { locked_at = at; locked_by = worker_id }))
unfolding claim_due_schedule ◌>>=◌
claim_due workspace_id worker_id at e w s h =
    let r = lock_due-locked worker_id at e w s (next_due workspace_id at w.repo) h in
    (next_due-due workspace_id at w.repo s r.0, r.1)

-- After a worker has claimed a schedule, no claim by any worker within the five minutes of the
-- lease yields the same schedule, as long as its lock stays.
pub claim_exclusive :
    (workspace_id worker_id other : String) (at later : ℕ) (e : Env) (w w' : World) (s t : Schedule)
    → (claim_due_schedule workspace_id worker_id at e w).0 ≡ ok (some s)
    → Map.get s.id w'.repo.schedule_locks
      ≡ Map.get s.id (claim_due_schedule workspace_id worker_id at e w).1.repo.schedule_locks
    → later ≤ at + lease
    → (claim_due_schedule workspace_id other later e w').0 ≡ ok (some t)
    → t.id ≢ s.id
claim_exclusive workspace_id worker_id other at later e w w' s t h kept soon again =
    locked-not_due workspace_id worker_id s.id at later w'.repo t soon
      (kept ∙ (claim_due workspace_id worker_id at e w s h).1)
      (claim_due workspace_id other later e w' t again).0

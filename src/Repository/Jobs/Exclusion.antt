-- ===== src/Repository/Jobs/Exclusion.antt =====
-- A job that a worker has claimed is not given to another while its lease lasts.
use noudle_agents.Base.{
  ℕ, ◌+◌, ◌≤◌, ◌≡◌, ◌≢◌, refl, sym, ap, ◌∙◌, String, Option, none, some, List, [], ◌∷◌, false, ◌==◌,
  subst, arith, eq_iff, head-sort-keep, All, All-head, All-keep, All-sort_by, Bool-cases, inl, inr,
}
use noudle_agents.Base.Map
use noudle_agents.Base.Map.{Map, values, has_key}
use noudle_agents.Protocol.{QueueJob}
use noudle_agents.Repository.Jobs.{lease, claimable, locked, next_job, write_job, claim, lock_next}
use noudle_agents.App.{World, Env, ok, now, ◌>>=◌}

-- The jobs are stored under their ids, each id once.
abbrev pub IsKeyed : Map QueueJob → Type 0
IsKeyed [] = Unit
IsKeyed ((k, j) ∷ m) = (j.id ≡ k) × (has_key k m ≡ false) × IsKeyed m

-- Every job of the table that has this id satisfies `P`.
abbrev Only {ℓ} : (QueueJob → Type ℓ) → String → Map QueueJob → Type ℓ
Only P id m = All (λ (j : QueueJob). j.id ≡ id → P j) (values m)

some-injective : (s t : QueueJob) → some s ≡ some t → s ≡ t
some-injective s t h = cc

module _ {ℓ} (P : QueueJob → Type ℓ) where
  absent-Only : (id : String) (m : Map QueueJob) → IsKeyed m → has_key id m ≡ false → Only P id m
  absent-Only id [] h new = tt
  absent-Only id ((k, j) ∷ m) h new = (
    λ same. absurd (ground (arith, h.0, same, new, eq_iff k id)),
    absent-Only id m h.2 (ground (arith, new)),
  )

  -- What is stored under an id is all that has the id.
  get-Only :
      (id : String) (m : Map QueueJob) (s : QueueJob)
      → IsKeyed m
      → Map.get id m ≡ some s
      → P s
      → Only P id m
  unfolding Map.get
  get-Only id [] s h found p = absurd cc
  get-Only id ((k, j) ∷ m) s h found p = elim (Bool-cases (k == id)) [
    | inl t ↦ (
      λ same. subst P (some-injective s j (sym (rw t at found))) p,
      absent-Only id m h.2 (subst (λ i. has_key i m ≡ false) ((eq_iff k id).0 t) h.1),
    )
    | inr t ↦ (
      λ same. absurd (ground (arith, h.0, same, t, eq_iff k id)),
      get-Only id m s h.2 (rw t at found) p,
    )
  ]

ok_some-injective : (s t : QueueJob) → ok (some s) ≡ ok (some t) → s ≡ t
ok_some-injective s t h = cc

-- What `claim` returns is a claimable job, locked.
lock_next-locked :
    (worker_id : String) (at : ℕ) (e : Env) (w : World) (o : Option QueueJob) (t : QueueJob)
    → (lock_next worker_id at o e w).0 ≡ ok (some t)
    → (j : QueueJob) × (o ≡ some j)
      × (t ≡ locked worker_id at j)
      × ((lock_next worker_id at o e w).1.repo.jobs ≡ Map.set t.id t w.repo.jobs)
unfolding lock_next write_job ◌>>=◌ locked
lock_next-locked worker_id at e w none t h = absurd cc
lock_next-locked worker_id at e w (some j) t h =
    let same = ok_some-injective t (locked worker_id at j) (sym h) in
    (j, refl, same, ap (λ (v : QueueJob). Map.set v.id v w.repo.jobs) (sym same))

claim-locked :
    (workspace_id worker_id : String) (kinds : List String) (e : Env) (w : World) (t : QueueJob)
    → (claim workspace_id worker_id kinds e w).0 ≡ ok (some t)
    → (j : QueueJob) × (next_job workspace_id kinds (e.clock w.ticks) w.repo.jobs ≡ some j)
      × (t ≡ locked worker_id (e.clock w.ticks) j)
      × ((claim workspace_id worker_id kinds e w).1.repo.jobs ≡ Map.set t.id t w.repo.jobs)
unfolding claim now ◌>>=◌
claim-locked workspace_id worker_id kinds e w t h =
    lock_next-locked worker_id (e.clock w.ticks) e _ _ t h

-- A locked job is not claimable before its lease is over.
locked-claimable :
    (workspace_id worker_id : String) (kinds : List String) (at later : ℕ) (j : QueueJob)
    → later ≤ at + lease
    → claimable workspace_id kinds later (locked worker_id at j) ≡ false
unfolding claimable locked
locked-claimable workspace_id worker_id kinds at later j soon = ground arith

next_job-Only :
    (workspace_id id : String) (kinds : List String) (at : ℕ) (m : Map QueueJob) (j : QueueJob)
    → Only (λ v. claimable workspace_id kinds at v ≡ false) id m
    → next_job workspace_id kinds at m ≡ some j
    → j.id ≢ id
unfolding next_job
next_job-Only workspace_id id kinds at m j only h same =
    let P = λ (v : QueueJob). v.id ≡ id → claimable workspace_id kinds at v ≡ false in
    let created = λ (v : QueueJob). v.created_at in
    let here = All-head P _ j (All-sort_by P created _ (All-keep P _ _ only)) h same in
    let passed = head-sort-keep created (claimable workspace_id kinds at) (values m) j h in
    absurd cc

-- After a worker has claimed a job, no claim by any worker, in any workspace, for any kinds of jobs,
-- within the five minutes of the lease yields the job with the same id, as long as the job's entry in
-- the queue is still the one that the claim left, whatever else has been enqueued, claimed or removed
-- meanwhile; the queue stores each job once, under its id.
pub claim-claim :
    (workspace_id worker_id other_workspace other : String) (kinds other_kinds : List String)
    (e : Env) (w w' : World) (s t : QueueJob)
    → (claim workspace_id worker_id kinds e w).0 ≡ ok (some s)
    → IsKeyed w'.repo.jobs
    → Map.get s.id w'.repo.jobs ≡ some s
    → e.clock w'.ticks ≤ e.clock w.ticks + lease
    → (claim other_workspace other other_kinds e w').0 ≡ ok (some t)
    → t.id ≢ s.id
unfolding locked
claim-claim workspace_id worker_id other_workspace other kinds other_kinds e w w' s t h keyed kept
      soon again clash =
    let (j, found, locked_s, written) = claim-locked workspace_id worker_id kinds e w s h in
    let (i, found', locked_t, written') =
      claim-locked other_workspace other other_kinds e w' t again in
    let P = λ (v : QueueJob). claimable other_workspace other_kinds (e.clock w'.ticks) v ≡ false in
    let locked_now = subst P (sym locked_s) (
      locked-claimable other_workspace worker_id other_kinds (e.clock w.ticks) (e.clock w'.ticks) j
        soon) in
    next_job-Only other_workspace s.id other_kinds (e.clock w'.ticks) w'.repo.jobs i
      (get-Only P s.id w'.repo.jobs s keyed kept locked_now) found'
      (sym (ap (λ (v : QueueJob). v.id) locked_t) ∙ clash)

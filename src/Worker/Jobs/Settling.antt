-- ===== src/Worker/Jobs/Settling.antt =====
-- A job that was processed is not left running.
use noudle_agents.Base.{
  none-ne, some_injective, suc, subst, ℕ, ◌+◌, ◌*◌, ◌^◌, ◌<◌, ◌≡◌, refl, sym, ◌∙◌, String, Option,
  none, some, Bool, true, false, ltb, arith, Bool-cases, inl, inr, if◌then◌else◌,
}
use noudle_agents.App.Holds.{AnyWorld, ◌first◌, Holds-ok, threw, returned, Holds}
use noudle_agents.Base.Map.{get-set-same, Map}
use noudle_agents.App.{pure, World, Env, App, Failure, Result, ok, err, ◌>>=◌, now}
use noudle_agents.Base.Map
use noudle_agents.Protocol.{Agent, Message, Run, Task, QueueJob, JobStatus, ComposerSettings}
use noudle_agents.Repository.Jobs.{complete_found, complete_job, failed_job, fail_found, fail_job}
use noudle_agents.Worker.Processing.{Worker, settle, guarded}
use noudle_agents.Worker.Jobs.{
  retry_at, fail_run, recover, execute_run, attempt, attempt_found, process_run, process_found,
  process_id, process,
}

-- How a job stands that was taken up for the `attempts`-th time.
pub data IsSettled (e : Env) (attempts : ℕ) (j : QueueJob) : Type 0 where
  succeeded : j.status ≡ JobStatus.completed → IsSettled e attempts j
  gave_up : j.status ≡ JobStatus.failed → j.locked_by ≡ none → IsSettled e attempts j
  retried :
      (reading : ℕ)
      → attempts < 3
      → j.status ≡ JobStatus.queued
      → j.locked_by ≡ none
      → j.available_at ≡ e.clock reading + 250 * 2 ^ attempts
      → IsSettled e attempts j

-- Whatever the queue has under the job's id is settled.
abbrev pub Settles : Env → QueueJob → World → Type 0
Settles e job w = (j : QueueJob) → Map.get job.id w.repo.jobs ≡ some j → IsSettled e job.attempts j

abbrev Settling : Env → QueueJob → Result (Unit {0}) × World → Type 0
Settling e job = Holds (λ _ w. Settles e job w) AnyWorld

-- After the job's entry was written, it is what was written.
set-Settles :
    (e : Env) (job v : QueueJob) (w : World)
    → IsSettled e job.attempts v
    → Settles e job (record w { repo = record w.repo { jobs = Map.set job.id v w.repo.jobs } })
set-Settles e job v w h j found =
    subst (IsSettled e job.attempts)
      (some_injective v j (sym (get-set-same job.id v w.repo.jobs) ∙ found)) h

complete_found-Settling :
    (job : QueueJob) (o : Option QueueJob) (e : Env) (w : World)
    → Map.get job.id w.repo.jobs ≡ o
    → Settling e job (complete_found job.id o e w)
unfolding complete_found ◌>>=◌ now
complete_found-Settling job none e w h = returned λ j found. absurd (none-ne j (sym h ∙ found))
complete_found-Settling job (some i) e w h =
    returned (set-Settles e job _ (record w { ticks = suc w.ticks }) (succeeded refl))

complete_job-Settling :
    (job : QueueJob) (e : Env) (w : World) → Settling e job (complete_job job.id e w)
unfolding complete_job ◌>>=◌
complete_job-Settling job e w = complete_found-Settling job _ e w refl

-- What `failJob` writes when a retry is planned by `retry_at`, or none is.
abbrev Planned : Env → ℕ → Option ℕ → Type 0
Planned e attempts none = Unit
Planned e attempts (some t) =
    (attempts < 3) × ((reading : ℕ) × (t ≡ e.clock reading + 250 * 2 ^ attempts))

failed_job-IsSettled :
    (e : Env) (attempts at : ℕ) (error : String) (o : Option ℕ) (i : QueueJob)
    → Planned e attempts o
    → IsSettled e attempts (failed_job error o at i)
unfolding failed_job
failed_job-IsSettled e attempts at error none i h = gave_up refl refl
failed_job-IsSettled e attempts at error (some t) i h = retried h.1.0 h.0 refl refl h.1.1

retry_at-Planned : (e : Env) (attempts k : ℕ) → Planned e attempts (retry_at attempts (e.clock k))
retry_at-Planned e attempts k = elim (Bool-cases (ltb attempts 3)) [
  | inl t ↦ rw t (ground (arith, t), (k, refl))
  | inr t ↦ rw t tt
]

fail_found-Settling :
    (job : QueueJob) (error : String) (at : Option ℕ) (o : Option QueueJob) (e : Env) (w : World)
    → Planned e job.attempts at
    → Map.get job.id w.repo.jobs ≡ o
    → Settling e job (fail_found job.id error at o e w)
unfolding fail_found ◌>>=◌ now
fail_found-Settling job error at none e w p h =
    returned λ j found. absurd (none-ne j (sym h ∙ found))
fail_found-Settling job error at (some i) e w p h = returned (
    set-Settles e job _ (record w { ticks = suc w.ticks })
      (failed_job-IsSettled e job.attempts _ error at i p))

fail_job-Settling :
    (job : QueueJob) (error : String) (at : Option ℕ) (e : Env) (w : World)
    → Planned e job.attempts at
    → Settling e job (fail_job job.id error at e w)
unfolding fail_job ◌>>=◌
fail_job-Settling job error at e w p = fail_found-Settling job error at _ e w p refl

module _ (job : QueueJob) where
  settle-Settling {κ} :
      {A : Type κ} (r : Result A) (handler : Failure → App (Unit {0})) (next : A → App (Unit {0}))
      → ((x : Failure) (e : Env) (w : World) → Settling e job (handler x e w))
      → ((a : A) (e : Env) (w : World) → Settling e job (next a e w))
      → (e : Env) (w : World) → Settling e job (settle r handler next e w)
  settle-Settling (ok a) handler next h k e w = k a e w
  settle-Settling (err x) handler next h k e w = h x e w

  guarded-Settling {κ} :
      {A : Type κ} (m : App A) (handler : Failure → App (Unit {0})) (next : A → App (Unit {0}))
      → ((x : Failure) (e : Env) (w : World) → Settling e job (handler x e w))
      → ((a : A) (e : Env) (w : World) → Settling e job (next a e w))
      → (e : Env) (w : World) → Settling e job (guarded m handler next e w)
  unfolding guarded
  guarded-Settling m handler next h k e w = settle-Settling _ handler next h k e _

  settle-last :
      (r : Result (Unit {0}) × World) (handler : Failure → App (Unit {0})) (e : Env)
      → Settling e job r
      → ((x : Failure) (e : Env) (w : World) → Settling e job (handler x e w))
      → Settling e job (settle r.0 handler pure e r.1)
  settle-last _ handler e (returned s) h = returned s
  settle-last _ handler e (threw {x} {w} b) h = h x e w

  -- A guarded action that settles the job itself.
  guarded-last :
      (m : App (Unit {0})) (handler : Failure → App (Unit {0}))
      → ((e : Env) (w : World) → Settling e job (m e w))
      → ((x : Failure) (e : Env) (w : World) → Settling e job (handler x e w))
      → (e : Env) (w : World) → Settling e job (guarded m handler pure e w)
  unfolding guarded
  guarded-last m handler s h e w = settle-last (m e w) handler e (s e w) h

  if-Settling :
      (b : Bool) (m n : App (Unit {0}))
      → ((e : Env) (w : World) → Settling e job (m e w))
      → ((e : Env) (w : World) → Settling e job (n e w))
      → (e : Env) (w : World) → Settling e job ((if b then m else n) e w)
  if-Settling true m n h k = h
  if-Settling false m n h k = k

  retry-Settling :
      (error : String) (e : Env) (w : World)
      → Settling e job ((now >>= λ at. fail_job job.id error (retry_at job.attempts at)) e w)
  unfolding now ◌>>=◌
  retry-Settling error e w =
      fail_job-Settling job error _ e _ (retry_at-Planned e job.attempts w.ticks)

  module _ (worker : Worker) where
    fail_run-Settling :
        (r : Run) (a : Agent) (error : String) (e : Env) (w : World)
        → Settling e job (fail_run worker job r a error e w)
    unfolding fail_run
    fail_run-Settling r a error =
        _ first λ _. _ first λ _. _ first λ _. _ first λ _. _ first λ _. retry-Settling error

    recover-Settling :
        (calls : ℕ) (r : Run) (a : Agent) (x : Failure) (e : Env) (w : World)
        → Settling e job (recover worker job calls r a x e w)
    unfolding recover
    recover-Settling calls r a x = _ first λ _.
        _ first λ _. if-Settling _ _ _ (complete_job-Settling job) (fail_run-Settling r a _)

    execute_run-Settling :
        (r : Run) (a : Agent) (m : Message) (t : Option Task) (x : Option ComposerSettings)
        (e : Env) (w : World)
        → Settling e job (execute_run worker job.id r a m t x e w)
    unfolding execute_run
    execute_run-Settling r a m t x = _ first λ _. _ first λ _. _ first λ _. _ first λ _.
        _ first λ _. _ first λ _. _ first λ _. _ first λ _. _ first λ _. complete_job-Settling job

    attempt-Settling :
        (r : Run) (a : Agent) (m : Message) (t : Option Task) (e : Env) (w : World)
        → Settling e job (attempt worker job r a m t e w)
    unfolding attempt
    attempt-Settling r a m t = _ first λ calls. _ first λ _.
        guarded-Settling _ _ _ (recover-Settling _ _ _) λ _.
          guarded-Settling _ _ _ (recover-Settling _ _ _)
            λ _. guarded-last _ _ (execute_run-Settling _ _ _ _ _) (recover-Settling _ _ _)

    attempt_found-Settling :
        (r : Run) (a : Option Agent) (m : Option Message) (t : Option Task) (e : Env) (w : World)
        → Settling e job (attempt_found worker job r a m t e w)
    unfolding attempt_found
    attempt_found-Settling r (some a) (some m) t e w = attempt-Settling r a m t e w
    attempt_found-Settling r (some a) none t e w = fail_job-Settling job _ none e w tt
    attempt_found-Settling r none m t e w = fail_job-Settling job _ none e w tt

    process_run-Settling :
        (r : Run) (e : Env) (w : World) → Settling e job (process_run worker job r e w)
    unfolding process_run
    process_run-Settling r = _ first λ a. _ first λ m. _ first λ t. attempt_found-Settling r a m t

    process_found-Settling :
        (r : Option Run) (e : Env) (w : World) → Settling e job (process_found worker job r e w)
    unfolding process_found
    process_found-Settling none = complete_job-Settling job
    process_found-Settling (some r) =
        if-Settling _ _ _ (complete_job-Settling job) (process_run-Settling r)

    process_id-Settling :
        (id : Option String) (e : Env) (w : World) → Settling e job (process_id worker job id e w)
    unfolding process_id
    process_id-Settling none e w = fail_job-Settling job _ none e w tt
    process_id-Settling (some id) e w = (_ first λ r. process_found-Settling r) e w

-- When the processing of a job returns, the queue's entry under the job's id, if there is one, is
-- completed, failed, or queued again: the last only when the job's attempts are fewer than three, and
-- then it is available 250 · 2 ^ attempts milliseconds after a reading of the clock.
pub process-IsSettled :
    (worker : Worker) (job : QueueJob) (e : Env) (w : World)
    → (process worker job e w).0 ≡ ok tt
    → (j : QueueJob) → Map.get job.id (process worker job e w).1.repo.jobs ≡ some j
    → IsSettled e job.attempts j
unfolding process
process-IsSettled worker job e w h = Holds-ok (process_id-Settling job worker _ e w) h

-- ===== src/Repository/Commit/Replay.antt =====
-- A commit is done once for its key.
use noudle_agents.Base.{◌≡◌, refl, ◌∙◌, String, Option, none, some, [], false, eq_refl}
use noudle_agents.Base.Map
use noudle_agents.Base.Map.{get-set}
use noudle_agents.Repository.Commit.{
  MessageRunCommit, MessageRunCommitResult, commit_key, commit_new, commit_found,
  commit_message_run, remember,
}
use noudle_agents.Repository.Entities.{put}
use noudle_agents.Repository.Jobs.{enqueue}
use noudle_agents.Repository.EventLog.{append_events}
use noudle_agents.Repository.State.{EntityKind, IdempotentMessageResult}
use noudle_agents.App.{App, World, Env, ok, ◌>>=◌}
use noudle_agents.App.Holds.{Holds, Holds-bind, Holds-all, Holds-ok}

-- The answer that a repeated commit gets.
abbrev pub replayed : MessageRunCommitResult → MessageRunCommitResult
replayed r = record { message = r.message; run_id = r.run_id; created = false; events = [] }

abbrev answer : MessageRunCommitResult → IdempotentMessageResult
answer r = record { message = r.message; run_id = r.run_id }

-- The key remembers the answer.
abbrev Remembered : String → MessageRunCommitResult → World → Type 0
Remembered key r w = Map.get key w.repo.idempotency ≡ some (answer r)

quiet {κ} :
    {A : Type κ} (m : App A) (e : Env) (w : World) → Holds (λ _ _. Unit {0}) (λ _. Unit) (m e w)
quiet m e w = Holds-all _ _ m e w (λ _. tt) tt

commit_new-Remembered :
    (key : String) (input : MessageRunCommit) (e : Env) (w : World)
    → Holds (Remembered key) (λ _. Unit) (commit_new key input e w)
unfolding commit_new
commit_new-Remembered key input e w =
    Holds-bind (λ _ _. Unit) _ _ e w (quiet (put EntityKind.messages input.message) e w)
      λ _ w1 _.
        Holds-bind (λ _ _. Unit) _ _ e w1 (quiet (put EntityKind.runs input.run) e w1)
          λ _ w2 _.
            Holds-bind (λ _ _. Unit) _ _ e w2 (quiet (enqueue input.job) e w2)
              λ _ w3 _.
                Holds-bind (λ _ _. Unit) _ _ e w3 (quiet (append_events input.events) e w3)
                  λ _ w4 _.
                    Holds-bind (λ _ w5. Map.get key w5.repo.idempotency ≡ some (remember input)) _ _
                      e w4
                      (Holds.returned
                        (get-set key key (remember input) w4.repo.idempotency ∙ rw eq_refl))
                      λ _ w5 h. Holds.returned h

commit_found-Remembered :
    (key : String) (input : MessageRunCommit) (e : Env) (w : World)
    (o : Option IdempotentMessageResult)
    → Map.get key w.repo.idempotency ≡ o
    → Holds (Remembered key) (λ _. Unit) (commit_found o key input e w)
unfolding commit_found
commit_found-Remembered key input e w none h = commit_new-Remembered key input e w
commit_found-Remembered key input e w (some old) h = Holds.returned h

commit-Remembered :
    (input : MessageRunCommit) (e : Env) (w : World)
    → Holds
        (Remembered (commit_key input.message.workspace_id input.idempotency_key))
        (λ _. Unit)
        (commit_message_run input e w)
unfolding commit_message_run ◌>>=◌
commit-Remembered input e w = commit_found-Remembered _ input e w _ refl

-- After a commit has returned, any later commit with the same idempotency key in the same
-- workspace returns the message and the run of the first one, reports that it created nothing,
-- gives no events and leaves the world as it is, as long as the table of keys has not changed.
pub commit_replay :
    (a b : MessageRunCommit) (e : Env) (w w' : World) (r : MessageRunCommitResult)
    → (commit_message_run a e w).0 ≡ ok r
    → b.message.workspace_id ≡ a.message.workspace_id
    → b.idempotency_key ≡ a.idempotency_key
    → w'.repo.idempotency ≡ (commit_message_run a e w).1.repo.idempotency
    → commit_message_run b e w' ≡ (ok (replayed r), w')
unfolding commit_message_run commit_found ◌>>=◌
commit_replay a b e w w' r h same_workspace same_key same_table =
    let seen = Holds-ok (commit-Remembered a e w) h in
    rw (same_workspace, same_key, same_table, seen)

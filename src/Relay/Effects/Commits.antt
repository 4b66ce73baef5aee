-- ===== src/Relay/Effects/Commits.antt =====
-- The effects on the event log: `commitMessageRun` appends, and its caller publishes.
use noudle_agents.Repository.Commit.{
  remember, MessageRunCommit, MessageRunCommitResult, commit_message_run, commit_found, commit_new,
}
use noudle_agents.App.{
  continue, modify, World, Env, App, Result, ok, err, for_each, publish, pure, ◌>>=◌, ◌>>◌,
}
use noudle_agents.Base.{
  true, String, ◌≡◌, refl, sym, ap, ◌∙◌, Option, none, some, List, [], ◌∷◌, ◌++◌,
}
use mathlib.Core.List.{append-nil, append_assoc}
use noudle_agents.Base.Map
use noudle_agents.Protocol.{RelayEvent}
use noudle_agents.Repository.State.{EntityKind, IdempotentMessageResult}
use noudle_agents.Repository.EventLog.{append_events}
use noudle_agents.Repository.EventLog.Appending.{
  Appended, Appended-same, Appended-trans, append_events-Appended, IsLog-same,
}
use noudle_agents.Repository.Frames.{log_of, put-log, enqueue-log}
use noudle_agents.App.Steps.{Steps, Fixes}
use noudle_agents.Relay.Events.{publish_all}
use noudle_agents.Relay.Effects.LogSteps.{LogStep, LogStep_trans}

-- Publishing a list of events touches nothing but what was heard.
abbrev hearing : World → List RelayEvent → World
hearing w es = record w { published = w.published ++ es }

publish_all_lem :
    (es : List RelayEvent) (e : Env) (w : World) → publish_all es e w ≡ (ok tt, hearing w es)
unfolding publish_all for_each publish ◌>>=◌
publish_all_lem [] e w =
    ap (λ (l : List RelayEvent). (ok tt, record w { published = l })) (sym (append-nil _))
publish_all_lem (x ∷ xs) e w =
    publish_all_lem xs e (hearing w (x ∷ []))
    ∙ ap (λ (l : List RelayEvent). (ok tt, record w { published = l }))
        (append_assoc w.published (x ∷ []) xs)

-- What a commit reports is what it appended; a failed commit appended nothing.
abbrev Committed : World → Result MessageRunCommitResult → World → Type 0
Committed u (ok r) w = Appended r.events u w
Committed u (err x) w = Appended [] u w

Committed-after :
    (t u w : World) (r : Result MessageRunCommitResult)
    → log_of u ≡ log_of t
    → Committed u r w
    → Committed t r w
Committed-after t u w (ok r) p h = Appended-trans t u w (Appended-same t u p) h
Committed-after t u w (err x) p h = Appended-trans t u w (Appended-same t u p) h

abbrev Commits : App MessageRunCommitResult → Type 0
Commits m = (e : Env) (w : World) → Committed w (m e w).0 (m e w).1

Commits-continue :
    {A : Type 0} (k : A → App MessageRunCommitResult) (e : Env) (u w : World) (r : Result A)
    → log_of w ≡ log_of u
    → ((a : A) → Commits (k a))
    → Committed u (continue r k e w).0 (continue r k e w).1
Commits-continue k e u w (ok a) p h = Committed-after u w _ _ p (h a e w)
Commits-continue k e u w (err x) p h = Appended-same u w p

Commits-bind :
    {A : Type 0} (m : App A) (k : A → App MessageRunCommitResult)
    → Steps (Fixes log_of) m
    → ((a : A) → Commits (k a))
    → Commits (m >>= k)
unfolding ◌>>=◌
Commits-bind m k q h e w = Commits-continue k e w (m e w).1 (m e w).0 (q.at e w) h

abbrev finish : MessageRunCommit → List RelayEvent → MessageRunCommitResult
finish input es = record {
  message = input.message;
  run_id = input.run.id;
  created = true;
  events = es;
}

Commits-events :
    (key : String) (input : MessageRunCommit)
    → Commits (
        append_events input.events >>= λ es.
        modify (λ r. record r { idempotency = Map.set key (remember input) r.idempotency })
        >> pure (finish input es))
unfolding ◌>>=◌
Commits-events key input e w =
    let (es, ok_es, h) = append_events-Appended input.events e w in
    rw ok_es (record {
      grown = h.grown;
      unheard = h.unheard;
      log = λ l. IsLog-same _ _ refl refl (h.log l);
    })

Commits-new : (key : String) (input : MessageRunCommit) → Commits (commit_new key input)
unfolding commit_new
Commits-new key input = Commits-bind _ _ (put-log EntityKind.messages _) λ _.
    Commits-bind _ _ (put-log EntityKind.runs _)
      λ _. Commits-bind _ _ (enqueue-log _) λ _. Commits-events key input

Commits-found :
    (o : Option IdempotentMessageResult) (key : String) (input : MessageRunCommit)
    → Commits (commit_found o key input)
unfolding commit_found
Commits-found none key input e w = Commits-new key input e w
Commits-found (some old) key input e w = Appended-same w w refl

commit-Committed : (input : MessageRunCommit) → Commits (commit_message_run input)
unfolding commit_message_run ◌>>=◌
commit-Committed input e w = Commits-found _ _ input e w

Appended-LogStep : (es : List RelayEvent) (u w : World) → Appended es u w → LogStep u (hearing w es)
Appended-LogStep es u w h = record {
  added = es;
  grown = h.grown;
  heard = ap (λ l. l ++ es) h.unheard;
  log = λ l. IsLog-same w.repo w.repo refl refl (h.log l);
}

continue-LogStep :
    {A : Type 0} (next : MessageRunCommitResult → App A) (e : Env) (u w : World)
    (r : Result MessageRunCommitResult)
    → Committed u r w
    → ((r : MessageRunCommitResult) → Steps LogStep (next r))
    → LogStep u (continue r (λ r. publish_all r.events >> next r) e w).1
unfolding ◌>>=◌
continue-LogStep next e u w (ok r) c h = rw publish_all_lem (
    LogStep_trans u (hearing w r.events) _ (Appended-LogStep r.events u w c)
      ((h r).at e (hearing w r.events)))
continue-LogStep next e u w (err x) c h = record {
  added = [];
  grown = c.grown;
  heard = c.unheard ∙ sym (append-nil _);
  log = c.log;
}

pub commit-LogStep :
    {A : Type 0} (input : MessageRunCommit) (next : MessageRunCommitResult → App A)
    → ((r : MessageRunCommitResult) → Steps LogStep (next r))
    → Steps LogStep (commit_message_run input >>= λ r. publish_all r.events >> next r)
unfolding ◌>>=◌
commit-LogStep input next h = record {
  at = λ e w. continue-LogStep next e w _ _ (commit-Committed input e w) h;
}

-- ===== src/Relay/Effects/LogSteps.antt =====
-- The effects on the event log: `emit` appends and publishes.
use noudle_agents.App.{World, App, publish, ◌>>=◌}
use noudle_agents.Base.{◌≡◌, refl, sym, ap, ◌∙◌, List, [], ◌∷◌, ◌++◌}
use mathlib.Core.List.{append-nil, append_assoc}
use noudle_agents.Protocol.{NewEvent, RelayEvent}
use noudle_agents.Repository.EventLog.Numbering.{IsLog}
use noudle_agents.Repository.EventLog.Appending.{
  appended, append_event_ok, append_event-Appended, IsLog-same,
}
use noudle_agents.Repository.Frames.{log_of}
use noudle_agents.App.Steps.{Steps, IsPreorder, Fixes}
use noudle_agents.Relay.Events.{emit}

-- From `u` to `w` the log has grown at its end by `added`, the listeners have heard just these
-- events in this order, and a well numbered log stays so.
pub record LogStep (u w : World) : Type 0 where
  pub added : List RelayEvent
  pub grown : w.repo.events ≡ u.repo.events ++ added
  pub heard : w.published ≡ u.published ++ added
  pub log : IsLog u.repo → IsLog w.repo

pub LogStep-same : (u w : World) → log_of w ≡ log_of u → LogStep u w
LogStep-same u w p = record {
  added = [];
  grown = ap (λ t. t.0) p ∙ sym (append-nil _);
  heard = ap (λ t. t.2) p ∙ sym (append-nil _);
  log = IsLog-same u.repo w.repo (ap (λ t. t.0) p) (ap (λ t. t.1) p);
}

pub LogStep_trans : (t u w : World) → LogStep t u → LogStep u w → LogStep t w
LogStep_trans t u w p q = record {
  added = p.added ++ q.added;
  grown = q.grown ∙ ap (λ l. l ++ q.added) p.grown ∙ append_assoc t.repo.events p.added q.added;
  heard = q.heard ∙ ap (λ l. l ++ q.added) p.heard ∙ append_assoc t.published p.added q.added;
  log = λ h. q.log (p.log h);
}

pub LogStep-IsPreorder : IsPreorder LogStep
LogStep-IsPreorder = record { reflexive = λ w. LogStep-same w w refl; transitive = LogStep_trans }

pub quiet {κ} : {A : Type κ} {m : App A} → Steps (Fixes log_of) m → Steps LogStep m
quiet h = record { at = λ e w. LogStep-same w _ (h.at e w) }

pub emit-LogStep : (n : NewEvent) → Steps LogStep (emit n)
unfolding emit publish ◌>>=◌
emit-LogStep n = record {
  at = λ e w.
      let h = append_event-Appended n e w in
      rw append_event_ok (record {
        added = appended n e w ∷ [];
        grown = h.grown;
        heard = ap (λ l. l ++ appended n e w ∷ []) h.unheard;
        log = h.log;
      });
}

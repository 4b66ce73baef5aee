-- ===== src/Repository/EventLog/Appending.antt =====
-- What appending does to the world: the events that come back are the events that the log has more.
use mathlib.Core.List.{append-nil, append_assoc}
use noudle_agents.Base.{◌≡◌, refl, sym, ap, ◌∙◌, List, [], ◌∷◌, ◌++◌}
use noudle_agents.Base.Text
use noudle_agents.Protocol.{NewEvent, RelayEvent}
use noudle_agents.Repository.State.{Repository}
use noudle_agents.Repository.Frames.{log_of}
use noudle_agents.Repository.EventLog.{append_event, append_events, stamp}
use noudle_agents.Repository.EventLog.Numbering.{IsLog, push-IsLog}
use noudle_agents.App.{World, Env, ok, now, random_uuid, ◌>>=◌}

-- From `u` to `w` the log has grown by `es` and stays well numbered; nobody has heard of it yet.
pub record Appended (es : List RelayEvent) (u w : World) : Type 0 where
  pub grown : w.repo.events ≡ u.repo.events ++ es
  pub unheard : w.published ≡ u.published
  pub log : IsLog u.repo → IsLog w.repo

pub IsLog-same : (q r : Repository) → r.events ≡ q.events → r.cursor ≡ q.cursor → IsLog q → IsLog r
IsLog-same q r p c h = record {
  cursor_is_length = rw (p, c) h.cursor_is_length;
  cursors = rw p h.cursors;
  sequences = λ n. rw p (h.sequences n);
}

pub Appended-same : (u w : World) → log_of w ≡ log_of u → Appended [] u w
Appended-same u w p = record {
  grown = ap (λ t. t.0) p ∙ sym (append-nil _);
  unheard = ap (λ t. t.2) p;
  log = IsLog-same u.repo w.repo (ap (λ t. t.0) p) (ap (λ t. t.1) p);
}

pub Appended-trans :
    {es fs : List RelayEvent} (t u w : World)
    → Appended es t u
    → Appended fs u w
    → Appended (es ++ fs) t w
Appended-trans {es} {fs} t u w p q = record {
  grown = q.grown ∙ ap (λ l. l ++ fs) p.grown ∙ append_assoc t.repo.events es fs;
  unheard = q.unheard ∙ p.unheard;
  log = λ h. q.log (p.log h);
}

abbrev pub appended : NewEvent → Env → World → RelayEvent
appended n e w = stamp n (Text.append "evt_" (e.uuid w.draws)) (e.clock w.ticks) w.repo

pub append_event_ok :
    (n : NewEvent) (e : Env) (w : World) → (append_event n e w).0 ≡ ok (appended n e w)
unfolding append_event ◌>>=◌ now random_uuid
append_event_ok n e w = refl

pub append_event-Appended :
    (n : NewEvent) (e : Env) (w : World) → Appended (appended n e w ∷ []) w (append_event n e w).1
unfolding append_event ◌>>=◌ now random_uuid
append_event-Appended n e w = record { grown = refl; unheard = refl; log = push-IsLog n _ _ w.repo }

pub append_events-Appended :
    (ns : List NewEvent) (e : Env) (w : World)
    → (es : List RelayEvent) × ((append_events ns e w).0 ≡ ok es)
      × Appended es w (append_events ns e w).1
unfolding append_events ◌>>=◌
append_events-Appended [] e w = ([], refl, Appended-same w w refl)
append_events-Appended (n ∷ ns) e w =
    let u = (append_event n e w).1 in
    let (es, ok_es, grown) = append_events-Appended ns e u in
    (
      appended n e w ∷ es,
      rw append_event_ok (rw ok_es),
      rw append_event_ok (rw ok_es (Appended-trans w u _ (append_event-Appended n e w) grown)),
    )

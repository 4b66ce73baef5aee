-- ===== src/Relay/Tasks/Single.antt =====
-- Runs of a method that writes one task: the steps that leave the tables of tasks and of agents alone,
-- and the one that writes.
use noudle_agents.Base.{
  ◌≡◌, refl, ap, ◌∙◌, String, Option, none, some, Bool, true, false, List, ◌==◌, Bool-cases, inl,
  inr,
}
use noudle_agents.Base.Map
use noudle_agents.Base.Map.{Map}
use noudle_agents.Protocol.{Task, Agent, Creator, EventType, Value}
use noudle_agents.Repository.State.{EntityKind}
use noudle_agents.Repository.Entities
use noudle_agents.Repository.Entities.{put, put_over}
use noudle_agents.Repository.EventLog.{append_event}
use noudle_agents.Relay.Lookup.{require}
use noudle_agents.Relay.Events.{emit, announce, new_event}
use noudle_agents.Relay.Effects.{IsReader}
use noudle_agents.Relay.Tasks.Keeping.{or_throw-some}
use noudle_agents.App.{
  World, Env, App, Result, ok, err, Failure, now, random_uuid, publish, pure, throw_if, not_found,
  ◌>>=◌, ◌>>◌,
}
use noudle_agents.App.Steps.{Steps, Fixes, Fixes-IsPreorder}
use noudle_agents.App.Holds.{Holds, Holds-bind}

abbrev pub tables : World → Map Task × Map Agent
tables w = (w.repo.tasks, w.repo.agents)

instance pub tables-IsReader : IsReader (Fixes tables)
unfolding now random_uuid emit append_event publish ◌>>=◌
tables-IsReader = record {
  order = Fixes-IsPreorder tables;
  draw = record { at = λ e w. refl };
  tick = record { at = λ e w. refl };
  emits = λ n. record { at = λ e w. refl };
}

pub throw_if-ok :
    (b : Bool) (x : Failure) (u : Unit {0}) (e : Env) (w : World)
    → (throw_if b x e w).0 ≡ ok u
    → b ≡ false
throw_if-ok true x u e w h = absurd cc
throw_if-ok false x u e w h = refl

pub require-agent :
    (id : String) (a : Agent) (e : Env) (w : World)
    → (require EntityKind.agents id e w).0 ≡ ok a
    → Map.get id w.repo.agents ≡ some a
unfolding require Entities.get ◌>>=◌
require-agent id a e w h = or_throw-some not_found _ a e w h

module _ (k : Map Task × Map Agent) (Post : Task → World → Type 0) where
  -- Whatever was thrown, the tasks and the agents are what they were.
  abbrev pub Untouched : World → Type 0
  Untouched w = tables w ≡ k

  known_of :
      {A : Type 0} (r : Result A × World)
      → tables r.1 ≡ k
      → Holds (λ a w. (tables w ≡ k) × (r.0 ≡ ok a)) Untouched r
  known_of (ok a, w) s = Holds.returned (s, refl)
  known_of (err x, w) s = Holds.threw s

  -- A step that leaves the tables alone, and then the rest.
  pub then_rest :
      {A : Type 0} (a : App A) (f : A → App Task) (e : Env) (w : World)
      → Steps (Fixes tables) a
      → tables w ≡ k
      → ((x : A) (w' : World) → tables w' ≡ k → (a e w).0 ≡ ok x → Holds Post Untouched (f x e w'))
      → Holds Post Untouched ((a >>= f) e w)
  then_rest a f e w q s rest =
      Holds-bind (λ x w'. (tables w' ≡ k) × ((a e w).0 ≡ ok x)) a f e w
        (known_of (a e w) (q.at e w ∙ s)) λ x w' (s', i). rest x w' s' i

  put_over-tables :
      (o : Option Task) (t : Task) (e : Env) (w : World)
      → tables w ≡ k
      → Holds
          (λ _ w'. w'.repo.tasks ≡ Map.set t.id t k.0)
          Untouched
          (put_over EntityKind.tasks o t e w)
  unfolding put_over
  put_over-tables none t e w s = Holds.returned (ap (λ p. Map.set t.id t p.0) s)
  put_over-tables (some old) t e w s = elim (Bool-cases (old.workspace_id == t.workspace_id)) [
    | inl same ↦ rw same (Holds.returned (ap (λ p. Map.set t.id t p.0) s))
    | inr other ↦ rw other (Holds.threw s)
  ]

  told_then :
      (t : Task) (m : App (Unit {0})) (e : Env) (v : World)
      → (m e v).0 ≡ ok tt
      → Post t (m e v).1
      → Holds Post Untouched ((m >> pure t) e v)
  unfolding ◌>>=◌
  told_then t m e v told post = rw told (Holds.returned post)

  -- Storing a task and telling of it.
  pub then_put :
      (t : Task) (m : App (Unit {0})) (e : Env) (w : World)
      → tables w ≡ k
      → Steps (Fixes tables) m
      → ((v : World) → (m e v).0 ≡ ok tt)
      → ((w' : World) → w'.repo.tasks ≡ Map.set t.id t k.0 → Post t w')
      → Holds Post Untouched ((put EntityKind.tasks t >>= λ _. m >> pure t) e w)
  unfolding put
  then_put t m e w s q told post =
      Holds-bind (λ _ w'. w'.repo.tasks ≡ Map.set t.id t k.0) _ (λ _. m >> pure t) e w
        (put_over-tables _ t e w s)
        λ u v stored. told_then t m e v (told v) (post _ (ap (λ p. p.0) (q.at e v) ∙ stored))

pub announce-ok :
    (a i : String) (t : EventType) (p : List (String × Value)) (c : Creator) (ai : String) (e : Env)
    (w : World)
    → (announce a i t p c ai e w).0 ≡ ok tt
unfolding announce new_event emit append_event publish random_uuid now ◌>>=◌
announce-ok a i t p c ai e w = refl

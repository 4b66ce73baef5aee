-- ===== src/Relay/Tasks/Keeping.antt =====
-- Runs of a method on a forest of tasks: the steps that leave the tasks alone, and the one that
-- writes a task.
use noudle_agents.Base.{
  ◌≡◌, refl, sym, ap, ◌∙◌, subst, String, Option, none, some, ◌==◌, Bool-cases, inl, inr,
}
use noudle_agents.Base.Map
use noudle_agents.Base.Map.{Map}
use noudle_agents.Protocol.{Task}
use noudle_agents.Repository.State.{EntityKind}
use noudle_agents.Repository.Entities
use noudle_agents.Repository.Entities.{put, put_over}
use noudle_agents.Repository.EventLog.{append_event}
use noudle_agents.Relay.Lookup.{require}
use noudle_agents.Relay.Events.{emit}
use noudle_agents.Relay.Effects.{IsReader}
use noudle_agents.Relay.Hierarchy.Forest.{IsForest, Fits, set-IsForest}
use noudle_agents.App.{
  World, Env, App, Result, ok, err, Failure, now, random_uuid, publish, or_throw, not_found, ◌>>=◌,
}
use noudle_agents.App.Steps.{Steps, Fixes, Fixes-IsPreorder}
use noudle_agents.App.Holds.{Holds, Holds-bind}

abbrev pub tasks_of : World → Map Task
tasks_of w = w.repo.tasks

-- Reading and emitting leave the tasks alone.
instance pub tasks-IsReader : IsReader (Fixes tasks_of)
unfolding now random_uuid emit append_event publish ◌>>=◌
tasks-IsReader = record {
  order = Fixes-IsPreorder tasks_of;
  draw = record { at = λ e w. refl };
  tick = record { at = λ e w. refl };
  emits = λ n. record { at = λ e w. refl };
}

-- The tasks are a forest, whether the run returns or throws.
abbrev pub InForest {κ} : {A : Type κ} → Result A × World → Type κ
InForest r = Holds (λ _ w. IsForest (tasks_of w)) (λ w. IsForest (tasks_of w)) r

InForest-of {κ} : {A : Type κ} (r : Result A × World) → IsForest (tasks_of r.1) → InForest r
InForest-of (ok a, w) h = Holds.returned h
InForest-of (err x, w) h = Holds.threw h

pub InForest-tasks {κ} : {A : Type κ} (r : Result A × World) → InForest r → IsForest (tasks_of r.1)
InForest-tasks _ (Holds.returned h) = h
InForest-tasks _ (Holds.threw h) = h

module _ (m : Map Task) (h : IsForest m) where
  known_of :
      {A : Type 0} (r : Result A × World)
      → tasks_of r.1 ≡ m
      → Holds (λ a w. (tasks_of w ≡ m) × (r.0 ≡ ok a)) (λ w. IsForest (tasks_of w)) r
  known_of (ok a, w) s = Holds.returned (s, refl)
  known_of (err x, w) s = Holds.threw (subst IsForest (sym s) h)

  -- A step that leaves the tasks alone, and then the rest, which knows what the step returned.
  pub then_rest :
      {A B : Type 0} (a : App A) (f : A → App B) (e : Env) (w : World)
      → Steps (Fixes tasks_of) a
      → tasks_of w ≡ m
      → ((x : A) (w' : World) → tasks_of w' ≡ m → (a e w).0 ≡ ok x → InForest (f x e w'))
      → InForest ((a >>= f) e w)
  then_rest a f e w q s k =
      Holds-bind (λ x w'. (tasks_of w' ≡ m) × ((a e w).0 ≡ ok x)) a f e w
        (known_of (a e w) (q.at e w ∙ s)) λ x w' (s', i). k x w' s' i

  put_over-InForest :
      (o : Option Task) (t : Task) (e : Env) (w : World)
      → tasks_of w ≡ m
      → Fits m t.id t
      → InForest (put_over EntityKind.tasks o t e w)
  unfolding put_over
  put_over-InForest none t e w s fits =
      Holds.returned (subst (λ n. IsForest (Map.set t.id t n)) (sym s) (set-IsForest t h refl fits))
  put_over-InForest (some old) t e w s fits =
      elim (Bool-cases (old.workspace_id == t.workspace_id)) [
        | inl same ↦ rw same (
            Holds.returned
              (subst (λ n. IsForest (Map.set t.id t n)) (sym s) (set-IsForest t h refl fits)))
        | inr other ↦ rw other (Holds.threw (subst IsForest (sym s) h))
      ]

  -- Storing a task that fits, and then steps that leave the tasks alone.
  pub then_put :
      {B : Type 0} (t : Task) (f : Unit {0} → App B) (e : Env) (w : World)
      → tasks_of w ≡ m
      → Fits m t.id t
      → Steps (Fixes tasks_of) (f tt)
      → InForest ((put EntityKind.tasks t >>= f) e w)
  unfolding put
  then_put t f e w s fits q =
      Holds-bind (λ _ w'. IsForest (tasks_of w')) _ f e w (put_over-InForest _ t e w s fits)
        λ u w' g. InForest-of (f u e w') (subst IsForest (sym (q.at e w')) g)

ok_injective {κ} : {A : Type κ} (a b : A) → ok a ≡ ok b → a ≡ b
ok_injective a b h = cc

-- What `or_throw` returns was there.
pub or_throw-some {κ} :
    {A : Type κ} (x : Failure) (o : Option A) (a : A) (e : Env) (w : World)
    → (or_throw x o e w).0 ≡ ok a
    → o ≡ some a
or_throw-some x none a e w h = absurd cc
or_throw-some x (some b) a e w h = ap some (ok_injective b a h)

pub require-some :
    (id : String) (t : Task) (e : Env) (w : World)
    → (require EntityKind.tasks id e w).0 ≡ ok t
    → Map.get id (tasks_of w) ≡ some t
unfolding require Entities.get ◌>>=◌
require-some id t e w h = or_throw-some not_found _ t e w h

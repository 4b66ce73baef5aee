-- ===== src/Relay/Schedules/Keeping.antt =====
-- Runs of a method on a table of schedules, each of which stands well: the steps that leave the
-- schedules alone, and those that write one.
use noudle_agents.Base.{
  some_injective, ◌≢◌, Option-cases, ◌≡◌, refl, sym, ap, ◌∙◌, subst, String, Option, none, some, [],
  ◌∷◌, Bool, true, false, not, ◌&&◌, ◌==◌, Bool-cases, inl, inr,
}
use noudle_agents.Base.Map
use noudle_agents.Base.Map.{Map}
use noudle_agents.Protocol.{Schedule, parse_schedule, parse_schedule-trimmed, trimmed_schedule}
use noudle_agents.Repository.State.{EntityKind}
use noudle_agents.Repository.Entities
use noudle_agents.Repository.Entities.{put, put_over}
use noudle_agents.Repository.EventLog.{append_event}
use noudle_agents.Relay.Lookup.{require}
use noudle_agents.Relay.Events.{emit}
use noudle_agents.Relay.Effects.{IsReader}
use noudle_agents.Relay.Schedules.{get_schedule, is_cron}
use noudle_agents.App.{
  World, Env, App, Result, ok, err, Failure, now, random_uuid, publish, parsed, or_throw, not_found,
  invalid, ◌>>=◌,
}
use noudle_agents.App.Steps.{Steps, Fixes, Fixes-IsPreorder}
use noudle_agents.App.Holds.{Holds, returned, threw, Holds-bind}

abbrev pub is_some : {A : Type 0} → Option A → Bool
is_some none = false
is_some (some a) = true

-- A next run is planned exactly when the schedule is enabled and timed, and a token is there exactly
-- when it is triggered by a webhook.
pub record IsStanding (s : Schedule) : Type 0 where
  pub timed : is_some s.next_run_at ≡ (s.enabled && is_cron s.trigger_type)
  pub opened : is_some s.webhook_token ≡ not (is_cron s.trigger_type)

abbrev pub AllStanding : Map Schedule → Type 0
AllStanding [] = Unit
AllStanding ((k, s) ∷ m) = IsStanding s × AllStanding m

abbrev pub schedules_of : World → Map Schedule
schedules_of w = w.repo.schedules

set-AllStanding :
    (k : String) (s : Schedule) (m : Map Schedule)
    → IsStanding s
    → AllStanding m
    → AllStanding (Map.set k s m)
unfolding Map.set
set-AllStanding k s [] h a = (h, tt)
set-AllStanding k s ((j, t) ∷ m) h a = elim (Bool-cases (j == k)) [
  | inl e ↦ rw e (h, a.1)
  | inr e ↦ rw e (a.0, set-AllStanding k s m h a.1)
]

pub delete-AllStanding :
    (k : String) (m : Map Schedule) → AllStanding m → AllStanding (Map.delete k m)
unfolding Map.delete
delete-AllStanding k [] a = tt
delete-AllStanding k ((j, t) ∷ m) a = elim (Bool-cases (j == k)) [
  | inl e ↦ rw e (delete-AllStanding k m a.1)
  | inr e ↦ rw e (a.0, delete-AllStanding k m a.1)
]

get-IsStanding :
    (k : String) (s : Schedule) (m : Map Schedule)
    → AllStanding m
    → Map.get k m ≡ some s
    → IsStanding s
unfolding Map.get
get-IsStanding k s [] a h = absurd cc
get-IsStanding k s ((j, t) ∷ m) a h = elim (Bool-cases (j == k)) [
  | inl e ↦ subst IsStanding (some_injective t s (sym (rw e) ∙ h)) a.0
  | inr e ↦ get-IsStanding k s m a.1 (sym (rw e) ∙ h)
]

-- Reading and emitting leave the schedules alone.
instance pub schedules-IsReader : IsReader (Fixes schedules_of)
unfolding now random_uuid emit append_event publish ◌>>=◌
schedules-IsReader = record {
  order = Fixes-IsPreorder schedules_of;
  draw = record { at = λ e w. refl };
  tick = record { at = λ e w. refl };
  emits = λ n. record { at = λ e w. refl };
}

-- The schedules stand well, whether the run returns or throws.
abbrev pub Standing {κ} : {A : Type κ} → Result A × World → Type κ
Standing r = Holds (λ _ w. AllStanding (schedules_of w)) (λ w. AllStanding (schedules_of w)) r

pub Standing-of {κ} :
    {A : Type κ} (r : Result A × World) → AllStanding (schedules_of r.1) → Standing r
Standing-of (ok a, w) h = returned h
Standing-of (err x, w) h = threw h

pub Standing-schedules {κ} :
    {A : Type κ} (r : Result A × World) → Standing r → AllStanding (schedules_of r.1)
Standing-schedules _ (returned h) = h
Standing-schedules _ (threw h) = h

with_value {κ} :
    {A : Type κ} {P : A → Type 0} (u : World) (r : Result A × World)
    → AllStanding (schedules_of u)
    → schedules_of r.1 ≡ schedules_of u
    → ((a : A) → r.0 ≡ ok a → P a)
    → Holds (λ a w. P a × AllStanding (schedules_of w)) (λ w. AllStanding (schedules_of w)) r
with_value u (ok a, w) s same p = returned (p a refl, subst AllStanding (sym same) s)
with_value u (err x, w) s same p = threw (subst AllStanding (sym same) s)

-- A step that leaves the schedules alone and whose value is known to satisfy `P`, and then the rest.
pub then_value :
    {A B : Type 0} (P : A → Type 0) (a : App A) (f : A → App B) (e : Env) (w : World)
    → Steps (Fixes schedules_of) a
    → ((x : A) → (a e w).0 ≡ ok x → P x)
    → ((x : A) (w' : World) → P x → AllStanding (schedules_of w') → Standing (f x e w'))
    → AllStanding (schedules_of w)
    → Standing ((a >>= f) e w)
then_value P a f e w q p k s =
    Holds-bind (λ x w'. P x × AllStanding (schedules_of w')) a f e w
      (with_value w (a e w) s (q.at e w) p) λ x w' (px, s'). k x w' px s'

pub then_rest :
    {A B : Type 0} (a : App A) (f : A → App B) (e : Env) (w : World)
    → Steps (Fixes schedules_of) a
    → ((x : A) (w' : World) → AllStanding (schedules_of w') → Standing (f x e w'))
    → AllStanding (schedules_of w)
    → Standing ((a >>= f) e w)
then_rest a f e w q k s = then_value (λ _. Unit) a f e w q (λ x h. tt) (λ x w' u. k x w') s

put_over-Standing :
    (o : Option Schedule) (t : Schedule) (e : Env) (w : World)
    → AllStanding (schedules_of w)
    → IsStanding t
    → Standing (put_over EntityKind.schedules o t e w)
unfolding put_over
put_over-Standing none t e w s h = returned (set-AllStanding t.id t (schedules_of w) h s)
put_over-Standing (some old) t e w s h = elim (Bool-cases (old.workspace_id == t.workspace_id)) [
  | inl same ↦ rw same (returned (set-AllStanding t.id t (schedules_of w) h s))
  | inr other ↦ rw other (threw s)
]

-- Storing a schedule that stands well, and then steps that leave the schedules alone.
pub then_put :
    {B : Type 0} (t : Schedule) (f : Unit {0} → App B) (e : Env) (w : World)
    → IsStanding t
    → Steps (Fixes schedules_of) (f tt)
    → AllStanding (schedules_of w)
    → Standing ((put EntityKind.schedules t >>= f) e w)
unfolding put
then_put t f e w h q s =
    Holds-bind (λ _ w'. AllStanding (schedules_of w')) _ f e w (put_over-Standing _ t e w s h)
      λ u w' g. Standing-of (f u e w') (subst AllStanding (sym (q.at e w')) g)

ok_injective {κ} : {A : Type κ} (a b : A) → ok a ≡ ok b → a ≡ b
ok_injective a b h = cc

or_throw-some {κ} :
    {A : Type κ} (x : Failure) (o : Option A) (a : A) (e : Env) (w : World)
    → (or_throw x o e w).0 ≡ ok a
    → o ≡ some a
or_throw-some x none a e w h = absurd cc
or_throw-some x (some b) a e w h = ap some (ok_injective b a h)

trimmed-IsStanding : (s : Schedule) → IsStanding s → IsStanding (trimmed_schedule s)
trimmed-IsStanding s h = record { timed = h.timed; opened = h.opened }

pub parsed-IsStanding :
    (s t : Schedule) (e : Env) (w : World)
    → IsStanding s
    → (parsed (parse_schedule s) e w).0 ≡ ok t
    → IsStanding t
parsed-IsStanding s t e w h p =
    subst IsStanding (sym (parse_schedule-trimmed s t (or_throw-some invalid _ t e w p)))
      (trimmed-IsStanding s h)

err-ne : (x : Failure) (t : Schedule) → Result.err x ≢ ok t
err-ne x t h = cc

-- A schedule that is found stands well.
pub found-IsStanding :
    (id : String) (t : Schedule) (e : Env) (w : World)
    → AllStanding (schedules_of w)
    → (get_schedule id e w).0 ≡ ok t
    → IsStanding t
unfolding get_schedule require Entities.get ◌>>=◌
found-IsStanding id t e w a h = elim (Option-cases (Map.get id (schedules_of w))) [
  | inl missing ↦ absurd (err-ne not_found t (sym (rw missing) ∙ h))
  | inr (s, found) ↦
      parsed-IsStanding s t e w (get-IsStanding id s (schedules_of w) a found) (sym (rw found) ∙ h)
]

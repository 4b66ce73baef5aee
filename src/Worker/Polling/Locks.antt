-- ===== src/Worker/Polling/Locks.antt =====
-- `dispatchOneSchedule` gives back the schedule that it claims.
use noudle_agents.Base.{
  ap, ◌≡◌, refl, ◌∙◌, subst, ℕ, String, Option, none, some, Bool, true, false, ◌==◌, ◌otherwise◌,
  Bool-cases, inl, inr,
}
use noudle_agents.App.{
  invalid, parsed, World, Env, App, Result, ok, err, now, random_uuid, publish, pure, ◌>>=◌, ◌>>◌,
}
use noudle_agents.Base.Map
use noudle_agents.Base.Map.{Map, get-delete-same}
use noudle_agents.Protocol.{Schedule, Conversation, parse_schedule, parse_schedule-id}
use noudle_agents.Repository.State.{EntityKind, ScheduleLock}
use noudle_agents.Repository.Entities
use noudle_agents.Repository.Entities.{put, put_over}
use noudle_agents.Repository.EventLog.{append_event}
use noudle_agents.Repository.ScheduleClaims.{
  next_due, lock_due, claim_due_schedule, release_schedule_claim,
}
use noudle_agents.Relay.Effects.{IsReader, ◌⨾◌, done, Steps-new_event, Steps-reads}
use noudle_agents.Relay.Events.{emit}
use noudle_agents.Relay.Schedules.Triggering.{Source, touch_found, trigger_schedule, trigger_due}
use noudle_agents.App.Steps.{Steps, Fixes, Fixes-IsPreorder}
use noudle_agents.App.Holds.{Holds, returned, threw, Holds-bind, Holds-or_throw, AnyWorld, ◌first◌}
use noudle_agents.Worker.Processing.{Worker, settle, guarded}
use noudle_agents.Worker.Polling.{dispatch_claimed, dispatch_one_schedule}

abbrev locks_of : World → Map ScheduleLock
locks_of w = w.repo.schedule_locks

instance locks-IsReader : IsReader (Fixes locks_of)
unfolding now random_uuid emit append_event publish ◌>>=◌
locks-IsReader = record {
  order = Fixes-IsPreorder locks_of;
  draw = record { at = λ e w. refl };
  tick = record { at = λ e w. refl };
  emits = λ n. record { at = λ e w. refl };
}

abbrev pub IsUnlocked : String → World → Type 0
IsUnlocked id w = Map.get id (locks_of w) ≡ none

abbrev Unlocking {κ} : {A : Type κ} → String → Result A × World → Type κ
Unlocking id = Holds (λ _ w. IsUnlocked id w) AnyWorld

put_over-locks :
    (o : Option Conversation) (c : Conversation)
    → Steps (Fixes locks_of) (put_over EntityKind.conversations o c)
unfolding put_over
put_over-locks none c = record { at = λ e w. refl }
put_over-locks (some old) c = elim (Bool-cases (old.workspace_id == c.workspace_id)) [
  | inl t ↦ rw t (record { at = λ e w. refl })
  | inr t ↦ rw t (record { at = λ e w. refl })
]

touch_found-locks : (at : ℕ) (o : Option Conversation) → Steps (Fixes locks_of) (touch_found at o)
unfolding touch_found put
touch_found-locks at none = done _
touch_found-locks at (some c) = record { at = λ e w. (put_over-locks _ _).at e w }

-- `put` of a schedule drops its lock.
put_over-Unlocking :
    (o : Option Schedule) (s : Schedule) (e : Env) (w : World)
    → Unlocking s.id (put_over EntityKind.schedules o s e w)
unfolding put_over
put_over-Unlocking none s e w = returned (get-delete-same s.id (locks_of w))
put_over-Unlocking (some old) s e w = elim (Bool-cases (old.workspace_id == s.workspace_id)) [
  | inl t ↦ rw t (returned (get-delete-same s.id (locks_of w)))
  | inr t ↦ rw t (threw tt)
]

Unlocking-of {κ} :
    {A : Type κ} (id : String) (r : Result A × World) → IsUnlocked id r.1 → Unlocking id r
Unlocking-of id (ok a, w) h = returned h
Unlocking-of id (err x, w) h = threw tt

then_put :
    {B : Type 0} (id : String) (s : Schedule) (f : Unit {0} → App B)
    → s.id ≡ id
    → Steps (Fixes locks_of) (f tt)
    → (e : Env) (w : World) → Unlocking id ((put EntityKind.schedules s >>= f) e w)
unfolding put
then_put id s f same q e w =
    Holds-bind (λ _ w'. IsUnlocked id w') _ f e w
      (subst (λ i. Unlocking i (put EntityKind.schedules s e w)) same (put_over-Unlocking _ s e w))
      λ u w' g. Unlocking-of id (f u e w') (ap (Map.get id) (q.at e w') ∙ g)

then_parsed :
    {B : Type 0} (s : Schedule) (f : Schedule → App B)
    → ((t : Schedule) → t.id ≡ s.id → (e : Env) (w : World) → Unlocking s.id (f t e w))
    → (e : Env) (w : World) → Unlocking s.id ((parsed (parse_schedule s) >>= f) e w)
then_parsed s f h e w =
    Holds-bind (λ t w'. t.id ≡ s.id) _ f e w
      (Holds-or_throw _ AnyWorld invalid _ e w (λ t p. parse_schedule-id s t p) tt)
      λ t w' same. h t same e w'

trigger_schedule-Unlocking :
    (s : Schedule) (at : ℕ) (source : Source) (payload : Option String) (id : String) (e : Env)
    (w : World)
    → Unlocking s.id (trigger_schedule s at source payload id e w)
unfolding trigger_schedule Entities.get
trigger_schedule-Unlocking s at source payload id = _ first λ _. _ first λ _. _ first λ _.
    _ first λ _. _ first λ _. _ first λ _. _ first λ _. _ first λ _. _ first λ _. _ first λ _.
    _ first λ _. _ first λ _. then_parsed _ _ λ t same. then_put s.id t _ same (
      Steps-new_event _ _ _ _ _ _ ⨾ λ n.
      locks-IsReader.emits n ⨾ λ _. Steps-reads _ ⨾ λ o. touch_found-locks _ o ⨾ λ _. done _)

trigger_due-Unlocking :
    (s : Schedule) (at : ℕ) (e : Env) (w : World) → Unlocking s.id (trigger_due s at e w)
unfolding trigger_due
trigger_due-Unlocking s at = _ first λ iso. trigger_schedule-Unlocking s at _ _ _

-- It returned, and unlocked the schedule.
abbrev Unlocked : String → Result Bool × World → Type 0
Unlocked id r = ((b : Bool) × (r.0 ≡ ok b)) × IsUnlocked id r.1

settle-Unlocked :
    {A : Type 0} (s : Schedule) (r : Result A × World) (e : Env)
    → Unlocking s.id r
    → Unlocked s.id
        (settle r.0 (λ error. release_schedule_claim s.id >> pure false) (λ sent. pure true) e r.1)
unfolding release_schedule_claim ◌>>=◌
settle-Unlocked s _ e (returned h) = ((true, refl), h)
settle-Unlocked s _ e (threw {x} {w} h) = ((false, refl), get-delete-same s.id (locks_of w))

dispatch_claimed-Unlocked :
    (at : ℕ) (s : Schedule) (e : Env) (w : World) → Unlocked s.id (dispatch_claimed at (some s) e w)
unfolding dispatch_claimed guarded
dispatch_claimed-Unlocked at s e w =
    settle-Unlocked s (trigger_due s (s.next_run_at otherwise at) e w) e
      (trigger_due-Unlocking s _ e w)

dispatch_none :
    (at : ℕ) (e : Env) (w : World) → (b : Bool) × ((dispatch_claimed at none e w).0 ≡ ok b)
unfolding dispatch_claimed
dispatch_none at e w = (false, refl)

-- The schedule, if there is one, is not locked.
abbrev pub IsReleased : Option Schedule → World → Type 0
IsReleased none w = Unit
IsReleased (some s) w = IsUnlocked s.id w

-- The rest of `dispatchOneSchedule`, by the schedule that is due.
lock_due-Unlocked :
    (id : String) (at : ℕ) (o : Option Schedule) (e : Env) (w : World)
    → ((b : Bool) × (((lock_due id at o >>= dispatch_claimed at) e w).0 ≡ ok b))
      × IsReleased o ((lock_due id at o >>= dispatch_claimed at) e w).1
unfolding lock_due ◌>>=◌
lock_due-Unlocked id at none e w = (dispatch_none at e w, tt)
lock_due-Unlocked id at (some s) e w = dispatch_claimed-Unlocked at s e _

-- `dispatchOneSchedule` does not throw, and the schedule that was due, if one was, is not locked when
-- it returns, whether the schedule's run was triggered or failed to be.
pub dispatch_one_schedule-unlocks :
    (worker : Worker) (e : Env) (w : World)
    → ((b : Bool) × ((dispatch_one_schedule worker e w).0 ≡ ok b))
      × IsReleased
          (next_due e.config.workspace_id (e.clock w.ticks) w.repo)
          (dispatch_one_schedule worker e w).1
unfolding dispatch_one_schedule claim_due_schedule ◌>>=◌ now
dispatch_one_schedule-unlocks worker e w = lock_due-Unlocked worker.id (e.clock w.ticks) _ e _

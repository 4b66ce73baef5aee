-- ===== src/Relay/Approvals/Once.antt =====
-- An approval is resolved once, while it is pending and has not expired.
use noudle_agents.Base.{
  ℕ, ◌<◌, ◌≡◌, refl, ap, ◌∙◌, String, Option, none, some, false, not, leb, arith, eq_refl, ◌==◌,
  Bool-cases, inl, inr,
}
use noudle_agents.Base.Map
use noudle_agents.Base.Map.{Map, get-set}
use noudle_agents.Protocol.{Approval, ApprovalStatus, parse_approval_same}
use noudle_agents.Repository.State.{EntityKind}
use noudle_agents.Repository.Entities
use noudle_agents.Relay.Approvals.{write_decision, Decision, decided, is_pending, resolve_approval}
use noudle_agents.Relay.Lookup.{require}
use noudle_agents.Relay.Events.{emit}
use noudle_agents.Repository.EventLog.{append_event}
use noudle_agents.Repository.Entities.{put, put_over}
use noudle_agents.Relay.Effects.{IsReader, Steps-announce}
use noudle_agents.App.{
  random_uuid, publish, config, World, Env, App, ok, err, Failure, conflict, not_found, now, ◌>>=◌,
}
use noudle_agents.App.Steps.{Steps, Fixes, Fixes-IsPreorder}
use noudle_agents.App.Holds.{Holds, Holds-bind, Holds-all, Holds-or_throw, Holds-throw_if, Holds-ok}

abbrev approvals_of : World → Map Approval
approvals_of w = w.repo.approvals

instance approvals-IsReader : IsReader (Fixes approvals_of)
unfolding now random_uuid emit append_event publish ◌>>=◌
approvals-IsReader = record {
  order = Fixes-IsPreorder approvals_of;
  draw = record { at = λ e w. refl };
  tick = record { at = λ e w. refl };
  emits = λ n. record { at = λ e w. refl };
}

-- From `current` at the clock's time in `u`, the approval `a` was decided and stored in `w`.
pub record IsResolution (e : Env) (u : World) (id : String) (d : Decision) (a : Approval)
    (w : World) : Type 0 where
  pub current : Approval
  pub found : Map.get id u.repo.approvals ≡ some current
  pub pending : current.status ≡ ApprovalStatus.pending
  pub in_time : e.clock u.ticks < current.expires_at
  pub status : a.status ≡ decided d
  pub same : a.id ≡ current.id
  pub stored : Map.get a.id w.repo.approvals ≡ some a

not_pending : (s : ApprovalStatus) → not (is_pending s) ≡ false → s ≡ ApprovalStatus.pending
not_pending ApprovalStatus.pending h = refl
not_pending ApprovalStatus.approved h = absurd cc
not_pending ApprovalStatus.denied h = absurd cc
not_pending ApprovalStatus.expired h = absurd cc

abbrev Stored : Approval → World → Type 0
Stored a w = Map.get a.id w.repo.approvals ≡ some a

put_over-Stored :
    (o : Option Approval) (a : Approval) (e : Env) (w : World)
    → Holds (λ _ w'. Stored a w') (λ _. Unit) (put_over EntityKind.approvals o a e w)
unfolding put_over
put_over-Stored none a e w = Holds.returned (get-set a.id a.id a w.repo.approvals ∙ rw eq_refl)
put_over-Stored (some old) a e w = elim (Bool-cases (old.workspace_id == a.workspace_id)) [
  | inl same ↦ rw same (Holds.returned (get-set a.id a.id a w.repo.approvals ∙ rw eq_refl))
  | inr other ↦ rw other (Holds.threw tt)
]

put-Stored :
    (a : Approval) (e : Env) (w : World)
    → Holds (λ _ w'. Stored a w') (λ _. Unit) (put EntityKind.approvals a e w)
unfolding put
put-Stored a e w = put_over-Stored _ a e w

announce-Stored :
    (a : Approval) (m : App (Unit {0})) (e : Env) (w : World)
    → Steps (Fixes approvals_of) m
    → Stored a w
    → Holds (λ _ w'. Stored a w') (λ _. Unit) (m e w)
announce-Stored a m e w s h = Holds-all _ _ m e w (λ _. ap (Map.get a.id) (s.at e w) ∙ h) tt

require-Holds :
    (id : String) (e : Env) (w : World)
    → Holds
        (λ c w1. (w1.ticks ≡ w.ticks) × (Map.get id w.repo.approvals ≡ some c))
        (λ _. Unit)
        (require EntityKind.approvals id e w)
unfolding require Entities.get ◌>>=◌
require-Holds id e w =
    Holds-or_throw _ _ not_found (Map.get id w.repo.approvals) e w (λ c found. (refl, found)) tt

in_time_of : (expires at now : ℕ) → at ≡ now → leb expires at ≡ false → now < expires
in_time_of expires at now same t = ground arith

decide-Holds :
    (id : String) (d : Decision) (e : Env) (w : World) (c : Approval)
    → Map.get id w.repo.approvals ≡ some c
    → c.status ≡ ApprovalStatus.pending
    → e.clock w.ticks < c.expires_at
    → (w4 : World) → Holds (IsResolution e w id d) (λ _. Unit) (write_decision c d e w4)
unfolding write_decision now
decide-Holds id d e w c found pending in_time w4 =
    Holds-bind (λ _ _. Unit) _ _ e w4 (Holds.returned tt)
      λ decided_at w5 _.
        Holds-bind (λ a _. (a.status ≡ decided d) × (a.id ≡ c.id)) _ _ e w5
          (Holds-or_throw _ _ Failure.invalid _ e w5
            (λ a parse.
              let same = parse_approval_same _ a parse in
              (ap (λ (b : Approval). b.status) same, ap (λ (b : Approval). b.id) same))
            tt)
          λ a w6 (status, same).
            Holds-bind (λ _ w7. Stored a w7) _ _ e w6 (put-Stored a e w6)
              λ _ w7 stored.
                Holds-bind (λ _ w8. Stored a w8) config _ e w7 (Holds.returned stored)
                  λ cfg w8 stored8.
                    Holds-bind (λ _ w9. Stored a w9) _ _ e w8
                      (announce-Stored a _ e w8 (Steps-announce _ _ _ _ _ _) stored8)
                      λ _ w9 stored9. Holds.returned (record {
                        current = c;
                        found = found;
                        pending = pending;
                        in_time = in_time;
                        status = status;
                        same = same;
                        stored = stored9;
                      })

resolve-Holds :
    (id : String) (d : Decision) (e : Env) (w : World)
    → Holds (IsResolution e w id d) (λ _. Unit) (resolve_approval id d e w)
unfolding resolve_approval now
resolve-Holds id d e w =
    Holds-bind (λ c w1. (w1.ticks ≡ w.ticks) × (Map.get id w.repo.approvals ≡ some c)) _ _ e w
      (require-Holds id e w)
      λ c w1 (ticks, found).
        Holds-bind (λ _ w2. (w2.ticks ≡ w.ticks) × (c.status ≡ ApprovalStatus.pending)) _ _ e w1
          (Holds-throw_if _ _ _ (conflict "approval_resolved") e w1
            (λ t. (ticks, not_pending c.status t)) tt)
          λ _ w2 (ticks2, pending).
            Holds-bind (λ at _. at ≡ e.clock w.ticks) _ _ e w2 (Holds.returned (ap e.clock ticks2))
              λ at w3 same_at.
                Holds-bind (λ _ _. e.clock w.ticks < c.expires_at) _ _ e w3
                  (Holds-throw_if _ _ _ (conflict "approval_expired") e w3
                    (in_time_of c.expires_at at (e.clock w.ticks) same_at) tt)
                  λ _ w4 in_time. decide-Holds id d e w c found pending in_time w4

refused :
    (d d' : Decision) (e : Env) (w : World) (a : Approval)
    → a.status ≡ decided d
    → Map.get a.id w.repo.approvals ≡ some a
    → resolve_approval a.id d' e w ≡ (err (conflict "approval_resolved"), w)
unfolding resolve_approval require Entities.get ◌>>=◌
refused Decision.approve d' e w a status found = rw (found, status) refl
refused Decision.deny d' e w a status found = rw (found, status) refl

-- A resolution that returns answers an approval that was pending and whose expiry lies after the
-- clock's reading, and stores it with the decision; a second resolution of that approval, in any
-- later world that still has it stored so, whatever its decision, is refused as a conflict.
pub resolve-resolve :
    (id : String) (d d' : Decision) (e : Env) (w w' : World) (a : Approval)
    → (resolve_approval id d e w).0 ≡ ok a
    → Map.get a.id w'.repo.approvals ≡ Map.get a.id (resolve_approval id d e w).1.repo.approvals
    → IsResolution e w id d a (resolve_approval id d e w).1
      × (resolve_approval a.id d' e w' ≡ (err (conflict "approval_resolved"), w'))
resolve-resolve id d d' e w w' a h kept =
    let r = Holds-ok (resolve-Holds id d e w) h in
    (r, refused d d' e w' a r.status (kept ∙ r.stored))

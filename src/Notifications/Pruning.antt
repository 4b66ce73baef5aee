-- ===== src/Notifications/Pruning.antt =====
-- Which subscriptions are left after the push service has answered.
use noudle_agents.App.{continue, Result, ok, World, Env, App, pure, ◌>>=◌, ◌>>◌}
use noudle_agents.Base.{
  subst, ◌≡◌, refl, sym, ap, ◌∙◌, String, Option, none, some, List, [], ◌∷◌, Bool, true, false,
  ◌&&◌, ◌||◌, ◌==◌, contains, eq_iff, Bool-cases, inl, inr, if◌then◌else◌,
}
use noudle_agents.Base.Map
use noudle_agents.Base.Map.{Map, get-delete}
use noudle_agents.Repository.State.{PushSubscription}
use noudle_agents.Repository.Push.{delete_found, delete_push_subscription}
use noudle_agents.Notifications.{ExpoTicket, is_gone, prune}

abbrev subscriptions_of : World → Map PushSubscription
subscriptions_of w = w.repo.push_subscriptions

-- The tokens that the tickets report as gone.
abbrev pub gone_tokens : List ExpoTicket → List PushSubscription → List String
gone_tokens [] subscriptions = []
gone_tokens (ticket ∷ tickets) [] = []
gone_tokens (ticket ∷ tickets) (s ∷ subscriptions) =
    let rest = gone_tokens tickets subscriptions in if is_gone ticket then s.token ∷ rest else rest

-- What is left of an entry whose token is gone, or not: another workspace's entry stays.
abbrev pub left_of : Bool → String → Option PushSubscription → Option PushSubscription
left_of gone workspace_id none = none
left_of gone workspace_id (some s) = if gone && s.workspace_id == workspace_id then none else some s

left_of_none :
    (workspace_id : String) (o : Option PushSubscription) → left_of false workspace_id o ≡ o
left_of_none workspace_id none = refl
left_of_none workspace_id (some s) = refl

left_of-left_of :
    (a b : Bool) (workspace_id : String) (o : Option PushSubscription)
    → left_of b workspace_id (left_of a workspace_id o) ≡ left_of (a || b) workspace_id o
left_of-left_of a b workspace_id none = refl
left_of-left_of true true workspace_id (some s) =
    elim (Bool-cases (s.workspace_id == workspace_id)) [
      | inl e ↦ rw e refl
      | inr e ↦ rw (e, e) refl
    ]
left_of-left_of true false workspace_id (some s) =
    elim (Bool-cases (s.workspace_id == workspace_id)) [ inl e ↦ rw e refl | inr e ↦ rw e refl ]
left_of-left_of false b workspace_id (some s) = refl

found_at :
    (token t : String) (m : Map PushSubscription) (o : Option PushSubscription)
    → (token == t) ≡ true
    → Map.get token m ≡ o
    → Map.get t m ≡ o
found_at token t m o same h = subst (λ i. Map.get i m ≡ o) ((eq_iff token t).0 same) h

delete_found-get :
    (o : Option PushSubscription) (workspace_id token t : String) (e : Env) (w : World)
    → Map.get token (subscriptions_of w) ≡ o
    → Map.get t (subscriptions_of (delete_found o workspace_id token e w).1)
      ≡ left_of (token == t) workspace_id (Map.get t (subscriptions_of w))
unfolding delete_found ◌>>=◌
delete_found-get none workspace_id token t e w h = elim (Bool-cases (token == t)) [
  | inl same ↦ let g = found_at token t (subscriptions_of w) none same h in rw g refl
  | inr other ↦ rw other (sym (left_of_none workspace_id _))
]
delete_found-get (some s) workspace_id token t e w h =
    elim (Bool-cases (s.workspace_id == workspace_id)) [
      | inl e ↦ elim (Bool-cases (token == t)) [
        | inl same ↦
            let g = found_at token t (subscriptions_of w) (some s) same h in
            rw (e, get-delete, same, g, e) refl
        | inr other ↦ rw (e, get-delete, other) (sym (left_of_none workspace_id _))
      ]
      | inr e ↦ elim (Bool-cases (token == t)) [
        | inl same ↦
            let g = found_at token t (subscriptions_of w) (some s) same h in rw (e, same, g, e) refl
        | inr other ↦ rw (e, other) (sym (left_of_none workspace_id _))
      ]
    ]

delete-get :
    (workspace_id token t : String) (e : Env) (w : World)
    → Map.get t (subscriptions_of (delete_push_subscription workspace_id token e w).1)
      ≡ left_of (token == t) workspace_id (Map.get t (subscriptions_of w))
unfolding delete_push_subscription ◌>>=◌
delete-get workspace_id token t e w = delete_found-get _ workspace_id token t e w refl

-- Deleting never throws.
delete_found-ok :
    (o : Option PushSubscription) (workspace_id token : String) (e : Env) (w : World)
    → (b : Bool) × ((delete_found o workspace_id token e w).0 ≡ ok b)
unfolding delete_found ◌>>=◌
delete_found-ok none workspace_id token e w = (false, refl)
delete_found-ok (some s) workspace_id token e w =
    elim (Bool-cases (s.workspace_id == workspace_id)) [
      | inl t ↦ rw t (true, refl)
      | inr t ↦ rw t (false, refl)
    ]

delete-ok :
    (workspace_id token : String) (e : Env) (w : World)
    → (b : Bool) × ((delete_push_subscription workspace_id token e w).0 ≡ ok b)
unfolding delete_push_subscription ◌>>=◌
delete-ok workspace_id token e w = delete_found-ok _ workspace_id token e w

-- One deletion, and then the rest.
then_delete :
    (workspace_id token : String) (m : App (Unit {0})) (e : Env) (w : World)
    → ((delete_push_subscription workspace_id token >> m) e w)
      ≡ m e (delete_push_subscription workspace_id token e w).1
unfolding ◌>>=◌
then_delete workspace_id token m e w =
    let (b, h) = delete-ok workspace_id token e w in
    ap
      (λ (r : Result Bool).
        continue r (λ u. m) e (delete_push_subscription workspace_id token e w).1)
      h

then_nothing : (m : App (Unit {0})) (e : Env) (w : World) → ((pure false >> m) e w) ≡ m e w
unfolding ◌>>=◌
then_nothing m e w = refl

-- After the tickets have been gone through, an entry is deleted exactly when it is of the message's
-- workspace and a ticket in the place of its token reports the device as no longer registered.
pub prune-get :
    (workspace_id t : String) (tickets : List ExpoTicket) (subscriptions : List PushSubscription)
    (e : Env) (w : World)
    → ((prune workspace_id tickets subscriptions e w).0 ≡ ok tt)
      × (Map.get t (subscriptions_of (prune workspace_id tickets subscriptions e w).1)
          ≡ left_of
              (contains t (gone_tokens tickets subscriptions))
              workspace_id
              (Map.get t (subscriptions_of w)))
unfolding prune
prune-get workspace_id t [] subscriptions e w = (refl, sym (left_of_none workspace_id _))
prune-get workspace_id t (ticket ∷ tickets) [] e w = (refl, sym (left_of_none workspace_id _))
prune-get workspace_id t (ticket ∷ tickets) (s ∷ subscriptions) e w =
    elim (Bool-cases (is_gone ticket)) [
      | inl gone ↦
          let d = delete_push_subscription workspace_id s.token in
          let (k, h) = prune-get workspace_id t tickets subscriptions e (d e w).1 in
          rw gone (
            ap (λ r. r.0) (then_delete workspace_id s.token _ e w) ∙ k,
            ap (λ r. Map.get t (subscriptions_of r.1)) (then_delete workspace_id s.token _ e w)
                ∙ h
                ∙ ap (left_of (contains t (gone_tokens tickets subscriptions)) workspace_id)
                    (delete-get workspace_id s.token t e w)
                ∙ left_of-left_of _ _ workspace_id _,
          )
      | inr kept ↦
          let (k, h) = prune-get workspace_id t tickets subscriptions e w in
          rw kept (
            ap (λ r. r.0) (then_nothing _ e w) ∙ k,
            ap (λ r. Map.get t (subscriptions_of r.1)) (then_nothing _ e w) ∙ h,
          )
    ]

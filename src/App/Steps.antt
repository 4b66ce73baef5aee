-- ===== src/App/Steps.antt =====
-- Reasoning about actions by a preorder on worlds: an action steps along `R` when every run of it,
-- returned or thrown, leads from its world to a related one. A frame condition or an append-only
-- store is such an `R`, and an invariant `P` is the preorder `P w → P w'`.
use noudle_agents.App.{
  asks, World, Env, App, Result, ok, err, Failure, pure, throw, gets, lift, or_throw, throw_if,
  config, ◌>>=◌, continue,
}
use noudle_agents.Base.{◌≡◌, refl, ◌∙◌, Bool, true, false, Option, none, some, if◌then◌else◌}

pub record IsPreorder {ℓ} (R : World → World → Type ℓ) : Type ℓ where
  pub reflexive : (w : World) → R w w
  pub transitive : (u v w : World) → R u v → R v w → R u w

pub record Steps {ℓ κ} {A : Type κ} (R : World → World → Type ℓ) (m : App A) : Type ℓ where
  pub at : (e : Env) (w : World) → R w (m e w).1

-- `f` of the world is left as it was.
abbrev pub Fixes {κ} : {B : Type κ} → (World → B) → World → World → Type κ
Fixes f w w' = f w' ≡ f w

pub Fixes-IsPreorder {κ} : {B : Type κ} (f : World → B) → IsPreorder (Fixes f)
Fixes-IsPreorder f = record { reflexive = λ w. refl; transitive = λ u v w p q. q ∙ p }

-- `P` is kept.
abbrev pub Keeps {κ} : (World → Type κ) → World → World → Type κ
Keeps P w w' = P w → P w'

pub Keeps-IsPreorder {κ} : (P : World → Type κ) → IsPreorder (Keeps P)
Keeps-IsPreorder P = record { reflexive = λ w h. h; transitive = λ u v w p q h. q (p h) }

module _ {ℓ} {R : World → World → Type ℓ} (o : IsPreorder R) where
  pub Steps-pure {κ} : {A : Type κ} (a : A) → Steps R (pure a)
  Steps-pure a = record { at = λ e w. o.reflexive w }

  pub Steps-throw {κ} : {A : Type κ} (x : Failure) → Steps R (throw {A = A} x)
  Steps-throw x = record { at = λ e w. o.reflexive w }

  pub Steps-gets {κ} : {A : Type κ} (f : World → A) → Steps R (gets f)
  Steps-gets f = record { at = λ e w. o.reflexive w }

  pub Steps-asks {κ} : {A : Type κ} (f : Env → A) → Steps R (asks f)
  Steps-asks f = record { at = λ e w. o.reflexive w }

  pub Steps-config : Steps R config
  Steps-config = record { at = λ e w. o.reflexive w }

  pub Steps-lift {κ} : {A : Type κ} (r : Result A) → Steps R (lift r)
  Steps-lift r = record { at = λ e w. o.reflexive w }

  pub Steps-or_throw {κ} : {A : Type κ} (x : Failure) (a : Option A) → Steps R (or_throw x a)
  Steps-or_throw x none = Steps-throw x
  Steps-or_throw x (some a) = Steps-pure a

  pub Steps-throw_if : (b : Bool) (x : Failure) → Steps R (throw_if b x)
  Steps-throw_if true x = Steps-throw x
  Steps-throw_if false x = Steps-pure tt

  Steps-continue {κ μ} :
      {A : Type κ} {B : Type μ} (f : A → App B) (e : Env) (u w : World) (r : Result A)
      → R u w
      → ((a : A) → Steps R (f a))
      → R u (continue r f e w).1
  Steps-continue f e u w (ok a) h kf = o.transitive u w _ h ((kf a).at e w)
  Steps-continue f e u w (err x) h kf = h

  pub Steps-bind {κ μ} :
      {A : Type κ} {B : Type μ} (m : App A) (f : A → App B)
      → Steps R m
      → ((a : A) → Steps R (f a))
      → Steps R (m >>= f)
  unfolding ◌>>=◌
  Steps-bind m f km kf = record {
    at = λ e w. Steps-continue f e w (m e w).1 (m e w).0 (km.at e w) kf;
  }

  pub Steps-if {κ} :
      {A : Type κ} (b : Bool) (m n : App A) → Steps R m → Steps R n → Steps R (if b then m else n)
  Steps-if true m n km kn = km
  Steps-if false m n km kn = kn

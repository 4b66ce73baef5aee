-- ===== src/App/Holds.antt =====
-- What a run establishes: `Post` of the value and the world that it returns, `Bad` of the world that
-- it leaves behind when it throws.
use noudle_agents.Base.{subst, ◌≡◌, refl, Bool, true, false, Option, none, some}
use noudle_agents.App.{
  World, Env, App, Result, ok, err, Failure, or_throw, throw_if, ◌>>=◌, continue,
}

pub data Holds {ℓ κ} {A : Type κ} (Post : A → World → Type ℓ) (Bad : World → Type ℓ)
    : Result A × World → Type (ℓ ⊔ κ) where
  returned : {a : A} {w : World} → Post a w → Holds Post Bad (ok a, w)
  threw : {x : Failure} {w : World} → Bad w → Holds Post Bad (err x, w)

ok-injective {κ} : {A : Type κ} (a b : A) → ok a ≡ ok b → a ≡ b
ok-injective a b e = cc

module _ {ℓ κ} {A : Type κ} {Post : A → World → Type ℓ} {Bad : World → Type ℓ} where
  Holds-ok_of : (r : Result A × World) (a : A) → Holds Post Bad r → r.0 ≡ ok a → Post a r.1
  Holds-ok_of _ a (returned {a = b} {w} h) e = subst (λ c. Post c w) (ok-injective b a e) h
  Holds-ok_of _ a (threw h) e = cc

  -- A run that returned has established its postcondition.
  pub Holds-ok : {r : Result A × World} {a : A} → Holds Post Bad r → r.0 ≡ ok a → Post a r.1
  Holds-ok {r} {a} h e = Holds-ok_of r a h e

module _ {ℓ κ μ} {A : Type κ} {B : Type μ} {Post : B → World → Type ℓ} {Bad : World → Type ℓ}
    (Mid : A → World → Type ℓ) where
  Holds-continue :
      (f : A → App B) (e : Env) (r : Result A × World)
      → Holds Mid Bad r
      → ((a : A) (w : World) → Mid a w → Holds Post Bad (f a e w))
      → Holds Post Bad (continue r.0 f e r.1)
  Holds-continue f e _ (returned {a} {w} h) k = k a w h
  Holds-continue f e _ (threw h) k = threw h

  pub Holds-bind :
      (m : App A) (f : A → App B) (e : Env) (w : World)
      → Holds Mid Bad (m e w)
      → ((a : A) (w' : World) → Mid a w' → Holds Post Bad (f a e w'))
      → Holds Post Bad ((m >>= f) e w)
  unfolding ◌>>=◌
  Holds-bind m f e w h k = Holds-continue f e (m e w) h k

module _ {ℓ κ} {A : Type κ} (Post : A → World → Type ℓ) (Bad : World → Type ℓ) where
  Holds-all_of : (r : Result A × World) → ((a : A) → Post a r.1) → Bad r.1 → Holds Post Bad r
  Holds-all_of (ok a, w) h b = returned (h a)
  Holds-all_of (err x, w) h b = threw b

  -- A run of which only the world matters.
  pub Holds-all :
      (m : App A) (e : Env) (w : World)
      → ((a : A) → Post a (m e w).1)
      → Bad (m e w).1
      → Holds Post Bad (m e w)
  Holds-all m e w h b = Holds-all_of (m e w) h b

  pub Holds-or_throw :
      (x : Failure) (o : Option A) (e : Env) (w : World)
      → ((a : A) → o ≡ some a → Post a w)
      → Bad w
      → Holds Post Bad (or_throw x o e w)
  Holds-or_throw x none e w h b = threw b
  Holds-or_throw x (some a) e w h b = returned (h a refl)

pub Holds-throw_if {ℓ} :
    (Post : Unit {0} → World → Type ℓ) (Bad : World → Type ℓ) (b : Bool) (x : Failure) (e : Env)
    (w : World)
    → (b ≡ false → Post tt w)
    → Bad w
    → Holds Post Bad (throw_if b x e w)
Holds-throw_if Post Bad true x e w h k = threw k
Holds-throw_if Post Bad false x e w h k = returned (h refl)

abbrev pub AnyWorld : World → Type 0
AnyWorld w = Unit

-- One action, whatever it does, and then a rest that establishes the postcondition if it returns.
infixr 5 ◌first◌
pub ◌first◌ {κ μ} :
    {A : Type κ} {B : Type μ} {Post : Env → B → World → Type 0} (m : App A) {f : A → App B}
    → ((a : A) (e : Env) (w : World) → Holds (Post e) AnyWorld (f a e w))
    → (e : Env) (w : World) → Holds (Post e) AnyWorld ((m >>= f) e w)
◌first◌ m h e w =
    Holds-bind (λ _ w. AnyWorld w) m _ e w (Holds-all _ AnyWorld m e w (λ a. tt) tt)
      λ a w' _. h a e w'

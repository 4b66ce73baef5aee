-- ===== src/Base/Alls.antt =====
-- What holds of every element of a list, through the array methods.
use Prim.Native.Nat.{ℕ}
use mathlib.Core.Path.{◌≡◌, subst}
use mathlib.Core.Logic.{inl, inr}
use mathlib.Core.Bool.{Bool, true}
use mathlib.Core.Option.{some}
use mathlib.Core.List.{List, [], ◌∷◌, ◌++◌}
use noudle_agents.Base.Tests.{leb, Bool-cases, some_injective}
use noudle_agents.Base.Lists.{All, keep, insert_by, sort_by, head?}

module _ {ℓ κ} {A : Type ℓ} (P : A → Type κ) where
  -- The kept elements pass the test.
  pub All-keep_test :
      (p : A → Bool) (xs : List A) → ((x : A) → p x ≡ true → P x) → All P (keep p xs)
  All-keep_test p [] h = tt
  All-keep_test p (x ∷ xs) h = elim (Bool-cases (p x)) [
    | inl t ↦ rw t (h x t, All-keep_test p xs h)
    | inr t ↦ rw t (All-keep_test p xs h)
  ]

  pub All-keep : (p : A → Bool) (xs : List A) → All P xs → All P (keep p xs)
  All-keep p [] h = tt
  All-keep p (x ∷ xs) h = elim (Bool-cases (p x)) [
    | inl t ↦ rw t (h.0, All-keep p xs h.1)
    | inr t ↦ rw t (All-keep p xs h.1)
  ]

  All-insert_by : (f : A → ℕ) (x : A) (ys : List A) → P x → All P ys → All P (insert_by f x ys)
  All-insert_by f x [] a h = (a, tt)
  All-insert_by f x (y ∷ ys) a h = elim (Bool-cases (leb (f x) (f y))) [
    | inl t ↦ rw t (a, h)
    | inr t ↦ rw t (h.0, All-insert_by f x ys a h.1)
  ]

  pub All-sort_by : (f : A → ℕ) (xs : List A) → All P xs → All P (sort_by f xs)
  All-sort_by f [] h = tt
  All-sort_by f (x ∷ xs) h = All-insert_by f x _ h.0 (All-sort_by f xs h.1)

  pub All-head : (xs : List A) (x : A) → All P xs → head? xs ≡ some x → P x
  All-head (y ∷ xs) x h e = subst P (some_injective y x e) h.0
  All-head [] x h e = cc

-- The first in order of what passes a test passes it.
pub head-sort-keep {ℓ} :
    {A : Type ℓ} (f : A → ℕ) (p : A → Bool) (xs : List A) (x : A)
    → head? (sort_by f (keep p xs)) ≡ some x
    → p x ≡ true
head-sort-keep f p xs x h =
    All-head (λ y. p y ≡ true) _ x
      (All-sort_by (λ y. p y ≡ true) f _ (All-keep_test (λ y. p y ≡ true) p xs (λ y t. t))) h

pub All-weaken {ℓ κ μ} :
    {A : Type ℓ} (P : A → Type κ) (Q : A → Type μ) (xs : List A)
    → ((x : A) → P x → Q x)
    → All P xs
    → All Q xs
All-weaken P Q [] h a = tt
All-weaken P Q (x ∷ xs) h a = (h x a.0, All-weaken P Q xs h a.1)

pub All-append {ℓ κ} :
    {A : Type ℓ} (P : A → Type κ) (xs ys : List A) → All P xs → All P ys → All P (xs ++ ys)
All-append P [] ys a b = b
All-append P (x ∷ xs) ys a b = (a.0, All-append P xs ys a.1 b)

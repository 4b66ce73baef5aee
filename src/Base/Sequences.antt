-- ===== src/Base/Sequences.antt =====
-- Lists numbered in order: counting up by one, or increasing; and how filters and the last element
-- meet such lists.
use Prim.Native.Nat.{ℕ, suc, ◌+◌, ◌≤◌, ◌<◌}
use mathlib.Core.Path.{◌≡◌, refl, ◌∙◌}
use mathlib.Core.Bool.{Bool, true, false}
use mathlib.Core.List.{List, [], ◌∷◌, ◌++◌}
use native.Mathlib.Omega.{arith}
use noudle_agents.Base.Tests.{if◌then◌else◌}
use noudle_agents.Base.Lists.{length, keep, last?, value_or}

module _ {ℓ} {A : Type ℓ} where
  pub keep-append : (p : A → Bool) (xs ys : List A) → keep p (xs ++ ys) ≡ keep p xs ++ keep p ys
  keep-append p [] ys = refl
  keep-append p (x ∷ xs) ys = ground (arith, keep-append p xs ys)

  -- A last element does not depend on the default.
  pub last?-value_or :
      (f : A → ℕ) (x : A) (xs : List A) (c d : ℕ)
      → value_or f c (last? (x ∷ xs)) ≡ value_or f d (last? (x ∷ xs))
  last?-value_or f x [] c d = refl
  last?-value_or f x (y ∷ ys) c d = last?-value_or f y ys c d

  pub last?-cons :
      (f : A → ℕ) (x : A) (xs : List A) (d : ℕ)
      → value_or f d (last? (x ∷ xs)) ≡ value_or f (f x) (last? xs)
  last?-cons f x [] d = refl
  last?-cons f x (y ∷ ys) d = last?-value_or f y ys d (f x)

  -- `f` counts up by one along the list, from above `n`.
  abbrev pub Counting : (A → ℕ) → ℕ → List A → Type 0
  Counting f n [] = Unit {0}
  Counting f n (x ∷ xs) = (f x ≡ suc n) × Counting f (suc n) xs

  pub Counting-append :
      (f : A → ℕ) (n : ℕ) (xs : List A) (y : A)
      → Counting f n xs
      → f y ≡ suc (n + length xs)
      → Counting f n (xs ++ y ∷ [])
  Counting-append f n [] y h e = (omega arith, tt)
  Counting-append f n (x ∷ xs) y h e = (h.0, Counting-append f (suc n) xs y h.1 (omega arith))

  pub Counting-last? :
      (f : A → ℕ) (n : ℕ) (xs : List A) → Counting f n xs → value_or f n (last? xs) ≡ n + length xs
  Counting-last? f n [] h = omega arith
  Counting-last? f n (x ∷ xs) h =
      let rest : value_or f (suc n) (last? xs) ≡ suc n + length xs =
        Counting-last? f (suc n) xs h.1 in
      let e : value_or f (f x) (last? xs) ≡ suc n + length xs = rw h.0 rest in
      last?-cons f x xs n ∙ e ∙ omega arith

  -- `f` grows strictly along the list, from above `n`.
  abbrev pub Increasing : (A → ℕ) → ℕ → List A → Type 0
  Increasing f n [] = Unit {0}
  Increasing f n (x ∷ xs) = (n < f x) × Increasing f (f x) xs

  pub Counting-Increasing : (f : A → ℕ) (n : ℕ) (xs : List A) → Counting f n xs → Increasing f n xs
  Counting-Increasing f n [] h = tt
  Counting-Increasing f n (x ∷ xs) h = (omega arith, rw h.0 (Counting-Increasing f (suc n) xs h.1))

  pub Increasing-weaken :
      (f : A → ℕ) (m n : ℕ) (xs : List A) → m ≤ n → Increasing f n xs → Increasing f m xs
  Increasing-weaken f m n [] l h = tt
  Increasing-weaken f m n (x ∷ xs) l h = (omega arith, h.1)

  pub keep-Increasing :
      (f : A → ℕ) (p : A → Bool) (n : ℕ) (xs : List A)
      → Increasing f n xs
      → Increasing f n (keep p xs)
  keep-Increasing f p n [] h = tt
  keep-Increasing f p n (x ∷ xs) h =
      let rest : Increasing f (f x) (keep p xs) = keep-Increasing f p (f x) xs h.1 in
      elim (p x) as (λ b. Increasing f n (if b then x ∷ keep p xs else keep p xs)) [
        | true ↦ (h.0, rest)
        | false ↦ Increasing-weaken f n (f x) (keep p xs) (omega arith) rest
      ]

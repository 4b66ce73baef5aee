-- ===== src/Schedules/Cron/Segments.antt =====
-- What a segment of a field selects.
use noudle_agents.Base.{
  All-weaken, none-ne, some_injective, subst, ℕ, suc, ◌-◌, ◌≤◌, ◌≡◌, refl, String, Option, none,
  some, List, [], ◌∷◌, ◌||◌, ◌==◌, ltb, map, All, arith, Bool-cases, inl, inr,
}
use noudle_agents.Schedules.Cron.Steps.{stepped-All}
use noudle_agents.Schedules.Cron.{
  from_value, ordered, expand, FieldKind, value_of, stepped, values_between, step_of, range_of,
  bounds_of, parse_segment, sunday,
}
use noudle_agents.Base.Text
use noudle_agents.App.{Env}

-- A value that the field's kind allows, with day 7 of the week as day 0.
abbrev pub IsValue : FieldKind → ℕ → Type 0
IsValue k n = (m : ℕ) × (k.lo ≤ m) × (m ≤ k.hi) × (n ≡ sunday k m)

map-IsValue :
    (k : FieldKind) (xs : List ℕ)
    → All (λ n. (k.lo ≤ n) × (n ≤ k.hi)) xs
    → All (IsValue k) (map (sunday k) xs)
map-IsValue k [] h = tt
map-IsValue k (x ∷ xs) h = ((x, h.0.0, h.0.1, refl), map-IsValue k xs h.1)

values_between-IsValue :
    (k : FieldKind) (start end step : ℕ)
    → k.lo ≤ start
    → end ≤ k.hi
    → All (IsValue k) (values_between k start end step)
unfolding values_between
values_between-IsValue k start end step l h =
    map-IsValue k (stepped (suc end - start) start end step) (
      All-weaken (λ n. (start ≤ n) × (n ≤ end)) (λ n. (k.lo ≤ n) × (n ≤ k.hi))
        (stepped (suc end - start) start end step)
        (λ n (lower, upper). (omega (arith, lower, l), omega (arith, upper, h)))
        (stepped-All (suc end - start) start end step))

value_of-bounds :
    (e : Env) (k : FieldKind) (raw : String) (n : ℕ)
    → value_of e k raw ≡ some n
    → (k.lo ≤ n) × (n ≤ k.hi)
unfolding value_of
value_of-bounds e k raw n h = ground arith

-- The ends of a segment's range lie within the kind.
abbrev Bounded : FieldKind → ℕ × ℕ → Type 0
Bounded k (start, end) = (k.lo ≤ start) × (end ≤ k.hi)

ordered-Bounded :
    (k : FieldKind) (a b : Option ℕ) (p : ℕ × ℕ)
    → ((n : ℕ) → a ≡ some n → k.lo ≤ n)
    → ((n : ℕ) → b ≡ some n → n ≤ k.hi)
    → ordered a b ≡ some p
    → Bounded k p
ordered-Bounded k none b p l u h = absurd cc
ordered-Bounded k (some start) none p l u h = absurd cc
ordered-Bounded k (some start) (some end) p l u h = elim (Bool-cases (ltb end start)) [
  | inl t ↦ absurd (ground (arith, t))
  | inr t ↦
      let same : (start, end) ≡ p = some_injective (start, end) p (ground (arith, t)) in
      subst (Bounded k) same (l start refl, u end refl)
]

range_of-Bounded :
    (e : Env) (k : FieldKind) (parts : List String) (p : ℕ × ℕ)
    → range_of e k parts ≡ some p
    → Bounded k p
unfolding range_of
range_of-Bounded e k [] p h = absurd cc
range_of-Bounded e k (a ∷ []) p h = absurd cc
range_of-Bounded e k (a ∷ b ∷ []) p h = elim (Bool-cases (a == "" || b == "")) [
  | inl t ↦ absurd (none-ne p (rw t at h))
  | inr t ↦
      ordered-Bounded k (value_of e k a) (value_of e k b) p (λ n v. (value_of-bounds e k a n v).0)
        (λ n v. (value_of-bounds e k b n v).1) (rw t at h)
]
range_of-Bounded e k (a ∷ b ∷ c ∷ more) p h = absurd cc

from_value-Bounded :
    (k : FieldKind) (steps : List String) (o : Option ℕ) (p : ℕ × ℕ)
    → ((n : ℕ) → o ≡ some n → (k.lo ≤ n) × (n ≤ k.hi))
    → from_value k steps o ≡ some p
    → Bounded k p
from_value-Bounded k steps none p b h = absurd cc
from_value-Bounded k [] (some n) p b h = subst (Bounded k) (some_injective (n, n) p h) (b n refl)
from_value-Bounded k (raw ∷ more) (some n) p b h =
    subst (Bounded k) (some_injective (n, k.hi) p h) ((b n refl).0, omega arith)

bounds_of-Bounded :
    (e : Env) (k : FieldKind) (base : String) (steps : List String) (p : ℕ × ℕ)
    → bounds_of e k base steps ≡ some p
    → Bounded k p
unfolding bounds_of
bounds_of-Bounded e k base steps p h = elim (Bool-cases (base == "*")) [
  | inl t ↦ subst (Bounded k) (some_injective (k.lo, k.hi) p (rw t at h)) (omega arith, omega arith)
  | inr t ↦ elim (Bool-cases (Text.includes base "-")) [
    | inl r ↦ range_of-Bounded e k (Text.split b'-' base) p (rw (t, r) at h)
    | inr v ↦
        from_value-Bounded k steps (value_of e k base) p (value_of-bounds e k base) (rw (t, v) at h)
  ]
]

expand-IsValue :
    (k : FieldKind) (step : Option ℕ) (o : Option (ℕ × ℕ)) (xs : List ℕ)
    → ((p : ℕ × ℕ) → o ≡ some p → Bounded k p)
    → expand k step o ≡ some xs
    → All (IsValue k) xs
expand-IsValue k none o xs b h = absurd cc
expand-IsValue k (some step) none xs b h = absurd cc
expand-IsValue k (some step) (some (start, end)) xs b h =
    let inside = b (start, end) refl in
    subst (All (IsValue k)) (some_injective (values_between k start end step) xs h)
      (values_between-IsValue k start end step inside.0 inside.1)

pub parse_segment-IsValue :
    (e : Env) (k : FieldKind) (parts : List String) (xs : List ℕ)
    → parse_segment e k parts ≡ some xs
    → All (IsValue k) xs
unfolding parse_segment
parse_segment-IsValue e k [] xs h = absurd cc
parse_segment-IsValue e k (base ∷ []) xs h = elim (Bool-cases (base == "")) [
  | inl t ↦ absurd (none-ne xs (rw t at h))
  | inr t ↦
      expand-IsValue k (some 1) (bounds_of e k base []) xs (bounds_of-Bounded e k base [])
        (rw t at h)
]
parse_segment-IsValue e k (base ∷ step ∷ []) xs h = elim (Bool-cases (base == "")) [
  | inl t ↦ absurd (none-ne xs (rw t at h))
  | inr t ↦
      expand-IsValue k (step_of e k (step ∷ [])) (bounds_of e k base (step ∷ [])) xs
        (bounds_of-Bounded e k base (step ∷ [])) (rw t at h)
]
parse_segment-IsValue e k (base ∷ step ∷ extra ∷ more) xs h = absurd cc

-- ===== src/Schedules/Cron/Steps.antt =====
-- The loop over the numbers of a segment.
use noudle_agents.Base.{
  All-weaken, ℕ, zero, suc, ◌+◌, ◌-◌, ◌%◌, ◌≤◌, ◌<◌, ◌≡◌, refl, false, ◌&&◌, eqb, ltb, leb, any,
  map, not, ◌||◌, ◌∙◌, Bool, List, [], ◌∷◌, All, arith, Bool-cases, inl, inr,
}
use noudle_agents.Schedules.Cron.{FieldKind, sunday, stepped, values_between}
use native.Mathlib.Nat.{mod-eq_of_lt, mod-eq-sub-mod}

-- A round that starts above the number does not reach it.
stepped_above :
    (fuel start end step n : ℕ) → n < start → any (eqb n) (stepped fuel start end step) ≡ false
unfolding stepped
stepped_above zero start end step n h = refl
stepped_above (suc fuel) start end step n h =
    ground (arith, stepped_above fuel (start + step) end step n)

rem_small : (n step : ℕ) → n < step → n % step ≡ n
rem_small n step h = mod-eq_of_lt h

-- With a step from 1 on and enough rounds, the loop yields the numbers from `start` to `end` that
-- lie a multiple of the step after `start`.
pub stepped_lem :
    (fuel start end step n : ℕ)
    → 1 ≤ step
    → end < fuel + start
    → any (eqb n) (stepped fuel start end step)
      ≡ (leb start n && leb n end && eqb ((n - start) % step) 0)
unfolding stepped
stepped_lem zero start end step n h enough = ground arith
stepped_lem (suc fuel) start end step n h enough =
    let rest = stepped_lem fuel (start + step) end step n h (omega arith) in
    elim (Bool-cases (ltb n start)) [
      | inl below ↦ ground (arith, stepped_above fuel (start + step) end step n)
      | inr above ↦ elim (Bool-cases (eqb n start)) [
        | inl here ↦
            let same : n ≡ start = ground (arith, here) in
            let zero_mod : (n - start) % step ≡ 0 =
              omega (arith, rem_small (n - start) step, same) in
            ground (arith, zero_mod, same)
        | inr past ↦
            let later : start < n = ground (arith, above, past) in
            elim (Bool-cases (ltb n (start + step))) [
              | inl short ↦
                  let small : n < start + step = ground (arith, short) in
                  let rem : (n - start) % step ≡ n - start =
                    mod-eq_of_lt (omega (arith, small, later)) in
                  ground (arith, rem, later, small, rest)
              | inr far ↦
                  let reach : start + step ≤ n = ground (arith, far) in
                  let rem : (n - start) % step ≡ (n - start - step) % step =
                    mod-eq-sub-mod (omega (arith, reach)) in
                  let same : n - start - step ≡ n - (start + step) = omega arith in
                  rw (rem, same) (ground (arith, later, reach, rest))
            ]
      ]
    ]

-- Every value that the loop yields lies between its ends.
pub stepped-All :
    (fuel start end step : ℕ) → All (λ n. (start ≤ n) × (n ≤ end)) (stepped fuel start end step)
unfolding stepped
stepped-All zero start end step = tt
stepped-All (suc fuel) start end step = elim (Bool-cases (leb start end)) [
  | inl t ↦ rw t (
    ground (arith, t),
    All-weaken _ _ (stepped fuel (start + step) end step)
        (λ n (lower, upper). (omega (arith, lower), upper))
        (stepped-All fuel (start + step) end step),
  )
  | inr t ↦ rw t tt
]

-- What the loop yields, for a given number.
abbrev pub on_step : ℕ → ℕ → ℕ → ℕ → Bool
on_step start end step n = leb start n && leb n end && eqb ((n - start) % step) 0

any-sunday :
    (k : FieldKind) (n : ℕ) (ns : List ℕ)
    → any (eqb n) (map (sunday k) ns) ≡ (
        any (eqb n) ns && not (k.sunday_seven && eqb n 7)
        || k.sunday_seven && eqb n 0 && any (eqb 7) ns)
any-sunday k n [] = ground arith
any-sunday k n (x ∷ ns) = ground (arith, any-sunday k n ns)

-- With a step from 1 on, a segment selects exactly the numbers of its range that lie a multiple of
-- the step after its start; in a field in which 7 is the Sunday, 0 stands for 7: 0 is selected if 0 or
-- 7 would be, and 7 is not.
pub values_between_lem :
    (k : FieldKind) (start end step n : ℕ)
    → 1 ≤ step
    → any (eqb n) (values_between k start end step) ≡ (
        on_step start end step n && not (k.sunday_seven && eqb n 7)
        || k.sunday_seven && eqb n 0 && on_step start end step 7)
unfolding values_between
values_between_lem k start end step n h =
    let fuel = suc end - start in
    let enough : end < fuel + start = omega arith in
    any-sunday k n (stepped fuel start end step)
    ∙ rw (stepped_lem fuel start end step n h enough, stepped_lem fuel start end step 7 h enough)
        refl

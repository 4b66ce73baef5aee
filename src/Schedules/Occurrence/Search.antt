-- ===== src/Schedules/Occurrence/Search.antt =====
-- The search for the next occurrence finds the first one.
use noudle_agents.Base.{
  some_injective, ltb, ◌-◌, ℕ, zero, suc, ◌+◌, ◌*◌, ◌/◌, ◌%◌, ◌≤◌, ◌<◌, ◌≡◌, sym, ap, ◌∙◌, String,
  Option, none, some, Bool, true, false, arith, Bool-cases, Option-cases, inl, inr,
}
use noudle_agents.Schedules.Occurrence.{
  cron_error, matches, first_match, minute_ms, rounds_of_loop, start_after, normalize,
  validate_timezone, next_cron_occurrence,
}
use noudle_agents.App.{or_throw, World, Env, LocalTime, ok, err, Failure, ◌>>=◌}
use noudle_agents.Schedules.Occurrence.Text
use noudle_agents.Schedules.Cron.{ParsedCron, parse_cron, normalize_cron_expression}

-- The first timestamp of the loop that passes the test.
pub record IsFirst (test : ℕ → Bool) (rounds start t : ℕ) : Type 0 where
  pub round : ℕ
  pub in_window : round < rounds
  pub at : t ≡ start + round * minute_ms
  pub passes : test t ≡ true
  pub earlier : (i : ℕ) → i < round → test (start + i * minute_ms) ≡ false

some-ne : (s : ℕ) → some s ≡ none → ⊥
some-ne s h = cc

later-IsFirst :
    (test : ℕ → Bool) (rounds start t : ℕ)
    → test start ≡ false
    → IsFirst test rounds (start + minute_ms) t
    → IsFirst test (suc rounds) start t
later-IsFirst test rounds start t miss h = record {
  round = suc h.round;
  in_window = omega (arith, h.in_window);
  at = omega (arith, h.at);
  passes = h.passes;
  earlier = λ i. skip i;
}
  where
    skip : (i : ℕ) → i < suc h.round → test (start + i * minute_ms) ≡ false
    skip zero l = ap test (omega arith) ∙ miss
    skip (suc i) l = ap test (omega arith) ∙ h.earlier i (omega (arith, l))

first_match-some :
    (test : ℕ → Bool) (rounds start t : ℕ)
    → first_match test rounds start ≡ some t
    → IsFirst test rounds start t
unfolding first_match
first_match-some test zero start t h = absurd cc
first_match-some test (suc rounds) start t h = elim (Bool-cases (test start)) [
  | inl hit ↦
      let same : start ≡ t = some_injective start t (rw (hit, first_match) at h) in
      record {
        round = 0;
        in_window = omega arith;
        at = omega (arith, same);
        passes = ap test (sym same) ∙ hit;
        earlier = λ i l. absurd (omega (arith, l));
      }
  | inr miss ↦
      later-IsFirst test rounds start t miss
        (first_match-some test rounds (start + minute_ms) t (rw (miss, first_match) at h))
]

-- No timestamp of the loop passes where it finds none.
first_match-none :
    (test : ℕ → Bool) (rounds start : ℕ)
    → first_match test rounds start ≡ none
    → (i : ℕ) → i < rounds
    → test (start + i * minute_ms) ≡ false
unfolding first_match
first_match-none test zero start h i l = absurd (omega arith)
first_match-none test (suc rounds) start h zero l = elim (Bool-cases (test start)) [
  | inl hit ↦ absurd (some-ne start (rw (hit, first_match) at h))
  | inr miss ↦ ap test (omega arith) ∙ miss
]
first_match-none test (suc rounds) start h (suc i) l = elim (Bool-cases (test start)) [
  | inl hit ↦ absurd (some-ne start (rw (hit, first_match) at h))
  | inr miss ↦
      ap test (omega arith)
      ∙ first_match-none test rounds (start + minute_ms) (rw (miss, first_match) at h) i
          (omega (arith, l))
]

-- The next occurrence of an expression in a time zone: the first whole minute after `after`, within
-- five years, whose local time matches.
pub record IsNext (e : Env) (expression timezone : String) (after t : ℕ) : Type 0 where
  pub text : String
  pub normal : normalize_cron_expression e expression ≡ some text
  pub cron : ParsedCron
  pub parsed : parse_cron e text ≡ some cron
  pub local : ℕ → LocalTime
  pub zoned : e.zone (Text.trim timezone) ≡ some local
  pub later : after < t
  pub whole : t % minute_ms ≡ 0
  pub matching : matches cron (local t) ≡ true
  pub first : (u : ℕ) → after < u → u < t → u % minute_ms ≡ 0 → matches cron (local u) ≡ false

-- A whole minute after `after` is a round of the loop.
round_of :
    (after u : ℕ)
    → after < u
    → u % minute_ms ≡ 0
    → start_after after + (u / minute_ms - after / minute_ms - 1) * minute_ms ≡ u
unfolding start_after
round_of after u l whole = omega (arith, l, whole)

IsFirst-IsNext :
    (e : Env) (expression timezone text : String) (after t : ℕ) (cron : ParsedCron)
    (local : ℕ → LocalTime)
    → normalize_cron_expression e expression ≡ some text
    → parse_cron e text ≡ some cron
    → e.zone (Text.trim timezone) ≡ some local
    → IsFirst (λ u. matches cron (local u)) rounds_of_loop (start_after after) t
    → IsNext e expression timezone after t
IsFirst-IsNext e expression timezone text after t cron local normal parsed zoned h = record {
  text = text;
  normal = normal;
  cron = cron;
  parsed = parsed;
  local = local;
  zoned = zoned;
  later = unfold start_after in omega (arith, h.at);
  whole = unfold start_after in omega (arith, h.at);
  matching = h.passes;
  first = λ u l s whole.
      let r = round_of after u l whole in
      ap (λ v. matches cron (local v)) (sym r)
      ∙ h.earlier (u / minute_ms - after / minute_ms - 1) (omega (arith, s, r, h.at));
}

ok_injective : (s t : ℕ) → ok s ≡ ok t → s ≡ t
ok_injective s t h = cc

err-ne : (x : Failure) (t : ℕ) → err x ≡ ok t → ⊥
err-ne x t h = cc

found_in :
    (e : Env) (w : World) (o : Option ℕ) (t : ℕ) → (or_throw cron_error o e w).0 ≡ ok t → o ≡ some t
found_in e w none t h = absurd cc
found_in e w (some u) t h = ap some (ok_injective u t h)

-- What `nextCronOccurrence` returns is the first whole minute after the given instant whose local
-- time matches the expression.
pub next_cron_occurrence-IsNext :
    (e : Env) (w : World) (expression timezone : String) (after t : ℕ)
    → (next_cron_occurrence expression timezone after e w).0 ≡ ok t
    → IsNext e expression timezone after t
unfolding next_cron_occurrence normalize validate_timezone ◌>>=◌
next_cron_occurrence-IsNext e w expression timezone after t h =
    elim (Option-cases (normalize_cron_expression e expression)) [
      | inl bad ↦ absurd (err-ne _ t (rw bad at h))
      | inr (text, normal) ↦ elim (Option-cases (parse_cron e text)) [
        | inl bad ↦ absurd (err-ne _ t (rw (normal, bad) at h))
        | inr (cron, parsed) ↦ elim (Option-cases (e.zone (Text.trim timezone))) [
          | inl bad ↦ absurd (err-ne _ t (rw (normal, parsed, bad) at h))
          | inr (local, zoned) ↦
              let test = λ (u : ℕ). matches cron (local u) in
              IsFirst-IsNext e expression timezone text after t cron local normal parsed zoned (
                first_match-some test rounds_of_loop (start_after after) t (
                  found_in e w (first_match test rounds_of_loop (start_after after)) t
                    (rw (normal, parsed, zoned, zoned) at h)))
        ]
      ]
    ]

true-ne : true ≡ false → ⊥
true-ne h = cc

-- The loop of an expression and a zone that are known returns what the search finds.
run_found :
    (e : Env) (w : World) (expression timezone text : String) (after t : ℕ) (cron : ParsedCron)
    (local : ℕ → LocalTime)
    → normalize_cron_expression e expression ≡ some text
    → parse_cron e text ≡ some cron
    → e.zone (Text.trim timezone) ≡ some local
    → first_match (λ u. matches cron (local u)) rounds_of_loop (start_after after) ≡ some t
    → (next_cron_occurrence expression timezone after e w).0 ≡ ok t
unfolding next_cron_occurrence normalize validate_timezone ◌>>=◌
run_found e w expression timezone text after t cron local normal parsed zoned found =
    rw (normal, parsed, zoned, zoned, found)

-- A whole minute that matches, after the given instant and within five years of 366 days, makes
-- `nextCronOccurrence` of a valid expression and a known time zone return, and return no later one.
pub next_cron_occurrence_total :
    (e : Env) (w : World) (expression timezone text : String) (after u : ℕ) (cron : ParsedCron)
    (local : ℕ → LocalTime)
    → normalize_cron_expression e expression ≡ some text
    → parse_cron e text ≡ some cron
    → e.zone (Text.trim timezone) ≡ some local
    → after < u
    → u ≤ after + 5 * 366 * 24 * 60 * 60000
    → u % 60000 ≡ 0
    → matches cron (local u) ≡ true
    → (t : ℕ) × (t ≤ u) × ((next_cron_occurrence expression timezone after e w).0 ≡ ok t)
unfolding IsFirst-IsNext
next_cron_occurrence_total e w expression timezone text after u cron local normal parsed zoned later
      near whole hit =
    let test = λ (v : ℕ). matches cron (local v) in
    let r = round_of after u later whole in
    elim (Option-cases (first_match test rounds_of_loop (start_after after))) [
      | inl nothing ↦ absurd (
          true-ne (
            sym hit
            ∙ ap test (sym r)
            ∙ first_match-none test rounds_of_loop (start_after after) nothing
                (u / minute_ms - after / minute_ms - 1) (omega (arith, later, near, whole))))
      | inr (t, found) ↦
          let run =
            run_found e w expression timezone text after t cron local normal parsed zoned found in
          let next =
            IsFirst-IsNext e expression timezone text after t cron local normal parsed zoned
              (first_match-some test rounds_of_loop (start_after after) t found) in
          elim (Bool-cases (ltb u t)) [
            | inl sooner ↦
                absurd (true-ne (sym hit ∙ next.first u later (ground (arith, sooner)) whole))
            | inr fine ↦ (t, ground (arith, fine), run)
          ]
    ]

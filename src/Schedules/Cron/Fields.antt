-- ===== src/Schedules/Cron/Fields.antt =====
-- What the fields of a cron expression select.
use noudle_agents.Base.{
  All-append, All-weaken, none-ne, some_injective, subst, is_empty, ℕ, ◌≤◌, ◌≡◌, refl, ◌∙◌, String,
  Option, none, some, List, [], ◌∷◌, ◌++◌, Bool, false, ◌||◌, ◌==◌, All, arith, Bool-cases, inl,
  inr,
}
use noudle_agents.Schedules.Cron.Segments.{IsValue, parse_segment-IsValue}
use noudle_agents.Schedules.Cron.{
  five, join, selected, CronField, ParsedCron, FieldKind, parse_segments, parse_field, parse_parts,
  parse_cron, minute_kind, hour_kind, day_of_month_kind, month_kind, day_of_week_kind,
}
use noudle_agents.Base.Text
use noudle_agents.App.{Env}

join-IsValue :
    (k : FieldKind) (o p : Option (List ℕ)) (xs : List ℕ)
    → ((ys : List ℕ) → o ≡ some ys → All (IsValue k) ys)
    → ((ys : List ℕ) → p ≡ some ys → All (IsValue k) ys)
    → join o p ≡ some xs
    → All (IsValue k) xs
join-IsValue k none p xs a b h = absurd cc
join-IsValue k (some ys) none xs a b h = absurd cc
join-IsValue k (some ys) (some zs) xs a b h =
    subst (All (IsValue k)) (some_injective (ys ++ zs) xs h)
      (All-append (IsValue k) ys zs (a ys refl) (b zs refl))

parse_segments-IsValue :
    (e : Env) (k : FieldKind) (segments : List String) (xs : List ℕ)
    → parse_segments e k segments ≡ some xs
    → All (IsValue k) xs
unfolding parse_segments
parse_segments-IsValue e k [] xs h = subst (All (IsValue k)) (some_injective [] xs h) tt
parse_segments-IsValue e k (segment ∷ more) xs h =
    join-IsValue k _ _ xs (parse_segment-IsValue e k (Text.split b'/' segment))
      (parse_segments-IsValue e k more) h

selected-IsValue :
    (k : FieldKind) (w : Bool) (o : Option (List ℕ)) (f : CronField)
    → ((ys : List ℕ) → o ≡ some ys → All (IsValue k) ys)
    → selected w o ≡ some f
    → All (IsValue k) f.values × (is_empty f.values ≡ false)
selected-IsValue k w none f a h = absurd cc
selected-IsValue k w (some []) f a h = absurd cc
selected-IsValue k w (some (n ∷ ns)) f a h =
    let same = some_injective (record { wildcard = w; values = n ∷ ns }) f h in
    subst (λ g. All (IsValue k) g.values × (is_empty g.values ≡ false)) same (a (n ∷ ns) refl, refl)

-- A field that is parsed selects something, and only what its kind allows.
pub parse_field-IsValue :
    (e : Env) (k : FieldKind) (raw : String) (f : CronField)
    → parse_field e k raw ≡ some f
    → All (IsValue k) f.values × (is_empty f.values ≡ false)
unfolding parse_field
parse_field-IsValue e k raw f h = elim (Bool-cases (Text.trim raw == "")) [
  | inl t ↦ absurd (none-ne f (rw t at h))
  | inr t ↦
      selected-IsValue k (Text.trim raw == "*" || Text.starts_with (Text.trim raw) "*/")
        (parse_segments e k (Text.split b',' (Text.trim raw))) f
        (parse_segments-IsValue e k (Text.split b',' (Text.trim raw))) (rw t at h)
]

-- A field whose kind does not rename Sundays.
plain-Selected :
    (k : FieldKind) (xs : List ℕ)
    → k.sunday_seven ≡ false
    → All (IsValue k) xs
    → All (λ n. (k.lo ≤ n) × (n ≤ k.hi)) xs
plain-Selected k xs plain a =
    All-weaken (IsValue k) (λ n. (k.lo ≤ n) × (n ≤ k.hi)) xs
      (λ n (m, l, u, e).
        let same : n ≡ m = e ∙ rw plain refl in (omega (arith, same, l), omega (arith, same, u)))
      a

weekday-Selected : (xs : List ℕ) → All (IsValue day_of_week_kind) xs → All (λ n. n ≤ 6) xs
weekday-Selected xs a =
    All-weaken (IsValue day_of_week_kind) (λ n. n ≤ 6) xs (λ n (m, l, u, e). ground (arith, u, e)) a

-- The numbers that each field of an expression may select.
pub record IsCron (c : ParsedCron) : Type 0 where
  pub minutes : All (λ n. (0 ≤ n) × (n ≤ 59)) c.minute.values
  pub hours : All (λ n. (0 ≤ n) × (n ≤ 23)) c.hour.values
  pub days : All (λ n. (1 ≤ n) × (n ≤ 31)) c.day_of_month.values
  pub months : All (λ n. (1 ≤ n) × (n ≤ 12)) c.month.values
  pub weekdays : All (λ n. n ≤ 6) c.day_of_week.values
  pub selective :
      (is_empty c.minute.values ≡ false)
      × (is_empty c.hour.values ≡ false)
      × (is_empty c.day_of_month.values ≡ false)
      × (is_empty c.month.values ≡ false)
      × (is_empty c.day_of_week.values ≡ false)

Parsed : FieldKind → Option CronField → Type 0
Parsed k o = (f : CronField) → o ≡ some f → All (IsValue k) f.values × (is_empty f.values ≡ false)

five-IsCron :
    (a b c d w : Option CronField) (cron : ParsedCron)
    → Parsed minute_kind a
    → Parsed hour_kind b
    → Parsed day_of_month_kind c
    → Parsed month_kind d
    → Parsed day_of_week_kind w
    → five a b c d w ≡ some cron
    → IsCron cron
unfolding Parsed
five-IsCron (some a) (some b) (some c) (some d) (some w) cron pa pb pc pd pw h =
    subst IsCron (some_injective _ cron h) (record {
      minutes = plain-Selected minute_kind _ refl (pa a refl).0;
      hours = plain-Selected hour_kind _ refl (pb b refl).0;
      days = plain-Selected day_of_month_kind _ refl (pc c refl).0;
      months = plain-Selected month_kind _ refl (pd d refl).0;
      weekdays = weekday-Selected _ (pw w refl).0;
      selective = ((pa a refl).1, (pb b refl).1, (pc c refl).1, (pd d refl).1, (pw w refl).1);
    })
five-IsCron none b c d w cron pa pb pc pd pw h = absurd cc
five-IsCron (some a) none c d w cron pa pb pc pd pw h = absurd cc
five-IsCron (some a) (some b) none d w cron pa pb pc pd pw h = absurd cc
five-IsCron (some a) (some b) (some c) none w cron pa pb pc pd pw h = absurd cc
five-IsCron (some a) (some b) (some c) (some d) none cron pa pb pc pd pw h = absurd cc

parse_parts-IsCron :
    (e : Env) (parts : List String) (cron : ParsedCron)
    → parse_parts e parts ≡ some cron
    → IsCron cron
unfolding parse_parts Parsed
parse_parts-IsCron e (a ∷ b ∷ c ∷ d ∷ w ∷ more) cron h =
    five-IsCron _ _ _ _ _ cron (parse_field-IsValue e minute_kind a)
      (parse_field-IsValue e hour_kind b) (parse_field-IsValue e day_of_month_kind c)
      (parse_field-IsValue e month_kind d) (parse_field-IsValue e day_of_week_kind w) h
parse_parts-IsCron e [] cron h = absurd cc
parse_parts-IsCron e (a ∷ []) cron h = absurd cc
parse_parts-IsCron e (a ∷ b ∷ []) cron h = absurd cc
parse_parts-IsCron e (a ∷ b ∷ c ∷ []) cron h = absurd cc
parse_parts-IsCron e (a ∷ b ∷ c ∷ d ∷ []) cron h = absurd cc

-- An expression that is parsed selects, in each of its five fields, at least one number, and only
-- minutes to 59, hours to 23, days of the month from 1 to 31, months from 1 to 12 and days of the
-- week to 6 (day 7 has become Sunday, day 0), however the engine reads numbers.
pub parse_cron-IsCron :
    (e : Env) (expression : String) (cron : ParsedCron)
    → parse_cron e expression ≡ some cron
    → IsCron cron
unfolding parse_cron
parse_cron-IsCron e expression cron h = parse_parts-IsCron e (Text.split b' ' expression) cron h

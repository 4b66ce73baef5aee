-- ===== src/Schedules/Cron.antt =====
-- services/api/src/schedules/cron.ts: parsing a cron expression. A `Set` of numbers is a list, of
-- which only membership matters. The parser returns `none` where `cronError` throws.
pub mod Steps
pub mod Segments
pub mod Fields
use noudle_agents.Base.{
  ℕ, zero, suc, ◌+◌, ◌-◌, String, Option, none, some, List, [], ◌∷◌, ◌++◌, Bool, true, false, ◌&&◌,
  ◌||◌, not, ◌==◌, eqb, ltb, leb, map, any, is_empty, if◌then◌else◌,
}
use noudle_agents.Base.Text
use noudle_agents.App.{Env, LocalTime}

pub record CronField : Type 0 where
  pub wildcard : Bool
  pub values : List ℕ

pub record ParsedCron : Type 0 where
  pub minute : CronField
  pub hour : CronField
  pub day_of_month : CronField
  pub month : CronField
  pub day_of_week : CronField

abbrev pub Aliases : Type 0
Aliases = List (String × ℕ)

abbrev pub month_aliases : Aliases
month_aliases =
    ("jan", 1)
    ∷ ("feb", 2)
    ∷ ("mar", 3)
    ∷ ("apr", 4)
    ∷ ("may", 5)
    ∷ ("jun", 6)
    ∷ ("jul", 7)
    ∷ ("aug", 8)
    ∷ ("sep", 9)
    ∷ ("oct", 10)
    ∷ ("nov", 11)
    ∷ ("dec", 12)
    ∷ []

abbrev pub weekday_aliases : Aliases
weekday_aliases =
    ("sun", 0) ∷ ("mon", 1) ∷ ("tue", 2) ∷ ("wed", 3) ∷ ("thu", 4) ∷ ("fri", 5) ∷ ("sat", 6) ∷ []

-- `aliases[name]`.
abbrev pub alias_of : Aliases → String → Option ℕ
alias_of [] name = none
alias_of ((a, n) ∷ more) name = let rest = alias_of more name in if a == name then some n else rest

abbrev pub alias_or : Option ℕ → Option ℕ → Option ℕ
alias_or (some n) number = some n
alias_or none number = number

abbrev pub in_range : ℕ → ℕ → Option ℕ → Option ℕ
in_range lo hi none = none
in_range lo hi (some n) = if ltb n lo || ltb hi n then none else some n

-- What the fields of one kind may be: `min`, `max`, `aliases` and `sundaySeven`.
pub record FieldKind : Type 0 where
  pub lo : ℕ
  pub hi : ℕ
  pub aliases : Aliases
  pub sunday_seven : Bool

-- `valueOf`.
unfoldable pub value_of : Env → FieldKind → String → Option ℕ
value_of e k raw =
    in_range k.lo k.hi (alias_or (alias_of k.aliases (e.lower_case raw)) (e.integer_of raw))

-- `value = start; value <= end; value += step`: as many rounds as there are numbers from `start`
-- to `end` are enough.
unfoldable pub stepped : ℕ → ℕ → ℕ → ℕ → List ℕ
stepped zero start end step = []
stepped (suc fuel) start end step =
    let rest = stepped fuel (start + step) end step in if leb start end then start ∷ rest else []

-- `sundaySeven && value === 7 ? 0 : value`.
abbrev pub sunday : FieldKind → ℕ → ℕ
sunday k n = if k.sunday_seven && eqb n 7 then 0 else n

unfoldable pub values_between : FieldKind → ℕ → ℕ → ℕ → List ℕ
values_between k start end step = map (sunday k) (stepped (suc end - start) start end step)

-- `stepRaw === undefined ? 1 : Number(stepRaw)`, and its test.
unfoldable pub step_of : Env → FieldKind → List String → Option ℕ
step_of e k [] = some 1
step_of e k (raw ∷ more) = in_range 1 (k.hi - k.lo + 1) (e.integer_of raw)

abbrev pub ordered : Option ℕ → Option ℕ → Option (ℕ × ℕ)
ordered none end = none
ordered (some start) none = none
ordered (some start) (some end) = if ltb end start then none else some (start, end)

-- A range `a-b`.
unfoldable pub range_of : Env → FieldKind → List String → Option (ℕ × ℕ)
range_of e k (from ∷ to ∷ []) =
    if from == "" || to == "" then none else ordered (value_of e k from) (value_of e k to)
range_of e k _ = none

abbrev pub from_value : FieldKind → List String → Option ℕ → Option (ℕ × ℕ)
from_value k steps none = none
from_value k [] (some start) = some (start, start)
from_value k (raw ∷ more) (some start) = some (start, k.hi)

-- `start` and `end` of a segment's base.
unfoldable pub bounds_of : Env → FieldKind → String → List String → Option (ℕ × ℕ)
bounds_of e k base steps =
    if base == "*"
    then some (k.lo, k.hi)
    else if Text.includes base "-"
    then range_of e k (Text.split b'-' base)
    else from_value k steps (value_of e k base)

abbrev pub expand : FieldKind → Option ℕ → Option (ℕ × ℕ) → Option (List ℕ)
expand k none bounds = none
expand k (some step) none = none
expand k (some step) (some (start, end)) = some (values_between k start end step)

-- One segment of a field, cut at its slashes.
unfoldable pub parse_segment : Env → FieldKind → List String → Option (List ℕ)
parse_segment e k [] = none
parse_segment e k (base ∷ []) =
    if base == "" then none else expand k (some 1) (bounds_of e k base [])
parse_segment e k (base ∷ step ∷ []) =
    if base == "" then none else expand k (step_of e k (step ∷ [])) (bounds_of e k base (step ∷ []))
parse_segment e k (base ∷ step ∷ extra ∷ more) = none

abbrev pub join : Option (List ℕ) → Option (List ℕ) → Option (List ℕ)
join none more = none
join (some xs) none = none
join (some xs) (some ys) = some (xs ++ ys)

unfoldable pub parse_segments : Env → FieldKind → List String → Option (List ℕ)
parse_segments e k [] = some []
parse_segments e k (segment ∷ more) =
    join (parse_segment e k (Text.split b'/' segment)) (parse_segments e k more)

abbrev pub selected : Bool → Option (List ℕ) → Option CronField
selected wildcard none = none
selected wildcard (some []) = none
selected wildcard (some (n ∷ ns)) = some (record { wildcard = wildcard; values = n ∷ ns })

-- `parseField`.
unfoldable pub parse_field : Env → FieldKind → String → Option CronField
parse_field e k raw =
    let field = Text.trim raw in
    if field == ""
    then none
    else selected (field == "*" || Text.starts_with field "*/")
        (parse_segments e k (Text.split b',' field))

abbrev pub minute_kind : FieldKind
minute_kind = record { lo = 0; hi = 59; aliases = []; sunday_seven = false }

abbrev pub hour_kind : FieldKind
hour_kind = record { lo = 0; hi = 23; aliases = []; sunday_seven = false }

abbrev pub day_of_month_kind : FieldKind
day_of_month_kind = record { lo = 1; hi = 31; aliases = []; sunday_seven = false }

abbrev pub month_kind : FieldKind
month_kind = record { lo = 1; hi = 12; aliases = month_aliases; sunday_seven = false }

abbrev pub day_of_week_kind : FieldKind
day_of_week_kind = record { lo = 0; hi = 7; aliases = weekday_aliases; sunday_seven = true }

abbrev pub five :
    Option CronField
    → Option CronField
    → Option CronField
    → Option CronField
    → Option CronField
    → Option ParsedCron
five (some minute) (some hour) (some day_of_month) (some month) (some day_of_week) = some (record {
  minute = minute;
  hour = hour;
  day_of_month = day_of_month;
  month = month;
  day_of_week = day_of_week;
})
five _ _ _ _ _ = none

unfoldable pub parse_parts : Env → List String → Option ParsedCron
parse_parts e (minute ∷ hour ∷ day_of_month ∷ month ∷ day_of_week ∷ more) =
    five (parse_field e minute_kind minute) (parse_field e hour_kind hour)
      (parse_field e day_of_month_kind day_of_month) (parse_field e month_kind month)
      (parse_field e day_of_week_kind day_of_week)
parse_parts e _ = none

-- `parseCron`.
unfoldable pub parse_cron : Env → String → Option ParsedCron
parse_cron e expression = parse_parts e (Text.split b' ' expression)

abbrev pub normalized : Env → String → String
normalized e expression = e.lower_case (Text.squeeze_spaces (Text.trim expression))

abbrev pub is_five : List String → Bool
is_five (a ∷ b ∷ c ∷ d ∷ f ∷ []) = true
is_five _ = false

abbrev pub parsed_then : Option ParsedCron → String → Option String
parsed_then none expression = none
parsed_then (some parsed) expression = some expression

-- `normalizeCronExpression`.
unfoldable pub normalize_cron_expression : Env → String → Option String
normalize_cron_expression e expression =
    let text = normalized e expression in
    if is_five (Text.split b' ' text) then parsed_then (parse_cron e text) text else none

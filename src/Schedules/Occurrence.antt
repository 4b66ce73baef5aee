-- ===== src/Schedules/Occurrence.antt =====
-- services/api/src/schedules/cron.ts: `validateTimezone` and `nextCronOccurrence`.
pub mod Search
use noudle_agents.Base.{
  ℕ, zero, suc, ◌+◌, ◌*◌, ◌/◌, String, Option, none, some, List, [], ◌∷◌, Bool, true, false, ◌&&◌,
  ◌||◌, eqb, any, if◌then◌else◌,
}
use noudle_agents.Base.Text
use noudle_agents.App.{
  App, Env, Failure, LocalTime, Result, ok, err, lift, asks, pure, throw, or_throw, ◌>>=◌, ◌>>◌,
}
use noudle_agents.Schedules.Cron.{CronField, ParsedCron, parse_cron, normalize_cron_expression}

abbrev pub cron_error : Failure
cron_error = Failure.domain 400 "invalid_cron_expression"

-- `field.values.has(n)`.
abbrev pub has : CronField → ℕ → Bool
has field n = any (eqb n) field.values

-- `dayMatches`.
unfoldable pub day_matches : ParsedCron → LocalTime → Bool
day_matches cron t =
    let by_date = has cron.day_of_month t.day in
    let by_weekday = has cron.day_of_week t.weekday in
    if cron.day_of_month.wildcard
    then by_weekday
    else if cron.day_of_week.wildcard
    then by_date
    else by_date || by_weekday

-- The test of a round of the loop.
unfoldable pub matches : ParsedCron → LocalTime → Bool
matches cron t =
    has cron.minute t.minute && has cron.hour t.hour && has cron.month t.month && day_matches cron t

abbrev pub minute_ms : ℕ
minute_ms = 60000

-- `timestamp = start; timestamp <= limit; timestamp += 60_000`, for so many rounds.
unfoldable pub first_match : (ℕ → Bool) → ℕ → ℕ → Option ℕ
first_match test zero timestamp = none
first_match test (suc rounds) timestamp = elim (test timestamp) [
  | true ↦ some timestamp
  | false ↦ first_match test rounds (timestamp + minute_ms)
]

-- The minutes of five years of 366 days, both ends included.
abbrev pub rounds_of_loop : ℕ
rounds_of_loop = 5 * 366 * 24 * 60 + 1

-- The start of the next minute.
unfoldable pub start_after : ℕ → ℕ
start_after after = after / minute_ms * minute_ms + minute_ms

unfoldable pub validate_timezone : String → App String
validate_timezone timezone = do
  known ← asks (λ e. e.zone (Text.trim timezone))
  or_throw (Failure.domain 400 "invalid_timezone") known
  pure (Text.trim timezone)

unfoldable pub normalize : String → App String
normalize expression = do
  text ← asks (λ e. normalize_cron_expression e expression)
  or_throw cron_error text

-- `nextCronOccurrence`.
unfoldable pub next_cron_occurrence : String → String → ℕ → App ℕ
next_cron_occurrence expression timezone after = do
  text ← normalize expression
  parsed ← asks (λ e. parse_cron e text)
  cron ← or_throw cron_error parsed
  safe_timezone ← validate_timezone timezone
  known ← asks (λ e. e.zone safe_timezone)
  local ← or_throw (Failure.domain 400 "invalid_timezone") known
  or_throw cron_error (first_match (λ t. matches cron (local t)) rounds_of_loop (start_after after))

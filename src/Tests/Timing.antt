-- ===== src/Tests/Timing.antt =====
-- The properties of cron expressions, schedules and the profile, at concrete inputs.
use noudle_agents.Base.{
  ◌||◌, not, any, eqb, ◌&&◌, arith, ℕ, ◌≡◌, ◌⊎◌, ◌≤◌, refl, none, some, [], ◌∷◌, true, false,
}
use noudle_agents.Base.Map
use noudle_agents.Base.Text
use noudle_agents.Protocol.{UserProfilePatch, Schedule, TriggerType}
use noudle_agents.Repository.State.{create_memory_state}
use noudle_agents.Schedules.Cron.{
  parse_parts, parse_field, parse_segments, parse_segment, bounds_of, value_of, values_between,
  stepped, FieldKind, ParsedCron, parse_cron, normalize_cron_expression,
}
use noudle_agents.Schedules.Cron.Steps.{on_step, values_between_lem}
use noudle_agents.Schedules.Cron.Fields.{IsCron, parse_cron-IsCron}
use noudle_agents.Schedules.Occurrence.{
  day_matches, matches, first_match, start_after, normalize, validate_timezone,
  next_cron_occurrence,
}
use noudle_agents.Schedules.Occurrence.Search.{
  IsNext, next_cron_occurrence-IsNext, next_cron_occurrence_total,
}
use noudle_agents.Relay.Schedules.Webhooks.{Answers, trigger_webhook-Answers}
use noudle_agents.Relay.Schedules.Triggering.{trigger_webhook}
use noudle_agents.Relay.Profile.{update_user_profile, forbidden_key}
use noudle_agents.Relay.Profile.Clean.{IsKeyed, HasProfile, update_user_profile-HasProfile}
use noudle_agents.App.{World, Failure, ok, err, ◌>>=◌}
use noudle_agents.App.Holds.{Holds}
use noudle_agents.Tests.Samples.{env, utc, world, empty_world, schedule}

-- Five past midnight on New Year's Day.
abbrev new_year : ParsedCron
new_year = record {
  minute = record { wildcard = false; values = 5 ∷ [] };
  hour = record { wildcard = false; values = 0 ∷ [] };
  day_of_month = record { wildcard = false; values = 1 ∷ [] };
  month = record { wildcard = false; values = 1 ∷ [] };
  day_of_week = record { wildcard = true; values = 0 ∷ 1 ∷ 2 ∷ 3 ∷ 4 ∷ 5 ∷ 6 ∷ 0 ∷ [] };
}

new_year_normal : normalize_cron_expression env "5 0 1 jan *" ≡ some "5 0 1 jan *"
unfolding normalize_cron_expression parse_cron Text.trim parse_parts parse_field parse_segments
    parse_segment bounds_of value_of values_between stepped
new_year_normal = refl

new_year_parsed : parse_cron env "5 0 1 jan *" ≡ some new_year
unfolding parse_cron Text.trim parse_parts parse_field parse_segments parse_segment bounds_of
    value_of values_between stepped
new_year_parsed = refl

parse_cron-IsCron_example : IsCron new_year
parse_cron-IsCron_example = parse_cron-IsCron env "5 0 1 jan *" new_year new_year_parsed

new_year_next : (next_cron_occurrence "5 0 1 jan *" "UTC" 1000 env empty_world).0 ≡ ok 300000
unfolding next_cron_occurrence normalize validate_timezone normalize_cron_expression parse_cron
    Text.trim first_match start_after matches day_matches ◌>>=◌ parse_parts parse_field
    parse_segments parse_segment bounds_of value_of values_between stepped
new_year_next = refl

next_cron_occurrence-IsNext_example : IsNext env "5 0 1 jan *" "UTC" 1000 300000
next_cron_occurrence-IsNext_example =
    next_cron_occurrence-IsNext env empty_world "5 0 1 jan *" "UTC" 1000 300000 new_year_next

utc_known : env.zone (Text.trim "UTC") ≡ some utc
unfolding Text.trim
utc_known = refl

new_year_hit : matches new_year (utc 300000) ≡ true
unfolding matches day_matches
new_year_hit = refl

next_cron_occurrence_total_example :
    (t : ℕ) × (t ≤ 300000)
    × ((next_cron_occurrence "5 0 1 jan *" "UTC" 1000 env empty_world).0 ≡ ok t)
next_cron_occurrence_total_example =
    next_cron_occurrence_total env empty_world "5 0 1 jan *" "UTC" "5 0 1 jan *" 1000 300000
      new_year utc new_year_normal new_year_parsed utc_known (omega arith) (omega arith) refl
      new_year_hit

abbrev profiled : World
profiled = world (record create_memory_state {
  workspace =
      Map.set "ws"
        (record {
          id = "ws";
          name = "Home";
          owner_id = "owner";
          profile = ("city", "Oslo") ∷ [];
          created_at = 1;
          updated_at = 1;
        })
        [];
})

profiled-HasProfile : HasProfile "ws" profiled
unfolding Map.get Map.set forbidden_key Text.utf16_length
profiled-HasProfile =
    ((record { named = refl; short = refl; harmless = refl; filled = refl }, tt), omega arith)

profiled-IsKeyed : IsKeyed "ws" (Map.get "ws" profiled.repo.workspace)
unfolding Map.get Map.set
profiled-IsKeyed = refl

abbrev profile_patch : UserProfilePatch
profile_patch = record { values = ("Phone number", "123") ∷ []; remove = "city" ∷ [] }

update_user_profile-HasProfile_example :
    Holds
      (λ change w'. HasProfile "ws" w')
      (λ w'. w' ≡ profiled)
      (update_user_profile profile_patch env profiled)
update_user_profile-HasProfile_example =
    update_user_profile-HasProfile profile_patch env profiled profiled-HasProfile profiled-IsKeyed

abbrev hook : Schedule
hook = record (schedule "s1") {
  trigger_type = TriggerType.webhook;
  next_run_at = none;
  webhook_token = some "0123456789abcdef0123456789abcdef";
}

abbrev hooked : World
hooked = world (record create_memory_state { schedules = Map.set "s1" hook [] })

trigger_webhook-Answers_example :
    ((s : Schedule) × (Map.get "s1" hooked.repo.schedules ≡ some s) × Answers "wrong" s)
    ⊎ ((x : Failure) × (trigger_webhook "s1" "wrong" none env hooked ≡ (err x, hooked)))
trigger_webhook-Answers_example = trigger_webhook-Answers "s1" "wrong" none env hooked

-- The days of the week, of which the seventh is the Sunday.
abbrev weekdays : FieldKind
weekdays = record { lo = 0; hi = 7; aliases = []; sunday_seven = true }

values_between_lem_example : any (eqb 0) (values_between weekdays 1 7 3) ≡ (
    on_step 1 7 3 0 && not (weekdays.sunday_seven && eqb 0 7)
    || weekdays.sunday_seven && eqb 0 0 && on_step 1 7 3 7)
values_between_lem_example = values_between_lem weekdays 1 7 3 0 (omega arith)

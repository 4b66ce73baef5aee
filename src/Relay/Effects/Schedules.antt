-- ===== src/Relay/Effects/Schedules.antt =====
-- The methods on schedules and on the user's profile.
use noudle_agents.Relay.Effects.{IsKept-IsReader}
use noudle_agents.Base.{ℕ, String, Option, none, some, List, [], ◌∷◌, Bool, true, false}
use noudle_agents.Protocol.{
  Conversation, Schedule, TriggerType, CreateScheduleInput, UpdateScheduleInput, UserProfilePatch,
  Creator,
}
use noudle_agents.Repository.State.{agents, conversations, schedules}
use noudle_agents.Repository.Entities
use noudle_agents.App.{World, App}
use noudle_agents.App.Steps.{Steps}
use noudle_agents.Relay.Effects.{
  IsReader, IsKept, ◌⨾◌, done, check, guard, Steps-new_id, Steps-new_event, Steps-announce,
  Steps-require, Steps-list_all, Steps-env_config, Steps-choice, Steps-ask, Steps-computed,
  Steps-reads,
}
use noudle_agents.Schedules.Occurrence.{validate_timezone, normalize, next_cron_occurrence}
use noudle_agents.Relay.Schedules.{
  parse_all, list_schedules, get_schedule, given_conversation, own_conversation, conversation_from,
  schedule_conversation, next_if, new_token, token_for, create_schedule, retimed, next_or_kept,
  kept_token, update_schedule, delete_schedule,
}
use noudle_agents.Relay.Schedules.Triggering.{
  Source, touch_found, next_run, trigger_schedule, trigger_due, trigger_webhook,
}
use noudle_agents.Relay.Profile.{stored_workspace, get_user_profile, update_user_profile}

module _ {ℓ} {R : World → World → Type ℓ} ⦃s : IsReader R⦄ where
  pub step-normalize : (e : String) → Steps R (normalize e)
  unfolding normalize
  step-normalize e = Steps-ask _ ⨾ λ _. check _ _

  pub step-validate_timezone : (z : String) → Steps R (validate_timezone z)
  unfolding validate_timezone
  step-validate_timezone z = Steps-ask _ ⨾ λ _. check _ _ ⨾ λ _. done _

  pub step-next_cron_occurrence :
      (e z : String) (after : ℕ) → Steps R (next_cron_occurrence e z after)
  unfolding next_cron_occurrence
  step-next_cron_occurrence e z after = step-normalize e ⨾ λ _. Steps-ask _ ⨾ λ _.
      check _ _ ⨾ λ _. step-validate_timezone z ⨾ λ _. Steps-ask _ ⨾ λ _. check _ _ ⨾ λ _. check _ _

  step-parse_all : (l : List Schedule) → Steps R (parse_all l)
  unfolding parse_all
  step-parse_all [] = done _
  step-parse_all (x ∷ more) = check _ _ ⨾ λ _. step-parse_all more ⨾ λ _. done _

  pub step-list_schedules : Steps R list_schedules
  unfolding list_schedules
  step-list_schedules = Steps-list_all schedules ⨾ λ _. step-parse_all _

  pub step-get_schedule : (id : String) → Steps R (get_schedule id)
  unfolding get_schedule
  step-get_schedule id = Steps-require schedules _ ⨾ λ _. check _ _

  step-conversation_from :
      (agent_id : String) (id : Option String) → Steps R (conversation_from agent_id id)
  unfolding conversation_from own_conversation given_conversation
  step-conversation_from agent_id none = Steps-list_all conversations ⨾ λ _. check _ _
  step-conversation_from agent_id (some id) =
      Steps-require conversations id ⨾ λ _. guard _ _ ⨾ λ _. done _

  pub step-schedule_conversation :
      (agent_id : String) (id : Option String) → Steps R (schedule_conversation agent_id id)
  unfolding schedule_conversation
  step-schedule_conversation agent_id id = step-conversation_from agent_id _

  pub step-next_if : (b : Bool) (m : App ℕ) → Steps R m → Steps R (next_if b m)
  unfolding next_if
  step-next_if b m h = Steps-choice _ _ _ (h ⨾ λ _. done _) (done _)

  step-new_token : Steps R new_token
  unfolding new_token
  step-new_token = s.draw ⨾ λ _. done _

  pub step-token_for : (t : TriggerType) → Steps R (token_for t)
  unfolding token_for
  step-token_for TriggerType.cron = done _
  step-token_for TriggerType.webhook = step-new_token

  step-retimed : (b : Bool) (o : Option ℕ) (m : App ℕ) → Steps R m → Steps R (retimed b o m)
  unfolding retimed
  step-retimed true o m h = h ⨾ λ _. done _
  step-retimed false none m h = h ⨾ λ _. done _
  step-retimed false (some at) m h = done _

  pub step-next_or_kept :
      (b c : Bool) (o : Option ℕ) (m : App ℕ) → Steps R m → Steps R (next_or_kept b c o m)
  unfolding next_or_kept
  step-next_or_kept b c o m h = Steps-choice _ _ _ (step-retimed c o m h) (done _)

  pub step-kept_token : (t : TriggerType) (x : Schedule) → Steps R (kept_token t x)
  unfolding kept_token
  step-kept_token TriggerType.cron x = done _
  step-kept_token TriggerType.webhook x = Steps-choice _ _ _ step-new_token (done _)

  pub step-next_run : (x : Schedule) → Steps R (next_run x)
  unfolding next_run
  step-next_run x = s.tick ⨾ λ _. step-next_cron_occurrence _ _ _

  step-stored_workspace : Steps R stored_workspace
  unfolding stored_workspace Entities.get_workspace
  step-stored_workspace = Steps-env_config ⨾ λ _. Steps-reads _ ⨾ λ _. check _ _

  pub step-get_user_profile : Steps R get_user_profile
  unfolding get_user_profile
  step-get_user_profile = step-stored_workspace ⨾ λ _. done _

module _ {ℓ} {R : World → World → Type ℓ} ⦃s : IsKept R⦄ where
  pub step-create_schedule :
      (i : CreateScheduleInput) (t : Creator) (a : String) → Steps R (create_schedule i t a)
  unfolding create_schedule
  step-create_schedule i t a = Steps-require agents _ ⨾ λ _. step-schedule_conversation _ _ ⨾ λ _.
      s.tick ⨾ λ _. step-normalize _ ⨾ λ _. step-validate_timezone _ ⨾ λ _. Steps-new_id _ ⨾ λ _.
      step-next_if _ _ (step-next_cron_occurrence _ _ _) ⨾ λ _. step-token_for _ ⨾ λ _.
      Steps-env_config ⨾ λ _.
      check _ _ ⨾ λ _. s.write schedules _ ⨾ λ _. Steps-announce _ _ _ _ _ _ ⨾ λ _. done _

  pub step-update_schedule :
      (id : String) (i : UpdateScheduleInput) (t : Creator) (a : String)
      → Steps R (update_schedule id i t a)
  unfolding update_schedule
  step-update_schedule id i t a = step-get_schedule _ ⨾ λ _. guard _ _ ⨾ λ _.
      Steps-require agents _ ⨾ λ _. step-schedule_conversation _ _ ⨾ λ _. step-normalize _ ⨾ λ _.
      step-validate_timezone _ ⨾ λ _. s.tick ⨾ λ _.
      step-next_or_kept _ _ _ _ (step-next_cron_occurrence _ _ _) ⨾ λ _. step-kept_token _ _ ⨾ λ _.
      check _ _ ⨾ λ _. s.write schedules _ ⨾ λ _. Steps-announce _ _ _ _ _ _ ⨾ λ _. done _

  pub step-delete_schedule :
      (id : String) (t : Creator) (a : String) → Steps R (delete_schedule id t a)
  unfolding delete_schedule
  step-delete_schedule id t a = step-get_schedule _ ⨾ λ _.
      guard _ _ ⨾ λ _. s.erase schedules _ ⨾ λ _. Steps-announce _ _ _ _ _ _

  pub step-touch_found : (at : ℕ) (o : Option Conversation) → Steps R (touch_found at o)
  unfolding touch_found
  step-touch_found at none = done _
  step-touch_found at (some c) = s.write conversations _

  step-trigger_schedule :
      (x : Schedule) (at : ℕ) (source : Source) (payload : Option String) (id : String)
      → Steps R (trigger_schedule x at source payload id)
  unfolding trigger_schedule Entities.get
  step-trigger_schedule x at source payload id = s.tick ⨾ λ _. Steps-env_config ⨾ λ _.
      Steps-new_id _ ⨾ λ _. check _ _ ⨾ λ _. Steps-new_id _ ⨾ λ _. check _ _ ⨾ λ _.
      Steps-new_id _ ⨾ λ _. Steps-new_event _ _ _ _ _ _ ⨾ λ _. Steps-new_event _ _ _ _ _ _ ⨾ λ _.
      s.commits _ _ (λ r. step-next_if _ _ (step-next_run _) ⨾ λ _. check _ _ ⨾ λ _.
      s.write schedules _ ⨾ λ _. Steps-new_event _ _ _ _ _ _ ⨾ λ _.
      s.emits _ ⨾ λ _. Steps-reads _ ⨾ λ _. step-touch_found _ _ ⨾ λ _. done _)

  pub step-trigger_due : (x : Schedule) (at : ℕ) → Steps R (trigger_due x at)
  unfolding trigger_due
  step-trigger_due x at = Steps-ask _ ⨾ λ _. step-trigger_schedule _ _ _ _ _

  pub step-trigger_webhook :
      (id token : String) (payload : Option String) → Steps R (trigger_webhook id token payload)
  unfolding trigger_webhook
  step-trigger_webhook id token payload = step-get_schedule _ ⨾ λ _. guard _ _ ⨾ λ _.
      guard _ _ ⨾ λ _. s.tick ⨾ λ _. s.draw ⨾ λ _. step-trigger_schedule _ _ _ _ _ ⨾ λ _. done _

  pub step-update_user_profile : (i : UserProfilePatch) → Steps R (update_user_profile i)
  unfolding update_user_profile
  step-update_user_profile i = step-stored_workspace ⨾ λ _. Steps-ask _ ⨾ λ _.
      Steps-computed _ ⨾ λ _. guard _ _ ⨾ λ _. s.tick ⨾ λ _. s.save_workspace _ ⨾ λ _. done _

-- ===== src/Relay/Schedules/Standing.antt =====
-- The methods keep the schedules standing well.
use noudle_agents.Relay.Schedules.Keeping.{
  Standing-of, is_some, IsStanding, AllStanding, schedules_of, schedules-IsReader, Standing,
  delete-AllStanding, then_value, then_rest, then_put, parsed-IsStanding, found-IsStanding,
}
use noudle_agents.App.Holds.{Holds-bind, returned}
use noudle_agents.Base.{
  ◌≡◌, sym, ap, ◌∙◌, subst, ℕ, String, Option, none, some, Bool, true, false, not, Bool-cases, inl,
  inr,
}
use noudle_agents.Protocol.{
  Schedule, TriggerType, CreateScheduleInput, UpdateScheduleInput, Creator,
}
use noudle_agents.Repository.State.{EntityKind, agents}
use noudle_agents.Repository.Entities
use noudle_agents.Repository.Entities.{put, put_over, store}
use noudle_agents.Relay.Effects.{
  done, check, guard, ◌⨾◌, Steps-new_id, Steps-new_event, Steps-announce, Steps-require,
  Steps-env_config, Steps-reads,
}
use noudle_agents.Relay.Effects.Schedules.{
  step-normalize, step-validate_timezone, step-next_cron_occurrence, step-schedule_conversation,
  step-next_if, step-token_for, step-next_or_kept, step-kept_token, step-next_run,
  step-get_schedule,
}
use noudle_agents.Relay.Schedules.{
  is_cron, next_if, new_token, token_for, retimed, next_or_kept, kept_token, create_schedule,
  update_schedule, delete_schedule,
}
use noudle_agents.Relay.Schedules.Triggering.{Source, trigger_schedule, trigger_webhook}
use noudle_agents.Relay.Schedules.Untouched.{commit-schedules, step-publish_all, step-touch_found}
use noudle_agents.App.{World, Env, App, Result, ok, err, random_uuid, pure, ◌>>=◌, continue}
use noudle_agents.App.Steps.{Fixes}

ok_injective {κ} : {A : Type κ} (a b : A) → ok a ≡ ok b → a ≡ b
ok_injective a b h = cc

-- What is planned.
planned-is_some :
    (r : Result ℕ) (o : Option ℕ) (e : Env) (w : World)
    → (continue r (λ t. pure (some t)) e w).0 ≡ ok o
    → is_some o ≡ true
planned-is_some (ok t) o e w h = ap is_some (sym (ok_injective (some t) o h))
planned-is_some (err x) o e w h = absurd cc

some_of :
    (m : App ℕ) (e : Env) (w : World) (o : Option ℕ)
    → ((m >>= λ t. pure (some t)) e w).0 ≡ ok o
    → is_some o ≡ true
unfolding ◌>>=◌
some_of m e w o h = planned-is_some (m e w).0 o e _ h

next_if-is_some :
    (b : Bool) (m : App ℕ) (e : Env) (w : World) (o : Option ℕ)
    → (next_if b m e w).0 ≡ ok o
    → is_some o ≡ b
unfolding next_if
next_if-is_some true m e w o h = some_of m e w o h
next_if-is_some false m e w o h = ap is_some (sym (ok_injective none o h))

retimed-is_some :
    (b : Bool) (c : Option ℕ) (m : App ℕ) (e : Env) (w : World) (o : Option ℕ)
    → (retimed b c m e w).0 ≡ ok o
    → is_some o ≡ true
unfolding retimed
retimed-is_some true c m e w o h = some_of m e w o h
retimed-is_some false none m e w o h = some_of m e w o h
retimed-is_some false (some at) m e w o h = ap is_some (sym (ok_injective (some at) o h))

next_or_kept-is_some :
    (b c : Bool) (k : Option ℕ) (m : App ℕ) (e : Env) (w : World) (o : Option ℕ)
    → (next_or_kept b c k m e w).0 ≡ ok o
    → is_some o ≡ b
unfolding next_or_kept
next_or_kept-is_some true c k m e w o h = retimed-is_some c k m e w o h
next_or_kept-is_some false c k m e w o h = ap is_some (sym (ok_injective none o h))

new_token-is_some :
    (e : Env) (w : World) (o : Option String) → (new_token e w).0 ≡ ok o → is_some o ≡ true
unfolding new_token random_uuid ◌>>=◌
new_token-is_some e w o h = ap is_some (sym (ok_injective (some _) o h))

token_for-is_some :
    (t : TriggerType) (e : Env) (w : World) (o : Option String)
    → (token_for t e w).0 ≡ ok o
    → is_some o ≡ not (is_cron t)
unfolding token_for
token_for-is_some TriggerType.cron e w o h = ap is_some (sym (ok_injective none o h))
token_for-is_some TriggerType.webhook e w o h = new_token-is_some e w o h

kept_token-is_some :
    (t : TriggerType) (s : Schedule) (e : Env) (w : World) (o : Option String)
    → IsStanding s
    → (kept_token t s e w).0 ≡ ok o
    → is_some o ≡ not (is_cron t)
unfolding kept_token
kept_token-is_some TriggerType.cron s e w o k h = ap is_some (sym (ok_injective none o h))
kept_token-is_some TriggerType.webhook s e w o k h = elim (Bool-cases (is_cron s.trigger_type)) [
  | inl c ↦ new_token-is_some e w o (sym (rw c) ∙ h)
  | inr c ↦ ap is_some (sym (ok_injective s.webhook_token o (sym (rw c) ∙ h))) ∙ k.opened ∙ ap not c
]

pub create_schedule-Standing :
    (i : CreateScheduleInput) (t : Creator) (a : String) (e : Env) (w : World)
    → AllStanding (schedules_of w)
    → Standing (create_schedule i t a e w)
unfolding create_schedule
create_schedule-Standing i t a e w = then_rest _ _ e w (Steps-require agents _) λ agent w.
    then_rest _ _ e w (step-schedule_conversation _ _) λ c w.
      then_rest _ _ e w schedules-IsReader.tick λ at w.
        then_rest _ _ e w (step-normalize _) λ expression w.
          then_rest _ _ e w (step-validate_timezone _) λ zone w.
            then_rest _ _ e w (Steps-new_id _) λ id w.
              then_value (λ o. is_some o ≡ _) _ _ e w
                (step-next_if _ _ (step-next_cron_occurrence _ _ _)) (next_if-is_some _ _ e w)
                λ next w timed.
                  then_value (λ o. is_some o ≡ _) _ _ e w (step-token_for _)
                    (token_for-is_some _ e w)
                    λ token w opened. then_rest _ _ e w Steps-env_config λ c w.
                      then_value IsStanding _ _ e w (check _ _)
                        (λ s. parsed-IsStanding _ s e w (record { timed = timed; opened = opened }))
                        λ s w standing.
                          then_put s _ e w standing (Steps-announce _ _ _ _ _ _ ⨾ λ _. done _)

pub update_schedule-Standing :
    (id : String) (i : UpdateScheduleInput) (t : Creator) (a : String) (e : Env) (w : World)
    → AllStanding (schedules_of w)
    → Standing (update_schedule id i t a e w)
unfolding update_schedule
update_schedule-Standing id i t a e w all =
    then_value IsStanding _ _ e w (step-get_schedule _) (λ s. found-IsStanding id s e w all)
      (λ current w was. then_rest _ _ e w (guard _ _) λ _ w.
        then_rest _ _ e w (Steps-require agents _) λ _ w.
          then_rest _ _ e w (step-schedule_conversation _ _) λ c w.
            then_rest _ _ e w (step-normalize _) λ expression w.
              then_rest _ _ e w (step-validate_timezone _) λ zone w.
                then_rest _ _ e w schedules-IsReader.tick λ at w.
                  then_value (λ o. is_some o ≡ _) _ _ e w
                    (step-next_or_kept _ _ _ _ (step-next_cron_occurrence _ _ _))
                    (next_or_kept-is_some _ _ _ _ e w)
                    λ next w timed.
                      then_value (λ o. is_some o ≡ _) _ _ e w (step-kept_token _ current)
                        (λ o. kept_token-is_some _ current e w o was)
                        λ token w opened.
                          then_value IsStanding _ _ e w (check _ _)
                            (λ s.
                              parsed-IsStanding _ s e w (record { timed = timed; opened = opened }))
                            λ s w standing.
                              then_put s _ e w standing (Steps-announce _ _ _ _ _ _ ⨾ λ _. done _))
      all

erase-Standing :
    (id : String) (e : Env) (w : World)
    → AllStanding (schedules_of w)
    → Standing (Entities.delete EntityKind.schedules id e w)
unfolding Entities.delete
erase-Standing id e w all = returned (delete-AllStanding id (schedules_of w) all)

pub delete_schedule-Standing :
    (id : String) (t : Creator) (a : String) (e : Env) (w : World)
    → AllStanding (schedules_of w)
    → Standing (delete_schedule id t a e w)
unfolding delete_schedule
delete_schedule-Standing id t a e w = then_rest _ _ e w (step-get_schedule _) λ s w.
    then_rest _ _ e w (guard _ _) λ _ w all.
      Holds-bind _ (Entities.delete EntityKind.schedules id) _ e w (erase-Standing id e w all)
        λ b w' all'. Standing-of _ (
          subst AllStanding (sym ((Steps-announce {R = Fixes schedules_of} _ _ _ _ _ _).at e w'))
            all')

pub trigger_schedule-Standing :
    (s : Schedule) (at : ℕ) (source : Source) (payload : Option String) (id : String) (e : Env)
    (w : World)
    → IsStanding s
    → AllStanding (schedules_of w)
    → Standing (trigger_schedule s at source payload id e w)
unfolding trigger_schedule Entities.get
trigger_schedule-Standing s at source payload id e w was =
    then_rest _ _ e w schedules-IsReader.tick λ at w. then_rest _ _ e w Steps-env_config λ c w.
      then_rest _ _ e w (Steps-new_id _) λ i w. then_rest _ _ e w (check _ _) λ m w.
        then_rest _ _ e w (Steps-new_id _) λ i w. then_rest _ _ e w (check _ _) λ r w.
          then_rest _ _ e w (Steps-new_id _) λ i w.
            then_rest _ _ e w (Steps-new_event _ _ _ _ _ _) λ n w.
              then_rest _ _ e w (Steps-new_event _ _ _ _ _ _) λ n w.
                then_rest _ _ e w (commit-schedules _) λ x w.
                  then_rest _ _ e w (step-publish_all _) λ _ w.
                    then_value (λ o. is_some o ≡ _) _ _ e w (step-next_if _ _ (step-next_run _))
                      (next_if-is_some _ _ e w)
                      λ next w timed.
                        then_value IsStanding _ _ e w (check _ _)
                          (λ t.
                            parsed-IsStanding _ t e w
                              (record { timed = timed; opened = was.opened }))
                          λ t w standing. then_put t _ e w standing (
                            Steps-new_event _ _ _ _ _ _ ⨾ λ n. schedules-IsReader.emits n ⨾ λ _.
                            Steps-reads _ ⨾ λ o. step-touch_found _ o ⨾ λ _. done _)

pub trigger_webhook-Standing :
    (id token : String) (payload : Option String) (e : Env) (w : World)
    → AllStanding (schedules_of w)
    → Standing (trigger_webhook id token payload e w)
unfolding trigger_webhook
trigger_webhook-Standing id token payload e w all =
    then_value IsStanding _ _ e w (step-get_schedule _) (λ s. found-IsStanding id s e w all)
      (λ s w was. then_rest _ _ e w (guard _ _) λ _ w. then_rest _ _ e w (guard _ _) λ _ w.
        then_rest _ _ e w schedules-IsReader.tick λ at w.
          then_rest _ _ e w schedules-IsReader.draw λ u w all'.
            Holds-bind _ (trigger_schedule s at _ payload _) _ e w
              (trigger_schedule-Standing s at _ payload _ e w was all')
              λ x w' all''. returned all'')
      all

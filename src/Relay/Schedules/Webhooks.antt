-- ===== src/Relay/Schedules/Webhooks.antt =====
-- Who may trigger a schedule by its webhook.
use noudle_agents.Base.{
  arith, Option-cases, ◌⊎◌, ◌≡◌, ap, subst, String, Option, none, some, Bool, true, false, not,
  ◌&&◌, ◌==◌, truthy, eq_iff, Bool-cases, inl, inr,
}
use noudle_agents.Base.Map
use noudle_agents.Protocol.{Schedule, parse_schedule, parse_schedule-trimmed, trimmed_schedule}
use noudle_agents.Repository.Entities
use noudle_agents.Relay.Lookup.{require}
use noudle_agents.Relay.Schedules.{get_schedule, is_cron}
use noudle_agents.Relay.Schedules.Triggering.{opens, trigger_webhook}
use noudle_agents.App.{World, Env, err, Failure, invalid, conflict, not_found, ◌>>=◌}

-- A schedule whose webhook answers to the token: it is enabled, triggered by a webhook, and has the
-- token, which is not empty.
pub record Answers (token : String) (s : Schedule) : Type 0 where
  pub is_webhook : is_cron s.trigger_type ≡ false
  pub secret : truthy s.webhook_token ≡ some token
  pub is_enabled : s.enabled ≡ true

true_and : (a b : Bool) → (a && b) ≡ true → (a ≡ true) × (b ≡ true)
true_and a b h = (ground (arith, h), ground (arith, h))

expected-token :
    (is_timed : Bool) (o : Option String) (token : String)
    → (elim o [ none ↦ false | some expected ↦ not is_timed && expected == token ]) ≡ true
    → (is_timed ≡ false) × (o ≡ some token)
expected-token is_timed none token h = absurd cc
expected-token is_timed (some t) token h =
    let (a, b) = true_and (not is_timed) (t == token) h in
    (ground (arith, a), ap some ((eq_iff t token).0 b))

trimmed-Answers :
    (token : String) (s : Schedule) → Answers token (trimmed_schedule s) → Answers token s
trimmed-Answers token s h = record {
  is_webhook = h.is_webhook;
  secret = h.secret;
  is_enabled = h.is_enabled;
}

-- `triggerWebhook` goes on only when the stored schedule answers to the token; otherwise it throws,
-- and leaves the world as it is.
pub trigger_webhook-Answers :
    (id token : String) (payload : Option String) (e : Env) (w : World)
    → ((s : Schedule) × (Map.get id w.repo.schedules ≡ some s) × Answers token s)
      ⊎ ((x : Failure) × (trigger_webhook id token payload e w ≡ (err x, w)))
unfolding trigger_webhook get_schedule require Entities.get ◌>>=◌
trigger_webhook-Answers id token payload e w = elim (Option-cases (Map.get id w.repo.schedules)) [
  | inl none_found ↦ inr (not_found, rw none_found)
  | inr (s, found) ↦ elim (Option-cases (parse_schedule s)) [
    | inl bad ↦ inr (invalid, rw (found, bad))
    | inr (t, parsed_t) ↦ elim (Bool-cases (opens t token)) [
      | inr shut ↦ inr (not_found, rw (found, parsed_t, shut))
      | inl opened ↦ elim (Bool-cases t.enabled) [
        | inr disabled ↦ inr (conflict "webhook_disabled", rw (found, parsed_t, opened, disabled))
        | inl enabled ↦
            let o = expected-token _ (truthy t.webhook_token) token opened in
            inl (
              s,
              found,
              trimmed-Answers token s (
                  subst (Answers token) (parse_schedule-trimmed s t parsed_t)
                    (record { is_webhook = o.0; secret = o.1; is_enabled = enabled })),
            )
      ]
    ]
  ]
]

-- ===== src/Tests/Access.antt =====
-- The properties of view tokens and of push notifications, at concrete inputs.
use noudle_agents.Base.{List, ◌≡◌, ◌↔◌, String, none, some, [], ◌∷◌, true}
use noudle_agents.Base.Map
use noudle_agents.Repository.State.{create_memory_state, PushSubscription, Platform}
use noudle_agents.App.{World, ok}
use noudle_agents.Sandbox.ViewAccess.{signed_text, validate, IsSignature, validate-IsSignature}
use noudle_agents.Notifications.{ExpoTicket, TicketStatus, prune}
use noudle_agents.Notifications.Pruning.{left_of, prune-get}
use noudle_agents.Tests.Samples.{env, world}

abbrev digest : String → String
digest m = String.◌∷◌ "d" m

abbrev sandbox : String
sandbox = "cmp_1"

validate-IsSignature_example :
    (validate digest sandbox (some (digest (signed_text sandbox))) ≡ true)
    ↔ IsSignature digest sandbox (some (digest (signed_text sandbox)))
validate-IsSignature_example =
    validate-IsSignature digest sandbox (some (digest (signed_text sandbox)))

abbrev subscription : String → PushSubscription
subscription token = record {
  token = token;
  workspace_id = "ws";
  platform = Platform.ios;
  device_id = none;
  created_at = 1;
  updated_at = 1;
}

abbrev subscribed : World
subscribed = world (record create_memory_state {
  push_subscriptions = Map.set "t2" (subscription "t2") (Map.set "t1" (subscription "t1") []);
})

abbrev tickets : List ExpoTicket
tickets =
    record { status = TicketStatus.ok; error = none }
    ∷ record { status = TicketStatus.error; error = some "DeviceNotRegistered" }
    ∷ []

prune-get_example :
    ((prune "ws" tickets (subscription "t1" ∷ subscription "t2" ∷ []) env subscribed).0 ≡ ok tt)
    × (Map.get "t2"
          (prune "ws" tickets
            (subscription "t1" ∷ subscription "t2" ∷ [])
            env
            subscribed).1.repo.push_subscriptions
        ≡ left_of true "ws" (Map.get "t2" subscribed.repo.push_subscriptions))
prune-get_example =
    prune-get "ws" "t2" tickets (subscription "t1" ∷ subscription "t2" ∷ []) env subscribed

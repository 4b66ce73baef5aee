-- ===== src/Notifications.antt =====
-- services/api/src/push-notifications.ts: `register`, `unregister` and `notifyAgentResponse`. The push
-- service that `pushFetch` calls is a parameter.
pub mod Pruning
use noudle_agents.Base.{
  ℕ, String, Option, none, some, List, [], ◌∷◌, Bool, true, false, ◌&&◌, ◌==◌, find, map, is_empty,
  is, if◌then◌else◌,
}
use noudle_agents.Base.Text
use noudle_agents.Protocol.{Agent, Message}
use noudle_agents.Repository.State.{PushSubscription, Platform}
use noudle_agents.Repository.Push.{
  list_push_subscriptions, put_push_subscription, delete_push_subscription,
}
use noudle_agents.App.{App, now, pure, ◌>>=◌, ◌>>◌}

-- `current?.createdAt ?? now`.
abbrev pub created_at_or : ℕ → Option PushSubscription → ℕ
created_at_or at none = at
created_at_or at (some s) = s.created_at

unfoldable pub register : String → String → Platform → Option String → App (Unit {0})
register workspace_id token platform device_id = do
  at ← now
  subscriptions ← list_push_subscriptions workspace_id
  put_push_subscription (record {
    token = token;
    workspace_id = workspace_id;
    platform = platform;
    device_id = device_id;
    created_at = created_at_or at (find (λ s. s.token == token) subscriptions);
    updated_at = at;
  })

unfoldable pub unregister : String → String → App (Unit {0})
unregister workspace_id token = delete_push_subscription workspace_id token >> pure tt

pub record Notification : Type 0 where
  pub to : String
  pub title : String
  pub body : String
  pub conversation_id : String
  pub agent_id : String

pub data TicketStatus : Type 0 where
  ok error : TicketStatus

pub record ExpoTicket : Type 0 where
  pub status : TicketStatus
  pub error : Option String

-- `text || "Response complete"`.
abbrev or_complete : String → String
or_complete text = if text == "" then "Response complete" else text

unfoldable pub body_of : Message → String
body_of message = or_complete (Text.slice_to 180 (Text.squeeze_spaces (Text.trim message.content)))

abbrev notification : Message → Agent → PushSubscription → Notification
notification message agent s = record {
  to = s.token;
  title = agent.name;
  body = body_of message;
  conversation_id = message.conversation_id;
  agent_id = agent.id;
}

abbrev is_error : TicketStatus → Bool
is_error TicketStatus.ok = false
is_error TicketStatus.error = true

-- The tokens of devices that are no longer registered.
abbrev pub is_gone : ExpoTicket → Bool
is_gone ticket = is_error ticket.status && is ticket.error "DeviceNotRegistered"

-- The tickets belong to the subscriptions by their places.
unfoldable pub prune : String → List ExpoTicket → List PushSubscription → App (Unit {0})
prune workspace_id [] subscriptions = pure tt
prune workspace_id (ticket ∷ tickets) [] = pure tt
prune workspace_id (ticket ∷ tickets) (s ∷ subscriptions) =
    (if is_gone ticket then delete_push_subscription workspace_id s.token else pure false)
    >> prune workspace_id tickets subscriptions

-- `post` is the request of `pushFetch` and the reading of its answer, which throws when it fails.
unfoldable pub notify_some :
    (List Notification → App (List ExpoTicket))
    → Message
    → Agent
    → List PushSubscription
    → App (Unit {0})
notify_some post message agent subscriptions = do
  tickets ← post (map (notification message agent) subscriptions)
  prune message.workspace_id tickets subscriptions

unfoldable pub notify_agent_response :
    (List Notification → App (List ExpoTicket)) → Message → Agent → App (Unit {0})
notify_agent_response post message agent = do
  subscriptions ← list_push_subscriptions message.workspace_id
  if is_empty subscriptions then pure tt else notify_some post message agent subscriptions

-- ===== src/Clients/Mobile.antt =====
-- apps/mobile/src/state/relay.ts and apps/mobile/src/model.ts: the mobile app's state and reducer.
-- The clock that two actions read is an argument.
pub mod Replay
use noudle_agents.Base.{
  ℕ, String, Option, none, some, List, [], ◌∷◌, ◌++◌, Bool, true, false, ◌==◌, any, map, leb, head?,
  if◌then◌else◌,
}
use noudle_agents.Protocol.{
  Agent, Conversation, Message, Task, TaskStatus, Approval, ApprovalStatus, RelayEvent, EventType,
  Value,
}

pub data RootTab : Type 0 where
  chats tasks computer library : RootTab

pub data LibraryPage : Type 0 where
  root agents files skills routines memory settings : LibraryPage

pub data Connection : Type 0 where
  loading live offline error : Connection

pub data Source : Type 0 where
  server demo : Source

pub record RelayState : Type 0 where
  pub agents : List Agent
  pub approvals : List Approval
  pub conversations : List Conversation
  pub messages : List Message
  pub tasks : List Task
  pub cursor : ℕ
  pub connection : Connection
  pub error : Option String
  pub source : Source
  pub active_conversation_id : Option String
  pub active_tab : RootTab
  pub library_page : LibraryPage
  pub taking_control : Bool

-- The fields of the state that a snapshot has.
pub record Hydration : Type 0 where
  pub agents : List Agent
  pub approvals : List Approval
  pub conversations : List Conversation
  pub messages : List Message
  pub tasks : List Task
  pub cursor : ℕ

pub data RelayAction : Type 0 where
  hydrate : (snapshot : Hydration) → Source → RelayAction
  connection : Connection → (error : Option String) → RelayAction
  event : RelayEvent → RelayAction
  select_conversation : (conversation_id : Option String) → RelayAction
  select_tab : RootTab → RelayAction
  open_library : LibraryPage → RelayAction
  control : Bool → RelayAction
  optimistic_message : Message → RelayAction
  resolve_approval : (approval_id : String) → (decision : ApprovalStatus) → RelayAction
  delegate_task : (task_id agent_id : String) → RelayAction

abbrev pub initial_relay_state : RelayState
initial_relay_state = record {
  agents = [];
  approvals = [];
  conversations = [];
  messages = [];
  tasks = [];
  cursor = 0;
  connection = Connection.loading;
  error = none;
  source = Source.demo;
  active_conversation_id = none;
  active_tab = RootTab.chats;
  library_page = LibraryPage.root;
  taking_control = false;
}

-- `upsert`, for items whose field `id` is `key`: it replaces the first item with the id, or appends.
unfoldable pub upsert {ℓ} : {A : Type ℓ} → (A → String) → List A → A → List A
upsert key [] value = value ∷ []
upsert key (x ∷ items) value =
    let rest = upsert key items value in if key x == key value then value ∷ items else x ∷ rest

-- `event.payload[key]`.
abbrev pub payload_value : List (String × Value) → String → Option Value
payload_value [] key = none
payload_value ((k, v) ∷ more) key =
    let rest = payload_value more key in if k == key then some v else rest

abbrev agent_in : Option Value → Option Agent
agent_in (some (Value.agent a)) = some a
agent_in _ = none

abbrev message_in : Option Value → Option Message
message_in (some (Value.message m)) = some m
message_in _ = none

abbrev task_in : Option Value → Option Task
task_in (some (Value.task t)) = some t
task_in _ = none

abbrev approval_in : Option Value → Option Approval
approval_in (some (Value.approval a)) = some a
approval_in _ = none

pub put_agent : Option Agent → RelayState → RelayState
put_agent none s = s
put_agent (some a) s = record s { agents = upsert (λ (x : Agent). x.id) s.agents a }

pub put_message : Option Message → RelayState → RelayState
put_message none s = s
put_message (some m) s = record s { messages = upsert (λ (x : Message). x.id) s.messages m }

pub put_task : Option Task → RelayState → RelayState
put_task none s = s
put_task (some t) s = record s { tasks = upsert (λ (x : Task). x.id) s.tasks t }

pub put_approval : Option Approval → RelayState → RelayState
put_approval none s = s
put_approval (some a) s = record s { approvals = upsert (λ (x : Approval). x.id) s.approvals a }

-- What an event does to the lists, by its type.
unfoldable pub apply_payload : EventType → List (String × Value) → RelayState → RelayState
unfolding put_agent put_message put_task put_approval
apply_payload EventType.agent_created p s = put_agent (agent_in (payload_value p "agent")) s
apply_payload EventType.agent_updated p s = put_agent (agent_in (payload_value p "agent")) s
apply_payload EventType.agent_deleted p s = put_agent (agent_in (payload_value p "agent")) s
apply_payload EventType.agent_status_changed p s = put_agent (agent_in (payload_value p "agent")) s
apply_payload EventType.message_created p s = put_message (message_in (payload_value p "message")) s
apply_payload EventType.task_created p s = put_task (task_in (payload_value p "task")) s
apply_payload EventType.task_updated p s = put_task (task_in (payload_value p "task")) s
apply_payload EventType.task_delegated p s = put_task (task_in (payload_value p "task")) s
apply_payload EventType.task_completed p s = put_task (task_in (payload_value p "task")) s
apply_payload EventType.task_blocked p s = put_task (task_in (payload_value p "task")) s
apply_payload EventType.approval_requested p s =
    put_approval (approval_in (payload_value p "approval")) s
apply_payload EventType.approval_resolved p s =
    put_approval (approval_in (payload_value p "approval")) s
apply_payload _ p s = s

unfoldable pub apply_event : RelayState → RelayEvent → RelayState
apply_event s e =
    if leb e.cursor s.cursor
    then s
    else apply_payload e.type e.payload (record s { cursor = e.cursor })

abbrev first_id : List Conversation → Option String
first_id [] = none
first_id (c ∷ cs) = some c.id

abbrev is_active_id : Option String → Conversation → Bool
is_active_id none c = false
is_active_id (some id) c = c.id == id

abbrev connected : Source → Connection
connected Source.server = Connection.live
connected Source.demo = Connection.offline

abbrev page_of : RootTab → LibraryPage → LibraryPage
page_of RootTab.library page = page
page_of _ page = LibraryPage.root

unfoldable pub relay_reducer : ℕ → RelayState → RelayAction → RelayState
relay_reducer at s (RelayAction.hydrate snap src) = record s {
  agents = snap.agents;
  approvals = snap.approvals;
  conversations = snap.conversations;
  messages = snap.messages;
  tasks = snap.tasks;
  cursor = snap.cursor;
  active_conversation_id =
      if any (is_active_id s.active_conversation_id) snap.conversations
      then s.active_conversation_id
      else first_id snap.conversations;
  connection = connected src;
  error = none;
  source = src;
}
relay_reducer at s (RelayAction.connection mode message) = record s {
  connection = mode;
  error = message;
}
relay_reducer at s (RelayAction.event e) = apply_event s e
relay_reducer at s (RelayAction.select_conversation id) = record s { active_conversation_id = id }
relay_reducer at s (RelayAction.select_tab tab) = record s {
  active_tab = tab;
  library_page = page_of tab s.library_page;
}
relay_reducer at s (RelayAction.open_library page) = record s { library_page = page }
relay_reducer at s (RelayAction.control value) = record s { taking_control = value }
relay_reducer at s (RelayAction.optimistic_message m) = record s {
  messages = upsert (λ (x : Message). x.id) s.messages m;
}
relay_reducer at s (RelayAction.resolve_approval id decision) = record s {
  approvals =
      map
        (λ (a : Approval).
          if a.id == id then record a { status = decision; decided_at = some at } else a)
        s.approvals;
}
relay_reducer at s (RelayAction.delegate_task task_id agent_id) = record s {
  tasks =
      map
        (λ (t : Task).
          if t.id == task_id
          then record t {
            owner_agent_id = some agent_id;
            status = TaskStatus.accepted;
            updated_at = at;
          }
          else t)
        s.tasks;
}

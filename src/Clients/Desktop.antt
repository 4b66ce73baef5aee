-- ===== src/Clients/Desktop.antt =====
-- apps/desktop/src/renderer/state/relay-state.ts: the desktop's state and its reducer.
pub mod Removal
use noudle_agents.Base.{
  ℕ, eqb, String, Option, none, some, List, [], ◌∷◌, ◌++◌, Bool, false, not, ◌&&◌, ◌==◌, any, find,
  keep, map, contains, length, is, truthy, is_empty, head?, sort_by, ◌otherwise◌, if◌then◌else◌,
}
use noudle_agents.Protocol.{Agent, Conversation, Message, Task, Approval, ApprovalStatus, is_direct}

pub record RelaySnapshot : Type 0 where
  pub agents : List Agent
  pub conversations : List Conversation
  pub messages : List Message
  pub tasks : List Task
  pub approvals : List Approval
  pub cursor : ℕ

pub data ConnectionMode : Type 0 where
  connecting live demo offline error : ConnectionMode

pub data CenterView : Type 0 where
  conversations tasks : CenterView

pub data DrawerTab : Type 0 where
  computer files : DrawerTab

-- `extends RelaySnapshot` is the field `snapshot`.
pub record RelayState : Type 0 where
  pub snapshot : RelaySnapshot
  pub open snapshot use *
  pub connection : ConnectionMode
  pub connection_message : Option String
  pub selected_conversation_id : Option String
  pub selected_task_id : Option String
  pub center_view : CenterView
  pub drawer_tab : DrawerTab

pub data ApprovalDecision : Type 0 where
  approved denied : ApprovalDecision

abbrev decided_status : ApprovalDecision → ApprovalStatus
decided_status ApprovalDecision.approved = ApprovalStatus.approved
decided_status ApprovalDecision.denied = ApprovalStatus.denied

pub data RelayAction : Type 0 where
  snapshot : RelaySnapshot → ConnectionMode → RelayAction
  connection : ConnectionMode → (message : Option String) → RelayAction
  select_conversation : (id : String) → RelayAction
  select_task : (id : String) → RelayAction
  center_view : CenterView → RelayAction
  drawer_tab : DrawerTab → RelayAction
  upsert_agent : Agent → RelayAction
  remove_agent : (id : String) → RelayAction
  upsert_conversation : Conversation → RelayAction
  replace_conversation : (previous_id : String) → Conversation → RelayAction
  upsert_message : Message → RelayAction
  upsert_task : Task → RelayAction
  resolve_approval : (id : String) → ApprovalDecision → (at : ℕ) → RelayAction

-- `upsert`, for items whose field `id` is `key`: it replaces every item with the id, or appends.
unfoldable pub upsert {ℓ} : {A : Type ℓ} → (A → String) → List A → A → List A
upsert key items item =
    if any (λ x. key x == key item) items
    then map (λ x. if key x == key item then item else x) items
    else items ++ item ∷ []

-- A direct conversation with one member.
abbrev pub is_private : Conversation → Bool
is_private c = is_direct c.kind && eqb (length c.member_agent_ids) 1

abbrev pub id_of_conversation : Option Conversation → Option String
id_of_conversation none = none
id_of_conversation (some c) = some c.id

abbrev pub preferred : List Conversation → Option String → Option Conversation
preferred cs none = none
preferred cs (some id) = find (λ c. c.id == id) cs

abbrev pub prefer : List Conversation → Option Conversation → Option String
prefer cs none = id_of_conversation (find is_private cs)
prefer cs (some c) = if is_private c then some c.id else id_of_conversation (find is_private cs)

unfoldable pub direct_conversation_id : List Conversation → Option String → Option String
direct_conversation_id cs preferred_id = prefer cs (preferred cs (truthy preferred_id))

abbrev id_of_task : Option Task → Option String
id_of_task none = none
id_of_task (some t) = some t.id

unfoldable pub create_initial_state : RelaySnapshot → RelayState
create_initial_state s = record {
  snapshot = s;
  connection = ConnectionMode.connecting;
  connection_message = none;
  selected_conversation_id = direct_conversation_id s.conversations none;
  selected_task_id = id_of_task (head? s.tasks);
  center_view = CenterView.conversations;
  drawer_tab = DrawerTab.computer;
}

abbrev has_task : Option String → List Task → Bool
has_task none ts = false
has_task (some id) ts = any (λ t. t.id == id) ts

abbrev task_of : Option Conversation → Option String
task_of none = none
task_of (some c) = c.task_id

abbrev conversation_of : Option Task → Option String
conversation_of none = none
conversation_of (some t) = t.conversation_id

-- `memberAgentIds[0] === id`.
abbrev first_is : String → List String → Bool
first_is id [] = false
first_is id (x ∷ xs) = x == id

-- The private conversation with an agent.
abbrev pub is_private_with : String → Conversation → Bool
is_private_with id c = is_private c && first_is id c.member_agent_ids

abbrev pub ids_of : List Conversation → List String
ids_of cs = map (λ (c : Conversation). c.id) cs

-- `o ?? p` of two nullable values.
abbrev or_else : Option String → Option String → Option String
or_else none p = p
or_else (some x) p = some x

abbrev pub without : String → Conversation → Conversation
without id c = record c { member_agent_ids = keep (λ m. not (m == id)) c.member_agent_ids }

abbrev pub removed_ids : String → List Conversation → List String
removed_ids id cs = ids_of (keep (is_private_with id) cs)

-- The conversations that `remove_agent` leaves.
unfoldable pub remaining : String → List Conversation → List Conversation
remaining id cs =
    keep (λ c. not (is_empty c.member_agent_ids))
      (map (without id) (keep (λ c. not (contains c.id (removed_ids id cs))) cs))

unfoldable pub drop_agent : String → RelayState → RelayState
drop_agent id s = record s {
  snapshot = record s.snapshot {
    agents = keep (λ a. not (a.id == id)) s.agents;
    conversations = remaining id s.conversations;
    messages =
        keep (λ m. not (contains m.conversation_id (removed_ids id s.conversations))) s.messages;
  };
  selected_conversation_id =
      direct_conversation_id (remaining id s.conversations) s.selected_conversation_id;
}

unfoldable pub relay_reducer : RelayState → RelayAction → RelayState
relay_reducer s (RelayAction.snapshot snap mode) = record s {
  snapshot = snap;
  connection = mode;
  connection_message = none;
  selected_conversation_id = direct_conversation_id snap.conversations s.selected_conversation_id;
  selected_task_id =
      if has_task (truthy s.selected_task_id) snap.tasks
      then s.selected_task_id
      else id_of_task (head? snap.tasks);
}
relay_reducer s (RelayAction.connection mode message) = record s {
  connection = mode;
  connection_message = message;
}
relay_reducer s (RelayAction.select_conversation id) = record s {
  selected_conversation_id = some id;
  selected_task_id = or_else (task_of (find (λ c. c.id == id) s.conversations)) s.selected_task_id;
  center_view = CenterView.conversations;
}
relay_reducer s (RelayAction.select_task id) = record s {
  selected_task_id = some id;
  selected_conversation_id =
      or_else (conversation_of (find (λ t. t.id == id) s.tasks)) s.selected_conversation_id;
  center_view = CenterView.tasks;
  drawer_tab = DrawerTab.computer;
}
relay_reducer s (RelayAction.center_view view) = record s { center_view = view }
relay_reducer s (RelayAction.drawer_tab tab) = record s { drawer_tab = tab }
relay_reducer s (RelayAction.upsert_agent a) = record s {
  snapshot = record s.snapshot { agents = upsert (λ (x : Agent). x.id) s.agents a };
}
relay_reducer s (RelayAction.remove_agent id) = drop_agent id s
relay_reducer s (RelayAction.upsert_conversation c) = record s {
  snapshot = record s.snapshot {
    conversations = upsert (λ (x : Conversation). x.id) s.conversations c;
  };
  selected_conversation_id = if is_private c then some c.id else s.selected_conversation_id;
  center_view = CenterView.conversations;
}
relay_reducer s (RelayAction.replace_conversation previous c) = record s {
  snapshot = record s.snapshot {
    conversations = keep (λ x. not (x.id == previous)) s.conversations ++ c ∷ [];
    messages = keep (λ m. not (m.conversation_id == previous)) s.messages;
  };
  selected_conversation_id = some c.id;
  selected_task_id = or_else c.task_id s.selected_task_id;
  center_view = CenterView.conversations;
}
relay_reducer s (RelayAction.upsert_message m) = record s {
  snapshot = record s.snapshot {
    messages = upsert (λ (x : Message). x.id) s.messages m;
    conversations =
        map
          (λ (c : Conversation).
            if c.id == m.conversation_id
            then record c { last_message_at = some m.created_at; updated_at = m.created_at }
            else c)
          s.conversations;
  };
}
relay_reducer s (RelayAction.upsert_task t) = record s {
  snapshot = record s.snapshot { tasks = upsert (λ (x : Task). x.id) s.tasks t };
}
relay_reducer s (RelayAction.resolve_approval id decision at) = record s {
  snapshot = record s.snapshot {
    approvals =
        map
          (λ (a : Approval).
            if a.id == id
            then record a { status = decided_status decision; decided_at = some at }
            else a)
          s.approvals;
  };
}

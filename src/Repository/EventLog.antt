-- ===== src/Repository/EventLog.antt =====
-- The event log: `appendEvent`, `listEvents`, `currentCursor`, and the `snapshot` that carries the
-- cursor from which a client goes on.
pub mod Appending
pub mod Numbering
pub mod Paging
use noudle_agents.Base.{
  ℕ, suc, ◌+◌, ◌++◌, String, Option, none, some, List, [], ◌∷◌, Bool, ◌&&◌, ◌==◌, ltb, keep, take,
  last?, value_or,
}
use noudle_agents.Base.Text
use noudle_agents.Protocol.{NewEvent, RelayEvent, Agent, Conversation, Message, Task, Approval}
use noudle_agents.Repository.State.{Repository, EntityKind}
use noudle_agents.Repository.Entities.{list}
use noudle_agents.App.{App, World, ok, gets, modify, now, random_uuid, pure, ◌>>=◌, ◌>>◌}

-- Two events of one aggregate.
abbrev pub same_aggregate : NewEvent → RelayEvent → Bool
same_aggregate n c =
    c.workspace_id == n.workspace_id
    && c.aggregate_type == n.aggregate_type
    && c.aggregate_id == n.aggregate_id

-- `events.filter(…).at(-1)?.sequence ?? 0`.
unfoldable pub last_sequence : NewEvent → List RelayEvent → ℕ
last_sequence n es = value_or (λ e. e.sequence) 0 (last? (keep (same_aggregate n) es))

-- The stored event, given its id and time.
unfoldable pub stamp : NewEvent → String → ℕ → Repository → RelayEvent
stamp n id at r = record {
  event = n;
  id = id;
  cursor = suc r.cursor;
  sequence = last_sequence n r.events + 1;
  created_at = at;
}

abbrev pub push : RelayEvent → Repository → Repository
push s r = record r { events = r.events ++ s ∷ []; cursor = suc r.cursor }

unfoldable pub append_event : NewEvent → App RelayEvent
append_event n = do
  id ← random_uuid
  at ← now
  stored ← gets (λ w. stamp n (Text.append "evt_" id) at w.repo)
  modify (push stored)
  pure stored

-- The loop over `input.events` in `commitMessageRun`.
unfoldable pub append_events : List NewEvent → App (List RelayEvent)
append_events [] = pure []
append_events (n ∷ ns) = do stored ← append_event n; rest ← append_events ns; pure (stored ∷ rest)

abbrev pub in_workspace : String → RelayEvent → Bool
in_workspace workspace_id e = e.workspace_id == workspace_id

-- `listEvents` on the log itself, without and with its limit.
abbrev pub all_after : String → ℕ → List RelayEvent → List RelayEvent
all_after workspace_id after es = keep (λ e. in_workspace workspace_id e && ltb after e.cursor) es

unfoldable pub events_after : String → ℕ → ℕ → List RelayEvent → List RelayEvent
events_after workspace_id after limit es = take limit (all_after workspace_id after es)

unfoldable pub list_events : String → ℕ → ℕ → App (List RelayEvent)
list_events workspace_id after limit =
    gets (λ w. events_after workspace_id after limit w.repo.events)

unfoldable pub current_cursor : String → App ℕ
current_cursor workspace_id =
    gets (λ w. value_or (λ e. e.cursor) 0 (last? (keep (in_workspace workspace_id) w.repo.events)))

pub record Snapshot : Type 0 where
  pub agents : List Agent
  pub conversations : List Conversation
  pub messages : List Message
  pub tasks : List Task
  pub approvals : List Approval
  pub cursor : ℕ

unfoldable pub snapshot : String → App Snapshot
snapshot workspace_id = do
  agents ← list EntityKind.agents workspace_id
  conversations ← list EntityKind.conversations workspace_id
  messages ← list EntityKind.messages workspace_id
  tasks ← list EntityKind.tasks workspace_id
  approvals ← list EntityKind.approvals workspace_id
  cursor ← current_cursor workspace_id
  pure (record {
    agents = agents;
    conversations = conversations;
    messages = messages;
    tasks = tasks;
    approvals = approvals;
    cursor = cursor;
  })

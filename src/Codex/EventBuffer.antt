-- ===== src/Codex/EventBuffer.antt =====
-- services/codex-worker/src/eventBuffer.ts: the last events of a Codex process. The clock is an
-- argument; listeners are callbacks and left out.
pub mod Window
use noudle_agents.Base.{
  ℕ, suc, ◌-◌, String, Option, none, some, List, [], ◌∷◌, ◌++◌, Bool, ltb, length, drop, keep, ◌==◌,
  if◌then◌else◌,
}

-- A value of type `unknown` that came in as JSON; a number is kept as its text.
mutual
  pub data Json : Type 0 where
    null : Json
    boolean : Bool → Json
    number : (text : String) → Json
    text : String → Json
    array : Elements → Json
    object : Fields → Json

  pub data Elements : Type 0 where
    last : Elements
    item : Json → Elements → Elements

  pub data Fields : Type 0 where
    no_field : Fields
    field : (key : String) → Json → Fields → Fields

-- `record[key]`, where nothing but an object has such a field.
abbrev pub lookup : String → Fields → Option Json
lookup key Fields.no_field = none
lookup key (Fields.field k v more) = let rest = lookup key more in if k == key then some v else rest

abbrev pub field_of : String → Json → Option Json
field_of key (Json.object fields) = lookup key fields
field_of key _ = none

-- `typeof value === "string" ? value : null`.
abbrev pub string_of : Option Json → Option String
string_of (some (Json.text s)) = some s
string_of _ = none

abbrev id_in : Option Json → Option String
id_in none = none
id_in (some turn) = string_of (field_of "id" turn)

abbrev or_else : Option String → Option String → Option String
or_else none p = p
or_else (some x) p = some x

-- `record.turnId` if it is a string, else the `id` of `record.turn`.
abbrev pub turn_id_of : Json → Option String
turn_id_of payload =
    or_else (string_of (field_of "turnId" payload)) (id_in (field_of "turn" payload))

pub record WorkerEvent : Type 0 where
  pub cursor : ℕ
  pub type : String
  pub thread_id : Option String
  pub turn_id : Option String
  pub payload : Json
  pub created_at : ℕ

pub record EventBuffer : Type 0 where
  pub cursor : ℕ
  pub events : List WorkerEvent

abbrev pub new_buffer : EventBuffer
new_buffer = record { cursor = 0; events = [] }

abbrev pub capacity : ℕ
capacity = 10000

-- `if (events.length > 10_000) events.splice(0, events.length - 10_000)`.
unfoldable pub trimmed : List WorkerEvent → List WorkerEvent
trimmed es = if ltb capacity (length es) then drop (length es - capacity) es else es

abbrev pub worker_event : String → Json → ℕ → ℕ → WorkerEvent
worker_event type payload at cursor = record {
  cursor = cursor;
  type = type;
  thread_id = string_of (field_of "threadId" payload);
  turn_id = turn_id_of payload;
  payload = payload;
  created_at = at;
}

unfoldable pub append : String → Json → ℕ → EventBuffer → EventBuffer
append type payload at b = record {
  cursor = suc b.cursor;
  events = trimmed (b.events ++ worker_event type payload at (suc b.cursor) ∷ []);
}

unfoldable pub after : ℕ → EventBuffer → List WorkerEvent
after cursor b = keep (λ (e : WorkerEvent). ltb cursor e.cursor) b.events

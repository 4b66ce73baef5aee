-- ===== src/Protocol/Schemas.antt =====
-- The zod schemas of packages/protocol/src/index.ts. `parse_x v` is `XSchema.parse(v)`: the value
-- with its trimmed fields, or `none` where zod throws. Types, enumerations and timestamps are
-- right by construction here, so what is left to check are lengths, ranges and patterns.
use Prim.Native.Nat.{ℕ}
use Prim.Native.Char.{code}
use Prim.Native.String.{String}
use mathlib.Core.Bool.{Bool, true, false, ◌&&◌, ◌||◌}
use mathlib.Core.Option.{Option, none, some}
use mathlib.Core.List.{List, [], ◌∷◌, map}
use noudle_agents.Base.{ap, Bool-cases, inl, inr, sym, ◌∙◌, ◌≡◌, leb, eqb, length, if◌then◌else◌}
use noudle_agents.Base.Text.{utf16_length, trim}
use noudle_agents.Protocol.Entities.{
  Agent, Conversation, MessageAttachment, MessageResponsePart, Message, TaskBudget, Task, Run,
  Approval, Schedule,
}

-- `z.string().min(lo).max(hi)`.
abbrev pub text_in : ℕ → ℕ → String → Bool
text_in lo hi s = leb lo (utf16_length s) && leb (utf16_length s) hi

-- `.nullable()` and `.optional()`.
abbrev pub nullable {ℓ} : {A : Type ℓ} → (A → Bool) → Option A → Bool
nullable p none = true
nullable p (some a) = p a

-- `z.array(p).max(n)`.
abbrev pub array {ℓ} : {A : Type ℓ} → (A → Bool) → List A → Bool
array p [] = true
array p (x ∷ xs) = p x && array p xs

abbrev pub id_schema : String → Bool
id_schema s = text_in 1 160 s

abbrev is_hex : ℕ → Bool
is_hex c = (leb b'0' c && leb c b'9') || (leb b'a' c && leb c b'f') || (leb b'A' c && leb c b'F')

abbrev hex_digits : ℕ → String → Bool
hex_digits ℕ.zero String.[] = true
hex_digits ℕ.zero (String.◌∷◌ c s) = false
hex_digits (ℕ.suc n) String.[] = false
hex_digits (ℕ.suc n) (String.◌∷◌ c s) = is_hex (code c) && hex_digits n s

-- `/^#[0-9a-fA-F]{6}$/`.
abbrev color_schema : String → Bool
color_schema String.[] = false
color_schema (String.◌∷◌ c s) = eqb (code c) b'#' && hex_digits 6 s

some-inj {ℓ} : {A : Type ℓ} (a b : A) → some a ≡ some b → a ≡ b
some-inj a b e = cc

none-ne-some {ℓ} : {A : Type ℓ} (a : A) → none ≡ some a → ⊥
none-ne-some a e = cc

accept {ℓ} : {A : Type ℓ} → (A → Bool) → A → Option A
accept ok a = if ok a then some a else none

accept-eq_some {ℓ} :
    {A : Type ℓ} (p : A → Bool) (a b : A) → accept p a ≡ some b → (b ≡ a) × (p a ≡ true)
unfolding accept
accept-eq_some p a b h = elim (Bool-cases (p a)) [
  | inl yes_p ↦ (some-inj b a (sym h ∙ rw yes_p), yes_p)
  | inr no_p ↦ absurd (none-ne-some b (sym (rw no_p) ∙ h))
]

agent_schema : Agent → Bool
agent_schema a =
    id_schema a.id
    && id_schema a.workspace_id
    && text_in 1 80 a.name
    && text_in 1 120 a.role
    && text_in 0 1200 a.description
    && text_in 0 20000 a.instructions
    && text_in 0 12 a.avatar
    && color_schema a.color
    && array (text_in 1 80) a.capabilities
    && leb (length a.capabilities) 30
    && nullable id_schema a.current_task_id

unfoldable pub parse_agent : Agent → Option Agent
unfolding agent_schema accept
parse_agent a =
    accept agent_schema
      (record a { name = trim a.name; role = trim a.role; capabilities = map trim a.capabilities })

conversation_schema : Conversation → Bool
conversation_schema c =
    id_schema c.id
    && id_schema c.workspace_id
    && text_in 1 160 c.title
    && array id_schema c.member_agent_ids
    && leb (length c.member_agent_ids) 6
    && nullable id_schema c.task_id

unfoldable pub parse_conversation : Conversation → Option Conversation
unfolding conversation_schema accept
parse_conversation c = accept conversation_schema (record c { title = trim c.title })

part_schema : MessageResponsePart → Bool
part_schema (MessageResponsePart.text t) = text_in 0 200000 t
part_schema (MessageResponsePart.tool id tool_type status content) =
    id_schema id && text_in 1 80 tool_type

trim_attachment : MessageAttachment → MessageAttachment
trim_attachment a = record a { name = trim a.name }

attachment_schema : MessageAttachment → Bool
attachment_schema a =
    id_schema a.artifact_id
    && text_in 1 240 a.name
    && text_in 1 160 a.mime_type
    && text_in 1 2000 a.path

parts_schema : List MessageResponsePart → Bool
parts_schema xs = array part_schema xs && leb (length xs) 500

attachments_schema : List MessageAttachment → Bool
attachments_schema xs = array attachment_schema xs && leb (length xs) 10

trim_attachments : Option (List MessageAttachment) → Option (List MessageAttachment)
trim_attachments none = none
trim_attachments (some xs) = some (map trim_attachment xs)

message_schema : Message → Bool
unfolding part_schema attachment_schema parts_schema attachments_schema
message_schema m =
    id_schema m.id
    && id_schema m.workspace_id
    && id_schema m.conversation_id
    && nullable id_schema m.author_id
    && text_in 0 200000 m.content
    && nullable parts_schema m.response_parts
    && nullable attachments_schema m.attachments
    && nullable id_schema m.reply_to_message_id
    && nullable (text_in 0 160) m.client_operation_id

unfoldable pub parse_message : Message → Option Message
unfolding message_schema accept trim_attachment trim_attachments
parse_message m = accept message_schema (record m { attachments = trim_attachments m.attachments })

budget_schema : TaskBudget → Bool
budget_schema b =
    leb 1 b.max_tokens
    && leb b.max_tokens 10000000
    && leb 1 b.max_wall_seconds
    && leb b.max_wall_seconds 86400
    && leb b.max_child_tasks 8

unfoldable pub parse_budget : TaskBudget → Option TaskBudget
unfolding budget_schema accept
parse_budget b = accept budget_schema b

task_schema : Task → Bool
unfolding budget_schema
task_schema t =
    id_schema t.id
    && id_schema t.workspace_id
    && nullable id_schema t.parent_task_id
    && nullable id_schema t.conversation_id
    && text_in 1 180 t.title
    && text_in 1 20000 t.objective
    && array (text_in 1 1000) t.acceptance_criteria
    && leb (length t.acceptance_criteria) 30
    && nullable id_schema t.owner_agent_id
    && id_schema t.created_by_id
    && leb t.depth 6
    && budget_schema t.budget
    && nullable (text_in 0 4000) t.blocker
    && nullable (text_in 0 20000) t.result_summary

-- The trimmed fields.
abbrev pub trimmed_task : Task → Task
trimmed_task t = record t {
  title = trim t.title;
  objective = trim t.objective;
  acceptance_criteria = map trim t.acceptance_criteria;
}

unfoldable pub parse_task : Task → Option Task
unfolding task_schema accept
parse_task t = accept task_schema (trimmed_task t)

pub parse_task-trimmed : (t u : Task) → parse_task t ≡ some u → u ≡ trimmed_task t
unfolding parse_task
parse_task-trimmed t u h = (accept-eq_some task_schema (trimmed_task t) u h).0

run_schema : Run → Bool
run_schema r =
    id_schema r.id
    && id_schema r.workspace_id
    && id_schema r.agent_id
    && id_schema r.conversation_id
    && nullable id_schema r.task_id
    && nullable id_schema r.trigger_message_id
    && nullable (text_in 0 8000) r.error

unfoldable pub parse_run : Run → Option Run
unfolding run_schema accept
parse_run r = accept run_schema r

approval_schema : Approval → Bool
approval_schema a =
    id_schema a.id
    && id_schema a.workspace_id
    && id_schema a.run_id
    && nullable id_schema a.task_id
    && id_schema a.agent_id
    && text_in 1 160 a.tool
    && text_in 1 240 a.title
    && text_in 0 4000 a.description
    && leb 16 (utf16_length a.signature)

unfoldable pub parse_approval : Approval → Option Approval
unfolding approval_schema accept
parse_approval a = accept approval_schema a

pub parse_approval_same : (a b : Approval) → parse_approval a ≡ some b → b ≡ a
unfolding parse_approval
parse_approval_same a b h = (accept-eq_some approval_schema a b h).0

schedule_schema : Schedule → Bool
schedule_schema s =
    id_schema s.id
    && id_schema s.workspace_id
    && id_schema s.agent_id
    && id_schema s.conversation_id
    && text_in 1 160 s.title
    && text_in 1 200000 s.prompt
    && text_in 9 120 s.cron_expression
    && text_in 1 120 s.timezone
    && nullable id_schema s.latest_run_id
    && nullable (text_in 32 200) s.webhook_token
    && id_schema s.created_by_id

abbrev pub trimmed_schedule : Schedule → Schedule
trimmed_schedule s = record s {
  title = trim s.title;
  prompt = trim s.prompt;
  cron_expression = trim s.cron_expression;
  timezone = trim s.timezone;
}

unfoldable pub parse_schedule : Schedule → Option Schedule
unfolding schedule_schema accept
parse_schedule s = accept schedule_schema (trimmed_schedule s)

pub parse_schedule-trimmed : (s t : Schedule) → parse_schedule s ≡ some t → t ≡ trimmed_schedule s
unfolding parse_schedule
parse_schedule-trimmed s t h = (accept-eq_some schedule_schema (trimmed_schedule s) t h).0

pub parse_schedule-id : (s t : Schedule) → parse_schedule s ≡ some t → t.id ≡ s.id
unfolding parse_schedule
parse_schedule-id s t h = ap (λ (x : Schedule). x.id) (accept-eq_some schedule_schema _ t h).0

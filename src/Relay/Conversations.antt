-- ===== src/Relay/Conversations.antt =====
-- `validateAgentIds`, `createConversation`, `updateConversation`, `deleteConversation`.
use noudle_agents.Base.{
  String, Option, none, some, List, [], ◌∷◌, Bool, false, not, ◌&&◌, ◌==◌, any, find, distinct,
  length, eqb, truthy, ◌otherwise◌, if◌then◌else◌,
}
use noudle_agents.Protocol.{
  Conversation, ConversationKind, Run, CreateConversationInput, ConversationPatch, Creator,
  EventType, Value, parse_conversation, is_active, is_direct,
}
use noudle_agents.Repository.State.{EntityKind}
use noudle_agents.Repository.Entities
use noudle_agents.Relay.Events.{new_id, announce}
use noudle_agents.Relay.Lookup.{get_agent, get_conversation, require, list_conversations, list_runs}
use noudle_agents.App.{
  App, Failure, config, now, parsed, pure, throw_if, conflict, for_each, ◌>>=◌, ◌>>◌,
}

unfoldable pub check_agent : String → App (Unit {0})
check_agent id = do get_agent id; pure tt

unfoldable pub validate_agent_ids : List String → App (Unit {0})
validate_agent_ids ids = do
  throw_if (not (eqb (length (distinct ids)) (length ids))) (Failure.domain 400 "duplicate_agents")
  for_each check_agent ids

-- `if (actorType === "agent") await this.getAgent(actorId)`.
unfoldable pub check_actor : Creator → String → App (Unit {0})
check_actor Creator.agent actor_id = check_agent actor_id
check_actor Creator.user actor_id = pure tt

-- `if (id) await this.getTask(id)`, and so for agents and conversations.
unfoldable pub check_present : EntityKind → Option String → App (Unit {0})
check_present k none = pure tt
check_present k (some id) = do require k id; pure tt

unfoldable pub check_optional : EntityKind → Option String → App (Unit {0})
check_optional k id = check_present k (truthy id)

-- `memberAgentIds.length === 1 && memberAgentIds[0] === id`, in a direct conversation.
abbrev pub is_alone : String → List String → Bool
is_alone id (member ∷ []) = member == id
is_alone id _ = false

abbrev pub is_direct_with : String → Conversation → Bool
is_direct_with id c = is_direct c.kind && is_alone id c.member_agent_ids

-- The direct conversation that `createConversation` returns instead of a new one.
unfoldable pub reusable : ConversationKind → List String → List Conversation → Option Conversation
reusable kind (member ∷ []) conversations =
    if is_direct kind then find (is_direct_with member) conversations else none
reusable kind _ conversations = none

unfoldable pub insert_conversation : CreateConversationInput → Creator → String → App Conversation
insert_conversation input actor_type actor_id = do
  created ← now
  id ← new_id "cnv"
  c ← config
  conversation ← parsed (
      parse_conversation (record {
        id = id;
        workspace_id = c.workspace_id;
        kind = input.kind;
        title = input.title;
        member_agent_ids = input.member_agent_ids;
        task_id = input.task_id;
        last_message_at = none;
        created_at = created;
        updated_at = created;
      }))
  Entities.put EntityKind.conversations conversation
  announce "conversation" conversation.id EventType.conversation_created
      (("conversation", Value.conversation conversation) ∷ []) actor_type actor_id
  pure conversation

unfoldable pub reuse_or_insert :
    Option Conversation → CreateConversationInput → Creator → String → App Conversation
reuse_or_insert (some existing) input actor_type actor_id = pure existing
reuse_or_insert none input actor_type actor_id = insert_conversation input actor_type actor_id

unfoldable pub create_conversation : CreateConversationInput → Creator → String → App Conversation
create_conversation input actor_type actor_id = do
  validate_agent_ids input.member_agent_ids
  check_optional EntityKind.tasks input.task_id
  conversations ← list_conversations
  reuse_or_insert (reusable input.kind input.member_agent_ids conversations) input actor_type
      actor_id

unfoldable pub validate_patch : Option (List String) → App (Unit {0})
validate_patch none = pure tt
validate_patch (some ids) = validate_agent_ids ids

abbrev pub patch_conversation : ConversationPatch → Conversation → Conversation
patch_conversation p c = record c {
  title = p.title otherwise c.title;
  member_agent_ids = p.member_agent_ids otherwise c.member_agent_ids;
}

unfoldable pub update_conversation :
    String → ConversationPatch → Creator → String → App Conversation
update_conversation id patch actor_type actor_id = do
  check_actor actor_type actor_id
  current ← get_conversation id
  validate_patch patch.member_agent_ids
  updated ← now
  conversation ←
      parsed
        (parse_conversation (record (patch_conversation patch current) { updated_at = updated }))
  Entities.put EntityKind.conversations conversation
  announce "conversation" conversation.id EventType.conversation_updated
      (("conversation", Value.conversation conversation) ∷ []) actor_type actor_id
  pure conversation

abbrev pub runs_in : String → Run → Bool
runs_in id r = r.conversation_id == id && is_active r.status

unfoldable pub delete_conversation : String → Creator → String → App (Unit {0})
delete_conversation id actor_type actor_id = do
  check_actor actor_type actor_id
  conversation ← get_conversation id
  runs ← list_runs
  throw_if (any (runs_in id) runs) (conflict "conversation_in_use")
  Entities.delete EntityKind.conversations id
  announce "conversation" id EventType.conversation_deleted
      (("conversation", Value.conversation conversation) ∷ ("conversationId", Value.text id) ∷ [])
      actor_type actor_id

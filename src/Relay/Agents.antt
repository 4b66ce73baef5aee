-- ===== src/Relay/Agents.antt =====
-- `createAgent`, `updateAgent`, `deleteAgent`.
use noudle_agents.Base.{
  is_empty, String, none, [], ◌∷◌, Bool, not, ◌&&◌, ◌||◌, ◌==◌, is, any, keep, contains,
  ◌otherwise◌, if◌then◌else◌,
}
use noudle_agents.Base.Text
use noudle_agents.Protocol.{
  Agent, AgentStatus, Conversation, Task, Run, CreateAgentInput, AgentPatch, Creator, EventType,
  Value, parse_agent, parse_conversation, is_terminal, is_active, is_direct,
}
use noudle_agents.Repository.State.{EntityKind}
use noudle_agents.Repository.Entities
use noudle_agents.Relay.Events.{new_id, announce}
use noudle_agents.Relay.Lookup.{get_agent, list_tasks, list_runs, list_conversations}
use noudle_agents.App.{
  App, config, asks, now, parsed, pure, throw_if, conflict, for_each, ◌>>=◌, ◌>>◌,
}

unfoldable pub create_agent : CreateAgentInput → Creator → String → App Agent
create_agent input actor_type actor_id = do
  created ← now
  id ← new_id "agt"
  c ← config
  upper ← asks (λ e. e.upper_case)
  agent ← parsed (
      parse_agent (record {
        id = id;
        workspace_id = c.workspace_id;
        name = input.name;
        role = input.role;
        description = input.description otherwise "";
        instructions = input.instructions otherwise "";
        avatar = input.avatar otherwise upper (Text.slice_to 2 input.name);
        color = input.color otherwise "#D7FF64";
        capabilities = input.capabilities otherwise [];
        status = AgentStatus.idle;
        current_task_id = none;
        codex_thread_id = none;
        created_at = created;
        updated_at = created;
      }))
  Entities.put EntityKind.agents agent
  announce "agent" agent.id EventType.agent_created (("agent", Value.agent agent) ∷ []) actor_type
      actor_id
  pure agent

-- `{ ...current, ...patch }`.
abbrev pub patch_agent : AgentPatch → Agent → Agent
patch_agent p a = record a {
  name = p.name otherwise a.name;
  role = p.role otherwise a.role;
  description = p.description otherwise a.description;
  instructions = p.instructions otherwise a.instructions;
  avatar = p.avatar otherwise a.avatar;
  color = p.color otherwise a.color;
  capabilities = p.capabilities otherwise a.capabilities;
  status = p.status otherwise a.status;
  codex_thread_id = p.codex_thread_id otherwise a.codex_thread_id;
}

unfoldable pub update_agent : String → AgentPatch → Creator → String → App Agent
update_agent id patch actor_type actor_id = do
  current ← get_agent id
  updated ← now
  agent ← parsed (parse_agent (record (patch_agent patch current) { updated_at = updated }))
  Entities.put EntityKind.agents agent
  announce "agent" agent.id EventType.agent_updated (("agent", Value.agent agent) ∷ []) actor_type
      actor_id
  pure agent

-- `task.ownerAgentId === id && !terminalTaskStatuses.has(task.status)`.
abbrev pub owns_open : String → Task → Bool
owns_open id t = is t.owner_agent_id id && not (is_terminal t.status)

abbrev pub runs_now : String → Run → Bool
runs_now id r = r.agent_id == id && is_active r.status

-- The body of the loop over the agent's conversations.
unfoldable pub leave_conversation : String → Creator → String → Conversation → App (Unit {0})
leave_conversation id actor_type actor_id conversation =
    let remaining = keep (λ agent_id. not (agent_id == id)) conversation.member_agent_ids in
    if is_direct conversation.kind || is_empty remaining
    then (do
      Entities.delete EntityKind.conversations conversation.id
      announce "conversation" conversation.id EventType.conversation_deleted
          (("conversation", Value.conversation conversation)
            ∷ ("conversationId", Value.text conversation.id)
            ∷ [])
          actor_type actor_id)
    else (do
      updated_at ← now
      updated ← parsed (
          parse_conversation
            (record conversation { member_agent_ids = remaining; updated_at = updated_at }))
      Entities.put EntityKind.conversations updated
      announce "conversation" updated.id EventType.conversation_updated
          (("conversation", Value.conversation updated) ∷ []) actor_type actor_id)

unfoldable pub delete_agent : String → Creator → String → App (Unit {0})
delete_agent id actor_type actor_id = do
  agent ← get_agent id
  tasks ← list_tasks
  runs ← list_runs
  conversations ← list_conversations
  throw_if (any (owns_open id) tasks) (conflict "agent_in_use")
  throw_if (any (runs_now id) runs) (conflict "agent_in_use")
  for_each (leave_conversation id actor_type actor_id)
      (keep (λ conversation. contains id conversation.member_agent_ids) conversations)
  Entities.delete EntityKind.agents id
  announce "agent" id EventType.agent_deleted
      (("agent", Value.agent agent) ∷ ("agentId", Value.text id) ∷ []) actor_type actor_id

-- ===== src/Relay/Clearing.antt =====
-- `clearConversation`.
use noudle_agents.Base.{String, none, some, List, [], ◌∷◌, Bool, true, false, not, keep}
use noudle_agents.Protocol.{Conversation, ConversationKind, Run, Creator}
use noudle_agents.Relay.Lookup.{get_conversation, list_runs}
use noudle_agents.Relay.Agents.{update_agent}
use noudle_agents.Relay.Runs.{interrupt_run, idle_patch}
use noudle_agents.Relay.Conversations.{delete_conversation, create_conversation, runs_in}
use noudle_agents.App.{App, Failure, pure, throw, throw_if, for_each, ◌>>=◌, ◌>>◌}

abbrev is_user : Creator → Bool
is_user Creator.user = true
is_user Creator.agent = false

interrupt : Run → App (Unit {0})
interrupt run = do interrupt_run run.id; pure tt

-- The member of a direct conversation with one agent, or the error that the call answers.
unfoldable pub sole_member : ConversationKind → List String → App String
sole_member ConversationKind.direct (agent_id ∷ []) = pure agent_id
sole_member _ _ = throw (Failure.domain 400 "direct_conversation_required")

unfoldable pub clear_conversation : String → Creator → String → App Conversation
unfolding interrupt
clear_conversation id actor_type actor_id = do
  throw_if (not (is_user actor_type)) (Failure.domain 403 "user_only")
  conversation ← get_conversation id
  agent_id ← sole_member conversation.kind conversation.member_agent_ids
  runs ← list_runs
  for_each interrupt (keep (runs_in id) runs)
  delete_conversation id actor_type actor_id
  update_agent agent_id (idle_patch (some none)) actor_type actor_id
  create_conversation
      (record {
        kind = ConversationKind.direct;
        title = conversation.title;
        member_agent_ids = agent_id ∷ [];
        task_id = none;
      })
      actor_type actor_id

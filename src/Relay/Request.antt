-- ===== src/Relay/Request.antt =====
-- The calls that clients make of the service, by the method's name and arguments.
use noudle_agents.Base.{String, Option, List, Bool}
use noudle_agents.Protocol.{
  AgentPatch, ConversationPatch, CreateAgentInput, CreateConversationInput, CreateTaskInput,
  Creator, DelegateTaskInput, SendMessageInput, TaskPatch, Task, Agent, CreateScheduleInput,
  UpdateScheduleInput, UserProfilePatch,
}
use noudle_agents.Relay.Collaboration.{DelegateRole}
use noudle_agents.Relay.Approvals.{Decision}

pub data Call : Type 0 where
  create_agent : CreateAgentInput → Creator → String → Call
  update_agent : String → AgentPatch → Creator → String → Call
  delete_agent : String → Creator → String → Call
  create_conversation : CreateConversationInput → Creator → String → Call
  update_conversation : String → ConversationPatch → Creator → String → Call
  delete_conversation : String → Creator → String → Call
  clear_conversation : String → Creator → String → Call
  list_messages : String → Call
  send_message : String → SendMessageInput → Call
  create_task : CreateTaskInput → Creator → String → Call
  update_task : String → TaskPatch → Creator → String → Call
  delegate_task : String → DelegateTaskInput → Creator → String → Call
  block_task : String → String → Bool → String → Call
  complete_task : String → String → List String → List String → String → Call
  send_collaboration_message : String → String → String → String → List String → Call
  request_agent_help : String → String → String → String → List String → Call
  read_agent_help : String → String → Call
  create_delegated_child : Task → Agent → DelegateRole → String → String → Call
  interrupt_run : String → Call
  resolve_approval : String → Decision → Call
  list_schedules : Call
  get_schedule : String → Call
  create_schedule : CreateScheduleInput → Creator → String → Call
  update_schedule : String → UpdateScheduleInput → Creator → String → Call
  delete_schedule : String → Creator → String → Call
  trigger_webhook : String → String → Option String → Call
  get_user_profile : Call
  update_user_profile : UserProfilePatch → Call

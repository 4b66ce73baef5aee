-- ===== src/Relay/Calls.antt =====
-- The service as its clients see it: one call after the other. An error is answered to the client,
-- and what the call wrote before it stays.
pub mod Log
use noudle_agents.Relay.Effects.{IsKept-IsReader}
use noudle_agents.Base.{String, Option, List, [], ◌∷◌, Bool}
use noudle_agents.Protocol.{
  AgentPatch, ConversationPatch, CreateAgentInput, CreateConversationInput, CreateTaskInput,
  Creator, DelegateTaskInput, SendMessageInput, TaskPatch, Task, Agent,
}
use noudle_agents.Relay.Request.{Call}
use noudle_agents.App.{World, Env, App, pure, ◌>>=◌, ◌>>◌}
use noudle_agents.App.Steps.{Steps}
use noudle_agents.Relay.Agents.{create_agent, update_agent, delete_agent}
use noudle_agents.Relay.Conversations.{
  create_conversation, update_conversation, delete_conversation,
}
use noudle_agents.Relay.Clearing.{clear_conversation}
use noudle_agents.Relay.Runs.{interrupt_run}
use noudle_agents.Relay.Messages.{send_message, list_messages, Resolver}
use noudle_agents.Relay.Tasks.{create_task, update_task, delegate_task, block_task, complete_task}
use noudle_agents.Relay.Collaboration.{
  send_collaboration_message, request_agent_help, read_agent_help, create_delegated_child,
  DelegateRole,
}
use noudle_agents.Relay.Approvals.{resolve_approval, Decision}
use noudle_agents.Relay.Schedules.{
  list_schedules, get_schedule, create_schedule, update_schedule, delete_schedule,
}
use noudle_agents.Relay.Schedules.Triggering.{trigger_webhook}
use noudle_agents.Relay.Profile.{get_user_profile, update_user_profile}
use noudle_agents.Relay.Effects.Schedules.{
  step-list_schedules, step-get_schedule, step-create_schedule, step-update_schedule,
  step-delete_schedule, step-trigger_webhook, step-get_user_profile, step-update_user_profile,
}
use noudle_agents.Relay.Effects.{IsKept, IsKept-IsReader, ◌⨾◌, done}
use noudle_agents.Relay.Effects.Agents.{
  step-create_agent, step-update_agent, step-delete_agent, step-create_conversation,
  step-update_conversation, step-delete_conversation, step-clear_conversation, step-interrupt_run,
}
use noudle_agents.Relay.Effects.Tasks.{
  step-create_task, step-update_task, step-delegate_task, step-block_task, step-complete_task,
  step-resolve_approval,
}
use noudle_agents.Relay.Effects.Messages.{
  Resolves, step-send_message, step-list_messages, step-send_collaboration_message,
  step-request_agent_help, step-read_agent_help, step-create_delegated_child,
}

-- The method that a call names, its answer dropped.
unfoldable pub perform : Option Resolver → Call → App (Unit {0})
perform o (Call.create_agent i t a) = create_agent i t a >> pure tt
perform o (Call.update_agent id p t a) = update_agent id p t a >> pure tt
perform o (Call.delete_agent id t a) = delete_agent id t a >> pure tt
perform o (Call.create_conversation i t a) = create_conversation i t a >> pure tt
perform o (Call.update_conversation id p t a) = update_conversation id p t a >> pure tt
perform o (Call.delete_conversation id t a) = delete_conversation id t a >> pure tt
perform o (Call.clear_conversation id t a) = clear_conversation id t a >> pure tt
perform o (Call.list_messages id) = list_messages id >> pure tt
perform o (Call.send_message c i) = send_message c i o >> pure tt
perform o (Call.create_task i t a) = create_task i t a >> pure tt
perform o (Call.update_task id p t a) = update_task id p t a >> pure tt
perform o (Call.delegate_task id i t a) = delegate_task id i t a >> pure tt
perform o (Call.block_task id blocker b a) = block_task id blocker b a >> pure tt
perform o (Call.complete_task id summary xs ys a) = complete_task id summary xs ys a >> pure tt
perform o (Call.send_collaboration_message x y t content refs) =
    send_collaboration_message x y t content refs >> pure tt
perform o (Call.request_agent_help x y t request paths) =
    request_agent_help x y t request paths >> pure tt
perform o (Call.read_agent_help a t) = read_agent_help a t >> pure tt
perform o (Call.create_delegated_child p d r title objective) =
    create_delegated_child p d r title objective >> pure tt
perform o (Call.interrupt_run id) = interrupt_run id >> pure tt
perform o (Call.resolve_approval id d) = resolve_approval id d >> pure tt
perform o Call.list_schedules = list_schedules >> pure tt
perform o (Call.get_schedule id) = get_schedule id >> pure tt
perform o (Call.create_schedule i t a) = create_schedule i t a >> pure tt
perform o (Call.update_schedule id i t a) = update_schedule id i t a >> pure tt
perform o (Call.delete_schedule id t a) = delete_schedule id t a >> pure tt
perform o (Call.trigger_webhook id token payload) = trigger_webhook id token payload >> pure tt
perform o Call.get_user_profile = get_user_profile >> pure tt
perform o (Call.update_user_profile i) = update_user_profile i >> pure tt

-- The world after a series of calls, whatever they answer.
unfoldable pub serve : Option Resolver → Env → World → List Call → World
serve o e w [] = w
serve o e w (c ∷ cs) = serve o e (perform o c e w).1 cs

module _ {ℓ} (R : World → World → Type ℓ) ⦃s : IsKept R⦄ (o : Option Resolver)
    (h : Resolves R o) where
  pub step-perform : (c : Call) → Steps R (perform o c)
  unfolding perform
  step-perform (Call.create_agent i t a) = step-create_agent i t a ⨾ λ _. done _
  step-perform (Call.update_agent id p t a) = step-update_agent id p t a ⨾ λ _. done _
  step-perform (Call.delete_agent id t a) = step-delete_agent id t a ⨾ λ _. done _
  step-perform (Call.create_conversation i t a) = step-create_conversation i t a ⨾ λ _. done _
  step-perform (Call.update_conversation id p t a) = step-update_conversation id p t a ⨾ λ _. done _
  step-perform (Call.delete_conversation id t a) = step-delete_conversation id t a ⨾ λ _. done _
  step-perform (Call.clear_conversation id t a) = step-clear_conversation id t a ⨾ λ _. done _
  step-perform (Call.list_messages id) = step-list_messages id ⨾ λ _. done _
  step-perform (Call.send_message c i) = step-send_message c i o h ⨾ λ _. done _
  step-perform (Call.create_task i t a) = step-create_task i t a ⨾ λ _. done _
  step-perform (Call.update_task id p t a) = step-update_task id p t a ⨾ λ _. done _
  step-perform (Call.delegate_task id i t a) = step-delegate_task id i t a ⨾ λ _. done _
  step-perform (Call.block_task id blocker b a) = step-block_task id blocker b a ⨾ λ _. done _
  step-perform (Call.complete_task id summary xs ys a) =
      step-complete_task id summary xs ys a ⨾ λ _. done _
  step-perform (Call.send_collaboration_message x y t content refs) =
      step-send_collaboration_message x y t content refs ⨾ λ _. done _
  step-perform (Call.request_agent_help x y t request paths) =
      step-request_agent_help x y t request paths ⨾ λ _. done _
  step-perform (Call.read_agent_help a t) = step-read_agent_help a t ⨾ λ _. done _
  step-perform (Call.create_delegated_child p d r title objective) =
      step-create_delegated_child p d r title objective ⨾ λ _. done _
  step-perform (Call.interrupt_run id) = step-interrupt_run id ⨾ λ _. done _
  step-perform (Call.resolve_approval id d) = step-resolve_approval id d ⨾ λ _. done _
  step-perform Call.list_schedules = step-list_schedules ⨾ λ _. done _
  step-perform (Call.get_schedule id) = step-get_schedule id ⨾ λ _. done _
  step-perform (Call.create_schedule i t a) = step-create_schedule i t a ⨾ λ _. done _
  step-perform (Call.update_schedule id i t a) = step-update_schedule id i t a ⨾ λ _. done _
  step-perform (Call.delete_schedule id t a) = step-delete_schedule id t a ⨾ λ _. done _
  step-perform (Call.trigger_webhook id token payload) =
      step-trigger_webhook id token payload ⨾ λ _. done _
  step-perform Call.get_user_profile = step-get_user_profile ⨾ λ _. done _
  step-perform (Call.update_user_profile i) = step-update_user_profile i ⨾ λ _. done _

  -- A series of calls leads along `R`.
  pub serve-steps : (e : Env) (w : World) (cs : List Call) → R w (serve o e w cs)
  unfolding serve
  serve-steps e w [] = s.order.reflexive w
  serve-steps e w (c ∷ cs) =
      s.order.transitive w _ _ ((step-perform c).at e w) (serve-steps e (perform o c e w).1 cs)

-- ===== src/Relay/Collaboration.antt =====
-- Agents working together: `sendCollaborationMessage`, `requestAgentHelp`, `readAgentHelp`,
-- `createDelegatedChild`.
use noudle_agents.Base.{
  ◌-◌, ◌/◌, max, String, Option, none, some, List, [], ◌∷◌, ◌++◌, Bool, not, ◌&&◌, ◌||◌, ◌==◌, find,
  keep, contains, distinct, length, eqb, ltb, is, truthy, if◌then◌else◌,
}
use noudle_agents.Base.Text
use noudle_agents.Protocol.{
  Agent, Conversation, ConversationKind, Message, MessageRole, Run, Task, TaskBudget, BudgetPatch,
  Creator, EventType, ActorType, Value, parse_message, parse_run,
}
use noudle_agents.Repository.State.{EntityKind}
use noudle_agents.Repository.Entities
use noudle_agents.Repository.Commit.{commit_message_run}
use noudle_agents.Relay.Events.{new_id, new_event, announce, publish_all}
use noudle_agents.Relay.Lookup.{get_agent, get_task, get_conversation, list_agents, list_runs}
use noudle_agents.Relay.Conversations.{check_agent, create_conversation, update_conversation}
use noudle_agents.Relay.Messages.{list_messages, queued_run, run_job, touched}
use noudle_agents.Relay.Tasks.{create_task, update_task, no_patch}
use noudle_agents.App.{
  App, Failure, asks, config, conflict, now, parsed, pure, throw, throw_if, ◌>>=◌, ◌>>◌,
}

-- `updateTask(id, { conversationId }, "agent", sender)`.
abbrev link_task : String → String → String → App Task
link_task id conversation_id sender =
    update_task id (record no_patch { conversation_id = some (some conversation_id) }) Creator.agent
      sender

unfoldable pub open_task_conversation : Agent → Agent → Task → App Conversation
open_task_conversation sender target task = do
  conversation ←
      create_conversation
        (record {
          kind = ConversationKind.task;
          title = task.title;
          member_agent_ids = distinct (sender.id ∷ target.id ∷ []);
          task_id = some task.id;
        })
        Creator.agent sender.id
  link_task task.id conversation.id sender.id
  pure conversation

-- `if (memberAgentIds.length !== conversation.memberAgentIds.length)` the members are written.
unfoldable pub add_members : Conversation → List String → String → App Conversation
add_members conversation members sender =
    if eqb (length members) (length conversation.member_agent_ids)
    then pure conversation
    else update_conversation conversation.id
        (record { title = none; member_agent_ids = some members }) Creator.agent sender

unfoldable pub join_conversation : Agent → Agent → Conversation → App Conversation
join_conversation sender target conversation =
    let members = distinct (conversation.member_agent_ids ++ sender.id ∷ target.id ∷ []) in
    do
      throw_if (ltb 6 (length members)) (conflict "conversation_member_limit")
      add_members conversation members sender.id

unfoldable pub find_conversation : Agent → Agent → Task → Option String → App Conversation
find_conversation sender target task none = open_task_conversation sender target task
find_conversation sender target task (some id) = do
  conversation ← get_conversation id
  join_conversation sender target conversation

unfoldable pub send_collaboration_message :
    String → String → String → String → List String → App Message
send_collaboration_message sender_id target_id task_id content context_refs = do
  sender ← get_agent sender_id
  target ← get_agent target_id
  task ← get_task task_id
  conversation ← find_conversation sender target task (truthy task.conversation_id)
  at ← now
  id ← new_id "msg"
  c ← config
  message ← parsed (
      parse_message (record {
        id = id;
        workspace_id = c.workspace_id;
        conversation_id = conversation.id;
        role = MessageRole.agent;
        author_id = some sender.id;
        content = content;
        response_parts = none;
        attachments = none;
        reply_to_message_id = none;
        client_operation_id = none;
        created_at = at;
      }))
  Entities.put EntityKind.messages message
  Entities.put EntityKind.conversations (touched at conversation)
  announce "message" message.id EventType.message_created
      (("message", Value.message message)
        ∷ ("taskId", Value.text task.id)
        ∷ ("targetAgentId", Value.text target.id)
        ∷ ("contextRefs", Value.texts context_refs)
        ∷ [])
      Creator.agent sender.id
  pure message

-- What a helper may spend: half of the tokens, and one child task less.
abbrev pub help_budget : TaskBudget → BudgetPatch
help_budget b = record {
  max_tokens = some (max 1 (b.max_tokens / 2));
  max_wall_seconds = some b.max_wall_seconds;
  max_child_tasks = some (b.max_child_tasks - 1);
}

listed : List String → String
listed [] = ""
listed (path ∷ []) = Text.append "- " path
listed (path ∷ paths) = Text.append "- " (Text.append path (Text.append "\n" (listed paths)))

path_context : List String → String
unfolding listed
path_context [] = ""
path_context (path ∷ paths) = Text.append "\n\nRelevant shared paths:\n" (listed (path ∷ paths))

abbrev help_ending : String
help_ending =
    "\n\nThe team shares /workspace. Inspect the relevant project and agent directories, then respond with your findings and exact paths to any files the requester should use."

unfoldable pub help_text : Agent → String → List String → String
unfolding path_context
help_text sender request paths =
    let opening = Text.append "Teammate request from " (Text.append sender.name " (") in
    let named = Text.append opening (Text.append sender.id "):\n\n") in
    Text.append named (Text.append request (Text.append (path_context paths) help_ending))

pub record HelpRequest : Type 0 where
  pub task : Task
  pub request_message : Message
  pub run_id : String

unfoldable pub request_agent_help :
    String → String → String → String → List String → App HelpRequest
request_agent_help sender_id target_id parent_id request paths = do
  sender ← get_agent sender_id
  target ← get_agent target_id
  parent ← get_task parent_id
  throw_if (sender.id == target.id) (Failure.domain 400 "same_agent_request")
  created ←
      create_task
        (record {
          title =
              Text.slice_to 180
                (Text.append "Help " (Text.append sender.name (Text.append ": " request)));
          objective = request;
          acceptance_criteria = some (
              "Return a concise answer to the requesting agent"
              ∷ "Include exact /workspace paths for every shared file"
              ∷ "Preserve existing files unless the request explicitly asks for changes" ∷ []);
          owner_agent_id = some target.id;
          parent_task_id = some parent.id;
          conversation_id = none;
          priority = some parent.priority;
          budget = some (help_budget parent.budget);
        })
        Creator.agent sender.id
  conversation ←
      create_conversation
        (record {
          kind = ConversationKind.task;
          title = created.title;
          member_agent_ids = sender.id ∷ target.id ∷ [];
          task_id = some created.id;
        })
        Creator.agent sender.id
  task ← link_task created.id conversation.id sender.id
  at ← now
  id ← new_id "msg"
  c ← config
  message ← parsed (
      parse_message (record {
        id = id;
        workspace_id = c.workspace_id;
        conversation_id = conversation.id;
        role = MessageRole.agent;
        author_id = some sender.id;
        content = help_text sender request paths;
        response_parts = none;
        attachments = none;
        reply_to_message_id = none;
        client_operation_id = none;
        created_at = at;
      }))
  run_id ← new_id "run"
  run ← parsed (
      parse_run
        (queued_run run_id c.workspace_id target.id conversation.id (some task.id) message.id at))
  job_id ← new_id "job"
  message_event ←
      new_event "message" message.id EventType.message_created
        (("message", Value.message message)
          ∷ ("taskId", Value.text task.id)
          ∷ ("targetAgentId", Value.text target.id)
          ∷ ("paths", Value.texts paths)
          ∷ [])
        ActorType.agent (some sender.id)
  run_event ←
      new_event "run" run.id EventType.run_created
        (("run", Value.run run) ∷ ("requestedByAgentId", Value.text sender.id) ∷ []) ActorType.agent
        (some sender.id)
  committed ← commit_message_run (record {
    message = message;
    run = run;
    job = run_job job_id c.workspace_id run.id none at;
    idempotency_key = Text.append "agent-help:" message.id;
    events = message_event ∷ run_event ∷ [];
  })
  publish_all committed.events
  Entities.put EntityKind.conversations (touched at conversation)
  pure (record { task = task; request_message = message; run_id = committed.run_id })

pub record HelpStatus : Type 0 where
  pub task : Task
  pub runs : List Run
  pub messages : List Message

unfoldable pub help_conversation : Option String → App Conversation
help_conversation none = throw (Failure.domain 400 "help_conversation_missing")
help_conversation (some id) = get_conversation id

unfoldable pub read_agent_help : String → String → App HelpStatus
read_agent_help actor_agent_id task_id = do
  check_agent actor_agent_id
  task ← get_task task_id
  conversation ← help_conversation (truthy task.conversation_id)
  throw_if (not (contains actor_agent_id conversation.member_agent_ids))
      (Failure.domain 403 "help_request_forbidden")
  runs ← list_runs
  messages ← list_messages conversation.id
  pure (record {
    task = task;
    runs = keep (λ run. is run.task_id task.id) runs;
    messages = messages;
  })

pub data DelegateRole : Type 0 where
  research operations : DelegateRole

abbrev pub role_text : DelegateRole → String
role_text DelegateRole.research = "research"
role_text DelegateRole.operations = "operations"

-- The agent that takes a delegated child.
abbrev pub is_recipient : (String → String) → String → String → Agent → Bool
is_recipient lower delegator role a =
    not (a.id == delegator) && (contains role a.capabilities || Text.includes (lower a.role) role)

unfoldable pub delegate_to : Option Agent → Task → Agent → String → String → App (Option Task)
delegate_to none parent delegator title objective = pure none
delegate_to (some recipient) parent delegator title objective = do
  child ←
      create_task
        (record {
          title = title;
          objective = objective;
          acceptance_criteria = some ("Return a concise result with evidence" ∷ []);
          owner_agent_id = some recipient.id;
          parent_task_id = some parent.id;
          conversation_id = parent.conversation_id;
          priority = some parent.priority;
          budget = some (record {
            max_tokens = some (max 1 (parent.budget.max_tokens / 2));
            max_wall_seconds = some parent.budget.max_wall_seconds;
            max_child_tasks = some parent.budget.max_child_tasks;
          });
        })
        Creator.agent delegator.id
  announce "task" child.id EventType.task_delegated
      (("task", Value.task child)
        ∷ ("fromAgentId", Value.text delegator.id)
        ∷ ("toAgentId", Value.text recipient.id)
        ∷ ("message", Value.text "Mock runtime collaboration demonstration")
        ∷ ("contextRefs", Value.texts (parent.id ∷ []))
        ∷ [])
      Creator.agent delegator.id
  pure (some child)

unfoldable pub create_delegated_child :
    Task → Agent → DelegateRole → String → String → App (Option Task)
create_delegated_child parent delegator role title objective = do
  agents ← list_agents
  lower ← asks (λ e. e.lower_case)
  delegate_to (find (is_recipient lower delegator.id (role_text role)) agents) parent delegator
      title objective

-- ===== src/Relay/Effects/Messages.antt =====
-- The methods on messages, and the collaboration of agents.
use noudle_agents.Relay.Effects.{IsKept-IsReader}
use noudle_agents.Base.{ℕ, String, Option, none, some, List, Bool}
use noudle_agents.Protocol.{Agent, Conversation, Message, Task, SendMessageInput}
use noudle_agents.Repository.State.{agents, conversations, messages, tasks, runs}
use noudle_agents.Repository.Entities
use noudle_agents.App.{World}
use noudle_agents.App.Steps.{Steps}
use noudle_agents.Relay.Effects.{
  IsKept, IsKept-IsReader, ◌⨾◌, done, check, guard, Steps-new_id, Steps-new_event,
  Steps-owner_event, Steps-announce, Steps-require, Steps-list_all, Steps-reads, Steps-env_config,
  Steps-lower, Steps-choice, Steps-refuse,
}
use noudle_agents.Relay.Effects.Agents.{
  step-check_agent, step-check_optional, step-create_conversation, step-update_conversation,
}
use noudle_agents.Relay.Effects.Tasks.{step-create_task, step-update_task}
use noudle_agents.Relay.Messages.{
  list_messages, reply_in, check_reply_to, check_reply, Resolver, resolve_some, resolve_attachments,
  touch_if, send_message,
}
use noudle_agents.Relay.Collaboration.{
  open_task_conversation, add_members, join_conversation, find_conversation,
  send_collaboration_message, request_agent_help, help_conversation, read_agent_help, DelegateRole,
  delegate_to, create_delegated_child,
}

-- The attachment service steps along `R` too.
abbrev pub Resolves {ℓ} : (World → World → Type ℓ) → Option Resolver → Type ℓ
Resolves R none = Unit
Resolves R (some f) = (id : String) (ids : List String) → Steps R (f id ids)

module _ {ℓ} {R : World → World → Type ℓ} ⦃s : IsKept R⦄ where
  pub step-list_messages : (id : String) → Steps R (list_messages id)
  unfolding list_messages Entities.list
  step-list_messages id =
      Steps-require conversations _ ⨾ λ _. Steps-env_config ⨾ λ _. Steps-reads _ ⨾ λ _. done _

  step-reply_in : (id : String) (m : Option Message) → Steps R (reply_in id m)
  unfolding reply_in
  step-reply_in id none = Steps-refuse _
  step-reply_in id (some m) = guard _ _

  step-check_reply_to : (c : String) (id : Option String) → Steps R (check_reply_to c id)
  unfolding check_reply_to Entities.get
  step-check_reply_to c none = done _
  step-check_reply_to c (some id) = Steps-reads _ ⨾ λ _. step-reply_in _ _

  step-check_reply : (c : String) (id : Option String) → Steps R (check_reply c id)
  unfolding check_reply
  step-check_reply c id = step-check_reply_to c _

  step-resolve_some :
      (o : Option Resolver) (id : String) (ids : List String)
      → Resolves R o
      → Steps R (resolve_some o id ids)
  unfolding resolve_some
  step-resolve_some none id ids h = Steps-refuse _
  step-resolve_some (some f) id ids h = h id ids

  step-resolve_attachments :
      (o : Option Resolver) (id : String) (ids : List String)
      → Resolves R o
      → Steps R (resolve_attachments o id ids)
  unfolding resolve_attachments
  step-resolve_attachments o id ids h = Steps-choice _ _ _ (done _) (step-resolve_some o id ids h)

  step-touch_if : (b : Bool) (at : ℕ) (c : Conversation) → Steps R (touch_if b at c)
  unfolding touch_if
  step-touch_if b at c = Steps-choice _ _ _ (s.write conversations _) (done _)

  pub step-send_message :
      (c : String) (i : SendMessageInput) (o : Option Resolver)
      → Resolves R o
      → Steps R (send_message c i o)
  unfolding send_message
  step-send_message c i o h = Steps-require conversations _ ⨾ λ _. Steps-require agents _ ⨾ λ _.
      guard _ _ ⨾ λ _. step-check_optional tasks _ ⨾ λ _. step-check_reply _ _ ⨾ λ _. s.tick ⨾ λ _.
      Steps-new_id _ ⨾ λ _. step-resolve_attachments _ _ _ h ⨾ λ _. Steps-env_config ⨾ λ _.
      check _ _ ⨾ λ _. Steps-new_id _ ⨾ λ _. check _ _ ⨾ λ _. Steps-new_id _ ⨾ λ _.
      Steps-owner_event _ _ _ _ ⨾ λ _.
      Steps-owner_event _ _ _ _ ⨾ λ _. s.commits _ _ (λ r. step-touch_if _ _ _ ⨾ λ _. done _)

  step-open_task_conversation : (x y : Agent) (t : Task) → Steps R (open_task_conversation x y t)
  unfolding open_task_conversation
  step-open_task_conversation x y t =
      step-create_conversation _ _ _ ⨾ λ _. step-update_task _ _ _ _ ⨾ λ _. done _

  step-add_members :
      (c : Conversation) (ids : List String) (x : String) → Steps R (add_members c ids x)
  unfolding add_members
  step-add_members c ids x = Steps-choice _ _ _ (done _) (step-update_conversation _ _ _ _)

  step-join_conversation : (x y : Agent) (c : Conversation) → Steps R (join_conversation x y c)
  unfolding join_conversation
  step-join_conversation x y c = guard _ _ ⨾ λ _. step-add_members _ _ _

  step-find_conversation :
      (x y : Agent) (t : Task) (id : Option String) → Steps R (find_conversation x y t id)
  unfolding find_conversation
  step-find_conversation x y t none = step-open_task_conversation x y t
  step-find_conversation x y t (some id) =
      Steps-require conversations _ ⨾ λ c. step-join_conversation x y c

  pub step-send_collaboration_message :
      (x y t content : String) (refs : List String)
      → Steps R (send_collaboration_message x y t content refs)
  unfolding send_collaboration_message
  step-send_collaboration_message x y t content refs = Steps-require agents _ ⨾ λ _.
      Steps-require agents _ ⨾ λ _. Steps-require tasks _ ⨾ λ _.
      step-find_conversation _ _ _ _ ⨾ λ _. s.tick ⨾ λ _. Steps-new_id _ ⨾ λ _.
      Steps-env_config ⨾ λ _. check _ _ ⨾ λ _. s.write messages _ ⨾ λ _.
      s.write conversations _ ⨾ λ _. Steps-announce _ _ _ _ _ _ ⨾ λ _. done _

  pub step-request_agent_help :
      (x y t request : String) (paths : List String)
      → Steps R (request_agent_help x y t request paths)
  unfolding request_agent_help
  step-request_agent_help x y t request paths = Steps-require agents _ ⨾ λ _.
      Steps-require agents _ ⨾ λ _. Steps-require tasks _ ⨾ λ _. guard _ _ ⨾ λ _.
      step-create_task _ _ _ ⨾ λ _. step-create_conversation _ _ _ ⨾ λ _.
      step-update_task _ _ _ _ ⨾ λ _. s.tick ⨾ λ _. Steps-new_id _ ⨾ λ _. Steps-env_config ⨾ λ _.
      check _ _ ⨾ λ _. Steps-new_id _ ⨾ λ _. check _ _ ⨾ λ _. Steps-new_id _ ⨾ λ _.
      Steps-new_event _ _ _ _ _ _ ⨾ λ _.
      Steps-new_event _ _ _ _ _ _ ⨾ λ _. s.commits _ _ (λ r. s.write conversations _ ⨾ λ _. done _)

  step-help_conversation : (id : Option String) → Steps R (help_conversation id)
  unfolding help_conversation
  step-help_conversation none = Steps-refuse _
  step-help_conversation (some id) = Steps-require conversations id

  pub step-read_agent_help : (a t : String) → Steps R (read_agent_help a t)
  unfolding read_agent_help
  step-read_agent_help a t = step-check_agent _ ⨾ λ _. Steps-require tasks _ ⨾ λ _.
      step-help_conversation _ ⨾ λ _.
      guard _ _ ⨾ λ _. Steps-list_all runs ⨾ λ _. step-list_messages _ ⨾ λ _. done _

  step-delegate_to :
      (o : Option Agent) (p : Task) (d : Agent) (title objective : String)
      → Steps R (delegate_to o p d title objective)
  unfolding delegate_to
  step-delegate_to none p d title objective = done _
  step-delegate_to (some r) p d title objective =
      step-create_task _ _ _ ⨾ λ _. Steps-announce _ _ _ _ _ _ ⨾ λ _. done _

  pub step-create_delegated_child :
      (p : Task) (d : Agent) (r : DelegateRole) (title objective : String)
      → Steps R (create_delegated_child p d r title objective)
  unfolding create_delegated_child
  step-create_delegated_child p d r title objective =
      Steps-list_all agents ⨾ λ _. Steps-lower ⨾ λ _. step-delegate_to _ _ _ _ _

-- ===== src/Relay/Effects/Agents.antt =====
-- The methods on agents, conversations and runs.
use noudle_agents.Relay.Effects.{IsKept-IsReader}
use noudle_agents.Relay.Effects.{
  IsReader, IsKept, ◌⨾◌, done, check, guard, Steps-new_id, Steps-announce, Steps-require,
  Steps-list_all, Steps-for_each, Steps-env_config, Steps-upper, Steps-choice, Steps-refuse,
}
use noudle_agents.Relay.Conversations.{
  check_present, validate_patch, check_agent, validate_agent_ids, check_actor, check_optional,
  insert_conversation, reuse_or_insert, create_conversation, update_conversation,
  delete_conversation,
}
use noudle_agents.Base.{String, Option, none, some, List, [], ◌∷◌}
use noudle_agents.Protocol.{
  CreateAgentInput, AgentPatch, Creator, Conversation, CreateConversationInput, ConversationPatch,
  Run, Agent, ConversationKind,
}
use noudle_agents.Repository.State.{EntityKind, agents, conversations, tasks, runs}
use noudle_agents.App.{World}
use noudle_agents.App.Steps.{Steps}
use noudle_agents.Relay.Agents.{create_agent, update_agent, leave_conversation, delete_agent}
use noudle_agents.Relay.Runs.{release_agent, interrupt_active, interrupt_run}
use noudle_agents.Relay.Clearing.{sole_member, clear_conversation}

module _ {ℓ} {R : World → World → Type ℓ} ⦃s : IsReader R⦄ where
  pub step-check_agent : (id : String) → Steps R (check_agent id)
  unfolding check_agent
  step-check_agent id = Steps-require agents _ ⨾ λ _. done _

  step-validate_agent_ids : (ids : List String) → Steps R (validate_agent_ids ids)
  unfolding validate_agent_ids
  step-validate_agent_ids ids = guard _ _ ⨾ λ _. Steps-for_each _ _ step-check_agent

  pub step-check_actor : (t : Creator) (a : String) → Steps R (check_actor t a)
  unfolding check_actor
  step-check_actor Creator.agent a = step-check_agent a
  step-check_actor Creator.user a = done _

  step-check_present : (k : EntityKind) (id : Option String) → Steps R (check_present k id)
  unfolding check_present
  step-check_present k none = done _
  step-check_present k (some id) = Steps-require k _ ⨾ λ _. done _

  pub step-check_optional : (k : EntityKind) (id : Option String) → Steps R (check_optional k id)
  unfolding check_optional
  step-check_optional k id = step-check_present k _

module _ {ℓ} {R : World → World → Type ℓ} ⦃s : IsKept R⦄ where
  pub step-create_agent :
      (i : CreateAgentInput) (t : Creator) (a : String) → Steps R (create_agent i t a)
  unfolding create_agent
  step-create_agent i t a = s.tick ⨾ λ _. Steps-new_id _ ⨾ λ _. Steps-env_config ⨾ λ _.
      Steps-upper ⨾ λ _.
      check _ _ ⨾ λ _. s.write agents _ ⨾ λ _. Steps-announce _ _ _ _ _ _ ⨾ λ _. done _

  pub step-update_agent :
      (id : String) (p : AgentPatch) (t : Creator) (a : String) → Steps R (update_agent id p t a)
  unfolding update_agent
  step-update_agent id p t a = Steps-require agents _ ⨾ λ _. s.tick ⨾ λ _.
      check _ _ ⨾ λ _. s.write agents _ ⨾ λ _. Steps-announce _ _ _ _ _ _ ⨾ λ _. done _

  step-leave_conversation :
      (id : String) (t : Creator) (a : String) (c : Conversation)
      → Steps R (leave_conversation id t a c)
  unfolding leave_conversation
  step-leave_conversation id t a c =
      Steps-choice _ _ _ (s.erase conversations _ ⨾ λ _. Steps-announce _ _ _ _ _ _)
        (s.tick ⨾ λ _. check _ _ ⨾ λ _. s.write conversations _ ⨾ λ _. Steps-announce _ _ _ _ _ _)

  pub step-delete_agent : (id : String) (t : Creator) (a : String) → Steps R (delete_agent id t a)
  unfolding delete_agent
  step-delete_agent id t a = Steps-require agents _ ⨾ λ _. Steps-list_all tasks ⨾ λ _.
      Steps-list_all runs ⨾ λ _. Steps-list_all conversations ⨾ λ _. guard _ _ ⨾ λ _.
      guard _ _ ⨾ λ _. Steps-for_each _ _ (step-leave_conversation id t a) ⨾ λ _.
      s.erase agents _ ⨾ λ _. Steps-announce _ _ _ _ _ _

  step-insert_conversation :
      (i : CreateConversationInput) (t : Creator) (a : String) → Steps R (insert_conversation i t a)
  unfolding insert_conversation
  step-insert_conversation i t a = s.tick ⨾ λ _. Steps-new_id _ ⨾ λ _. Steps-env_config ⨾ λ _.
      check _ _ ⨾ λ _. s.write conversations _ ⨾ λ _. Steps-announce _ _ _ _ _ _ ⨾ λ _. done _

  step-reuse_or_insert :
      (o : Option Conversation) (i : CreateConversationInput) (t : Creator) (a : String)
      → Steps R (reuse_or_insert o i t a)
  unfolding reuse_or_insert
  step-reuse_or_insert none i t a = step-insert_conversation i t a
  step-reuse_or_insert (some c) i t a = done _

  pub step-create_conversation :
      (i : CreateConversationInput) (t : Creator) (a : String) → Steps R (create_conversation i t a)
  unfolding create_conversation
  step-create_conversation i t a = step-validate_agent_ids _ ⨾ λ _. step-check_optional _ _ ⨾ λ _.
      Steps-list_all conversations ⨾ λ _. step-reuse_or_insert _ _ _ _

  step-validate_patch : (ids : Option (List String)) → Steps R (validate_patch ids)
  unfolding validate_patch
  step-validate_patch none = done _
  step-validate_patch (some ids) = step-validate_agent_ids ids

  pub step-update_conversation :
      (id : String) (p : ConversationPatch) (t : Creator) (a : String)
      → Steps R (update_conversation id p t a)
  unfolding update_conversation
  step-update_conversation id p t a = step-check_actor _ _ ⨾ λ _.
      Steps-require conversations _ ⨾ λ _. step-validate_patch _ ⨾ λ _. s.tick ⨾ λ _.
      check _ _ ⨾ λ _. s.write conversations _ ⨾ λ _. Steps-announce _ _ _ _ _ _ ⨾ λ _. done _

  pub step-delete_conversation :
      (id : String) (t : Creator) (a : String) → Steps R (delete_conversation id t a)
  unfolding delete_conversation
  step-delete_conversation id t a = step-check_actor _ _ ⨾ λ _. Steps-require conversations _ ⨾ λ _.
      Steps-list_all runs ⨾ λ _.
      guard _ _ ⨾ λ _. s.erase conversations _ ⨾ λ _. Steps-announce _ _ _ _ _ _

  step-release_agent : (r : Run) (a : Agent) → Steps R (release_agent r a)
  unfolding release_agent
  step-release_agent r a =
      Steps-choice _ _ _ (Steps-env_config ⨾ λ _. step-update_agent _ _ _ _ ⨾ λ _. done _) (done _)

  step-interrupt_active : (id : String) (r : Run) → Steps R (interrupt_active id r)
  unfolding interrupt_active
  step-interrupt_active id r = s.call_abort _ ⨾ λ _. s.tick ⨾ λ _. check _ _ ⨾ λ _.
      s.write runs _ ⨾ λ _. Steps-env_config ⨾ λ _. Steps-announce _ _ _ _ _ _ ⨾ λ _.
      Steps-require agents _ ⨾ λ _. step-release_agent _ _ ⨾ λ _. done _

  pub step-interrupt_run : (id : String) → Steps R (interrupt_run id)
  unfolding interrupt_run
  step-interrupt_run id =
      Steps-require runs _ ⨾ λ _. Steps-choice _ _ _ (step-interrupt_active _ _) (done _)

  step-sole_member : (k : ConversationKind) (ids : List String) → Steps R (sole_member k ids)
  unfolding sole_member
  step-sole_member ConversationKind.direct (a ∷ []) = done _
  step-sole_member _ _ = Steps-refuse _

  pub step-clear_conversation :
      (id : String) (t : Creator) (a : String) → Steps R (clear_conversation id t a)
  unfolding clear_conversation
  step-clear_conversation id t a = guard _ _ ⨾ λ _. Steps-require conversations _ ⨾ λ _.
      step-sole_member _ _ ⨾ λ _. Steps-list_all runs ⨾ λ _.
      Steps-for_each _ _ (λ r. step-interrupt_run r.id ⨾ λ _. done _) ⨾ λ _.
      step-delete_conversation _ _ _ ⨾ λ _.
      step-update_agent _ _ _ _ ⨾ λ _. step-create_conversation _ _ _

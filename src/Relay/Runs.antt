-- ===== src/Relay/Runs.antt =====
-- `interruptRun`.
use noudle_agents.Base.{
  String, Option, none, some, [], ◌∷◌, Bool, true, false, not, ◌||◌, same_option, if◌then◌else◌,
}
use noudle_agents.Protocol.{
  Agent, AgentStatus, AgentPatch, Run, RunStatus, Creator, EventType, Value, parse_run, is_active,
}
use noudle_agents.Repository.State.{EntityKind}
use noudle_agents.Repository.Entities
use noudle_agents.Relay.Events.{announce}
use noudle_agents.Relay.Lookup.{get_agent, get_run}
use noudle_agents.Relay.Agents.{update_agent}
use noudle_agents.App.{App, abort, config, now, parsed, pure, ◌>>=◌, ◌>>◌}

abbrev is_idle : AgentStatus → Bool
is_idle AgentStatus.idle = true
is_idle _ = false

-- The patch `{ status: "idle" }`, and with `codexThreadId: null`.
abbrev pub idle_patch : Option (Option String) → AgentPatch
idle_patch thread = record {
  name = none;
  role = none;
  description = none;
  instructions = none;
  avatar = none;
  color = none;
  capabilities = none;
  status = some AgentStatus.idle;
  codex_thread_id = thread;
}

unfoldable pub release_agent : Run → Agent → App (Unit {0})
release_agent run agent =
    if same_option agent.current_task_id run.task_id || not (is_idle agent.status)
    then (do c ← config; update_agent agent.id (idle_patch none) Creator.user c.owner_id; pure tt)
    else pure tt

unfoldable pub interrupt_active : String → Run → App Run
interrupt_active id current = do
  abort id
  at ← now
  run ← parsed (
      parse_run (record current {
        status = RunStatus.interrupted;
        completed_at = some at;
        updated_at = at;
      }))
  Entities.put EntityKind.runs run
  c ← config
  announce "run" run.id EventType.run_interrupted (("run", Value.run run) ∷ []) Creator.user
      c.owner_id
  agent ← get_agent run.agent_id
  release_agent run agent
  pure run

unfoldable pub interrupt_run : String → App Run
interrupt_run id = do
  current ← get_run id
  if is_active current.status then interrupt_active id current else pure current

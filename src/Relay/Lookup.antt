-- ===== src/Relay/Lookup.antt =====
-- The `get…` and `list…` methods.
use noudle_agents.Base.{String, List}
use noudle_agents.Protocol.{Agent, Conversation, Task, Run, Approval}
use noudle_agents.Repository.State.{EntityKind, EntityMap}
use noudle_agents.Repository.Entities
use noudle_agents.App.{App, config, or_throw, not_found, ◌>>=◌}

-- `(await this.repository.get(kind, id)) ?? Promise.reject(notFound(…))`.
unfoldable pub require : (k : EntityKind) → String → App (EntityMap k)
require k id = do found ← Entities.get k id; or_throw not_found found

-- `this.repository.list(kind, this.config.workspaceId)`.
unfoldable pub list_all : (k : EntityKind) → App (List (EntityMap k))
list_all k = do c ← config; Entities.list k c.workspace_id

abbrev pub get_agent : String → App Agent
get_agent id = require EntityKind.agents id

abbrev pub list_agents : App (List Agent)
list_agents = list_all EntityKind.agents

abbrev pub get_conversation : String → App Conversation
get_conversation id = require EntityKind.conversations id

abbrev pub list_conversations : App (List Conversation)
list_conversations = list_all EntityKind.conversations

abbrev pub get_task : String → App Task
get_task id = require EntityKind.tasks id

abbrev pub list_tasks : App (List Task)
list_tasks = list_all EntityKind.tasks

abbrev pub get_run : String → App Run
get_run id = require EntityKind.runs id

abbrev pub list_runs : App (List Run)
list_runs = list_all EntityKind.runs

abbrev pub get_approval : String → App Approval
get_approval id = require EntityKind.approvals id

abbrev pub list_approvals : App (List Approval)
list_approvals = list_all EntityKind.approvals

-- ===== src/Repository/Commit.antt =====
-- `commitMessageRun`: a message, its run and its job are stored once for an idempotency key.
pub mod Replay
use noudle_agents.Base.{String, Option, none, some, List, [], Bool, true, false}
use noudle_agents.Base.Map
use noudle_agents.Base.Text
use noudle_agents.Protocol.{Message, Run, QueueJob, NewEvent, RelayEvent}
use noudle_agents.Repository.State.{EntityKind, IdempotentMessageResult}
use noudle_agents.Repository.Entities.{put}
use noudle_agents.Repository.EventLog.{append_events}
use noudle_agents.Repository.Jobs.{enqueue}
use noudle_agents.App.{App, gets, modify, pure, ◌>>=◌, ◌>>◌}

pub record MessageRunCommit : Type 0 where
  pub message : Message
  pub run : Run
  pub job : QueueJob
  pub idempotency_key : String
  pub events : List NewEvent

pub record MessageRunCommitResult : Type 0 where
  pub message : Message
  pub run_id : String
  pub created : Bool
  pub events : List RelayEvent

-- `${workspaceId}:send-message:${idempotencyKey}`.
unfoldable pub commit_key : String → String → String
commit_key workspace_id key = Text.append workspace_id (Text.append ":send-message:" key)

abbrev pub remember : MessageRunCommit → IdempotentMessageResult
remember input = record { message = input.message; run_id = input.run.id }

unfoldable pub commit_new : String → MessageRunCommit → App MessageRunCommitResult
commit_new key input = do
  put EntityKind.messages input.message
  put EntityKind.runs input.run
  enqueue input.job
  events ← append_events input.events
  modify (λ r. record r { idempotency = Map.set key (remember input) r.idempotency })
  pure (record { message = input.message; run_id = input.run.id; created = true; events = events })

unfoldable pub commit_found :
    Option IdempotentMessageResult → String → MessageRunCommit → App MessageRunCommitResult
commit_found (some old) key input =
    pure (record { message = old.message; run_id = old.run_id; created = false; events = [] })
commit_found none key input = commit_new key input

unfoldable pub commit_message_run : MessageRunCommit → App MessageRunCommitResult
commit_message_run input = do
  let key = commit_key input.message.workspace_id input.idempotency_key
  existing ← gets (λ w. Map.get key w.repo.idempotency)
  commit_found existing key input

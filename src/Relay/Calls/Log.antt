-- ===== src/Relay/Calls/Log.antt =====
-- What every series of calls does to the event log and to what the listeners hear.
use noudle_agents.App.{World, Env}
use noudle_agents.Base.{◌≡◌, sym, ap, ◌∙◌, Option, List, ◌++◌}
use noudle_agents.Protocol.{RelayEvent}
use noudle_agents.Repository.EventLog.Numbering.{IsLog}
use noudle_agents.Repository.Frames.{
  put-log, delete-log, now-log, random_uuid-log, abort-log, put_workspace-log,
}
use noudle_agents.Relay.Effects.{IsKept}
use noudle_agents.Relay.Effects.LogSteps.{LogStep, LogStep-IsPreorder, quiet, emit-LogStep}
use noudle_agents.Relay.Effects.Commits.{commit-LogStep}
use noudle_agents.Relay.Effects.Messages.{Resolves}
use noudle_agents.Relay.Messages.{Resolver}
use noudle_agents.Relay.Request.{Call}
use noudle_agents.Relay.Calls.{serve, serve-steps}

instance pub LogStep-IsKept : IsKept LogStep
LogStep-IsKept = record {
  reader = record {
    order = LogStep-IsPreorder;
    draw = quiet random_uuid-log;
    tick = quiet now-log;
    emits = emit-LogStep;
  };
  call_abort = λ id. quiet (abort-log id);
  write = λ k v. quiet (put-log k v);
  erase = λ k id. quiet (delete-log k id);
  save_workspace = λ v. quiet (put_workspace-log v);
  commits = commit-LogStep;
}

-- From a world whose log is numbered without gaps, and whose listeners have heard exactly the log,
-- any series of calls, failing or not, leads to such a world again, with the old log as the
-- beginning of the new one; the attachment service is taken to touch the log in no other way.
pub serve-IsLog :
    (o : Option Resolver) (h : Resolves LogStep o) (e : Env) (w : World) (cs : List Call)
    → IsLog w.repo
    → w.published ≡ w.repo.events
    → let w' = serve o e w cs in
      IsLog w'.repo
      × (w'.published ≡ w'.repo.events)
      × ((more : List RelayEvent) × (w'.repo.events ≡ w.repo.events ++ more))
serve-IsLog o h e w cs log heard =
    let s = serve-steps LogStep o h e w cs in
    (s.log log, s.heard ∙ ap (λ l. l ++ s.added) heard ∙ sym s.grown, (s.added, s.grown))

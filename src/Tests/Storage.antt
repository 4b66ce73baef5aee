-- ===== src/Tests/Storage.antt =====
-- The properties of the repository, applied to small repositories.
use noudle_agents.Base.{
  keep, not, ◌≡◌, ◌≢◌, ◌⊎◌, refl, String, none, some, List, [], ◌∷◌, ◌++◌, true, false, ◌==◌, arith,
}
use noudle_agents.Base.Map
use noudle_agents.Base.Map.{values}
use noudle_agents.Protocol.{Message, Agent}
use noudle_agents.Repository.State.{EntityKind, create_memory_state, Repository}
use noudle_agents.Repository.Entities.{get, put, put_over, delete, other_workspace}
use noudle_agents.Repository.Entities.Writing.{
  Belongs, Written, put-get, delete-get, delete-messages,
}
use noudle_agents.Repository.EventLog.{
  events_after, all_after, push, stamp, append_events, last_sequence,
}
use noudle_agents.Repository.EventLog.Numbering.{IsLog, push-IsLog, create_memory_state-IsLog}
use noudle_agents.Repository.EventLog.Paging.{paging}
use noudle_agents.Repository.Commit.{commit_message_run, commit_key, commit_found, commit_new}
use noudle_agents.Repository.Commit.Replay.{commit_replay}
use noudle_agents.Repository.Jobs.{
  claim, locked, next_job, claimable, lock_next, write_job, enqueue,
}
use noudle_agents.Repository.Jobs.Exclusion.{claim-claim}
use noudle_agents.Repository.ScheduleClaims.{claim_due_schedule, next_due, due, lock_due}
use noudle_agents.Repository.ScheduleClaims.Exclusion.{claim_exclusive}
use noudle_agents.App.{World, ok, err, now, ◌>>=◌}
use noudle_agents.Tests.Samples.{
  env, world, empty_world, agent, conversation, message, job, schedule, commit, agent_event,
}

abbrev once : Repository
once = push (stamp (agent_event 1).event "evt_0" 1 create_memory_state) create_memory_state

abbrev twice : Repository
twice = push (stamp (agent_event 1).event "evt_1" 2 once) once

twice-IsLog : IsLog twice
twice-IsLog = push-IsLog _ _ _ once (push-IsLog _ _ _ create_memory_state create_memory_state-IsLog)

paging_example :
    events_after "ws" 0 1 twice.events ++ all_after "ws" 1 twice.events
    ≡ all_after "ws" 0 twice.events
unfolding events_after stamp last_sequence
paging_example = paging "ws" 0 1 twice twice-IsLog

committed :
    (commit_message_run (commit "m1") env empty_world).0
    ≡ ok (record { message = message "m1" "c1"; run_id = "r1"; created = true; events = [] })
unfolding commit_message_run commit_key commit_found commit_new put put_over enqueue append_events
    write_job ◌>>=◌ Map.get Map.set
committed = refl

commit_replay_example :
    commit_message_run (commit "m2") env (commit_message_run (commit "m1") env empty_world).1 ≡ (
      ok (record { message = message "m1" "c1"; run_id = "r1"; created = false; events = [] }),
      (commit_message_run (commit "m1") env empty_world).1,
    )
commit_replay_example =
    commit_replay (commit "m1") (commit "m2") env empty_world
      (commit_message_run (commit "m1") env empty_world).1
      (record { message = message "m1" "c1"; run_id = "r1"; created = true; events = [] }) committed
      refl refl refl

abbrev queued : World
queued = world (record create_memory_state { jobs = ("j1", job "j1") ∷ ("j2", job "j2") ∷ [] })

abbrev kinds : List String
kinds = "agent.run" ∷ []

claimed : (claim "ws" "w1" kinds env queued).0 ≡ ok (some (locked "w1" 1000 (job "j1")))
unfolding claim next_job claimable lock_next write_job now ◌>>=◌ Map.get Map.set
claimed = refl

-- Later, when another job has been put into the queue.
abbrev later : World
later =
    record (world (record create_memory_state {
      jobs = ("j1", locked "w1" 1000 (job "j1")) ∷ ("j3", job "j3") ∷ ("j2", job "j2") ∷ [];
    })) { ticks = 1 }

claimed_next : (claim "ws" "w2" kinds env later).0 ≡ ok (some (locked "w2" 1001 (job "j3")))
unfolding claim next_job claimable lock_next write_job locked now ◌>>=◌ Map.get Map.set
claimed_next = refl

claim-claim_example : (locked "w2" 1001 (job "j3")).id ≢ (locked "w1" 1000 (job "j1")).id
unfolding Map.get locked
claim-claim_example =
    claim-claim "ws" "w1" "ws" "w2" kinds kinds env queued later (locked "w1" 1000 (job "j1"))
      (locked "w2" 1001 (job "j3")) claimed (refl, refl, (refl, refl, (refl, refl, tt))) refl
      (omega arith) claimed_next

abbrev scheduled : World
scheduled =
    world (record create_memory_state {
      schedules = ("s1", schedule "s1") ∷ ("s2", schedule "s2") ∷ [];
    })

first_due : (claim_due_schedule "ws" "w1" 1000 env scheduled).0 ≡ ok (some (schedule "s1"))
unfolding claim_due_schedule next_due due lock_due ◌>>=◌ Map.get Map.set
first_due = refl

second_due :
    (claim_due_schedule "ws" "w2" 2000 env (claim_due_schedule "ws" "w1" 1000 env scheduled).1).0
    ≡ ok (some (schedule "s2"))
unfolding claim_due_schedule next_due due lock_due ◌>>=◌ Map.get Map.set
second_due = refl

claim_exclusive_example : (schedule "s2").id ≢ (schedule "s1").id
claim_exclusive_example =
    claim_exclusive "ws" "w1" "w2" 1000 2000 env scheduled
      (claim_due_schedule "ws" "w1" 1000 env scheduled).1 (schedule "s1") (schedule "s2") first_due
      refl (omega arith) second_due

abbrev stored : World
stored = world (record create_memory_state {
  agents = ("a1", agent "a1") ∷ [];
  conversations = ("c1", conversation "c1" ("a1" ∷ [])) ∷ [];
  messages = ("m1", message "m1" "c1") ∷ ("m2", message "m2" "c2") ∷ [];
})

put-get_example :
    (((put EntityKind.agents (agent "a1") env stored).0 ≡ ok tt)
      × Belongs EntityKind.agents (agent "a1") (Map.get "a1" stored.repo.agents)
      × Written EntityKind.agents
          (agent "a1")
          env
          stored
          (put EntityKind.agents (agent "a1") env stored).1)
    ⊎ ((put EntityKind.agents (agent "a1") env stored ≡ (err other_workspace, stored))
        × ((old : Agent) × ((get EntityKind.agents "a1" env stored).0 ≡ ok (some old))
            × ((old.workspace_id == "ws") ≡ false)))
put-get_example = put-get EntityKind.agents (agent "a1") env stored

delete-get_example :
    (get EntityKind.agents "a1" env (delete EntityKind.agents "a1" env stored).1).0 ≡ ok none
delete-get_example = delete-get EntityKind.agents "a1" "a1" env stored

delete-messages_example :
    values (delete EntityKind.conversations "c1" env stored).1.repo.messages
    ≡ keep (λ (m : Message). not (m.conversation_id == "c1")) (values stored.repo.messages)
delete-messages_example = delete-messages "c1" env stored

-- ===== src/Tests/Service.antt =====
-- The properties of the service, applied to a small workspace.
use noudle_agents.Relay.Tasks.{
  update_task, delegate_task, block_task, complete_task, create_task, no_patch,
}
use noudle_agents.Relay.Tasks.Forest.{update_task-IsForest}
use noudle_agents.Relay.Tasks.Creation.{IsFresh, create_task-IsForest}
use noudle_agents.Protocol.{DelegateTaskInput, Task}
use noudle_agents.Base.{◌≢◌, zero, suc}
use noudle_agents.Tests.Samples.{child_input}
use noudle_agents.App.{random_uuid, now, publish, World, ok, err, conflict, ◌>>=◌}
use noudle_agents.Repository.Entities.{put_over, put}
use noudle_agents.Protocol.{ApprovalStatus, parse_approval, Creator, RelayEvent}
use noudle_agents.Relay.Hierarchy.Forest.{Clear, IsForest, Fits, set-IsForest}
use noudle_agents.Base.{
  ℕ, ◌≡◌, ◌⊎◌, ◌++◌, refl, sym, ap, ◌∙◌, true, ◌==◌, eq_iff, arith, Bool-cases, inl, inr, String,
  none, some, List, [], ◌∷◌, truthy,
}
use noudle_agents.Base.Map
use noudle_agents.Base.Text
use noudle_agents.Repository.State.{create_memory_state}
use noudle_agents.Repository.Entities
use noudle_agents.Repository.EventLog.Numbering.{IsLog, create_memory_state-IsLog}
use noudle_agents.Relay.Request.{Call}
use noudle_agents.Relay.Events.{announce, emit, new_event}
use noudle_agents.Repository.EventLog.{append_event, stamp, last_sequence}
use noudle_agents.Relay.Calls.{serve}
use noudle_agents.Relay.Calls.Log.{serve-IsLog}
use noudle_agents.Relay.Lookup.{require, list_all}
use noudle_agents.Relay.Hierarchy.{validate_parent, validate_some, validate_under, climb, follow}
use noudle_agents.Relay.Hierarchy.Validation.{IsPlace, validate_parent_sound}
use noudle_agents.Relay.Hierarchy.Ending.{IsEnd, validate_parent-IsEnd}
use noudle_agents.App.Holds.{Holds}
use noudle_agents.Relay.Tasks.Single.{tables}
use noudle_agents.Relay.Tasks.Ended.{complete_task-delegate_task}
use noudle_agents.Protocol.{TaskStatus, parse_task}
use noudle_agents.Relay.Conversations.{check_agent}
use noudle_agents.Relay.Tasks.Transitions.{
  IsDelegation, IsCompletion, IsBlocking, delegate_task-IsDelegation, complete_task-IsCompletion,
  block_task-IsBlocking,
}
use noudle_agents.Relay.Approvals.{Decision, resolve_approval, write_decision}
use noudle_agents.Relay.Approvals.Once.{IsResolution, resolve-resolve}
use noudle_agents.Tests.Samples.{env, world, empty_world, agent_input, task, agent, approval}

abbrev calls : List Call
calls =
    Call.create_agent agent_input Creator.user "owner"
    ∷ Call.delete_agent "nobody" Creator.user "owner"
    ∷ Call.create_agent agent_input Creator.user "owner"
    ∷ []

serve-IsLog_example :
    let w' = serve none env empty_world calls in
    IsLog w'.repo
    × (w'.published ≡ w'.repo.events)
    × ((more : List RelayEvent) × (w'.repo.events ≡ [] ++ more))
serve-IsLog_example = serve-IsLog none tt env empty_world calls create_memory_state-IsLog refl

some-injective : (t u : Task) → some t ≡ some u → t ≡ u
some-injective t u h = cc

no_task-IsForest : IsForest []
unfolding Map.get
no_task-IsForest = record { keyed = λ id t h. absurd cc; rooted = λ id t h. absurd cc }

abbrev planned : World
planned = world (record create_memory_state {
  tasks = Map.set "t2" (task "t2" (some "t1") 1) (Map.set "t1" (task "t1" none 0) []);
})

one_task-IsForest : IsForest (Map.set "t1" (task "t1" none 0) [])
one_task-IsForest = set-IsForest (task "t1" none 0) no_task-IsForest refl (Fits.top refl)

found_root : Map.get "t1" (Map.set "t1" (task "t1" none 0) []) ≡ some (task "t1" none 0)
unfolding Map.get Map.set
found_root = refl

planned-IsForest : IsForest planned.repo.tasks
planned-IsForest =
    set-IsForest (task "t2" (some "t1") 1) one_task-IsForest refl
      (Fits.below refl (Clear.root refl found_root refl))

placed : (validate_parent (some "t3") (some "t2") none env planned).0 ≡ ok 2
unfolding validate_parent validate_some validate_under climb follow require list_all Entities.get
    Entities.list ◌>>=◌ Map.get Map.set
placed = refl

validate_parent_sound_example :
    ((truthy (some "t2") ≡ none) × (◌≡◌ {A = ℕ} 2 0))
    ⊎ ((p : String) × (truthy (some "t2") ≡ some p)
        × IsPlace env planned.repo.tasks (some "t3") p 2)
validate_parent_sound_example =
    validate_parent_sound env planned (some "t3") (some "t2") none 2 planned-IsForest placed

-- Two tasks, each the other's parent.
abbrev tangled : World
tangled = world (record create_memory_state {
  tasks = ("t1", task "t1" (some "t2") 0) ∷ ("t2", task "t2" (some "t1") 1) ∷ [];
})

tangled_keyed : (id : String) (t : Task) → Map.get id tangled.repo.tasks ≡ some t → t.id ≡ id
unfolding Map.get
tangled_keyed id t h = elim (Bool-cases ("t1" == id)) [
  | inl a ↦ ap (λ (u : Task). u.id) (some-injective _ _ (sym (rw a at h))) ∙ (eq_iff "t1" id).0 a
  | inr a ↦ elim (Bool-cases ("t2" == id)) [
    | inl b ↦
        ap (λ (u : Task). u.id) (some-injective _ _ (sym (rw (a, b) at h))) ∙ (eq_iff "t2" id).0 b
    | inr b ↦ absurd (ground arith)
  ]
]

validate_parent-IsEnd_example :
    IsEnd tangled.repo.tasks
      (truthy (some "t2"))
      (validate_parent none (some "t2") none env tangled).0
validate_parent-IsEnd_example =
    validate_parent-IsEnd env tangled none (some "t2") none (record { keyed = tangled_keyed })

abbrev asked : World
asked = world (record create_memory_state { approvals = ("p1", approval) ∷ [] })

resolved :
    (resolve_approval "p1" Decision.approve env asked).0
    ≡ ok (record approval { status = ApprovalStatus.approved; decided_at = some 1001 })
unfolding resolve_approval write_decision parse_approval put put_over require announce emit
    append_event publish new_event stamp now random_uuid Entities.get ◌>>=◌ Map.get Map.set
    Text.utf16_length
resolved = refl

resolve-resolve_example :
    IsResolution env asked "p1" Decision.approve
      (record approval { status = ApprovalStatus.approved; decided_at = some 1001 })
      (resolve_approval "p1" Decision.approve env asked).1
    × (resolve_approval "p1" Decision.deny env (resolve_approval "p1" Decision.approve env asked).1
        ≡ (
          err (conflict "approval_resolved"),
          (resolve_approval "p1" Decision.approve env asked).1,
        ))
resolve-resolve_example =
    resolve-resolve "p1" Decision.approve Decision.deny env asked
      (resolve_approval "p1" Decision.approve env asked).1
      (record approval { status = ApprovalStatus.approved; decided_at = some 1001 }) resolved refl

update_task-IsForest_example :
    IsForest
      (update_task "t2"
        (record no_patch { parent_task_id = some none })
        Creator.user
        "owner"
        env
        planned).1.repo.tasks
update_task-IsForest_example =
    update_task-IsForest "t2" (record no_patch { parent_task_id = some none }) Creator.user "owner"
      env planned planned-IsForest

abbrev delegation : DelegateTaskInput
delegation = record { agent_id = "a1"; message = "Please"; context_refs = [] }

abbrev staffed : World
staffed = world (record create_memory_state {
  agents = Map.set "a1" (agent "a1") [];
  tasks = Map.set "t1" (task "t1" none 0) [];
})

delegate_task-IsDelegation_example :
    Holds
      (IsDelegation staffed "t1" "a1")
      (λ w. tables w ≡ tables staffed)
      (delegate_task "t1" delegation Creator.user "owner" env staffed)
delegate_task-IsDelegation_example =
    delegate_task-IsDelegation "t1" delegation Creator.user "owner" env staffed

complete_task-IsCompletion_example :
    Holds
      (IsCompletion staffed "t1" "Done")
      (λ w. tables w ≡ tables staffed)
      (complete_task "t1" "Done" [] [] "a1" env staffed)
complete_task-IsCompletion_example = complete_task-IsCompletion "t1" "Done" [] [] "a1" env staffed

block_task-IsBlocking_example :
    Holds
      (IsBlocking staffed "t1" "No key" true)
      (λ w. tables w ≡ tables staffed)
      (block_task "t1" "No key" true "a1" env staffed)
block_task-IsBlocking_example = block_task-IsBlocking "t1" "No key" true "a1" env staffed

-- The task, completed at the second reading of the clock.
abbrev completed : Task
completed = record (task "t1" none 0) {
  status = TaskStatus.completed;
  blocker = none;
  result_summary = some "Done";
  updated_at = 1000;
}

completed-returns : (complete_task "t1" "Done" [] [] "a1" env staffed).0 ≡ ok completed
unfolding complete_task ◌>>=◌ check_agent require Entities.get Map.get Map.set now parse_task
    Text.utf16_length Text.trim put put_over announce new_event emit append_event random_uuid
    publish Map.delete last_sequence stamp
completed-returns = refl

complete_task-delegate_task_example :
    (delegate_task "t1" delegation Creator.user "owner" env
      (complete_task "t1" "Done" [] [] "a1" env staffed).1).0
    ≢ ok completed
complete_task-delegate_task_example =
    complete_task-delegate_task "t1" "Done" [] [] "a1" delegation Creator.user "owner" env staffed
      (complete_task "t1" "Done" [] [] "a1" env staffed).1 completed completed completed-returns
      refl

env-IsFresh : IsFresh env planned.repo.tasks
unfolding Map.get Map.set
env-IsFresh zero = refl
env-IsFresh (suc zero) = refl
env-IsFresh (suc (suc zero)) = refl
env-IsFresh (suc (suc (suc n))) = refl

create_task-IsForest_example :
    IsForest (create_task child_input Creator.user "owner" env planned).1.repo.tasks
create_task-IsForest_example =
    create_task-IsForest child_input Creator.user "owner" env planned planned-IsForest env-IsFresh

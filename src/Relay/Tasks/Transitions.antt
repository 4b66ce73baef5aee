-- ===== src/Relay/Tasks/Transitions.antt =====
-- What `delegateTask`, `completeTask` and `blockTask` make of a stored task, and what they leave alone
-- when they throw.
use noudle_agents.Base.{
  ◌≡◌, ◌⊎◌, refl, sym, ap, ◌∙◌, String, none, some, Bool, false, List, ◌&&◌, not, inl, inr,
  if◌then◌else◌,
}
use noudle_agents.Base.Map
use noudle_agents.Base.Map.{Map}
use noudle_agents.Protocol.{
  Task, Agent, TaskStatus, DelegateTaskInput, Creator, is_terminal, parse_task-trimmed,
}
use noudle_agents.Repository.State.{EntityKind}
use noudle_agents.Relay.Effects.{Steps-require, Steps-announce, guard, check}
use noudle_agents.Relay.Effects.Agents.{step-check_agent, step-check_actor, step-check_optional}
use noudle_agents.Relay.Effects.Tasks.{step-validate_parent, step-updated_depth}
use noudle_agents.Relay.Tasks.{delegate_task, complete_task, block_task, update_task, is_completed}
use noudle_agents.Relay.Tasks.Keeping.{or_throw-some, require-some}
use noudle_agents.App.{World, Env, Failure}
use noudle_agents.App.Holds.{Holds}
use noudle_agents.Relay.Tasks.Single.{
  tables, tables-IsReader, throw_if-ok, require-agent, then_rest, then_put, announce-ok,
}

-- The stored task was delegated to the stored agent: it was not yet at its end, and all that changed
-- in the table is its entry.
pub record IsDelegation (u : World) (id agent_id : String) (t : Task) (w : World) : Type 0 where
  pub current : Task
  pub agent : Agent
  pub found : Map.get id u.repo.tasks ≡ some current
  pub staffed : Map.get agent_id u.repo.agents ≡ some agent
  pub unsettled : is_terminal current.status ≡ false
  pub status : t.status ≡ TaskStatus.accepted
  pub owner : t.owner_agent_id ≡ some agent.id
  pub same : t.id ≡ current.id
  pub written : w.repo.tasks ≡ Map.set t.id t u.repo.tasks

-- A delegation that returns was of a stored task that was not completed, failed or cancelled, to a
-- stored agent; the table of tasks then differs by the task's entry alone, which is accepted and owned
-- by the agent. One that throws leaves the tables of tasks and of agents as they were.
pub delegate_task-IsDelegation :
    (id : String) (i : DelegateTaskInput) (actor_type : Creator) (actor_id : String) (e : Env)
    (w : World)
    → Holds
        (IsDelegation w id i.agent_id)
        (λ w'. tables w' ≡ tables w)
        (delegate_task id i actor_type actor_id e w)
unfolding delegate_task
delegate_task-IsDelegation id i actor_type actor_id e w =
    let k = tables w in
    let P = IsDelegation w id i.agent_id in
    then_rest k P _ _ e w (step-check_actor actor_type actor_id) refl λ _ w1 s1 _.
      then_rest k P _ _ e w1 (Steps-require EntityKind.tasks id) s1 λ current w2 s2 i2.
        then_rest k P _ _ e w2 (Steps-require EntityKind.agents i.agent_id) s2 λ agent w3 s3 i3.
          then_rest k P _ _ e w3 (guard _ _) s3 λ _ w4 s4 i4.
            then_rest k P _ _ e w4 (step-validate_parent _ _ _) s4 λ _ w5 s5 _.
              then_rest k P _ _ e w5 tables-IsReader.tick s5 λ updated w6 s6 _.
                then_rest k P _ _ e w6 (check Failure.invalid _) s6 λ t w7 s7 i7.
                  let kept = parse_task-trimmed _ t (or_throw-some Failure.invalid _ t e w6 i7) in
                  then_put k P t _ e w7 s7 (Steps-announce _ _ _ _ _ _) (announce-ok _ _ _ _ _ _ e)
                    λ v stored. record {
                      current = current;
                      agent = agent;
                      found = sym (ap (λ p. Map.get id p.0) s1) ∙ require-some id current e w1 i2;
                      staffed =
                          sym (ap (λ p. Map.get i.agent_id p.1) s2)
                          ∙ require-agent i.agent_id agent e w2 i3;
                      unsettled = throw_if-ok _ _ _ e w3 i4;
                      status = ap (λ (u : Task). u.status) kept;
                      owner = ap (λ (u : Task). u.owner_agent_id) kept;
                      same = ap (λ (u : Task). u.id) kept;
                      written = stored;
                    }

-- The stored task was completed: it was not at its end, or completed before, and all that changed in
-- the table is its entry.
pub record IsCompletion (u : World) (id summary : String) (t : Task) (w : World) : Type 0 where
  pub current : Task
  pub found : Map.get id u.repo.tasks ≡ some current
  pub may_end : (is_terminal current.status ≡ false) ⊎ (current.status ≡ TaskStatus.completed)
  pub status : t.status ≡ TaskStatus.completed
  pub blocker : t.blocker ≡ none
  pub summed_up : t.result_summary ≡ some summary
  pub same : t.id ≡ current.id
  pub written : w.repo.tasks ≡ Map.set t.id t u.repo.tasks

may_complete :
    (s : TaskStatus)
    → (is_terminal s && not (is_completed s)) ≡ false
    → (is_terminal s ≡ false) ⊎ (s ≡ TaskStatus.completed)
may_complete TaskStatus.completed h = inr refl
may_complete TaskStatus.failed h = absurd cc
may_complete TaskStatus.cancelled h = absurd cc
may_complete TaskStatus.draft h = inl refl
may_complete TaskStatus.queued h = inl refl
may_complete TaskStatus.accepted h = inl refl
may_complete TaskStatus.running h = inl refl
may_complete TaskStatus.waiting_agent h = inl refl
may_complete TaskStatus.waiting_user h = inl refl
may_complete TaskStatus.blocked h = inl refl
may_complete TaskStatus.paused h = inl refl

-- A completion that returns was of a stored task that was not failed or cancelled; the table of
-- tasks then differs by the task's entry alone, which is completed, without a blocker, and has the
-- given summary. One that throws leaves the tables of tasks and of agents as they were.
pub complete_task-IsCompletion :
    (id summary : String) (xs ys : List String) (actor_id : String) (e : Env) (w : World)
    → Holds
        (IsCompletion w id summary)
        (λ w'. tables w' ≡ tables w)
        (complete_task id summary xs ys actor_id e w)
unfolding complete_task
complete_task-IsCompletion id summary xs ys actor_id e w =
    let k = tables w in
    let P = IsCompletion w id summary in
    then_rest k P _ _ e w (step-check_agent actor_id) refl λ _ w1 s1 _.
      then_rest k P _ _ e w1 (Steps-require EntityKind.tasks id) s1 λ current w2 s2 i2.
        then_rest k P _ _ e w2 (guard _ _) s2 λ _ w3 s3 i3.
          then_rest k P _ _ e w3 tables-IsReader.tick s3 λ updated w4 s4 _.
            then_rest k P _ _ e w4 (check Failure.invalid _) s4 λ t w5 s5 i5.
              let kept = parse_task-trimmed _ t (or_throw-some Failure.invalid _ t e w4 i5) in
              then_put k P t _ e w5 s5 (Steps-announce _ _ _ _ _ _) (announce-ok _ _ _ _ _ _ e)
                λ v stored. record {
                  current = current;
                  found = sym (ap (λ p. Map.get id p.0) s1) ∙ require-some id current e w1 i2;
                  may_end = may_complete current.status (throw_if-ok _ _ _ e w2 i3);
                  status = ap (λ (u : Task). u.status) kept;
                  blocker = ap (λ (u : Task). u.blocker) kept;
                  summed_up = ap (λ (u : Task). u.result_summary) kept;
                  same = ap (λ (u : Task). u.id) kept;
                  written = stored;
                }

-- The status of a task that is blocked, and what else was in its entry.
pub record IsBlocking (u : World) (id blocker : String) (needs_user : Bool) (t : Task) (w : World)
    : Type 0 where
  pub current : Task
  pub found : Map.get id u.repo.tasks ≡ some current
  pub status : t.status ≡ (if needs_user then TaskStatus.waiting_user else TaskStatus.blocked)
  pub blocker_of : t.blocker ≡ some blocker
  pub owner : t.owner_agent_id ≡ current.owner_agent_id
  pub parent : t.parent_task_id ≡ current.parent_task_id
  pub same : t.id ≡ current.id
  pub written : w.repo.tasks ≡ Map.set t.id t u.repo.tasks

-- Blocking that returns was of a stored task; the table of tasks then differs by the task's entry
-- alone, which waits for the user if it needs one and is blocked otherwise, has the given blocker, and
-- keeps its owner and its parent. Blocking that throws leaves the tables of tasks and of agents as
-- they were.
pub block_task-IsBlocking :
    (id blocker : String) (needs_user : Bool) (actor_id : String) (e : Env) (w : World)
    → Holds
        (IsBlocking w id blocker needs_user)
        (λ w'. tables w' ≡ tables w)
        (block_task id blocker needs_user actor_id e w)
unfolding block_task update_task
block_task-IsBlocking id blocker needs_user actor_id e w =
    let k = tables w in
    let P = IsBlocking w id blocker needs_user in
    then_rest k P _ _ e w (step-check_agent actor_id) refl λ _ w0 s0 _.
      then_rest k P _ _ e w0 (step-check_actor Creator.agent actor_id) s0 λ _ w1 s1 _.
        then_rest k P _ _ e w1 (Steps-require EntityKind.tasks id) s1 λ current w2 s2 i2.
          then_rest k P _ _ e w2 (step-check_optional EntityKind.agents none) s2 λ _ w3 s3 _.
            then_rest k P _ _ e w3 (step-check_optional EntityKind.conversations none) s3
              λ _ w4 s4 _.
                then_rest k P _ _ e w4 (step-updated_depth id current.parent_task_id current) s4
                  λ d w5 s5 _. then_rest k P _ _ e w5 (check Failure.invalid _) s5 λ b w6 s6 _.
                    then_rest k P _ _ e w6 tables-IsReader.tick s6 λ updated w7 s7 _.
                      then_rest k P _ _ e w7 (check Failure.invalid _) s7 λ t w8 s8 i8.
                        let kept =
                          parse_task-trimmed _ t (or_throw-some Failure.invalid _ t e w7 i8) in
                        then_put k P t _ e w8 s8 (Steps-announce _ _ _ _ _ _)
                          (announce-ok _ _ _ _ _ _ e)
                          λ v stored. record {
                            current = current;
                            found =
                                sym (ap (λ p. Map.get id p.0) s1) ∙ require-some id current e w1 i2;
                            status = ap (λ (u : Task). u.status) kept;
                            blocker_of = ap (λ (u : Task). u.blocker) kept;
                            owner = ap (λ (u : Task). u.owner_agent_id) kept;
                            parent = ap (λ (u : Task). u.parent_task_id) kept;
                            same = ap (λ (u : Task). u.id) kept;
                            written = stored;
                          }

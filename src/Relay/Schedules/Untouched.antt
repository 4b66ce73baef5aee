-- ===== src/Relay/Schedules/Untouched.antt =====
-- What leaves the schedules alone: storing something else, a commit, publishing.
use noudle_agents.Base.{
  String, ℕ, ◌≡◌, refl, Option, none, some, List, [], ◌∷◌, ◌==◌, Bool-cases, inl, inr,
}
use noudle_agents.Base.Map
use noudle_agents.Protocol.{QueueJob, Conversation, NewEvent, RelayEvent}
use noudle_agents.Repository.State.{
  EntityKind, EntityMap, Repository, IdempotentMessageResult, workspace_of,
}
use noudle_agents.Repository.Entities.{put, put_over, store}
use noudle_agents.Repository.EventLog.{append_event, append_events}
use noudle_agents.Repository.Commit.{MessageRunCommit, commit_message_run, commit_found, commit_new}
use noudle_agents.Repository.Jobs.{enqueue, write_job}
use noudle_agents.Relay.Events.{publish_all}
use noudle_agents.Relay.Effects.{done, ◌⨾◌, Steps-for_each, Steps-reads}
use noudle_agents.Relay.Schedules.Triggering.{touch_found}
use noudle_agents.Relay.Schedules.Keeping.{schedules_of, schedules-IsReader}
use noudle_agents.App.{random_uuid, now, modify, publish, ◌>>=◌}
use noudle_agents.App.Steps.{Steps, Fixes}

put_over-schedules :
    (k : EntityKind) (o : Option (EntityMap k)) (v : EntityMap k)
    → ((r : Repository) → (store k v r).schedules ≡ r.schedules)
    → Steps (Fixes schedules_of) (put_over k o v)
unfolding put_over
put_over-schedules k none v h = record { at = λ e w. h w.repo }
put_over-schedules k (some old) v h = elim (Bool-cases (workspace_of k old == workspace_of k v)) [
  | inl t ↦ rw t (record { at = λ e w. h w.repo })
  | inr t ↦ rw t (record { at = λ e w. refl })
]

put-schedules :
    (k : EntityKind) (v : EntityMap k)
    → ((r : Repository) → (store k v r).schedules ≡ r.schedules)
    → Steps (Fixes schedules_of) (put k v)
unfolding put
put-schedules k v h = record { at = λ e w. (put_over-schedules k _ v h).at e w }

append_event-schedules : (n : NewEvent) → Steps (Fixes schedules_of) (append_event n)
unfolding append_event ◌>>=◌ random_uuid now
append_event-schedules n = record { at = λ e w. refl }

append_events-schedules : (ns : List NewEvent) → Steps (Fixes schedules_of) (append_events ns)
unfolding append_events
append_events-schedules [] = done _
append_events-schedules (n ∷ ns) =
    append_event-schedules n ⨾ λ _. append_events-schedules ns ⨾ λ _. done _

enqueue-schedules : (j : QueueJob) → Steps (Fixes schedules_of) (enqueue j)
unfolding enqueue write_job
enqueue-schedules j = record { at = λ e w. refl }

remember-schedules :
    (key : String) (v : IdempotentMessageResult)
    → Steps
        (Fixes schedules_of)
        (modify (λ r. record r { idempotency = Map.set key v r.idempotency }))
remember-schedules key v = record { at = λ e w. refl }

commit_found-schedules :
    (o : Option IdempotentMessageResult) (key : String) (input : MessageRunCommit)
    → Steps (Fixes schedules_of) (commit_found o key input)
unfolding commit_found commit_new
commit_found-schedules (some old) key input = done _
commit_found-schedules none key input = put-schedules EntityKind.messages _ (λ r. refl) ⨾ λ _.
    put-schedules EntityKind.runs _ (λ r. refl) ⨾ λ _.
    enqueue-schedules _ ⨾ λ _. append_events-schedules _ ⨾ λ _. remember-schedules _ _ ⨾ λ _. done _

pub commit-schedules :
    (input : MessageRunCommit) → Steps (Fixes schedules_of) (commit_message_run input)
unfolding commit_message_run
commit-schedules input = Steps-reads _ ⨾ λ o. commit_found-schedules o _ input

pub step-publish_all : (es : List RelayEvent) → Steps (Fixes schedules_of) (publish_all es)
unfolding publish_all publish
step-publish_all es = Steps-for_each _ es (λ x. record { at = λ e w. refl })

pub step-touch_found :
    (at : ℕ) (o : Option Conversation) → Steps (Fixes schedules_of) (touch_found at o)
unfolding touch_found
step-touch_found at none = done _
step-touch_found at (some c) = put-schedules EntityKind.conversations _ (λ r. refl)

-- ===== src/Repository/Frames.antt =====
-- What the writes leave alone: the log and the listeners, unless an event is appended.
use noudle_agents.Base.{String, ℕ, ◌≡◌, refl, Option, none, some, List}
use noudle_agents.Base.Map
use noudle_agents.Protocol.{QueueJob, Workspace, RelayEvent}
use noudle_agents.Repository.State.{Repository, EntityKind, EntityMap, id_of, table}
use noudle_agents.Repository.Entities.{put, put_over, delete, store, put_workspace}
use noudle_agents.Repository.Jobs.{enqueue, write_job}
use noudle_agents.App.{World, modify, now, random_uuid, abort}
use noudle_agents.App.Steps.{Steps, Steps-if, Steps-throw, IsPreorder, Fixes, Fixes-IsPreorder}

-- The log, its cursor, and what was published.
abbrev pub log_of : World → List RelayEvent × ℕ × List RelayEvent
log_of w = (w.repo.events, w.repo.cursor, w.published)

abbrev order : IsPreorder (Fixes log_of)
order = Fixes-IsPreorder log_of

modify-log :
    (f : Repository → Repository)
    → ((r : Repository) → (f r).events ≡ r.events)
    → ((r : Repository) → (f r).cursor ≡ r.cursor)
    → Steps (Fixes log_of) (modify f)
modify-log f p q = record { at = λ e w i. (p w.repo i, q w.repo i, w.published) }

store-log : (k : EntityKind) (v : EntityMap k) → Steps (Fixes log_of) (modify (store k v))
store-log EntityKind.schedules v = modify-log _ (λ r. refl) (λ r. refl)
store-log EntityKind.agents v = modify-log _ (λ r. refl) (λ r. refl)
store-log EntityKind.conversations v = modify-log _ (λ r. refl) (λ r. refl)
store-log EntityKind.messages v = modify-log _ (λ r. refl) (λ r. refl)
store-log EntityKind.tasks v = modify-log _ (λ r. refl) (λ r. refl)
store-log EntityKind.runs v = modify-log _ (λ r. refl) (λ r. refl)
store-log EntityKind.approvals v = modify-log _ (λ r. refl) (λ r. refl)

put_over-log :
    (k : EntityKind) (o : Option (EntityMap k)) (v : EntityMap k)
    → Steps (Fixes log_of) (put_over k o v)
unfolding put_over
put_over-log k none v = store-log k v
put_over-log k (some old) v = Steps-if order _ _ _ (store-log k v) (Steps-throw order _)

pub put-log : (k : EntityKind) (v : EntityMap k) → Steps (Fixes log_of) (put k v)
unfolding put
put-log k v = record {
  at = λ e w. (put_over-log k (Map.get (id_of k v) (table k w.repo)) v).at e w;
}

pub delete-log : (k : EntityKind) (id : String) → Steps (Fixes log_of) (delete k id)
unfolding delete
delete-log EntityKind.agents id = record { at = λ e w. refl }
delete-log EntityKind.conversations id = record { at = λ e w. refl }
delete-log EntityKind.messages id = record { at = λ e w. refl }
delete-log EntityKind.tasks id = record { at = λ e w. refl }
delete-log EntityKind.runs id = record { at = λ e w. refl }
delete-log EntityKind.approvals id = record { at = λ e w. refl }
delete-log EntityKind.schedules id = record { at = λ e w. refl }

pub enqueue-log : (j : QueueJob) → Steps (Fixes log_of) (enqueue j)
unfolding enqueue write_job
enqueue-log j = record { at = λ e w. refl }

pub now-log : Steps (Fixes log_of) now
unfolding now
now-log = record { at = λ e w. refl }

pub random_uuid-log : Steps (Fixes log_of) random_uuid
unfolding random_uuid
random_uuid-log = record { at = λ e w. refl }

pub abort-log : (id : String) → Steps (Fixes log_of) (abort id)
unfolding abort
abort-log id = record { at = λ e w. refl }

pub put_workspace-log : (v : Workspace) → Steps (Fixes log_of) (put_workspace v)
unfolding put_workspace
put_workspace-log v = record { at = λ e w. refl }

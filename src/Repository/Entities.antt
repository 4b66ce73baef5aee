-- ===== src/Repository/Entities.antt =====
-- Workspaces and entities: `getWorkspace`, `putWorkspace`, `list`, `get`, `put`, `delete`.
-- `structuredClone` is the identity on values.
pub mod Writing
use noudle_agents.Base.{String, Option, none, some, List, Bool, if◌then◌else◌, ◌==◌, keep, sort_by}
use noudle_agents.Base.Map
use noudle_agents.Base.Map.{values}
use noudle_agents.Protocol.{Workspace, Message}
use noudle_agents.Repository.State.{
  Repository, EntityKind, EntityMap, id_of, workspace_of, created_of, table, set_table,
}
use noudle_agents.App.{App, ok, Failure, gets, modify, throw}

unfoldable pub get_workspace : String → App (Option Workspace)
get_workspace id = gets (λ w. Map.get id w.repo.workspace)

unfoldable pub put_workspace : Workspace → App (Unit {0})
put_workspace v = modify (λ r. record r { workspace = Map.set v.id v r.workspace })

unfoldable pub list : (k : EntityKind) → String → App (List (EntityMap k))
list k workspace_id = gets (λ w.
    sort_by (created_of k) (keep (λ v. workspace_of k v == workspace_id) (values (table k w.repo))))

unfoldable pub get : (k : EntityKind) → String → App (Option (EntityMap k))
get k id = gets (λ w. Map.get id (table k w.repo))

abbrev drop_lock : EntityKind → String → Repository → Repository
drop_lock EntityKind.schedules id r = record r { schedule_locks = Map.delete id r.schedule_locks }
drop_lock _ id r = r

-- The write of `put`, after its check.
abbrev pub store : (k : EntityKind) → EntityMap k → Repository → Repository
store k v r = drop_lock k (id_of k v) (set_table k (Map.set (id_of k v) v (table k r)) r)

abbrev pub other_workspace : Failure
other_workspace = Failure.thrown "Entity id already belongs to another workspace"

unfoldable pub put_over : (k : EntityKind) → Option (EntityMap k) → EntityMap k → App (Unit {0})
put_over k none v = modify (store k v)
put_over k (some old) v =
    if workspace_of k old == workspace_of k v then modify (store k v) else throw other_workspace

unfoldable pub put : (k : EntityKind) → EntityMap k → App (Unit {0})
put k v e w = put_over k (Map.get (id_of k v) (table k w.repo)) v e w

abbrev pub cascade : EntityKind → String → Repository → Repository
cascade EntityKind.conversations id r = record r {
  messages = Map.delete_where (λ (m : Message). m.conversation_id == id) r.messages;
}
cascade EntityKind.schedules id r = record r { schedule_locks = Map.delete id r.schedule_locks }
cascade _ id r = r

-- `delete`: the result says whether the entity was there.
unfoldable pub delete : EntityKind → String → App Bool
delete k id e w = (
  ok (Map.has_key id (table k w.repo)),
  record w { repo = cascade k id (set_table k (Map.delete id (table k w.repo)) w.repo) },
)

-- ===== src/Relay/Approvals.antt =====
-- `resolveApproval`.
pub mod Once
use noudle_agents.Base.{String, some, [], ◌∷◌, Bool, true, false, not, leb}
use noudle_agents.Protocol.{Approval, ApprovalStatus, Creator, EventType, Value, parse_approval}
use noudle_agents.Repository.State.{EntityKind}
use noudle_agents.Repository.Entities
use noudle_agents.Relay.Events.{announce}
use noudle_agents.Relay.Lookup.{get_approval}
use noudle_agents.App.{App, config, conflict, now, parsed, pure, throw_if, ◌>>=◌, ◌>>◌}

pub data Decision : Type 0 where
  approve deny : Decision

abbrev pub decided : Decision → ApprovalStatus
decided Decision.approve = ApprovalStatus.approved
decided Decision.deny = ApprovalStatus.denied

abbrev pub decision_text : Decision → String
decision_text Decision.approve = "approve"
decision_text Decision.deny = "deny"

abbrev pub is_pending : ApprovalStatus → Bool
is_pending ApprovalStatus.pending = true
is_pending _ = false

-- The part of `resolveApproval` after its checks.
unfoldable pub write_decision : Approval → Decision → App Approval
write_decision current decision = do
  decided_at ← now
  approval ←
      parsed (
        parse_approval (record current { status = decided decision; decided_at = some decided_at }))
  Entities.put EntityKind.approvals approval
  c ← config
  announce "approval" approval.id EventType.approval_resolved
      (("approval", Value.approval approval)
        ∷ ("decision", Value.text (decision_text decision))
        ∷ [])
      Creator.user c.owner_id
  pure approval

unfoldable pub resolve_approval : String → Decision → App Approval
resolve_approval id decision = do
  current ← get_approval id
  throw_if (not (is_pending current.status)) (conflict "approval_resolved")
  at ← now
  throw_if (leb current.expires_at at) (conflict "approval_expired")
  write_decision current decision

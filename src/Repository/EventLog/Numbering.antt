-- ===== src/Repository/EventLog/Numbering.antt =====
-- How `appendEvent` numbers events: the log's cursors count up from 1 without a gap, and so do the
-- sequence numbers of each aggregate.
use noudle_agents.Repository.State.{create_memory_state, Repository}
use mathlib.Core.List.{append-nil}
use noudle_agents.Base.{
  length-append, ℕ, suc, ◌+◌, ◌≡◌, refl, ◌∙◌, fun_ext, true, List, [], ◌∷◌, ◌++◌, arith, length,
  keep, keep-append, Counting, Counting-append, Counting-last?, Bool-cases, inl, inr, eq_iff,
  String,
}
use noudle_agents.Protocol.{NewEvent, RelayEvent}
use noudle_agents.Repository.EventLog.{same_aggregate, last_sequence, stamp, push}

pub record IsLog (r : Repository) : Type 0 where
  pub cursor_is_length : r.cursor ≡ length r.events
  pub cursors : Counting (λ (e : RelayEvent). e.cursor) 0 r.events
  pub sequences :
      (n : NewEvent)
      → Counting (λ (e : RelayEvent). e.sequence) 0 (keep (same_aggregate n) r.events)

-- Events of one aggregate have the same aggregate.
same_aggregate_trans :
    (n : NewEvent) (s c : RelayEvent)
    → same_aggregate n s ≡ true
    → same_aggregate n c ≡ same_aggregate s.event c
same_aggregate_trans n s c h = ground (
  arith,
  eq_iff s.workspace_id n.workspace_id,
  eq_iff s.aggregate_type n.aggregate_type,
  eq_iff s.aggregate_id n.aggregate_id,
)

last_sequence_lem :
    (n : NewEvent) (es : List RelayEvent)
    → Counting (λ (e : RelayEvent). e.sequence) 0 (keep (same_aggregate n) es)
    → last_sequence n es ≡ length (keep (same_aggregate n) es)
unfolding last_sequence
last_sequence_lem n es h = Counting-last? _ 0 (keep (same_aggregate n) es) h ∙ omega arith

-- The number that a new event gets is the next one in every aggregate that it belongs to.
stamp_next :
    (m : NewEvent) (id : String) (at : ℕ) (r : Repository) (n : NewEvent)
    → IsLog r
    → same_aggregate n (stamp m id at r) ≡ true
    → (stamp m id at r).sequence ≡ suc (0 + length (keep (same_aggregate n) r.events))
unfolding stamp
stamp_next m id at r n h same =
    let same_filter : same_aggregate n ≡ same_aggregate m =
      fun_ext (λ c. same_aggregate_trans n (stamp m id at r) c same) in
    rw same_filter (omega (arith, last_sequence_lem m r.events (h.sequences m)))

push-sequences :
    (m : NewEvent) (id : String) (at : ℕ) (r : Repository)
    → IsLog r
    → (n : NewEvent)
    → Counting
        (λ (e : RelayEvent). e.sequence)
        0
        (keep (same_aggregate n) (r.events ++ stamp m id at r ∷ []))
push-sequences m id at r h n =
    rw keep-append (elim (Bool-cases (same_aggregate n (stamp m id at r))) [
      | inl same ↦ rw same (
          Counting-append _ 0 (keep (same_aggregate n) r.events) _ (h.sequences n)
            (stamp_next m id at r n h same))
      | inr other ↦ rw (other, append-nil) (h.sequences n)
    ])

-- Storing a stamped event keeps the numbering.
pub push-IsLog :
    (n : NewEvent) (id : String) (at : ℕ) (r : Repository)
    → IsLog r
    → IsLog (push (stamp n id at r) r)
push-IsLog n id at r h = record {
  cursor_is_length = omega (arith, h.cursor_is_length, length-append {0} r.events);
  cursors =
      Counting-append _ 0 r.events _ h.cursors (unfold stamp in omega (arith, h.cursor_is_length));
  sequences = push-sequences n id at r h;
}

pub create_memory_state-IsLog : IsLog create_memory_state
create_memory_state-IsLog = record { cursor_is_length = refl; cursors = tt; sequences = λ n. tt }

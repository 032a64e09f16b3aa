-- ===== src/Coordinator/Leading.antt =====
-- The two notions of leadership of a node of internal/coordinator/coordinator.go: that of its election
-- module and that of its Raft log.
use ensemble_chat.Common.{ℕ, ◌≡◌, ◌⊎◌, inl, inr, refl, false, some, List, [], String, Bool-cases}
use ensemble_chat.Types.{ChangeType}
use ensemble_chat.Election.{is_leader}
use ensemble_chat.RaftLog.{RaftLog}
use ensemble_chat.RaftLog.Proposal.{WaitEvent, propose_entry}
use ensemble_chat.Coordinator.{CoordinatorNode, propose_change}

not_leading :
    (r : RaftLog) (change : ChangeType) (key value : String) (clock : ℕ → ℕ) (es : List WaitEvent)
    → r.is_leader ≡ false
    → propose_entry r change key value clock es ≡ some (r, false, [])
unfolding propose_entry
not_leading r change key value clock es h = rw (h, propose_entry) refl

-- A change that is proposed on a node whose election module or whose Raft log does not take it for the
-- leader is refused: the node stays as it is, and nothing is sent.
pub propose_change_refused :
    (n : CoordinatorNode) (change : ChangeType) (key value : String) (clock : ℕ → ℕ)
    (es : List WaitEvent)
    → (is_leader n.election ≡ false) ⊎ (n.raft_log.is_leader ≡ false)
    → propose_change n change key value clock es ≡ some (n, false, [])
unfolding propose_change
propose_change_refused n change key value clock es (inl h) = simp (h, propose_change)
propose_change_refused n change key value clock es (inr h) =
    let e = not_leading n.raft_log change key value clock es h in
    elim (Bool-cases (is_leader n.election)) [
      | inl b ↦ simp (b, propose_change, e)
      | inr b ↦ simp (b, propose_change)
    ]

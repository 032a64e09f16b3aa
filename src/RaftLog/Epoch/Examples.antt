-- ===== src/RaftLog/Epoch/Examples.antt =====
-- The theorems on one leader's term of internal/consensus/consensus.go at a run.
use ensemble_chat.Common.{
  [], ◌∷◌, refl, ℕ, suc, ◌≤◌, ◌<◌, ◌≡◌, ◌⊎◌, pos, true, some, Bool, length, take, get_elem?, arith,
}
use ensemble_chat.Types.{LogEntry, add_room}
use ensemble_chat.RaftLog.Epoch.{Epoch, Reach, here, start}
use ensemble_chat.RaftLog.{majority, become_leader}
use ensemble_chat.RaftLog.Merge.{Matching}
use ensemble_chat.RaftLog.Epoch.Invariant.{mem, tally}
use ensemble_chat.RaftLog.Epoch.Agreement.{committed_agree}
use ensemble_chat.RaftLog.Epoch.Safety.{logs_follow_leader, committed_by_majority}
use ensemble_chat.RaftLog.Epoch.Proposing.{propose_entry_steps}
use ensemble_chat.RaftLog.Epoch.ProposalRun.{
  first_sent, run_result, drafted-send_to, proposed-Awaits, begun-propose_entry,
}
use ensemble_chat.RaftLog.Epoch.Run.{
  begun, clock, refusal, success, applied, elected, nodes, elected-IsFresh, nodes-Agrees, committed,
  agreed, committed-Reach, agreed-Reach,
}

logs_follow_leader_example :
    (((i : ℕ) (x : LogEntry) → get_elem? (committed.followers 1).log i ≡ some x → x.term < 2)
      × Matching (committed.followers 1).log committed.leader.log)
    ⊎ ((committed.base < length (committed.followers 1).log)
        × (length (committed.followers 1).log ≤ length committed.leader.log)
        × ((committed.followers 1).log
            ≡ take (length (committed.followers 1).log) committed.leader.log))
logs_follow_leader_example =
    logs_follow_leader elected 2 nodes committed elected-IsFresh committed-Reach 1

committed_by_majority_example :
    (committed.leader.commit_index ≡ elected.commit_index)
    ⊎ ((n : ℕ) × (committed.leader.commit_index ≡ pos n)
        × (n < length committed.leader.log)
        × (chosen : ℕ → Bool) × (majority committed.leader ≤ tally chosen committed.leader.peers)
        × ((f : ℕ)
            → mem f committed.leader.peers ≡ true
            → chosen f ≡ true
            → (suc n ≤ length (committed.followers f).log)
              × (take (suc n) (committed.followers f).log ≡ take (suc n) committed.leader.log)))
committed_by_majority_example =
    committed_by_majority elected 2 nodes committed elected-IsFresh committed-Reach

committed_agree_example :
    (x : LogEntry) × (get_elem? (agreed.followers 1).log 1 ≡ some x)
    × (get_elem? (agreed.followers 2).log 1 ≡ some x)
    × (get_elem? agreed.leader.log 1 ≡ some x)
committed_agree_example =
    committed_agree elected 2 nodes agreed elected-IsFresh nodes-Agrees agreed-Reach 1 2 1
      (omega arith) (omega arith)

propose_entry_steps_example :
    (s : Epoch) × Reach (start elected 2 nodes) s
    × (s.leader ≡ applied.leader)
    × (s.requests ≡ run_result.2)
unfolding start become_leader
propose_entry_steps_example =
    propose_entry_steps elected 2 nodes begun add_room "go" "host:1" clock (refusal ∷ success ∷ [])
      first_sent run_result elected-IsFresh here refl drafted-send_to proposed-Awaits
      begun-propose_entry

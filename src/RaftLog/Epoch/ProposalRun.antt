-- ===== src/RaftLog/Epoch/ProposalRun.antt =====
-- The proposal in that run: what `ProposeEntry` of internal/consensus/consensus.go hears and returns.
use ensemble_chat.Common.{
  List, Option, Bool, map, some_inj, subst, ◌≡◌, refl, true, some, [], ◌∷◌, ◌++◌,
}
use ensemble_chat.Types.{add_room, AppendEntriesRequest}
use ensemble_chat.RaftLog.{
  RaftLog, set_all, become_leader, handle_append_entries, handle_append_entries_response,
  send_append_entries_to, check_previous, accept, merge, follow_commit, apply_committed, apply_loop,
  apply_entry, try_advance_commit_index, advance_from, can_commit, replicas,
}
use ensemble_chat.RaftLog.Replication.{request_at}
use ensemble_chat.RaftLog.Proposal.{
  Sent, new_entry, send_to, retry, response, wait_for_majority, announce, propose_entry,
}
use ensemble_chat.RaftLog.Epoch.Sends.{moved}
use ensemble_chat.RaftLog.Epoch.Waits.{Awaits}
use ensemble_chat.RaftLog.Waiting.{appended}
use ensemble_chat.RaftLog.Epoch.{deliver, here, next, start}
use ensemble_chat.RaftLog.Epoch.Run.{
  clock, begun, drafted, proposed, refusal, refused, backed, success, replicated, applied,
}

-- The proposal of the run: node 1 refuses, and then has the whole log.
abbrev pub first_sent : List Sent
first_sent = (1, request_at drafted.leader 1) ∷ (2, request_at drafted.leader 1) ∷ []

abbrev pub run_result : RaftLog × Bool × List Sent
run_result = (
  applied.leader,
  true,
  first_sent
      ++ (1, request_at refused.leader 0)
        ∷ (1, request_at applied.leader 2)
        ∷ (2, request_at applied.leader 1)
        ∷ [],
)

pub drafted-send_to :
    send_to (appended begun.leader add_room "go" "host:1") begun.leader.peers ≡ some first_sent
unfolding start become_leader set_all appended new_entry send_to send_append_entries_to
drafted-send_to = refl

pub begun-propose_entry :
    propose_entry begun.leader add_room "go" "host:1" clock (map response (refusal ∷ success ∷ []))
    ≡ some run_result
unfolding start become_leader set_all appended new_entry send_to send_append_entries_to
    propose_entry wait_for_majority announce handle_append_entries_response try_advance_commit_index
    advance_from can_commit replicas apply_committed apply_loop apply_entry
begun-propose_entry = refl

replicated-Awaits : Awaits backed (success ∷ [])
unfolding start become_leader set_all appended new_entry send_append_entries_to
    handle_append_entries check_previous accept merge follow_commit handle_append_entries_response
    try_advance_commit_index advance_from can_commit replicas
replicated-Awaits = (
  replicated,
  (
    next here (
        deliver refused.requests 1 (request_at refused.leader 0) [] clock (replicated.followers 1)
          success refl refl),
    refl,
    refl,
  ),
  (refusal ∷ [], [], refl),
  λ ℓ again e. tt,
)

pub proposed-Awaits :
    Awaits
      (moved begun (appended begun.leader add_room "go" "host:1") first_sent)
      (refusal ∷ success ∷ [])
unfolding start become_leader set_all appended new_entry send_append_entries_to
    handle_append_entries check_previous accept merge follow_commit handle_append_entries_response
    try_advance_commit_index advance_from can_commit replicas
proposed-Awaits = (
  refused,
  (
    next here (
        deliver [] 1 (request_at proposed.leader 1) ((2, request_at proposed.leader 1) ∷ []) clock
          (refused.followers 1) refusal refl refl),
    refl,
    refl,
  ),
  ([], [], refl),
  λ ℓ again e.
      let e' : ◌≡◌ {A = Option (RaftLog × Option AppendEntriesRequest)}
          (some (backed.leader, some (request_at refused.leader 0))) (some (ℓ, again)) =
        e in
      subst
        (λ (p : RaftLog × Option AppendEntriesRequest).
          Awaits (moved refused p.0 (retry 1 p.1)) (success ∷ []))
        (some_inj e') replicated-Awaits,
)

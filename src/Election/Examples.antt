-- ===== src/Election/Examples.antt =====
-- Runs of three nodes of internal/election/election.go, and the theorems at them.
use ensemble_chat.Common.{
  ℕ, ◌+◌, ◌<◌, ◌≤◌, ◌≡◌, ◌≢◌, ◌↔◌, ◌⊎◌, refl, pos, minus_one, true, false, [], ◌∷◌, arith, leb,
  if◌then◌else◌,
}
use ensemble_chat.Types.{candidate, leader, VoteRequest, VoteResponse, Heartbeat}
use ensemble_chat.Election.{
  ElectionNode, majority, new_election_node, check_election_timeout, handle_vote_request,
  handle_vote_response,
}
use ensemble_chat.Election.Cluster.{
  vote_request, vote_response, System, init, act, receive, outgoing, broadcast, others, Reach,
  start, next, tick, recv,
}
use ensemble_chat.Election.Safety.{one_leader_per_term}
use ensemble_chat.Election.Handlers.{
  vote_granted, vote_granted_iff, granted, answer, KeepsVote, vote_stable, hear_all,
  hear_all_elects,
}
use ensemble_chat.Election.Bounds.{counters_bounded}

abbrev started : System
started = init 3 0 (λ i. 0)

abbrev request : VoteRequest
request = record { term = 1; candidate_id = 0 }

abbrev grant_of_one : VoteResponse
grant_of_one = record { term = 1; vote_granted = true; voter_id = 1 }

-- Node 0 times out.
abbrev asked : System
asked = act 3 started started.net 0 (check_election_timeout (started.nodes 0) 3_000_000_000 0)

-- Node 1 votes for it.
abbrev voted : System
voted =
    act 3 asked (vote_request 2 request ∷ []) 1
      (receive (asked.nodes 1) (vote_request 1 request) 3_000_000_001)

-- Node 0 hears it.
abbrev elected : System
elected =
    act 3 voted (vote_request 2 request ∷ []) 0
      (receive (voted.nodes 0) (vote_response 0 grant_of_one) 3_000_000_002)

elected-Reach : Reach 3 0 (λ i. 0) 3 elected
unfolding init act receive outgoing broadcast check_election_timeout handle_vote_request
    new_election_node
elected-Reach =
    next
      (next (next start (tick 0 3_000_000_000 0 (omega arith))) (
        recv (vote_request 2 request ∷ []) (vote_request 1 request) [] 3_000_000_001 refl
          (omega arith)))
      (recv (vote_request 2 request ∷ []) (vote_response 0 grant_of_one) [] 3_000_000_002 refl
        (omega arith))

leads : (elected.nodes 0).state ≡ leader
unfolding init act receive outgoing broadcast check_election_timeout handle_vote_request
    handle_vote_response others new_election_node
leads = refl

one_leader_per_term_example : ◌≡◌ {A = ℕ} 0 0
one_leader_per_term_example =
    one_leader_per_term elected-Reach 0 0 (omega arith) (omega arith) leads leads refl

counters_bounded_example :
    ((elected.nodes 0).current_term ≤ 3)
    × (((elected.nodes 0).state ≢ candidate) ⊎ ((elected.nodes 0).vote_count ≤ 3))
counters_bounded_example = counters_bounded elected-Reach 0 (omega arith)

abbrev fresh : ElectionNode
fresh = new_election_node 1 (2 ∷ 0 ∷ []) 0 0

vote_granted_iff_example :
    ((vote_granted fresh request 7 ≡ true) ↔ (
      (fresh.current_term < 1)
      ⊎ ((1 ≡ fresh.current_term) × ((fresh.voted_for ≡ minus_one) ⊎ (fresh.voted_for ≡ pos 0)))))
    × (((vote_granted fresh request 7 ≡ true)
          × (handle_vote_request fresh request 7
              ≡ (granted fresh request 7, answer (granted fresh request 7) request true)))
        ⊎ ((vote_granted fresh request 7 ≡ false)
            × (handle_vote_request fresh request 7 ≡ (fresh, answer fresh request false))))
vote_granted_iff_example = vote_granted_iff fresh request 7

vote_stable_example :
    KeepsVote fresh (receive fresh (vote_request 1 request) 3_000_000_000).0
    × KeepsVote fresh (check_election_timeout fresh 3_000_000_000 5).0
vote_stable_example = vote_stable fresh (vote_request 1 request) 3_000_000_000 5

abbrev running : ElectionNode
running = record {
  id = 0;
  peers = 1 ∷ 2 ∷ [];
  current_term = 1;
  voted_for = pos 0;
  state = candidate;
  vote_count = 1;
  leader_id = minus_one;
  last_heartbeat = 0;
  election_timeout = 2_000_000_000;
}

hear_all_elects_example :
    ((hear_all running (grant_of_one ∷ [])).state
      ≡ (if leb (majority 3) (1 + 1) then leader else candidate))
    × ((hear_all running (grant_of_one ∷ [])).current_term ≡ 1)
hear_all_elects_example =
    hear_all_elects running (grant_of_one ∷ []) refl (omega arith) ((refl, refl), tt)

abbrev beat : Heartbeat
beat = record { term = 1; leader_id = 2 }

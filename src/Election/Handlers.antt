-- ===== src/Election/Handlers.antt =====
-- The handlers of one node of internal/election/election.go.
use ensemble_chat.Common.{
  Bool-cases, inr, inl, ℕ, ◌+◌, ◌≤◌, ◌<◌, ◌≡◌, ◌↔◌, ◌⊎◌, refl, pos, minus_one, eq_ℤ_iff, Bool, true,
  false, List, [], ◌∷◌, length, arith, leb, ltb, if◌then◌else◌, dec_lt,
}
use ensemble_chat.Types.{follower, candidate, leader, VoteRequest, VoteResponse}
use ensemble_chat.Election.Cluster.{Packet, vote_request, vote_response, heartbeat, receive}
use ensemble_chat.Election.{
  ElectionNode, Effect, on_send_vote_resp, majority, check_election_timeout, handle_vote_request,
  handle_vote_response, handle_heartbeat,
}

-- The answer to a vote request.
pub vote_granted : ElectionNode → VoteRequest → (now : ℕ) → Bool
vote_granted e req now = elim (handle_vote_request e req now).1 [
  | on_send_vote_resp _ resp ∷ _ ↦ resp.vote_granted
  | _ ↦ false
]

-- The node after it has granted the vote: a later term makes it a follower that knows no leader.
abbrev pub granted : ElectionNode → VoteRequest → (now : ℕ) → ElectionNode
granted e req now =
    let later = ltb e.current_term req.term in
    record e {
      current_term = req.term;
      state = (if later then follower else e.state);
      leader_id = (if later then minus_one else e.leader_id);
      voted_for = pos req.candidate_id;
      last_heartbeat = now;
    }

abbrev pub answer : ElectionNode → VoteRequest → (vote : Bool) → List Effect
answer e req vote =
    on_send_vote_resp req.candidate_id
      (record { term = e.current_term; vote_granted = vote; voter_id = e.id })
    ∷ []

-- A vote is granted exactly when the request is of a later term than the node's, or of the same term
-- in which the node has voted for nobody or for this candidate. A grant sets the term and `voted_for`
-- to those of the request and resets the timer, a later term makes the node a follower that knows no
-- leader, and nothing else changes. A denial leaves the node as it was. The one answer goes to the
-- candidate, with the node's number and its term afterwards.
pub vote_granted_iff :
    (e : ElectionNode) (req : VoteRequest) (now : ℕ)
    → ((vote_granted e req now ≡ true) ↔ (
        (e.current_term < req.term)
        ⊎ ((req.term ≡ e.current_term)
            × ((e.voted_for ≡ minus_one) ⊎ (e.voted_for ≡ pos req.candidate_id)))))
      × (((vote_granted e req now ≡ true)
            × (handle_vote_request e req now
                ≡ (granted e req now, answer (granted e req now) req true)))
          ⊎ ((vote_granted e req now ≡ false)
              × (handle_vote_request e req now ≡ (e, answer e req false))))
unfolding vote_granted handle_vote_request
vote_granted_iff e req now = (
  (
    λ h.
        ground (arith, eq_ℤ_iff e.voted_for minus_one, eq_ℤ_iff e.voted_for (pos req.candidate_id)),
    λ h.
        ground (arith, eq_ℤ_iff e.voted_for minus_one, eq_ℤ_iff e.voted_for (pos req.candidate_id)),
  ),
  elim (Bool-cases (vote_granted e req now)) [
    | inl h ↦ inl (h, ground arith)
    | inr h ↦ inr (h, ground arith)
  ],
)

-- The term rises, or it stays with the vote, if one was given in it.
abbrev pub KeepsVote : (e e' : ElectionNode) → Type 0
KeepsVote e e' =
    (e.current_term < e'.current_term)
    ⊎ ((e'.current_term ≡ e.current_term)
        × ((e'.voted_for ≡ e.voted_for) ⊎ (e.voted_for ≡ minus_one)))

-- Whatever a node receives, and whenever its ticker fires: its term rises, or its term stays and so
-- does its vote, unless it had given none in this term.
pub vote_stable :
    (e : ElectionNode) (p : Packet) (now draw : ℕ)
    → KeepsVote e (receive e p now).0 × KeepsVote e (check_election_timeout e now draw).0
unfolding receive handle_vote_request handle_vote_response handle_heartbeat check_election_timeout
vote_stable e p now draw = (received p, ground arith)
  where
    received : (p : Packet) → KeepsVote e (receive e p now).0
    received (vote_request _ req) =
        ground (arith, eq_ℤ_iff e.voted_for minus_one, eq_ℤ_iff e.voted_for (pos req.candidate_id))
    received (vote_response _ resp) = ground arith
    received (heartbeat _ hb) = ground arith

-- A candidate that hears one response after another.
pub hear_all : ElectionNode → List VoteResponse → ElectionNode
hear_all e [] = e
hear_all e (resp ∷ resps) = hear_all (handle_vote_response e resp).0 resps

-- Responses that grant the vote in term `t`.
abbrev pub AllGrant : ℕ → List VoteResponse → Type 0
AllGrant t [] = Unit
AllGrant t (resp ∷ resps) = ((resp.term ≡ t) × (resp.vote_granted ≡ true)) × AllGrant t resps

hear-leader :
    (e : ElectionNode) (resps : List VoteResponse) → e.state ≡ leader → hear_all e resps ≡ e
unfolding hear_all handle_vote_response
hear-leader e [] h = refl
hear-leader e (resp ∷ resps) h = ground (arith, hear-leader e resps)

abbrev counted : ElectionNode → ElectionNode
counted e = record e { vote_count = e.vote_count + 1 }

abbrev elected : ElectionNode → ElectionNode
elected e = record e { vote_count = e.vote_count + 1; state = leader; leader_id = pos e.id }

hear_one :
    (e : ElectionNode) (resp : VoteResponse)
    → e.state ≡ candidate
    → resp.term ≡ e.current_term
    → resp.vote_granted ≡ true
    → (e.vote_count + 1 < majority (length e.peers + 1)
        → (handle_vote_response e resp).0 ≡ counted e)
      × (majority (length e.peers + 1) ≤ e.vote_count + 1
          → (handle_vote_response e resp).0 ≡ elected e)
unfolding handle_vote_response
hear_one e resp h t g = (λ few. ground arith, λ enough. ground arith)

-- A candidate that has fewer votes than a majority and hears granting responses of its own term is
-- elected exactly when its votes and the responses make a majority of the nodes; until then it stays
-- a candidate. Its term does not change.
pub hear_all_elects :
    (e : ElectionNode) (resps : List VoteResponse)
    → e.state ≡ candidate
    → e.vote_count < majority (length e.peers + 1)
    → AllGrant e.current_term resps
    → ((hear_all e resps).state ≡ (
        if leb (majority (length e.peers + 1)) (e.vote_count + length resps)
        then leader
        else candidate))
      × ((hear_all e resps).current_term ≡ e.current_term)
unfolding hear_all
hear_all_elects e [] h l g = (ground arith, refl)
hear_all_elects e (resp ∷ resps) h l g =
    elim (dec_lt (e.vote_count + 1) (majority (length e.peers + 1))) [
      | yes few ↦
          rw ((hear_one e resp h g.0.0 g.0.1).0 few, hear_all)
            (let (a, b) = hear_all_elects (counted e) resps h few g.1 in (ground (arith, a), b))
      | no enough ↦
          rw
            (
              (hear_one e resp h g.0.0 g.0.1).1 (omega arith),
              hear_all,
              hear-leader (elected e) resps refl,
            )
            (ground arith, refl)
    ]

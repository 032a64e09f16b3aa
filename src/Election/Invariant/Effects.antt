-- ===== src/Election/Invariant/Effects.antt =====
-- What the callbacks of internal/election/election.go put on the way, and which of them cast no vote.
use ensemble_chat.Common.{ℕ, ◌≡◌, refl, List, [], ◌∷◌, append-nil}
use ensemble_chat.Types.{Heartbeat}
use ensemble_chat.Election.{
  Effect, on_send_vote_req, on_send_vote_resp, on_send_heartbeat, on_become_leader,
  on_become_follower,
}
use ensemble_chat.Election.Cluster.{outgoing, Ballots, cast_votes}
use ensemble_chat.Election.Counting.{count, asks, grants, broadcast-heartbeat}

-- The effects of a node that sends neither a request nor a grant.
abbrev pub Silent : (n i : ℕ) → List Effect → Type 0
Silent n i es =
    ((c v t : ℕ) → count (asks c v t) (outgoing n i es) ≡ 0)
    × ((c t : ℕ) → count (grants c t) (outgoing n i es) ≡ 0)

pub Silent-nil : (n i : ℕ) → Silent n i []
unfolding outgoing count
Silent-nil n i = (λ c v t. refl, λ c t. refl)

pub Silent-heartbeat : (n i : ℕ) (hb : Heartbeat) → Silent n i (on_send_heartbeat hb ∷ [])
unfolding outgoing
Silent-heartbeat n i hb = (
  λ c v t. simp append-nil (broadcast-heartbeat n i hb (asks c v t) (λ d. refl)),
  λ c t. simp append-nil (broadcast-heartbeat n i hb (grants c t) (λ d. refl)),
)

-- Effects that reach no channel.
abbrev pub IsMute : List Effect → Type 0
IsMute [] = Unit
IsMute (on_become_leader _ ∷ es) = IsMute es
IsMute (on_become_follower _ _ ∷ es) = IsMute es
IsMute (on_send_heartbeat _ ∷ es) = ⊥
IsMute (on_send_vote_req _ ∷ es) = ⊥
IsMute (on_send_vote_resp _ _ ∷ es) = ⊥

pub IsMute-outgoing : (n i : ℕ) (es : List Effect) → IsMute es → outgoing n i es ≡ []
unfolding outgoing
IsMute-outgoing n i [] m = refl
IsMute-outgoing n i (on_become_leader _ ∷ es) m = IsMute-outgoing n i es m
IsMute-outgoing n i (on_become_follower _ _ ∷ es) m = IsMute-outgoing n i es m
IsMute-outgoing n i (on_send_heartbeat _ ∷ es) m = absurd m
IsMute-outgoing n i (on_send_vote_req _ ∷ es) m = absurd m
IsMute-outgoing n i (on_send_vote_resp _ _ ∷ es) m = absurd m

pub IsMute-cast_votes : (b : Ballots) (es : List Effect) → IsMute es → cast_votes b es ≡ b
unfolding cast_votes
IsMute-cast_votes b [] m = refl
IsMute-cast_votes b (on_become_leader _ ∷ es) m = IsMute-cast_votes b es m
IsMute-cast_votes b (on_become_follower _ _ ∷ es) m = IsMute-cast_votes b es m
IsMute-cast_votes b (on_send_heartbeat _ ∷ es) m = absurd m
IsMute-cast_votes b (on_send_vote_req _ ∷ es) m = absurd m
IsMute-cast_votes b (on_send_vote_resp _ _ ∷ es) m = absurd m

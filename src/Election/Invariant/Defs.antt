-- ===== src/Election/Invariant/Defs.antt =====
-- The invariant of the election (internal/election/election.go): what the nodes, the messages on the way
-- and the record of votes say about one another.
use ensemble_chat.Common.{ℕ, ◌+◌, ◌≤◌, ◌<◌, ◌≡◌, pos, some, length}
use ensemble_chat.Types.{candidate, leader}
use ensemble_chat.Election.{majority}
use ensemble_chat.Election.Cluster.{System}
use ensemble_chat.Election.Counting.{count, asks, grants, voted, votes}

pub record Inv (n : ℕ) (s : System) : Type 0 where
  -- Each node is in its place and knows the other n - 1.
  pub ids : (i : ℕ) → (s.nodes i).id ≡ i
  pub sizes : (i : ℕ) → i < n → length (s.nodes i).peers + 1 ≡ n
  -- `voted_for` is the vote of the current term.
  pub agree :
      (v c : ℕ) → (s.nodes v).voted_for ≡ pos c → s.ballots v (s.nodes v).current_term ≡ some c
  pub agree_back :
      (v c : ℕ) → s.ballots v (s.nodes v).current_term ≡ some c → (s.nodes v).voted_for ≡ pos c
  -- No vote lies in the future of its voter or of its candidate.
  pub past : (v c t : ℕ) → s.ballots v t ≡ some c → t ≤ (s.nodes v).current_term
  pub known : (v c t : ℕ) → s.ballots v t ≡ some c → t ≤ (s.nodes c).current_term
  -- A voter that has a request on the way has not answered it.
  pub once : (c v t : ℕ) → count (asks c v t) s.net + voted (s.ballots v t) c ≤ 1
  pub asked : (c v t : ℕ) → 0 < count (asks c v t) s.net → t ≤ (s.nodes c).current_term
  pub granted : (c t : ℕ) → 0 < count (grants c t) s.net → t ≤ (s.nodes c).current_term
  -- A candidate has counted no vote that was not cast for it.
  pub tally :
      (c : ℕ)
      → c < n
      → (s.nodes c).state ≡ candidate
      → (s.nodes c).vote_count + count (grants c (s.nodes c).current_term) s.net
        ≤ votes n s.ballots c (s.nodes c).current_term
  pub won :
      (c : ℕ)
      → c < n
      → (s.nodes c).state ≡ leader
      → majority n ≤ votes n s.ballots c (s.nodes c).current_term

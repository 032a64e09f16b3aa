-- ===== src/Election/Safety.antt =====
-- The states that the election (internal/election/election.go) can reach.
use ensemble_chat.Common.{ℕ, ◌+◌, ◌≤◌, ◌<◌, ◌≡◌, ◌≢◌, arith, Option, ℕ_discrete}
use ensemble_chat.Common.Family.{total-add, total-le}
use ensemble_chat.Types.{leader}
use ensemble_chat.Election.Cluster.{System, Reach}
use ensemble_chat.Election.Counting.{voted, votes}
use ensemble_chat.Election.Invariant.{Inv, Reach-Inv}

-- Each node gives at most one vote in a term, so two candidates have at most `n` votes together.
votes_disjoint :
    (n : ℕ) (b : ℕ → ℕ → Option ℕ) (c d t : ℕ) → c ≢ d → votes n b c t + votes n b d t ≤ n
unfolding votes
votes_disjoint n b c d t h = omega (
  arith,
  total-add n (λ v. voted (b v t) c) (λ v. voted (b v t) d),
  total-le n (λ v. voted (b v t) c + voted (b v t) d) one,
)
  where
    one : (v : ℕ) → voted (b v t) c + voted (b v t) d ≤ 1
    one v = ground arith

-- In every state that the election can reach, whatever messages were lost, delayed or reordered and
-- whenever the timeouts ran out, two nodes that are leaders in the same term are the same node.
pub one_leader_per_term :
    {n now : ℕ} {draws : ℕ → ℕ} {k : ℕ} {s : System}
    → Reach n now draws k s
    → (i j : ℕ) → i < n
    → j < n
    → (s.nodes i).state ≡ leader
    → (s.nodes j).state ≡ leader
    → (s.nodes i).current_term ≡ (s.nodes j).current_term
    → i ≡ j
one_leader_per_term {n} {s} r i j l m p q e = elim (ℕ_discrete i j) [
  | yes same ↦ same
  | no other ↦ absurd (
      ground (
        arith,
        inv.won i l p,
        inv.won j m q,
        votes_disjoint n s.ballots i j (s.nodes j).current_term other,
      ))
]
  where
    inv : Inv n s
    inv = Reach-Inv r

-- ===== src/Coordinator/Killed.antt =====
-- The callbacks of `SetupInProcessComm` after a `Kill` (internal/coordinator/coordinator.go).
use ensemble_chat.Common.{ℕ, ◌+◌, ◌≡◌, refl, List, [], ◌∷◌, ◌++◌, arith, ◌==◌, if◌then◌else◌}
use ensemble_chat.Election.{
  Effect, on_send_vote_req, on_send_vote_resp, on_send_heartbeat, on_become_leader,
  on_become_follower,
}
use ensemble_chat.TokenRing.{Effect as RingEffect, on_pass_token, respond}
use ensemble_chat.Election.Cluster.{vote_request, vote_response, heartbeat, dst}
use ensemble_chat.TokenRing.System.{Flight}
use ensemble_chat.Coordinator.{CoordinatorNode, is_alive, kill}
use ensemble_chat.Coordinator.Wiring.{push_to_others, push_to, election_comm, token_comm}

-- The nodes, after a kill of the one with number `id`.
unfoldable pub kill_node : (id : ℕ) → List CoordinatorNode → List CoordinatorNode
unfolding kill
kill_node id [] = []
kill_node id (n ∷ nodes) =
    let rest = kill_node id nodes in if n.id == id then kill n ∷ rest else n ∷ rest

-- How many of the messages go to `id`.
unfoldable pub addressed {ℓ} : {P : Type ℓ} → (P → ℕ) → (id : ℕ) → List P → ℕ
addressed to id [] = 0
addressed to id (p ∷ ps) = (if to p == id then 1 else 0) + addressed to id ps

addressed-append {ℓ} :
    {P : Type ℓ} (to : P → ℕ) (id : ℕ) (ps qs : List P)
    → addressed to id (ps ++ qs) ≡ addressed to id ps + addressed to id qs
unfolding addressed
addressed-append to id [] qs = omega arith
addressed-append to id (p ∷ ps) qs = omega (arith, addressed-append to id ps qs)

both {ℓ} :
    {P : Type ℓ} (to : P → ℕ) (id : ℕ) (ps qs : List P)
    → addressed to id ps ≡ 0
    → addressed to id qs ≡ 0
    → addressed to id (ps ++ qs) ≡ 0
both to id ps qs h h' = omega (arith, addressed-append to id ps qs, h, h')

module _ {ℓ} {P : Type ℓ} (to : P → ℕ) (packet : ℕ → P) (named : (d : ℕ) → to (packet d) ≡ d) where
  others_reach :
      (nodes : List CoordinatorNode) (id sender : ℕ)
      → addressed to id (push_to_others (kill_node id nodes) sender packet) ≡ 0
  unfolding addressed push_to_others kill_node kill is_alive
  others_reach [] id sender = refl
  others_reach (n ∷ nodes) id sender = ground (arith, named n.id, others_reach nodes id sender)

  one_reached :
      (nodes : List CoordinatorNode) (id target : ℕ)
      → addressed to id (push_to (kill_node id nodes) target packet) ≡ 0
  unfolding addressed push_to kill_node kill is_alive
  one_reached [] id target = refl
  one_reached (n ∷ nodes) id target = ground (arith, named n.id, one_reached nodes id target)

election_reach :
    (nodes : List CoordinatorNode) (id sender : ℕ) (es : List Effect)
    → addressed dst id (election_comm (kill_node id nodes) sender es) ≡ 0
unfolding election_comm addressed
election_reach nodes id sender [] = refl
election_reach nodes id sender (on_send_vote_req req ∷ es) =
    both dst id _ _ (others_reach dst (λ d. vote_request d req) (λ d. refl) nodes id sender)
      (election_reach nodes id sender es)
election_reach nodes id sender (on_send_vote_resp target resp ∷ es) =
    both dst id _ _ (one_reached dst (λ d. vote_response d resp) (λ d. refl) nodes id target)
      (election_reach nodes id sender es)
election_reach nodes id sender (on_send_heartbeat hb ∷ es) =
    both dst id _ _ (others_reach dst (λ d. heartbeat d hb) (λ d. refl) nodes id sender)
      (election_reach nodes id sender es)
election_reach nodes id sender (on_become_leader _ ∷ es) = election_reach nodes id sender es
election_reach nodes id sender (on_become_follower _ _ ∷ es) = election_reach nodes id sender es

abbrev pub flight_dst : Flight → ℕ
flight_dst f = f.dst

token_reach :
    (nodes : List CoordinatorNode) (id : ℕ) (es : List RingEffect)
    → addressed flight_dst id (token_comm (kill_node id nodes) es) ≡ 0
unfolding token_comm addressed
token_reach nodes id [] = refl
token_reach nodes id (on_pass_token next_node tok ∷ es) =
    both flight_dst id _ _
      (one_reached flight_dst (λ d. record { dst = d; tok = tok }) (λ d. refl) nodes id next_node)
      (token_reach nodes id es)
token_reach nodes id (respond _ _ ∷ es) = token_reach nodes id es

-- Once a node of a list of nodes is killed, no callback of the election or the token ring of any node
-- pushes a packet or a token to its number.
pub killed_hears_nothing :
    (nodes : List CoordinatorNode) (id sender : ℕ) (es : List Effect) (res : List RingEffect)
    → (addressed dst id (election_comm (kill_node id nodes) sender es) ≡ 0)
      × (addressed flight_dst id (token_comm (kill_node id nodes) res) ≡ 0)
killed_hears_nothing nodes id sender es res =
    (election_reach nodes id sender es, token_reach nodes id res)

-- ===== src/Coordinator/Wiring.antt =====
-- `SetupInProcessComm` (internal/coordinator/coordinator.go): the loops of the callbacks over the
-- nodes, beside the models of the network.
use mathlib.Core.List.Perm
use mathlib.Core.List.{Perm, filter_map}
use ensemble_chat.Common.{
  Bool, some, none, subst, sym, ℕ_discrete, ◌≤◌, ℕ, zero, suc, ◌≡◌, refl, not, true, ◌&&◌, List, [],
  ◌∷◌, ◌++◌, arith, ltb, ◌==◌, if◌then◌else◌,
}
use ensemble_chat.Types.{AppendEntriesRequest, AppendEntriesResponse}
use ensemble_chat.Election.{
  Effect, on_send_vote_req, on_send_vote_resp, on_send_heartbeat, on_become_leader,
  on_become_follower,
}
use ensemble_chat.TokenRing.{Effect as RingEffect, on_pass_token, respond}
use ensemble_chat.Election.Cluster.{
  Packet, vote_request, vote_response, heartbeat, broadcast, outgoing,
}
use ensemble_chat.TokenRing.System.{Flight, passed}
use ensemble_chat.Coordinator.{CoordinatorNode, is_alive}

-- `peer.ID != n.ID && peer.IsAlive()`
unfoldable pub push_to_others {ℓ} :
    {P : Type ℓ} → List CoordinatorNode → (id : ℕ) → (ℕ → P) → List P
unfolding is_alive
push_to_others [] id packet = []
push_to_others (peer ∷ peers) id packet =
    let rest = push_to_others peers id packet in
    if not (peer.id == id) && is_alive peer then packet peer.id ∷ rest else rest

-- `peer.ID == targetID && peer.IsAlive()`
unfoldable pub push_to {ℓ} : {P : Type ℓ} → List CoordinatorNode → (target : ℕ) → (ℕ → P) → List P
unfolding is_alive
push_to [] target packet = []
push_to (peer ∷ peers) target packet =
    let rest = push_to peers target packet in
    if peer.id == target && is_alive peer then packet peer.id ∷ rest else rest

-- The callbacks of the election module of node `id`.
unfoldable pub election_comm : List CoordinatorNode → (id : ℕ) → List Effect → List Packet
unfolding push_to_others push_to
election_comm nodes id [] = []
election_comm nodes id (on_send_vote_req req ∷ es) =
    push_to_others nodes id (λ d. vote_request d req) ++ election_comm nodes id es
election_comm nodes id (on_send_vote_resp target resp ∷ es) =
    push_to nodes target (λ d. vote_response d resp) ++ election_comm nodes id es
election_comm nodes id (on_send_heartbeat hb ∷ es) =
    push_to_others nodes id (λ d. heartbeat d hb) ++ election_comm nodes id es
election_comm nodes id (on_become_leader _ ∷ es) = election_comm nodes id es
election_comm nodes id (on_become_follower _ _ ∷ es) = election_comm nodes id es

-- `OnPassToken`
unfoldable pub token_comm : List CoordinatorNode → List RingEffect → List Flight
unfolding push_to
token_comm nodes [] = []
token_comm nodes (on_pass_token next_node tok ∷ es) =
    push_to nodes next_node (λ d. record { dst = d; tok = tok }) ++ token_comm nodes es
token_comm nodes (respond _ _ ∷ es) = token_comm nodes es

-- `OnSendAppendEntries` and `OnSendAppendEntriesResp`
unfoldable pub append_entries_comm :
    List CoordinatorNode
    → (follower_id : ℕ) → AppendEntriesRequest
    → List (ℕ × AppendEntriesRequest)
unfolding push_to
append_entries_comm nodes follower_id req = push_to nodes follower_id (λ d. (d, req))

unfoldable pub append_entries_resp_comm :
    List CoordinatorNode
    → (leader_id : ℕ) → AppendEntriesResponse
    → List (ℕ × AppendEntriesResponse)
unfolding push_to
append_entries_resp_comm nodes leader_id resp = push_to nodes leader_id (λ d. (d, resp))

-- The callbacks of one node run as goroutines, and the models of the network take any element of their
-- list next, so the order of what is pushed is left open.
abbrev ids : List CoordinatorNode → List ℕ
ids [] = []
ids (peer ∷ peers) = peer.id ∷ ids peers

abbrev AreAlive : List CoordinatorNode → Type 0
AreAlive [] = Unit
AreAlive (peer ∷ peers) = (peer.alive ≡ true) × AreAlive peers

-- n - 1 … 0
abbrev numbers : ℕ → List ℕ
numbers zero = []
numbers (suc n) = n ∷ numbers n

-- The nodes 0 … n - 1 in any order, all alive.
abbrev pub IsEnsemble : (n : ℕ) → List CoordinatorNode → Type 0
IsEnsemble n nodes = Perm (ids nodes) (numbers n) × AreAlive nodes

-- A packet for each number that is chosen.
abbrev chosen {ℓ} : {P : Type ℓ} → (ℕ → Bool) → List ℕ → (ℕ → P) → List P
chosen keep is packet = filter_map (λ i. if keep i then some (packet i) else none) is

chosen-Perm {ℓ} :
    {P : Type ℓ} (keep : ℕ → Bool) (packet : ℕ → P) {is js : List ℕ}
    → Perm is js
    → Perm (chosen keep is packet) (chosen keep js packet)
chosen-Perm keep packet p = Perm.filter_map (λ i. if keep i then some (packet i) else none) p

push_to_others_chosen {ℓ} :
    {P : Type ℓ} (nodes : List CoordinatorNode) (id : ℕ) (packet : ℕ → P)
    → AreAlive nodes
    → push_to_others nodes id packet ≡ chosen (λ i. not (i == id)) (ids nodes) packet
unfolding push_to_others is_alive filter_map
push_to_others_chosen [] id packet h = refl
push_to_others_chosen (peer ∷ peers) id packet (a, h) =
    ground (arith, a, push_to_others_chosen peers id packet h)

push_to_chosen {ℓ} :
    {P : Type ℓ} (nodes : List CoordinatorNode) (target : ℕ) (packet : ℕ → P)
    → AreAlive nodes
    → push_to nodes target packet ≡ chosen (λ i. i == target) (ids nodes) packet
unfolding push_to is_alive filter_map
push_to_chosen [] target packet h = refl
push_to_chosen (peer ∷ peers) target packet (a, h) =
    ground (arith, a, push_to_chosen peers target packet h)

chosen-broadcast :
    (n id : ℕ) (packet : ℕ → Packet)
    → chosen (λ i. not (i == id)) (numbers n) packet ≡ broadcast n id packet
unfolding filter_map broadcast
chosen-broadcast zero id packet = refl
chosen-broadcast (suc n) id packet = ground (arith, chosen-broadcast n id packet)

chosen_none {ℓ} :
    {P : Type ℓ} (n target : ℕ) (packet : ℕ → P)
    → n ≤ target
    → chosen (λ i. i == target) (numbers n) packet ≡ []
unfolding filter_map
chosen_none zero target packet l = refl
chosen_none (suc n) target packet l = ground (arith, l, chosen_none n target packet (omega arith))

chosen_one {ℓ} :
    {P : Type ℓ} (n target : ℕ) (packet : ℕ → P)
    → chosen (λ i. i == target) (numbers n) packet
      ≡ (if ltb target n then packet target ∷ [] else [])
unfolding filter_map
chosen_one zero target packet = ground arith
chosen_one (suc n) target packet = elim (ℕ_discrete n target) [
  | yes same ↦ ground (arith, same, chosen_none n target packet (omega (arith, same)))
  | no other ↦ ground (arith, other, chosen_one n target packet)
]

module _ (n : ℕ) (nodes : List CoordinatorNode) (h : IsEnsemble n nodes) where
  push_to_others_lem :
      (id : ℕ) (packet : ℕ → Packet) → Perm (push_to_others nodes id packet) (broadcast n id packet)
  push_to_others_lem id packet =
      subst (λ ps. Perm ps (broadcast n id packet))
        (sym (push_to_others_chosen nodes id packet h.1))
        (subst (Perm (chosen (λ i. not (i == id)) (ids nodes) packet))
          (chosen-broadcast n id packet) (chosen-Perm (λ i. not (i == id)) packet h.0))

  push_to_lem {ℓ} :
      {P : Type ℓ} (target : ℕ) (packet : ℕ → P)
      → Perm (push_to nodes target packet) (if ltb target n then packet target ∷ [] else [])
  push_to_lem target packet =
      subst (λ ps. Perm ps (if ltb target n then packet target ∷ [] else []))
        (sym (push_to_chosen nodes target packet h.1))
        (subst (Perm (chosen (λ i. i == target) (ids nodes) packet)) (chosen_one n target packet)
          (chosen-Perm (λ i. i == target) packet h.0))

  election_comm_lem :
      (id : ℕ) (es : List Effect) → Perm (election_comm nodes id es) (outgoing n id es)
  unfolding election_comm outgoing
  election_comm_lem id [] = Perm.refl []
  election_comm_lem id (on_send_vote_req req ∷ es) =
      Perm.append (push_to_others_lem id (λ d. vote_request d req)) (election_comm_lem id es)
  election_comm_lem id (on_send_vote_resp target resp ∷ es) =
      Perm.append (push_to_lem target (λ d. vote_response d resp)) (election_comm_lem id es)
  election_comm_lem id (on_send_heartbeat hb ∷ es) =
      Perm.append (push_to_others_lem id (λ d. heartbeat d hb)) (election_comm_lem id es)
  election_comm_lem id (on_become_leader _ ∷ es) = election_comm_lem id es
  election_comm_lem id (on_become_follower _ _ ∷ es) = election_comm_lem id es

  token_comm_lem : (es : List RingEffect) → Perm (token_comm nodes es) (passed n es)
  unfolding token_comm passed
  token_comm_lem [] = Perm.refl []
  token_comm_lem (on_pass_token next_node tok ∷ es) =
      Perm.append (push_to_lem next_node (λ d. record { dst = d; tok = tok })) (token_comm_lem es)
  token_comm_lem (respond _ _ ∷ es) = token_comm_lem es

-- With nodes numbered 0 to n - 1, in any order, and all alive, the callbacks push exactly the packets and
-- the tokens that the models of the network, `Election.Cluster` and `TokenRing.System`, take them to
-- push, each as often, in some order.
pub comm_refines :
    (n : ℕ) (nodes : List CoordinatorNode) (id : ℕ) (es : List Effect) (res : List RingEffect)
    → IsEnsemble n nodes
    → Perm (election_comm nodes id es) (outgoing n id es)
      × Perm (token_comm nodes res) (passed n res)
comm_refines n nodes id es res h = (election_comm_lem n nodes h id es, token_comm_lem n nodes h res)

-- ===== src/Coordinator/Examples.antt =====
-- An ensemble of internal/coordinator/coordinator.go with three nodes, and the theorems at it.
use mathlib.Core.List.{Perm, Permᴰ}
use ensemble_chat.Common.{Bool, true, ◌++◌, false, ℕ, ◌≤◌, ◌≡◌, refl, some, List, [], ◌∷◌}
use ensemble_chat.Election.{Effect, on_send_vote_req}
use ensemble_chat.Election.Cluster.{dst, outgoing}
use ensemble_chat.TokenRing.{Effect as RingEffect, on_pass_token, new_token_ring_manager}
use ensemble_chat.TokenRing.System.{passed}
use ensemble_chat.Coordinator.{CoordinatorNode, start_node, new_coordinator_node}
use ensemble_chat.Common.{none, map, arith, String, str_eq, str_eq_iff, ◌==◌, if◌then◌else◌}
use ensemble_chat.Transport.{Clients, rpc_client, new_rpc_client}
use ensemble_chat.Transport.Calls.{
  Call, vote_request_args, token_args, serve_calls, delivered, send_vote_request, send_token,
}
use ensemble_chat.Coordinator.Rpc.{
  election_callback, call_peers, call_peer, election_ch, token_ch, coordinator_handler,
  election_rpc, token_rpc,
}
use ensemble_chat.Coordinator.Rpc.Fates.{call_of, undelivered}
use ensemble_chat.Coordinator.Rpc.Reach.{is_peer, IsWired, IsRange, inbox, count}
use ensemble_chat.Coordinator.Rpc.Refinement.{AreDistinct, effects, rpc_refines}
use ensemble_chat.Coordinator.Ensemble.{IsAscending, coordinators_agree}
use ensemble_chat.Coordinator.Wiring.{IsEnsemble, election_comm, token_comm, comm_refines}
use ensemble_chat.Coordinator.Killed.{kill_node, addressed, flight_dst, killed_hears_nothing}

coordinators_agree_example :
    (n : CoordinatorNode) × (n' : CoordinatorNode) × (holder : ℕ) × (others : List ℕ)
    × (new_coordinator_node 2 (1 ∷ 3 ∷ []) 10 20 ≡ some n)
    × (new_coordinator_node 1 (2 ∷ 3 ∷ []) 11 21 ≡ some n')
    × (n.token_ring ≡ new_token_ring_manager 2 (holder ∷ others) holder)
    × (n'.token_ring ≡ new_token_ring_manager 1 (holder ∷ others) holder)
    × Perm (holder ∷ others) (2 ∷ 1 ∷ 3 ∷ [])
    × IsAscending (holder ∷ others)
    × (holder ≤ 2)
    × (holder ≤ 1)
coordinators_agree_example =
    coordinators_agree 2 1 (1 ∷ 3 ∷ []) (2 ∷ 3 ∷ []) 10 11 20 21 ∣ Permᴰ.swap refl refl ∣₁

abbrev node : ℕ → CoordinatorNode
node id = start_node id [] 0 0 (0 ∷ 1 ∷ 2 ∷ []) 0

abbrev nodes : List CoordinatorNode
nodes = node 0 ∷ node 1 ∷ node 2 ∷ []

abbrev asks : List Effect
asks = on_send_vote_req (record { term = 1; candidate_id = 1 }) ∷ []

abbrev passes : List RingEffect
passes = on_pass_token 2 (record { seq_num = 5 }) ∷ []

nodes-IsEnsemble : IsEnsemble 3 nodes
nodes-IsEnsemble = (
  ∣ Permᴰ.trans (Permᴰ.swap refl refl)
      (Permᴰ.trans (Permᴰ.cons refl (Permᴰ.swap refl refl)) (Permᴰ.swap refl refl)) ∣₁,
  (refl, (refl, (refl, tt))),
)

comm_refines_example :
    Perm (election_comm nodes 1 asks) (outgoing 3 1 asks)
    × Perm (token_comm nodes passes) (passed 3 passes)
comm_refines_example = comm_refines 3 nodes 1 asks passes nodes-IsEnsemble

killed_hears_nothing_example :
    (addressed dst 2 (election_comm (kill_node 2 nodes) 1 asks) ≡ 0)
    × (addressed flight_dst 2 (token_comm (kill_node 2 nodes) passes) ≡ 0)
killed_hears_nothing_example = killed_hears_nothing nodes 2 1 asks passes

abbrev listen : ℕ → String
listen i = if i == 0 then ":7000" else if i == 1 then ":7001" else ":7002"

different : (s t : String) → str_eq s t ≡ false → s ≡ t → ⊥
different s t h e = ground (arith, str_eq_iff s t)

listen-AreDistinct : AreDistinct 3 listen
listen-AreDistinct i j l l' e = ground (
  arith,
  e,
  different ":7000" ":7001" refl,
  different ":7001" ":7000" refl,
  different ":7000" ":7002" refl,
  different ":7002" ":7000" refl,
  different ":7001" ":7002" refl,
  different ":7002" ":7001" refl,
)

-- Node 1, which has not called anyone yet.
abbrev clients : Clients
clients = record {
  peer_addrs = λ j. if is_peer 3 1 j then some (listen j) else none;
  rpc_clients = λ j. none;
}

clients-IsWired : IsWired 3 listen 1 clients
clients-IsWired = record { peers = λ j. refl; clients = λ j c e. absurd cc }

two_zero-IsRange : IsRange 3 1 (2 ∷ 0 ∷ [])
unfolding count
two_zero-IsRange d = ground arith

abbrev ranged : List (Effect × List ℕ)
ranged = (on_send_vote_req (record { term = 1; candidate_id = 1 }), 2 ∷ 0 ∷ []) ∷ []

-- The call of node 0 runs first, and its dial fails; the dial of the token fails too.
abbrev ask : (id : ℕ) → Call
ask id = record {
  addr = listen id;
  method = "Node.RequestVote";
  args = vote_request_args (record { term = 1; candidate_id = 1 });
}

abbrev asked : List (Call × Bool)
asked = (ask 0, false) ∷ (ask 2, true) ∷ []

abbrev passed_on : List (Call × Bool)
passed_on =
    (
      record {
        addr = listen 2;
        method = "Node.PassToken";
        args = token_args (record { seq_num = 5 });
      },
      false,
    )
    ∷ []

asked-Perm : Perm (map call_of asked) (election_rpc clients ranged).1
unfolding election_rpc election_callback call_peers call_peer rpc_client new_rpc_client
    send_vote_request
asked-Perm = ∣ Permᴰ.swap refl refl ∣₁

passed_on-Perm : Perm (map call_of passed_on) (token_rpc clients passes).1
unfolding token_rpc call_peer rpc_client new_rpc_client send_token
passed_on-Perm = ∣ Permᴰ.cons refl Permᴰ.nil ∣₁

rpc_refines_example :
    let served = λ (calls : List Call). serve_calls (coordinator_handler 2) (listen 2) calls in
    Perm
      (served (delivered asked) ++ served (undelivered asked))
      (map election_ch (inbox dst 2 (outgoing 3 1 (effects ranged))))
    × Perm
        (served (delivered passed_on) ++ served (undelivered passed_on))
        (map token_ch (inbox flight_dst 2 (passed 3 passes)))
rpc_refines_example =
    rpc_refines 3 listen 1 2 clients ranged passes asked passed_on listen-AreDistinct (ground arith)
      clients-IsWired tt (two_zero-IsRange, tt) ((ground arith), tt) asked-Perm passed_on-Perm

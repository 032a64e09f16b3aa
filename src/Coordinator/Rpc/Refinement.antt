-- ===== src/Coordinator/Rpc/Refinement.antt =====
-- The calls of `SetupRPCComm` (internal/coordinator/coordinator.go) as the nodes serve them, beside the
-- models of the network.
use mathlib.Core.List.{Perm}
use ensemble_chat.Coordinator.Rpc.Fates.{call_of, undelivered, runs_served}
use ensemble_chat.Common.{
  Bool, subst, ℕ_discrete, ◌<◌, ℕ, zero, suc, ◌≡◌, ◌≢◌, inl, inr, refl, ap, ap₂, sym, ◌∙◌, false,
  ◌&&◌, some, List, [], ◌∷◌, ◌++◌, map, map-append, arith, ltb, ◌==◌, if◌then◌else◌, String, str_eq,
  str_eq_iff, Bool-cases, ==_iff,
}
use ensemble_chat.Election.{
  Effect, on_send_vote_req, on_send_vote_resp, on_send_heartbeat, on_become_leader,
  on_become_follower,
}
use ensemble_chat.TokenRing.{Effect as RingEffect, on_pass_token, respond}
use ensemble_chat.Election.Cluster.{
  Packet, vote_request, vote_response, heartbeat, dst, broadcast, outgoing,
}
use ensemble_chat.TokenRing.System.{passed}
use ensemble_chat.Transport.{Clients}
use ensemble_chat.Transport.Calls.{
  vote_request_args, vote_response_args, heartbeat_args, token_args, Args, Call, call, node_rpc,
  serve_calls, delivered, send_vote_request, send_vote_response, send_heartbeat, send_token,
}
use ensemble_chat.Coordinator.Killed.{flight_dst}
use ensemble_chat.Coordinator.Rpc.{
  Inbound, election_ch, token_ch, coordinator_handler, call_peer, call_peers, election_callback,
  election_rpc, token_rpc,
}
use ensemble_chat.Coordinator.Rpc.Reach.{
  is_peer, IsWired, count, IsRange, inbox, copies, inbox-append, serve_calls-append, calls_to,
  call_peer-Called,
}

-- No two of the nodes have one address.
abbrev pub AreDistinct : (n : ℕ) → (ℕ → String) → Type 0
AreDistinct n addr = (i j : ℕ) → i < n → j < n → addr i ≡ addr j → i ≡ j

not_same : (i j : ℕ) → i ≢ j → (i == j) ≡ false
not_same i j other = ground (arith, other)

module _ (n : ℕ) (addr : ℕ → String) (distinct : AreDistinct n addr) (src d : ℕ) (below : d < n)
    (method : String) (args : Args) (x : Inbound)
    (served : node_rpc (coordinator_handler d) method args ≡ some x) where
  served_here :
      (rest : List Call)
      → serve_calls
          (coordinator_handler d)
          (addr d)
          (record { addr = addr d; method = method; args = args } ∷ rest)
        ≡ x ∷ serve_calls (coordinator_handler d) (addr d) rest
  unfolding serve_calls
  served_here rest = rw (served, (str_eq_iff (addr d) (addr d)).1 refl) refl

  serve_one :
      (j : ℕ)
      → serve_calls (coordinator_handler d) (addr d) (calls_to n addr src method args j)
        ≡ (if is_peer n src j && j == d then x ∷ [] else [])
  unfolding serve_calls
  serve_one j = elim (Bool-cases (is_peer n src j)) [
    | inr b ↦ rw (b) refl
    | inl b ↦ elim (ℕ_discrete j d) [
      | yes same ↦ rw (b, same, served_here []) (ground arith)
      | no other ↦ elim (Bool-cases (str_eq (addr j) (addr d))) [
        | inl e ↦
            absurd (other (distinct j d (ground arith) below ((str_eq_iff (addr j) (addr d)).0 e)))
        | inr e ↦ rw (b, e) (ground arith)
      ]
    ]
  ]

  copy_first :
      (j : ℕ) (range : List ℕ)
      → (if is_peer n src j && j == d then x ∷ [] else [])
          ++ copies (if is_peer n src d then count d range else 0) x
        ≡ copies (if is_peer n src d then count d (j ∷ range) else 0) x
  unfolding count
  copy_first j range = elim (ℕ_discrete j d) [
    | yes same ↦ elim (Bool-cases (is_peer n src d)) [
      | inl b ↦ rw (same, b, (==_iff d d).1 refl) refl
      | inr b ↦ rw (same, b) refl
    ]
    | no other ↦ elim (Bool-cases (is_peer n src j)) [
      | inl b ↦ rw (b, not_same j d other) refl
      | inr b ↦ rw (b, not_same j d other) refl
    ]
  ]

  serve_peers :
      (cs : Clients) (range : List ℕ)
      → IsWired n addr src cs
      → IsWired n addr src (call_peers cs range (λ c. call c method args)).0
        × (serve_calls
              (coordinator_handler d)
              (addr d)
              (call_peers cs range (λ c. call c method args)).1
            ≡ copies (if is_peer n src d then count d range else 0) x)
  unfolding call_peers serve_calls count
  serve_peers cs [] w = (w, ground arith)
  serve_peers cs (j ∷ range) w =
      let (w', e) = call_peer-Called n addr src method args cs j w in
      let (w'', e') = serve_peers (call_peer cs j (λ c. call c method args)).0 range w' in
      (
        w'',
        serve_calls-append (coordinator_handler d) (addr d) _ _
            ∙ ap₂ ◌++◌ (ap (serve_calls (coordinator_handler d) (addr d)) e ∙ serve_one j) e'
            ∙ copy_first j range,
      )

-- The packet that a broadcast sends to one node.
inbox-broadcast :
    (n src d : ℕ) (packet : ℕ → Packet)
    → ((j : ℕ) → dst (packet j) ≡ j)
    → inbox dst d (broadcast n src packet) ≡ (if is_peer n src d then packet d ∷ [] else [])
unfolding inbox broadcast
inbox-broadcast zero src d packet named = ground arith
inbox-broadcast (suc n) src d packet named =
    ground (arith, named n, inbox-broadcast n src d packet named)

-- No response goes to the node itself.
abbrev pub HasNoSelf : (src : ℕ) → List (Effect × List ℕ) → Type 0
HasNoSelf src [] = Unit
HasNoSelf src ((on_send_vote_resp target _, _) ∷ es) = (target ≢ src) × HasNoSelf src es
HasNoSelf src ((_, _) ∷ es) = HasNoSelf src es

abbrev pub HasRanges : (n src : ℕ) → List (Effect × List ℕ) → Type 0
HasRanges n src [] = Unit
HasRanges n src ((_, range) ∷ es) = IsRange n src range × HasRanges n src es

abbrev pub effects : List (Effect × List ℕ) → List Effect
effects [] = []
effects ((e, _) ∷ es) = e ∷ effects es

module _ (n : ℕ) (addr : ℕ → String) (distinct : AreDistinct n addr) (src d : ℕ)
    (below : d < n) where
  abbrev served_by : List Call → List Inbound
  served_by calls = serve_calls (coordinator_handler d) (addr d) calls

  counted :
      (range : List ℕ) (packet : ℕ → Packet)
      → ((j : ℕ) → dst (packet j) ≡ j)
      → IsRange n src range
      → copies (if is_peer n src d then count d range else 0) (election_ch (packet d))
        ≡ map election_ch (inbox dst d (broadcast n src packet))
  counted range packet named r = elim (Bool-cases (is_peer n src d)) [
    | inl b ↦ rw (r d, inbox-broadcast n src d packet named, b) refl
    | inr b ↦ rw (inbox-broadcast n src d packet named, b) refl
  ]

  -- A loop over the peers, beside a broadcast.
  served_broadcast :
      (method : String) (args : Args) (packet : ℕ → Packet) (cs : Clients) (range : List ℕ)
      → node_rpc (coordinator_handler d) method args ≡ some (election_ch (packet d))
      → ((j : ℕ) → dst (packet j) ≡ j)
      → IsWired n addr src cs
      → IsRange n src range
      → IsWired n addr src (call_peers cs range (λ c. call c method args)).0
        × (served_by (call_peers cs range (λ c. call c method args)).1
            ≡ map election_ch (inbox dst d (broadcast n src packet)))
  served_broadcast method args packet cs range served named w r =
      let (w', e) =
        serve_peers n addr distinct src d below method args (election_ch (packet d)) served cs range
          w in
      (w', e ∙ counted range packet named r)

  module _ {P : Type 0} (to : P → ℕ) (ch : P → Inbound) where
    served_both :
        (calls more : List Call) (ps qs : List P)
        → served_by calls ≡ map ch (inbox to d ps)
        → served_by more ≡ map ch (inbox to d qs)
        → served_by (calls ++ more) ≡ map ch (inbox to d (ps ++ qs))
    served_both calls more ps qs e e' =
        serve_calls-append (coordinator_handler d) (addr d) calls more
        ∙ ap₂ ◌++◌ e e'
        ∙ sym
            (ap (map ch) (inbox-append to d ps qs) ∙ map-append ch (inbox to d ps) (inbox to d qs))

    one_message :
        (packet : ℕ → P) (target : ℕ)
        → ((j : ℕ) → to (packet j) ≡ j)
        → target ≢ src
        → (if is_peer n src target && target == d then ch (packet d) ∷ [] else [])
          ≡ map ch (inbox to d (if ltb target n then packet target ∷ [] else []))
    unfolding inbox
    one_message packet target named other =
        let peer : is_peer n src target ≡ ltb target n = ground (arith, other) in
        elim (Bool-cases (ltb target n)) [
          | inr b ↦ rw (peer, b) refl
          | inl b ↦ elim (ℕ_discrete target d) [
            | yes same ↦ rw (peer, b, same, named d, (==_iff d d).1 refl) refl
            | no different ↦ rw (peer, b, named target, not_same target d different) refl
          ]
        ]

    -- A call of one peer, beside a message to it.
    served_single :
        (method : String) (args : Args) (packet : ℕ → P) (cs : Clients) (target : ℕ)
        → node_rpc (coordinator_handler d) method args ≡ some (ch (packet d))
        → ((j : ℕ) → to (packet j) ≡ j)
        → IsWired n addr src cs
        → target ≢ src
        → IsWired n addr src (call_peer cs target (λ c. call c method args)).0
          × (served_by (call_peer cs target (λ c. call c method args)).1
              ≡ map ch (inbox to d (if ltb target n then packet target ∷ [] else [])))
    unfolding inbox
    served_single method args packet cs target served named w other =
        let (w', e) = call_peer-Called n addr src method args cs target w in
        (
          w',
          ap served_by e
              ∙ serve_one n addr distinct src d below method args (ch (packet d)) served target
              ∙ one_message packet target named other,
        )

election_rpc_lem :
    (n : ℕ) (addr : ℕ → String) (src d : ℕ) (es : List (Effect × List ℕ)) (cs : Clients)
    → AreDistinct n addr
    → d < n
    → IsWired n addr src cs
    → HasNoSelf src es
    → HasRanges n src es
    → serve_calls (coordinator_handler d) (addr d) (election_rpc cs es).1
      ≡ map election_ch (inbox dst d (outgoing n src (effects es)))
unfolding election_rpc election_callback outgoing serve_calls inbox send_vote_request
    send_vote_response send_heartbeat node_rpc
election_rpc_lem n addr src d [] cs distinct below w ok ranges = refl
election_rpc_lem n addr src d ((on_send_vote_req req, range) ∷ es) cs distinct below w ok
      (r, ranges) =
    let (w', e) =
      served_broadcast n addr distinct src d below "Node.RequestVote" (vote_request_args req)
        (λ j. vote_request j req) cs range refl (λ j. refl) w r in
    served_both n addr distinct src d below dst election_ch _ _ _ _ e
      (election_rpc_lem n addr src d es _ distinct below w' ok ranges)
election_rpc_lem n addr src d ((on_send_heartbeat hb, range) ∷ es) cs distinct below w ok
      (r, ranges) =
    let (w', e) =
      served_broadcast n addr distinct src d below "Node.SendHeartbeat" (heartbeat_args hb)
        (λ j. heartbeat j hb) cs range refl (λ j. refl) w r in
    served_both n addr distinct src d below dst election_ch _ _ _ _ e
      (election_rpc_lem n addr src d es _ distinct below w' ok ranges)
election_rpc_lem n addr src d ((on_send_vote_resp target resp, _) ∷ es) cs distinct below w
      (other, ok) (_, ranges) =
    let (w', e) =
      served_single n addr distinct src d below dst election_ch "Node.RespondVote"
        (vote_response_args resp) (λ j. vote_response j resp) cs target refl (λ j. refl) w other in
    served_both n addr distinct src d below dst election_ch _ _ _ _ e
      (election_rpc_lem n addr src d es _ distinct below w' ok ranges)
election_rpc_lem n addr src d ((on_become_leader _, _) ∷ es) cs distinct below w ok (_, ranges) =
    election_rpc_lem n addr src d es cs distinct below w ok ranges
election_rpc_lem n addr src d ((on_become_follower _ _, _) ∷ es) cs distinct below w ok
      (_, ranges) =
    election_rpc_lem n addr src d es cs distinct below w ok ranges

abbrev pub PassesOn : (src : ℕ) → List RingEffect → Type 0
PassesOn src [] = Unit
PassesOn src (on_pass_token next_node _ ∷ es) = (next_node ≢ src) × PassesOn src es
PassesOn src (respond _ _ ∷ es) = PassesOn src es

token_rpc_lem :
    (n : ℕ) (addr : ℕ → String) (src d : ℕ) (es : List RingEffect) (cs : Clients)
    → AreDistinct n addr
    → d < n
    → IsWired n addr src cs
    → PassesOn src es
    → serve_calls (coordinator_handler d) (addr d) (token_rpc cs es).1
      ≡ map token_ch (inbox flight_dst d (passed n es))
unfolding token_rpc passed serve_calls inbox send_token node_rpc
token_rpc_lem n addr src d [] cs distinct below w ok = refl
token_rpc_lem n addr src d (on_pass_token next_node tok ∷ es) cs distinct below w (other, ok) =
    let (w', e) =
      served_single n addr distinct src d below flight_dst token_ch "Node.PassToken"
        (token_args tok) (λ j. record { dst = j; tok = tok }) cs next_node refl (λ j. refl) w
        other in
    served_both n addr distinct src d below flight_dst token_ch _ _ _ _ e
      (token_rpc_lem n addr src d es _ distinct below w' ok)
token_rpc_lem n addr src d (respond _ _ ∷ es) cs distinct below w ok =
    token_rpc_lem n addr src d es cs distinct below w ok

-- Among n nodes with different addresses, node `src` has those of the others, no vote response and no
-- token goes to itself, each loop over the addresses comes to each once, in any order, and no two calls of
-- `rpcClient` overlap. The goroutines that the callbacks of `SetupRPCComm` start for their sends run in any
-- order, and each dial succeeds or fails. Then what any node d is called to do, with what it would have been
-- called to do by the calls that a failed dial drops, is in some order to receive the packets and the
-- tokens for d of the models of the network, `Election.Cluster` and `TokenRing.System`, each as often;
-- whichever clients are there already.
pub rpc_refines :
    (n : ℕ) (addr : ℕ → String) (src d : ℕ) (cs : Clients) (es : List (Effect × List ℕ))
    (res : List RingEffect) (runs runs' : List (Call × Bool))
    → AreDistinct n addr
    → d < n
    → IsWired n addr src cs
    → HasNoSelf src es
    → HasRanges n src es
    → PassesOn src res
    → Perm (map call_of runs) (election_rpc cs es).1
    → Perm (map call_of runs') (token_rpc cs res).1
    → let served = λ (calls : List Call). serve_calls (coordinator_handler d) (addr d) calls in
      Perm
        (served (delivered runs) ++ served (undelivered runs))
        (map election_ch (inbox dst d (outgoing n src (effects es))))
      × Perm
          (served (delivered runs') ++ served (undelivered runs'))
          (map token_ch (inbox flight_dst d (passed n res)))
rpc_refines n addr src d cs es res runs runs' distinct below w ok ranges passes p p' =
    let served = λ (calls : List Call). serve_calls (coordinator_handler d) (addr d) calls in
    (
      subst (Perm (served (delivered runs) ++ served (undelivered runs)))
          (election_rpc_lem n addr src d es cs distinct below w ok ranges)
          (runs_served (coordinator_handler d) (addr d) runs (election_rpc cs es).1 p),
      subst (Perm (served (delivered runs') ++ served (undelivered runs')))
          (token_rpc_lem n addr src d res cs distinct below w passes)
          (runs_served (coordinator_handler d) (addr d) runs' (token_rpc cs res).1 p'),
    )

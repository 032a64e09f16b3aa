-- ===== src/Coordinator/Rpc/Reach.antt =====
-- The callbacks of `SetupRPCComm` (internal/coordinator/coordinator.go) and the nodes they reach, beside
-- the models of the network.
use ensemble_chat.Common.{
  ℕ_discrete, ℕ, zero, suc, ◌≡◌, inl, inr, refl, ap, sym, ◌∙◌, not, true, false, Bool, ◌&&◌, none,
  some, some_inj, List, [], ◌∷◌, ◌++◌, arith, ltb, ◌==◌, if◌then◌else◌, String, Option-cases,
  Bool-cases,
}
use ensemble_chat.Common.Family.{update}
use ensemble_chat.Transport.{RpcClient, Clients, rpc_client, new_rpc_client}
use ensemble_chat.Transport.Calls.{Args, Call, call, RpcHandler, serve_calls}
use ensemble_chat.Coordinator.Rpc.{call_peer}

-- Of the nodes 0 … n - 1, those that `src` has an address of.
abbrev pub is_peer : (n src j : ℕ) → Bool
is_peer n src j = ltb j n && not (j == src)

-- Node `src` has the addresses of the other nodes, and its clients are made from them.
pub record IsWired (n : ℕ) (addr : ℕ → String) (src : ℕ) (cs : Clients) : Type 0 where
  pub peers : (j : ℕ) → cs.peer_addrs j ≡ (if is_peer n src j then some (addr j) else none)
  pub clients : (j : ℕ) (c : RpcClient) → cs.rpc_clients j ≡ some c → cs.peer_addrs j ≡ some c.addr

-- How often `d` stands in the list.
unfoldable pub count : ℕ → List ℕ → ℕ
count d [] = 0
count d (x ∷ xs) = let rest = count d xs in if x == d then suc rest else rest

-- An order in which a loop over `PeerAddrs` comes to each key once.
abbrev pub IsRange : (n src : ℕ) → List ℕ → Type 0
IsRange n src range = (d : ℕ) → count d range ≡ (if is_peer n src d then 1 else 0)

-- The messages that go to `d`.
unfoldable pub inbox {ℓ} : {P : Type ℓ} → (P → ℕ) → (d : ℕ) → List P → List P
inbox to d [] = []
inbox to d (p ∷ ps) = let rest = inbox to d ps in if to p == d then p ∷ rest else rest

abbrev pub copies {ℓ} : {A : Type ℓ} → ℕ → A → List A
copies zero a = []
copies (suc k) a = a ∷ copies k a

pub inbox-append {ℓ} :
    {P : Type ℓ} (to : P → ℕ) (d : ℕ) (ps qs : List P)
    → inbox to d (ps ++ qs) ≡ inbox to d ps ++ inbox to d qs
unfolding inbox
inbox-append to d [] qs = refl
inbox-append to d (p ∷ ps) qs = ground (arith, inbox-append to d ps qs)

pub serve_calls-append {ℓ} :
    {R : Type ℓ} (h : RpcHandler R) (a : String) (ps qs : List Call)
    → serve_calls h a (ps ++ qs) ≡ serve_calls h a ps ++ serve_calls h a qs
unfolding serve_calls
serve_calls-append h a [] qs = refl
serve_calls-append h a (p ∷ ps) qs = ground (arith, serve_calls-append h a ps qs)

module _ (n : ℕ) (addr : ℕ → String) (src : ℕ) where
  -- A client that is there already.
  made :
      (cs : Clients) (j : ℕ) (c : RpcClient) (send : RpcClient → Call)
      → cs.rpc_clients j ≡ some c
      → call_peer cs j send ≡ (cs, send c ∷ [])
  unfolding call_peer rpc_client
  made cs j c send e = rw (e, call_peer, rpc_client) refl

  -- A client that is made now.
  fresh :
      (cs : Clients) (j : ℕ) (send : RpcClient → Call)
      → cs.rpc_clients j ≡ none
      → cs.peer_addrs j ≡ some (addr j)
      → call_peer cs j send ≡ (
        record cs { rpc_clients = update cs.rpc_clients j (some (new_rpc_client (addr j))) },
        send (new_rpc_client (addr j)) ∷ [],
      )
  unfolding call_peer rpc_client
  fresh cs j send e e' = rw (e, e', call_peer, rpc_client) refl

  unknown :
      (cs : Clients) (j : ℕ) (send : RpcClient → Call)
      → cs.rpc_clients j ≡ none
      → cs.peer_addrs j ≡ none
      → call_peer cs j send ≡ (cs, [])
  unfolding call_peer rpc_client
  unknown cs j send e e' = rw (e, e', call_peer, rpc_client) refl

  known_peer :
      (cs : Clients) (j : ℕ)
      → IsWired n addr src cs
      → is_peer n src j ≡ true
      → cs.peer_addrs j ≡ some (addr j)
  known_peer cs j w b = w.peers j ∙ ap (λ x. if x then some (addr j) else none) b

  no_peer :
      (cs : Clients) (j : ℕ)
      → IsWired n addr src cs
      → is_peer n src j ≡ false
      → cs.peer_addrs j ≡ none
  no_peer cs j w b = w.peers j ∙ ap (λ x. if x then some (addr j) else none) b

  -- A client made from a known address leaves the node wired.
  add_client-IsWired :
      (cs : Clients) (j : ℕ)
      → IsWired n addr src cs
      → cs.peer_addrs j ≡ some (addr j)
      → IsWired n addr src
          (record cs { rpc_clients = update cs.rpc_clients j (some (new_rpc_client (addr j))) })
  unfolding new_rpc_client
  add_client-IsWired cs j w known = record {
    peers = w.peers;
    clients = λ i c e. elim (ℕ_discrete j i) [
      | yes same ↦ ground (arith, same, e, known)
      | no other ↦ w.clients i c (ground (arith, other, e))
    ];
  }

  module _ (method : String) (args : Args) where
    abbrev pub calls_to : ℕ → List Call
    calls_to j =
        if is_peer n src j then record { addr = addr j; method = method; args = args } ∷ [] else []

    abbrev pub Called : ℕ → Clients × List Call → Type 0
    Called j r = IsWired n addr src r.0 × (r.1 ≡ calls_to j)

    peer-Called :
        (cs : Clients) (j : ℕ) (c : RpcClient)
        → IsWired n addr src cs
        → c.addr ≡ addr j
        → is_peer n src j ≡ true
        → Called j (cs, call c method args ∷ [])
    peer-Called cs j c w e b = (w, rw (b, e) refl)

    pub call_peer-Called :
        (cs : Clients) (j : ℕ)
        → IsWired n addr src cs
        → Called j (call_peer cs j (λ c. call c method args))
    unfolding new_rpc_client
    call_peer-Called cs j w = elim (Option-cases (cs.rpc_clients j)) [
      | inr (c, e) ↦ elim (Bool-cases (is_peer n src j)) [
        | inl b ↦
            rw (made cs j c (λ c. call c method args) e)
              (peer-Called cs j c w (some_inj (sym (w.clients j c e) ∙ known_peer cs j w b)) b)
        | inr b ↦ absurd (cc (w.clients j c e, no_peer cs j w b))
      ]
      | inl e ↦ elim (Bool-cases (is_peer n src j)) [
        | inl b ↦ rw (fresh cs j (λ c. call c method args) e (known_peer cs j w b)) (
            peer-Called _ j (new_rpc_client (addr j))
              (add_client-IsWired cs j w (known_peer cs j w b)) refl b)
        | inr b ↦ rw (unknown cs j (λ c. call c method args) e (no_peer cs j w b)) (w, rw (b) refl)
      ]
    ]

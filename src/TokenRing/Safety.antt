-- ===== src/TokenRing/Safety.antt =====
-- The states that the token ring (internal/lock/lock.go) can reach.
use ensemble_chat.Common.{
  ℕ, ◌≤◌, ◌<◌, ◌≡◌, ◌⊎◌, inl, inr, refl, Bool-cases, true, false, some, none, List, [], ◌∷◌, ◌++◌,
  String, arith, dec_lt,
}
use ensemble_chat.Types.{LockResponse}
use ensemble_chat.Common.Family.{total-ge, total_two}
use ensemble_chat.TokenRing.{request_access}
use ensemble_chat.TokenRing.System.{Ring, init, Reach, here, next}
use ensemble_chat.TokenRing.Invariant.{weight, tokens, Inv, Step-tokens, Step-Inv, init-Inv}

pub Reach-Inv : {n : ℕ} {r s : Ring} → Reach n r s → Inv n r → Inv n s
Reach-Inv here inv = inv
Reach-Inv (next q st) inv = Step-Inv st (Reach-Inv q inv)

two_holders :
    (n : ℕ) (r : Ring) (i j : ℕ)
    → i < j
    → j < n
    → (r.nodes i).has_token ≡ true
    → (r.nodes j).has_token ≡ true
    → 2 ≤ tokens n r
unfolding tokens
two_holders n r i j l m p q = ground (arith, total_two n (λ k. weight (r.nodes k)) i j l m)

-- Whatever the order of requests, releases, idle passes, deliveries and losses, two nodes that are in
-- the critical section are the same node, and a node in the critical section holds the token.
pub mutual_exclusion :
    {n : ℕ} (ring_order : List ℕ) (holder : ℕ) {s : Ring}
    → Reach n (init ring_order holder) s
    → (i j : ℕ) → i < n
    → j < n
    → (s.nodes i).in_cs ≡ true
    → (s.nodes j).in_cs ≡ true
    → (i ≡ j) × ((s.nodes i).has_token ≡ true)
mutual_exclusion {n} ring_order holder {s} q i j l m p r = (same, held i p)
  where
    inv : Inv n s
    inv = Reach-Inv q (init-Inv n ring_order holder)

    held : (k : ℕ) → (s.nodes k).in_cs ≡ true → (s.nodes k).has_token ≡ true
    held k = (inv.coherent k).inside

    same : i ≡ j
    same = elim (dec_lt i j) [
      | yes a ↦ absurd (omega (arith, two_holders n s i j a m (held i p) (held j r), inv.single))
      | no a ↦ elim (dec_lt j i) [
        | yes b ↦ absurd (omega (arith, two_holders n s j i b l (held j r) (held i p), inv.single))
        | no b ↦ omega arith
      ]
    ]

-- In every reachable state, a request on a node that holds the token and is not in the critical section
-- is granted at once: nobody waits there, so it overtakes no queued request, and the node is in the
-- critical section for the requester and the resource afterwards, and otherwise as it was. On any other
-- node it gets no answer and is queued behind all others, and the node is otherwise as it was.
pub no_overtaking :
    {n : ℕ} (ring_order : List ℕ) (holder : ℕ) {s : Ring}
    → Reach n (init ring_order holder) s
    → (i : ℕ) (resource requester : String) (ticket : ℕ)
    → let t = s.nodes i in
      (((t.has_token ≡ false) ⊎ (t.in_cs ≡ true))
        × (request_access t resource requester ticket ≡ (
          record t {
            wait_queue =
                t.wait_queue
                ++ record { resource = resource; requester = requester; ticket = ticket } ∷ [];
          },
          none,
        )))
      ⊎ ((t.has_token ≡ true)
          × (t.in_cs ≡ false)
          × (t.wait_queue ≡ [])
          × (resp : LockResponse) × (resp.granted ≡ true)
          × (resp.holder ≡ requester)
          × (resp.resource ≡ resource)
          × (request_access t resource requester ticket ≡ (
            record t { in_cs = true; cs_holder = requester; cs_resource = resource },
            some resp,
          )))
unfolding request_access
no_overtaking {n} ring_order holder {s} q i resource requester ticket =
    elim (Bool-cases (s.nodes i).has_token) [
      | inr h ↦ inl (inl h, rw h refl)
      | inl h ↦ elim (Bool-cases (s.nodes i).in_cs) [
        | inl c ↦ inl (inr c, rw (h, c) refl)
        | inr c ↦ inr (h, c, nobody h c, granted, refl, refl, refl, rw (h, c) refl)
      ]
    ]
  where
    granted : LockResponse
    granted = record {
      resource = resource;
      granted = true;
      holder = requester;
      reason = "token already held — access granted immediately";
    }

    nobody : (s.nodes i).has_token ≡ true → (s.nodes i).in_cs ≡ false → (s.nodes i).wait_queue ≡ []
    nobody h c = ground (arith, ((Reach-Inv q (init-Inv n ring_order holder)).coherent i).served)

zero_weight : (n : ℕ) (r : Ring) (i : ℕ) → tokens n r ≡ 0 → i < n → (r.nodes i).has_token ≡ false
unfolding tokens
zero_weight n r i h l = ground (arith, total-ge n (λ k. weight (r.nodes k)) i l)

Reach-tokens : {n : ℕ} {r s : Ring} → Reach n r s → Inv n r → tokens n s ≤ tokens n r
Reach-tokens here inv = omega arith
Reach-tokens (next q st) inv =
    omega (arith, Reach-tokens q inv, Step-tokens st (Reach-Inv q inv).coherent)

-- A lost token is lost for good: from a reachable state with no token, held or in flight, no later
-- state has a token, and in each of them every request on every node blocks.
pub lost_token_blocks :
    {n : ℕ} (ring_order : List ℕ) (holder : ℕ) {r s : Ring}
    → Reach n (init ring_order holder) r
    → tokens n r ≡ 0
    → Reach n r s
    → (i : ℕ) (resource requester : String) (ticket : ℕ) → i < n
    → (tokens n s ≡ 0) × ((request_access (s.nodes i) resource requester ticket).1 ≡ none)
unfolding request_access
lost_token_blocks {n} ring_order holder {r} {s} p h q i resource requester ticket l =
    (none_left, ground (arith, zero_weight n s i none_left l))
  where
    none_left : tokens n s ≡ 0
    none_left = omega (arith, Reach-tokens q (Reach-Inv p (init-Inv n ring_order holder)))

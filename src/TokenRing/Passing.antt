-- ===== src/TokenRing/Passing.antt =====
-- Where the token of internal/lock/lock.go goes when a node lets it go, and when it does not.
use ensemble_chat.Common.{
  ℕ, zero, suc, ◌+◌, ◌%◌, ◌<◌, ◌≡◌, ◌≢◌, ◌⊎◌, inl, inr, refl, sym, ap, ◌∙◌, pos, Bool, true, false,
  Option, none, some, List, [], ◌∷◌, ◌++◌, String, str_eq_iff, length, get_elem?, arith, List-cases,
  Bool-cases, Option-cases, str_eq,
}
use ensemble_chat.Types.{LockResponse}
use ensemble_chat.TokenRing.{
  CsRequest, TokenRingManager, Effect, on_pass_token, respond, find_index, new_token_ring_manager,
  get_next_node, request_access, release_access, acquired, grant,
}
use native.Mathlib.Nat.{mod-eq_of_lt, mod-add-mod}

-- The node is in the critical section, held by the requester.
abbrev pub Holds : TokenRingManager → (requester : String) → Type 0
Holds t requester = (t.in_cs ≡ true) × (t.cs_holder ≡ requester)

-- `ReleaseAccess`, on every branch: outside the section, or for another than its holder, it changes
-- nothing and reports failure; for the holder, the longest waiter of this node enters the section and
-- is told so, and the token stays; with no waiter the section is left and the token goes to the next
-- node with the next sequence number. It panics only where the ring has no next node.
pub release_access_cases :
    (t : TokenRingManager) (resource requester : String)
    → (((t.in_cs ≡ false) ⊎ (t.cs_holder ≢ requester))
        × (release_access t resource requester ≡ some (t, [], false)))
      ⊎ (Holds t requester
          × ((q : CsRequest) × (rest : List CsRequest) × (t.wait_queue ≡ q ∷ rest)
              × (release_access t resource requester
                  ≡ some (grant t q rest, respond q.ticket (acquired q) ∷ [], true))))
      ⊎ (Holds t requester
          × (t.wait_queue ≡ [])
          × ((j : ℕ) × (get_next_node t ≡ some j)
              × (release_access t resource requester
                  ≡ some (
                    record t {
                      in_cs = false;
                      cs_holder = "";
                      cs_resource = "";
                      has_token = false;
                      seq_num = t.seq_num + 1;
                    },
                    on_pass_token j (record { seq_num = t.seq_num + 1 }) ∷ [],
                    true,
                  ))))
      ⊎ (Holds t requester
          × (t.wait_queue ≡ [])
          × (get_next_node t ≡ none)
          × (release_access t resource requester ≡ none))
unfolding release_access
release_access_cases t resource requester = elim (Bool-cases t.in_cs) [
  | inr out ↦ inl (inl out, ground arith)
  | inl in_it ↦ elim (Bool-cases (str_eq t.cs_holder requester)) [
    | inr b ↦
        inl (inr (λ h. ground (arith, str_eq_iff t.cs_holder requester, b, h)), ground (arith, b))
    | inl b ↦
        let held : Holds t requester =
          (in_it, ground (arith, str_eq_iff t.cs_holder requester, b)) in
        elim (List-cases t.wait_queue) [
          | inr (q, rest, e) ↦ inr (inl (held, (q, rest, e, ground (arith, b, e))))
          | inl e ↦ elim (Option-cases (get_next_node t)) [
            | inl n ↦ inr (inr (inr (held, e, n, ground (arith, b, e, n))))
            | inr (j, n) ↦ inr (inr (inl (held, e, (j, n, ground (arith, b, e, n)))))
          ]
        ]
  ]
]

find_index_above :
    (x : ℕ) (ys : List ℕ) (i k : ℕ)
    → get_elem? ys k ≡ some x
    → ((j : ℕ) → j < k → get_elem? ys j ≢ some x)
    → find_index x ys i ≡ pos (i + k)
unfolding find_index
find_index_above x [] i k e h = cc
find_index_above x (y ∷ ys) i zero e h = ground arith
find_index_above x (y ∷ ys) i (suc k) e h =
    ground (arith, h 0, find_index_above x ys (i + 1) k e (λ j l. h (suc j) (omega arith)))

-- The ring names no node twice.
abbrev pub IsDistinct : List ℕ → Type 0
IsDistinct ring = (i j x : ℕ) → get_elem? ring i ≡ some x → get_elem? ring j ≡ some x → i ≡ j

-- The node that a token reaches after `m` passes from node `x`.
unfoldable pub walk : (ring : List ℕ) (holder m x : ℕ) → Option ℕ
walk ring holder zero x = some x
walk ring holder (suc m) x = elim (get_next_node (new_token_ring_manager x ring holder)) [
  | none ↦ none
  | some y ↦ walk ring holder m y
]

get_elem?-lt {ℓ} :
    {A : Type ℓ} (xs : List A) (i : ℕ) (x : A) → get_elem? xs i ≡ some x → i < length xs
get_elem?-lt [] i x h = cc
get_elem?-lt (y ∷ xs) zero x h = omega arith
get_elem?-lt (y ∷ xs) (suc i) x h = omega (arith, get_elem?-lt xs i x h)

get_elem?-some {ℓ} :
    {A : Type ℓ} (xs : List A) (i : ℕ) → i < length xs → (x : A) × (get_elem? xs i ≡ some x)
get_elem?-some [] i h = absurd (omega arith)
get_elem?-some (y ∷ xs) zero h = (y, refl)
get_elem?-some (y ∷ xs) (suc i) h = get_elem?-some xs i (omega arith)

next_lem :
    (ring : List ℕ) (holder k x : ℕ)
    → IsDistinct ring
    → get_elem? ring k ≡ some x
    → get_next_node (new_token_ring_manager x ring holder) ≡ get_elem? ring ((k + 1) % length ring)
unfolding get_next_node new_token_ring_manager
next_lem ring holder k x d e =
    rw (find_index_above x ring 0 k e (λ j l q. absurd (omega (arith, d j k x q e)))) (ground arith)

-- In a ring that names no node twice, the token that leaves the node at position `k` is, after `m`
-- passes, at position `k + m` modulo the length of the ring.
pub walk_visits :
    (ring : List ℕ) (holder m k x : ℕ)
    → IsDistinct ring
    → get_elem? ring k ≡ some x
    → walk ring holder m x ≡ get_elem? ring ((k + m) % length ring)
unfolding walk
walk_visits ring holder zero k x d e =
    let l : k < length ring = get_elem?-lt ring k x e in
    sym e
    ∙ ap (get_elem? ring) (sym (ap (λ (a : ℕ). a % length ring) (omega arith) ∙ mod-eq_of_lt l))
walk_visits ring holder (suc m) k x d e =
    let l : k < length ring = get_elem?-lt ring k x e in
    let below : (k + 1) % length ring < length ring = grind arith in
    let (y, q) = get_elem?-some ring ((k + 1) % length ring) below in
    rw (next_lem ring holder k x d e ∙ q, walk)
      (walk_visits ring holder m ((k + 1) % length ring) y d q
        ∙ ap (get_elem? ring)
            (mod-add-mod (k + 1) (length ring) m ∙ ap (λ (a : ℕ). a % length ring) (omega arith)))

-- A node in the critical section, with a caller waiting.
abbrev pub IsBusy : TokenRingManager → Type 0
IsBusy t = (t.has_token ≡ true) × (t.in_cs ≡ true) × (t.wait_queue ≢ [])

-- One more caller asks, and then the caller that is in the section releases it.
unfoldable pub round :
    TokenRingManager
    → (resource requester : String) (ticket : ℕ) → Option (TokenRingManager × List Effect × Bool)
round t resource requester ticket =
    release_access (request_access t resource requester ticket).0 t.cs_resource t.cs_holder

abbrev pub passes : List Effect → ℕ
passes [] = 0
passes (on_pass_token _ _ ∷ es) = suc (passes es)
passes (respond _ _ ∷ es) = passes es

-- The states after such rounds, with the tokens passed on the way; `none` is a panic.
unfoldable pub rounds :
    TokenRingManager → List (String × String × ℕ) → Option (TokenRingManager × ℕ)
rounds t [] = some (t, 0)
rounds t ((resource, requester, ticket) ∷ rs) = elim (round t resource requester ticket) [
  | none ↦ none
  | some (t', es, done) ↦ elim (rounds t' rs) [
    | none ↦ none
    | some (t'', k) ↦ some (t'', passes es + k)
  ]
]

snoc-ne-nil {ℓ} : {A : Type ℓ} (xs : List A) (x : A) → xs ++ x ∷ [] ≢ []
snoc-ne-nil [] x h = cc
snoc-ne-nil (y ∷ xs) x h = cc

round_busy :
    (t : TokenRingManager) (resource requester : String) (ticket : ℕ) (q : CsRequest)
    (rest : List CsRequest)
    → t.wait_queue ≡ q ∷ rest
    → IsBusy t
    → round t resource requester ticket
      ≡ some (
        grant t q
            (rest ++ record { resource = resource; requester = requester; ticket = ticket } ∷ []),
        respond q.ticket (acquired q) ∷ [],
        true,
      )
unfolding round request_access release_access
round_busy t resource requester ticket q rest e b =
    ground (arith, str_eq_iff t.cs_holder t.cs_holder)

rounds-nil : (t : TokenRingManager) → rounds t [] ≡ some (t, 0)
unfolding rounds
rounds-nil t = refl

rounds-cons :
    (t : TokenRingManager) (resource requester : String) (ticket : ℕ)
    (rs : List (String × String × ℕ)) {t' t'' : TokenRingManager} {n : ℕ} {resp : LockResponse}
    → round t resource requester ticket ≡ some (t', respond n resp ∷ [], true)
    → rounds t' rs ≡ some (t'', 0)
    → rounds t ((resource, requester, ticket) ∷ rs) ≡ some (t'', 0)
unfolding rounds
rounds-cons t resource requester ticket rs h k = ground arith

-- A node whose callers keep asking keeps the token: from a busy node, through any number of rounds of
-- one more request and one release, no token is passed, no call panics, and the node stays busy.
pub IsBusy-rounds :
    (t : TokenRingManager) (rs : List (String × String × ℕ))
    → IsBusy t
    → (t' : TokenRingManager) × (rounds t rs ≡ some (t', 0)) × IsBusy t'
IsBusy-rounds t [] b = (t, rounds-nil t, b)
IsBusy-rounds t ((resource, requester, ticket) ∷ rs) b = elim (List-cases t.wait_queue) [
  | inl e ↦ absurd (b.2 e)
  | inr (q, rest, e) ↦
      let (t', e', b') =
        IsBusy-rounds (grant t q (rest ++ _ ∷ [])) rs (b.0, refl, snoc-ne-nil rest _) in
      (
        t',
        rounds-cons t resource requester ticket rs
            (round_busy t resource requester ticket q rest e b) e',
        b',
      )
]

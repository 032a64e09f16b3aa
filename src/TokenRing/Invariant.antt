-- ===== src/TokenRing/Invariant.antt =====
-- The invariant of the token ring (internal/lock/lock.go): where the token is, and what a node that
-- holds it or waits for it looks like.
use ensemble_chat.Common.{
  ℕ, suc, ◌+◌, ◌≤◌, ◌<◌, ◌≡◌, refl, ap, Bool, true, false, some, List, [], ◌∷◌, ◌++◌, String,
  length, length-append, arith, if◌then◌else◌,
}
use ensemble_chat.Common.Family.{update, total, total_change, total_indicator-le}
use ensemble_chat.Types.{TokenMessage}
use ensemble_chat.TokenRing.{
  TokenRingManager, Effect, new_token_ring_manager, handle_token_receive, idle_pass, request_access,
  release_access,
}
use ensemble_chat.TokenRing.System.{
  Flight, Ring, passed, act, Step, idle, receive, request, release, lose, init,
}

-- Only the holder of the token is in the critical section, and a holder that is not in it has
-- nobody waiting.
pub record IsCoherent (t : TokenRingManager) : Type 0 where
  pub inside : t.in_cs ≡ true → t.has_token ≡ true
  pub served : t.has_token ≡ true → t.in_cs ≡ false → t.wait_queue ≡ []

abbrev pub weight : TokenRingManager → ℕ
weight t = if t.has_token then 1 else 0

-- The tokens in the ring: held, or in flight.
unfoldable pub tokens : (n : ℕ) → Ring → ℕ
tokens n r = total n (λ i. weight (r.nodes i)) + length r.flight

pub record Inv (n : ℕ) (r : Ring) : Type 0 where
  pub coherent : (i : ℕ) → IsCoherent (r.nodes i)
  pub single : tokens n r ≤ 1

-- One node: its effects put no more tokens in flight than it gave up.
abbrev Good : (n bonus : ℕ) → (t t' : TokenRingManager) → List Effect → Type 0
Good n bonus t t' es =
    (IsCoherent t → IsCoherent t') × (weight t' + length (passed n es) ≤ weight t + bonus)

idle-Good :
    (n : ℕ) (t t' : TokenRingManager) (es : List Effect)
    → idle_pass t ≡ some (t', es)
    → Good n 0 t t' es
unfolding idle_pass passed
idle-Good n t t' es h = (λ c. ground arith, ground arith)

receive-Good :
    (n : ℕ) (t : TokenRingManager) (tok : TokenMessage)
    → Good n 1 t (handle_token_receive t tok).0 (handle_token_receive t tok).1
unfolding handle_token_receive passed
receive-Good n t tok = (λ c. ground arith, ground arith)

request-Good :
    (n : ℕ) (t : TokenRingManager) (resource requester : String) (ticket : ℕ)
    → Good n 0 t (request_access t resource requester ticket).0 []
unfolding request_access passed
request-Good n t resource requester ticket = (λ c. ground arith, ground arith)

release_good :
    (n : ℕ) (t t' : TokenRingManager) (es : List Effect) (resource requester : String) (done : Bool)
    → release_access t resource requester ≡ some (t', es, done)
    → IsCoherent t
    → IsCoherent t' × (weight t' + length (passed n es) ≤ weight t)
unfolding release_access passed
release_good n t t' es resource requester done h c = (ground arith, ground arith)

-- One node goes over, and its part of the messages is `flight`.
tokens-act :
    (n : ℕ) (r : Ring) (flight : List Flight) (i : ℕ) (t : TokenRingManager) (es : List Effect)
    → i < n
    → tokens n (act n r flight i t es) + weight (r.nodes i) + length r.flight
      ≡ tokens n r + weight t + length flight + length (passed n es)
unfolding tokens act
tokens-act n r flight i t es l =
    let change : total n (λ j. weight (update r.nodes i t j)) + weight (r.nodes i)
        ≡ total n (λ j. weight (r.nodes j)) + weight (update r.nodes i t i) =
      total_change n (λ j. weight (r.nodes j)) (λ j. weight (update r.nodes i t j)) i l
        (λ j ne. ground arith) in
    ground (arith, change, length-append flight (passed n es))

act-IsCoherent :
    (n : ℕ) (r : Ring) (flight : List Flight) (i : ℕ) (t : TokenRingManager) (es : List Effect)
    → ((j : ℕ) → IsCoherent (r.nodes j))
    → IsCoherent t
    → (j : ℕ) → IsCoherent ((act n r flight i t es).nodes j)
unfolding act
act-IsCoherent n r flight i t es h c j = ground (arith, h j)

length_middle {ℓ} :
    {A : Type ℓ} (xs : List A) (y : A) (ys : List A)
    → length (xs ++ y ∷ ys) ≡ suc (length (xs ++ ys))
length_middle [] y ys = refl
length_middle (x ∷ xs) y ys = ap suc (length_middle xs y ys)

pub lose_tokens :
    (n : ℕ) (r : Ring) (pre : List Flight) (f : Flight) (post : List Flight)
    → r.flight ≡ pre ++ f ∷ post
    → tokens n (record r { flight = pre ++ post }) ≤ tokens n r
unfolding tokens
lose_tokens n r pre f post q = omega (arith, ap length q, length_middle pre f post)

-- No step makes a token.
pub Step-tokens :
    {n : ℕ} {r t : Ring} → Step n r t → ((i : ℕ) → IsCoherent (r.nodes i)) → tokens n t ≤ tokens n r
Step-tokens {n} {r} (idle i t es l h) c =
    omega (arith, tokens-act n r r.flight i t es l, (idle-Good n (r.nodes i) t es h).1)
Step-tokens {n} {r} (receive pre f post q l) c = omega (
  arith,
  tokens-act n r (pre ++ post) f.dst (handle_token_receive (r.nodes f.dst) f.tok).0
      (handle_token_receive (r.nodes f.dst) f.tok).1 l,
  (receive-Good n (r.nodes f.dst) f.tok).1,
  ap length q,
  length_middle pre f post,
)
Step-tokens {n} {r} (request i resource requester ticket l) c = omega (
  arith,
  tokens-act n r r.flight i (request_access (r.nodes i) resource requester ticket).0 [] l,
  (request-Good n (r.nodes i) resource requester ticket).1,
)
Step-tokens {n} {r} (release i resource requester t es done l h) c = omega (
  arith,
  tokens-act n r r.flight i t es l,
  (release_good n (r.nodes i) t es resource requester done h (c i)).1,
)
Step-tokens {n} {r} (lose pre f post q) c = lose_tokens n r pre f post q

Step-IsCoherent :
    {n : ℕ} {r t : Ring}
    → Step n r t
    → ((i : ℕ) → IsCoherent (r.nodes i))
    → (i : ℕ) → IsCoherent (t.nodes i)
Step-IsCoherent {n} {r} (idle i t es l h) c =
    act-IsCoherent n r r.flight i t es c ((idle-Good n (r.nodes i) t es h).0 (c i))
Step-IsCoherent {n} {r} (receive pre f post q l) c =
    act-IsCoherent n r (pre ++ post) f.dst _ _ c
      ((receive-Good n (r.nodes f.dst) f.tok).0 (c f.dst))
Step-IsCoherent {n} {r} (request i resource requester ticket l) c =
    act-IsCoherent n r r.flight i _ [] c
      ((request-Good n (r.nodes i) resource requester ticket).0 (c i))
Step-IsCoherent {n} {r} (release i resource requester t es done l h) c =
    act-IsCoherent n r r.flight i t es c
      (release_good n (r.nodes i) t es resource requester done h (c i)).0
Step-IsCoherent (lose pre f post q) c = c

-- Every step keeps the invariant.
pub Step-Inv : {n : ℕ} {r t : Ring} → Step n r t → Inv n r → Inv n t
Step-Inv st inv = record {
  coherent = Step-IsCoherent st inv.coherent;
  single = omega (arith, Step-tokens st inv.coherent, inv.single);
}

pub init-Inv : (n : ℕ) (ring_order : List ℕ) (holder : ℕ) → Inv n (init ring_order holder)
unfolding init new_token_ring_manager tokens
init-Inv n ring_order holder = record {
  coherent = λ i. record { inside = λ h. cc; served = λ h k. refl };
  single = omega (arith, total_indicator-le n holder);
}

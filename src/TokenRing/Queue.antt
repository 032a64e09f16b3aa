-- ===== src/TokenRing/Queue.antt =====
-- The waiting requests of one node of internal/lock/lock.go, over a run of its methods.
use ensemble_chat.Common.{
  ℕ, ◌≡◌, refl, sym, ap, subst, ◌∙◌, some_inj, map-append, Option-cases, inl, inr, Bool, Option,
  none, some, List, [], ◌∷◌, ◌++◌, map, String, arith, append_assoc, append-nil,
}
use ensemble_chat.Types.{TokenMessage, LockResponse}
use ensemble_chat.TokenRing.{
  CsRequest, TokenRingManager, Effect, on_pass_token, respond, handle_token_receive, idle_pass,
  request_access, release_access,
}

-- What can happen to a node.
pub data Event : Type 0 where
  receive : TokenMessage → Event
  idle : Event
  request : (resource requester : String) (ticket : ℕ) → Event
  release : (resource requester : String) → Event

-- The tickets that effects respond to.
unfoldable pub answered : List Effect → List ℕ
answered [] = []
answered (on_pass_token _ _ ∷ es) = answered es
answered (respond ticket _ ∷ es) = ticket ∷ answered es

-- The ticket of a request that blocks.
abbrev pub blocked : Option LockResponse → ℕ → List ℕ
blocked none ticket = ticket ∷ []
blocked (some _) ticket = []

-- A node with the tickets that have joined its queue and those that were answered, oldest first.
pub record Trace : Type 0 where
  pub node : TokenRingManager
  pub joined : List ℕ
  pub left : List ℕ

abbrev proceed : Trace → Option (TokenRingManager × List Effect) → Option Trace
proceed r none = none
proceed r (some (t, es)) = some (record r { node = t; left = r.left ++ answered es })

abbrev finish :
    Option (TokenRingManager × List Effect × Bool) → Option (TokenRingManager × List Effect)
finish none = none
finish (some (t, es, done)) = some (t, es)

-- One call. `none` is a panic.
unfoldable pub happen : Trace → Event → Option Trace
happen r (receive tok) = proceed r (some (handle_token_receive r.node tok))
happen r idle = proceed r (idle_pass r.node)
happen r (request resource requester ticket) = some (record r {
  node = (request_access r.node resource requester ticket).0;
  joined = r.joined ++ blocked (request_access r.node resource requester ticket).1 ticket;
})
happen r (release resource requester) =
    proceed r (finish (release_access r.node resource requester))

unfoldable pub run : Trace → List Event → Option Trace
run r [] = some r
run r (e ∷ es) = elim (happen r e) [ none ↦ none | some r' ↦ run r' es ]

abbrev pub tickets : List CsRequest → List ℕ
tickets = map (λ q. q.ticket)

-- Those that joined are those that were answered, followed by those that wait.
abbrev pub IsFifo : Trace → Type 0
IsFifo r = r.joined ≡ r.left ++ tickets r.node.wait_queue

-- A call that answers the head of the queue, or nobody.
abbrev Drains : TokenRingManager → TokenRingManager × List Effect → Type 0
Drains t r = tickets t.wait_queue ≡ answered r.1 ++ tickets r.0.wait_queue

receive-Drains : (t : TokenRingManager) (tok : TokenMessage) → Drains t (handle_token_receive t tok)
unfolding handle_token_receive answered
receive-Drains t tok = ground arith

idle-Drains :
    (t t' : TokenRingManager) (es : List Effect) → idle_pass t ≡ some (t', es) → Drains t (t', es)
unfolding idle_pass answered
idle-Drains t t' es h = ground arith

release-Drains :
    (t t' : TokenRingManager) (es : List Effect) (resource requester : String)
    → finish (release_access t resource requester) ≡ some (t', es)
    → Drains t (t', es)
unfolding release_access answered
release-Drains t t' es resource requester h = ground arith

proceed-IsFifo :
    (r r' : Trace) (o : Option (TokenRingManager × List Effect))
    → ((t : TokenRingManager) (es : List Effect) → o ≡ some (t, es) → Drains r.node (t, es))
    → proceed r o ≡ some r'
    → IsFifo r
    → IsFifo r'
proceed-IsFifo r r' none d h f = cc
proceed-IsFifo r r' (some (t, es)) d h f =
    subst IsFifo (some_inj h)
      (f ∙ (ap (◌++◌ r.left) (d t es refl) ∙ sym (append_assoc r.left (answered es) _)))

request-IsFifo :
    (r : Trace) (resource requester : String) (ticket : ℕ)
    → IsFifo r
    → r.joined ++ blocked (request_access r.node resource requester ticket).1 ticket
      ≡ r.left ++ tickets (request_access r.node resource requester ticket).0.wait_queue
unfolding request_access
request-IsFifo r resource requester ticket f = ground (
  arith,
  map-append (λ (q : CsRequest). q.ticket) r.node.wait_queue
      (record { resource = resource; requester = requester; ticket = ticket } ∷ []),
  append_assoc r.left (tickets r.node.wait_queue) (ticket ∷ []),
  append-nil r.joined,
)

happen-IsFifo : (r r' : Trace) (e : Event) → happen r e ≡ some r' → IsFifo r → IsFifo r'
unfolding happen
happen-IsFifo r r' (receive tok) h f =
    proceed-IsFifo r r' (some (handle_token_receive r.node tok))
      (λ t es q. subst (Drains r.node) (some_inj q) (receive-Drains r.node tok)) h f
happen-IsFifo r r' idle h f = proceed-IsFifo r r' (idle_pass r.node) (idle-Drains r.node) h f
happen-IsFifo r r' (request resource requester ticket) h f =
    subst IsFifo (some_inj h) (request-IsFifo r resource requester ticket f)
happen-IsFifo r r' (release resource requester) h f =
    proceed-IsFifo r r' (finish (release_access r.node resource requester))
      (λ t es. release-Drains r.node t es resource requester) h f

run-IsFifo : (r r' : Trace) (es : List Event) → run r es ≡ some r' → IsFifo r → IsFifo r'
unfolding run
run-IsFifo r r' [] h f = subst IsFifo (some_inj h) f
run-IsFifo r r' (e ∷ es) h f = elim (Option-cases (happen r e)) [
  | inl q ↦ cc (rw (q, run) at h)
  | inr (s, q) ↦ run-IsFifo s r' es (rw (q, run) at h) (happen-IsFifo r s e q f)
]

-- Over any run of calls on a node that starts with an empty queue: the requests that blocked, in the
-- order in which they were made, are those that were granted, in the order of the grants, followed by
-- those that still wait, in the order of the queue.
pub queue_is_fifo :
    (t : TokenRingManager) (es : List Event) (r : Trace)
    → t.wait_queue ≡ []
    → run (record { node = t; joined = []; left = [] }) es ≡ some r
    → r.joined ≡ r.left ++ tickets r.node.wait_queue
queue_is_fifo t es r q h = run-IsFifo _ r es h (ap tickets (sym q))

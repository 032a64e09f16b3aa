-- ===== src/TokenRing.antt =====
-- internal/lock/lock.go: one node of the token ring. The methods run under the manager's mutex, so
-- each is one function on its state. A Go panic is `none`. A caller that waits on a response channel
-- is known by a number, its ticket, and the responses and the passed token are returned as effects.
pub mod Queue
pub mod System
pub mod Invariant
pub mod Safety
pub mod Passing
mod Examples
use ensemble_chat.Common.{
  ℕ, zero, suc, ◌+◌, ◌%◌, ℤ, pos, minus_one, pos_part, suc_ℤ, Bool, true, false, not, ◌&&◌, Option,
  none, some, List, [], ◌∷◌, ◌++◌, String, str_eq, length, get_elem?, ◌==◌, if◌then◌else◌,
}
use ensemble_chat.Types.{TokenMessage, LockResponse}

-- TokenIdlePassInterval, in nanoseconds.
abbrev pub token_idle_pass_interval : ℕ
token_idle_pass_interval = 200_000_000

pub record CsRequest : Type 0 where
  pub resource : String
  pub requester : String
  pub ticket : ℕ  -- the response channel

pub record TokenRingManager : Type 0 where
  pub node_id : ℕ
  pub ring_order : List ℕ
  pub ring_index : ℤ
  pub has_token : Bool
  pub seq_num : ℕ
  pub in_cs : Bool
  pub cs_holder : String
  pub cs_resource : String
  pub wait_queue : List CsRequest

pub data Effect : Type 0 where
  on_pass_token : (next_node : ℕ) → TokenMessage → Effect
  respond : (ticket : ℕ) → LockResponse → Effect

-- The position of `x`, counted from `i`, or -1: the loop of `NewTokenRingManager`.
unfoldable pub find_index : (x : ℕ) → List ℕ → (i : ℕ) → ℤ
find_index x [] i = minus_one
find_index x (y ∷ ys) i = let rest = find_index x ys (i + 1) in if y == x then pos i else rest

unfoldable pub new_token_ring_manager :
    (node_id : ℕ) (ring_order : List ℕ) (initial_holder : ℕ) → TokenRingManager
unfolding find_index
new_token_ring_manager node_id ring_order initial_holder = record {
  node_id = node_id;
  ring_order = ring_order;
  ring_index = find_index node_id ring_order 0;
  has_token = node_id == initial_holder;
  seq_num = 0;
  in_cs = false;
  cs_holder = "";
  cs_resource = "";
  wait_queue = [];
}

abbrev pub acquired : CsRequest → LockResponse
acquired req = record {
  resource = req.resource;
  granted = true;
  holder = req.requester;
  reason = "token acquired — critical section granted";
}

-- The head of the queue enters the critical section.
abbrev pub grant : TokenRingManager → CsRequest → List CsRequest → TokenRingManager
grant t req rest = record t {
  wait_queue = rest;
  in_cs = true;
  cs_holder = req.requester;
  cs_resource = req.resource;
}

unfoldable pub handle_token_receive :
    TokenRingManager → TokenMessage → TokenRingManager × List Effect
handle_token_receive t tok =
    let t' : TokenRingManager = record t { has_token = true; seq_num = tok.seq_num } in
    elim t.wait_queue [
      | [] ↦ (t', [])
      | req ∷ rest ↦ (grant t' req rest, respond req.ticket (acquired req) ∷ [])
    ]

-- `none`: the ring is empty, and the division or the index panics.
unfoldable pub get_next_node : TokenRingManager → Option ℕ
get_next_node t = get_elem? t.ring_order (pos_part (suc_ℤ t.ring_index) % length t.ring_order)

unfoldable pub pass_token_locked : TokenRingManager → Option (TokenRingManager × List Effect)
unfolding get_next_node
pass_token_locked t = elim (get_next_node t) [
  | none ↦ none
  | some next_node ↦ some (
    record t { seq_num = t.seq_num + 1; has_token = false },
    on_pass_token next_node (record { seq_num = t.seq_num + 1 }) ∷ [],
  )
]

abbrev pub is_empty {ℓ} : {A : Type ℓ} → List A → Bool
is_empty [] = true
is_empty (x ∷ xs) = false

unfoldable pub idle_pass : TokenRingManager → Option (TokenRingManager × List Effect)
unfolding pass_token_locked
idle_pass t =
    if t.has_token && (not t.in_cs && is_empty t.wait_queue)
    then pass_token_locked t
    else some (t, [])

-- `RequestAccess` up to the point where it returns (the response) or blocks on its channel (`none`).
unfoldable pub request_access :
    TokenRingManager
    → (resource requester : String) (ticket : ℕ) → TokenRingManager × Option LockResponse
request_access t resource requester ticket =
    if t.has_token && not t.in_cs
    then (
      record t { in_cs = true; cs_holder = requester; cs_resource = resource },
      some (record {
        resource = resource;
        granted = true;
        holder = requester;
        reason = "token already held — access granted immediately";
      }),
    )
    else (
      record t {
        wait_queue =
            t.wait_queue
            ++ record { resource = resource; requester = requester; ticket = ticket } ∷ [];
      },
      none,
    )

-- What `ReleaseAccess` does once the caller is known to hold the section.
unfoldable pub leave : TokenRingManager → Option (TokenRingManager × List Effect)
unfolding pass_token_locked
leave t =
    let t' : TokenRingManager = record t { in_cs = false; cs_holder = ""; cs_resource = "" } in
    elim t.wait_queue [
      | [] ↦ pass_token_locked t'
      | req ∷ rest ↦ some (grant t' req rest, respond req.ticket (acquired req) ∷ [])
    ]

unfoldable pub release_access :
    TokenRingManager
    → (resource requester : String) → Option (TokenRingManager × List Effect × Bool)
unfolding leave
release_access t resource requester =
    if not t.in_cs
    then some (t, [], false)
    else if not (str_eq t.cs_holder requester)
    then some (t, [], false)
    else elim (leave t) [ none ↦ none | some (t', es) ↦ some (t', es, true) ]

-- `HasToken` and `GetStatus`
unfoldable pub has_token : TokenRingManager → Bool
has_token t = t.has_token

unfoldable pub get_status : TokenRingManager → Bool × Bool × String × String
get_status t = (t.has_token, t.in_cs, t.cs_resource, t.cs_holder)

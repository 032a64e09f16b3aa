-- ===== src/TokenRing/System.antt =====
-- The token ring among `n` nodes numbered from 0: the managers of internal/lock/lock.go, joined by
-- `OnPassToken` as `SetupInProcessComm` (internal/coordinator/coordinator.go) wires it. A token is
-- in flight from the pass to its receipt from `TokenCh`; it may be lost, as when the next node has
-- been killed. A panicking call makes no step.
use ensemble_chat.Common.{ℕ, ◌<◌, ◌≡◌, Bool, some, List, [], ◌∷◌, ◌++◌, String, ltb, if◌then◌else◌}
use ensemble_chat.Common.Family.{update}
use ensemble_chat.Types.{TokenMessage}
use ensemble_chat.TokenRing.{
  TokenRingManager, Effect, on_pass_token, respond, new_token_ring_manager, handle_token_receive,
  idle_pass, request_access, release_access,
}

pub record Flight : Type 0 where
  pub dst : ℕ
  pub tok : TokenMessage

pub record Ring : Type 0 where
  pub nodes : ℕ → TokenRingManager
  pub flight : List Flight

-- What `OnPassToken` pushes: nothing, if no node has the number.
unfoldable pub passed : (n : ℕ) → List Effect → List Flight
passed n [] = []
passed n (on_pass_token next_node tok ∷ es) =
    (if ltb next_node n then record { dst = next_node; tok = tok } ∷ [] else []) ++ passed n es
passed n (respond _ _ ∷ es) = passed n es

unfoldable pub act : (n : ℕ) → Ring → List Flight → (i : ℕ) → TokenRingManager → List Effect → Ring
act n r flight i t es = record { nodes = update r.nodes i t; flight = flight ++ passed n es }

pub data Step (n : ℕ) (r : Ring) : Ring → Type 0 where
  idle :
      (i : ℕ) (t : TokenRingManager) (es : List Effect)
      → i < n
      → idle_pass (r.nodes i) ≡ some (t, es)
      → Step n r (act n r r.flight i t es)
  receive :
      (pre : List Flight) (f : Flight) (post : List Flight)
      → r.flight ≡ pre ++ f ∷ post
      → f.dst < n
      → Step n r (
          act n r
            (pre ++ post)
            f.dst
            (handle_token_receive (r.nodes f.dst) f.tok).0
            (handle_token_receive (r.nodes f.dst) f.tok).1)
  request :
      (i : ℕ) (resource requester : String) (ticket : ℕ)
      → i < n
      → Step n r (act n r r.flight i (request_access (r.nodes i) resource requester ticket).0 [])
  release :
      (i : ℕ) (resource requester : String) (t : TokenRingManager) (es : List Effect) (done : Bool)
      → i < n
      → release_access (r.nodes i) resource requester ≡ some (t, es, done)
      → Step n r (act n r r.flight i t es)
  lose :
      (pre : List Flight) (f : Flight) (post : List Flight)
      → r.flight ≡ pre ++ f ∷ post
      → Step n r (record r { flight = pre ++ post })

-- All nodes start with one ring and one initial holder.
unfoldable pub init : (ring_order : List ℕ) (initial_holder : ℕ) → Ring
init ring_order initial_holder = record {
  nodes = λ i. new_token_ring_manager i ring_order initial_holder;
  flight = [];
}

pub data Reach (n : ℕ) (r : Ring) : Ring → Type 0 where
  here : Reach n r r
  next : {s t : Ring} → Reach n r s → Step n s t → Reach n r t

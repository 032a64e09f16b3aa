-- ===== src/Election/Invariant/Receipts.antt =====
-- The invariant of the election across the receipt of a message (internal/election/election.go).
use mathlib.Core.Path.{fun_ext}
use ensemble_chat.Common.{
  ℕ, ◌+◌, ◌≤◌, ◌<◌, ◌≡◌, ◌⊎◌, inl, inr, refl, ap, Bool, sym, subst, true, false, ltb, eq_ℤ_iff, pos,
  minus_one, List, [], ◌∷◌, ◌++◌, arith, if◌then◌else◌, append-nil,
}
use ensemble_chat.Common.Family.{update}
use ensemble_chat.Types.{VoteRequest, VoteResponse, Heartbeat}
use ensemble_chat.Election.{
  ElectionNode, Effect, on_send_vote_resp, step_down, can_grant, grant_vote, handle_vote_request,
  handle_vote_response, handle_heartbeat,
}
use ensemble_chat.Election.Cluster.{
  Packet, vote_request, vote_response, heartbeat, dst, outgoing, cast_vote, cast_votes, System,
  receive, act,
}
use ensemble_chat.Election.Counting.{count, count-append, count_middle, asks, grants}
use ensemble_chat.Election.Invariant.Defs.{Inv}
use ensemble_chat.Election.Invariant.Quiet.{Quiet, changed, Quiet-Inv}
use ensemble_chat.Election.Invariant.Grant.{Grants, Grants-Inv}
use ensemble_chat.Election.Invariant.Effects.{IsMute, IsMute-outgoing, IsMute-cast_votes}

update_twice {ℓ} :
    {A : Type ℓ} (f : ℕ → A) (i : ℕ) (a b : A) → update (update f i a) i b ≡ update f i b
update_twice f i a b = fun_ext (λ j. ground arith)

pub removed :
    {net : List Packet} (pre : List Packet) (p : Packet) (post : List Packet)
    → net ≡ pre ++ p ∷ post
    → (w : Packet → ℕ) → count w net ≡ w p + count w (pre ++ post)
removed pre p post q w = rw q (count_middle w pre p post)

grant_vote_cases :
    (d : ElectionNode) (req : VoteRequest) (now : ℕ)
    → ((can_grant d req ≡ true)
        × (grant_vote d req now ≡ (
          record d { voted_for = pos req.candidate_id; last_heartbeat = now },
          on_send_vote_resp req.candidate_id
                (record { term = d.current_term; vote_granted = true; voter_id = d.id })
              ∷ [],
        )))
      ⊎ (grant_vote d req now ≡ (
        d,
        on_send_vote_resp req.candidate_id
              (record { term = d.current_term; vote_granted = false; voter_id = d.id })
            ∷ [],
      ))
unfolding grant_vote
grant_vote_cases d req now = ground arith

-- A message of the network, and what is left without it.
module _ (n : ℕ) (s : System) (p : Packet) (rest : List Packet) (l : dst p < n)
    (inv : Inv n s) where
  abbrev i : ℕ
  i = dst p

  abbrev e : ElectionNode
  e = s.nodes i

  abbrev Taken : Type 0
  Taken = (w : Packet → ℕ) → count w s.net ≡ w p + count w rest

  mute_act :
      (r : ElectionNode × List Effect)
      → IsMute r.1
      → Quiet n s i r.0 rest
      → Inv n (act n s rest i r)
  unfolding act
  mute_act r m q =
      rw (IsMute-outgoing n i r.1 m, IsMute-cast_votes s.ballots r.1 m, append-nil)
        (Quiet-Inv n s i r.0 rest q inv)

  response-Quiet :
      (resp : VoteResponse)
      → p ≡ vote_response i resp
      → Taken
      → Quiet n s i (handle_vote_response e resp).0 rest
  unfolding handle_vote_response
  response-Quiet resp q taken = record {
    same_id = ground arith;
    same_peers = ground arith;
    keeps = ground arith;
    fewer_asks = λ c v t. omega (arith, taken (asks c v t));
    fewer_grants = λ c t. omega (arith, taken (grants c t));
    tally = λ h. ground (arith, inv.tally i l, taken (grants i e.current_term), q);
    won = λ h.
        ground
          (arith, inv.tally i l, inv.won i l, inv.sizes i l, taken (grants i e.current_term), q);
  }

  heartbeat-Quiet :
      (hb : Heartbeat) (now : ℕ) → Taken → Quiet n s i (handle_heartbeat e hb now).0 rest
  unfolding handle_heartbeat
  heartbeat-Quiet hb now taken = record {
    same_id = ground arith;
    same_peers = ground arith;
    keeps = ground arith;
    fewer_asks = λ c v t. omega (arith, taken (asks c v t));
    fewer_grants = λ c t. omega (arith, taken (grants c t));
    tally = λ h. ground (arith, inv.tally i l, taken (grants i e.current_term));
    won = λ h. ground (arith, inv.won i l);
  }

  -- What an answer to a request puts on the way.
  answer-count :
      (w : Packet → ℕ) (c : ℕ) (resp : VoteResponse)
      → count w (rest ++ outgoing n i (on_send_vote_resp c resp ∷ []))
        ≤ count w rest + w (vote_response c resp)
  unfolding outgoing count
  answer-count w c resp =
      rw append-nil
        (ground (arith, count-append w rest (if ltb c n then vote_response c resp ∷ [] else [])))

  module _ (req : VoteRequest) (now : ℕ) (taken : Taken) where
    abbrev down : ElectionNode
    down = step_down e req

    abbrev outcome : ElectionNode × List Effect
    outcome = handle_vote_request e req now

    denied-Quiet :
        (resp : VoteResponse)
        → resp.vote_granted ≡ false
        → Quiet n s i down (rest ++ outgoing n i (on_send_vote_resp req.candidate_id resp ∷ []))
    unfolding step_down
    denied-Quiet resp h = record {
      same_id = ground arith;
      same_peers = ground arith;
      keeps = ground arith;
      fewer_asks = λ c v t.
          omega (arith, taken (asks c v t), answer-count (asks c v t) req.candidate_id resp);
      fewer_grants = λ c t.
          ground (arith, taken (grants c t), answer-count (grants c t) req.candidate_id resp);
      tally = λ g. ground (
        arith,
        inv.tally i l,
        taken (grants i e.current_term),
        answer-count (grants i e.current_term) req.candidate_id resp,
      );
      won = λ g. ground (arith, inv.won i l);
    }

    down-Quiet : Quiet n s i down s.net
    unfolding step_down
    down-Quiet = record {
      same_id = ground arith;
      same_peers = ground arith;
      keeps = ground arith;
      fewer_asks = λ c v t. omega arith;
      fewer_grants = λ c t. omega arith;
      tally = λ g. ground (arith, inv.tally i l);
      won = λ g. ground (arith, inv.won i l);
    }

    abbrev s₁ : System
    s₁ = changed s i down s.net

    can_term : can_grant down req ≡ true → down.current_term ≡ req.term
    unfolding step_down can_grant
    can_term h = ground arith

    abbrev voter : ElectionNode
    voter = record down { voted_for = pos req.candidate_id; last_heartbeat = now }

    granted-Grants :
        (resp : VoteResponse)
        → can_grant down req ≡ true
        → p ≡ vote_request i req
        → resp ≡ record { term = down.current_term; vote_granted = true; voter_id = down.id }
        → Grants s₁ i req.candidate_id voter
            (rest ++ outgoing n i (on_send_vote_resp req.candidate_id resp ∷ []))
    unfolding step_down can_grant
    granted-Grants resp can q r = record {
      same_id = ground arith;
      same_peers = ground arith;
      same_term = ground arith;
      same_state = ground arith;
      same_count = ground arith;
      free =
          ground
            (arith, eq_ℤ_iff e.voted_for minus_one, eq_ℤ_iff e.voted_for (pos req.candidate_id));
      vote = refl;
      answered = ground (
        arith,
        taken (asks req.candidate_id i down.current_term),
        answer-count (asks req.candidate_id i down.current_term) req.candidate_id resp,
        ap (asks req.candidate_id i down.current_term) q,
        can_term can,
      );
      fewer_asks = λ c v t.
          omega (arith, taken (asks c v t), answer-count (asks c v t) req.candidate_id resp);
      more_grants = λ c t.
          ground (arith, taken (grants c t), answer-count (grants c t) req.candidate_id resp, r);
    }

    abbrev answer : Bool → VoteResponse
    answer b = record { term = down.current_term; vote_granted = b; voter_id = down.id }

    down_id : down.id ≡ i
    unfolding step_down
    down_id = ground (arith, inv.ids i)

    denied_act :
        Inv n (act n s rest i (down, on_send_vote_resp req.candidate_id (answer false) ∷ []))
    unfolding act cast_votes
    denied_act = Quiet-Inv n s i down _ (denied-Quiet (answer false) refl) inv

    granted_act :
        can_grant down req ≡ true
        → p ≡ vote_request i req
        → Inv n (act n s rest i (voter, on_send_vote_resp req.candidate_id (answer true) ∷ []))
    unfolding act cast_votes
    granted_act can q =
        subst
          (λ (f : ℕ → ElectionNode). Inv n (record {
            nodes = f;
            net = rest ++ outgoing n i (on_send_vote_resp req.candidate_id (answer true) ∷ []);
            ballots = cast_vote s.ballots down.id down.current_term req.candidate_id;
          }))
          (update_twice s.nodes i down voter)
          (subst
            (λ (m : ℕ). Inv n (record {
              nodes = update s₁.nodes i voter;
              net = rest ++ outgoing n i (on_send_vote_resp req.candidate_id (answer true) ∷ []);
              ballots = cast_vote s.ballots m down.current_term req.candidate_id;
            }))
            (sym down_id)
            (Grants-Inv n s₁ i req.candidate_id voter _ l (granted-Grants (answer true) can q refl)
              (Quiet-Inv n s i down s.net down-Quiet inv)))

    request-Inv : p ≡ vote_request i req → Inv n (act n s rest i outcome)
    unfolding handle_vote_request
    request-Inv q = elim (grant_vote_cases down req now) [
      | inl (can, r) ↦ rw r (granted_act can q)
      | inr r ↦ rw r denied_act
    ]

  heartbeat-IsMute : (hb : Heartbeat) (now : ℕ) → IsMute (handle_heartbeat e hb now).1
  unfolding handle_heartbeat
  heartbeat-IsMute hb now = ground arith

  response-IsMute : (resp : VoteResponse) → IsMute (handle_vote_response e resp).1
  unfolding handle_vote_response
  response-IsMute resp = ground arith

-- The handler of a message that was on the way keeps the invariant.
pub recv-Inv :
    (n : ℕ) (s : System) (pre : List Packet) (p : Packet) (post : List Packet) (now : ℕ)
    → dst p < n
    → Inv n s
    → s.net ≡ pre ++ p ∷ post
    → Inv n (act n s (pre ++ post) (dst p) (receive (s.nodes (dst p)) p now))
unfolding receive
recv-Inv n s pre (vote_request d req) post now l inv q =
    request-Inv n s (vote_request d req) (pre ++ post) l inv req now (removed pre _ post q) refl
recv-Inv n s pre (vote_response d resp) post now l inv q =
    mute_act n s (vote_response d resp) (pre ++ post) l inv _
      (response-IsMute n s (vote_response d resp) (pre ++ post) l inv resp)
      (response-Quiet n s (vote_response d resp) (pre ++ post) l inv resp refl
        (removed pre _ post q))
recv-Inv n s pre (heartbeat d hb) post now l inv q =
    mute_act n s (heartbeat d hb) (pre ++ post) l inv _
      (heartbeat-IsMute n s (heartbeat d hb) (pre ++ post) l inv hb now)
      (heartbeat-Quiet n s (heartbeat d hb) (pre ++ post) l inv hb now (removed pre _ post q))

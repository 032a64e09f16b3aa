-- ===== src/Election/Invariant/Ticks.antt =====
-- The invariant of the election across `checkElectionTimeout` (internal/election/election.go).
use ensemble_chat.Common.{
  ℕ, ◌+◌, ◌≤◌, ◌<◌, ◌≡◌, ◌⊎◌, inl, inr, refl, sym, ◌≢◌, ◌∙◌, subst, List, [], ◌++◌, arith,
  append-nil,
}
use ensemble_chat.Common.Family.{update}
use ensemble_chat.Types.{VoteRequest}
use ensemble_chat.Election.{
  ElectionNode, Effect, start_election, send_heartbeat, check_election_timeout,
}
use ensemble_chat.Election.Cluster.{
  Packet, vote_request, broadcast, outgoing, cast_vote, cast_votes, System, act,
}
use ensemble_chat.Election.Counting.{
  count, count-append, asks, grants, broadcast-asks-le, broadcast-asks_self, broadcast-asks_ne,
  broadcast-grants,
}
use ensemble_chat.Election.Invariant.Defs.{Inv}
use ensemble_chat.Election.Invariant.Quiet.{Quiet, Quiet-Inv}
use ensemble_chat.Election.Invariant.Campaign.{Campaign, Campaign-Inv}
use ensemble_chat.Election.Invariant.Effects.{Silent, Silent-nil, Silent-heartbeat}

module _ (n : ℕ) (s : System) (i : ℕ) (l : i < n) (inv : Inv n s) where
  abbrev e : ElectionNode
  e = s.nodes i

  -- A node that does not change.
  idle-Quiet :
      (net : List Packet)
      → ((c v t : ℕ) → count (asks c v t) net ≤ count (asks c v t) s.net)
      → ((c t : ℕ) → count (grants c t) net ≤ count (grants c t) s.net)
      → Quiet n s i e net
  idle-Quiet net a g = record {
    same_id = refl;
    same_peers = refl;
    keeps = inl (refl, refl);
    fewer_asks = a;
    fewer_grants = g;
    tally = λ h. omega (arith, inv.tally i l h, g i e.current_term);
    won = λ h. inv.won i l h;
  }

  -- A node that sends nothing of weight, after it took some of the messages on the way.
  Silent-asks :
      (net : List Packet) (es : List Effect)
      → Silent n i es
      → (c v t : ℕ) → count (asks c v t) net ≤ count (asks c v t) s.net
      → count (asks c v t) (net ++ outgoing n i es) ≤ count (asks c v t) s.net
  Silent-asks net es q c v t h =
      omega (arith, q.0 c v t, count-append (asks c v t) net (outgoing n i es))

  Silent-grants :
      (net : List Packet) (es : List Effect)
      → Silent n i es
      → (c t : ℕ) → count (grants c t) net ≤ count (grants c t) s.net
      → count (grants c t) (net ++ outgoing n i es) ≤ count (grants c t) s.net
  Silent-grants net es q c t h =
      omega (arith, q.1 c t, count-append (grants c t) net (outgoing n i es))

  tick_cases :
      (now draw : ℕ)
      → ((check_election_timeout e now draw ≡ (e, send_heartbeat e))
          ⊎ (check_election_timeout e now draw ≡ (e, [])))
        ⊎ (check_election_timeout e now draw ≡ start_election e now draw)
  unfolding check_election_timeout
  tick_cases now draw = ground arith

  abbrev bid : VoteRequest
  bid = record { term = e.current_term + 1; candidate_id = e.id }

  bids : List Packet
  bids = broadcast n i (λ d. vote_request d bid)

  bids-ne :
      (c v t : ℕ) → (v ≡ i) ⊎ ((c ≢ i) ⊎ (t ≢ e.current_term + 1)) → count (asks c v t) bids ≡ 0
  unfolding bids
  bids-ne c v t (inl own) = broadcast-asks_self i bid c v t n own
  bids-ne c v t (inr (inl them)) =
      broadcast-asks_ne i bid c v t n (inl (λ p. them (sym p ∙ inv.ids i)))
  bids-ne c v t (inr (inr other)) = broadcast-asks_ne i bid c v t n (inr (λ p. other (sym p)))

  start_election-Campaign :
      (now draw : ℕ)
      → Campaign s i
          (start_election e now draw).0
          (s.net ++ outgoing n i (start_election e now draw).1)
  unfolding start_election outgoing bids
  start_election-Campaign now draw = record {
    same_id = refl;
    same_peers = refl;
    new_term = refl;
    own_vote = ground (arith, inv.ids i);
    one_vote = refl;
    stands = refl;
    same_grants = λ c t.
        rw append-nil
          (omega (arith, count-append (grants c t) s.net bids, broadcast-grants n i bid c t));
    one_more = λ c v t.
        rw append-nil
          (omega (arith, count-append (asks c v t) s.net bids, broadcast-asks-le i bid c v t n));
    no_more = λ c v t h.
        rw append-nil (omega (arith, count-append (asks c v t) s.net bids, bids-ne c v t h));
  }

  start_election-Inv : (now draw : ℕ) → Inv n (act n s s.net i (start_election e now draw))
  unfolding act cast_votes start_election
  start_election-Inv now draw =
      subst
        (λ (m : ℕ). Inv n (record {
          nodes = update s.nodes i (start_election e now draw).0;
          net = s.net ++ outgoing n i (start_election e now draw).1;
          ballots = cast_vote s.ballots m (e.current_term + 1) m;
        }))
        (sym (inv.ids i)) (Campaign-Inv n s i _ _ l (start_election-Campaign now draw) inv)

  Silent-act :
      (net : List Packet) (es : List Effect)
      → Silent n i es
      → cast_votes s.ballots es ≡ s.ballots
      → ((c v t : ℕ) → count (asks c v t) net ≤ count (asks c v t) s.net)
      → ((c t : ℕ) → count (grants c t) net ≤ count (grants c t) s.net)
      → Inv n (act n s net i (e, es))
  unfolding act
  Silent-act net es q b a g = rw b (
      Quiet-Inv n s i e (net ++ outgoing n i es)
        (idle-Quiet _ (λ c v t. Silent-asks net es q c v t (a c v t))
          (λ c t. Silent-grants net es q c t (g c t)))
        inv)

  pub tick-Inv : (now draw : ℕ) → Inv n (act n s s.net i (check_election_timeout e now draw))
  unfolding send_heartbeat cast_votes
  tick-Inv now draw = elim (tick_cases now draw) [
    | inl (inl h) ↦ rw h beat
    | inl (inr h) ↦ rw h (quiet [] (Silent-nil n i) refl)
    | inr h ↦ rw h (start_election-Inv now draw)
  ]
    where
      quiet :
          (es : List Effect)
          → Silent n i es
          → cast_votes s.ballots es ≡ s.ballots
          → Inv n (act n s s.net i (e, es))
      quiet es q b = Silent-act s.net es q b (λ c v t. omega arith) (λ c t. omega arith)

      beat : Inv n (act n s s.net i (e, send_heartbeat e))
      beat = quiet (send_heartbeat e) (Silent-heartbeat n i _) refl

-- ===== src/Election/Invariant/Grant.antt =====
-- The invariant of the election across a vote (internal/election/election.go).
use ensemble_chat.Common.{
  ℕ, ◌+◌, ◌≤◌, ◌<◌, ◌≡◌, ◌⊎◌, inl, inr, pos, minus_one, none, List, arith, Option-cases, ◌&&◌, ◌==◌,
  if◌then◌else◌,
}
use ensemble_chat.Common.Family.{update}
use ensemble_chat.Types.{candidate}
use ensemble_chat.Election.{ElectionNode}
use ensemble_chat.Election.Cluster.{Packet, System, cast_vote}
use ensemble_chat.Election.Counting.{
  count, asks, grants, votes, votes-cast_vote_self, votes-cast_vote-ge,
}
use ensemble_chat.Election.Invariant.Defs.{Inv}

-- Node `i`, asked by candidate `choice` in the term that it is in, becomes `e'`.
pub record Grants (s : System) (i choice : ℕ) (e' : ElectionNode) (net : List Packet) : Type 0 where
  pub same_id : e'.id ≡ (s.nodes i).id
  pub same_peers : e'.peers ≡ (s.nodes i).peers
  pub same_term : e'.current_term ≡ (s.nodes i).current_term
  pub same_state : e'.state ≡ (s.nodes i).state
  pub same_count : e'.vote_count ≡ (s.nodes i).vote_count
  pub free : ((s.nodes i).voted_for ≡ minus_one) ⊎ ((s.nodes i).voted_for ≡ pos choice)
  pub vote : e'.voted_for ≡ pos choice
  pub answered :
      count (asks choice i e'.current_term) net + 1 ≤ count (asks choice i e'.current_term) s.net
  pub fewer_asks : (c v t : ℕ) → count (asks c v t) net ≤ count (asks c v t) s.net
  pub more_grants :
      (c t : ℕ)
      → count (grants c t) net
        ≤ count (grants c t) s.net + (if c == choice && t == e'.current_term then 1 else 0)

module _ (n : ℕ) (s : System) (i choice : ℕ) (e' : ElectionNode) (net : List Packet) (l : i < n)
    (q : Grants s i choice e' net) (inv : Inv n s) where
  abbrev term : ℕ
  term = e'.current_term

  abbrev after : System
  after = record {
    nodes = update s.nodes i e';
    net = net;
    ballots = cast_vote s.ballots i term choice;
  }

  fresh : s.ballots i term ≡ none
  fresh = elim (Option-cases (s.ballots i term)) [
    | inl e ↦ e
    | inr (c, e) ↦
        ground (arith, inv.agree_back i c, inv.once choice i term, q.answered, q.free, q.same_term)
  ]

  reached : term ≤ (s.nodes choice).current_term
  reached = omega (arith, inv.asked choice i term, q.answered)

  grants-tally :
      (c : ℕ)
      → c < n
      → (update s.nodes i e' c).state ≡ candidate
      → (update s.nodes i e' c).vote_count
          + count (grants c (update s.nodes i e' c).current_term) net
        ≤ votes n after.ballots c (update s.nodes i e' c).current_term
  grants-tally c k h =
      let t : ℕ = (s.nodes c).current_term in
      let sent : count (grants c t) net
          ≤ count (grants c t) s.net + (if c == choice && t == term then 1 else 0) =
        q.more_grants c t in
      let most : votes n s.ballots c t ≤ votes n after.ballots c t =
        votes-cast_vote-ge s.ballots i term choice n c t fresh in
      ground (
        arith,
        inv.tally c k,
        sent,
        most,
        q.same_state,
        q.same_count,
        q.same_term,
        votes-cast_vote_self s.ballots i term choice n l fresh,
      )

  pub Grants-Inv : Inv n after
  unfolding cast_vote
  Grants-Inv = record {
    ids = λ j. ground (arith, inv.ids j, inv.ids i, q.same_id);
    sizes = λ j k. ground (arith, inv.sizes j, q.same_peers);
    agree = λ v c h. ground (arith, inv.agree v c, q.vote);
    agree_back = λ v c h. ground (arith, inv.agree_back v c, q.vote);
    past = λ v c t h. ground (arith, inv.past v c t, q.same_term);
    known = λ v c t h. ground (arith, inv.known v c t, q.same_term, reached);
    once = λ c v t. ground (arith, inv.once c v t, q.answered, q.fewer_asks c v t);
    asked = λ c v t h. ground (arith, inv.asked c v t, q.fewer_asks c v t, q.same_term);
    granted = λ c t h. ground (arith, inv.granted c t, q.more_grants c t, q.same_term, reached);
    tally = grants-tally;
    won = λ c k h. ground (
      arith,
      q.same_state,
      q.same_term,
      inv.won c k,
      votes-cast_vote-ge s.ballots i term choice n c (s.nodes c).current_term fresh,
    );
  }

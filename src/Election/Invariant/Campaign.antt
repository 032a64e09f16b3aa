-- ===== src/Election/Invariant/Campaign.antt =====
-- The invariant of the election across `startElection` (internal/election/election.go).
use ensemble_chat.Common.{
  ℕ, ◌+◌, ◌≤◌, ◌<◌, ◌≡◌, ◌≢◌, ◌⊎◌, inl, inr, pos, none, List, arith, Option-cases, ℕ_discrete,
}
use ensemble_chat.Common.Family.{update}
use ensemble_chat.Types.{candidate}
use ensemble_chat.Election.{ElectionNode}
use ensemble_chat.Election.Cluster.{Packet, System, cast_vote}
use ensemble_chat.Election.Counting.{
  count, asks, grants, voted, votes, cast_vote_self, cast_vote_ne, votes-cast_vote_self,
  votes-cast_vote-ge,
}
use ensemble_chat.Election.Invariant.Defs.{Inv}

-- Nobody has voted in a term that it has not reached.
pub ballot_above :
    {n : ℕ} {s : System} → Inv n s → (v t : ℕ) → (s.nodes v).current_term < t → s.ballots v t ≡ none
ballot_above {s} inv v t l = elim (Option-cases (s.ballots v t)) [
  | inl e ↦ e
  | inr (c, e) ↦ absurd (omega (arith, inv.past v c t e))
]

-- Node `i` becomes `e'`, and what it sends is in `net`.
pub record Campaign (s : System) (i : ℕ) (e' : ElectionNode) (net : List Packet) : Type 0 where
  pub same_id : e'.id ≡ (s.nodes i).id
  pub same_peers : e'.peers ≡ (s.nodes i).peers
  pub new_term : e'.current_term ≡ (s.nodes i).current_term + 1
  pub own_vote : e'.voted_for ≡ pos i
  pub one_vote : e'.vote_count ≡ 1
  pub stands : e'.state ≡ candidate
  pub same_grants : (c t : ℕ) → count (grants c t) net ≡ count (grants c t) s.net
  pub one_more : (c v t : ℕ) → count (asks c v t) net ≤ count (asks c v t) s.net + 1
  pub no_more :
      (c v t : ℕ)
      → (v ≡ i) ⊎ ((c ≢ i) ⊎ (t ≢ e'.current_term))
      → count (asks c v t) net ≡ count (asks c v t) s.net

module _ (n : ℕ) (s : System) (i : ℕ) (e' : ElectionNode) (net : List Packet) (l : i < n)
    (q : Campaign s i e' net) (inv : Inv n s) where
  abbrev term : ℕ
  term = e'.current_term

  abbrev after : System
  after = record { nodes = update s.nodes i e'; net = net; ballots = cast_vote s.ballots i term i }

  fresh : s.ballots i term ≡ none
  fresh = ballot_above inv i term (omega (arith, q.new_term))

  no_asks : (v : ℕ) → count (asks i v term) s.net ≡ 0
  no_asks v = ground (arith, inv.asked i v term, q.new_term)

  no_grants : count (grants i term) s.net ≡ 0
  no_grants = ground (arith, inv.granted i term, q.new_term)

  not_voted : (v : ℕ) → voted (s.ballots v term) i ≡ 0
  not_voted v = elim (Option-cases (s.ballots v term)) [
    | inl e ↦ ground arith
    | inr (c, e) ↦ ground (arith, inv.known v c term, q.new_term)
  ]

  campaign-once : (c v t : ℕ) → count (asks c v t) net + voted (after.ballots v t) c ≤ 1
  campaign-once c v t = elim (ℕ_discrete t term) [
    | no other ↦ ground (
      arith,
      inv.once c v t,
      q.no_more c v t (inr (inr other)),
      cast_vote_ne s.ballots i term i v t (inr other),
    )
    | yes same ↦ elim (ℕ_discrete v i) [
      | yes own ↦ ground (
        arith,
        inv.once c v t,
        q.no_more c v t (inl own),
        cast_vote_self s.ballots i term i,
        no_asks i,
      )
      | no away ↦ elim (ℕ_discrete c i) [
        | yes me ↦ ground (
          arith,
          q.one_more c v t,
          no_asks v,
          not_voted v,
          cast_vote_ne s.ballots i term i v t (inl away),
        )
        | no them ↦ ground (
          arith,
          inv.once c v t,
          q.no_more c v t (inr (inl them)),
          cast_vote_ne s.ballots i term i v t (inl away),
        )
      ]
    ]
  ]

  campaign-asked :
      (c v t : ℕ) → 0 < count (asks c v t) net → t ≤ (update s.nodes i e' c).current_term
  campaign-asked c v t h = elim (ℕ_discrete c i) [
    | no them ↦ ground (arith, inv.asked c v t, q.no_more c v t (inr (inl them)), q.new_term)
    | yes me ↦ elim (ℕ_discrete t term) [
      | yes same ↦ ground arith
      | no other ↦ ground (arith, inv.asked c v t, q.no_more c v t (inr (inr other)), q.new_term)
    ]
  ]

  campaign-tally :
      (c : ℕ)
      → c < n
      → (update s.nodes i e' c).state ≡ candidate
      → (update s.nodes i e' c).vote_count
          + count (grants c (update s.nodes i e' c).current_term) net
        ≤ votes n after.ballots c (update s.nodes i e' c).current_term
  campaign-tally c k h = elim (ℕ_discrete c i) [
    | yes me ↦ ground (
      arith,
      q.one_vote,
      q.same_grants i term,
      no_grants,
      votes-cast_vote_self s.ballots i term i n l fresh,
    )
    | no them ↦ ground (
      arith,
      inv.tally c k,
      q.same_grants c (s.nodes c).current_term,
      votes-cast_vote-ge s.ballots i term i n c (s.nodes c).current_term fresh,
    )
  ]

  pub Campaign-Inv : Inv n after
  unfolding cast_vote
  Campaign-Inv = record {
    ids = λ j. ground (arith, inv.ids j, inv.ids i, q.same_id);
    sizes = λ j k. ground (arith, inv.sizes j, q.same_peers);
    agree = λ v c h. ground (arith, inv.agree v c, q.own_vote);
    agree_back = λ v c h. ground (arith, inv.agree_back v c, q.own_vote);
    past = λ v c t h. ground (arith, inv.past v c t, q.new_term);
    known = λ v c t h. ground (arith, inv.known v c t, q.new_term);
    once = campaign-once;
    asked = campaign-asked;
    granted = λ c t h. ground (arith, inv.granted c t, q.same_grants c t, q.new_term);
    tally = campaign-tally;
    won = λ c k h. ground (
      arith,
      q.stands,
      inv.won c k,
      votes-cast_vote-ge s.ballots i term i n c (s.nodes c).current_term fresh,
    );
  }

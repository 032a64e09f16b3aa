-- ===== src/Election/Counting.antt =====
-- Counts for the election's invariant (internal/election/election.go): votes cast, requests and grants
-- on the way.
use ensemble_chat.Common.{
  ℕ, zero, suc, ◌+◌, ◌≤◌, ◌<◌, ◌≡◌, ◌≢◌, refl, ap, ◌⊎◌, inl, ◌&&◌, Option, none, some, List, [],
  ◌∷◌, ◌++◌, arith, ◌==◌, if◌then◌else◌,
}
use ensemble_chat.Common.Family.{total, total_change, total_mono}
use ensemble_chat.Types.{VoteRequest, Heartbeat}
use ensemble_chat.Election.Cluster.{
  Packet, vote_request, vote_response, heartbeat, broadcast, Ballots, cast_vote,
}

unfoldable pub count : (Packet → ℕ) → List Packet → ℕ
count w [] = 0
count w (p ∷ ps) = w p + count w ps

pub count-append :
    (w : Packet → ℕ) (ps qs : List Packet) → count w (ps ++ qs) ≡ count w ps + count w qs
unfolding count
count-append w [] qs = omega arith
count-append w (p ∷ ps) qs = omega (arith, count-append w ps qs)

pub count_middle :
    (w : Packet → ℕ) (ps : List Packet) (p : Packet) (qs : List Packet)
    → count w (ps ++ p ∷ qs) ≡ w p + count w (ps ++ qs)
unfolding count
count_middle w ps p qs = omega (arith, count-append w ps (p ∷ qs), count-append w ps qs)

-- A request of candidate `c` for the vote of `v` in term `t`.
abbrev pub asks : (c v t : ℕ) → Packet → ℕ
asks c v t (vote_request d req) =
    if d == v && (req.candidate_id == c && req.term == t) then 1 else 0
asks c v t (vote_response _ _) = 0
asks c v t (heartbeat _ _) = 0

-- A vote for candidate `c` in term `t`.
abbrev pub grants : (c t : ℕ) → Packet → ℕ
grants c t (vote_request _ _) = 0
grants c t (vote_response d resp) = if d == c && (resp.vote_granted && resp.term == t) then 1 else 0
grants c t (heartbeat _ _) = 0

abbrev pub voted : Option ℕ → ℕ → ℕ
voted none c = 0
voted (some d) c = if d == c then 1 else 0

-- The number of nodes that voted for `c` in term `t`.
unfoldable pub votes : (n : ℕ) → Ballots → (c t : ℕ) → ℕ
votes n b c t = total n (λ v. voted (b v t) c)

module _ (src : ℕ) (req : VoteRequest) (c v t : ℕ) where
  abbrev asked : ℕ → ℕ
  asked n = count (asks c v t) (broadcast n src (λ d. vote_request d req))

  asked_above : (n : ℕ) → n ≤ v → asked n ≡ 0
  unfolding count broadcast
  asked_above zero h = refl
  asked_above (suc n) h = ground (arith, asked_above n)

  pub broadcast-asks-le : (n : ℕ) → asked n ≤ 1
  unfolding count broadcast
  broadcast-asks-le zero = omega arith
  broadcast-asks-le (suc n) = ground (arith, broadcast-asks-le n, asked_above n)

  pub broadcast-asks_self : (n : ℕ) → v ≡ src → asked n ≡ 0
  unfolding count broadcast
  broadcast-asks_self zero h = refl
  broadcast-asks_self (suc n) h = ground (arith, broadcast-asks_self n h)

  pub broadcast-asks_ne : (n : ℕ) → (req.candidate_id ≢ c) ⊎ (req.term ≢ t) → asked n ≡ 0
  unfolding count broadcast
  broadcast-asks_ne zero h = refl
  broadcast-asks_ne (suc n) h = ground (arith, broadcast-asks_ne n h)

pub broadcast-grants :
    (n src : ℕ) (req : VoteRequest) (c t : ℕ)
    → count (grants c t) (broadcast n src (λ d. vote_request d req)) ≡ 0
unfolding count broadcast
broadcast-grants zero src req c t = refl
broadcast-grants (suc n) src req c t = ground (arith, broadcast-grants n src req c t)

pub broadcast-heartbeat :
    (n src : ℕ) (hb : Heartbeat) (w : Packet → ℕ)
    → ((d : ℕ) → w (heartbeat d hb) ≡ 0)
    → count w (broadcast n src (λ d. heartbeat d hb)) ≡ 0
unfolding count broadcast
broadcast-heartbeat zero src hb w h = refl
broadcast-heartbeat (suc n) src hb w h = ground (arith, broadcast-heartbeat n src hb w h, h n)

module _ (b : Ballots) (voter term choice : ℕ) where
  abbrev cast : Ballots
  cast = cast_vote b voter term choice

  -- The vote is in the record, and no other entry changes.
  pub cast_vote_self : cast voter term ≡ some choice
  unfolding cast_vote
  cast_vote_self = ground arith

  pub cast_vote_ne : (v t : ℕ) → (v ≢ voter) ⊎ (t ≢ term) → cast v t ≡ b v t
  unfolding cast_vote
  cast_vote_ne v t h = ground arith

  -- A first vote of the term adds one to its candidate.
  pub votes-cast_vote_self :
      (n : ℕ)
      → voter < n
      → b voter term ≡ none
      → votes n cast choice term ≡ votes n b choice term + 1
  unfolding votes
  votes-cast_vote_self n l e =
      let change =
        total_change n (λ v. voted (b v term) choice) (λ v. voted (cast v term) choice) voter l
          (λ j ne. ap (λ o. voted o choice) (cast_vote_ne j term (inl ne))) in
      ground (arith, change, cast_vote_self, e)

  -- It takes none from anybody.
  pub votes-cast_vote-ge : (n c t : ℕ) → b voter term ≡ none → votes n b c t ≤ votes n cast c t
  unfolding votes cast_vote
  votes-cast_vote-ge n c t e = total_mono n _ _ (λ v l. ground arith)

-- ===== src/Election/Invariant/Quiet.antt =====
-- The invariant of the election across a change of one node that casts no vote and sends neither a
-- request nor a grant.
use ensemble_chat.Common.{ℕ, ◌+◌, ◌≤◌, ◌<◌, ◌≡◌, ◌⊎◌, inl, inr, pos, minus_one, some, List, arith}
use ensemble_chat.Common.Family.{update}
use ensemble_chat.Types.{candidate, leader}
use ensemble_chat.Election.{ElectionNode, majority}
use ensemble_chat.Election.Cluster.{Packet, System}
use ensemble_chat.Election.Counting.{count, asks, grants, votes}
use ensemble_chat.Election.Invariant.Defs.{Inv}

-- The term stays with the vote, or grows and the vote is forgotten.
abbrev pub Keeps : ElectionNode → ElectionNode → Type 0
Keeps e e' =
    ((e'.current_term ≡ e.current_term) × (e'.voted_for ≡ e.voted_for))
    ⊎ ((e.current_term < e'.current_term) × (e'.voted_for ≡ minus_one))

pub record Quiet (n : ℕ) (s : System) (i : ℕ) (e' : ElectionNode) (net : List Packet) : Type 0 where
  pub same_id : e'.id ≡ (s.nodes i).id
  pub same_peers : e'.peers ≡ (s.nodes i).peers
  pub keeps : Keeps (s.nodes i) e'
  pub fewer_asks : (c v t : ℕ) → count (asks c v t) net ≤ count (asks c v t) s.net
  pub fewer_grants : (c t : ℕ) → count (grants c t) net ≤ count (grants c t) s.net
  pub tally :
      e'.state ≡ candidate
      → e'.vote_count + count (grants i e'.current_term) net ≤ votes n s.ballots i e'.current_term
  pub won : e'.state ≡ leader → majority n ≤ votes n s.ballots i e'.current_term

abbrev pub changed : System → (i : ℕ) → ElectionNode → List Packet → System
changed s i e' net = record { nodes = update s.nodes i e'; net = net; ballots = s.ballots }

module _ (n : ℕ) (s : System) (i : ℕ) (e' : ElectionNode) (net : List Packet) where
  abbrev node : ℕ → ElectionNode
  node = update s.nodes i e'

  term_mono : Keeps (s.nodes i) e' → (j : ℕ) → (s.nodes j).current_term ≤ (node j).current_term
  term_mono (inl k) j = ground arith
  term_mono (inr k) j = ground arith

  Keeps-agree :
      Keeps (s.nodes i) e'
      → Inv n s
      → (v c : ℕ) → (node v).voted_for ≡ pos c
      → s.ballots v (node v).current_term ≡ some c
  Keeps-agree (inl k) inv v c = ground (arith, inv.agree v c)
  Keeps-agree (inr k) inv v c = ground (arith, inv.agree v c)

  Keeps-agree_back :
      Keeps (s.nodes i) e'
      → Inv n s
      → (v c : ℕ) → s.ballots v (node v).current_term ≡ some c
      → (node v).voted_for ≡ pos c
  Keeps-agree_back (inl k) inv v c = ground (arith, inv.agree_back v c)
  Keeps-agree_back (inr k) inv v c =
      ground (arith, inv.agree_back v c, inv.past v c e'.current_term)

  pub Quiet-Inv : Quiet n s i e' net → Inv n s → Inv n (changed s i e' net)
  Quiet-Inv q inv = record {
    ids = λ j. ground (arith, inv.ids j, inv.ids i, q.same_id);
    sizes = λ j l. ground (arith, inv.sizes j, q.same_peers);
    agree = Keeps-agree q.keeps inv;
    agree_back = Keeps-agree_back q.keeps inv;
    past = λ v c t h. omega (arith, inv.past v c t h, term_mono q.keeps v);
    known = λ v c t h. omega (arith, inv.known v c t h, term_mono q.keeps c);
    once = λ c v t. omega (arith, inv.once c v t, q.fewer_asks c v t);
    asked = λ c v t h. omega (arith, inv.asked c v t, q.fewer_asks c v t, term_mono q.keeps c);
    granted = λ c t h. omega (arith, inv.granted c t, q.fewer_grants c t, term_mono q.keeps c);
    tally =
        λ c l h. ground (arith, q.tally, inv.tally c l, q.fewer_grants c (s.nodes c).current_term);
    won = λ c l h. ground (arith, q.won, inv.won c l);
  }

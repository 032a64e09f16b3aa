-- ===== src/Election/Invariant.antt =====
-- The invariant of the election among `n` nodes (internal/election/election.go) along a run.
mod Defs
mod Quiet
mod Grant
mod Campaign
mod Effects
mod Ticks
mod Receipts
pub use Defs.*
use Quiet.{changed}
use Ticks.{tick-Inv}
use Receipts.{recv-Inv, removed}
use ensemble_chat.Common.{
  ℕ, zero, suc, ◌+◌, ◌≤◌, ◌<◌, ◌≡◌, refl, ◌≢◌, List, length, arith, ltb, ◌==◌, if◌then◌else◌,
}
use ensemble_chat.Election.{new_election_node}
use ensemble_chat.Election.Cluster.{
  Packet, System, Step, tick, recv, lose, others, init, Reach, start, next,
}
use ensemble_chat.Election.Counting.{count, asks, grants, votes}

length-others_above : (n i : ℕ) → n ≤ i → length (others n i) ≡ n
unfolding others
length-others_above zero i h = refl
length-others_above (suc n) i h = ground (arith, length-others_above n i)

length-others : (n i : ℕ) → i < n → length (others n i) + 1 ≡ n
unfolding others
length-others zero i h = absurd (omega arith)
length-others (suc n) i h = ground (arith, length-others n i, length-others_above n i)

init-Inv : (n now : ℕ) (draws : ℕ → ℕ) → Inv n (init n now draws)
unfolding init new_election_node count
init-Inv n now draws = record {
  ids = λ i. refl;
  sizes = λ i l. length-others n i l;
  agree = λ v c h. cc;
  agree_back = λ v c h. cc;
  past = λ v c t h. cc;
  known = λ v c t h. cc;
  once = λ c v t. omega arith;
  asked = λ c v t h. omega arith;
  granted = λ c t h. omega arith;
  tally = λ c l h. cc;
  won = λ c l h. cc;
}

lose-Inv :
    (n : ℕ) (s : System) (net : List Packet)
    → ((w : Packet → ℕ) → count w net ≤ count w s.net)
    → Inv n s
    → Inv n (record s { net = net })
lose-Inv n s net fewer inv = record {
  ids = inv.ids;
  sizes = inv.sizes;
  agree = inv.agree;
  agree_back = inv.agree_back;
  past = inv.past;
  known = inv.known;
  once = λ c v t. omega (arith, inv.once c v t, fewer (asks c v t));
  asked = λ c v t h. inv.asked c v t (omega (arith, fewer (asks c v t)));
  granted = λ c t h. inv.granted c t (omega (arith, fewer (grants c t)));
  tally = λ c l h. omega (arith, inv.tally c l h, fewer (grants c (s.nodes c).current_term));
  won = inv.won;
}

-- Every step keeps the invariant.
pub Step-Inv : {n : ℕ} {s t : System} → Step n s t → Inv n s → Inv n t
Step-Inv {n} {s} (tick i now draw l) inv = tick-Inv n s i l inv now draw
Step-Inv {n} {s} (recv pre p post now q l) inv = recv-Inv n s pre p post now l inv q
Step-Inv {n} {s} (lose pre p post q) inv =
    lose-Inv n s _ (λ w. omega (arith, removed pre p post q w)) inv

-- So it holds in every state that can be reached.
pub Reach-Inv : {n now : ℕ} {draws : ℕ → ℕ} {k : ℕ} {s : System} → Reach n now draws k s → Inv n s
Reach-Inv {n} {now} {draws} start = init-Inv n now draws
Reach-Inv (next r st) = Step-Inv st (Reach-Inv r)

-- ===== src/RaftLog/Apply.antt =====
-- `applyCommitted` of internal/consensus/consensus.go, beside a replay of the log.
use ensemble_chat.Common.{
  ℕ, zero, suc, ◌+◌, ◌-◌, ◌≤◌, ◌<◌, ◌≡◌, refl, sym, ap, ap₂, ◌∙◌, ℤ, pos, negsuc, minus_one,
  pos_part, neg_part, suc_ℤ, pred_ℤ, ltb_ℤ, ◌≤ℤ◌, count_to, true, Option, some, List, [], ◌∷◌,
  length, get_elem?, take, drop, arith,
}
use ensemble_chat.Types.{LogEntry, RoutingTable}
use ensemble_chat.RaftLog.{RaftLog, get_entry, apply_entry, apply_loop, distance, apply_committed}

-- The last of the first `n` indices: n - 1.
abbrev pub last_of : ℕ → ℤ
last_of n = pred_ℤ (pos n)

-- The routing table after the given entries, which stand in the log from position `i` on.
unfoldable pub replay : RoutingTable → List LogEntry → (i : ℕ) → (clock : ℕ → ℕ) → RoutingTable
replay table [] i clock = table
replay table (entry ∷ entries) i clock =
    replay (apply_entry table entry (clock i)) entries (suc i) clock

pub suc-last_of : (n : ℕ) → suc_ℤ (last_of n) ≡ pos n
suc-last_of zero = refl
suc-last_of (suc n) = ap pos (omega arith)

pub last_of-count_to : (a : ℤ) → minus_one ≤ℤ a → last_of (count_to a) ≡ a
last_of-count_to (pos n) h = ground arith
last_of-count_to (negsuc n) h = ground arith

pub count_parts : (a : ℤ) → minus_one ≤ℤ a → count_to a + neg_part a ≡ pos_part a + 1
count_parts (pos n) h = omega arith
count_parts (negsuc n) h = omega arith

ltb-last_of : (a n : ℕ) → a < n → ltb_ℤ (last_of a) (last_of n) ≡ true
ltb-last_of zero (suc n) h = ground arith
ltb-last_of (suc a) (suc n) h = ground arith
ltb-last_of a zero h = absurd (omega arith)

drop_split {ℓ} :
    {A : Type ℓ} (xs : List A) (a : ℕ)
    → a < length xs
    → (x : A) × (get_elem? xs a ≡ some x) × (drop a xs ≡ x ∷ drop (suc a) xs)
drop_split [] a h = absurd (omega arith)
drop_split (x ∷ xs) zero h = (x, refl, refl)
drop_split (x ∷ xs) (suc a) h = drop_split xs a (omega arith)

-- The state after the entries from position `a` up to position `n` were applied.
abbrev pub applied : RaftLog → (a n : ℕ) → (clock : ℕ → ℕ) → RaftLog
applied r a n clock = record r {
  last_applied = last_of n;
  routing_table = replay r.routing_table (take (n - a) (drop a r.log)) a clock;
}

loop_end :
    (a n : ℕ) (r : RaftLog) (clock : ℕ → ℕ)
    → a ≡ n
    → r.last_applied ≡ last_of a
    → apply_loop zero r clock
      ≡ some
          (record r { last_applied = last_of n; routing_table = replay r.routing_table [] a clock })
unfolding apply_loop replay
loop_end a n r clock e h = ap (λ z. some (record r { last_applied = z })) (h ∙ ap last_of e)

replay_step :
    (fuel a n : ℕ) (r : RaftLog) (clock : ℕ → ℕ) (entry : LogEntry)
    → drop a r.log ≡ entry ∷ drop (suc a) r.log
    → ◌≡◌ {A = Option RaftLog}
        (some (record r {
          last_applied = last_of n;
          routing_table =
              replay
                (apply_entry r.routing_table entry (clock a))
                (take fuel (drop (suc a) r.log))
                (suc a)
                clock;
        }))
        (some (record r {
          last_applied = last_of n;
          routing_table = replay r.routing_table (take (suc fuel) (drop a r.log)) a clock;
        }))
unfolding replay
replay_step fuel a n r clock entry d = rw d

loop_step :
    (fuel a : ℕ) (r : RaftLog) (clock : ℕ → ℕ) (entry : LogEntry)
    → suc_ℤ r.last_applied ≡ pos a
    → ltb_ℤ r.last_applied r.commit_index ≡ true
    → get_elem? r.log a ≡ some entry
    → apply_loop (suc fuel) r clock
      ≡ apply_loop fuel
          (record r {
            last_applied = pos a;
            routing_table = apply_entry r.routing_table entry (clock a);
          })
          clock
unfolding apply_loop
loop_step fuel a r clock entry h c g = rw c (rw (h, get_entry) (rw g (rw h)))

loop_replays :
    (fuel a n : ℕ) (r : RaftLog) (clock : ℕ → ℕ)
    → a + fuel ≡ n
    → r.last_applied ≡ last_of a
    → r.commit_index ≡ last_of n
    → n ≤ length r.log
    → apply_loop fuel r clock
      ≡ some (record r {
        last_applied = last_of n;
        routing_table = replay r.routing_table (take fuel (drop a r.log)) a clock;
      })
loop_replays zero a n r clock e h c l = loop_end a n r clock (omega arith) h
loop_replays (suc fuel) a n r clock e h c l =
    let (entry, g, d) = drop_split r.log a (omega arith) in
    loop_step fuel a r clock entry (ap suc_ℤ h ∙ suc-last_of a)
      (ap₂ ltb_ℤ h c ∙ ltb-last_of a n (omega arith)) g
    ∙ (loop_replays fuel (suc a) n _ clock (omega arith) refl c l
        ∙ replay_step fuel a n r clock entry d)

-- `applyCommitted` on a log that reaches to its commit index does not panic. It applies each entry
-- from the first that is not applied up to the commit index once, in the order of the log, and nothing
-- else changes.
pub apply_committed_replays :
    (r : RaftLog) (clock : ℕ → ℕ)
    → minus_one ≤ℤ r.last_applied
    → r.last_applied ≤ℤ r.commit_index
    → count_to r.commit_index ≤ length r.log
    → apply_committed r clock
      ≡ some (record r {
        last_applied = r.commit_index;
        routing_table =
            replay r.routing_table
              (take
                (count_to r.commit_index - count_to r.last_applied)
                (drop (count_to r.last_applied) r.log))
              (count_to r.last_applied)
              clock;
      })
unfolding apply_committed
apply_committed_replays r clock low le fits = rw fuel (
    main
    ∙ ap
        (λ z. some (record r {
          last_applied = z;
          routing_table = replay r.routing_table (take (c - a) (drop a r.log)) a clock;
        }))
        (last_of-count_to r.commit_index high))
  where
    a : ℕ
    a = count_to r.last_applied

    c : ℕ
    c = count_to r.commit_index

    high : minus_one ≤ℤ r.commit_index
    high = omega arith

    fuel : distance r.last_applied r.commit_index ≡ c - a
    fuel = omega (arith, count_parts r.last_applied low, count_parts r.commit_index high)

    main : apply_loop (c - a) r clock ≡ some (applied r a c clock)
    main =
        loop_replays (c - a) a c r clock
          (omega (arith, count_parts r.last_applied low, count_parts r.commit_index high))
          (sym (last_of-count_to r.last_applied low)) (sym (last_of-count_to r.commit_index high))
          fits

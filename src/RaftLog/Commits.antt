-- ===== src/RaftLog/Commits.antt =====
-- Rule 4 of `HandleAppendEntries` (internal/consensus/consensus.go): what it leaves alone.
use ensemble_chat.Common.{
  ℕ, ◌+◌, ◌≤◌, ◌≡◌, inl, inr, ◌⊎◌, zero, suc, sym, ap, refl, ◌∙◌, ℤ, pos, negsuc, minus_one,
  pos_part, neg_part, ltb_ℤ, ◌≤ℤ◌, ◌<ℤ◌, count_to, true, false, some, List, [], ◌∷◌, length, arith,
  Bool-cases, dec_le,
}
use ensemble_chat.Types.{LogEntry}
use ensemble_chat.RaftLog.{
  RaftLog, apply_loop, distance, apply_committed, commit_limit, follow_commit,
}
use ensemble_chat.RaftLog.Apply.{apply_committed_replays, last_of, last_of-count_to}

limit_fits : (log : List LogEntry) (c : ℤ) → count_to (commit_limit log c) ≤ length log
limit_fits [] (pos n) = ground arith
limit_fits [] (negsuc n) = ground arith
limit_fits (x ∷ xs) (pos n) = ground arith
limit_fits (x ∷ xs) (negsuc n) = ground arith

after_last : (k : ℕ) (c : ℤ) → ltb_ℤ (last_of k) c ≡ true → pos 0 ≤ℤ c
after_last zero (pos n) h = omega arith
after_last zero (negsuc n) h = ground arith
after_last (suc k) (pos n) h = omega arith
after_last (suc k) (negsuc n) h = ground arith

not_below : (log : List LogEntry) (c : ℤ) → pos 0 ≤ℤ c → minus_one ≤ℤ commit_limit log c
not_below [] (pos n) h = ground arith
not_below [] (negsuc n) h = absurd (omega arith)
not_below (x ∷ xs) (pos n) h = ground arith
not_below (x ∷ xs) (negsuc n) h = absurd (omega arith)

limit_last :
    (log : List LogEntry) (a c : ℤ) (k : ℕ)
    → a ≡ last_of k
    → ltb_ℤ a c ≡ true
    → (n : ℕ) × (commit_limit log c ≡ last_of n) × (n ≤ length log)
limit_last log a c k e l = (
  count_to (commit_limit log c),
  sym (last_of-count_to (commit_limit log c) (not_below log c known)),
  limit_fits log c,
)
  where
    known : pos 0 ≤ℤ c
    known = after_last k c (ap (λ z. ltb_ℤ z c) (sym e) ∙ l)

-- What rule 4 leaves alone, and where it moves the commit index.
pub record Kept (r r' : RaftLog) : Type 0 where
  pub same_log : r'.log ≡ r.log
  pub same_term : r'.current_term ≡ r.current_term
  pub same_leader : r'.is_leader ≡ r.is_leader
  pub same_node : r'.node_id ≡ r.node_id
  pub still_low : minus_one ≤ℤ r'.last_applied
  pub commits :
      (k : ℕ)
      → r.commit_index ≡ last_of k
      → (r'.commit_index ≡ last_of k)
        ⊎ ((n : ℕ) × (r'.commit_index ≡ last_of n) × (n ≤ length r.log))

-- With nothing to apply the loop does nothing.
apply_nothing :
    (r : RaftLog) (clock : ℕ → ℕ)
    → r.commit_index <ℤ r.last_applied
    → apply_committed r clock ≡ some r
unfolding apply_committed apply_loop
apply_nothing r clock gt = rw none_left
  where
    none_left : distance r.last_applied r.commit_index ≡ 0
    none_left = omega arith

module _ (r : RaftLog) (leader_commit : ℤ) (clock : ℕ → ℕ) where
  abbrev pub limited : RaftLog
  limited = record r { commit_index = commit_limit r.log leader_commit }

  pub follow_skips :
      ltb_ℤ r.commit_index leader_commit ≡ false → follow_commit r leader_commit clock ≡ some r
  unfolding follow_commit
  follow_skips a = rw a

  pub follow_sets :
      ltb_ℤ r.commit_index leader_commit ≡ true
      → ltb_ℤ r.commit_index (commit_limit r.log leader_commit) ≡ false
      → follow_commit r leader_commit clock ≡ some limited
  unfolding follow_commit
  follow_sets a b = rw a (rw b)

  pub follow_applies :
      ltb_ℤ r.commit_index leader_commit ≡ true
      → ltb_ℤ r.commit_index (commit_limit r.log leader_commit) ≡ true
      → follow_commit r leader_commit clock ≡ apply_committed limited clock
  unfolding follow_commit
  follow_applies a b = rw a (rw b)

apply_keeps :
    (r : RaftLog) (clock : ℕ → ℕ)
    → minus_one ≤ℤ r.last_applied
    → count_to r.commit_index ≤ length r.log
    → (r' : RaftLog) × (apply_committed r clock ≡ some r')
      × Kept r r'
      × (r'.commit_index ≡ r.commit_index)
apply_keeps r clock low room =
    elim (dec_le (pos_part r.last_applied + neg_part r.commit_index)
      (pos_part r.commit_index + neg_part r.last_applied)) [
        | yes le ↦ (
          _,
          apply_committed_replays r clock low le room,
          record {
            same_log = refl;
            same_term = refl;
            same_leader = refl;
            same_node = refl;
            still_low = omega arith;
            commits = λ k e. inl e;
          },
          refl,
        )
        | no gt ↦ (
          r,
          apply_nothing r clock (omega arith),
          record {
            same_log = refl;
            same_term = refl;
            same_leader = refl;
            same_node = refl;
            still_low = low;
            commits = λ k e. inl e;
          },
          refl,
        )
      ]

-- Rule 4 does not panic.
pub follow_commit_keeps :
    (r : RaftLog) (leader_commit : ℤ) (clock : ℕ → ℕ)
    → minus_one ≤ℤ r.last_applied
    → (r' : RaftLog) × (follow_commit r leader_commit clock ≡ some r') × Kept r r'
follow_commit_keeps r leader_commit clock low =
    elim (Bool-cases (ltb_ℤ r.commit_index leader_commit)) [
      | inl behind ↦ elim (Bool-cases (ltb_ℤ r.commit_index (commit_limit r.log leader_commit))) [
        | inl grows ↦
            let (r', e, k, same) =
              apply_keeps (record r { commit_index = commit_limit r.log leader_commit }) clock low
                (limit_fits r.log leader_commit) in
            (
              r',
              follow_applies r leader_commit clock behind grows ∙ e,
              record {
                same_log = k.same_log;
                same_term = k.same_term;
                same_leader = k.same_leader;
                same_node = k.same_node;
                still_low = k.still_low;
                commits = λ m at.
                    let (n, e', l) = limit_last r.log r.commit_index leader_commit m at behind in
                    inr (n, same ∙ e', l);
              },
            )
        | inr not ↦ (
          record r { commit_index = commit_limit r.log leader_commit },
          follow_sets r leader_commit clock behind not,
          record {
            same_log = refl;
            same_term = refl;
            same_leader = refl;
            same_node = refl;
            still_low = low;
            commits = λ m at. inr (limit_last r.log r.commit_index leader_commit m at behind);
          },
        )
      ]
      | inr ahead ↦ (
        r,
        follow_skips r leader_commit clock ahead,
        record {
          same_log = refl;
          same_term = refl;
          same_leader = refl;
          same_node = refl;
          still_low = low;
          commits = λ m at. inl at;
        },
      )
    ]

-- ===== src/RaftLog/Epoch/Counting.antt =====
-- What a leader counts as committed is held by a majority (`tryAdvanceCommitIndex` of
-- internal/consensus/consensus.go).
use ensemble_chat.Common.{
  ℕ, zero, suc, ◌+◌, ◌≤◌, ◌≡◌, inl, inr, refl, sym, ap, ◌∙◌, ℤ, pos, minus_one, leb_ℤ, true, List,
  [], ◌∷◌, arith, if◌then◌else◌,
}
use ensemble_chat.Types.{LogEntry}
use ensemble_chat.RaftLog.{RaftLog, replicas}
use ensemble_chat.RaftLog.Apply.{last_of}
use ensemble_chat.RaftLog.Leader.{IsCommittable}
use ensemble_chat.RaftLog.Epoch.Invariant.{mem, tally, Reported, Quorum}

tally-replicas :
    (match_index : ℕ → ℤ) (pids : List ℕ) (n : ℕ)
    → replicas match_index pids n ≡ tally (λ f. leb_ℤ (pos n) (match_index f)) pids
unfolding replicas tally
tally-replicas match_index [] n = refl
tally-replicas match_index (pid ∷ pids) n =
    ap (λ (t : ℕ). t + (if leb_ℤ (pos n) (match_index pid) then 1 else 0))
      (tally-replicas match_index pids n)

never : (n : ℕ) → leb_ℤ (pos n) minus_one ≡ true → ⊥
never n h = ground arith

held_up_to : (n c : ℕ) → leb_ℤ (pos n) (last_of c) ≡ true → suc n ≤ c
held_up_to n zero h = ground arith
held_up_to n (suc c) h = ground arith

module _ (term base : ℕ) (log : List LogEntry) (followers : ℕ → RaftLog) where
  pub commit-Quorum :
      (r : RaftLog) (n : ℕ)
      → IsCommittable r n
      → ((f : ℕ) → mem f r.peers ≡ true → Reported term base log (followers f) (r.match_index f))
      → Quorum term base log r followers (suc n)
  commit-Quorum r n c reports = record {
    chosen = λ f. leb_ℤ (pos n) (r.match_index f);
    enough = omega (arith, c.by_majority, tally-replicas r.match_index r.peers n);
    hold = λ f m picked. elim (reports f m) [
      | inl unknown ↦ absurd (never n (ap (leb_ℤ (pos n)) (sym unknown) ∙ picked))
      | inr (k, e, l, new) ↦
          (omega (arith, l, held_up_to n k (ap (leb_ℤ (pos n)) (sym e) ∙ picked)), new)
    ];
  }

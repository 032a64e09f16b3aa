-- ===== src/RaftLog/Leader.antt =====
-- `tryAdvanceCommitIndex` (internal/consensus/consensus.go).
use ensemble_chat.Common.{
  ℕ, zero, suc, ◌≤◌, ◌<◌, ◌≡◌, ◌⊎◌, ◌↔◌, inl, inr, refl, sym, ap, ◌∙◌, subst, pos, ltb_ℤ, ◌<ℤ◌,
  true, false, some, length, get_elem?, arith, Bool-cases, dec_lt, some_inj,
}
use ensemble_chat.Types.{LogEntry}
use ensemble_chat.RaftLog.{
  RaftLog, majority, replicas, can_commit, advance_from, try_advance_commit_index,
}
use ensemble_chat.RaftLog.Merge.{get_elem?-some}

-- What the leader may commit: an entry of its own term, not committed yet, that a majority holds.
pub record IsCommittable (r : RaftLog) (n : ℕ) : Type 0 where
  pub is_new : r.commit_index <ℤ pos n
  pub entry : LogEntry
  pub held : get_elem? r.log n ≡ some entry
  pub own_term : entry.term ≡ r.current_term
  pub by_majority : majority r ≤ replicas r.match_index r.peers n

-- The last committable entry below `k`, if there is one, becomes the commit index.
record LastBelow (r : RaftLog) (k n : ℕ) : Type 0 where
  below : n < k
  committable : IsCommittable r n
  is_last : (m : ℕ) → m < k → IsCommittable r m → m ≤ n

abbrev Advance : RaftLog → (k : ℕ) → RaftLog → Type 0
Advance r k r' =
    ((r' ≡ r) × ((m : ℕ) → m < k → IsCommittable r m → ⊥))
    ⊎ ((n : ℕ) × LastBelow r k n × (r' ≡ record r { commit_index = pos n }))

can_commit_iff :
    (r : RaftLog) (n : ℕ) (entry : LogEntry)
    → (can_commit r n entry ≡ true)
      ↔ ((entry.term ≡ r.current_term) × (majority r ≤ replicas r.match_index r.peers n))
unfolding can_commit
can_commit_iff r n entry = ground arith

advance_commits :
    (r : RaftLog) (n : ℕ) (entry : LogEntry)
    → r.commit_index <ℤ pos n
    → get_elem? r.log n ≡ some entry
    → can_commit r n entry ≡ true
    → advance_from r (suc n) ≡ record r { commit_index = pos n }
unfolding advance_from
advance_commits r n entry l g c = ground (arith, g, c)

advance_skips :
    (r : RaftLog) (n : ℕ) (entry : LogEntry)
    → r.commit_index <ℤ pos n
    → get_elem? r.log n ≡ some entry
    → can_commit r n entry ≡ false
    → advance_from r (suc n) ≡ advance_from r n
unfolding advance_from
advance_skips r n entry l g c = ground (arith, g, c)

advance_none : (r : RaftLog) → advance_from r 0 ≡ r
unfolding advance_from
advance_none r = refl

advance_stops :
    (r : RaftLog) (n : ℕ) → ltb_ℤ r.commit_index (pos n) ≡ false → advance_from r (suc n) ≡ r
unfolding advance_from
advance_stops r n h = rw h

nothing_new :
    (r : RaftLog) (k : ℕ)
    → ltb_ℤ r.commit_index (pos k) ≡ false
    → (m : ℕ) → m < suc k
    → IsCommittable r m
    → ⊥
nothing_new r k h m l c = absurd (ground (arith, c.is_new))

committed :
    (r : RaftLog) (n : ℕ) (entry : LogEntry)
    → r.commit_index <ℤ pos n
    → get_elem? r.log n ≡ some entry
    → can_commit r n entry ≡ true
    → IsCommittable r n
committed r n entry l g c = record {
  is_new = l;
  entry = entry;
  held = g;
  own_term = ground (arith, can_commit_iff r n entry, c);
  by_majority = ground (arith, can_commit_iff r n entry, c);
}

refused_entry :
    (r : RaftLog) (n : ℕ) (entry : LogEntry)
    → get_elem? r.log n ≡ some entry
    → can_commit r n entry ≡ false
    → IsCommittable r n
    → ⊥
refused_entry r n entry g c d =
    let same : entry.term ≡ d.entry.term =
      ap (λ (e : LogEntry). e.term) (some_inj (sym g ∙ d.held)) in
    ground (arith, can_commit_iff r n entry, c, same, d.own_term, d.by_majority)

Advance-suc :
    (r : RaftLog) (n : ℕ) (r' : RaftLog)
    → (IsCommittable r n → ⊥)
    → Advance r n r'
    → Advance r (suc n) r'
Advance-suc r n r' never (inl (e, none_below)) = inl (
  e,
  λ m l c. elim (dec_lt m n) [
    | yes l' ↦ none_below m l' c
    | no g ↦ never (subst (IsCommittable r) (omega (arith, l, g)) c)
  ],
)
Advance-suc r n r' never (inr (j, b, e)) = inr (
  j,
  record {
    below = omega (arith, b.below);
    committable = b.committable;
    is_last = λ m l c. elim (dec_lt m n) [
      | yes l' ↦ b.is_last m l' c
      | no g ↦ absurd (never (subst (IsCommittable r) (omega (arith, l, g)) c))
    ];
  },
  e,
)

advance_lem : (r : RaftLog) (k : ℕ) → k ≤ length r.log → Advance r k (advance_from r k)
advance_lem r zero h = inl (advance_none r, λ m l c. absurd (omega arith))
advance_lem r (suc n) h = elim (Bool-cases (ltb_ℤ r.commit_index (pos n))) [
  | inr f ↦ inl (advance_stops r n f, nothing_new r n f)
  | inl t ↦
      let (entry, g) = get_elem?-some r.log n h in
      let new : r.commit_index <ℤ pos n = ground arith in
      elim (Bool-cases (can_commit r n entry)) [
        | inl c ↦ inr (
          n,
          record {
            below = omega arith;
            committable = committed r n entry new g c;
            is_last = λ m l d. omega (arith, l);
          },
          advance_commits r n entry new g c,
        )
        | inr c ↦ subst (Advance r (suc n)) (sym (advance_skips r n entry new g c)) (
            Advance-suc r n (advance_from r n) (refused_entry r n entry g c)
              (advance_lem r n (omega arith)))
      ]
]

-- The leader commits the last entry that may be committed: it is above the commit index, inside the
-- log, of the leader's current term, and held by a majority by the match indices. If no entry may be
-- committed, nothing changes.
pub try_advance_commits_last :
    (r : RaftLog)
    → ((try_advance_commit_index r ≡ r) × ((m : ℕ) → m < length r.log → IsCommittable r m → ⊥))
      ⊎ ((n : ℕ) × (n < length r.log)
          × IsCommittable r n
          × ((m : ℕ) → m < length r.log → IsCommittable r m → m ≤ n)
          × (try_advance_commit_index r ≡ record r { commit_index = pos n }))
unfolding try_advance_commit_index
try_advance_commits_last r = elim (advance_lem r (length r.log) (omega arith)) [
  | inl same ↦ inl same
  | inr (n, b, e) ↦ inr (n, b.below, b.committable, b.is_last, e)
]

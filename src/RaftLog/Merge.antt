-- ===== src/RaftLog/Merge.antt =====
-- Rule 3 of `HandleAppendEntries` (internal/consensus/consensus.go).
use ensemble_chat.Common.{
  ℕ, zero, suc, ◌+◌, ◌≤◌, ◌<◌, ◌≡◌, ◌≢◌, ◌⊎◌, inl, inr, refl, sym, ap, ◌∙◌, subst, ℤ, pos, some,
  List, [], ◌∷◌, ◌++◌, length, get_elem?, take, arith, length-append, append_assoc, append-nil,
  take-length-le, length-take, some_inj, dec_lt, ℕ_discrete,
}
use ensemble_chat.Types.{LogEntry}
use ensemble_chat.RaftLog.{merge}

-- The Log Matching property of two logs: entries of one index and term end the same prefix.
abbrev pub Matching : List LogEntry → List LogEntry → Type 0
Matching xs ys =
    (i : ℕ) (x y : LogEntry)
    → get_elem? xs i ≡ some x
    → get_elem? ys i ≡ some y
    → x.term ≡ y.term
    → take (suc i) xs ≡ take (suc i) ys

get_elem?-append_middle {ℓ} :
    {A : Type ℓ} (xs : List A) (y : A) (ys : List A) → get_elem? (xs ++ y ∷ ys) (length xs) ≡ some y
get_elem?-append_middle [] y ys = refl
get_elem?-append_middle (x ∷ xs) y ys = get_elem?-append_middle xs y ys

take-append_length {ℓ} : {A : Type ℓ} (xs ys : List A) → take (length xs) (xs ++ ys) ≡ xs
take-append_length [] ys = refl
take-append_length (x ∷ xs) ys = ap (◌∷◌ x) (take-append_length xs ys)

take-append_suc {ℓ} :
    {A : Type ℓ} (xs : List A) (y : A) (ys : List A)
    → take (suc (length xs)) (xs ++ y ∷ ys) ≡ xs ++ y ∷ []
take-append_suc [] y ys = refl
take-append_suc (x ∷ xs) y ys = ap (◌∷◌ x) (take-append_suc xs y ys)

pub get_elem?-some {ℓ} :
    {A : Type ℓ} (xs : List A) (i : ℕ) → i < length xs → (x : A) × (get_elem? xs i ≡ some x)
get_elem?-some [] i h = absurd (omega arith)
get_elem?-some (y ∷ xs) zero h = (y, refl)
get_elem?-some (y ∷ xs) (suc i) h = get_elem?-some xs i (omega arith)

pub get_elem?-length {ℓ} :
    {A : Type ℓ} (xs : List A) (i : ℕ) (x : A) → get_elem? xs i ≡ some x → i < length xs
get_elem?-length [] i x h = absurd (cc)
get_elem?-length (y ∷ xs) zero x h = omega arith
get_elem?-length (y ∷ xs) (suc i) x h = omega (arith, get_elem?-length xs i x h)

pub get_elem?-take_below {ℓ} :
    {A : Type ℓ} (m : ℕ) (xs : List A) (i : ℕ) → i < m → get_elem? (take m xs) i ≡ get_elem? xs i
get_elem?-take_below zero xs i h = absurd (omega arith)
get_elem?-take_below (suc m) [] i h = refl
get_elem?-take_below (suc m) (x ∷ xs) zero h = refl
get_elem?-take_below (suc m) (x ∷ xs) (suc i) h = get_elem?-take_below m xs i (omega arith)

-- One step of the loop.
pub merge_skip :
    (log : List LogEntry) (k : ℕ) (old entry : LogEntry) (entries : List LogEntry)
    → k < length log
    → get_elem? log k ≡ some old
    → old.term ≡ entry.term
    → merge log (pos k) (entry ∷ entries) ≡ merge log (pos (k + 1)) entries
unfolding merge
merge_skip log k old entry entries l g e = ground arith

pub merge_conflict :
    (log : List LogEntry) (k : ℕ) (old entry : LogEntry) (entries : List LogEntry)
    → k < length log
    → get_elem? log k ≡ some old
    → old.term ≢ entry.term
    → merge log (pos k) (entry ∷ entries) ≡ some (take k log ++ entry ∷ entries)
unfolding merge
merge_conflict log k old entry entries l g e = ground arith

pub merge_end :
    (log : List LogEntry) (k : ℕ) (entry : LogEntry) (entries : List LogEntry)
    → length log ≤ k
    → merge log (pos k) (entry ∷ entries) ≡ some (log ++ entry ∷ entries)
unfolding merge
merge_end log k entry entries l = ground arith

-- What the loop makes of the log `log`, where the leader's is `pre ++ entries`.
abbrev pub Merged : (log pre entries : List LogEntry) → Type 0
Merged log pre entries =
    (log' : List LogEntry) × (merge log (pos (length pre)) entries ≡ some log')
    × (take (length (pre ++ entries)) log' ≡ pre ++ entries)
    × ((log' ≡ log) ⊎ (log' ≡ pre ++ entries))
    × (length (pre ++ entries) ≤ length log')

merge-nil : (log : List LogEntry) (i : ℤ) → merge log i [] ≡ some log
unfolding merge
merge-nil log i = refl

regroup :
    (pre : List LogEntry) (entry : LogEntry) (entries : List LogEntry)
    → pre ++ entry ∷ entries ≡ (pre ++ entry ∷ []) ++ entries
regroup pre entry entries = sym (append_assoc pre (entry ∷ []) entries)

one_more : (n : ℕ) → n + 1 ≡ suc n
one_more n = omega arith

-- The follower's log begins with the leader's `l` and stays, or it does not and becomes the leader's.
abbrev pub Verdict : (log pre entries l : List LogEntry) → Type 0
Verdict log pre entries l =
    ((take (length l) log ≡ l) × (merge log (pos (length pre)) entries ≡ some log))
    ⊎ ((take (length l) log ≢ l) × (merge log (pos (length pre)) entries ≡ some l))

merge_same :
    (log pre : List LogEntry) (entry : LogEntry) (entries : List LogEntry) (old : LogEntry)
    → length pre < length log
    → get_elem? log (length pre) ≡ some old
    → old.term ≡ entry.term
    → Verdict log (pre ++ entry ∷ []) entries ((pre ++ entry ∷ []) ++ entries)
    → Verdict log pre (entry ∷ entries) (pre ++ entry ∷ entries)
merge_same log pre entry entries old l g e v =
    subst (Verdict log pre (entry ∷ entries)) (sym (regroup pre entry entries))
      (elim v [ inl (t, q) ↦ inl (t, skip ∙ q) | inr (t, q) ↦ inr (t, skip ∙ q) ])
  where
    skip :
        merge log (pos (length pre)) (entry ∷ entries)
        ≡ merge log (pos (length (pre ++ entry ∷ []))) entries
    skip =
        merge_skip log (length pre) old entry entries l g e
        ∙ ap (λ k. merge log (pos k) entries) (sym (length-append pre (entry ∷ [])))

-- A log that begins with the leader's has the leader's entries.
begins_has :
    (log pre : List LogEntry) (entry : LogEntry) (entries : List LogEntry)
    → take (length (pre ++ entry ∷ entries)) log ≡ pre ++ entry ∷ entries
    → get_elem? log (length pre) ≡ some entry
begins_has log pre entry entries t =
    sym (
      get_elem?-take_below (length (pre ++ entry ∷ entries)) log (length pre)
        (omega (arith, length-append pre (entry ∷ entries))))
    ∙ ap (λ xs. get_elem? xs (length pre)) t
    ∙ get_elem?-append_middle pre entry entries

-- What rule 3 makes of a log that agrees with the leader's, `pre ++ entries`, up to `pre`: if the log
-- begins with the leader's, it stays, with what it has beyond; if not, it becomes the leader's.
pub merge_lem :
    (log pre entries : List LogEntry)
    → Matching log (pre ++ entries)
    → length pre ≤ length log
    → take (length pre) log ≡ pre
    → Verdict log pre entries (pre ++ entries)
merge_lem log pre [] m l t = inl (rw append-nil t, merge-nil log (pos (length pre)))
merge_lem log pre (entry ∷ entries) m l t = elim (dec_lt (length pre) (length log)) [
  | yes k ↦
      let (old, g) = get_elem?-some log (length pre) k in
      elim (ℕ_discrete old.term entry.term) [
        | yes same ↦ merge_same log pre entry entries old k g same (
            merge_lem log (pre ++ entry ∷ []) entries
              (subst (Matching log) (regroup pre entry entries) m)
              (omega (arith, length-append pre (entry ∷ [])))
              (ap (λ i. take i log) (length-append pre (entry ∷ []) ∙ one_more (length pre))
                ∙ (m (length pre) old entry g (get_elem?-append_middle pre entry entries) same
                    ∙ take-append_suc pre entry entries)))
        | no other ↦ inr (
          λ b. other (
              ap (λ (x : LogEntry). x.term)
                (some_inj (sym g ∙ begins_has log pre entry entries b))),
          merge_conflict log (length pre) old entry entries k g other
              ∙ ap (λ p. some (p ++ entry ∷ entries)) t,
        )
      ]
  | no k ↦ inr (
    λ b. k (get_elem?-length log (length pre) entry (begins_has log pre entry entries b)),
    merge_end log (length pre) entry entries (omega arith)
        ∙ ap (λ p. some (p ++ entry ∷ entries))
            (sym (take-length-le (length pre) log (omega arith)) ∙ t),
  )
]

-- In both cases the log begins with the leader's.
pub merge-Merged :
    (log pre entries : List LogEntry)
    → Matching log (pre ++ entries)
    → length pre ≤ length log
    → take (length pre) log ≡ pre
    → Merged log pre entries
merge-Merged log pre entries m l t = elim (merge_lem log pre entries m l t) [
  | inl (b, q) ↦
      (log, q, b, inl refl, omega (arith, ap length b, length-take (length (pre ++ entries)) log))
  | inr (_, q) ↦ (pre ++ entries, q, take-length-le _ _ (omega arith), inr refl, omega arith)
]

-- ===== src/RaftLog/Replication.antt =====
-- The request of a leader of internal/consensus/consensus.go, at a follower that it fits.
use ensemble_chat.Common.{
  ℕ, zero, suc, ◌≤◌, ◌<◌, ◌≡◌, ◌⊎◌, refl, sym, ap, ◌∙◌, subst, ℤ, pos, minus_one, suc_ℤ, pred_ℤ,
  eq_ℤ_iff, ◌≤ℤ◌, true, some, List, [], ◌∷◌, ◌++◌, length, take, drop, arith, length-take,
  take-append-drop,
}
use ensemble_chat.Types.{LogEntry, AppendEntriesRequest, AppendEntriesResponse}
use ensemble_chat.RaftLog.{
  RaftLog, term_at, send_append_entries_to, follow_commit, respond, merge, accept, fits,
  check_previous,
}
use ensemble_chat.RaftLog.Apply.{last_of, suc-last_of}
use ensemble_chat.RaftLog.Merge.{Matching, get_elem?-some, merge-Merged}
use ensemble_chat.RaftLog.Commits.{follow_commit_keeps}

-- The request for a follower whose next index is `k`.
abbrev pub request_at : RaftLog → (k : ℕ) → AppendEntriesRequest
request_at ℓ k = record {
  term = ℓ.current_term;
  leader_id = ℓ.node_id;
  prev_log_index = last_of k;
  prev_log_term = term_at ℓ.log (last_of k);
  entries = drop k ℓ.log;
  leader_commit = ℓ.commit_index;
}

pub drop-length_le {ℓ} : {A : Type ℓ} (k : ℕ) (xs : List A) → length xs ≤ k → drop k xs ≡ []
drop-length_le zero [] h = refl
drop-length_le zero (x ∷ xs) h = absurd (omega arith)
drop-length_le (suc k) [] h = refl
drop-length_le (suc k) (x ∷ xs) h = drop-length_le k xs (omega arith)

pub send_request :
    (ℓ : RaftLog) (f k : ℕ)
    → ℓ.next_index f ≡ pos k
    → send_append_entries_to ℓ f ≡ some (request_at ℓ k)
unfolding send_append_entries_to
send_request ℓ f k e = ground (arith, e, drop-length_le k ℓ.log)

check_fits :
    (r ℓ : RaftLog) (j : ℕ)
    → check_previous r.log (request_at ℓ (suc j)) ≡ fits
    → (j < length r.log) × (term_at r.log (pos j) ≡ term_at ℓ.log (pos j))
unfolding check_previous
check_fits r ℓ j h =
    (ground arith, ground (arith, eq_ℤ_iff (term_at r.log (pos j)) (term_at ℓ.log (pos j))))

pos_inj : {a b : ℕ} → pos a ≡ pos b → a ≡ b
pos_inj h = cc

-- Where the previous entry fits, the logs agree up to it.
pub fits_prefix :
    (r ℓ : RaftLog) (k : ℕ)
    → Matching r.log ℓ.log
    → k ≤ length ℓ.log
    → check_previous r.log (request_at ℓ k) ≡ fits
    → (k ≤ length r.log) × (take k r.log ≡ take k ℓ.log)
fits_prefix r ℓ zero m l h = (omega arith, refl)
fits_prefix r ℓ (suc j) m l h =
    let (below, same) = check_fits r ℓ j h in
    let (x, g) = get_elem?-some r.log j below in
    let (y, g') = get_elem?-some ℓ.log j l in
    (below, m j x y g g' (pos_inj (ground (arith, same, g, g'))))

pub accept_lem :
    (r ℓ : RaftLog) (k : ℕ) (clock : ℕ → ℕ) (log' : List LogEntry) (r' : RaftLog)
    → merge r.log (suc_ℤ (last_of k)) (drop k ℓ.log) ≡ some log'
    → follow_commit (record r { log = log' }) ℓ.commit_index clock ≡ some r'
    → accept r (request_at ℓ k) clock ≡ some (r', respond r' true (pred_ℤ (pos (length r'.log))))
unfolding accept
accept_lem r ℓ k clock log' r' e f = rw (e, accept) (rw f)

-- A request that fits is accepted: the leader's log becomes a prefix of the follower's, which
-- otherwise is as it was, or is the leader's.
pub accept_replicates :
    (r ℓ : RaftLog) (k : ℕ) (clock : ℕ → ℕ)
    → Matching r.log ℓ.log
    → k ≤ length ℓ.log
    → k ≤ length r.log
    → take k r.log ≡ take k ℓ.log
    → minus_one ≤ℤ r.last_applied
    → (r' : RaftLog) × (resp : AppendEntriesResponse) × (accept r (request_at ℓ k) clock
        ≡ some (r', resp))
      × (resp.success ≡ true)
      × (resp.term ≡ r.current_term)
      × (take (length ℓ.log) r'.log ≡ ℓ.log)
      × ((r'.log ≡ r.log) ⊎ (r'.log ≡ ℓ.log))
accept_replicates r ℓ k clock m l l' t low =
    let (log', e, tk, or, n) =
      merge-Merged r.log (take k ℓ.log) (drop k ℓ.log) (subst (Matching r.log) (sym whole) m)
        (rw len l') (rw len t) in
    let (r', f, kept) = follow_commit_keeps (record r { log = log' }) ℓ.commit_index clock low in
    (
      r',
      respond r' true (pred_ℤ (pos (length r'.log))),
      accept_lem r ℓ k clock log' r'
          (ap (λ (i : ℤ). merge r.log i (drop k ℓ.log)) (suc-last_of k ∙ ap pos (sym len)) ∙ e) f,
      refl,
      kept.same_term,
      rw kept.same_log (subst (λ xs. take (length xs) log' ≡ xs) whole tk),
      rw kept.same_log (subst (λ xs. (log' ≡ r.log) ⊎ (log' ≡ xs)) whole or),
    )
  where
    whole : take k ℓ.log ++ drop k ℓ.log ≡ ℓ.log
    whole = take-append-drop k ℓ.log

    len : length (take k ℓ.log) ≡ k
    len = length-take k ℓ.log ∙ omega arith

-- ===== src/RaftLog/Extra.antt =====
-- A follower of internal/consensus/consensus.go whose log goes on after the leader's.
use ensemble_chat.Common.{
  ℕ, zero, suc, ◌+◌, ◌≤◌, ◌<◌, ◌≡◌, refl, ap, ◌∙◌, ℤ, pos, minus_one, pred_ℤ, suc_ℤ, eq_ℤ_iff, ◌≤ℤ◌,
  true, some, List, [], ◌∷◌, ◌++◌, length, length-append, get_elem?, drop, arith,
}
use ensemble_chat.Types.{LogEntry, AppendEntriesResponse}
use ensemble_chat.RaftLog.{
  RaftLog, term_at, merge, respond, fits, check_previous, handle_append_entries,
}
use ensemble_chat.RaftLog.Apply.{last_of}
use ensemble_chat.RaftLog.Commits.{follow_commit_keeps}
use ensemble_chat.RaftLog.Replication.{request_at, drop-length_le, accept_lem}
use ensemble_chat.RaftLog.CatchUp.{first_fits}
use ensemble_chat.RaftLog.Exchange.{accepted_request}

pub get_elem?-append_left {ℓ} :
    {A : Type ℓ} (xs ys : List A) (i : ℕ) → i < length xs → get_elem? (xs ++ ys) i ≡ get_elem? xs i
get_elem?-append_left [] ys i h = absurd (omega arith)
get_elem?-append_left (x ∷ xs) ys zero h = refl
get_elem?-append_left (x ∷ xs) ys (suc i) h = get_elem?-append_left xs ys i (omega arith)

pub same_term_fits :
    (r ℓ : RaftLog) (j : ℕ)
    → j < length r.log
    → get_elem? r.log j ≡ get_elem? ℓ.log j
    → check_previous r.log (request_at ℓ (suc j)) ≡ fits
unfolding check_previous
same_term_fits r ℓ j h e =
    ground (arith, e, eq_ℤ_iff (term_at r.log (pos j)) (term_at ℓ.log (pos j)))

end_fits :
    (r ℓ : RaftLog) (extra : List LogEntry) (n : ℕ)
    → r.log ≡ ℓ.log ++ extra
    → n ≤ length ℓ.log
    → check_previous r.log (request_at ℓ n) ≡ fits
end_fits r ℓ extra zero e h = first_fits r ℓ
end_fits r ℓ extra (suc j) e h =
    same_term_fits r ℓ j (omega (arith, ap length e, length-append ℓ.log extra))
      (ap (λ xs. get_elem? xs j) e ∙ get_elem?-append_left ℓ.log extra j h)

nothing_to_merge :
    (log : List LogEntry) (i : ℤ) (entries : List LogEntry)
    → entries ≡ []
    → merge log i entries ≡ some log
unfolding merge
nothing_to_merge log i entries e = rw e refl

-- A follower that has the leader's log and then `extra` entries that the leader does not have answers the
-- leader's request, sent with a next index at the end of the leader's log, with success, keeps the
-- extra entries, and reports the index of the last of them as its match index: beyond the leader's
-- own log, where `extra` is not empty.
pub extra_entries_reported :
    (r ℓ : RaftLog) (extra : List LogEntry) (clock : ℕ → ℕ)
    → r.log ≡ ℓ.log ++ extra
    → r.current_term ≤ ℓ.current_term
    → minus_one ≤ℤ r.last_applied
    → (r' : RaftLog) × (resp : AppendEntriesResponse) × (handle_append_entries r
          (request_at ℓ (length ℓ.log))
          clock
        ≡ some (r', resp))
      × (r'.log ≡ ℓ.log ++ extra)
      × (resp.success ≡ true)
      × (resp.match_index ≡ last_of (length ℓ.log + length extra))
extra_entries_reported r ℓ extra clock e t low =
    let r1 : RaftLog = record r { current_term = ℓ.current_term } in
    let n = length ℓ.log in
    let (r', f, kept) = follow_commit_keeps r1 ℓ.commit_index clock low in
    let m =
      nothing_to_merge r.log (suc_ℤ (last_of n)) (drop n ℓ.log)
        (drop-length_le n ℓ.log (omega arith)) in
    (
      r',
      respond r' true (pred_ℤ (pos (length r'.log))),
      accepted_request r ℓ n clock t (end_fits r ℓ extra n e (omega arith))
          ∙ accept_lem r1 ℓ n clock r.log r' m f,
      kept.same_log ∙ e,
      refl,
      ap (λ (k : ℕ). last_of k) (ap length (kept.same_log ∙ e) ∙ length-append ℓ.log extra),
    )

-- ===== src/RaftLog/Follower.antt =====
-- The branches of `HandleAppendEntries` (internal/consensus/consensus.go).
use ensemble_chat.Common.{
  ℕ, subst, false, ◌+◌, ◌≤◌, ◌<◌, ◌≡◌, ◌≢◌, ◌⊎◌, inl, inr, sym, ap, ◌∙◌, pos, minus_one, pos_part,
  neg_part, pred_ℤ, eq_ℤ, eq_ℤ_iff, eq_pos_part, ◌≤ℤ◌, ◌<ℤ◌, true, false, some, length, take, arith,
  length-take, Bool-cases, dec_le, dec_lt, ltb,
}
use ensemble_chat.Types.{AppendEntriesRequest}
use ensemble_chat.RaftLog.{
  RaftLog, term_at, respond, accept, mismatch, check_previous, handle_append_entries,
}
use ensemble_chat.RaftLog.Rules.{Accepted, accept-Accepted}
use ensemble_chat.RaftLog.Apply.{last_of}

-- Rule 2 finds the entry before the new ones.
abbrev pub Fits : RaftLog → AppendEntriesRequest → Type 0
Fits r req =
    (req.prev_log_index <ℤ pos 0)
    ⊎ ((req.prev_log_index <ℤ pos (length r.log))
        × (term_at r.log req.prev_log_index ≡ req.prev_log_term))

mismatch_refused :
    (r : RaftLog) (req : AppendEntriesRequest) (clock : ℕ → ℕ)
    → r.current_term ≤ req.term
    → pos 0 ≤ℤ req.prev_log_index
    → req.prev_log_index <ℤ pos (length r.log)
    → term_at r.log req.prev_log_index ≢ req.prev_log_term
    → handle_append_entries r req clock
      ≡ some (
        record r { current_term = req.term; log = take (pos_part req.prev_log_index) r.log },
        respond (record r { current_term = req.term }) false (pred_ℤ req.prev_log_index),
      )
unfolding handle_append_entries
mismatch_refused r req clock h p s t = rw (refused, handle_append_entries) (rw found (rw cut))
  where
    refused : ltb req.term r.current_term ≡ false
    refused = ground arith

    found : check_previous r.log req ≡ mismatch
    found = ground (arith, eq_ℤ_iff (term_at r.log req.prev_log_index) req.prev_log_term)

    cut :
        pred_ℤ (pos (length (take (pos_part req.prev_log_index) r.log))) ≡ pred_ℤ req.prev_log_index
    cut = ap pred_ℤ (
        ap pos (
          length-take (pos_part req.prev_log_index) r.log
          ∙ omega (arith, ap neg_part (eq_pos_part req.prev_log_index p)))
        ∙ sym (eq_pos_part req.prev_log_index p))

old_refused :
    (r : RaftLog) (req : AppendEntriesRequest) (clock : ℕ → ℕ)
    → req.term < r.current_term
    → handle_append_entries r req clock ≡ some (r, respond r false minus_one)
unfolding handle_append_entries
old_refused r req clock h = ground arith

short_refused :
    (r : RaftLog) (req : AppendEntriesRequest) (clock : ℕ → ℕ)
    → r.current_term ≤ req.term
    → pos 0 ≤ℤ req.prev_log_index
    → pos (length r.log) ≤ℤ req.prev_log_index
    → handle_append_entries r req clock
      ≡ some (
        record r { current_term = req.term },
        respond (record r { current_term = req.term }) false (last_of (length r.log)),
      )
unfolding handle_append_entries
short_refused r req clock h p s = ground arith

negative_accepted :
    (r : RaftLog) (req : AppendEntriesRequest) (clock : ℕ → ℕ)
    → r.current_term ≤ req.term
    → req.prev_log_index <ℤ pos 0
    → handle_append_entries r req clock ≡ accept (record r { current_term = req.term }) req clock
unfolding handle_append_entries
negative_accepted r req clock h p = ground arith

same_accepted :
    (r : RaftLog) (req : AppendEntriesRequest) (clock : ℕ → ℕ)
    → r.current_term ≤ req.term
    → req.prev_log_index <ℤ pos (length r.log)
    → eq_ℤ (term_at r.log req.prev_log_index) req.prev_log_term ≡ true
    → handle_append_entries r req clock ≡ accept (record r { current_term = req.term }) req clock
unfolding handle_append_entries
same_accepted r req clock h p e = ground (arith, e)

-- The four branches of `HandleAppendEntries`. A request of an earlier term is refused without a change.
-- For any other the term becomes the request's. Then a log that is too short for the request's
-- previous index stays, a log with another term at that index is cut before it, and both are refused
-- with the index of the last entry that is left. Where the log has the request's previous term at that
-- index, or the index is negative, rule 3 makes the new log. If the leader's commit index is above the
-- node's, it becomes the node's, or the last index of the new log if that is lower, and if the node's
-- commit index has risen the entries are applied. The answer is a success with the last index of the new
-- log. A panic of rule 3 or of applying is one of the handler.
pub handle_append_entries_cases :
    (r : RaftLog) (req : AppendEntriesRequest) (clock : ℕ → ℕ)
    → ((req.term < r.current_term)
        × (handle_append_entries r req clock ≡ some (r, respond r false minus_one)))
      ⊎ ((r.current_term ≤ req.term)
          × (pos 0 ≤ℤ req.prev_log_index)
          × (pos (length r.log) ≤ℤ req.prev_log_index)
          × (handle_append_entries r req clock
              ≡ some (
                record r { current_term = req.term },
                respond (record r { current_term = req.term }) false (last_of (length r.log)),
              )))
      ⊎ ((r.current_term ≤ req.term)
          × (pos 0 ≤ℤ req.prev_log_index)
          × (req.prev_log_index <ℤ pos (length r.log))
          × (term_at r.log req.prev_log_index ≢ req.prev_log_term)
          × (handle_append_entries r req clock
              ≡ some (
                record r {
                  current_term = req.term;
                  log = take (pos_part req.prev_log_index) r.log;
                },
                respond (record r { current_term = req.term }) false (pred_ℤ req.prev_log_index),
              )))
      ⊎ ((r.current_term ≤ req.term)
          × Fits r req
          × Accepted
              (record r { current_term = req.term })
              req
              clock
              (handle_append_entries r req clock))
handle_append_entries_cases r req clock = elim (dec_lt req.term r.current_term) [
  | yes l ↦ inl (l, old_refused r req clock l)
  | no g ↦
      elim (dec_le (pos_part (pos 0) + neg_part req.prev_log_index) (pos_part req.prev_log_index)) [
        | no n ↦ inr (
            inr (
              inr (
                omega (arith, g),
                inl (omega (arith, n)),
                by_accept (negative_accepted r req clock (omega (arith, g)) (omega (arith, n))),
              )))
        | yes p ↦
            elim (dec_lt (pos_part req.prev_log_index)
              (length r.log + neg_part req.prev_log_index)) [
                | no s ↦ inr (
                    inl (
                      omega (arith, g),
                      omega (arith, p),
                      omega (arith, s),
                      short_refused r req clock (omega (arith, g)) (omega (arith, p))
                          (omega (arith, s)),
                    ))
                | yes s ↦
                    elim (Bool-cases (eq_ℤ (term_at r.log req.prev_log_index) req.prev_log_term)) [
                      | inl e ↦ inr (
                          inr (
                            inr (
                              omega (arith, g),
                              inr (omega (arith, s), same e),
                              by_accept (
                                  same_accepted r req clock (omega (arith, g)) (omega (arith, s))
                                    e),
                            )))
                      | inr e ↦ inr (
                          inr (
                            inl (
                              omega (arith, g),
                              omega (arith, p),
                              omega (arith, s),
                              other e,
                              mismatch_refused r req clock (omega (arith, g)) (omega (arith, p))
                                  (omega (arith, s)) (other e),
                            )))
                    ]
              ]
      ]
]
  where
    r1 : RaftLog
    r1 = record r { current_term = req.term }

    by_accept :
        handle_append_entries r req clock ≡ accept r1 req clock
        → Accepted r1 req clock (handle_append_entries r req clock)
    by_accept e = subst (Accepted r1 req clock) (sym e) (accept-Accepted r1 req clock)

    same :
        eq_ℤ (term_at r.log req.prev_log_index) req.prev_log_term ≡ true
        → term_at r.log req.prev_log_index ≡ req.prev_log_term
    same e = ground (arith, eq_ℤ_iff (term_at r.log req.prev_log_index) req.prev_log_term, e)

    other :
        eq_ℤ (term_at r.log req.prev_log_index) req.prev_log_term ≡ false
        → term_at r.log req.prev_log_index ≢ req.prev_log_term
    other e h = ground (arith, eq_ℤ_iff (term_at r.log req.prev_log_index) req.prev_log_term, e, h)

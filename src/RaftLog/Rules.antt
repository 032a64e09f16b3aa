-- ===== src/RaftLog/Rules.antt =====
-- Rules 3 and 4 of `HandleAppendEntries` (internal/consensus/consensus.go), and the answer.
use ensemble_chat.Common.{
  ℕ, ℤ, Option, Option-cases, none, refl, List, suc_ℤ, ltb_ℤ, if◌then◌else◌, false, ◌≡◌, ◌⊎◌, inl,
  inr, ap, ◌∙◌, ◌≤ℤ◌, ◌<ℤ◌, true, false, some, length, arith, Bool-cases,
}
use ensemble_chat.Types.{LogEntry, AppendEntriesRequest, AppendEntriesResponse}
use ensemble_chat.RaftLog.{
  RaftLog, merge, commit_limit, follow_commit, apply_committed, respond, accept,
}
use ensemble_chat.RaftLog.Apply.{last_of}
use ensemble_chat.RaftLog.Commits.{follow_skips, follow_sets, follow_applies}
use ensemble_chat.RaftLog.Applied.{apply-Applied}

-- Rule 4 for a follower with commit index `c`.
abbrev pub new_commit : (c : ℤ) → List LogEntry → (leader_commit : ℤ) → ℤ
new_commit c log leader_commit =
    if ltb_ℤ c leader_commit
    then (if ltb_ℤ leader_commit (last_of (length log))
        then leader_commit
        else last_of (length log))
    else c

-- Rule 4 and the answer on the state `r`, whose log is the new one: what is newly committed is applied.
abbrev pub Followed :
    RaftLog → (commit : ℤ) (clock : ℕ → ℕ) → Option (RaftLog × AppendEntriesResponse) → Type 0
Followed r commit clock result =
    ((r.commit_index <ℤ commit)
      × (apply_committed (record r { commit_index = commit }) clock ≡ none)
      × (result ≡ none))
    ⊎ ((r.commit_index <ℤ commit)
        × (r' : RaftLog) × (apply_committed (record r { commit_index = commit }) clock ≡ some r')
        × (result ≡ some (r', respond r true (last_of (length r.log)))))
    ⊎ ((commit ≤ℤ r.commit_index)
        × (result
            ≡ some (record r { commit_index = commit }, respond r true (last_of (length r.log)))))

-- Rules 3 and 4 and the answer on the state `r`.
abbrev pub Accepted :
    RaftLog
    → AppendEntriesRequest
    → (clock : ℕ → ℕ) → Option (RaftLog × AppendEntriesResponse)
    → Type 0
Accepted r req clock result =
    ((merge r.log (suc_ℤ req.prev_log_index) req.entries ≡ none) × (result ≡ none))
    ⊎ ((log : List LogEntry) × (merge r.log (suc_ℤ req.prev_log_index) req.entries ≡ some log)
        × Followed (record r { log = log }) (new_commit r.commit_index log req.leader_commit) clock
            result)

module _ (r : RaftLog) (req : AppendEntriesRequest) (clock : ℕ → ℕ) where
  merge_panics :
      merge r.log (suc_ℤ req.prev_log_index) req.entries ≡ none → accept r req clock ≡ none
  unfolding accept
  merge_panics e = rw (e, accept) refl

  apply_panics :
      (log : List LogEntry)
      → merge r.log (suc_ℤ req.prev_log_index) req.entries ≡ some log
      → follow_commit (record r { log = log }) req.leader_commit clock ≡ none
      → accept r req clock ≡ none
  unfolding accept
  apply_panics log e f = rw (e, accept) (rw f refl)

  answers_with :
      (log : List LogEntry) (r' : RaftLog)
      → merge r.log (suc_ℤ req.prev_log_index) req.entries ≡ some log
      → follow_commit (record r { log = log }) req.leader_commit clock ≡ some r'
      → accept r req clock ≡ some (r', respond r' true (last_of (length r'.log)))
  unfolding accept
  answers_with log r' e f = rw (e, accept) (rw f refl)

  follows :
      (log : List LogEntry)
      → merge r.log (suc_ℤ req.prev_log_index) req.entries ≡ some log
      → Followed
          (record r { log = log })
          (new_commit r.commit_index log req.leader_commit)
          clock
          (accept r req clock)
  follows log e = elim (Bool-cases (ltb_ℤ r.commit_index req.leader_commit)) [
    | inr b ↦
        rw b (
          inr
            (inr (omega arith, answers_with log r1 e (follow_skips r1 req.leader_commit clock b))))
    | inl b ↦ elim (Bool-cases (ltb_ℤ r.commit_index limit)) [
      | inr c ↦ rw b (
          inr
            (inr (not_after c, answers_with log r2 e (follow_sets r1 req.leader_commit clock b c))))
      | inl c ↦ elim (Option-cases (apply_committed r2 clock)) [
        | inl p ↦ rw b (
            inl
              (after c, p, apply_panics log e (follow_applies r1 req.leader_commit clock b c ∙ p)))
        | inr (r', p) ↦
            let (same, _, term, _, _, _, node) = apply-Applied r2 clock r' p in
            rw b (
              inr (
                inl (
                  after c,
                  r',
                  p,
                  answers_with log r' e (follow_applies r1 req.leader_commit clock b c ∙ p)
                      ∙ ap (λ (resp : AppendEntriesResponse). some (r', resp))
                          (same_answer r' same term node),
                )))
      ]
    ]
  ]
    where
      r1 : RaftLog
      r1 = record r { log = log }

      limit : ℤ
      limit = commit_limit log req.leader_commit

      r2 : RaftLog
      r2 = record r1 { commit_index = limit }

      after : ltb_ℤ r.commit_index limit ≡ true → r.commit_index <ℤ limit
      after c = ground (arith, c)

      not_after : ltb_ℤ r.commit_index limit ≡ false → limit ≤ℤ r.commit_index
      not_after c = ground (arith, c)

      same_answer :
          (r' : RaftLog)
          → r'.log ≡ log
          → r'.current_term ≡ r.current_term
          → r'.node_id ≡ r.node_id
          → respond r' true (last_of (length r'.log)) ≡ respond r1 true (last_of (length log))
      same_answer r' l t i = rw (l, t, i) refl

  pub accept-Accepted : Accepted r req clock (accept r req clock)
  accept-Accepted = elim (Option-cases (merge r.log (suc_ℤ req.prev_log_index) req.entries)) [
    | inl e ↦ inl (e, merge_panics e)
    | inr (log, e) ↦ inr (log, e, follows log e)
  ]

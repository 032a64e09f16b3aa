-- ===== src/RaftLog/Answers.antt =====
-- `HandleAppendEntries` (internal/consensus/consensus.go) on any request, and the leadership of the
-- node that it reaches.
use ensemble_chat.Common.{
  ℕ, zero, suc, ◌+◌, ◌≡◌, inl, inr, refl, sym, ◌∙◌, ℤ, pos, negsuc, minus_one, pos_part, pred_ℤ,
  suc_ℤ, ◌≤ℤ◌, true, false, some, List, [], ◌∷◌, ◌++◌, length, take, arith, ltb, if◌then◌else◌,
  Bool-cases, dec_lt, ℕ_discrete,
}
use ensemble_chat.Types.{LogEntry, AppendEntriesRequest, AppendEntriesResponse}
use ensemble_chat.RaftLog.{RaftLog, merge, accept, respond, check_previous, handle_append_entries}
use ensemble_chat.RaftLog.Merge.{get_elem?-some, merge_skip, merge_conflict, merge_end}
use ensemble_chat.RaftLog.Exchange.{Check-cases}
use ensemble_chat.RaftLog.Commits.{follow_commit_keeps}

-- Rule 3 never panics from an index that is not negative.
merge_total :
    (log : List LogEntry) (i : ℕ) (entries : List LogEntry)
    → (log' : List LogEntry) × (merge log (pos i) entries ≡ some log')
unfolding merge
merge_total log i [] = (log, refl)
merge_total log i (entry ∷ entries) = elim (dec_lt i (length log)) [
  | yes l ↦
      let (old, g) = get_elem?-some log i l in
      elim (ℕ_discrete old.term entry.term) [
        | yes same ↦
            let (log', e) = merge_total log (i + 1) entries in
            (log', merge_skip log i old entry entries l g same ∙ e)
        | no other ↦
            (take i log ++ entry ∷ entries, merge_conflict log i old entry entries l g other)
      ]
  | no g ↦ (log ++ entry ∷ entries, merge_end log i entry entries (omega (arith, g)))
]

from_next : (i : ℤ) → minus_one ≤ℤ i → (j : ℕ) × (suc_ℤ i ≡ pos j)
from_next (pos i) h = (i + 1, refl)
from_next (negsuc zero) h = (0, refl)
from_next (negsuc (suc i)) h = absurd (omega arith)

-- The answer to a request: the state afterwards and the response, of one term.
record Answered (r r' : RaftLog) (resp : AppendEntriesResponse) (term : ℕ) : Type 0 where
  new_term : r'.current_term ≡ term
  told : resp.term ≡ term
  by : resp.follower_id ≡ r.node_id
  same_leader : r'.is_leader ≡ r.is_leader

accept_answers :
    (r : RaftLog) (req : AppendEntriesRequest) (clock : ℕ → ℕ)
    → minus_one ≤ℤ r.last_applied
    → minus_one ≤ℤ req.prev_log_index
    → (r' : RaftLog) × (resp : AppendEntriesResponse) × (accept r req clock ≡ some (r', resp))
      × Answered r r' resp r.current_term
unfolding accept
accept_answers r req clock low p =
    let (j, next) = from_next req.prev_log_index p in
    let (log, e) = merge_total r.log j req.entries in
    let (r', f, kept) = follow_commit_keeps (record r { log = log }) req.leader_commit clock low in
    (
      r',
      respond r' true (pred_ℤ (pos (length r'.log))),
      rw (next, accept) (rw (e) (rw f refl)),
      record {
        new_term = kept.same_term;
        told = kept.same_term;
        by = kept.same_node;
        same_leader = kept.same_leader;
      },
    )

-- A node whose last applied index is at least -1 answers every request whose previous index is at
-- least -1, and does not panic. Afterwards its term, which is also the response's, is the later one of
-- its own and the request's. Whether it is a leader does not change, whatever the request's term.
pub handle_append_entries_answers :
    (r : RaftLog) (req : AppendEntriesRequest) (clock : ℕ → ℕ)
    → minus_one ≤ℤ r.last_applied
    → minus_one ≤ℤ req.prev_log_index
    → (r' : RaftLog) × (resp : AppendEntriesResponse) × (handle_append_entries r req clock
        ≡ some (r', resp))
      × (resp.term ≡ r'.current_term)
      × (r'.current_term ≡ (if ltb req.term r.current_term then r.current_term else req.term))
      × (resp.follower_id ≡ r.node_id)
      × (r'.is_leader ≡ r.is_leader)
unfolding handle_append_entries
handle_append_entries_answers r req clock low p = elim (Bool-cases (ltb req.term r.current_term)) [
  | inl old ↦ (r, respond r false minus_one, rw old refl, refl, rw old refl, refl, refl)
  | inr new ↦ elim (Check-cases (check_previous r.log req)) [
    | inl c ↦
        let (r', resp, e, a) =
          accept_answers (record r { current_term = req.term }) req clock low p in
        (r', resp, rw (new, c) e, a.told ∙ sym a.new_term, rw new a.new_term, a.by, a.same_leader)
    | inr (inl c) ↦ (
      record r { current_term = req.term },
      respond (record r { current_term = req.term }) false (pred_ℤ (pos (length r.log))),
      rw (new, c) refl,
      refl,
      rw new refl,
      refl,
      refl,
    )
    | inr (inr c) ↦ (
      record r { current_term = req.term; log = take (pos_part req.prev_log_index) r.log },
      respond (record r { current_term = req.term }) false
          (pred_ℤ (pos (length (take (pos_part req.prev_log_index) r.log)))),
      rw (new, c) refl,
      refl,
      rw new refl,
      refl,
      refl,
    )
  ]
]

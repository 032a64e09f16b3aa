-- ===== src/RaftLog/Divergence.antt =====
-- Two leaders of the Raft logs of internal/consensus/consensus.go in one term.
use ensemble_chat.Common.{
  ℕ, zero, suc, ◌+◌, ◌≤◌, ◌≡◌, ◌≢◌, inl, inr, none, false, some_inj, ltb, refl, sym, ap, ◌∙◌, subst,
  ℤ, pos, pred_ℤ, suc_ℤ, true, false, some, List, [], ◌∷◌, ◌++◌, String, length, length-append,
  get_elem?, drop, arith,
}
use ensemble_chat.Types.{ChangeType, LogEntry, AppendEntriesResponse}
use ensemble_chat.Common.Family.{update}
use ensemble_chat.RaftLog.Leader.{try_advance_commits_last}
use ensemble_chat.RaftLog.Epoch.Outcomes.{noted, success_noted}
use ensemble_chat.RaftLog.{
  RaftLog, handle_append_entries_response, try_advance_commit_index, merge, respond, fits,
  check_previous, handle_append_entries,
}
use ensemble_chat.RaftLog.Proposal.{new_entry, Sent, wait_for_majority, announce, propose_entry}
use ensemble_chat.RaftLog.Apply.{last_of, suc-last_of}
use ensemble_chat.RaftLog.Merge.{merge_skip}
use ensemble_chat.RaftLog.Commits.{follow_commit_keeps}
use ensemble_chat.RaftLog.Replication.{request_at, accept_lem}
use ensemble_chat.RaftLog.Exchange.{accepted_request}
use ensemble_chat.RaftLog.CatchUp.{first_fits}
use ensemble_chat.RaftLog.Sane.{IsSane, send_to_total}
use ensemble_chat.RaftLog.Waiting.{appended, propose_steps, appended-IsSane}
use ensemble_chat.RaftLog.Extra.{get_elem?-append_left, same_term_fits}

drop-length_append {ℓ} : {A : Type ℓ} (xs ys : List A) → drop (length xs) (xs ++ ys) ≡ ys
drop-length_append [] ys = refl
drop-length_append (x ∷ xs) ys = drop-length_append xs ys

get_elem?-length_append {ℓ} :
    {A : Type ℓ} (xs : List A) (y : A) → get_elem? (xs ++ y ∷ []) (length xs) ≡ some y
get_elem?-length_append [] y = refl
get_elem?-length_append (x ∷ xs) y = get_elem?-length_append xs y

both_fit :
    (r ℓ : RaftLog) (log xs ys : List LogEntry) (n : ℕ)
    → r.log ≡ log ++ xs
    → ℓ.log ≡ log ++ ys
    → n ≤ length log
    → check_previous r.log (request_at ℓ n) ≡ fits
both_fit r ℓ log xs ys zero e f h = first_fits r ℓ
both_fit r ℓ log xs ys (suc j) e f h =
    same_term_fits r ℓ j (omega (arith, ap length e, length-append log xs)) (
      ap (λ zs. get_elem? zs j) e
      ∙ get_elem?-append_left log xs j h
      ∙ sym (ap (λ zs. get_elem? zs j) f ∙ get_elem?-append_left log ys j h))

merge_done : (log : List LogEntry) (i : ℤ) → merge log i [] ≡ some log
unfolding merge
merge_done log i = refl

-- One new entry at the end of the log is skipped, if the follower has another one of that term there.
other_entry_stays :
    (log : List LogEntry) (y z : LogEntry)
    → y.term ≡ z.term
    → merge (log ++ y ∷ []) (pos (length log)) (z ∷ []) ≡ some (log ++ y ∷ [])
other_entry_stays log y z e =
    merge_skip (log ++ y ∷ []) (length log) y z [] (omega (arith, length-append log (y ∷ [])))
      (get_elem?-length_append log y) e
    ∙ merge_done (log ++ y ∷ []) (pos (length log + 1))

-- No response comes: the deadline passes.
propose_unheard :
    (r : RaftLog) (change : ChangeType) (key value : String) (clock : ℕ → ℕ)
    → r.is_leader ≡ true
    → IsSane r
    → (sent : List Sent) × (propose_entry r change key value clock []
        ≡ some (appended r change key value, false, sent))
unfolding wait_for_majority announce
propose_unheard r change key value clock h s =
    let (sent, e) =
      send_to_total (appended r change key value) r.peers (appended-IsSane r change key value s) in
    (
      sent ++ [],
      propose_steps r change key value clock [] sent [] (sent ++ []) (appended r change key value)
          false h e refl refl,
    )

stays_merged :
    (xs log : List LogEntry) (y z : LogEntry)
    → xs ≡ log ++ y ∷ []
    → y.term ≡ z.term
    → merge xs (suc_ℤ (last_of (length log))) (drop (length log) (log ++ z ∷ [])) ≡ some xs
stays_merged xs log y z e t =
    subst
      (λ ws. merge ws (suc_ℤ (last_of (length log))) (drop (length log) (log ++ z ∷ [])) ≡ some ws)
      (sym e)
      (ap (λ (i : ℤ). merge (log ++ y ∷ []) i (drop (length log) (log ++ z ∷ [])))
          (suc-last_of (length log))
        ∙ ap (λ ds. merge (log ++ y ∷ []) (pos (length log)) ds) (drop-length_append log (z ∷ []))
        ∙ other_entry_stays log y z t)

new_entries_agree :
    (r ℓ : RaftLog) (change change' : ChangeType) (key value key' value' : String)
    → r.current_term ≡ ℓ.current_term
    → (new_entry r change key value).term ≡ (new_entry ℓ change' key' value').term
unfolding new_entry
new_entries_agree r ℓ change change' key value key' value' t = t

plus_one : (n : ℕ) → n + 1 ≡ suc n
plus_one n = omega arith

-- The leader after a success, with the follower's match index.
counts :
    (ℓ : RaftLog) (resp : AppendEntriesResponse)
    → ltb ℓ.current_term resp.term ≡ false
    → resp.success ≡ true
    → (ℓ' : RaftLog) × (handle_append_entries_response ℓ resp ≡ some (ℓ', none))
      × (ℓ'.match_index resp.follower_id ≡ resp.match_index)
counts ℓ resp t s = (
  try_advance_commit_index (noted ℓ resp),
  success_noted ℓ resp t s,
  elim (try_advance_commits_last (noted ℓ resp)) [
    | inl (same, _) ↦
        ap (λ (x : RaftLog). x.match_index resp.follower_id) same
        ∙ updated ℓ.match_index resp.follower_id resp.match_index
    | inr (n, _, _, _, e) ↦
        ap (λ (x : RaftLog). x.match_index resp.follower_id) e
        ∙ updated ℓ.match_index resp.follower_id resp.match_index
  ],
)
  where
    updated : (f : ℕ → ℤ) (i : ℕ) (v : ℤ) → update f i v i ≡ v
    updated f i v = ground arith

-- Two nodes whose Raft logs are equal and are both leaders of one term each propose an entry, the two
-- entries differ, and no response comes to the first. When the second one's request with its entry
-- reaches the first, it is accepted, but the first keeps its own entry there; and when the answer
-- reaches the second, its match index of the first is at that entry: it counts the first for an entry
-- that the first does not have.
pub two_leaders_diverge :
    (r ℓ : RaftLog) (change change' : ChangeType) (key value key' value' : String) (clock : ℕ → ℕ)
    → r.log ≡ ℓ.log
    → r.is_leader ≡ true
    → r.current_term ≡ ℓ.current_term
    → IsSane r
    → new_entry r change key value ≢ new_entry ℓ change' key' value'
    → let n = length ℓ.log in
      let leader : RaftLog = appended ℓ change' key' value' in
      (r' : RaftLog) × (r'' : RaftLog) × (sent : List Sent) × (resp : AppendEntriesResponse)
      × (leader' : RaftLog) × (propose_entry r change key value clock [] ≡ some (r', false, sent))
      × (handle_append_entries r' (request_at leader n) clock ≡ some (r'', resp))
      × (resp.success ≡ true)
      × (resp.match_index ≡ pos n)
      × (get_elem? r''.log n ≡ some (new_entry r change key value))
      × (get_elem? r''.log n ≢ get_elem? leader.log n)
      × (handle_append_entries_response leader resp ≡ some (leader', none))
      × (leader'.match_index r.node_id ≡ pos n)
unfolding appended
two_leaders_diverge r ℓ change change' key value key' value' clock same h t s differ =
    let n = length ℓ.log in
    let y = new_entry r change key value in
    let z = new_entry ℓ change' key' value' in
    let r' = appended r change key value in
    let leader : RaftLog = appended ℓ change' key' value' in
    let r1 : RaftLog = record r' { current_term = ℓ.current_term } in
    let log_is : r'.log ≡ ℓ.log ++ y ∷ [] = ap (λ xs. xs ++ y ∷ []) same in
    let (sent, p) = propose_unheard r change key value clock h s in
    let (r'', f, kept) = follow_commit_keeps r1 ℓ.commit_index clock s.low in
    let m =
      stays_merged (r.log ++ y ∷ []) ℓ.log y z log_is
        (new_entries_agree r ℓ change change' key value key' value' t) in
    let resp = respond r'' true (pred_ℤ (pos (length r''.log))) in
    let there : get_elem? r''.log n ≡ some y =
      ap (λ xs. get_elem? xs n) (kept.same_log ∙ log_is) ∙ get_elem?-length_append ℓ.log y in
    let at_last : resp.match_index ≡ pos n =
      ap pred_ℤ
        (ap pos (ap length (kept.same_log ∙ log_is) ∙ length-append ℓ.log (y ∷ []) ∙ plus_one n)) in
    let (leader', heard, at) = counts leader resp (ground (arith, kept.same_term)) refl in
    (
      r',
      r'',
      sent,
      resp,
      leader',
      p,
      accepted_request r' leader n clock (omega (arith, t))
            (both_fit r' leader ℓ.log (y ∷ []) (z ∷ []) n log_is refl (omega arith))
          ∙ accept_lem r1 leader n clock r'.log r'' m f,
      refl,
      at_last,
      there,
      λ e. differ (some_inj (sym there ∙ e ∙ get_elem?-length_append ℓ.log z)),
      heard,
      ap leader'.match_index (sym kept.same_node) ∙ at ∙ at_last,
    )

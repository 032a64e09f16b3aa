-- ===== src/RaftLog/Epoch/Accepting.antt =====
-- A node that accepts a request of the leader (rules 3 and 4 of `HandleAppendEntries`,
-- internal/consensus/consensus.go).
use ensemble_chat.Common.{
  ℕ, ◌+◌, ◌≤◌, ◌<◌, ◌≡◌, ◌⊎◌, inl, inr, refl, sym, ap, ◌∙◌, subst, ℤ, pos, suc_ℤ, pred_ℤ, some,
  true, List, ◌++◌, length, get_elem?, take, drop, arith, length-take, take-append-drop, dec_le,
}
use ensemble_chat.Types.{LogEntry, AppendEntriesResponse}
use ensemble_chat.RaftLog.{RaftLog, merge, accept, respond, fits, check_previous}
use ensemble_chat.RaftLog.Apply.{last_of, suc-last_of}
use ensemble_chat.RaftLog.Merge.{Matching, get_elem?-some, merge-Merged}
use ensemble_chat.RaftLog.Commits.{follow_commit_keeps}
use ensemble_chat.RaftLog.Replication.{request_at, fits_prefix, accept_lem}
use ensemble_chat.RaftLog.Epoch.Prefixes.{
  get_elem?-take_below, get_elem?-length, get_elem?-drop, take-Matching, Matching-take_right,
  merge_unchanged,
}
use ensemble_chat.RaftLog.Epoch.Invariant.{IsOld, IsNew, Follows}
use ensemble_chat.RaftLog.Epoch.Heard.{get_elem?-prefix, Heard, old_or_new, old_commit, new_take}

module _ (term base : ℕ) (log : List LogEntry) (long : base ≤ length log)
    (fresh : (i : ℕ) (x : LogEntry) → base ≤ i → get_elem? log i ≡ some x → x.term ≡ term)
    (s : RaftLog) (k : ℕ) (below : k ≤ length s.log) (beyond : base < length s.log)
    (inside : length s.log ≤ length log) (prefix : s.log ≡ take (length s.log) log) where
  -- A log without an entry of the term does not begin with the leader's.
  old_shorter : (r : RaftLog) → IsOld term base log r → take (length s.log) r.log ≡ s.log → ⊥
  old_shorter r o e =
      let (x, g) = get_elem?-some s.log base beyond in
      let here : get_elem? r.log base ≡ some x =
        sym (get_elem?-take_below (length s.log) r.log base beyond)
        ∙ ap (λ ys. get_elem? ys base) e
        ∙ g in
      let there : get_elem? log base ≡ some x =
        sym (get_elem?-prefix s.log log base prefix beyond) ∙ g in
      omega (arith, o.earlier base x here, fresh base x (omega arith) there)

  leader-IsNew : (r : RaftLog) → r.log ≡ s.log → IsNew term base log r
  leader-IsNew r e = record { beyond = rw e beyond; inside = rw e inside; prefix = rw e prefix }

  shape-Matching :
      (r : RaftLog) → IsOld term base log r ⊎ IsNew term base log r → Matching r.log s.log
  shape-Matching r (inl o) =
      subst (Matching r.log) (sym prefix) (Matching-take_right (length s.log) r.log log o.matches)
  shape-Matching r (inr n) = subst (Matching r.log) (sym prefix) (
      subst (λ xs. Matching xs (take (length s.log) log)) (sym n.prefix)
        (take-Matching (length r.log) (length s.log) log))

  -- What rule 3 makes of the log.
  abbrev Newer : RaftLog → List LogEntry → Type 0
  Newer r log' =
      (merge r.log (suc_ℤ (last_of k)) (drop k s.log) ≡ some log')
      × IsNew term base log (record r { log = log' })
      × (IsNew term base log r → length r.log ≤ length log')

  whole : take k s.log ++ drop k s.log ≡ s.log
  whole = take-append-drop k s.log

  len : length (take k s.log) ≡ k
  len = length-take k s.log ∙ omega arith

  merge_kept :
      (r : RaftLog)
      → IsNew term base log r
      → length s.log ≤ length r.log
      → merge r.log (pos k) (drop k s.log) ≡ some r.log
  merge_kept r n l = merge_unchanged r.log k (drop k s.log) (λ i x g.
      let there = sym (get_elem?-drop k s.log i) ∙ g in
      let l' = get_elem?-length s.log (k + i) x there in
      get_elem?-prefix r.log log (k + i) n.prefix (omega (arith, l, l'))
      ∙ sym (get_elem?-prefix s.log log (k + i) prefix l')
      ∙ there)

  merge-some :
      (r : RaftLog)
      → IsOld term base log r ⊎ IsNew term base log r
      → check_previous r.log (request_at s k) ≡ fits
      → (log' : List LogEntry) × (merge r.log (suc_ℤ (last_of k)) (drop k s.log) ≡ some log')
        × (take (length s.log) log' ≡ s.log)
        × ((log' ≡ r.log) ⊎ (log' ≡ s.log))
        × (length s.log ≤ length log')
  merge-some r shape c =
      let (l', t) = fits_prefix r s k (shape-Matching r shape) below c in
      let (log', e, tk, or, n) =
        merge-Merged r.log (take k s.log) (drop k s.log)
          (subst (Matching r.log) (sym whole) (shape-Matching r shape)) (rw len l') (rw len t) in
      (
        log',
        ap (λ (i : ℤ). merge r.log i (drop k s.log)) (suc-last_of k ∙ ap pos (sym len)) ∙ e,
        subst (λ xs. take (length xs) log' ≡ xs) whole tk,
        subst (λ xs. (log' ≡ r.log) ⊎ (log' ≡ xs)) whole or,
        subst (λ xs. length xs ≤ length log') whole n,
      )

  to_leader :
      (r : RaftLog) (log' : List LogEntry)
      → merge r.log (suc_ℤ (last_of k)) (drop k s.log) ≡ some log'
      → log' ≡ s.log
      → (IsNew term base log r → length r.log ≤ length s.log)
      → Newer r log'
  to_leader r log' e same grows =
      (e, leader-IsNew (record r { log = log' }) same, λ n. rw same (grows n))

  merge-Newer :
      (r : RaftLog)
      → IsOld term base log r ⊎ IsNew term base log r
      → check_previous r.log (request_at s k) ≡ fits
      → (log' : List LogEntry) × Newer r log'
  merge-Newer r (inl o) c =
      let (log', e, tk, or, _) = merge-some r (inl o) c in
      elim or [
        | inl same ↦ absurd (old_shorter r o (subst (λ xs. take (length s.log) xs ≡ s.log) same tk))
        | inr same ↦ (
          log',
          to_leader r log' e same (λ n. absurd (old_or_new term base log long fresh r o n)),
        )
      ]
  merge-Newer r (inr n) c = elim (dec_le (length s.log) (length r.log)) [
    | yes l ↦ (
      r.log,
      (
        ap (λ (i : ℤ). merge r.log i (drop k s.log)) (suc-last_of k) ∙ merge_kept r n l,
        record { beyond = n.beyond; inside = n.inside; prefix = n.prefix },
        λ _. omega arith,
      ),
    )
    | no g ↦
        let (log', e, tk, or, l) = merge-some r (inr n) c in
        elim or [
          | inl same ↦ absurd (omega (arith, g, l, ap length same))
          | inr same ↦ (log', to_leader r log' e same (λ _. omega (arith, g)))
        ]
  ]

  -- The committed entries are not more than the new log has.
  still_room :
      (r r' : RaftLog) (m : ℕ)
      → IsOld term base log r ⊎ IsNew term base log r
      → IsNew term base log r'
      → (IsNew term base log r → length r.log ≤ length r'.log)
      → m ≤ length r.log
      → take m r.log ≡ take m log
      → m ≤ length r'.log
  still_room r r' m (inl o) n grows l e =
      omega (arith, old_commit term base log long fresh r o m l e, n.beyond)
  still_room r r' m (inr n) n' grows l e = omega (arith, grows n, l)

  pub accept-Heard :
      (f : ℕ) (r : RaftLog) (clock : ℕ → ℕ)
      → Follows term base log f r
      → s.current_term ≡ term
      → check_previous r.log (request_at s k) ≡ fits
      → (r' : RaftLog) × (resp : AppendEntriesResponse) × (accept
            (record r { current_term = s.current_term })
            (request_at s k)
            clock
          ≡ some (r', resp))
        × Heard term base log f r r' resp
  accept-Heard f r clock h t c =
      let (log', (e, n, grows)) = merge-Newer r h.shape c in
      let r1 : RaftLog = record r { current_term = s.current_term } in
      let (r', e', kept) =
        follow_commit_keeps (record r1 { log = log' }) s.commit_index clock h.low in
      let n' : IsNew term base log r' = record {
        beyond = rw kept.same_log n.beyond;
        inside = rw kept.same_log n.inside;
        prefix = rw kept.same_log n.prefix;
      } in
      (
        r',
        respond r' true (pred_ℤ (pos (length r'.log))),
        accept_lem r1 s k clock log' r' e e',
        record {
          follows = record {
            same_id = kept.same_node ∙ h.same_id;
            in_term = omega (arith, kept.same_term, t);
            low = kept.still_low;
            shape = inr n';
          };
          keeps = λ m. (n', rw kept.same_log (grows m));
          agrees = λ (k', at, l, same). elim (kept.commits k' at) [
            | inl e0 ↦
                let room = still_room r r' k' h.shape n' (λ m. rw kept.same_log (grows m)) l same in
                (k', e0, room, new_take term base log r' k' n' room)
            | inr (m, e0, l') ↦
                let room : m ≤ length r'.log = rw kept.same_log l' in
                (m, e0, room, new_take term base log r' m n' room)
          ];
          to = kept.same_node ∙ h.same_id;
          in_term = omega (arith, kept.same_term, t);
          report = inr (inr (length r'.log, refl, omega arith, n'));
        },
      )

-- ===== src/RaftLog/Applied.antt =====
-- What `applyCommitted` of internal/consensus/consensus.go leaves as it is.
use ensemble_chat.Common.{
  ℕ, zero, suc, ◌≡◌, inl, inr, refl, sym, ◌∙◌, subst, suc_ℤ, pos_part, ltb_ℤ, some, some_inj, none,
  true, false, Option-cases, Bool-cases,
}
use ensemble_chat.Types.{LogEntry}
use ensemble_chat.RaftLog.{RaftLog, get_entry, apply_entry, distance, apply_loop, apply_committed}

-- `applyCommitted` changes what is applied, and nothing else of the node.
abbrev pub Applied : RaftLog → RaftLog → Type 0
Applied r r' =
    (r'.log ≡ r.log)
    × (r'.peers ≡ r.peers)
    × (r'.current_term ≡ r.current_term)
    × (r'.next_index ≡ r.next_index)
    × (r'.match_index ≡ r.match_index)
    × (r'.commit_index ≡ r.commit_index)
    × (r'.node_id ≡ r.node_id)

abbrev one_applied : RaftLog → LogEntry → (clock : ℕ → ℕ) → RaftLog
one_applied r entry clock = record r {
  last_applied = suc_ℤ r.last_applied;
  routing_table = apply_entry r.routing_table entry (clock (pos_part (suc_ℤ r.last_applied)));
}

module _ (fuel : ℕ) (r : RaftLog) (clock : ℕ → ℕ) where
  loop_stops : ltb_ℤ r.last_applied r.commit_index ≡ false → apply_loop (suc fuel) r clock ≡ some r
  unfolding apply_loop
  loop_stops b = rw b refl

  loop_panics :
      ltb_ℤ r.last_applied r.commit_index ≡ true
      → get_entry r.log (suc_ℤ r.last_applied) ≡ none
      → apply_loop (suc fuel) r clock ≡ none
  unfolding apply_loop
  loop_panics b e = rw b (rw e refl)

  loop_applies :
      (entry : LogEntry)
      → ltb_ℤ r.last_applied r.commit_index ≡ true
      → get_entry r.log (suc_ℤ r.last_applied) ≡ some entry
      → apply_loop (suc fuel) r clock ≡ apply_loop fuel (one_applied r entry clock) clock
  unfolding apply_loop
  loop_applies entry b e = rw b (rw e refl)

loop-Applied :
    (fuel : ℕ) (r : RaftLog) (clock : ℕ → ℕ) (r' : RaftLog)
    → apply_loop fuel r clock ≡ some r'
    → Applied r r'
unfolding apply_loop
loop-Applied zero r clock r' e =
    subst (Applied r) (some_inj e) (refl, refl, refl, refl, refl, refl, refl)
loop-Applied (suc fuel) r clock r' e = elim (Bool-cases (ltb_ℤ r.last_applied r.commit_index)) [
  | inr b ↦
      subst (Applied r) (some_inj (sym (loop_stops fuel r clock b) ∙ e))
        (refl, refl, refl, refl, refl, refl, refl)
  | inl b ↦ elim (Option-cases (get_entry r.log (suc_ℤ r.last_applied))) [
    | inl missing ↦ absurd (never (sym (loop_panics fuel r clock b missing) ∙ e))
    | inr (entry, g) ↦
        loop-Applied fuel (one_applied r entry clock) clock r'
          (sym (loop_applies fuel r clock entry b g) ∙ e)
  ]
]
  where
    never : none ≡ some r' → ⊥
    never h = absurd (cc)

pub apply-Applied :
    (r : RaftLog) (clock : ℕ → ℕ) (r' : RaftLog) → apply_committed r clock ≡ some r' → Applied r r'
unfolding apply_committed
apply-Applied r clock r' e = loop-Applied (distance r.last_applied r.commit_index) r clock r' e

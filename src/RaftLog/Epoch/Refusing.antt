-- ===== src/RaftLog/Epoch/Refusing.antt =====
-- A node that refuses a request of the leader (rule 2 of `HandleAppendEntries`,
-- internal/consensus/consensus.go).
use ensemble_chat.Common.{
  ℕ, suc, ◌≤◌, ◌<◌, ◌≡◌, ◌≢◌, ◌⊎◌, inl, inr, sym, ap, ◌∙◌, some, List, length, get_elem?, take,
  arith, length-take, take-length-le, take-take_of_le, dec_le, dec_lt,
}
use ensemble_chat.Types.{LogEntry, AppendEntriesResponse}
use ensemble_chat.RaftLog.{RaftLog, fits, check_previous, handle_append_entries}
use ensemble_chat.RaftLog.Replication.{request_at}
use ensemble_chat.RaftLog.Exchange.{Refused-request, Matching-cut}
use ensemble_chat.RaftLog.Epoch.Prefixes.{get_elem?-take_below, get_elem?-length}
use ensemble_chat.RaftLog.Epoch.Invariant.{IsOld, IsNew, Follows}
use ensemble_chat.RaftLog.Epoch.Heard.{get_elem?-prefix, prefix_fits, Heard, old_or_new}

module _ (term base : ℕ) (log : List LogEntry) (long : base ≤ length log)
    (fresh : (i : ℕ) (x : LogEntry) → base ≤ i → get_elem? log i ≡ some x → x.term ≡ term) where
  -- A refusal cuts a log without an entry of the term at most.
  cut_shape :
      (r : RaftLog) (s : RaftLog) (j : ℕ) (xs : List LogEntry)
      → j < length s.log
      → length s.log ≤ length log
      → s.log ≡ take (length s.log) log
      → check_previous r.log (request_at s (suc j)) ≢ fits
      → (xs ≡ r.log) ⊎ (xs ≡ take j r.log)
      → IsOld term base log r ⊎ IsNew term base log r
      → ((IsOld term base log r × IsOld term base log (record r { log = xs })) ⊎ (xs ≡ r.log))
  cut_shape r s j xs l inside prefix c (inl e) shape = inr e
  cut_shape r s j xs l inside prefix c (inr e) (inl o) = inl (
    o,
    record {
      earlier = λ i x g.
          let g' = ap (λ ys. get_elem? ys i) (sym e) ∙ g in
          let l' = get_elem?-length (take j r.log) i x g' in
          o.earlier i x
            (sym (get_elem?-take_below j r.log i (omega (arith, l', length-take j r.log))) ∙ g');
      matches = Matching-cut j r.log xs log (inr e) o.matches;
    },
  )
  cut_shape r s j xs l inside prefix c (inr e) (inr n) = elim (dec_lt j (length r.log)) [
    | yes l' ↦ absurd (
        c (
          prefix_fits r s j l' (
            get_elem?-prefix r.log log j n.prefix l'
            ∙ sym (get_elem?-prefix s.log log j prefix l))))
    | no g ↦ inr (e ∙ take-length-le j r.log (omega (arith, g)))
  ]

  -- A refusal cuts no entry that agrees with the leader's.
  cut_agrees :
      (r : RaftLog) (s : RaftLog) (j : ℕ) (xs : List LogEntry)
      → j < length s.log
      → s.log ≡ take (length s.log) log
      → check_previous r.log (request_at s (suc j)) ≢ fits
      → (xs ≡ r.log) ⊎ (xs ≡ take j r.log)
      → (k : ℕ) → k ≤ length r.log
      → take k r.log ≡ take k log
      → (k ≤ length xs) × (take k xs ≡ take k log)
  cut_agrees r s j xs l prefix c (inl e) k m same =
      (omega (arith, m, ap length e), ap (take k) e ∙ same)
  cut_agrees r s j xs l prefix c (inr e) k m same = elim (dec_le k j) [
    | yes h ↦ (
      omega (arith, m, h, ap length e, length-take j r.log),
      ap (take k) e ∙ take-take_of_le k j r.log h ∙ same,
    )
    | no h ↦
        let b : j < k = omega (arith, h) in
        absurd (
          c (
            prefix_fits r s j (omega (arith, m, b)) (
              sym (get_elem?-take_below k r.log j b)
              ∙ ap (λ ys. get_elem? ys j) same
              ∙ get_elem?-take_below k log j b
              ∙ sym (get_elem?-prefix s.log log j prefix l))))
  ]

  pub refused-Heard :
      (s : RaftLog) (j : ℕ) (f : ℕ) (r : RaftLog) (clock : ℕ → ℕ)
      → j < length s.log
      → length s.log ≤ length log
      → s.log ≡ take (length s.log) log
      → s.current_term ≡ term
      → Follows term base log f r
      → check_previous r.log (request_at s (suc j)) ≢ fits
      → (r' : RaftLog) × (resp : AppendEntriesResponse) × (handle_append_entries r
            (request_at s (suc j))
            clock
          ≡ some (r', resp))
        × Heard term base log f r r' resp
  refused-Heard s j f r clock l inside prefix t h c =
      let (r', resp, e, ref) = Refused-request r s j clock (omega (arith, h.in_term, t)) c in
      let out = cut_shape r s j r'.log l inside prefix c ref.cut h.shape in
      (
        r',
        resp,
        e,
        record {
          follows = record {
            same_id = ref.same_id ∙ h.same_id;
            in_term = omega (arith, ref.new_term, t);
            low = rw ref.same_applied h.low;
            shape = elim out [
              | inl (_, o) ↦ inl (record { earlier = o.earlier; matches = o.matches })
              | inr same ↦ elim h.shape [
                | inl o ↦ inl (record { earlier = rw same o.earlier; matches = rw same o.matches })
                | inr n ↦ inr (same_new r r' same n)
              ]
            ];
          };
          keeps = λ n. elim out [
            | inl (o, _) ↦ absurd (old_or_new term base log long fresh r o n)
            | inr same ↦ (same_new r r' same n, omega (arith, ap length same))
          ];
          agrees = λ (k, at, m, same).
              let (m', same') = cut_agrees r s j r'.log l prefix c ref.cut k m same in
              (k, ref.same_commit ∙ at, m', same');
          to = ref.to ∙ h.same_id;
          in_term = omega (arith, ref.in_term, t);
          report = inl ref.refused;
        },
      )
    where
      same_new : (r r' : RaftLog) → r'.log ≡ r.log → IsNew term base log r → IsNew term base log r'
      same_new r r' same n = record {
        beyond = rw same n.beyond;
        inside = rw same n.inside;
        prefix = rw same n.prefix;
      }

-- ===== src/RaftLog/Epoch/Following.antt =====
-- A node that hears the leader of its term (`HandleAppendEntries` of internal/consensus/consensus.go).
use ensemble_chat.Common.{
  ℕ, zero, suc, ◌≤◌, ◌<◌, ◌≡◌, ◌≢◌, ◌⊎◌, inl, inr, refl, sym, ap, ◌∙◌, subst, some, some_inj, List,
  length, get_elem?, take, arith,
}
use ensemble_chat.Types.{LogEntry, AppendEntriesRequest, AppendEntriesResponse}
use ensemble_chat.RaftLog.{RaftLog, fits, check_previous, handle_append_entries}
use ensemble_chat.RaftLog.Replication.{request_at}
use ensemble_chat.RaftLog.Exchange.{Check-cases, accepted_request}
use ensemble_chat.RaftLog.CatchUp.{first_fits}
use ensemble_chat.RaftLog.Epoch.Invariant.{Follows, Honest}
use ensemble_chat.RaftLog.Epoch.Heard.{Heard}
use ensemble_chat.RaftLog.Epoch.Accepting.{accept-Heard}
use ensemble_chat.RaftLog.Epoch.Refusing.{refused-Heard}

module _ (term base : ℕ) (log : List LogEntry) (long : base ≤ length log)
    (fresh : (i : ℕ) (x : LogEntry) → base ≤ i → get_elem? log i ≡ some x → x.term ≡ term) where
  answer :
      (s : RaftLog) (k : ℕ) (f : ℕ) (r : RaftLog) (clock : ℕ → ℕ)
      → k ≤ length s.log
      → base < length s.log
      → length s.log ≤ length log
      → s.log ≡ take (length s.log) log
      → s.current_term ≡ term
      → Follows term base log f r
      → (r' : RaftLog) × (resp : AppendEntriesResponse) × (handle_append_entries r
            (request_at s k)
            clock
          ≡ some (r', resp))
        × Heard term base log f r r' resp
  answer s k f r clock below beyond inside prefix t h =
      let l : r.current_term ≤ s.current_term = omega (arith, h.in_term, t) in
      elim (fits_or_later s k r) [
        | inl c ↦
            let (r', resp, e, heard) =
              accept-Heard term base log long fresh s k below beyond inside prefix f r clock h t
                c in
            (r', resp, accepted_request r s k clock l c ∙ e, heard)
        | inr (j, e, c) ↦
            subst
              (λ i.
                (r' : RaftLog) × (resp : AppendEntriesResponse) × (handle_append_entries r
                    (request_at s i) clock
                  ≡ some (r', resp))
                × Heard term base log f r r' resp)
              (sym e)
              (refused-Heard term base log long fresh s j f r clock (omega (arith, e)) inside prefix
                t h c)
      ]
    where
      fits_or_later :
          (s : RaftLog) (k : ℕ) (r : RaftLog)
          → (check_previous r.log (request_at s k) ≡ fits)
            ⊎ ((j : ℕ) × (k ≡ suc j) × (check_previous r.log (request_at s (suc j)) ≢ fits))
      fits_or_later s zero r = inl (first_fits r s)
      fits_or_later s (suc j) r = elim (Check-cases (check_previous r.log (request_at s (suc j)))) [
        | inl c ↦ inl c
        | inr (inl c) ↦ inr (j, refl, λ d. cc (c, d))
        | inr (inr c) ↦ inr (j, refl, λ d. cc (c, d))
      ]

  -- Whatever a node answers to a request of the leader.
  pub handle-Heard :
      (f : ℕ) (r : RaftLog) (req : AppendEntriesRequest) (clock : ℕ → ℕ) (r' : RaftLog)
      (resp : AppendEntriesResponse)
      → Follows term base log f r
      → Honest term base log req
      → handle_append_entries r req clock ≡ some (r', resp)
      → Heard term base log f r r' resp
  handle-Heard f r req clock r' resp h honest e =
      let (r1, resp1, e1, heard) =
        answer honest.leader honest.next f r clock honest.below honest.beyond honest.inside
          honest.prefix honest.now h in
      subst (λ (p : RaftLog × AppendEntriesResponse). Heard term base log f r p.0 p.1)
        (some_inj (sym e1 ∙ ap (λ q. handle_append_entries r q clock) (sym honest.made) ∙ e)) heard

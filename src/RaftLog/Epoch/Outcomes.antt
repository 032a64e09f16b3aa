-- ===== src/RaftLog/Epoch/Outcomes.antt =====
-- What `handleAppendEntriesResponse` of internal/consensus/consensus.go makes of a response in the
-- leader's term.
use ensemble_chat.Common.{ℕ, zero, suc, ◌≡◌, refl, pos, suc_ℤ, some, none, true, false, arith, ltb}
use ensemble_chat.Common.Family.{update}
use ensemble_chat.Types.{AppendEntriesResponse}
use ensemble_chat.RaftLog.{RaftLog, handle_append_entries_response, try_advance_commit_index}
use ensemble_chat.RaftLog.Replication.{request_at, send_request}
use ensemble_chat.RaftLog.Exchange.{back, back_next}

-- The leader with what a successful response reports.
abbrev pub noted : RaftLog → AppendEntriesResponse → RaftLog
noted ℓ resp = record ℓ {
  match_index = update ℓ.match_index resp.follower_id resp.match_index;
  next_index = update ℓ.next_index resp.follower_id (suc_ℤ resp.match_index);
}

pub success_noted :
    (ℓ : RaftLog) (resp : AppendEntriesResponse)
    → ltb ℓ.current_term resp.term ≡ false
    → resp.success ≡ true
    → handle_append_entries_response ℓ resp ≡ some (try_advance_commit_index (noted ℓ resp), none)
unfolding handle_append_entries_response
success_noted ℓ resp t s = simp (t, s, handle_append_entries_response)

-- The next index to try after a refusal.
abbrev pub lower : ℕ → ℕ
lower zero = zero
lower (suc k) = k

pub refusal_lowers :
    (ℓ : RaftLog) (resp : AppendEntriesResponse) (k : ℕ)
    → ltb ℓ.current_term resp.term ≡ false
    → resp.success ≡ false
    → ℓ.next_index resp.follower_id ≡ pos k
    → (ℓ' : RaftLog) × (handle_append_entries_response ℓ resp
        ≡ some (ℓ', some (request_at ℓ (lower k))))
      × ((g : ℕ) → ℓ'.next_index g ≡ update ℓ.next_index resp.follower_id (pos (lower k)) g)
      × (ℓ' ≡ record ℓ { next_index = ℓ'.next_index })
unfolding handle_append_entries_response
refusal_lowers ℓ resp zero t s e =
    (ℓ, ground (arith, e, t, s, send_request ℓ resp.follower_id 0 e), λ g. ground (arith, e), refl)
refusal_lowers ℓ resp (suc k) t s e = (
  back ℓ resp.follower_id k,
  ground (
    arith,
    e,
    t,
    s,
    send_request (back ℓ resp.follower_id k) resp.follower_id k (back_next ℓ resp.follower_id k),
  ),
  λ g. refl,
  refl,
)

-- ===== src/RaftLog/Epoch/Sending.antt =====
-- The requests that the leader sends (`sendAppendEntriesTo` of internal/consensus/consensus.go).
use ensemble_chat.Common.{ℕ, ◌<◌, ◌≡◌, sym, ◌∙◌, some, some_inj, length, arith, take-length-le}
use ensemble_chat.Types.{AppendEntriesRequest}
use ensemble_chat.RaftLog.{RaftLog, send_append_entries_to}
use ensemble_chat.RaftLog.Replication.{send_request}
use ensemble_chat.RaftLog.Epoch.Invariant.{Honest, InRange}

module _ (term base : ℕ) (ℓ : RaftLog) (begun : base < length ℓ.log)
    (now : ℓ.current_term ≡ term) where
  pub sent-Honest :
      (f : ℕ) (req : AppendEntriesRequest)
      → InRange ℓ.log (ℓ.next_index f)
      → send_append_entries_to ℓ f ≡ some req
      → Honest term base ℓ.log req
  sent-Honest f req (k, e, l) s = record {
    leader = ℓ;
    next = k;
    made = some_inj (sym s ∙ send_request ℓ f k e);
    now = now;
    below = l;
    beyond = begun;
    inside = omega arith;
    prefix = sym (take-length-le (length ℓ.log) ℓ.log (omega arith));
  }

-- ===== src/RaftLog/CatchUp.antt =====
-- The exchanges of a leader and a follower (internal/consensus/consensus.go) until one succeeds.
use ensemble_chat.Common.{
  ℕ, zero, suc, ◌≤◌, ◌≡◌, ◌≢◌, ◌⊎◌, inl, inr, refl, ◌∙◌, pos, minus_one, ◌≤ℤ◌, true, false, Option,
  none, some, length, take, arith,
}
use ensemble_chat.RaftLog.{RaftLog, Check, fits, too_short, mismatch, check_previous}
use ensemble_chat.RaftLog.Merge.{Matching}
use ensemble_chat.RaftLog.Replication.{request_at}
use ensemble_chat.RaftLog.Exchange.{
  Check-cases, exchange, exchange_fits, exchange-Refused, Matching-cut, back, back_next,
}

-- Exchanges until one succeeds. `none`: the fuel ran out, or a panic.
unfoldable pub catch_up :
    (fuel : ℕ) (ℓ : RaftLog) (f : ℕ) (r : RaftLog) (clock : ℕ → ℕ) → Option (RaftLog × RaftLog)
unfolding exchange
catch_up zero ℓ f r clock = none
catch_up (suc fuel) ℓ f r clock = elim (exchange ℓ f r clock) [
  | none ↦ none
  | some (ℓ', r', done) ↦ elim done [ true ↦ some (ℓ', r') | false ↦ catch_up fuel ℓ' f r' clock ]
]

pub first_fits : (r ℓ : RaftLog) → check_previous r.log (request_at ℓ 0) ≡ fits
unfolding check_previous
first_fits r ℓ = refl

catch_up_done :
    (n : ℕ) (ℓ : RaftLog) (f : ℕ) (r : RaftLog) (clock : ℕ → ℕ) (ℓ' r' : RaftLog)
    → exchange ℓ f r clock ≡ some (ℓ', r', true)
    → catch_up (suc n) ℓ f r clock ≡ some (ℓ', r')
unfolding catch_up
catch_up_done n ℓ f r clock ℓ' r' x = rw (x, catch_up) refl

catch_up_more :
    (n : ℕ) (ℓ : RaftLog) (f : ℕ) (r : RaftLog) (clock : ℕ → ℕ) (ℓ' r' : RaftLog)
    → exchange ℓ f r clock ≡ some (ℓ', r', false)
    → catch_up (suc n) ℓ f r clock ≡ catch_up n ℓ' f r' clock
unfolding catch_up
catch_up_more n ℓ f r clock ℓ' r' x = rw (x, catch_up) refl

-- A leader whose next index for a follower is k, not beyond its own log, and a follower with that
-- id, in no later term, whose last applied index is at least -1 and whose log matches the leader's
-- (two entries of one term at one index have the same entries up to them): at most k + 1 exchanges of
-- AppendEntries and its response, none of which panics, end with one that succeeds, and then the
-- leader's whole log is the beginning of the follower's.
pub catch_up_replicates :
    (k : ℕ) (ℓ : RaftLog) (f : ℕ) (r : RaftLog) (clock : ℕ → ℕ)
    → ℓ.next_index f ≡ pos k
    → k ≤ length ℓ.log
    → r.node_id ≡ f
    → r.current_term ≤ ℓ.current_term
    → minus_one ≤ℤ r.last_applied
    → Matching r.log ℓ.log
    → (ℓ' : RaftLog) × (r' : RaftLog) × (catch_up (suc k) ℓ f r clock ≡ some (ℓ', r'))
      × (take (length ℓ.log) r'.log ≡ ℓ.log)
catch_up_replicates zero ℓ f r clock e l id t low m =
    let (ℓ', r', x, tk) = exchange_fits ℓ f r zero clock e l t low m (first_fits r ℓ) in
    (ℓ', r', catch_up_done 0 ℓ f r clock ℓ' r' x, tk)
catch_up_replicates (suc j) ℓ f r clock e l id t low m =
    elim (Check-cases (check_previous r.log (request_at ℓ (suc j)))) [
      | inl c ↦
          let (ℓ', r', x, tk) = exchange_fits ℓ f r (suc j) clock e l t low m c in
          (ℓ', r', catch_up_done (suc j) ℓ f r clock ℓ' r' x, tk)
      | inr c ↦
          let (r', resp, x, ref) = exchange-Refused ℓ f r j clock e id t (not_fits c) in
          let (ℓ', r'', y, tk) =
            catch_up_replicates j (back ℓ f j) f r' clock (back_next ℓ f j) (omega arith)
              (ref.same_id ∙ id) (omega (arith, ref.new_term)) (rw ref.same_applied low)
              (Matching-cut j r.log r'.log ℓ.log ref.cut m) in
          (ℓ', r'', catch_up_more (suc j) ℓ f r clock (back ℓ f j) r' x ∙ y, tk)
    ]
  where
    not_fits : {c : Check} → (c ≡ too_short) ⊎ (c ≡ mismatch) → c ≢ fits
    not_fits (inl c) h = cc
    not_fits (inr c) h = cc

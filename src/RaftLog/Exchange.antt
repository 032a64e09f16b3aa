-- ===== src/RaftLog/Exchange.antt =====
-- One exchange of a leader and a follower (internal/consensus/consensus.go): the request, the answer,
-- and what the leader makes of it.
use ensemble_chat.Common.{
  ℕ, zero, suc, ◌≤◌, ◌<◌, ◌≡◌, ◌≢◌, ◌⊎◌, inl, inr, refl, sym, ap, ◌∙◌, subst, pos, minus_one,
  pred_ℤ, suc_ℤ, ◌≤ℤ◌, Bool, true, false, Option, none, some, List, [], ◌∷◌, length, get_elem?,
  take, arith, ltb, take-take_of_le,
}
use ensemble_chat.Common.Family.{update}
use ensemble_chat.Types.{LogEntry, AppendEntriesRequest, AppendEntriesResponse}
use ensemble_chat.RaftLog.{
  RaftLog, send_append_entries_to, respond, accept, Check, fits, too_short, mismatch,
  check_previous, handle_append_entries, handle_append_entries_response, try_advance_commit_index,
}
use ensemble_chat.RaftLog.Merge.{Matching}
use ensemble_chat.RaftLog.Replication.{request_at, send_request, fits_prefix, accept_replicates}

-- The leader's request, the follower's answer and what the leader makes of it, with the answer.
unfoldable pub exchange :
    (ℓ : RaftLog) (f : ℕ) (r : RaftLog) (clock : ℕ → ℕ) → Option (RaftLog × RaftLog × Bool)
exchange ℓ f r clock = elim (send_append_entries_to ℓ f) [
  | none ↦ none
  | some req ↦ elim (handle_append_entries r req clock) [
    | none ↦ none
    | some (r', resp) ↦ elim (handle_append_entries_response ℓ resp) [
      | none ↦ none
      | some (ℓ', again) ↦ some (ℓ', r', resp.success)
    ]
  ]
]

get_elem?-take {ℓ} :
    {A : Type ℓ} (j : ℕ) (xs : List A) (i : ℕ) (x : A)
    → get_elem? (take j xs) i ≡ some x
    → (i < j) × (get_elem? xs i ≡ some x)
get_elem?-take zero xs i x h = cc
get_elem?-take (suc j) [] i x h = cc
get_elem?-take (suc j) (y ∷ xs) zero x h = (omega arith, h)
get_elem?-take (suc j) (y ∷ xs) (suc i) x h =
    let (l, g) = get_elem?-take j xs i x h in (omega arith, g)

Matching-take : (j : ℕ) (xs ys : List LogEntry) → Matching xs ys → Matching (take j xs) ys
Matching-take j xs ys m i x y g g' e =
    let (l, h) = get_elem?-take j xs i x g in take-take_of_le (suc i) j xs l ∙ m i x y h g' e

-- The leader steps back.
abbrev pub back : RaftLog → (f j : ℕ) → RaftLog
back ℓ f j = record ℓ { next_index = update ℓ.next_index f (pos j) }

pub back_next : (ℓ : RaftLog) (f j : ℕ) → (back ℓ f j).next_index f ≡ pos j
back_next ℓ f j = ground arith

refused_response :
    (ℓ : RaftLog) (f j : ℕ) (resp : AppendEntriesResponse)
    → ℓ.next_index f ≡ pos (suc j)
    → resp.follower_id ≡ f
    → resp.term ≡ ℓ.current_term
    → resp.success ≡ false
    → handle_append_entries_response ℓ resp ≡ some (back ℓ f j, some (request_at ℓ j))
unfolding handle_append_entries_response
refused_response ℓ f j resp e e' t s =
    ground (arith, e, e', t, s, send_request (back ℓ f j) f j (back_next ℓ f j))

accepted_response :
    (ℓ : RaftLog) (resp : AppendEntriesResponse)
    → resp.term ≡ ℓ.current_term
    → resp.success ≡ true
    → (ℓ' : RaftLog) × (handle_append_entries_response ℓ resp ≡ some (ℓ', none))
unfolding handle_append_entries_response
accepted_response ℓ resp t s = (
  try_advance_commit_index (record ℓ {
    match_index = update ℓ.match_index resp.follower_id resp.match_index;
    next_index = update ℓ.next_index resp.follower_id (suc_ℤ resp.match_index);
  }),
  ground (arith, t, s),
)

pub Check-cases : (c : Check) → (c ≡ fits) ⊎ (c ≡ too_short) ⊎ (c ≡ mismatch)
Check-cases fits = inl refl
Check-cases too_short = inr (inl refl)
Check-cases mismatch = inr (inr refl)

-- What a refusal leaves of a follower whose log is cut at `j`, or is not cut.
pub record Refused (r ℓ : RaftLog) (j : ℕ) (r' : RaftLog) (resp : AppendEntriesResponse)
    : Type 0 where
  pub to : resp.follower_id ≡ r.node_id
  pub in_term : resp.term ≡ ℓ.current_term
  pub refused : resp.success ≡ false
  pub same_id : r'.node_id ≡ r.node_id
  pub new_term : r'.current_term ≡ ℓ.current_term
  pub same_applied : r'.last_applied ≡ r.last_applied
  pub same_commit : r'.commit_index ≡ r.commit_index
  pub cut : (r'.log ≡ r.log) ⊎ (r'.log ≡ take j r.log)

pub Refused-request :
    (r ℓ : RaftLog) (j : ℕ) (clock : ℕ → ℕ)
    → r.current_term ≤ ℓ.current_term
    → check_previous r.log (request_at ℓ (suc j)) ≢ fits
    → (r' : RaftLog) × (resp : AppendEntriesResponse) × (handle_append_entries r
          (request_at ℓ (suc j))
          clock
        ≡ some (r', resp))
      × Refused r ℓ j r' resp
unfolding handle_append_entries
Refused-request r ℓ j clock l h =
    let open_it : ltb ℓ.current_term r.current_term ≡ false = ground arith in
    elim (Check-cases (check_previous r.log (request_at ℓ (suc j)))) [
      | inl e ↦ absurd (h e)
      | inr (inl e) ↦ (
        record r { current_term = ℓ.current_term },
        respond (record r { current_term = ℓ.current_term }) false (pred_ℤ (pos (length r.log))),
        rw (open_it, e) refl,
        record {
          to = refl;
          in_term = refl;
          refused = refl;
          same_id = refl;
          new_term = refl;
          same_applied = refl;
          same_commit = refl;
          cut = inl refl;
        },
      )
      | inr (inr e) ↦ (
        record r { current_term = ℓ.current_term; log = take j r.log },
        respond (record r { current_term = ℓ.current_term }) false
            (pred_ℤ (pos (length (take j r.log)))),
        rw (open_it, e) refl,
        record {
          to = refl;
          in_term = refl;
          refused = refl;
          same_id = refl;
          new_term = refl;
          same_applied = refl;
          same_commit = refl;
          cut = inr refl;
        },
      )
    ]

pub accepted_request :
    (r ℓ : RaftLog) (k : ℕ) (clock : ℕ → ℕ)
    → r.current_term ≤ ℓ.current_term
    → check_previous r.log (request_at ℓ k) ≡ fits
    → handle_append_entries r (request_at ℓ k) clock
      ≡ accept (record r { current_term = ℓ.current_term }) (request_at ℓ k) clock
unfolding handle_append_entries
accepted_request r ℓ k clock l h =
    let open_it : ltb ℓ.current_term r.current_term ≡ false = ground arith in rw (open_it, h) refl

exchange_lem :
    (ℓ : RaftLog) (f : ℕ) (r : RaftLog) (clock : ℕ → ℕ) (req : AppendEntriesRequest) (r' : RaftLog)
    (resp : AppendEntriesResponse) (ℓ' : RaftLog) (again : Option AppendEntriesRequest)
    → send_append_entries_to ℓ f ≡ some req
    → handle_append_entries r req clock ≡ some (r', resp)
    → handle_append_entries_response ℓ resp ≡ some (ℓ', again)
    → exchange ℓ f r clock ≡ some (ℓ', r', resp.success)
unfolding exchange
exchange_lem ℓ f r clock req r' resp ℓ' again s a h = rw (s, exchange) (rw a (rw h refl))

pub exchange_fits :
    (ℓ : RaftLog) (f : ℕ) (r : RaftLog) (k : ℕ) (clock : ℕ → ℕ)
    → ℓ.next_index f ≡ pos k
    → k ≤ length ℓ.log
    → r.current_term ≤ ℓ.current_term
    → minus_one ≤ℤ r.last_applied
    → Matching r.log ℓ.log
    → check_previous r.log (request_at ℓ k) ≡ fits
    → (ℓ' : RaftLog) × (r' : RaftLog) × (exchange ℓ f r clock ≡ some (ℓ', r', true))
      × (take (length ℓ.log) r'.log ≡ ℓ.log)
exchange_fits ℓ f r k clock e l t low m c =
    let (l', same) = fits_prefix r ℓ k m l c in
    let (r', resp, a, s, t', tk, _) =
      accept_replicates (record r { current_term = ℓ.current_term }) ℓ k clock m l l' same low in
    let (ℓ', h) = accepted_response ℓ resp t' s in
    let x =
      exchange_lem ℓ f r clock (request_at ℓ k) r' resp ℓ' none (send_request ℓ f k e)
        (accepted_request r ℓ k clock t c ∙ a) h in
    (ℓ', r', x ∙ ap (λ (d : Bool). some (ℓ', r', d)) s, tk)

pub exchange-Refused :
    (ℓ : RaftLog) (f : ℕ) (r : RaftLog) (j : ℕ) (clock : ℕ → ℕ)
    → ℓ.next_index f ≡ pos (suc j)
    → r.node_id ≡ f
    → r.current_term ≤ ℓ.current_term
    → check_previous r.log (request_at ℓ (suc j)) ≢ fits
    → (r' : RaftLog) × (resp : AppendEntriesResponse) × (exchange ℓ f r clock
        ≡ some (back ℓ f j, r', false))
      × Refused r ℓ j r' resp
exchange-Refused ℓ f r j clock e id t c =
    let (r', resp, a, ref) = Refused-request r ℓ j clock t c in
    let h = refused_response ℓ f j resp e (ref.to ∙ id) ref.in_term ref.refused in
    let x =
      exchange_lem ℓ f r clock (request_at ℓ (suc j)) r' resp (back ℓ f j) (some (request_at ℓ j))
        (send_request ℓ f (suc j) e) a h in
    (r', resp, x ∙ ap (λ (d : Bool). some (back ℓ f j, r', d)) ref.refused, ref)

pub Matching-cut :
    (j : ℕ) (xs xs' ys : List LogEntry)
    → (xs' ≡ xs) ⊎ (xs' ≡ take j xs)
    → Matching xs ys
    → Matching xs' ys
Matching-cut j xs xs' ys (inl e) m = subst (λ zs. Matching zs ys) (sym e) m
Matching-cut j xs xs' ys (inr e) m = subst (λ zs. Matching zs ys) (sym e) (Matching-take j xs ys m)

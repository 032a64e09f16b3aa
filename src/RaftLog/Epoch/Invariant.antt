-- ===== src/RaftLog/Epoch/Invariant.antt =====
-- What stays true in one leader's term of internal/consensus/consensus.go, and that it survives a longer
-- log of the leader.
use ensemble_chat.Common.{
  ℕ, suc, ◌+◌, ◌≤◌, ◌<◌, ◌≡◌, ◌⊎◌, inl, inr, sym, ap, ◌∙◌, subst, ℤ, pos, minus_one, ◌≤ℤ◌, some,
  Bool, true, false, List, [], ◌∷◌, ◌++◌, length, get_elem?, take, arith, length-append, ◌==◌, ◌||◌,
  if◌then◌else◌, take-append_of_le,
}
use ensemble_chat.Types.{LogEntry, AppendEntriesRequest, AppendEntriesResponse}
use ensemble_chat.RaftLog.{RaftLog, majority}
use ensemble_chat.RaftLog.Apply.{last_of}
use ensemble_chat.RaftLog.Merge.{Matching}
use ensemble_chat.RaftLog.Replication.{request_at}
use ensemble_chat.RaftLog.Proposal.{Sent}
use ensemble_chat.RaftLog.Epoch.{Epoch}
use ensemble_chat.RaftLog.Epoch.Prefixes.{get_elem?-last, get_elem?-length}

abbrev pub AllOf {ℓ} : {A : Type ℓ} → (A → Type 0) → List A → Type 0
AllOf P [] = Unit
AllOf P (x ∷ xs) = P x × AllOf P xs

pub AllOf-append {ℓ} :
    {A : Type ℓ} (P : A → Type 0) (xs ys : List A) → AllOf P xs → AllOf P ys → AllOf P (xs ++ ys)
AllOf-append P [] ys h h' = h'
AllOf-append P (x ∷ xs) ys (p, h) h' = (p, AllOf-append P xs ys h h')

pub AllOf-map {ℓ} :
    {A : Type ℓ} (P Q : A → Type 0) (xs : List A) → ((x : A) → P x → Q x) → AllOf P xs → AllOf Q xs
AllOf-map P Q [] f h = tt
AllOf-map P Q (x ∷ xs) f (p, h) = (f x p, AllOf-map P Q xs f h)

pub AllOf-middle {ℓ} :
    {A : Type ℓ} (P : A → Type 0) (xs pre : List A) (x : A) (post : List A)
    → xs ≡ pre ++ x ∷ post
    → AllOf P xs
    → P x
AllOf-middle P xs pre x post e h = at_middle pre (subst (AllOf P) e h)
  where
    at_middle : (pre : List _) → AllOf P (pre ++ x ∷ post) → P x
    at_middle [] (p, _) = p
    at_middle (y ∷ pre) (_, h') = at_middle pre h'

-- The node is one of the peers.
abbrev pub mem : ℕ → List ℕ → Bool
mem f [] = false
mem f (p ∷ ps) = let rest = mem f ps in (p == f) || rest

-- 1, and one more for each peer that is chosen.
unfoldable pub tally : (ℕ → Bool) → List ℕ → ℕ
tally chosen [] = 1
tally chosen (p ∷ ps) = tally chosen ps + (if chosen p then 1 else 0)

module _ (term base : ℕ) (log : List LogEntry) where
  -- No entry of the term yet, and the log matches the leader's.
  pub record IsOld (r : RaftLog) : Type 0 where
    pub earlier : (i : ℕ) (x : LogEntry) → get_elem? r.log i ≡ some x → x.term < term
    pub matches : Matching r.log log

  -- The log is a prefix of the leader's, with an entry of the term.
  pub record IsNew (r : RaftLog) : Type 0 where
    pub beyond : base < length r.log
    pub inside : length r.log ≤ length log
    pub prefix : r.log ≡ take (length r.log) log

  pub record Follows (f : ℕ) (r : RaftLog) : Type 0 where
    pub same_id : r.node_id ≡ f
    pub in_term : r.current_term ≤ term
    pub low : minus_one ≤ℤ r.last_applied
    pub shape : IsOld r ⊎ IsNew r

  -- A request that the leader made of a prefix of its log with an entry of the term.
  pub record Honest (req : AppendEntriesRequest) : Type 0 where
    pub leader : RaftLog
    pub next : ℕ
    pub made : req ≡ request_at leader next
    pub now : leader.current_term ≡ term
    pub below : next ≤ length leader.log
    pub beyond : base < length leader.log
    pub inside : length leader.log ≤ length log
    pub prefix : leader.log ≡ take (length leader.log) log

  -- A match index: unknown, or the node holds the leader's entries up to it.
  abbrev pub Reported : RaftLog → (match_index : ℤ) → Type 0
  Reported r match_index =
      (match_index ≡ minus_one)
      ⊎ ((c : ℕ) × (match_index ≡ last_of c) × (c ≤ length r.log) × IsNew r)

  pub record Truthful (followers : ℕ → RaftLog) (resp : AppendEntriesResponse) : Type 0 where
    pub begun : base < length log
    pub in_term : resp.term ≤ term
    pub report : (resp.success ≡ false) ⊎ Reported (followers resp.follower_id) resp.match_index

  -- A majority of the leader and its peers holds the leader's first c entries.
  pub record Quorum (ℓ : RaftLog) (followers : ℕ → RaftLog) (c : ℕ) : Type 0 where
    pub chosen : ℕ → Bool
    pub enough : majority ℓ ≤ tally chosen ℓ.peers
    pub hold :
        (f : ℕ)
        → mem f ℓ.peers ≡ true
        → chosen f ≡ true
        → (c ≤ length (followers f).log) × IsNew (followers f)

abbrev pub InRange : List LogEntry → ℤ → Type 0
InRange log next_index = (k : ℕ) × (next_index ≡ pos k) × (k ≤ length log)

pub record IsEpoch (term : ℕ) (e : Epoch) : Type 0 where
  pub now : e.leader.current_term ≡ term
  pub long : e.base ≤ length e.leader.log
  pub fresh :
      (i : ℕ) (x : LogEntry) → e.base ≤ i → get_elem? e.leader.log i ≡ some x → x.term ≡ term
  pub nexts : (f : ℕ) → InRange e.leader.log (e.leader.next_index f)
  pub follows : (f : ℕ) → Follows term e.base e.leader.log f (e.followers f)
  pub requests : AllOf (λ (m : Sent). Honest term e.base e.leader.log m.1) e.requests
  pub responses : AllOf (Truthful term e.base e.leader.log e.followers) e.responses
  pub reports :
      (f : ℕ)
      → mem f e.leader.peers ≡ true
      → Reported term e.base e.leader.log (e.followers f) (e.leader.match_index f)

-- A longer log of the leader.
module _ (term base : ℕ) (log : List LogEntry) (x : LogEntry) (new : x.term ≡ term) where
  pub longer : length log ≤ length (log ++ x ∷ [])
  longer = omega (arith, length-append log (x ∷ []))

  Matching-extend :
      (xs : List LogEntry)
      → ((i : ℕ) (y : LogEntry) → get_elem? xs i ≡ some y → y.term < term)
      → Matching xs log
      → Matching xs (log ++ x ∷ [])
  Matching-extend xs earlier m i y z g g' e = elim (get_elem?-last log x z i g') [
    | inl h ↦
        m i y z g h e ∙ sym (take-append_of_le (suc i) log (x ∷ []) (get_elem?-length log i z h))
    | inr (_, h) ↦ absurd (omega (arith, earlier i y g, ap (λ (w : LogEntry). w.term) h, e, new))
  ]

  pub IsNew-extend : (r : RaftLog) → IsNew term base log r → IsNew term base (log ++ x ∷ []) r
  IsNew-extend r n = record {
    beyond = n.beyond;
    inside = omega (arith, n.inside, longer);
    prefix = n.prefix ∙ sym (take-append_of_le (length r.log) log (x ∷ []) n.inside);
  }

  pub Follows-extend :
      (f : ℕ) (r : RaftLog) → Follows term base log f r → Follows term base (log ++ x ∷ []) f r
  Follows-extend f r h = record {
    same_id = h.same_id;
    in_term = h.in_term;
    low = h.low;
    shape = elim h.shape [
      | inl o ↦
          inl (record { earlier = o.earlier; matches = Matching-extend r.log o.earlier o.matches })
      | inr n ↦ inr (IsNew-extend r n)
    ];
  }

  pub Honest-extend :
      (req : AppendEntriesRequest) → Honest term base log req → Honest term base (log ++ x ∷ []) req
  Honest-extend req h = record {
    leader = h.leader;
    next = h.next;
    made = h.made;
    now = h.now;
    below = h.below;
    beyond = h.beyond;
    inside = omega (arith, h.inside, longer);
    prefix = h.prefix ∙ sym (take-append_of_le (length h.leader.log) log (x ∷ []) h.inside);
  }

  pub Reported-extend :
      (r : RaftLog) (match_index : ℤ)
      → Reported term base log r match_index
      → Reported term base (log ++ x ∷ []) r match_index
  Reported-extend r match_index (inl e) = inl e
  Reported-extend r match_index (inr (c, e, l, n)) = inr (c, e, l, IsNew-extend r n)

  pub Truthful-extend :
      (followers : ℕ → RaftLog) (resp : AppendEntriesResponse)
      → Truthful term base log followers resp
      → Truthful term base (log ++ x ∷ []) followers resp
  Truthful-extend followers resp h = record {
    begun = omega (arith, h.begun, longer);
    in_term = h.in_term;
    report = elim h.report [
      | inl e ↦ inl e
      | inr p ↦ inr (Reported-extend (followers resp.follower_id) resp.match_index p)
    ];
  }

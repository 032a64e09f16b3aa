-- ===== src/RaftLog/Epoch/Growing.antt =====
-- The other nodes after one of them has heard the leader (internal/consensus/consensus.go).
use ensemble_chat.Common.{ℕ, ◌≤◌, inl, inr, subst, ℤ, List, length, arith, ℕ_discrete}
use ensemble_chat.Common.Family.{update}
use ensemble_chat.Types.{LogEntry, AppendEntriesResponse}
use ensemble_chat.RaftLog.{RaftLog}
use ensemble_chat.RaftLog.Epoch.Invariant.{IsNew, Follows, Reported, Truthful}

-- The other nodes when node `f` has heard the leader.
pub update-Follows :
    (term base : ℕ) (log : List LogEntry) (followers : ℕ → RaftLog) (f : ℕ) (r : RaftLog)
    → Follows term base log f r
    → ((g : ℕ) → Follows term base log g (followers g))
    → (g : ℕ) → Follows term base log g (update followers f r g)
update-Follows term base log followers f r h rest g = elim (ℕ_discrete f g) [
  | yes same ↦
      subst (Follows term base log g) (ground (arith, same))
        (subst (λ i. Follows term base log i r) same h)
  | no other ↦ subst (Follows term base log g) (ground (arith, other)) (rest g)
]

-- A node that holds entries of the leader holds them still.
abbrev pub Grown : (term base : ℕ) → List LogEntry → RaftLog → RaftLog → Type 0
Grown term base log r r' =
    IsNew term base log r → IsNew term base log r' × (length r.log ≤ length r'.log)

pub update-Grown :
    (term base : ℕ) (log : List LogEntry) (followers : ℕ → RaftLog) (f : ℕ) (r : RaftLog)
    → Grown term base log (followers f) r
    → (g : ℕ) → Grown term base log (followers g) (update followers f r g)
update-Grown term base log followers f r h g = elim (ℕ_discrete f g) [
  | yes same ↦
      subst (Grown term base log (followers g)) (ground (arith, same))
        (subst (λ i. Grown term base log (followers i) r) same h)
  | no other ↦
      subst (Grown term base log (followers g)) (ground (arith, other)) (λ n. (n, omega arith))
]

pub Reported-Grown :
    (term base : ℕ) (log : List LogEntry) (r r' : RaftLog) (m : ℤ)
    → Grown term base log r r'
    → Reported term base log r m
    → Reported term base log r' m
Reported-Grown term base log r r' m grow (inl e) = inl e
Reported-Grown term base log r r' m grow (inr (c, e, l, n)) =
    let (n', l') = grow n in inr (c, e, omega (arith, l, l'), n')

pub Truthful-Grown :
    (term base : ℕ) (log : List LogEntry) (followers followers' : ℕ → RaftLog)
    (resp : AppendEntriesResponse)
    → ((g : ℕ) → Grown term base log (followers g) (followers' g))
    → Truthful term base log followers resp
    → Truthful term base log followers' resp
Truthful-Grown term base log followers followers' resp grow h = record {
  begun = h.begun;
  in_term = h.in_term;
  report = elim h.report [
    | inl s ↦ inl s
    | inr r ↦ inr (Reported-Grown term base log _ _ resp.match_index (grow resp.follower_id) r)
  ];
}

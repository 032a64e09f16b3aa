-- ===== src/RaftLog/Epoch/Heard.antt =====
-- What a request of the leader does to a node (internal/consensus/consensus.go).
use ensemble_chat.Common.{
  ℕ, suc, dec_le, take-take_of_le, ◌≤◌, ◌<◌, ◌≡◌, ◌⊎◌, sym, ap, ◌∙◌, pos, eq_ℤ_iff, some, false,
  List, length, get_elem?, take, arith,
}
use ensemble_chat.Types.{LogEntry, AppendEntriesResponse}
use ensemble_chat.RaftLog.{RaftLog, term_at, fits, check_previous}
use ensemble_chat.RaftLog.Apply.{last_of}
use ensemble_chat.RaftLog.Merge.{get_elem?-some}
use ensemble_chat.RaftLog.Replication.{request_at}
use ensemble_chat.RaftLog.Epoch.Prefixes.{get_elem?-take_below}
use ensemble_chat.RaftLog.Epoch.Invariant.{IsOld, IsNew, Follows, Reported}

pub get_elem?-prefix :
    (xs log : List LogEntry) (i : ℕ)
    → xs ≡ take (length xs) log
    → i < length xs
    → get_elem? xs i ≡ get_elem? log i
get_elem?-prefix xs log i e l =
    ap (λ ys. get_elem? ys i) e ∙ get_elem?-take_below (length xs) log i l

pub prefix_fits :
    (r s : RaftLog) (j : ℕ)
    → j < length r.log
    → get_elem? r.log j ≡ get_elem? s.log j
    → check_previous r.log (request_at s (suc j)) ≡ fits
unfolding check_previous
prefix_fits r s j l e =
    ground (arith, l, e, eq_ℤ_iff (term_at r.log (pos j)) (term_at s.log (pos j)))

-- The node's log agrees with the leader's up to its commit index.
abbrev pub Agrees : (log : List LogEntry) → RaftLog → Type 0
Agrees log r =
    (k : ℕ) × (r.commit_index ≡ last_of k) × (k ≤ length r.log) × (take k r.log ≡ take k log)

-- A node after a request of the leader.
pub record Heard (term base : ℕ) (log : List LogEntry) (f : ℕ) (r r' : RaftLog)
    (resp : AppendEntriesResponse) : Type 0 where
  pub follows : Follows term base log f r'
  pub keeps : IsNew term base log r → IsNew term base log r' × (length r.log ≤ length r'.log)
  pub agrees : Agrees log r → Agrees log r'
  pub to : resp.follower_id ≡ f
  pub in_term : resp.term ≤ term
  pub report : (resp.success ≡ false) ⊎ Reported term base log r' resp.match_index

-- A log with no entry of the term is no log with one.
pub old_or_new :
    (term base : ℕ) (log : List LogEntry)
    → base ≤ length log
    → ((i : ℕ) (x : LogEntry) → base ≤ i → get_elem? log i ≡ some x → x.term ≡ term)
    → (r : RaftLog) → IsOld term base log r
    → IsNew term base log r
    → ⊥
old_or_new term base log long fresh r o n =
    let (x, g) = get_elem?-some r.log base n.beyond in
    omega (
      arith,
      o.earlier base x g,
      fresh base x (omega arith) (sym (get_elem?-prefix r.log log base n.prefix n.beyond) ∙ g),
    )

-- A log with no entry of the term agrees with the leader's up to the old entries at most.
pub old_commit :
    (term base : ℕ) (log : List LogEntry)
    → base ≤ length log
    → ((i : ℕ) (x : LogEntry) → base ≤ i → get_elem? log i ≡ some x → x.term ≡ term)
    → (r : RaftLog) → IsOld term base log r
    → (k : ℕ) → k ≤ length r.log
    → take k r.log ≡ take k log
    → k ≤ base
old_commit term base log long fresh r o k l e = elim (dec_le k base) [
  | yes h ↦ h
  | no h ↦
      let b : base < k = omega (arith, h) in
      let (x, g) = get_elem?-some r.log base (omega (arith, l, b)) in
      absurd (
        omega (
          arith,
          o.earlier base x g,
          fresh base x (omega arith) (
              sym (get_elem?-take_below k log base b)
              ∙ ap (λ ys. get_elem? ys base) (sym e)
              ∙ get_elem?-take_below k r.log base b
              ∙ g),
        ))
]

pub new_take :
    (term base : ℕ) (log : List LogEntry) (r : RaftLog) (m : ℕ)
    → IsNew term base log r
    → m ≤ length r.log
    → take m r.log ≡ take m log
new_take term base log r m n l = ap (take m) n.prefix ∙ take-take_of_le m (length r.log) log l

-- ===== src/RaftLog/Epoch/Safety.antt =====
-- The logs and the commit index that one leader's term of internal/consensus/consensus.go reaches from a
-- fresh start.
use ensemble_chat.Common.{
  ℕ, suc, ◌≤◌, ◌<◌, ◌≡◌, ◌⊎◌, inl, inr, refl, ap, ◌∙◌, ℤ, pos, some, Bool, true, List, [], ◌∷◌,
  minus_one, ◌≤ℤ◌, Bool-cases, get_elem?, if◌then◌else◌, ◌==◌, ◌||◌, false, length, take, arith,
  take-take_of_le,
}
use ensemble_chat.Common.Family.{update}
use ensemble_chat.Types.{LogEntry}
use ensemble_chat.RaftLog.{RaftLog, majority, set_all, become_leader}
use ensemble_chat.RaftLog.Epoch.{Epoch, Reach, start}
use ensemble_chat.RaftLog.Epoch.Invariant.{mem, tally, IsEpoch}
use ensemble_chat.RaftLog.Merge.{Matching}
use ensemble_chat.RaftLog.Epoch.Prefixes.{get_elem?-length}
use ensemble_chat.RaftLog.Epoch.Reached.{reach-IsEpoch}
use ensemble_chat.RaftLog.Epoch.Commit.{reach-IsCommitted}

set_all-mem :
    (f : ℕ → ℤ) (pids : List ℕ) (v : ℤ) (g : ℕ)
    → set_all f pids v g ≡ (if mem g pids then v else f g)
unfolding set_all
set_all-mem f [] v g = refl
set_all-mem f (pid ∷ pids) v g =
    set_all-mem (update f pid v) pids v g ∙ reorder (pid == g) (mem g pids)
  where
    reorder : (b c : Bool) → (if c then v else if b then v else f g) ≡ (if b || c then v else f g)
    reorder true true = refl
    reorder true false = refl
    reorder false true = refl
    reorder false false = refl

-- A leader's term starts: no entry is of the term yet, the other nodes' logs match the leader's, and the
-- `nextIndex` map has no key but the peers.
pub record IsFresh (r : RaftLog) (term : ℕ) (followers : ℕ → RaftLog) : Type 0 where
  pub earlier : (i : ℕ) (x : LogEntry) → get_elem? r.log i ≡ some x → x.term < term
  pub same_id : (f : ℕ) → (followers f).node_id ≡ f
  pub in_term : (f : ℕ) → (followers f).current_term ≤ term
  pub low : (f : ℕ) → minus_one ≤ℤ (followers f).last_applied
  pub old : (f i : ℕ) (x : LogEntry) → get_elem? (followers f).log i ≡ some x → x.term < term
  pub matches : (f : ℕ) → Matching (followers f).log r.log
  pub unset : (f : ℕ) → mem f r.peers ≡ false → r.next_index f ≡ pos 0

pub start-IsEpoch :
    (r : RaftLog) (term : ℕ) (followers : ℕ → RaftLog)
    → IsFresh r term followers
    → IsEpoch term (start r term followers)
unfolding start become_leader
start-IsEpoch r term followers h = record {
  now = refl;
  long = omega arith;
  fresh = λ i x l g. absurd (omega (arith, l, get_elem?-length r.log i x g));
  nexts = λ f. elim (Bool-cases (mem f r.peers)) [
    | inl m ↦ (
      length r.log,
      set_all-mem r.next_index r.peers (pos (length r.log)) f
          ∙ chosen m (pos (length r.log)) (r.next_index f),
      omega arith,
    )
    | inr m ↦ (
      0,
      set_all-mem r.next_index r.peers (pos (length r.log)) f
          ∙ other m (pos (length r.log)) (r.next_index f)
          ∙ h.unset f m,
      omega arith,
    )
  ];
  follows = λ f. record {
    same_id = h.same_id f;
    in_term = h.in_term f;
    low = h.low f;
    shape = inl (record { earlier = h.old f; matches = h.matches f });
  };
  requests = tt;
  responses = tt;
  reports = λ f m.
      inl (set_all-mem r.match_index r.peers minus_one f ∙ chosen m minus_one (r.match_index f));
}
  where
    chosen : {b : Bool} → b ≡ true → (v w : ℤ) → (if b then v else w) ≡ v
    chosen e v w = rw e refl

    other : {b : Bool} → b ≡ false → (v w : ℤ) → (if b then v else w) ≡ w
    other e v w = rw e refl

-- From a fresh start of a leader's term, and with messages between the leader and the other nodes lost,
-- delayed, reordered and repeated: the log of each other node has no entry of the term and matches the
-- leader's log, or it is a prefix of the leader's log that goes beyond the log at the start.
pub logs_follow_leader :
    (r : RaftLog) (term : ℕ) (followers : ℕ → RaftLog) (e : Epoch)
    → IsFresh r term followers
    → Reach (start r term followers) e
    → (f : ℕ)
    → (((i : ℕ) (x : LogEntry) → get_elem? (e.followers f).log i ≡ some x → x.term < term)
        × Matching (e.followers f).log e.leader.log)
      ⊎ ((e.base < length (e.followers f).log)
          × (length (e.followers f).log ≤ length e.leader.log)
          × ((e.followers f).log ≡ take (length (e.followers f).log) e.leader.log))
logs_follow_leader r term followers e h reach f =
    let i =
      reach-IsEpoch term (start r term followers) e reach (start-IsEpoch r term followers h) in
    elim (i.follows f).shape [
      | inl o ↦ inl (o.earlier, o.matches)
      | inr n ↦ inr (n.beyond, n.inside, n.prefix)
    ]

-- From a fresh start of a leader's term, and with messages between the leader and the other nodes lost,
-- delayed, reordered and repeated: the leader's commit index is the one at the start, or it is that of an
-- entry of the leader's log, and the leader with a part of its peers is a majority, and each of these peers
-- holds the leader's log up to this entry.
pub committed_by_majority :
    (r : RaftLog) (term : ℕ) (followers : ℕ → RaftLog) (e : Epoch)
    → IsFresh r term followers
    → Reach (start r term followers) e
    → (e.leader.commit_index ≡ r.commit_index)
      ⊎ ((n : ℕ) × (e.leader.commit_index ≡ pos n)
          × (n < length e.leader.log)
          × (chosen : ℕ → Bool) × (majority e.leader ≤ tally chosen e.leader.peers)
          × ((f : ℕ)
              → mem f e.leader.peers ≡ true
              → chosen f ≡ true
              → (suc n ≤ length (e.followers f).log)
                × (take (suc n) (e.followers f).log ≡ take (suc n) e.leader.log)))
unfolding start become_leader
committed_by_majority r term followers e h reach =
    elim (reach-IsCommitted term (start r term followers) e reach
      (start-IsEpoch r term followers h)) [
        | inl same ↦ inl same
        | inr (n, eq, l, q) ↦ inr (
          n,
          eq,
          l,
          q.chosen,
          q.enough,
          λ f m p.
              let (k, new) = q.hold f m p in
              (
                k,
                ap (take (suc n)) new.prefix
                    ∙ take-take_of_le (suc n) (length (e.followers f).log) e.leader.log k,
              ),
        )
      ]

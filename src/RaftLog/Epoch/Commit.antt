-- ===== src/RaftLog/Epoch/Commit.antt =====
-- What the leader of a term of internal/consensus/consensus.go commits stays held by a majority.
use ensemble_chat.Common.{
  ℕ, suc, ◌<◌, ◌≡◌, ◌⊎◌, inl, inr, refl, ◌∙◌, ℤ, pos, Option, List, [], ◌∷◌, ◌++◌, length, arith,
  length-append,
}
use ensemble_chat.Common.Family.{update}
use ensemble_chat.Types.{LogEntry, AppendEntriesRequest}
use ensemble_chat.RaftLog.{RaftLog}
use ensemble_chat.RaftLog.Proposal.{new_entry}
use ensemble_chat.RaftLog.Waiting.{appended}
use ensemble_chat.RaftLog.Epoch.{
  Epoch, Step, propose, send, hear, finish, deliver, Reach, here, next,
}
use ensemble_chat.RaftLog.Epoch.Invariant.{Quorum, IsEpoch, IsNew-extend}
use ensemble_chat.RaftLog.Epoch.Leading.{Heeded}
use ensemble_chat.RaftLog.Applied.{apply-Applied}
use ensemble_chat.RaftLog.Epoch.Growing.{Grown, update-Grown}
use ensemble_chat.RaftLog.Epoch.Reached.{heard_by_leader, heard_by_node, reach-IsEpoch}

-- What the leader has committed since the start.
abbrev IsCommitted : (term : ℕ) → ℤ → Epoch → Type 0
IsCommitted term c e =
    (e.leader.commit_index ≡ c)
    ⊎ ((n : ℕ) × (e.leader.commit_index ≡ pos n)
        × (n < length e.leader.log)
        × Quorum term e.base e.leader.log e.leader e.followers (suc n))

Quorum-extend :
    (term base : ℕ) (ℓ : RaftLog) (followers : ℕ → RaftLog) (x : LogEntry) (c : ℕ)
    → x.term ≡ term
    → Quorum term base ℓ.log ℓ followers c
    → Quorum term base (ℓ.log ++ x ∷ []) (record ℓ { log = ℓ.log ++ x ∷ [] }) followers c
Quorum-extend term base ℓ followers x c new q = record {
  chosen = q.chosen;
  enough = q.enough;
  hold =
      λ f m p. let (l, n) = q.hold f m p in (l, IsNew-extend term base ℓ.log x new (followers f) n);
}

Quorum-same :
    (term base : ℕ) (log log' : List LogEntry) (ℓ ℓ' : RaftLog) (followers : ℕ → RaftLog) (c : ℕ)
    → log' ≡ log
    → ℓ'.peers ≡ ℓ.peers
    → Quorum term base log ℓ followers c
    → Quorum term base log' ℓ' followers c
Quorum-same term base log log' ℓ ℓ' followers c same peers q = record {
  chosen = q.chosen;
  enough = rw peers q.enough;
  hold = rw (same, peers) q.hold;
}

Quorum-Grown :
    (term base : ℕ) (log : List LogEntry) (ℓ : RaftLog) (followers followers' : ℕ → RaftLog) (c : ℕ)
    → ((f : ℕ) → Grown term base log (followers f) (followers' f))
    → Quorum term base log ℓ followers c
    → Quorum term base log ℓ followers' c
Quorum-Grown term base log ℓ followers followers' c grow q = record {
  chosen = q.chosen;
  enough = q.enough;
  hold =
      λ f m p. let (l, n) = q.hold f m p in let (n', l') = grow f n in (omega (arith, l, l'), n');
}

-- The leader is another with the same log and peers.
stays-IsCommitted :
    (term : ℕ) (c : ℤ) (e : Epoch) (ℓ : RaftLog)
    → ℓ.log ≡ e.leader.log
    → ℓ.peers ≡ e.leader.peers
    → ℓ.commit_index ≡ e.leader.commit_index
    → IsCommitted term c e
    → IsCommitted term c (record e { leader = ℓ })
stays-IsCommitted term c e ℓ log peers commit (inl same) = inl (commit ∙ same)
stays-IsCommitted term c e ℓ log peers commit (inr (n, eq, l, q)) = inr (
  n,
  commit ∙ eq,
  rw log l,
  Quorum-same term e.base e.leader.log ℓ.log e.leader ℓ e.followers (suc n) log peers q,
)

hear-IsCommitted :
    (term : ℕ) (c : ℤ) (e : Epoch) (ℓ : RaftLog) (again : Option AppendEntriesRequest)
    → Heeded term e.base e.followers e.leader ℓ again
    → IsCommitted term c e
    → IsCommitted term c (record e { leader = ℓ })
hear-IsCommitted term c e ℓ again heeded k = elim heeded.commits [
  | inl same ↦ stays-IsCommitted term c e ℓ heeded.same_log heeded.same_peers same k
  | inr (n, eq, l, q) ↦ inr (
    n,
    eq,
    rw heeded.same_log l,
    Quorum-same term e.base e.leader.log ℓ.log e.leader ℓ e.followers (suc n) heeded.same_log
        heeded.same_peers q,
  )
]

step-IsCommitted :
    (term : ℕ) (c : ℤ) (e e' : Epoch)
    → Step e e'
    → IsEpoch term e
    → IsCommitted term c e
    → IsCommitted term c e'
unfolding appended new_entry
step-IsCommitted term c e e' (propose change key value leads) h (inl same) = inl same
step-IsCommitted term c e e' (propose change key value leads) h (inr (n, eq, l, q)) =
    let x = new_entry e.leader change key value in
    inr (
      n,
      eq,
      omega (arith, l, length-append e.leader.log (x ∷ [])),
      Quorum-extend term e.base e.leader e.followers x (suc n) h.now q,
    )
step-IsCommitted term c e e' (send f req begun s) h k = k
step-IsCommitted term c e e' (hear pre resp post ℓ again at eq) h k =
    hear-IsCommitted term c e ℓ again (heard_by_leader term e h pre resp post ℓ again at eq) k
step-IsCommitted term c e e' (finish target clock ℓ b a) h k =
    let (log, peers, _, _, _, commit, _) = apply-Applied e.leader clock ℓ a in
    stays-IsCommitted term c e ℓ log peers commit k
step-IsCommitted term c e e' (deliver pre f req post clock r resp at eq) h (inl same) = inl same
step-IsCommitted term c e e' (deliver pre f req post clock r resp at eq) h (inr (n, eq', l, q)) =
    let heard = (heard_by_node term e h pre f req post clock r resp at eq).1 in
    inr (
      n,
      eq',
      l,
      Quorum-Grown term e.base e.leader.log e.leader e.followers (update e.followers f r) (suc n)
          (update-Grown term e.base e.leader.log e.followers f r heard.keeps) q,
    )

pub reach-IsCommitted :
    (term : ℕ) (e e' : Epoch)
    → Reach e e'
    → IsEpoch term e
    → IsCommitted term e.leader.commit_index e'
reach-IsCommitted term e e' here h = inl refl
reach-IsCommitted term e e' (next {s} {t} r step) h =
    step-IsCommitted term e.leader.commit_index s t step (reach-IsEpoch term e s r h)
      (reach-IsCommitted term e s r h)

-- ===== src/RaftLog/Epoch/Agreement.antt =====
-- The committed entries of the nodes in one leader's term of internal/consensus/consensus.go.
use ensemble_chat.Common.{
  ℕ, zero, suc, ◌≤◌, ◌<◌, ◌≡◌, sym, ap, ◌∙◌, subst, pos, ◌≤ℤ◌, some, List, [], ◌∷◌, ◌++◌, length,
  get_elem?, arith, length-take, take-append_of_le, ℕ_discrete,
}
use ensemble_chat.Common.Family.{update}
use ensemble_chat.Types.{LogEntry}
use ensemble_chat.RaftLog.{RaftLog, become_leader}
use ensemble_chat.RaftLog.Apply.{last_of}
use ensemble_chat.RaftLog.Merge.{get_elem?-some}
use ensemble_chat.RaftLog.Proposal.{new_entry}
use ensemble_chat.RaftLog.Waiting.{appended}
use ensemble_chat.RaftLog.Epoch.{
  Epoch, Step, propose, send, hear, finish, deliver, Reach, here, next, start,
}
use ensemble_chat.RaftLog.Epoch.Prefixes.{get_elem?-take_below}
use ensemble_chat.RaftLog.Epoch.Invariant.{IsEpoch}
use ensemble_chat.RaftLog.Epoch.Heard.{Agrees}
use ensemble_chat.RaftLog.Applied.{apply-Applied}
use ensemble_chat.RaftLog.Epoch.Reached.{heard_by_leader, heard_by_node, reach-IsEpoch}
use ensemble_chat.RaftLog.Epoch.Safety.{IsFresh, start-IsEpoch}

Agrees-extend :
    (log : List LogEntry) (x : LogEntry) (r : RaftLog) → Agrees log r → Agrees (log ++ x ∷ []) r
Agrees-extend log x r (k, at, l, same) =
    let fits : k ≤ length log =
      omega (arith, length-take k r.log, length-take k log, ap length same, l) in
    (k, at, l, same ∙ sym (take-append_of_le k log (x ∷ []) fits))

update-Agrees :
    (log : List LogEntry) (followers : ℕ → RaftLog) (f : ℕ) (r : RaftLog)
    → Agrees log r
    → ((g : ℕ) → Agrees log (followers g))
    → (g : ℕ) → Agrees log (update followers f r g)
update-Agrees log followers f r h rest g = elim (ℕ_discrete f g) [
  | yes same ↦ subst (Agrees log) {x = r} {y = update followers f r g} (ground (arith, same)) h
  | no other ↦
      subst (Agrees log) {x = followers g} {y = update followers f r g} (ground (arith, other))
        (rest g)
]

step-Agrees :
    (term : ℕ) (e e' : Epoch)
    → Step e e'
    → IsEpoch term e
    → ((f : ℕ) → Agrees e.leader.log (e.followers f))
    → (f : ℕ) → Agrees e'.leader.log (e'.followers f)
unfolding appended new_entry
step-Agrees term e e' (propose change key value leads) h a f =
    Agrees-extend e.leader.log (new_entry e.leader change key value) (e.followers f) (a f)
step-Agrees term e e' (send f' req begun s) h a f = a f
step-Agrees term e e' (hear pre resp post ℓ again at eq) h a f =
    subst (λ (log : List LogEntry). Agrees log (e.followers f))
      (sym (heard_by_leader term e h pre resp post ℓ again at eq).same_log) (a f)
step-Agrees term e e' (finish target clock ℓ c ap) h a f =
    subst (λ (log : List LogEntry). Agrees log (e.followers f))
      (sym (apply-Applied e.leader clock ℓ ap).0) (a f)
step-Agrees term e e' (deliver pre f req post clock r resp at eq) h a g =
    let heard = (heard_by_node term e h pre f req post clock r resp at eq).1 in
    update-Agrees e.leader.log e.followers f r (heard.agrees (a f)) a g

reach-Agrees :
    (term : ℕ) (e e' : Epoch)
    → Reach e e'
    → IsEpoch term e
    → ((f : ℕ) → Agrees e.leader.log (e.followers f))
    → (f : ℕ) → Agrees e'.leader.log (e'.followers f)
reach-Agrees term e e' here h a = a
reach-Agrees term e e' (next {s} {t} r step) h a =
    step-Agrees term s t step (reach-IsEpoch term e s r h) (reach-Agrees term e s r h a)

below_commit : (i k : ℕ) → pos i ≤ℤ last_of k → i < k
below_commit i zero h = absurd (omega arith)
below_commit i (suc k) h = omega arith

agreed_entry :
    (log : List LogEntry) (r : RaftLog) (i : ℕ)
    → Agrees log r
    → pos i ≤ℤ r.commit_index
    → (x : LogEntry) × (get_elem? r.log i ≡ some x) × (get_elem? log i ≡ some x)
agreed_entry log r i (k, at, l, same) h =
    let b : i < k = below_commit i k (subst (λ z. pos i ≤ℤ z) at h) in
    let (x, g) = get_elem?-some r.log i (omega (arith, b, l)) in
    (
      x,
      g,
      sym (get_elem?-take_below k log i b)
          ∙ ap (λ ys. get_elem? ys i) (sym same)
          ∙ get_elem?-take_below k r.log i b
          ∙ g,
    )

-- From a fresh start of a leader's term at which each other node's log agrees with the leader's up to the
-- node's commit index, and with messages between the leader and the other nodes lost, delayed, reordered and
-- repeated: an index that two of the other nodes have committed has the same entry in the logs of both and
-- of the leader.
pub committed_agree :
    (r : RaftLog) (term : ℕ) (followers : ℕ → RaftLog) (e : Epoch)
    → IsFresh r term followers
    → ((f : ℕ) → Agrees r.log (followers f))
    → Reach (start r term followers) e
    → (f g i : ℕ) → pos i ≤ℤ (e.followers f).commit_index
    → pos i ≤ℤ (e.followers g).commit_index
    → (x : LogEntry) × (get_elem? (e.followers f).log i ≡ some x)
      × (get_elem? (e.followers g).log i ≡ some x)
      × (get_elem? e.leader.log i ≡ some x)
unfolding start become_leader
committed_agree r term followers e h a reach f g i c d =
    let all =
      reach-Agrees term (start r term followers) e reach (start-IsEpoch r term followers h) a in
    let (x, at_f, at_leader) = agreed_entry e.leader.log (e.followers f) i (all f) c in
    let (y, at_g, at_leader') = agreed_entry e.leader.log (e.followers g) i (all g) d in
    (x, at_f, at_g ∙ sym at_leader' ∙ at_leader, at_leader)

-- ===== src/RaftLog/Epoch/Reached.antt =====
-- What stays true in every state that one leader's term of internal/consensus/consensus.go reaches.
use ensemble_chat.Common.{[], ℕ, ◌≡◌, refl, some, none, Option, List, ◌∷◌, ◌++◌}
use ensemble_chat.Types.{AppendEntriesRequest, AppendEntriesResponse}
use ensemble_chat.RaftLog.{RaftLog, handle_append_entries, handle_append_entries_response}
use ensemble_chat.RaftLog.Proposal.{Sent, retry}
use ensemble_chat.RaftLog.Epoch.{
  Epoch, Step, propose, send, hear, finish, deliver, Reach, here, next,
}
use ensemble_chat.RaftLog.Epoch.Invariant.{AllOf, AllOf-middle, Honest, Truthful, IsEpoch}
use ensemble_chat.RaftLog.Epoch.Heard.{Heard}
use ensemble_chat.RaftLog.Epoch.Following.{handle-Heard}
use ensemble_chat.RaftLog.Epoch.Sending.{sent-Honest}
use ensemble_chat.RaftLog.Epoch.Leading.{Heeded, heed}
use ensemble_chat.RaftLog.Applied.{apply-Applied}
use ensemble_chat.RaftLog.Epoch.Steps.{
  propose-IsEpoch, stays-IsEpoch, sends-IsEpoch, deliver-IsEpoch,
}

module _ (term : ℕ) (e : Epoch) (h : IsEpoch term e) where
  pub heard_by_leader :
      (pre : List AppendEntriesResponse) (resp : AppendEntriesResponse)
      (post : List AppendEntriesResponse) (ℓ : RaftLog) (again : Option AppendEntriesRequest)
      → e.responses ≡ pre ++ resp ∷ post
      → handle_append_entries_response e.leader resp ≡ some (ℓ, again)
      → Heeded term e.base e.followers e.leader ℓ again
  heard_by_leader pre resp post ℓ again at eq =
      heed term e.base e.followers e.leader h.now h.nexts h.reports resp ℓ again
        (AllOf-middle (Truthful term e.base e.leader.log e.followers) e.responses pre resp post at
          h.responses)
        eq

  pub heard_by_node :
      (pre : List Sent) (f : ℕ) (req : AppendEntriesRequest) (post : List Sent) (clock : ℕ → ℕ)
      (r : RaftLog) (resp : AppendEntriesResponse)
      → e.requests ≡ pre ++ (f, req) ∷ post
      → handle_append_entries (e.followers f) req clock ≡ some (r, resp)
      → Honest term e.base e.leader.log req
        × Heard term e.base e.leader.log f (e.followers f) r resp
  heard_by_node pre f req post clock r resp at eq =
      let honest =
        AllOf-middle (λ (m : Sent). Honest term e.base e.leader.log m.1) e.requests pre (f, req)
          post at h.requests in
      (
        honest,
        handle-Heard term e.base e.leader.log h.long h.fresh f (e.followers f) req clock r resp
            (h.follows f) honest eq,
      )

retry-AllOf :
    (P : AppendEntriesRequest → Type 0) (f : ℕ) (again : Option AppendEntriesRequest)
    → ((req : AppendEntriesRequest) → again ≡ some req → P req)
    → AllOf (λ (m : Sent). P m.1) (retry f again)
retry-AllOf P f none h = tt
retry-AllOf P f (some req) h = (h req refl, tt)

pub step-IsEpoch : (term : ℕ) (e e' : Epoch) → Step e e' → IsEpoch term e → IsEpoch term e'
step-IsEpoch term e e' (propose change key value leads) h =
    propose-IsEpoch term e change key value h
step-IsEpoch term e e' (send f req begun s) h =
    sends-IsEpoch term e ((f, req) ∷ []) h
      (sent-Honest term e.base e.leader begun h.now f req (h.nexts f) s, tt)
step-IsEpoch term e e' (hear pre resp post ℓ again at eq) h =
    let heeded = heard_by_leader term e h pre resp post ℓ again at eq in
    sends-IsEpoch term (record e { leader = ℓ }) (retry resp.follower_id again)
      (stays-IsEpoch term e ℓ h heeded.same_log heeded.same_peers heeded.same_term heeded.nexts
        heeded.reports)
      (retry-AllOf (Honest term e.base ℓ.log) resp.follower_id again
        (rw heeded.same_log heeded.honest))
step-IsEpoch term e e' (finish target clock ℓ c a) h =
    let (log, peers, now, nexts, matched, _, _) = apply-Applied e.leader clock ℓ a in
    stays-IsEpoch term e ℓ h log peers now (rw nexts h.nexts) (rw matched h.reports)
step-IsEpoch term e e' (deliver pre f req post clock r resp at eq) h =
    deliver-IsEpoch term e f req clock r resp h
      (heard_by_node term e h pre f req post clock r resp at eq).0 eq

pub reach-IsEpoch : (term : ℕ) (e e' : Epoch) → Reach e e' → IsEpoch term e → IsEpoch term e'
reach-IsEpoch term e e' here h = h
reach-IsEpoch term e e' (next {s} {t} r step) h =
    step-IsEpoch term s t step (reach-IsEpoch term e s r h)

-- ===== src/RaftLog/Epoch/Waits.antt =====
-- `waitForMajority` of internal/consensus/consensus.go as steps of its leader's term, with the steps of the
-- other nodes in between.
use ensemble_chat.Common.{
  ℕ, ◌≡◌, inl, inr, refl, sym, ap, ◌∙◌, subst, pos, leb_ℤ, Bool, true, Option, some, some_inj, none,
  List, [], ◌∷◌, ◌++◌, map, append_assoc, append-nil, Option-cases, Bool-cases,
}
use ensemble_chat.Types.{AppendEntriesRequest, AppendEntriesResponse}
use ensemble_chat.RaftLog.{RaftLog, handle_append_entries_response, apply_committed}
use ensemble_chat.RaftLog.Proposal.{Sent, WaitEvent, retry, response, send_more, wait_for_majority}
use ensemble_chat.RaftLog.Waiting.{wait_commits, wait_goes_on}
use ensemble_chat.RaftLog.Epoch.{Epoch, hear, finish, Reach, here, next}
use ensemble_chat.RaftLog.Epoch.Invariant.{IsEpoch}
use ensemble_chat.RaftLog.Applied.{apply-Applied}
use ensemble_chat.RaftLog.Epoch.Reached.{heard_by_leader, step-IsEpoch, reach-IsEpoch}
use ensemble_chat.RaftLog.Epoch.Sends.{Reach-trans, moved, no_result}

module _ (r : RaftLog) (target : ℕ) (clock : ℕ → ℕ) (resp : AppendEntriesResponse)
    (es : List WaitEvent) where
  wait_panics :
      handle_append_entries_response r resp ≡ none
      → wait_for_majority r target clock (response resp ∷ es) ≡ none
  unfolding wait_for_majority
  wait_panics e = rw (e, wait_for_majority) refl

  apply_panics :
      (r' : RaftLog) (again : Option AppendEntriesRequest)
      → handle_append_entries_response r resp ≡ some (r', again)
      → leb_ℤ (pos target) r'.commit_index ≡ true
      → apply_committed r' clock ≡ none
      → wait_for_majority r target clock (response resp ∷ es) ≡ none
  unfolding wait_for_majority
  apply_panics r' again e c a = rw (e, wait_for_majority) (rw c (rw a refl))

-- A response that has been sent.
abbrev pub IsIn : List AppendEntriesResponse → AppendEntriesResponse → Type 0
IsIn resps resp =
    (pre : List AppendEntriesResponse) × (post : List AppendEntriesResponse) × (resps
      ≡ pre ++ resp ∷ post)

-- What the other nodes do while the leader waits.
abbrev pub Meanwhile : Epoch → Epoch → Type 0
Meanwhile e s = Reach e s × (s.leader ≡ e.leader) × (s.requests ≡ e.requests)

-- The responses arrive in this order, each once the other nodes have sent it.
abbrev pub Awaits : Epoch → List AppendEntriesResponse → Type 0
Awaits e [] = Unit
Awaits e (resp ∷ resps) =
    (s : Epoch) × Meanwhile e s
    × IsIn s.responses resp
    × ((ℓ : RaftLog) (again : Option AppendEntriesRequest)
        → handle_append_entries_response s.leader resp ≡ some (ℓ, again)
        → Awaits (moved s ℓ (retry resp.follower_id again)) resps)

-- Steps to a state with this leader, which send these requests and leave the leader's log.
abbrev pub LeadsTo : Epoch → RaftLog → List Sent → Type 0
LeadsTo e r sent =
    (s : Epoch) × Reach e s
    × (s.leader ≡ r)
    × (s.requests ≡ e.requests ++ sent)
    × (r.log ≡ e.leader.log)

pub LeadsTo-moved :
    (e : Epoch) (ℓ r : RaftLog) (sent more : List Sent)
    → Reach e (moved e ℓ sent)
    → ℓ.log ≡ e.leader.log
    → LeadsTo (moved e ℓ sent) r more
    → LeadsTo e r (sent ++ more)
LeadsTo-moved e ℓ r sent more first same (s, reach, leader, requests, log) = (
  s,
  Reach-trans e (moved e ℓ sent) s first reach,
  leader,
  requests ∙ append_assoc e.requests sent more,
  log ∙ same,
)

LeadsTo-Meanwhile :
    (e s : Epoch) (r : RaftLog) (sent : List Sent)
    → Meanwhile e s
    → LeadsTo s r sent
    → LeadsTo e r sent
LeadsTo-Meanwhile e s r sent (first, ℓ, same) (t, reach, leader, requests, log) = (
  t,
  Reach-trans e s t first reach,
  leader,
  requests ∙ ap (λ (ms : List Sent). ms ++ sent) same,
  log ∙ ap (λ (x : RaftLog). x.log) ℓ,
)

response-LeadsTo :
    (term : ℕ) (s : Epoch) (target : ℕ) (clock : ℕ → ℕ) (resp : AppendEntriesResponse)
    (resps pre post : List AppendEntriesResponse) (out : RaftLog × Bool × List Sent)
    → IsEpoch term s
    → s.responses ≡ pre ++ resp ∷ post
    → ((ℓ : RaftLog) (again : Option AppendEntriesRequest) (out' : RaftLog × Bool × List Sent)
        → handle_append_entries_response s.leader resp ≡ some (ℓ, again)
        → IsEpoch term (moved s ℓ (retry resp.follower_id again))
        → wait_for_majority ℓ target clock (map response resps) ≡ some out'
        → LeadsTo (moved s ℓ (retry resp.follower_id again)) out'.0 out'.2)
    → wait_for_majority s.leader target clock (response resp ∷ map response resps) ≡ some out
    → LeadsTo s out.0 out.2
response-LeadsTo term s target clock resp resps pre post out h at later w =
    elim (Option-cases (handle_append_entries_response s.leader resp)) [
      | inl p ↦
          absurd (no_result _ out (wait_panics s.leader target clock resp (map response resps) p) w)
      | inr ((ℓ, again), p) ↦
          let same = (heard_by_leader term s h pre resp post ℓ again at p).same_log in
          let heard = hear pre resp post ℓ again at p in
          let sent = retry resp.follower_id again in
          elim (Bool-cases (leb_ℤ (pos target) ℓ.commit_index)) [
            | inl c ↦ elim (Option-cases (apply_committed ℓ clock)) [
              | inl a ↦ absurd (
                  no_result _ out
                    (apply_panics s.leader target clock resp (map response resps) ℓ again p c a) w)
              | inr (r, a) ↦
                  subst (λ (q : RaftLog × Bool × List Sent). LeadsTo s q.0 q.2)
                    (some_inj (
                      sym (
                        wait_commits s.leader target clock resp (map response resps) ℓ r again p c
                          a)
                      ∙ w))
                    (
                      moved s r sent,
                      next (next here heard) (finish target clock r c a),
                      refl,
                      refl,
                      (apply-Applied ℓ clock r a).0 ∙ same,
                    )
            ]
            | inr c ↦ elim (Option-cases (wait_for_majority ℓ target clock (map response resps))) [
              | inl a ↦ absurd (
                  no_result _ out
                    (wait_goes_on s.leader target clock resp (map response resps) ℓ again p c
                      ∙ ap (send_more sent) a)
                    w)
              | inr ((r, done, more), a) ↦
                  subst (λ (q : RaftLog × Bool × List Sent). LeadsTo s q.0 q.2)
                    (some_inj (
                      sym (
                        wait_goes_on s.leader target clock resp (map response resps) ℓ again p c
                        ∙ ap (send_more sent) a)
                      ∙ w))
                    (LeadsTo-moved s ℓ r sent more (next here heard) same (
                      later ℓ again (r, done, more) p (step-IsEpoch term s (moved s ℓ sent) heard h)
                        a))
            ]
          ]
    ]

pub waits-LeadsTo :
    (term : ℕ) (e : Epoch) (target : ℕ) (clock : ℕ → ℕ) (resps : List AppendEntriesResponse)
    (out : RaftLog × Bool × List Sent)
    → IsEpoch term e
    → Awaits e resps
    → wait_for_majority e.leader target clock (map response resps) ≡ some out
    → LeadsTo e out.0 out.2
unfolding wait_for_majority
waits-LeadsTo term e target clock [] out h all w =
    subst (λ (p : RaftLog × Bool × List Sent). LeadsTo e p.0 p.2) (some_inj w)
      (e, here, refl, sym (append-nil e.requests), refl)
waits-LeadsTo term e target clock (resp ∷ resps) out h (s, quiet, (pre, post, at), rest) w =
    LeadsTo-Meanwhile e s out.0 out.2 quiet (
      response-LeadsTo term s target clock resp resps pre post out
        (reach-IsEpoch term e s quiet.0 h) at
        (λ ℓ again out' p h' w'.
          waits-LeadsTo term (moved s ℓ (retry resp.follower_id again)) target clock resps out' h'
            (rest ℓ again p) w')
        (subst
          (λ (ℓ : RaftLog).
            wait_for_majority ℓ target clock (map response (resp ∷ resps)) ≡ some out)
          (sym quiet.1) w))

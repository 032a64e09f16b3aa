-- ===== src/RaftLog/Epoch/Proposing.antt =====
-- `ProposeEntry` of internal/consensus/consensus.go as steps of its leader's term.
use ensemble_chat.Common.{
  ℕ, ◌<◌, ◌≡◌, inl, inr, refl, sym, ap, ◌∙◌, subst, Bool, true, false, some, some_inj, none, List,
  [], ◌∷◌, ◌++◌, map, String, length, arith, length-append, append_assoc, Option-cases,
}
use ensemble_chat.Types.{ChangeType, AppendEntriesResponse}
use ensemble_chat.RaftLog.{RaftLog}
use ensemble_chat.RaftLog.Proposal.{
  Sent, WaitEvent, new_entry, send_to, response, wait_for_majority, announce, propose_entry,
}
use ensemble_chat.RaftLog.Waiting.{appended}
use ensemble_chat.RaftLog.Epoch.{
  Epoch, Step, propose, send, hear, finish, deliver, Reach, here, next, start,
}
use ensemble_chat.RaftLog.Epoch.Invariant.{IsEpoch}
use ensemble_chat.RaftLog.Epoch.Safety.{IsFresh, start-IsEpoch}
use ensemble_chat.RaftLog.Epoch.Reached.{step-IsEpoch, reach-IsEpoch}
use ensemble_chat.RaftLog.Epoch.Sends.{Reach-trans, moved, no_result, sends-Reach}
use ensemble_chat.RaftLog.Epoch.Waits.{Awaits, LeadsTo, LeadsTo-moved, waits-LeadsTo}

Reach-base : (e e' : Epoch) → Reach e e' → e'.base ≡ e.base
Reach-base e e' here = refl
Reach-base e e' (next {s} {t} r step) = Step-base s t step ∙ Reach-base e s r
  where
    Step-base : (t u : Epoch) → Step t u → u.base ≡ t.base
    Step-base t u (propose change key value leads) = refl
    Step-base t u (send f req begun e) = refl
    Step-base t u (hear pre resp post leader again at e) = refl
    Step-base t u (finish target clock leader c e) = refl
    Step-base t u (deliver pre f req post clock follower resp at e) = refl

-- The last round, after the wait.
announce-LeadsTo :
    (e : Epoch) (r : RaftLog) (done : Bool) (sent : List Sent) (out : RaftLog × Bool × List Sent)
    → e.base < length e.leader.log
    → LeadsTo e r sent
    → announce (r, done, sent) ≡ some out
    → LeadsTo e out.0 out.2
unfolding announce
announce-LeadsTo e r false sent out begun l w =
    subst (λ (q : RaftLog × Bool × List Sent). LeadsTo e q.0 q.2) (some_inj w) l
announce-LeadsTo e r true sent out begun (s, reach, leader, requests, log) w =
    elim (Option-cases (send_to r r.peers)) [
      | inl p ↦ absurd (no_result _ out (last_panics p) w)
      | inr (more, p) ↦
          let begun' : s.base < length s.leader.log = omega (
            arith,
            begun,
            Reach-base e s reach,
            ap (λ (x : RaftLog). length x.log) leader,
            ap length log,
          ) in
          subst (λ (q : RaftLog × Bool × List Sent). LeadsTo e q.0 q.2)
            (some_inj (sym (last_sent more p) ∙ w))
            (
              moved s s.leader more,
              Reach-trans e s (moved s s.leader more) reach (
                  sends-Reach s r.peers more begun'
                    (ap (λ (x : RaftLog). send_to x r.peers) leader ∙ p)),
              leader,
              ap (λ (ms : List Sent). ms ++ more) requests ∙ append_assoc e.requests sent more,
              log,
            )
    ]
  where
    last_panics : send_to r r.peers ≡ none → announce (r, true, sent) ≡ none
    last_panics p = rw (p, announce) refl

    last_sent :
        (more : List Sent)
        → send_to r r.peers ≡ some more
        → announce (r, true, sent) ≡ some (r, true, sent ++ more)
    last_sent more p = rw (p, announce) refl

module _ (r : RaftLog) (change : ChangeType) (key value : String) (clock : ℕ → ℕ)
    (es : List WaitEvent) (leads : r.is_leader ≡ true) where
  waiting_panics :
      (sent : List Sent)
      → send_to (appended r change key value) r.peers ≡ some sent
      → wait_for_majority (appended r change key value) (length r.log) clock es ≡ none
      → propose_entry r change key value clock es ≡ none
  unfolding propose_entry appended
  waiting_panics sent e w = rw (e, propose_entry) (rw w (rw leads refl))

  announces :
      (sent more : List Sent) (r' : RaftLog) (done : Bool)
      → send_to (appended r change key value) r.peers ≡ some sent
      → wait_for_majority (appended r change key value) (length r.log) clock es
        ≡ some (r', done, more)
      → propose_entry r change key value clock es ≡ announce (r', done, sent ++ more)
  unfolding propose_entry appended
  announces sent more r' done e w = rw (e, propose_entry) (rw w (rw leads refl))

propose-LeadsTo :
    (term : ℕ) (e : Epoch) (change : ChangeType) (key value : String) (clock : ℕ → ℕ)
    (resps : List AppendEntriesResponse) (sent : List Sent) (out : RaftLog × Bool × List Sent)
    → IsEpoch term e
    → e.leader.is_leader ≡ true
    → send_to (appended e.leader change key value) e.leader.peers ≡ some sent
    → Awaits (moved e (appended e.leader change key value) sent) resps
    → propose_entry e.leader change key value clock (map response resps) ≡ some out
    → (s : Epoch) × Reach e s × (s.leader ≡ out.0) × (s.requests ≡ e.requests ++ out.2)
unfolding appended
propose-LeadsTo term e change key value clock resps sent out h leads sends awaits p =
    let r = appended e.leader change key value in
    let drafted : Epoch = record e { leader = r } in
    let draft : Step e drafted = propose change key value leads in
    let begun : e.base < length r.log =
      omega
        (arith, h.long, length-append e.leader.log (new_entry e.leader change key value ∷ [])) in
    let all_sent : Reach drafted (moved drafted r sent) =
      sends-Reach drafted e.leader.peers sent begun sends in
    let h' =
      reach-IsEpoch term drafted (moved drafted r sent) all_sent
        (step-IsEpoch term e drafted draft h) in
    elim (Option-cases (wait_for_majority r (length e.leader.log) clock (map response resps))) [
      | inl w ↦ absurd (
          no_result _ out
            (waiting_panics e.leader change key value clock (map response resps) leads sent sends w)
            p)
      | inr ((r', done, more), w) ↦
          let (s, reach, leader, requests, _) =
            announce-LeadsTo drafted r' done (sent ++ more) out begun
              (LeadsTo-moved drafted r r' sent more all_sent refl (
                waits-LeadsTo term (moved drafted r sent) (length e.leader.log) clock resps
                  (r', done, more) h' awaits w))
              (sym (
                  announces e.leader change key value clock (map response resps) leads sent more r'
                    done sends w)
                ∙ p) in
          (s, Reach-trans e drafted s (next here draft) reach, leader, requests)
    ]

-- In a state that a leader's term reaches from a fresh start, the leader proposes an entry, sends its requests,
-- and then hears responses in an order in which each has been sent before it is heard, with any steps of the
-- other nodes in between. What the proposal returns, if it does not panic, is a state that the term reaches: the
-- leader there is the one returned, and the requests are those before and those that the proposal sent, in
-- order.
pub propose_entry_steps :
    (r : RaftLog) (term : ℕ) (followers : ℕ → RaftLog) (e : Epoch) (change : ChangeType)
    (key value : String) (clock : ℕ → ℕ) (resps : List AppendEntriesResponse) (sent : List Sent)
    (out : RaftLog × Bool × List Sent)
    → IsFresh r term followers
    → Reach (start r term followers) e
    → e.leader.is_leader ≡ true
    → send_to (appended e.leader change key value) e.leader.peers ≡ some sent
    → Awaits (moved e (appended e.leader change key value) sent) resps
    → propose_entry e.leader change key value clock (map response resps) ≡ some out
    → (s : Epoch) × Reach (start r term followers) s
      × (s.leader ≡ out.0)
      × (s.requests ≡ e.requests ++ out.2)
propose_entry_steps r term followers e change key value clock resps sent out h reach leads sends
      awaits p =
    let i =
      reach-IsEpoch term (start r term followers) e reach (start-IsEpoch r term followers h) in
    let (s, more, leader, requests) =
      propose-LeadsTo term e change key value clock resps sent out i leads sends awaits p in
    (s, Reach-trans (start r term followers) e s reach more, leader, requests)

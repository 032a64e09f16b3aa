-- ===== src/RaftLog/Epoch/Sends.antt =====
-- `sendAppendEntriesToAll` of internal/consensus/consensus.go as steps of its leader's term.
use ensemble_chat.Common.{
  ℕ, ◌<◌, ◌≡◌, inl, inr, refl, sym, ◌∙◌, subst, Option, some, some_inj, none, List, [], ◌∷◌, ◌++◌,
  length, append_assoc, append-nil, Option-cases,
}
use ensemble_chat.Types.{AppendEntriesRequest}
use ensemble_chat.RaftLog.{RaftLog, send_append_entries_to}
use ensemble_chat.RaftLog.Proposal.{Sent, send_to}
use ensemble_chat.RaftLog.Epoch.{Epoch, send, Reach, here, next}

pub Reach-trans : (a b c : Epoch) → Reach a b → Reach b c → Reach a c
Reach-trans a b c r here = r
Reach-trans a b c r (next {s} {t} q step) = next (Reach-trans a b s r q) step

-- The epoch with another leader and more requests.
abbrev pub moved : Epoch → RaftLog → List Sent → Epoch
moved e r sent = record e { leader = r; requests = e.requests ++ sent }

pub moved_twice :
    (e : Epoch) (r r' : RaftLog) (sent more : List Sent)
    → Reach e (moved e r sent)
    → Reach (moved e r sent) (moved (moved e r sent) r' more)
    → Reach e (moved e r' (sent ++ more))
moved_twice e r r' sent more a b =
    subst (λ (ms : List Sent). Reach e (record e { leader = r'; requests = ms }))
      (append_assoc e.requests sent more)
      (Reach-trans e (moved e r sent) (moved (moved e r sent) r' more) a b)

pub unmoved : (e : Epoch) → Reach e (moved e e.leader [])
unmoved e =
    subst (λ (ms : List Sent). Reach e (record e { requests = ms })) (sym (append-nil e.requests))
      here

-- `sendAppendEntriesToAll`
module _ (r : RaftLog) (pid : ℕ) (pids : List ℕ) where
  send_to_panics : send_append_entries_to r pid ≡ none → send_to r (pid ∷ pids) ≡ none
  unfolding send_to
  send_to_panics e = rw (e, send_to) refl

  send_to_stops :
      (req : AppendEntriesRequest)
      → send_append_entries_to r pid ≡ some req
      → send_to r pids ≡ none
      → send_to r (pid ∷ pids) ≡ none
  unfolding send_to
  send_to_stops req e f = rw (e, send_to) (rw f refl)

  send_to_next :
      (req : AppendEntriesRequest) (sent : List Sent)
      → send_append_entries_to r pid ≡ some req
      → send_to r pids ≡ some sent
      → send_to r (pid ∷ pids) ≡ some ((pid, req) ∷ sent)
  unfolding send_to
  send_to_next req sent e f = rw (e, send_to) (rw f refl)

pub no_result {ℓ} : {A : Type ℓ} (x : Option A) (y : A) → x ≡ none → x ≡ some y → ⊥
no_result x y e f = absurd (cc)

pub sends-Reach :
    (e : Epoch) (pids : List ℕ) (sent : List Sent)
    → e.base < length e.leader.log
    → send_to e.leader pids ≡ some sent
    → Reach e (moved e e.leader sent)
unfolding send_to
sends-Reach e [] sent begun s =
    subst (λ (ms : List Sent). Reach e (moved e e.leader ms)) (some_inj s) (unmoved e)
sends-Reach e (pid ∷ pids) sent begun s =
    elim (Option-cases (send_append_entries_to e.leader pid)) [
      | inl p ↦
          absurd
            (no_result (send_to e.leader (pid ∷ pids)) sent (send_to_panics e.leader pid pids p) s)
      | inr (req, p) ↦ elim (Option-cases (send_to e.leader pids)) [
        | inl q ↦ absurd (
            no_result (send_to e.leader (pid ∷ pids)) sent (send_to_stops e.leader pid pids req p q)
              s)
        | inr (more, q) ↦
            subst (λ (ms : List Sent). Reach e (moved e e.leader ms))
              (some_inj (sym (send_to_next e.leader pid pids req more p q) ∙ s))
              (moved_twice e e.leader e.leader ((pid, req) ∷ []) more
                (next here (send pid req begun p))
                (sends-Reach (moved e e.leader ((pid, req) ∷ [])) pids more begun q))
      ]
    ]

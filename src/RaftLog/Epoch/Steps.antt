-- ===== src/RaftLog/Epoch/Steps.antt =====
-- A proposal, and a request that a node hears, keep what is true of one leader's term of
-- internal/consensus/consensus.go.
use ensemble_chat.Common.{
  ℕ, ◌≡◌, inl, inr, ap, ◌∙◌, subst, some, true, List, [], ◌∷◌, ◌++◌, arith, length-append, String,
}
use ensemble_chat.Common.Family.{update}
use ensemble_chat.Types.{LogEntry, ChangeType, AppendEntriesRequest, AppendEntriesResponse}
use ensemble_chat.RaftLog.{RaftLog, handle_append_entries}
use ensemble_chat.RaftLog.Proposal.{Sent, new_entry}
use ensemble_chat.RaftLog.Waiting.{appended}
use ensemble_chat.RaftLog.Epoch.{Epoch}
use ensemble_chat.RaftLog.Epoch.Prefixes.{get_elem?-last}
use ensemble_chat.RaftLog.Epoch.Invariant.{
  AllOf, AllOf-append, AllOf-map, mem, Honest, Reported, Truthful, InRange, IsEpoch, Follows-extend,
  Honest-extend, Reported-extend, Truthful-extend,
}
use ensemble_chat.RaftLog.Epoch.Following.{handle-Heard}
use ensemble_chat.RaftLog.Epoch.Growing.{
  update-Follows, update-Grown, Reported-Grown, Truthful-Grown,
}

pub propose-IsEpoch :
    (term : ℕ) (e : Epoch) (change : ChangeType) (key value : String)
    → IsEpoch term e
    → IsEpoch term (record e { leader = appended e.leader change key value })
unfolding appended new_entry
propose-IsEpoch term e change key value h =
    let log = e.leader.log in
    let x = new_entry e.leader change key value in
    let nexts : (f : ℕ) → InRange (log ++ x ∷ []) (e.leader.next_index f) =
      λ f. let (k, eq, l) = h.nexts f in (k, eq, omega (arith, l, length-append log (x ∷ []))) in
    record {
      now = h.now;
      long = omega (arith, h.long, length-append log (x ∷ []));
      fresh = λ i y l g. elim (get_elem?-last log x y i g) [
        | inl g' ↦ h.fresh i y l g'
        | inr (_, same) ↦ ap (λ (z : LogEntry). z.term) same ∙ h.now
      ];
      nexts = nexts;
      follows = λ f. Follows-extend term e.base log x h.now f (e.followers f) (h.follows f);
      requests =
          AllOf-map (λ (m : Sent). Honest term e.base log m.1)
            (λ (m : Sent). Honest term e.base (log ++ x ∷ []) m.1) e.requests
            (λ m. Honest-extend term e.base log x h.now m.1) h.requests;
      responses =
          AllOf-map (Truthful term e.base log e.followers)
            (Truthful term e.base (log ++ x ∷ []) e.followers) e.responses
            (λ r. Truthful-extend term e.base log x h.now e.followers r) h.responses;
      reports = λ f m.
          Reported-extend term e.base log x h.now (e.followers f) (e.leader.match_index f)
            (h.reports f m);
    }

-- A leader with the same log.
pub stays-IsEpoch :
    (term : ℕ) (e : Epoch) (ℓ : RaftLog)
    → IsEpoch term e
    → ℓ.log ≡ e.leader.log
    → ℓ.peers ≡ e.leader.peers
    → ℓ.current_term ≡ e.leader.current_term
    → ((f : ℕ) → InRange e.leader.log (ℓ.next_index f))
    → ((f : ℕ)
        → mem f e.leader.peers ≡ true
        → Reported term e.base e.leader.log (e.followers f) (ℓ.match_index f))
    → IsEpoch term (record e { leader = ℓ })
stays-IsEpoch term e ℓ h same peers now nexts reports = record {
  now = now ∙ h.now;
  long = rw same h.long;
  fresh = rw same h.fresh;
  nexts = rw same nexts;
  follows = rw same h.follows;
  requests = rw same h.requests;
  responses = rw same h.responses;
  reports = rw (same, peers) reports;
}

-- More requests of the leader.
pub sends-IsEpoch :
    (term : ℕ) (e : Epoch) (sent : List Sent)
    → IsEpoch term e
    → AllOf (λ (m : Sent). Honest term e.base e.leader.log m.1) sent
    → IsEpoch term (record e { requests = e.requests ++ sent })
sends-IsEpoch term e sent h honest = record {
  now = h.now;
  long = h.long;
  fresh = h.fresh;
  nexts = h.nexts;
  follows = h.follows;
  requests = AllOf-append _ e.requests sent h.requests honest;
  responses = h.responses;
  reports = h.reports;
}

pub deliver-IsEpoch :
    (term : ℕ) (e : Epoch) (f : ℕ) (req : AppendEntriesRequest) (clock : ℕ → ℕ) (r : RaftLog)
    (resp : AppendEntriesResponse)
    → IsEpoch term e
    → Honest term e.base e.leader.log req
    → handle_append_entries (e.followers f) req clock ≡ some (r, resp)
    → IsEpoch term
        (record e { followers = update e.followers f r; responses = e.responses ++ resp ∷ [] })
deliver-IsEpoch term e f req clock r resp h honest eq =
    let log = e.leader.log in
    let heard =
      handle-Heard term e.base log h.long h.fresh f (e.followers f) req clock r resp (h.follows f)
        honest eq in
    let grow = update-Grown term e.base log e.followers f r heard.keeps in
    record {
      now = h.now;
      long = h.long;
      fresh = h.fresh;
      nexts = h.nexts;
      follows = update-Follows term e.base log e.followers f r heard.follows h.follows;
      requests = h.requests;
      responses =
          AllOf-append _ e.responses (resp ∷ [])
            (AllOf-map (Truthful term e.base log e.followers)
              (Truthful term e.base log (update e.followers f r)) e.responses
              (λ x. Truthful-Grown term e.base log e.followers (update e.followers f r) x grow)
              h.responses)
            (
              record {
                begun = omega (arith, honest.beyond, honest.inside);
                in_term = heard.in_term;
                report = elim heard.report [
                  | inl s ↦ inl s
                  | inr p ↦
                      inr
                        (subst (λ x. Reported term e.base log x resp.match_index) (here heard.to) p)
                ];
              },
              tt,
            );
      reports = λ g m.
          Reported-Grown term e.base log (e.followers g) (update e.followers f r g)
            (e.leader.match_index g) (grow g) (h.reports g m);
    }
  where
    here : resp.follower_id ≡ f → r ≡ update e.followers f r resp.follower_id
    here same = ground (arith, same)

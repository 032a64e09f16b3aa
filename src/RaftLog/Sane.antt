-- ===== src/RaftLog/Sane.antt =====
-- The indices of a Raft log of internal/consensus/consensus.go in range, and the leader's steps on
-- them.
use ensemble_chat.Common.{
  ℕ, zero, suc, ◌≤◌, ◌≡◌, inl, inr, refl, sym, subst, ℤ, pos, negsuc, minus_one, pos_part, suc_ℤ,
  pred_ℤ, ltb_ℤ, eq_pos_part, ◌≤ℤ◌, ◌<ℤ◌, count_to, true, false, Option, none, some, List, [], ◌∷◌,
  length, arith, ltb, Bool-cases,
}
use ensemble_chat.Common.Family.{update}
use ensemble_chat.Types.{AppendEntriesRequest, AppendEntriesResponse}
use ensemble_chat.RaftLog.{
  RaftLog, send_append_entries_to, handle_append_entries_response, try_advance_commit_index,
  apply_committed,
}
use ensemble_chat.RaftLog.Apply.{apply_committed_replays}
use ensemble_chat.RaftLog.Replication.{request_at, send_request}
use ensemble_chat.RaftLog.Leader.{try_advance_commits_last}
use ensemble_chat.RaftLog.Proposal.{Sent, send_to}

-- Every next index is in range, and what is applied is committed, and what is committed is in the log.
pub record IsSane (r : RaftLog) : Type 0 where
  pub nexts : (f : ℕ) → pos 0 ≤ℤ r.next_index f
  pub low : minus_one ≤ℤ r.last_applied
  pub applied : r.last_applied ≤ℤ r.commit_index
  pub held : count_to r.commit_index ≤ length r.log

-- Nothing but the indices has changed.
pub record SameLog (r r' : RaftLog) : Type 0 where
  pub log : r'.log ≡ r.log
  pub peers : r'.peers ≡ r.peers

send_total :
    (r : RaftLog) (f : ℕ)
    → IsSane r
    → (req : AppendEntriesRequest) × (send_append_entries_to r f ≡ some req)
send_total r f s =
    let k = pos_part (r.next_index f) in
    (request_at r k, send_request r f k (eq_pos_part (r.next_index f) (s.nexts f)))

pub send_to_total :
    (r : RaftLog) (pids : List ℕ) → IsSane r → (sent : List Sent) × (send_to r pids ≡ some sent)
unfolding send_to
send_to_total r [] s = ([], refl)
send_to_total r (pid ∷ pids) s =
    let (req, e) = send_total r pid s in
    let (sent, e') = send_to_total r pids s in ((pid, req) ∷ sent, rw (e, send_to) (rw e' refl))

suc_low : (a : ℤ) → minus_one ≤ℤ a → pos 0 ≤ℤ suc_ℤ a
suc_low (pos n) h = omega arith
suc_low (negsuc zero) h = omega arith
suc_low (negsuc (suc n)) h = absurd (omega arith)

pred_high : (a : ℤ) → pos 0 <ℤ a → pos 0 ≤ℤ pred_ℤ a
pred_high (pos zero) h = absurd (omega arith)
pred_high (pos (suc n)) h = omega arith
pred_high (negsuc n) h = absurd (omega arith)

advance-IsSane :
    (r : RaftLog)
    → IsSane r
    → IsSane (try_advance_commit_index r) × SameLog r (try_advance_commit_index r)
advance-IsSane r s = elim (try_advance_commits_last r) [
  | inl same ↦
      subst (λ r'. IsSane r' × SameLog r r') (sym same.0) (s, record { log = refl; peers = refl })
  | inr (n, l, c, _, e) ↦
      subst (λ r'. IsSane r' × SameLog r r') (sym e)
        (
          record {
            nexts = s.nexts;
            low = s.low;
            applied = omega (arith, s.applied, c.is_new);
            held = omega arith;
          },
          record { log = refl; peers = refl },
        )
]

set_next :
    (r : RaftLog) (f : ℕ) (v : ℤ)
    → IsSane r
    → pos 0 ≤ℤ v
    → (g : ℕ) → pos 0 ≤ℤ update r.next_index f v g
set_next r f v s h g = ground (arith, h, s.nexts g)

refused_steps :
    (r : RaftLog) (resp : AppendEntriesResponse) (req : AppendEntriesRequest)
    → ltb r.current_term resp.term ≡ false
    → resp.success ≡ false
    → ltb_ℤ (pos 0) (r.next_index resp.follower_id) ≡ true
    → let r' : RaftLog = record r {
      next_index = update r.next_index resp.follower_id (pred_ℤ (r.next_index resp.follower_id));
    } in
      send_append_entries_to r' resp.follower_id ≡ some req
      → handle_append_entries_response r resp ≡ some (r', some req)
unfolding handle_append_entries_response
refused_steps r resp req now refused positive e = ground (arith, now, refused, positive, e)

refused_stays :
    (r : RaftLog) (resp : AppendEntriesResponse) (req : AppendEntriesRequest)
    → ltb r.current_term resp.term ≡ false
    → resp.success ≡ false
    → ltb_ℤ (pos 0) (r.next_index resp.follower_id) ≡ false
    → send_append_entries_to r resp.follower_id ≡ some req
    → handle_append_entries_response r resp ≡ some (r, some req)
unfolding handle_append_entries_response
refused_stays r resp req now refused none_left e = ground (arith, now, refused, none_left, e)

-- What the leader has after a response: the higher term of another node, the follower's new indices, or
-- one less to try.
pub response_total :
    (r : RaftLog) (resp : AppendEntriesResponse)
    → IsSane r
    → minus_one ≤ℤ resp.match_index
    → (r' : RaftLog) × (again : Option AppendEntriesRequest) × (handle_append_entries_response r
          resp
        ≡ some (r', again))
      × IsSane r'
      × SameLog r r'
unfolding handle_append_entries_response
response_total r resp s h = elim (Bool-cases (ltb r.current_term resp.term)) [
  | inl later ↦ (
    record r { is_leader = false; current_term = resp.term },
    none,
    rw (later, handle_append_entries_response) refl,
    record { nexts = s.nexts; low = s.low; applied = s.applied; held = s.held },
    record { log = refl; peers = refl },
  )
  | inr now ↦ elim (Bool-cases resp.success) [
    | inl ok ↦
        let r1 : RaftLog = record r {
          match_index = update r.match_index resp.follower_id resp.match_index;
          next_index = update r.next_index resp.follower_id (suc_ℤ resp.match_index);
        } in
        let (s', l) = advance-IsSane r1 (record {
          nexts =
              set_next r resp.follower_id (suc_ℤ resp.match_index) s (suc_low resp.match_index h);
          low = s.low;
          applied = s.applied;
          held = s.held;
        }) in
        (
          try_advance_commit_index r1,
          none,
          simp (now, ok, handle_append_entries_response),
          s',
          record { log = l.log; peers = l.peers },
        )
    | inr refused ↦ elim (Bool-cases (ltb_ℤ (pos 0) (r.next_index resp.follower_id))) [
      | inl positive ↦
          let r1 : RaftLog = record r {
            next_index =
                update r.next_index resp.follower_id (pred_ℤ (r.next_index resp.follower_id));
          } in
          let s1 : IsSane r1 = record {
            nexts =
                set_next r resp.follower_id (pred_ℤ (r.next_index resp.follower_id)) s
                  (pred_high (r.next_index resp.follower_id) (ground arith));
            low = s.low;
            applied = s.applied;
            held = s.held;
          } in
          let (req, e) = send_total r1 resp.follower_id s1 in
          (
            r1,
            some req,
            refused_steps r resp req now refused positive e,
            s1,
            record { log = refl; peers = refl },
          )
      | inr zero_next ↦
          let (req, e) = send_total r resp.follower_id s in
          (
            r,
            some req,
            refused_stays r resp req now refused zero_next e,
            s,
            record { log = refl; peers = refl },
          )
    ]
  ]
]

pub apply_total :
    (r : RaftLog) (clock : ℕ → ℕ)
    → IsSane r
    → (r' : RaftLog) × (apply_committed r clock ≡ some r')
      × IsSane r'
      × SameLog r r'
      × (r'.commit_index ≡ r.commit_index)
      × (r'.last_applied ≡ r.commit_index)
apply_total r clock s = (
  _,
  apply_committed_replays r clock s.low s.applied s.held,
  record {
    nexts = s.nexts;
    low = omega (arith, s.low, s.applied);
    applied = omega arith;
    held = s.held;
  },
  record { log = refl; peers = refl },
  refl,
  refl,
)

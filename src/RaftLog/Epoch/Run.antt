-- ===== src/RaftLog/Epoch/Run.antt =====
-- A term of internal/consensus/consensus.go in which node 1 refuses a request, gets the whole log and lets
-- the leader commit, and node 2 catches up.
use ensemble_chat.Common.{
  ℕ, zero, suc, ◌+◌, ◌<◌, ◌≡◌, refl, pos, minus_one, true, false, some, none, [], ◌∷◌, ◌++◌,
  get_elem?, arith,
}
use ensemble_chat.Common.Family.{update}
use ensemble_chat.Types.{
  RoutingTable, add_room, add_server, LogEntry, AppendEntriesResponse, new_routing_table,
}
use ensemble_chat.RaftLog.{
  RaftLog, set_all, become_leader, handle_append_entries, handle_append_entries_response,
  send_append_entries_to, check_previous, accept, merge, follow_commit, apply_committed, apply_loop,
  apply_entry, try_advance_commit_index, advance_from, can_commit, replicas,
}
use ensemble_chat.RaftLog.Replication.{request_at}
use ensemble_chat.RaftLog.Proposal.{new_entry}
use ensemble_chat.RaftLog.Waiting.{appended}
use ensemble_chat.RaftLog.Epoch.{
  Epoch, propose, send, hear, finish, deliver, Reach, here, next, start,
}
use ensemble_chat.RaftLog.Epoch.Heard.{Agrees}
use ensemble_chat.RaftLog.Epoch.Safety.{IsFresh}

abbrev pub old_entry : LogEntry
old_entry = record { term = 1; index = 0; change = add_server; key = "s1"; value = "host:1" }

abbrev pub clock : ℕ → ℕ
clock i = i + 100

abbrev pub elected : RaftLog
elected = record {
  node_id = 0;
  is_leader = false;
  current_term = 1;
  log = old_entry ∷ [];
  commit_index = minus_one;
  last_applied = minus_one;
  next_index = λ _. pos 0;
  match_index = λ _. pos 0;
  routing_table = new_routing_table;
  peers = 1 ∷ 2 ∷ [];
}

abbrev pub nodes : ℕ → RaftLog
nodes f = record elected { node_id = f; log = []; peers = 0 ∷ 1 ∷ 2 ∷ [] }

pub elected-IsFresh : IsFresh elected 2 nodes
elected-IsFresh = record {
  earlier = only;
  same_id = λ f. refl;
  in_term = λ f. omega arith;
  low = λ f. omega arith;
  old = λ f i x g. absurd (cc);
  matches = λ f i x y g. absurd (cc);
  unset = λ f m. refl;
}
  where
    only : (i : ℕ) (x : LogEntry) → get_elem? (old_entry ∷ []) i ≡ some x → x.term < 2
    only zero x g = ground arith
    only (suc i) x g = absurd (cc)

abbrev pub begun : Epoch
begun = start elected 2 nodes

abbrev pub drafted : Epoch
drafted = record begun { leader = appended begun.leader add_room "go" "host:1" }

abbrev pub half_sent : Epoch
half_sent = record drafted { requests = (1, request_at drafted.leader 1) ∷ [] }

abbrev pub proposed : Epoch
proposed = record half_sent {
  requests = (1, request_at drafted.leader 1) ∷ (2, request_at drafted.leader 1) ∷ [];
}

-- Node 1 has no entry before the new one.
abbrev pub refusal : AppendEntriesResponse
refusal = record { term = 2; success = false; follower_id = 1; match_index = minus_one }

abbrev pub refused : Epoch
refused = record proposed {
  followers = update nodes 1 (record (nodes 1) { current_term = 2 });
  responses = refusal ∷ [];
}

abbrev pub backed : Epoch
backed = record refused {
  leader = record refused.leader { next_index = update refused.leader.next_index 1 (pos 0) };
  requests = refused.requests ++ (1, request_at refused.leader 0) ∷ [];
}

abbrev pub success : AppendEntriesResponse
success = record { term = 2; success = true; follower_id = 1; match_index = pos 1 }

abbrev pub replicated : Epoch
replicated = record backed {
  followers = update backed.followers 1 (record (backed.followers 1) { log = backed.leader.log });
  responses = refusal ∷ success ∷ [];
}

abbrev pub committed : Epoch
committed = record replicated {
  leader = record replicated.leader {
    match_index = update replicated.leader.match_index 1 (pos 1);
    next_index = update replicated.leader.next_index 1 (pos 2);
    commit_index = pos 1;
  };
}

-- What the two entries make of the routing table.
abbrev pub table : RoutingTable
table =
    apply_entry (apply_entry new_routing_table old_entry (clock 0))
      (new_entry begun.leader add_room "go" "host:1") (clock 1)

abbrev pub applied : Epoch
applied = record committed {
  leader = record committed.leader { last_applied = pos 1; routing_table = table };
}

abbrev pub finished : Epoch
finished = record applied { requests = applied.requests ++ (1, request_at applied.leader 2) ∷ [] }

abbrev pub up_to_date : RaftLog → RaftLog
up_to_date r = record r {
  current_term = 2;
  log = finished.leader.log;
  commit_index = pos 1;
  last_applied = pos 1;
  routing_table = table;
}

-- Node 1 hears of the commit; node 2 refuses, and then gets the whole log.
abbrev pub told : Epoch
told = record finished {
  followers = update finished.followers 1 (up_to_date (nodes 1));
  responses = finished.responses ++ success ∷ [];
}

abbrev pub refusal_2 : AppendEntriesResponse
refusal_2 = record { term = 2; success = false; follower_id = 2; match_index = minus_one }

abbrev pub refused_2 : Epoch
refused_2 = record told {
  followers = update told.followers 2 (record (nodes 2) { current_term = 2 });
  responses = told.responses ++ refusal_2 ∷ [];
}

abbrev pub backed_2 : Epoch
backed_2 = record refused_2 {
  leader = record refused_2.leader { next_index = update refused_2.leader.next_index 2 (pos 0) };
  requests = refused_2.requests ++ (2, request_at refused_2.leader 0) ∷ [];
}

abbrev pub success_2 : AppendEntriesResponse
success_2 = record { term = 2; success = true; follower_id = 2; match_index = pos 1 }

abbrev pub agreed : Epoch
agreed = record backed_2 {
  followers = update backed_2.followers 2 (up_to_date (nodes 2));
  responses = backed_2.responses ++ success_2 ∷ [];
}

pub committed-Reach : Reach (start elected 2 nodes) committed
unfolding start become_leader set_all appended new_entry send_append_entries_to
    handle_append_entries check_previous accept merge follow_commit handle_append_entries_response
    try_advance_commit_index advance_from can_commit replicas apply_committed apply_loop apply_entry
committed-Reach =
    next {t = committed}
      (next {t = replicated}
        (next {t = backed}
          (next {t = refused}
            (next {t = proposed}
              (next {t = half_sent} (next {t = drafted} here (propose add_room "go" "host:1" refl))
                (send 1 (request_at drafted.leader 1) (omega arith) refl))
              (send 2 (request_at drafted.leader 1) (omega arith) refl))
            (deliver [] 1 (request_at proposed.leader 1) ((2, request_at proposed.leader 1) ∷ [])
              clock (refused.followers 1) refusal refl refl))
          (hear [] refusal [] backed.leader (some (request_at refused.leader 0)) refl refl))
        (deliver refused.requests 1 (request_at refused.leader 0) [] clock (replicated.followers 1)
          success refl refl))
      (hear (refusal ∷ []) success [] committed.leader none refl refl)

pub agreed-Reach : Reach (start elected 2 nodes) agreed
unfolding start become_leader set_all appended new_entry send_append_entries_to
    handle_append_entries check_previous accept merge follow_commit handle_append_entries_response
    try_advance_commit_index advance_from can_commit replicas apply_committed apply_loop apply_entry
agreed-Reach =
    next {t = agreed}
      (next {t = backed_2}
        (next {t = refused_2}
          (next {t = told}
            (next {t = finished}
              (next {t = applied} committed-Reach (finish 1 clock applied.leader refl refl))
              (send 1 (request_at applied.leader 2) (omega arith) refl))
            (deliver committed.requests 1 (request_at applied.leader 2) [] clock (told.followers 1)
              success refl refl))
          (deliver ((1, request_at proposed.leader 1) ∷ []) 2 (request_at proposed.leader 1)
            ((1, request_at refused.leader 0) ∷ (1, request_at applied.leader 2) ∷ []) clock
            (refused_2.followers 2) refusal_2 refl refl))
        (hear told.responses refusal_2 [] backed_2.leader (some (request_at refused_2.leader 0))
          refl refl))
      (deliver refused_2.requests 2 (request_at refused_2.leader 0) [] clock (agreed.followers 2)
        success_2 refl refl)

pub nodes-Agrees : (f : ℕ) → Agrees elected.log (nodes f)
nodes-Agrees f = (0, refl, omega arith, refl)

-- ===== src/RaftLog/Examples.antt =====
-- Logs of internal/consensus/consensus.go, and the theorems at them.
use ensemble_chat.Common.{
  get_elem?, none, str_eq_iff, List, ℕ, zero, suc, ◌+◌, ◌≤◌, ◌<◌, ◌≡◌, ◌≢◌, ◌⊎◌, refl, ap, pos,
  minus_one, pos_part, pred_ℤ, ◌≤ℤ◌, ◌<ℤ◌, true, false, some, some_inj, [], ◌∷◌, length, take,
  arith, Bool, map, ◌++◌,
}
use ensemble_chat.Common.Family.{update}
use ensemble_chat.Types.{
  add_room, add_server, LogEntry, AppendEntriesRequest, AppendEntriesResponse, new_routing_table,
}
use ensemble_chat.RaftLog.{
  RaftLog, handle_append_entries_response, term_at, respond, handle_append_entries, apply_committed,
  try_advance_commit_index,
}
use ensemble_chat.RaftLog.Apply.{replay, last_of, apply_committed_replays}
use ensemble_chat.RaftLog.Merge.{Matching, Verdict, merge_lem}
use ensemble_chat.RaftLog.Rules.{Accepted}
use ensemble_chat.RaftLog.Follower.{Fits, handle_append_entries_cases}
use ensemble_chat.RaftLog.CatchUp.{catch_up, catch_up_replicates}
use ensemble_chat.RaftLog.Leader.{IsCommittable, try_advance_commits_last}
use ensemble_chat.RaftLog.Replication.{request_at}
use ensemble_chat.RaftLog.Sane.{IsSane}
use ensemble_chat.RaftLog.Proposal.{new_entry, Sent, response, propose_entry}
use ensemble_chat.RaftLog.Waiting.{appended, propose_entry_commits}
use ensemble_chat.RaftLog.Divergence.{two_leaders_diverge}
use ensemble_chat.RaftLog.Extra.{extra_entries_reported}
use ensemble_chat.RaftLog.Answers.{handle_append_entries_answers}

abbrev first : LogEntry
first = record { term = 1; index = 0; change = add_server; key = "s1"; value = "host:1" }

abbrev second : LogEntry
second = record { term = 2; index = 1; change = add_room; key = "go"; value = "host:1" }

-- An entry that a deposed leader left in the log of a follower.
abbrev stale : LogEntry
stale = record { term = 1; index = 1; change = add_room; key = "old"; value = "host:9" }

abbrev clock : ℕ → ℕ
clock i = i + 100

abbrev leading : RaftLog
leading = record {
  node_id = 0;
  is_leader = true;
  current_term = 2;
  log = first ∷ second ∷ [];
  commit_index = pos 0;
  last_applied = pos 0;
  next_index = λ _. pos 2;
  match_index = update (λ _. minus_one) 2 (pos 1);
  routing_table = new_routing_table;
  peers = 1 ∷ 2 ∷ [];
}

abbrev behind : RaftLog
behind = record {
  node_id = 1;
  is_leader = false;
  current_term = 1;
  log = first ∷ stale ∷ [];
  commit_index = minus_one;
  last_applied = minus_one;
  next_index = λ _. pos 0;
  match_index = λ _. pos 0;
  routing_table = new_routing_table;
  peers = 0 ∷ 2 ∷ [];
}

logs_match : Matching behind.log leading.log
logs_match zero x y g h e = refl
logs_match (suc zero) x y g h e = absurd (
    omega (
      arith,
      e,
      ap (λ (z : LogEntry). z.term) (some_inj g),
      ap (λ (z : LogEntry). z.term) (some_inj h),
    ))
logs_match (suc (suc i)) x y g h e = cc

catch_up_replicates_example :
    (ℓ : RaftLog) × (r : RaftLog) × (catch_up 3 leading 1 behind clock ≡ some (ℓ, r))
    × (take 2 r.log ≡ first ∷ second ∷ [])
catch_up_replicates_example =
    catch_up_replicates 2 leading 1 behind clock refl (omega arith) refl (omega arith) (omega arith)
      logs_match

try_advance_commits_last_example :
    ((try_advance_commit_index leading ≡ leading) × ((m : ℕ) → m < 2 → IsCommittable leading m → ⊥))
    ⊎ ((n : ℕ) × (n < 2)
        × IsCommittable leading n
        × ((m : ℕ) → m < 2 → IsCommittable leading m → m ≤ n)
        × (try_advance_commit_index leading ≡ record leading { commit_index = pos n }))
try_advance_commits_last_example = try_advance_commits_last leading

abbrev ahead : RaftLog
ahead = record leading { commit_index = pos 1; last_applied = minus_one }

apply_committed_replays_example :
    apply_committed ahead clock
    ≡ some (record ahead {
      last_applied = pos 1;
      routing_table = replay new_routing_table (first ∷ second ∷ []) 0 clock;
    })
apply_committed_replays_example =
    apply_committed_replays ahead clock (omega arith) (omega arith) (omega arith)

abbrev asked : AppendEntriesRequest
asked = record {
  term = 2;
  leader_id = 0;
  prev_log_index = pos 0;
  prev_log_term = pos 1;
  entries = second ∷ [];
  leader_commit = pos 0;
}

handle_append_entries_cases_example :
    ((asked.term < behind.current_term)
      × (handle_append_entries behind asked clock ≡ some (behind, respond behind false minus_one)))
    ⊎ ((behind.current_term ≤ asked.term)
        × (pos 0 ≤ℤ asked.prev_log_index)
        × (pos (length behind.log) ≤ℤ asked.prev_log_index)
        × (handle_append_entries behind asked clock
            ≡ some (
              record behind { current_term = asked.term },
              respond
                  (record behind { current_term = asked.term })
                  false
                  (last_of (length behind.log)),
            )))
    ⊎ ((behind.current_term ≤ asked.term)
        × (pos 0 ≤ℤ asked.prev_log_index)
        × (asked.prev_log_index <ℤ pos (length behind.log))
        × (term_at behind.log asked.prev_log_index ≢ asked.prev_log_term)
        × (handle_append_entries behind asked clock
            ≡ some (
              record behind {
                current_term = asked.term;
                log = take (pos_part asked.prev_log_index) behind.log;
              },
              respond
                  (record behind { current_term = asked.term })
                  false
                  (pred_ℤ asked.prev_log_index),
            )))
    ⊎ ((behind.current_term ≤ asked.term)
        × Fits behind asked
        × Accepted
            (record behind { current_term = asked.term })
            asked
            clock
            (handle_append_entries behind asked clock))
handle_append_entries_cases_example = handle_append_entries_cases behind asked clock

handle_append_entries_answers_example :
    (r : RaftLog) × (resp : AppendEntriesResponse) × (handle_append_entries behind asked clock
      ≡ some (r, resp))
    × (resp.term ≡ r.current_term)
    × (r.current_term ≡ 2)
    × (resp.follower_id ≡ 1)
    × (r.is_leader ≡ false)
handle_append_entries_answers_example =
    handle_append_entries_answers behind asked clock (omega arith) (omega arith)

merge_lem_example : Verdict (first ∷ stale ∷ []) (first ∷ []) (second ∷ []) (first ∷ second ∷ [])
merge_lem_example =
    merge_lem (first ∷ stale ∷ []) (first ∷ []) (second ∷ []) logs_match (omega arith) refl

abbrev proposing : RaftLog
proposing = record leading { commit_index = pos 1; last_applied = pos 1 }

proposing-IsSane : IsSane proposing
proposing-IsSane = record {
  nexts = λ f. omega arith;
  low = omega arith;
  applied = omega arith;
  held = omega arith;
}

abbrev acknowledged : AppendEntriesResponse
acknowledged = record { term = 2; success = true; follower_id = 1; match_index = pos 2 }

propose_entry_commits_example :
    (r : RaftLog) × (done : Bool) × (sent : List Sent) × (propose_entry proposing add_room "chess"
        "host:2" clock
        (map response (acknowledged ∷ []))
      ≡ some (r, done, sent))
    × (r.log ≡ proposing.log ++ new_entry proposing add_room "chess" "host:2" ∷ [])
    × ((done ≡ false)
        ⊎ ((done ≡ true) × (pos 2 ≤ℤ r.commit_index) × (r.last_applied ≡ r.commit_index)))
propose_entry_commits_example =
    propose_entry_commits proposing add_room "chess" "host:2" clock (acknowledged ∷ []) refl
      proposing-IsSane (omega arith, tt)

abbrev shorter : RaftLog
shorter = record leading { log = first ∷ [] }

extra_entries_reported_example :
    (r : RaftLog) × (resp : AppendEntriesResponse) × (handle_append_entries behind
        (request_at shorter 1)
        clock
      ≡ some (r, resp))
    × (r.log ≡ first ∷ stale ∷ [])
    × (resp.success ≡ true)
    × (resp.match_index ≡ pos 1)
extra_entries_reported_example =
    extra_entries_reported behind shorter (stale ∷ []) clock refl (omega arith) (omega arith)

-- Node 1 has been a leader and proposes in the term of node 0.
abbrev deposed : RaftLog
deposed = record proposing { node_id = 1; peers = 0 ∷ 2 ∷ [] }

deposed-IsSane : IsSane deposed
deposed-IsSane = record {
  nexts = λ f. omega arith;
  low = omega arith;
  applied = omega arith;
  held = omega arith;
}

chess_go : new_entry deposed add_room "chess" "host:1" ≢ new_entry proposing add_room "go" "host:2"
unfolding new_entry
chess_go e =
    let same : "chess" ≡ "go" = ap (λ (x : LogEntry). x.key) e in
    ground (arith, same, str_eq_iff "chess" "go")

two_leaders_diverge_example :
    let leader : RaftLog = appended proposing add_room "go" "host:2" in
    (r : RaftLog) × (r' : RaftLog) × (sent : List Sent) × (resp : AppendEntriesResponse)
    × (leader' : RaftLog) × (propose_entry deposed add_room "chess" "host:1" clock []
        ≡ some (r, false, sent))
    × (handle_append_entries r (request_at leader 2) clock ≡ some (r', resp))
    × (resp.success ≡ true)
    × (resp.match_index ≡ pos 2)
    × (get_elem? r'.log 2 ≡ some (new_entry deposed add_room "chess" "host:1"))
    × (get_elem? r'.log 2 ≢ get_elem? leader.log 2)
    × (handle_append_entries_response leader resp ≡ some (leader', none))
    × (leader'.match_index 1 ≡ pos 2)
two_leaders_diverge_example =
    two_leaders_diverge deposed proposing add_room add_room "chess" "host:1" "go" "host:2" clock
      refl refl refl deposed-IsSane chess_go

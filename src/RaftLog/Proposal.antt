-- ===== src/RaftLog/Proposal.antt =====
-- `ProposeEntry` of internal/consensus/consensus.go, from the leader's append to the commit. While it
-- waits, the mutex is free: what the other methods do to the log meanwhile is part of the events.
use ensemble_chat.Common.{
  ℕ, pos, leb_ℤ, Bool, true, false, Option, none, some, List, [], ◌∷◌, ◌++◌, String, length,
  if◌then◌else◌,
}
use ensemble_chat.Types.{ChangeType, LogEntry, AppendEntriesRequest, AppendEntriesResponse}
use ensemble_chat.RaftLog.{
  RaftLog, become_leader, become_follower, send_append_entries_to, apply_committed,
  handle_append_entries_response, handle_append_entries,
}

-- The entry that `ProposeEntry` appends.
unfoldable pub new_entry : RaftLog → ChangeType → (key value : String) → LogEntry
new_entry r change key value = record {
  term = r.current_term;
  index = length r.log;
  change = change;
  key = key;
  value = value;
}

-- A message with its addressee.
abbrev pub Sent : Type 0
Sent = ℕ × AppendEntriesRequest

-- `sendAppendEntriesToAll`, peer by peer.
unfoldable pub send_to : RaftLog → List ℕ → Option (List Sent)
unfolding send_append_entries_to
send_to r [] = some []
send_to r (pid ∷ pids) = elim (send_append_entries_to r pid) [
  | none ↦ none
  | some req ↦ elim (send_to r pids) [ none ↦ none | some reqs ↦ some ((pid, req) ∷ reqs) ]
]

-- What `waitForMajority` meets: a response from the channel, the deadline or the stop, or a call of
-- another method by another goroutine.
pub data WaitEvent : Type 0 where
  response : AppendEntriesResponse → WaitEvent
  gives_up : WaitEvent
  append_entries : AppendEntriesRequest → WaitEvent
  leads : (term : ℕ) → WaitEvent
  follows : (term : ℕ) → WaitEvent

-- The request that goes out again after a refusal.
abbrev pub retry : ℕ → Option AppendEntriesRequest → List Sent
retry follower_id none = []
retry follower_id (some req) = (follower_id, req) ∷ []

abbrev pub send_more :
    List Sent → Option (RaftLog × Bool × List Sent) → Option (RaftLog × Bool × List Sent)
send_more sent none = none
send_more sent (some (r, done, more)) = some (r, done, sent ++ more)

-- The state when the wait ends, whether the entry is committed, and what was sent. No more events:
-- the deadline passes.
unfoldable pub wait_for_majority :
    RaftLog
    → (target_index : ℕ) → (clock : ℕ → ℕ) → List WaitEvent
    → Option (RaftLog × Bool × List Sent)
unfolding handle_append_entries_response handle_append_entries apply_committed
wait_for_majority r target_index clock [] = some (r, false, [])
wait_for_majority r target_index clock (response resp ∷ es) =
    elim (handle_append_entries_response r resp) [
      | none ↦ none
      | some (r', req) ↦ elim (leb_ℤ (pos target_index) r'.commit_index) [
        | true ↦ elim (apply_committed r' clock) [
          | none ↦ none
          | some r'' ↦ some (r'', true, retry resp.follower_id req)
        ]
        | false ↦
            send_more (retry resp.follower_id req) (wait_for_majority r' target_index clock es)
      ]
    ]
wait_for_majority r target_index clock (gives_up ∷ es) = some (r, false, [])
wait_for_majority r target_index clock (append_entries req ∷ es) =
    elim (handle_append_entries r req clock) [
      | none ↦ none
      | some (r', resp) ↦ wait_for_majority r' target_index clock es
    ]
wait_for_majority r target_index clock (leads term ∷ es) =
    wait_for_majority (become_leader r term) target_index clock es
wait_for_majority r target_index clock (follows term ∷ es) =
    wait_for_majority (become_follower r term) target_index clock es

-- The last round, which tells the followers of the new commit index.
unfoldable pub announce : RaftLog × Bool × List Sent → Option (RaftLog × Bool × List Sent)
unfolding send_to
announce (r, false, sent) = some (r, false, sent)
announce (r, true, sent) = elim (send_to r r.peers) [
  | none ↦ none
  | some more ↦ some (r, true, sent ++ more)
]

unfoldable pub propose_entry :
    RaftLog
    → ChangeType
    → (key value : String) → (clock : ℕ → ℕ) → List WaitEvent
    → Option (RaftLog × Bool × List Sent)
unfolding new_entry send_to wait_for_majority announce
propose_entry r change key value clock es =
    if r.is_leader
    then (let r' : RaftLog = record r { log = r.log ++ new_entry r change key value ∷ [] } in
        elim (send_to r' r'.peers) [
          | none ↦ none
          | some sent ↦ elim (wait_for_majority r' (length r.log) clock es) [
            | none ↦ none
            | some (r'', done, more) ↦ announce (r'', done, sent ++ more)
          ]
        ])
    else some (r, false, [])

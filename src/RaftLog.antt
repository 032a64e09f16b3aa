-- ===== src/RaftLog.antt =====
-- internal/consensus/consensus.go: one node of the Raft log replication. The methods run under the
-- log's mutex, so each is one function on its state. A Go panic (an index or a slice out of range) is
-- `none`. The messages that a method sends and the responses that it gives are part of its result.
-- `clock i` is the time at which the entry at position `i` is applied.
pub mod Proposal
pub mod Apply
pub mod Applied
pub mod Merge
pub mod Rules
pub mod Follower
pub mod Commits
pub mod Exchange
pub mod Replication
pub mod CatchUp
pub mod Leader
pub mod Answers
pub mod Sane
pub mod Waiting
pub mod Extra
pub mod Divergence
pub mod Epoch
mod Examples
use ensemble_chat.Common.{
  ℕ, zero, suc, ◌+◌, ◌-◌, ◌/◌, ℤ, pos, negsuc, minus_one, pos_part, neg_part, suc_ℤ, pred_ℤ, ltb_ℤ,
  leb_ℤ, eq_ℤ, Bool, true, false, not, ◌&&◌, Option, none, some, List, [], ◌∷◌, ◌++◌, String,
  insert, length, get_elem?, take, drop, ltb, leb, ◌==◌, if◌then◌else◌,
}
use ensemble_chat.Common.Family.{update}
use ensemble_chat.Types.{
  ChangeType, add_server, add_room, LogEntry, AppendEntriesRequest, AppendEntriesResponse,
  RoutingEntry, RoutingTable, new_routing_table,
}

-- ReplicationTimeout, in nanoseconds.
abbrev pub replication_timeout : ℕ
replication_timeout = 5_000_000_000

-- The maps read 0 at a key that is not set.
pub record RaftLog : Type 0 where
  pub node_id : ℕ
  pub is_leader : Bool
  pub current_term : ℕ
  pub log : List LogEntry
  pub commit_index : ℤ
  pub last_applied : ℤ
  pub next_index : ℕ → ℤ
  pub match_index : ℕ → ℤ
  pub routing_table : RoutingTable
  pub peers : List ℕ

unfoldable pub new_raft_log : (node_id : ℕ) (peers : List ℕ) → RaftLog
new_raft_log node_id peers = record {
  node_id = node_id;
  is_leader = false;
  current_term = 0;
  log = [];
  commit_index = minus_one;
  last_applied = minus_one;
  next_index = λ _. pos 0;
  match_index = λ _. pos 0;
  routing_table = new_routing_table;
  peers = peers;
}

-- The loop of `BecomeLeader` over the peers.
unfoldable pub set_all : (ℕ → ℤ) → List ℕ → ℤ → ℕ → ℤ
set_all f [] v = f
set_all f (pid ∷ pids) v = set_all (update f pid v) pids v

unfoldable pub become_leader : RaftLog → (term : ℕ) → RaftLog
unfolding set_all
become_leader r term = record r {
  is_leader = true;
  current_term = term;
  next_index = set_all r.next_index r.peers (pos (length r.log));
  match_index = set_all r.match_index r.peers minus_one;
}

unfoldable pub become_follower : RaftLog → (term : ℕ) → RaftLog
become_follower r term = record r { is_leader = false; current_term = term }

-- `log[i]`, and `log[i:]`
abbrev pub get_entry : List LogEntry → ℤ → Option LogEntry
get_entry log (pos i) = get_elem? log i
get_entry log (negsuc i) = none

abbrev pub slice_from : List LogEntry → ℤ → Option (List LogEntry)
slice_from log (pos i) = some (drop i log)
slice_from log (negsuc i) = none

abbrev pub term_at : List LogEntry → ℤ → ℤ
term_at log i = elim (get_entry log i) [ none ↦ minus_one | some e ↦ pos e.term ]

-- The request that `sendAppendEntriesTo` sends.
unfoldable pub send_append_entries_to : RaftLog → (follower_id : ℕ) → Option AppendEntriesRequest
send_append_entries_to r follower_id =
    let next_idx = r.next_index follower_id in
    elim (if ltb_ℤ next_idx (pos (length r.log)) then slice_from r.log next_idx else some []) [
      | none ↦ none
      | some entries ↦ some (record {
        term = r.current_term;
        leader_id = r.node_id;
        prev_log_index = pred_ℤ next_idx;
        prev_log_term = term_at r.log (pred_ℤ next_idx);
        entries = entries;
        leader_commit = r.commit_index;
      })
    ]

-- `applyEntry`
unfoldable pub apply_entry : RoutingTable → LogEntry → (now : ℕ) → RoutingTable
apply_entry table entry now = elim entry.change [
  | add_room ↦ record table {
    rooms =
        insert entry.key
          (record { room_name = entry.key; server_addr = entry.value; created_at = now })
          table.rooms;
  }
  | add_server ↦ record table { servers = insert entry.key entry.value table.servers }
]

-- The loop of `applyCommitted`, with as much fuel as there are entries to apply.
unfoldable pub apply_loop : (fuel : ℕ) → RaftLog → (clock : ℕ → ℕ) → Option RaftLog
unfolding apply_entry
apply_loop zero r clock = some r
apply_loop (suc fuel) r clock =
    if ltb_ℤ r.last_applied r.commit_index
    then elim (get_entry r.log (suc_ℤ r.last_applied)) [
      | none ↦ none
      | some entry ↦
          apply_loop fuel
            (record r {
              last_applied = suc_ℤ r.last_applied;
              routing_table =
                  apply_entry r.routing_table entry (clock (pos_part (suc_ℤ r.last_applied)));
            })
            clock
    ]
    else some r

-- b - a, or 0 if a is above b.
abbrev pub distance : ℤ → ℤ → ℕ
distance a b = (pos_part b + neg_part a) - (pos_part a + neg_part b)

unfoldable pub apply_committed : RaftLog → (clock : ℕ → ℕ) → Option RaftLog
apply_committed r clock = apply_loop (distance r.last_applied r.commit_index) r clock

-- The leader and the peers whose `matchIndex` reaches entry `n`.
unfoldable pub replicas : (match_index : ℕ → ℤ) → List ℕ → (n : ℕ) → ℕ
replicas match_index [] n = 1
replicas match_index (pid ∷ pids) n =
    replicas match_index pids n + (if leb_ℤ (pos n) (match_index pid) then 1 else 0)

abbrev pub majority : RaftLog → ℕ
majority r = (length r.peers + 1) / 2 + 1

-- The test of `tryAdvanceCommitIndex` at entry `n`.
unfoldable pub can_commit : RaftLog → ℕ → LogEntry → Bool
unfolding replicas
can_commit r n entry =
    entry.term == r.current_term && leb (majority r) (replicas r.match_index r.peers n)

-- The loop of `tryAdvanceCommitIndex`, from entry `k - 1` down.
unfoldable pub advance_from : RaftLog → (k : ℕ) → RaftLog
advance_from r zero = r
advance_from r (suc n) =
    let rest = advance_from r n in
    if ltb_ℤ r.commit_index (pos n)
    then elim (get_elem? r.log n) [
      | none ↦ rest
      | some entry ↦ if can_commit r n entry then record r { commit_index = pos n } else rest
    ]
    else r

unfoldable pub try_advance_commit_index : RaftLog → RaftLog
unfolding advance_from
try_advance_commit_index r = advance_from r (length r.log)

-- With the request that is sent again after a refusal.
unfoldable pub handle_append_entries_response :
    RaftLog → AppendEntriesResponse → Option (RaftLog × Option AppendEntriesRequest)
unfolding try_advance_commit_index send_append_entries_to
handle_append_entries_response r resp =
    if ltb r.current_term resp.term
    then some (record r { is_leader = false; current_term = resp.term }, none)
    else if resp.success
    then some (
      try_advance_commit_index (record r {
        match_index = update r.match_index resp.follower_id resp.match_index;
        next_index = update r.next_index resp.follower_id (suc_ℤ resp.match_index);
      }),
      none,
    )
    else let r' : RaftLog =
        if ltb_ℤ (pos 0) (r.next_index resp.follower_id)
        then record r {
          next_index =
              update r.next_index resp.follower_id (pred_ℤ (r.next_index resp.follower_id));
        }
        else r in
      elim (send_append_entries_to r' resp.follower_id) [
        | none ↦ none
        | some req ↦ some (r', some req)
      ]

-- Rule 3 of `HandleAppendEntries`: the loop over the new entries, from index `log_idx` on.
unfoldable pub merge : List LogEntry → (log_idx : ℤ) → List LogEntry → Option (List LogEntry)
merge log log_idx [] = some log
merge log log_idx (entry ∷ entries) =
    if ltb_ℤ log_idx (pos (length log))
    then elim (get_entry log log_idx) [
      | none ↦ none
      | some old ↦ elim (old.term == entry.term) [
        | true ↦ merge log (suc_ℤ log_idx) entries
        | false ↦ some (take (pos_part log_idx) log ++ entry ∷ entries)
      ]
    ]
    else some (log ++ entry ∷ entries)

-- The new commit index of rule 4, where the leader's is ahead.
abbrev pub commit_limit : List LogEntry → (leader_commit : ℤ) → ℤ
commit_limit log leader_commit =
    if ltb_ℤ leader_commit (pred_ℤ (pos (length log)))
    then leader_commit
    else pred_ℤ (pos (length log))

-- Rule 4.
unfoldable pub follow_commit : RaftLog → (leader_commit : ℤ) → (clock : ℕ → ℕ) → Option RaftLog
unfolding apply_committed
follow_commit r leader_commit clock =
    if ltb_ℤ r.commit_index leader_commit
    then (let r' : RaftLog = record r { commit_index = commit_limit r.log leader_commit } in
        if ltb_ℤ r.commit_index r'.commit_index then apply_committed r' clock else some r')
    else some r

abbrev pub respond : RaftLog → Bool → ℤ → AppendEntriesResponse
respond r success match_index = record {
  term = r.current_term;
  success = success;
  follower_id = r.node_id;
  match_index = match_index;
}

-- Rules 3 and 4, and the answer.
unfoldable pub accept :
    RaftLog → AppendEntriesRequest → (clock : ℕ → ℕ) → Option (RaftLog × AppendEntriesResponse)
unfolding merge follow_commit
accept r req clock = elim (merge r.log (suc_ℤ req.prev_log_index) req.entries) [
  | none ↦ none
  | some log ↦ elim (follow_commit (record r { log = log }) req.leader_commit clock) [
    | none ↦ none
    | some r' ↦ some (r', respond r' true (pred_ℤ (pos (length r'.log))))
  ]
]

-- Rule 2: what is wrong with the entry before the new ones.
pub data Check : Type 0 where
  fits too_short mismatch : Check

unfoldable pub check_previous : List LogEntry → AppendEntriesRequest → Check
check_previous log req =
    if leb_ℤ (pos 0) req.prev_log_index
    then (if leb_ℤ (pos (length log)) req.prev_log_index
        then too_short
        else if eq_ℤ (term_at log req.prev_log_index) req.prev_log_term
        then fits
        else mismatch)
    else fits

unfoldable pub handle_append_entries :
    RaftLog → AppendEntriesRequest → (clock : ℕ → ℕ) → Option (RaftLog × AppendEntriesResponse)
unfolding accept check_previous
handle_append_entries r req clock =
    if ltb req.term r.current_term
    then some (r, respond r false minus_one)
    else let r' : RaftLog = record r { current_term = req.term } in
      elim (check_previous r'.log req) [
        | too_short ↦ some (r', respond r' false (pred_ℤ (pos (length r'.log))))
        | mismatch ↦
            let r'' : RaftLog = record r' { log = take (pos_part req.prev_log_index) r'.log } in
            some (r'', respond r'' false (pred_ℤ (pos (length r''.log))))
        | fits ↦ accept r' req clock
      ]

-- `GetLog`, `GetCommitIndex` and `GetRoutingTable`; a copy of a value is the value.
unfoldable pub get_log : RaftLog → List LogEntry
get_log r = r.log

unfoldable pub get_commit_index : RaftLog → ℤ
get_commit_index r = r.commit_index

unfoldable pub get_routing_table : RaftLog → RoutingTable
get_routing_table r = r.routing_table

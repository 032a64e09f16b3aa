-- ===== src/RaftLog/Epoch.antt =====
-- One term of one leader of internal/consensus/consensus.go: the leader, the other nodes, and the requests
-- and responses between them. A message stays in its list, so it arrives in any order, any number of times,
-- or never. Proposals may overlap: each critical section is a step.
-- Left out are the callbacks `BecomeLeader` and `BecomeFollower` during the term, and a `ProposeEntry` on
-- another node that still takes itself for a leader.
pub mod Prefixes
pub mod Invariant
pub mod Heard
pub mod Accepting
pub mod Refusing
pub mod Following
pub mod Sending
pub mod Counting
pub mod Outcomes
pub mod Leading
pub mod Growing
pub mod Steps
pub mod Reached
pub mod Commit
pub mod Safety
pub mod Agreement
pub mod Sends
pub mod Waits
pub mod Proposing
mod Run
mod ProposalRun
mod Examples
use ensemble_chat.Common.{
  ℕ, ◌≤◌, ◌<◌, ◌≡◌, pos, leb_ℤ, true, Option, none, some, List, [], ◌∷◌, ◌++◌, String, length,
}
use ensemble_chat.Common.Family.{update}
use ensemble_chat.Types.{ChangeType, AppendEntriesRequest, AppendEntriesResponse}
use ensemble_chat.RaftLog.{
  RaftLog, become_leader, send_append_entries_to, apply_committed, handle_append_entries,
  handle_append_entries_response,
}
use ensemble_chat.RaftLog.Proposal.{Sent, retry}
use ensemble_chat.RaftLog.Waiting.{appended}

-- `base` is the length of the leader's log when it became the leader.
pub record Epoch : Type 0 where
  pub base : ℕ
  pub leader : RaftLog
  pub followers : ℕ → RaftLog
  pub requests : List Sent
  pub responses : List AppendEntriesResponse

pub data Step (e : Epoch) : Epoch → Type 0 where
  -- `ProposeEntry` up to its first unlock.
  propose :
      (change : ChangeType) (key value : String)
      → e.leader.is_leader ≡ true
      → Step e (record e { leader = appended e.leader change key value })
  -- A turn of `sendAppendEntriesToAll`, for a proposal of the term.
  send :
      (f : ℕ) (req : AppendEntriesRequest)
      → e.base < length e.leader.log
      → send_append_entries_to e.leader f ≡ some req
      → Step e (record e { requests = e.requests ++ (f, req) ∷ [] })
  -- A response that the wait takes from the channel.
  hear :
      (pre : List AppendEntriesResponse) (resp : AppendEntriesResponse)
      (post : List AppendEntriesResponse) (leader : RaftLog) (again : Option AppendEntriesRequest)
      → e.responses ≡ pre ++ resp ∷ post
      → handle_append_entries_response e.leader resp ≡ some (leader, again)
      → Step e (record e { leader = leader; requests = e.requests ++ retry resp.follower_id again })
  -- The end of the wait for the entry at `target`.
  finish :
      (target : ℕ) (clock : ℕ → ℕ) (leader : RaftLog)
      → leb_ℤ (pos target) e.leader.commit_index ≡ true
      → apply_committed e.leader clock ≡ some leader
      → Step e (record e { leader = leader })
  -- A request that reaches node `f`.
  deliver :
      (pre : List Sent) (f : ℕ) (req : AppendEntriesRequest) (post : List Sent) (clock : ℕ → ℕ)
      (follower : RaftLog) (resp : AppendEntriesResponse)
      → e.requests ≡ pre ++ (f, req) ∷ post
      → handle_append_entries (e.followers f) req clock ≡ some (follower, resp)
      → Step e (record e {
        followers = update e.followers f follower;
        responses = e.responses ++ resp ∷ [];
      })

unfoldable pub start : RaftLog → (term : ℕ) → (ℕ → RaftLog) → Epoch
unfolding become_leader
start r term followers = record {
  base = length r.log;
  leader = become_leader r term;
  followers = followers;
  requests = [];
  responses = [];
}

pub data Reach (e : Epoch) : Epoch → Type 0 where
  here : Reach e e
  next : {s t : Epoch} → Reach e s → Step s t → Reach e t

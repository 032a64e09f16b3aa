-- ===== src/RaftLog/Waiting.antt =====
-- `ProposeEntry` (internal/consensus/consensus.go) on a leader that, while it waits, hears responses.
use ensemble_chat.Common.{
  ℕ, ◌≡◌, ◌⊎◌, inl, inr, refl, sym, ap, ◌∙◌, subst, ℤ, pos, minus_one, leb_ℤ, ◌≤ℤ◌, Bool, true,
  false, Option, some, List, [], ◌∷◌, ◌++◌, map, String, length, length-append, arith, Bool-cases,
}
use ensemble_chat.Types.{ChangeType, AppendEntriesRequest, AppendEntriesResponse}
use ensemble_chat.RaftLog.{RaftLog, handle_append_entries_response, apply_committed}
use ensemble_chat.RaftLog.Proposal.{
  new_entry, Sent, send_to, WaitEvent, response, wait_for_majority, announce, propose_entry, retry,
  send_more,
}
use ensemble_chat.RaftLog.Sane.{IsSane, SameLog, send_to_total, response_total, apply_total}

-- The wait is over with the entry committed and applied, or it is not committed.
abbrev Waited : (r : RaftLog) (target_index : ℕ) (r' : RaftLog) (done : Bool) → Type 0
Waited r target_index r' done =
    IsSane r'
    × SameLog r r'
    × ((done ≡ false)
        ⊎ ((done ≡ true)
            × (pos target_index ≤ℤ r'.commit_index)
            × (r'.last_applied ≡ r'.commit_index)))

-- Responses that report an index of at least -1.
abbrev pub InRange : List AppendEntriesResponse → Type 0
InRange [] = Unit
InRange (resp ∷ resps) = (minus_one ≤ℤ resp.match_index) × InRange resps

pub wait_commits :
    (r : RaftLog) (target_index : ℕ) (clock : ℕ → ℕ) (resp : AppendEntriesResponse)
    (es : List WaitEvent) (r' r'' : RaftLog) (again : Option AppendEntriesRequest)
    → handle_append_entries_response r resp ≡ some (r', again)
    → leb_ℤ (pos target_index) r'.commit_index ≡ true
    → apply_committed r' clock ≡ some r''
    → wait_for_majority r target_index clock (response resp ∷ es)
      ≡ some (r'', true, retry resp.follower_id again)
unfolding wait_for_majority
wait_commits r target_index clock resp es r' r'' again e c a =
    rw (e, wait_for_majority) (rw c (rw a refl))

pub wait_goes_on :
    (r : RaftLog) (target_index : ℕ) (clock : ℕ → ℕ) (resp : AppendEntriesResponse)
    (es : List WaitEvent) (r' : RaftLog) (again : Option AppendEntriesRequest)
    → handle_append_entries_response r resp ≡ some (r', again)
    → leb_ℤ (pos target_index) r'.commit_index ≡ false
    → wait_for_majority r target_index clock (response resp ∷ es)
      ≡ send_more (retry resp.follower_id again) (wait_for_majority r' target_index clock es)
unfolding wait_for_majority
wait_goes_on r target_index clock resp es r' again e c = rw (e, wait_for_majority) (rw c refl)

hear :
    (r : RaftLog) (target_index : ℕ) (clock : ℕ → ℕ) (resps : List AppendEntriesResponse)
    → IsSane r
    → InRange resps
    → (r' : RaftLog) × (done : Bool) × (sent : List Sent) × (wait_for_majority r target_index clock
          (map response resps)
        ≡ some (r', done, sent))
      × Waited r target_index r' done
unfolding wait_for_majority
hear r target_index clock [] s h =
    (r, false, [], refl, (s, record { log = refl; peers = refl }, inl refl))
hear r target_index clock (resp ∷ resps) s (low, h) =
    let (r', again, e, s', l) = response_total r resp s low in
    elim (Bool-cases (leb_ℤ (pos target_index) r'.commit_index)) [
      | inl c ↦
          let (r'', a, s'', l', same, all) = apply_total r' clock s' in
          (
            r'',
            true,
            retry resp.follower_id again,
            wait_commits r target_index clock resp (map response resps) r' r'' again e c a,
            (
              s'',
              record { log = l'.log ∙ l.log; peers = l'.peers ∙ l.peers },
              inr (refl, reached r'.commit_index r''.commit_index same c, all ∙ sym same),
            ),
          )
      | inr c ↦
          let (r'', done, sent, w, (s'', l', out)) = hear r' target_index clock resps s' h in
          (
            r'',
            done,
            retry resp.follower_id again ++ sent,
            wait_goes_on r target_index clock resp (map response resps) r' again e c
                ∙ ap (send_more (retry resp.follower_id again)) w,
            (s'', record { log = l'.log ∙ l.log; peers = l'.peers ∙ l.peers }, out),
          )
    ]
  where
    reached : (a b : ℤ) → b ≡ a → leb_ℤ (pos target_index) a ≡ true → pos target_index ≤ℤ b
    reached a b e c = subst (λ z. pos target_index ≤ℤ z) (sym e) (ground arith)

announce_total :
    (r : RaftLog) (done : Bool) (sent : List Sent)
    → IsSane r
    → (sent' : List Sent) × (announce (r, done, sent) ≡ some (r, done, sent'))
unfolding announce
announce_total r false sent s = (sent, refl)
announce_total r true sent s =
    let (more, e) = send_to_total r r.peers s in (sent ++ more, rw (e, announce) refl)

unfoldable pub appended : RaftLog → ChangeType → (key value : String) → RaftLog
unfolding new_entry
appended r change key value = record r { log = r.log ++ new_entry r change key value ∷ [] }

pub propose_steps :
    (r : RaftLog) (change : ChangeType) (key value : String) (clock : ℕ → ℕ) (es : List WaitEvent)
    (sent more all : List Sent) (r' : RaftLog) (done : Bool)
    → r.is_leader ≡ true
    → send_to (appended r change key value) r.peers ≡ some sent
    → wait_for_majority (appended r change key value) (length r.log) clock es
      ≡ some (r', done, more)
    → announce (r', done, sent ++ more) ≡ some (r', done, all)
    → propose_entry r change key value clock es ≡ some (r', done, all)
unfolding propose_entry appended
propose_steps r change key value clock es sent more all r' done h e w a =
    rw (e, propose_entry) (rw w (rw a (rw h refl)))

pub appended-IsSane :
    (r : RaftLog) (change : ChangeType) (key value : String)
    → IsSane r
    → IsSane (appended r change key value)
unfolding appended
appended-IsSane r change key value s = record {
  nexts = s.nexts;
  low = s.low;
  applied = s.applied;
  held = omega (arith, s.held, length-append r.log (new_entry r change key value ∷ []));
}

-- A leader whose indices are in range proposes an entry and, while it waits, hears any responses that
-- report indices of at least -1 and nothing else. The proposal does not panic; the entry is the last
-- of the leader's log; and either it is reported as not committed, or it is reported as committed, the
-- commit index is at least its own, and everything up to the commit index is applied.
pub propose_entry_commits :
    (r : RaftLog) (change : ChangeType) (key value : String) (clock : ℕ → ℕ)
    (resps : List AppendEntriesResponse)
    → r.is_leader ≡ true
    → IsSane r
    → InRange resps
    → (r' : RaftLog) × (done : Bool) × (sent : List Sent) × (propose_entry r change key value clock
          (map response resps)
        ≡ some (r', done, sent))
      × (r'.log ≡ r.log ++ new_entry r change key value ∷ [])
      × ((done ≡ false)
          ⊎ ((done ≡ true)
              × (pos (length r.log) ≤ℤ r'.commit_index)
              × (r'.last_applied ≡ r'.commit_index)))
unfolding appended
propose_entry_commits r change key value clock resps h s i =
    let s1 = appended-IsSane r change key value s in
    let (sent, e) = send_to_total (appended r change key value) r.peers s1 in
    let (r', done, more, w, (s2, l, out)) =
      hear (appended r change key value) (length r.log) clock resps s1 i in
    let (all, a) = announce_total r' done (sent ++ more) s2 in
    (
      r',
      done,
      all,
      propose_steps r change key value clock (map response resps) sent more all r' done h e w a,
      l.log,
      out,
    )

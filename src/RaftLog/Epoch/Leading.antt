-- ===== src/RaftLog/Epoch/Leading.antt =====
-- A leader that hears responses in its term (internal/consensus/consensus.go).
use ensemble_chat.Common.{
  ℕ, zero, suc, ◌≤◌, ◌<◌, ◌≡◌, ◌⊎◌, inl, inr, refl, sym, ap, ◌∙◌, subst, ℤ, pos, suc_ℤ, some,
  some_inj, none, true, false, Option, length, arith, ltb, take-length-le, ℕ_discrete, Bool-cases,
}
use ensemble_chat.Common.Family.{update}
use ensemble_chat.Types.{AppendEntriesRequest, AppendEntriesResponse}
use ensemble_chat.RaftLog.{RaftLog, handle_append_entries_response, try_advance_commit_index}
use ensemble_chat.RaftLog.Apply.{suc-last_of}
use ensemble_chat.RaftLog.Leader.{try_advance_commits_last}
use ensemble_chat.RaftLog.Replication.{request_at}
use ensemble_chat.RaftLog.Epoch.Invariant.{mem, Honest, Reported, Truthful, Quorum, InRange}
use ensemble_chat.RaftLog.Epoch.Counting.{commit-Quorum}
use ensemble_chat.RaftLog.Epoch.Outcomes.{noted, success_noted, lower, refusal_lowers}

-- The leader after a response.
pub record Heeded (term base : ℕ) (followers : ℕ → RaftLog) (ℓ ℓ' : RaftLog)
    (again : Option AppendEntriesRequest) : Type 0 where
  pub same_log : ℓ'.log ≡ ℓ.log
  pub same_peers : ℓ'.peers ≡ ℓ.peers
  pub same_term : ℓ'.current_term ≡ ℓ.current_term
  pub nexts : (f : ℕ) → InRange ℓ.log (ℓ'.next_index f)
  pub reports :
      (f : ℕ) → mem f ℓ.peers ≡ true → Reported term base ℓ.log (followers f) (ℓ'.match_index f)
  pub honest : (req : AppendEntriesRequest) → again ≡ some req → Honest term base ℓ.log req
  pub commits :
      (ℓ'.commit_index ≡ ℓ.commit_index)
      ⊎ ((n : ℕ) × (ℓ'.commit_index ≡ pos n)
          × (n < length ℓ.log)
          × Quorum term base ℓ.log ℓ followers (suc n))

module _ (term base : ℕ) (followers : ℕ → RaftLog) (ℓ : RaftLog) (now : ℓ.current_term ≡ term)
    (nexts : (f : ℕ) → InRange ℓ.log (ℓ.next_index f))
    (reports : (f : ℕ)
      → mem f ℓ.peers ≡ true
      → Reported term base ℓ.log (followers f) (ℓ.match_index f)) where
  next-Reported : (r : RaftLog) (m : ℤ) → Reported term base ℓ.log r m → InRange ℓ.log (suc_ℤ m)
  next-Reported r m (inl e) = (0, ap suc_ℤ e, omega arith)
  next-Reported r m (inr (c, e, l, n)) = (c, ap suc_ℤ e ∙ suc-last_of c, omega (arith, l, n.inside))

  update-InRange :
      (f : ℕ) (v : ℤ) → InRange ℓ.log v → (g : ℕ) → InRange ℓ.log (update ℓ.next_index f v g)
  update-InRange f v h g = elim (ℕ_discrete f g) [
    | yes same ↦ let (k, e, l) = h in (k, ground (arith, same, e), l)
    | no other ↦ let (k, e, l) = nexts g in (k, ground (arith, other, e), l)
  ]

  update-Reported :
      (f : ℕ) (v : ℤ)
      → Reported term base ℓ.log (followers f) v
      → (g : ℕ) → mem g ℓ.peers ≡ true
      → Reported term base ℓ.log (followers g) (update ℓ.match_index f v g)
  update-Reported f v h g m = elim (ℕ_discrete f g) [
    | yes same ↦
        subst (Reported term base ℓ.log (followers g)) (ground (arith, same))
          (subst (λ i. Reported term base ℓ.log (followers i) v) same h)
    | no other ↦
        subst (Reported term base ℓ.log (followers g)) (ground (arith, other)) (reports g m)
  ]

  advance-Heeded :
      (resp : AppendEntriesResponse)
      → Reported term base ℓ.log (followers resp.follower_id) resp.match_index
      → Heeded term base followers ℓ (try_advance_commit_index (noted ℓ resp)) none
  advance-Heeded resp h =
      let nexts' =
        update-InRange resp.follower_id (suc_ℤ resp.match_index)
          (next-Reported (followers resp.follower_id) resp.match_index h) in
      let reports' = update-Reported resp.follower_id resp.match_index h in
      elim (try_advance_commits_last (noted ℓ resp)) [
        | inl (same, _) ↦
            subst (λ ℓ'. Heeded term base followers ℓ ℓ' none) (sym same)
              (record {
                same_log = refl;
                same_peers = refl;
                same_term = refl;
                nexts = nexts';
                reports = reports';
                honest = λ req e. absurd (cc);
                commits = inl refl;
              })
        | inr (n, l, c, _, e) ↦
            subst (λ ℓ'. Heeded term base followers ℓ ℓ' none) (sym e)
              (record {
                same_log = refl;
                same_peers = refl;
                same_term = refl;
                nexts = nexts';
                reports = reports';
                honest = λ req e. absurd (cc);
                commits = inr (
                  n,
                  refl,
                  l,
                  same_quorum (commit-Quorum term base ℓ.log followers (noted ℓ resp) n c reports'),
                );
              })
      ]
    where
      same_quorum :
          {c : ℕ}
          → Quorum term base ℓ.log (noted ℓ resp) followers c
          → Quorum term base ℓ.log ℓ followers c
      same_quorum q = record { chosen = q.chosen; enough = q.enough; hold = q.hold }

  refused-Heeded :
      (resp : AppendEntriesResponse)
      → base < length ℓ.log
      → ltb ℓ.current_term resp.term ≡ false
      → resp.success ≡ false
      → (ℓ' : RaftLog) × (again : Option AppendEntriesRequest) × (handle_append_entries_response ℓ
            resp
          ≡ some (ℓ', again))
        × Heeded term base followers ℓ ℓ' again
  refused-Heeded resp begun t s =
      let (k, e, l) = nexts resp.follower_id in
      let (ℓ', h, updated, same) = refusal_lowers ℓ resp k t s e in
      let low : lower k ≤ length ℓ.log = lower_le k l in
      (
        ℓ',
        some (request_at ℓ (lower k)),
        h,
        record {
          same_log = ap (λ (x : RaftLog). x.log) same;
          same_peers = ap (λ (x : RaftLog). x.peers) same;
          same_term = ap (λ (x : RaftLog). x.current_term) same;
          nexts = λ g.
              subst (InRange ℓ.log) (sym (updated g))
                (update-InRange resp.follower_id (pos (lower k)) (lower k, refl, low) g);
          reports = λ g m.
              subst (Reported term base ℓ.log (followers g))
                (sym (ap (λ (x : RaftLog). x.match_index g) same)) (reports g m);
          honest = λ req e'. record {
            leader = ℓ;
            next = lower k;
            made = sym (some_inj e');
            now = now;
            below = low;
            beyond = begun;
            inside = omega arith;
            prefix = sym (take-length-le (length ℓ.log) ℓ.log (omega arith));
          };
          commits = inl (ap (λ (x : RaftLog). x.commit_index) same);
        },
      )
    where
      lower_le : (k : ℕ) → k ≤ length ℓ.log → lower k ≤ length ℓ.log
      lower_le zero l = l
      lower_le (suc k) l = omega arith

  -- Whatever the leader makes of a response in its term.
  pub heed :
      (resp : AppendEntriesResponse) (ℓ' : RaftLog) (again : Option AppendEntriesRequest)
      → Truthful term base ℓ.log followers resp
      → handle_append_entries_response ℓ resp ≡ some (ℓ', again)
      → Heeded term base followers ℓ ℓ' again
  heed resp ℓ' again h e =
      let (ℓ1, again1, e1, heeded) = outcome in
      subst (λ (p : RaftLog × Option AppendEntriesRequest). Heeded term base followers ℓ p.0 p.1)
        (some_inj (sym e1 ∙ e)) heeded
    where
      in_time : ltb ℓ.current_term resp.term ≡ false
      in_time = ground (arith, h.in_term, now)

      outcome :
          (ℓ1 : RaftLog) × (again1 : Option AppendEntriesRequest) × (handle_append_entries_response
              ℓ resp
            ≡ some (ℓ1, again1))
          × Heeded term base followers ℓ ℓ1 again1
      outcome = elim (Bool-cases resp.success) [
        | inl s ↦ elim h.report [
          | inl s' ↦ absurd (cc (s, s'))
          | inr r ↦ (_, none, success_noted ℓ resp in_time s, advance-Heeded resp r)
        ]
        | inr s ↦ refused-Heeded resp h.begun in_time s
      ]

-- ===== src/Election/Bounds.antt =====
-- The counters of the election (internal/election/election.go) along a run.
use ensemble_chat.Common.{
  refl, ◌⊎◌, ◌≢◌, inr, inl, Option, subst, ℕ, zero, suc, ◌≤◌, ◌<◌, ◌≡◌, List, [], ◌∷◌, ◌++◌, arith,
  ltb, if◌then◌else◌,
}
use ensemble_chat.Common.Family.{total-le}
use ensemble_chat.Types.{NodeState, follower, candidate, leader}
use ensemble_chat.Election.{
  ElectionNode, Effect, on_send_vote_req, on_send_vote_resp, on_send_heartbeat, on_become_leader,
  on_become_follower, new_election_node, check_election_timeout, handle_vote_request,
  handle_vote_response, handle_heartbeat,
}
use ensemble_chat.Election.Cluster.{
  Packet, vote_request, vote_response, heartbeat, dst, broadcast, outgoing, System, receive, act,
  Step, tick, recv, lose, init, Reach, start, next,
}
use ensemble_chat.Election.Counting.{votes, voted}
use ensemble_chat.Election.Invariant.{Reach-Inv}

abbrev term_of : Packet → ℕ
term_of (vote_request _ req) = req.term
term_of (vote_response _ resp) = resp.term
term_of (heartbeat _ hb) = hb.term

abbrev Below : ℕ → List Packet → Type 0
Below k [] = Unit
Below k (p ∷ ps) = (term_of p ≤ k) × Below k ps

abbrev EffectsBelow : ℕ → List Effect → Type 0
EffectsBelow k [] = Unit
EffectsBelow k (on_send_vote_req req ∷ es) = (req.term ≤ k) × EffectsBelow k es
EffectsBelow k (on_send_vote_resp _ resp ∷ es) = (resp.term ≤ k) × EffectsBelow k es
EffectsBelow k (on_send_heartbeat hb ∷ es) = (hb.term ≤ k) × EffectsBelow k es
EffectsBelow k (on_become_leader _ ∷ es) = EffectsBelow k es
EffectsBelow k (on_become_follower _ _ ∷ es) = EffectsBelow k es

Below-append : (k : ℕ) (ps qs : List Packet) → Below k ps → Below k qs → Below k (ps ++ qs)
Below-append k [] qs a b = b
Below-append k (p ∷ ps) qs a b = (a.0, Below-append k ps qs a.1 b)

Below-split :
    (k : ℕ) (ps : List Packet) (p : Packet) (qs : List Packet)
    → Below k (ps ++ p ∷ qs)
    → (term_of p ≤ k) × Below k (ps ++ qs)
Below-split k [] p qs b = b
Below-split k (x ∷ ps) p qs b = let (a, c) = Below-split k ps p qs b.1 in (a, (b.0, c))

Below-mono : (k : ℕ) (ps : List Packet) → Below k ps → Below (suc k) ps
Below-mono k [] b = tt
Below-mono k (p ∷ ps) b = (omega arith, Below-mono k ps b.1)

broadcast-Below :
    (k n src : ℕ) (packet : ℕ → Packet)
    → ((d : ℕ) → term_of (packet d) ≤ k)
    → Below k (broadcast n src packet)
unfolding broadcast
broadcast-Below k zero src packet h = tt
broadcast-Below k (suc n) src packet h = ground (arith, h n, broadcast-Below k n src packet h)

outgoing-Below : (k n src : ℕ) (es : List Effect) → EffectsBelow k es → Below k (outgoing n src es)
unfolding outgoing
outgoing-Below k n src [] h = tt
outgoing-Below k n src (on_send_vote_req req ∷ es) h =
    Below-append k _ _ (broadcast-Below k n src _ (λ d. h.0)) (outgoing-Below k n src es h.1)
outgoing-Below k n src (on_send_vote_resp target resp ∷ es) h =
    Below-append k (if ltb target n then vote_response target resp ∷ [] else []) _ (ground arith)
      (outgoing-Below k n src es h.1)
outgoing-Below k n src (on_send_heartbeat hb ∷ es) h =
    Below-append k _ _ (broadcast-Below k n src _ (λ d. h.0)) (outgoing-Below k n src es h.1)
outgoing-Below k n src (on_become_leader _ ∷ es) h = outgoing-Below k n src es h
outgoing-Below k n src (on_become_follower _ _ ∷ es) h = outgoing-Below k n src es h

-- The result of a handler stays at or below term `k`.
abbrev ResultBelow : ℕ → ElectionNode × List Effect → Type 0
ResultBelow k r = (r.0.current_term ≤ k) × EffectsBelow k r.1

tick_below :
    (k : ℕ) (e : ElectionNode) (now draw : ℕ)
    → e.current_term ≤ k
    → ResultBelow (suc k) (check_election_timeout e now draw)
unfolding check_election_timeout
tick_below k e now draw h = ground arith

receive_below :
    (k : ℕ) (e : ElectionNode) (p : Packet) (now : ℕ)
    → e.current_term ≤ k
    → term_of p ≤ k
    → ResultBelow (suc k) (receive e p now)
unfolding receive handle_vote_request handle_vote_response handle_heartbeat
receive_below k e (vote_request _ req) now h m = ground arith
receive_below k e (vote_response _ resp) now h m = ground arith
receive_below k e (heartbeat _ hb) now h m = ground arith

abbrev AllBelow : ℕ → System → Type 0
AllBelow k s = ((i : ℕ) → (s.nodes i).current_term ≤ k) × Below k s.net

act-Below :
    (k n : ℕ) (s : System) (net : List Packet) (i : ℕ) (r : ElectionNode × List Effect)
    → ((j : ℕ) → (s.nodes j).current_term ≤ k)
    → Below k net
    → ResultBelow (suc k) r
    → AllBelow (suc k) (act n s net i r)
unfolding act
act-Below k n s net i r h b q = (
  λ j. ground (arith, h j),
  Below-append (suc k) net _ (Below-mono k net b) (outgoing-Below (suc k) n i r.1 q.1),
)

Step-below : {n k : ℕ} {s t : System} → Step n s t → AllBelow k s → AllBelow (suc k) t
Step-below {n} {k} {s} (tick i now draw l) h =
    act-Below k n s s.net i _ h.0 h.1 (tick_below k (s.nodes i) now draw (h.0 i))
Step-below {n} {k} {s} (recv pre p post now q l) h =
    let (a, b) = Below-split k pre p post (subst (Below k) q h.1) in
    act-Below k n s (pre ++ post) (dst p) _ h.0 b
      (receive_below k (s.nodes (dst p)) p now (h.0 (dst p)) a)
Step-below {n} {k} {s} (lose pre p post q) h =
    let (a, b) = Below-split k pre p post (subst (Below k) q h.1) in
    (λ i. omega (arith, h.0 i), Below-mono k (pre ++ post) b)

Reach-below :
    {n now : ℕ} {draws : ℕ → ℕ} {k : ℕ} {s : System} → Reach n now draws k s → AllBelow k s
unfolding init new_election_node
Reach-below start = (λ i. omega arith, tt)
Reach-below (next r st) = Step-below st (Reach-below r)

votes-le : (n c t : ℕ) (b : ℕ → ℕ → Option ℕ) → votes n b c t ≤ n
unfolding votes
votes-le n c t b = total-le n (λ v. voted (b v t) c) (λ v. ground arith)

-- After `k` steps no node's term is above `k`, and no candidate has counted more than `n` votes.
pub counters_bounded :
    {n now : ℕ} {draws : ℕ → ℕ} {k : ℕ} {s : System}
    → Reach n now draws k s
    → (i : ℕ) → i < n
    → ((s.nodes i).current_term ≤ k)
      × (((s.nodes i).state ≢ candidate) ⊎ ((s.nodes i).vote_count ≤ n))
counters_bounded {n} {s} r i l = ((Reach-below r).0 i, votes (is_candidate (s.nodes i).state))
  where
    is_candidate : (st : NodeState) → (st ≡ candidate) ⊎ (st ≢ candidate)
    is_candidate follower = inr (λ h. cc)
    is_candidate candidate = inl refl
    is_candidate leader = inr (λ h. cc)

    votes :
        ((s.nodes i).state ≡ candidate) ⊎ ((s.nodes i).state ≢ candidate)
        → ((s.nodes i).state ≢ candidate) ⊎ ((s.nodes i).vote_count ≤ n)
    votes (inr h) = inl h
    votes (inl h) =
        inr (
          omega (arith, (Reach-Inv r).tally i l h, votes-le n i (s.nodes i).current_term s.ballots))

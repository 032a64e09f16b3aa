-- ===== src/TokenRing/Examples.antt =====
-- Runs of internal/lock/lock.go on a ring of three nodes, and the theorems at them.
use ensemble_chat.Common.{
  ℕ, zero, suc, ◌+◌, ◌%◌, ◌≤◌, ◌<◌, ◌≡◌, ◌≢◌, ◌⊎◌, inl, inr, refl, pos, Bool, true, false, Option,
  none, some, List, [], ◌∷◌, ◌++◌, String, length, get_elem?, arith, some_inj,
}
use ensemble_chat.Types.{LockResponse}
use ensemble_chat.TokenRing.{
  TokenRingManager, CsRequest, Effect, on_pass_token, respond, new_token_ring_manager,
  request_access, release_access, idle_pass, get_next_node, acquired, grant,
}
use ensemble_chat.TokenRing.System.{
  Ring, init, act, passed, Reach, here, next, request as ask, idle, lose,
}
use ensemble_chat.TokenRing.Invariant.{tokens}
use ensemble_chat.TokenRing.Safety.{mutual_exclusion, no_overtaking, lost_token_blocks}
use ensemble_chat.TokenRing.Passing.{
  Holds, release_access_cases, IsDistinct, walk, walk_visits, IsBusy, rounds, IsBusy-rounds,
}
use ensemble_chat.TokenRing.Queue.{
  Event, request, release, Trace, happen, answered, run, tickets, queue_is_fifo,
}

abbrev ring : List ℕ
ring = 0 ∷ 1 ∷ 2 ∷ []

abbrev started : Ring
started = init ring 0

-- Node 0, which starts with the token, enters the section.
abbrev entered : Ring
entered = act 3 started started.flight 0 (request_access (started.nodes 0) "room" "ann" 7).0 []

entered-Reach : Reach 3 (init ring 0) entered
entered-Reach = next here (ask 0 "room" "ann" 7 (omega arith))

inside : (entered.nodes 0).in_cs ≡ true
unfolding init act request_access new_token_ring_manager
inside = refl

mutual_exclusion_example : (◌≡◌ {A = ℕ} 0 0) × ((entered.nodes 0).has_token ≡ true)
mutual_exclusion_example =
    mutual_exclusion ring 0 entered-Reach 0 0 (omega arith) (omega arith) inside inside

no_overtaking_example :
    let t = entered.nodes 0 in
    (((t.has_token ≡ false) ⊎ (t.in_cs ≡ true))
      × (request_access t "room" "bob" 8 ≡ (
        record t {
          wait_queue =
              t.wait_queue ++ record { resource = "room"; requester = "bob"; ticket = 8 } ∷ [];
        },
        none,
      )))
    ⊎ ((t.has_token ≡ true)
        × (t.in_cs ≡ false)
        × (t.wait_queue ≡ [])
        × (resp : LockResponse) × (resp.granted ≡ true)
        × (resp.holder ≡ "bob")
        × (resp.resource ≡ "room")
        × (request_access t "room" "bob" 8
            ≡ (record t { in_cs = true; cs_holder = "bob"; cs_resource = "room" }, some resp)))
no_overtaking_example = no_overtaking ring 0 entered-Reach 0 "room" "bob" 8

-- Node 0 passes the token, and it is lost.
abbrev given_up : TokenRingManager
given_up = record {
  node_id = 0;
  ring_order = ring;
  ring_index = pos 0;
  has_token = false;
  seq_num = 1;
  in_cs = false;
  cs_holder = "";
  cs_resource = "";
  wait_queue = [];
}

abbrev sent : List Effect
sent = on_pass_token 1 (record { seq_num = 1 }) ∷ []

abbrev under_way : Ring
under_way = act 3 started started.flight 0 given_up sent

abbrev lost : Ring
lost = record under_way { flight = [] }

lost-Reach : Reach 3 (init ring 0) lost
unfolding init act passed idle_pass new_token_ring_manager
lost-Reach =
    next (next here (idle 0 given_up sent (omega arith) refl))
      (lose [] (record { dst = 1; tok = record { seq_num = 1 } }) [] refl)

none_left : tokens 3 lost ≡ 0
unfolding tokens init act new_token_ring_manager ensemble_chat.Common.Family.total
none_left = refl

lost_token_blocks_example :
    (tokens 3 lost ≡ 0) × ((request_access (lost.nodes 2) "room" "cat" 9).1 ≡ none)
lost_token_blocks_example =
    lost_token_blocks ring 0 lost-Reach none_left here 2 "room" "cat" 9 (omega arith)

-- Ann is in the section, and Bob waits.
abbrev waiting : TokenRingManager
waiting = record {
  node_id = 0;
  ring_order = ring;
  ring_index = pos 0;
  has_token = true;
  seq_num = 4;
  in_cs = true;
  cs_holder = "ann";
  cs_resource = "room";
  wait_queue = record { resource = "room"; requester = "bob"; ticket = 8 } ∷ [];
}

release_access_cases_example :
    (((waiting.in_cs ≡ false) ⊎ (waiting.cs_holder ≢ "ann"))
      × (release_access waiting "room" "ann" ≡ some (waiting, [], false)))
    ⊎ (Holds waiting "ann"
        × ((q : CsRequest) × (rest : List CsRequest) × (waiting.wait_queue ≡ q ∷ rest)
            × (release_access waiting "room" "ann"
                ≡ some (grant waiting q rest, respond q.ticket (acquired q) ∷ [], true))))
    ⊎ (Holds waiting "ann"
        × (waiting.wait_queue ≡ [])
        × ((j : ℕ) × (get_next_node waiting ≡ some j)
            × (release_access waiting "room" "ann"
                ≡ some (
                  record waiting {
                    in_cs = false;
                    cs_holder = "";
                    cs_resource = "";
                    has_token = false;
                    seq_num = 5;
                  },
                  on_pass_token j (record { seq_num = 5 }) ∷ [],
                  true,
                ))))
    ⊎ (Holds waiting "ann"
        × (waiting.wait_queue ≡ [])
        × (get_next_node waiting ≡ none)
        × (release_access waiting "room" "ann" ≡ none))
release_access_cases_example = release_access_cases waiting "room" "ann"

IsBusy-rounds_example :
    (t : TokenRingManager) × (rounds waiting (("room", "cat", 9) ∷ []) ≡ some (t, 0)) × IsBusy t
IsBusy-rounds_example = IsBusy-rounds waiting (("room", "cat", 9) ∷ []) (refl, refl, λ h. cc)

abbrev pair : List ℕ
pair = 5 ∷ 3 ∷ []

pair-IsDistinct : IsDistinct pair
pair-IsDistinct zero zero x p q = refl
pair-IsDistinct zero (suc zero) x p q = absurd (omega (arith, some_inj p, some_inj q))
pair-IsDistinct zero (suc (suc j)) x p q = cc
pair-IsDistinct (suc zero) zero x p q = absurd (omega (arith, some_inj p, some_inj q))
pair-IsDistinct (suc zero) (suc zero) x p q = refl
pair-IsDistinct (suc zero) (suc (suc j)) x p q = cc
pair-IsDistinct (suc (suc i)) j x p q = cc

walk_visits_example : walk pair 5 3 5 ≡ get_elem? pair ((0 + 3) % 2)
walk_visits_example = walk_visits pair 5 3 0 5 pair-IsDistinct refl

abbrev queued : TokenRingManager
queued = record waiting { wait_queue = [] }

abbrev events : List Event
events = request "room" "bob" 8 ∷ request "room" "cat" 9 ∷ release "room" "ann" ∷ []

abbrev left_over : Trace
left_over = record {
  node = record waiting {
    cs_holder = "bob";
    wait_queue = record { resource = "room"; requester = "cat"; ticket = 9 } ∷ [];
  };
  joined = 8 ∷ 9 ∷ [];
  left = 8 ∷ [];
}

run_lem : run (record { node = queued; joined = []; left = [] }) events ≡ some left_over
unfolding run happen request_access release_access answered
run_lem = refl

queue_is_fifo_example : 8 ∷ 9 ∷ [] ≡ (8 ∷ []) ++ tickets left_over.node.wait_queue
queue_is_fifo_example = queue_is_fifo queued events left_over refl run_lem

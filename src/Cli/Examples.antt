-- ===== src/Cli/Examples.antt =====
-- A flag and a line of cmd/coordinator/main.go, and the theorems at them.
use ensemble_chat.Common.{
  ℕ, ℤ, pos, negsuc, ◌≡◌, refl, inl, false, some, none, List, [], ◌∷◌, map, String, arith,
}
use ensemble_chat.Types.{add_room}
use ensemble_chat.Election.{is_leader, new_election_node}
use ensemble_chat.TokenRing.{get_next_node, new_token_ring_manager}
use ensemble_chat.Coordinator.{CoordinatorNode, start_node}
use ensemble_chat.Cli.{Peers, parsed, invalid_format, invalid_id, parse_peers}
use ensemble_chat.Cli.Text.{atoi, is_space}
use ensemble_chat.Cli.Decimal.{itoa}
use ensemble_chat.Cli.RoundTrip.{print_peers, last_addr, parse_peers-print_peers}
use ensemble_chat.Cli.Commands.{propose, read_change, read_command, Turn, run_line}
use ensemble_chat.Cli.Lines.{follower_line_keeps_log}

abbrev two_peers : List (ℕ × String)
two_peers = (2, "localhost:7002") ∷ (10, "localhost:7010") ∷ []

written : print_peers two_peers ≡ "2=localhost:7002,10=localhost:7010"
unfolding print_peers itoa
written = refl

parse_peers-print_peers_example :
    (q : Peers) × (parse_peers (print_peers two_peers) ≡ parsed q)
    × (q.peer_ids ≡ map (λ x. pos x.0) two_peers)
    × ((i : ℤ) → q.peer_addrs i ≡ last_addr two_peers i)
parse_peers-print_peers_example =
    parse_peers-print_peers two_peers (omega arith, omega arith, (omega arith, omega arith, tt))

no_equals : parse_peers "2=a,3" ≡ invalid_format "3"
unfolding parse_peers
no_equals = refl

no_number : parse_peers "x2=a" ≡ invalid_id "x2"
unfolding parse_peers
no_number = refl

too_big : atoi "9223372036854775808" ≡ none
unfolding atoi
too_big = refl

smallest : atoi "-9223372036854775808" ≡ some (negsuc 9223372036854775807)
unfolding atoi
smallest = refl

a_proposal :
    read_command "  Propose tx1 ADD_ROOM  go host:1 " ≡ some (propose "tx1" add_room "go" "host:1")
unfolding read_command is_space read_change
a_proposal = refl

abbrev node : CoordinatorNode
node = start_node 1 (2 ∷ []) 0 0 (1 ∷ 2 ∷ []) 1

next : get_next_node node.token_ring ≡ some 2
unfolding get_next_node new_token_ring_manager
next = refl

follows : is_leader node.election ≡ false
unfolding is_leader new_election_node
follows = refl

follower_line_keeps_log_example :
    (t : Turn) × (run_line node "propose tx1 add_room go host:1" 0 (λ i. i) [] ≡ some t)
    × (t.node.election ≡ node.election)
    × (t.node.raft_log ≡ node.raft_log)
    × (t.sent ≡ [])
follower_line_keeps_log_example =
    follower_line_keeps_log node "propose tx1 add_room go host:1" 0 (λ i. i) [] 2 next (inl follows)

-- ===== src/Cli.antt =====
-- cmd/coordinator/main.go: the -peers flag of a coordinator and its command loop. The flag library, the
-- listener and the signal handler are left out.
pub mod Text
pub mod Decimal
pub mod RoundTrip
pub mod Commands
pub mod Lines
mod Examples
use ensemble_chat.Common.{ℤ, eq_ℤ, Option, none, some, List, [], ◌∷◌, ◌++◌, String, if◌then◌else◌}
use ensemble_chat.Cli.Text.{is_empty, split, split_two, atoi}

-- `peerAddrs` and `peerIDs`
pub record Peers : Type 0 where
  pub peer_addrs : ℤ → Option String
  pub peer_ids : List ℤ

-- The peers, or the entry or the id that the program names before it exits with status 1.
pub data Flag : Type 0 where
  parsed : Peers → Flag
  invalid_format : (entry : String) → Flag
  invalid_id : (id : String) → Flag

unfoldable pub add_peer : Peers → (pid : ℤ) (addr : String) → Peers
add_peer p pid addr = record {
  peer_addrs = λ i. if eq_ℤ pid i then some addr else p.peer_addrs i;
  peer_ids = p.peer_ids ++ pid ∷ [];
}

unfoldable pub parse_entries : Peers → (entries : List String) → Flag
unfolding split_two atoi add_peer
parse_entries p [] = parsed p
parse_entries p (entry ∷ entries) = elim (split_two b'=' entry) [
  | none ↦ invalid_format entry
  | some (key, addr) ↦ elim (atoi key) [
    | none ↦ invalid_id key
    | some pid ↦ parse_entries (add_peer p pid addr) entries
  ]
]

abbrev pub no_peers : Peers
no_peers = record { peer_addrs = λ i. none; peer_ids = [] }

unfoldable pub parse_peers : (flag : String) → Flag
unfolding split parse_entries
parse_peers flag =
    if is_empty flag then parsed no_peers else parse_entries no_peers (split b',' flag)

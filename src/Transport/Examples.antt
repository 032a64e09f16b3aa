-- ===== src/Transport/Examples.antt =====
-- Calls of internal/transport/transport.go to a peer that goes away for a while.
use ensemble_chat.Common.{◌≡◌, Bool, true, false, List, [], ◌∷◌}
use ensemble_chat.Transport.{RpcClient, new_rpc_client}
use ensemble_chat.Transport.Warnings.{call_all, TakeTurns, last_dial, call_all-TakeTurns}

abbrev peer : RpcClient
peer = new_rpc_client "localhost:7001"

abbrev fates : List (Bool × Bool)
fates = (false, false) ∷ (false, false) ∷ (true, true) ∷ []

call_all-TakeTurns_example :
    TakeTurns peer.reachable (call_all peer fates).1 (last_dial peer.reachable fates)
    × ((call_all peer fates).0.reachable ≡ true)
call_all-TakeTurns_example = call_all-TakeTurns peer fates

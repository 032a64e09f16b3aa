-- ===== src/Transport/Warnings.antt =====
-- What `callAsync` (internal/transport/transport.go) prints in the course of many calls.
use ensemble_chat.Common.{◌≡◌, refl, Bool, true, false, List, [], ◌∷◌, ◌++◌, String}
use ensemble_chat.Transport.{RpcClient, Line, unreachable, reachable_again, call_failed, call_async}

-- Calls one after the other, each with the fate of its dial and of its call.
unfoldable pub call_all : RpcClient → List (Bool × Bool) → RpcClient × List Line
unfolding call_async
call_all c [] = (c, [])
call_all c ((dialed, called) ∷ fates) =
    let (c', lines) = call_async c dialed called in
    let (c'', more) = call_all c' fates in (c'', lines ++ more)

-- The warnings of an unreachable peer and the news that it is back take turns, beginning with a warning
-- where the peer was reachable. Other lines may stand anywhere.
abbrev pub TakeTurns : (reachable : Bool) → List Line → (reachable_after : Bool) → Type 0
TakeTurns b [] b' = b ≡ b'
TakeTurns b (unreachable ∷ ls) b' = (b ≡ true) × TakeTurns false ls b'
TakeTurns b (reachable_again ∷ ls) b' = (b ≡ false) × TakeTurns true ls b'
TakeTurns b (call_failed ∷ ls) b' = TakeTurns b ls b'

-- The fate of the last dial, or `b`.
abbrev pub last_dial : (b : Bool) → List (Bool × Bool) → Bool
last_dial b [] = b
last_dial b ((dialed, called) ∷ fates) = last_dial dialed fates

call_all-TakeTurns_from :
    (b : Bool) (addr : String) (fates : List (Bool × Bool))
    → TakeTurns b (call_all (record { addr = addr; reachable = b }) fates).1 (last_dial b fates)
      × ((call_all (record { addr = addr; reachable = b }) fates).0.reachable ≡ last_dial b fates)
unfolding call_all call_async
call_all-TakeTurns_from b addr [] = (refl, refl)
call_all-TakeTurns_from true addr ((true, true) ∷ fates) = call_all-TakeTurns_from true addr fates
call_all-TakeTurns_from true addr ((true, false) ∷ fates) = call_all-TakeTurns_from true addr fates
call_all-TakeTurns_from true addr ((false, called) ∷ fates) =
    let (t, l) = call_all-TakeTurns_from false addr fates in ((refl, t), l)
call_all-TakeTurns_from false addr ((true, true) ∷ fates) =
    let (t, l) = call_all-TakeTurns_from true addr fates in ((refl, t), l)
call_all-TakeTurns_from false addr ((true, false) ∷ fates) =
    let (t, l) = call_all-TakeTurns_from true addr fates in ((refl, t), l)
call_all-TakeTurns_from false addr ((false, called) ∷ fates) =
    call_all-TakeTurns_from false addr fates

-- In any sequence of calls to one peer, whatever becomes of them, the warnings that it is unreachable
-- and the news that it is back take turns, beginning with a warning where the peer was reachable.
-- Afterwards the client's `reachable` is the fate of the last dial.
pub call_all-TakeTurns :
    (c : RpcClient) (fates : List (Bool × Bool))
    → TakeTurns c.reachable (call_all c fates).1 (last_dial c.reachable fates)
      × ((call_all c fates).0.reachable ≡ last_dial c.reachable fates)
call_all-TakeTurns c fates = call_all-TakeTurns_from c.reachable c.addr fates

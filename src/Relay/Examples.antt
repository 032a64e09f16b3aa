-- ===== src/Relay/Examples.antt =====
-- Bob and Alice on the two servers of demo/demo_cross_server_chat/main.go, and the theorems at them.
use ensemble_chat.Common.{◌≡◌, refl, [], ◌++◌, lookup, insert}
use ensemble_chat.ChatServer.{new_chat_server, create_room, new_chat_room, send_message}
use ensemble_chat.ChatServer.Rooms.{messages_of, posted}
use ensemble_chat.Relay.{
  Side, alpha, beta, RelayMessageArgs, Pair, send, deliver, sent, delivered, start, start_server,
  Reach, here, next,
}
use ensemble_chat.Relay.Posts.{count_messages}
use ensemble_chat.Relay.Convergence.{relays_converge, start_callback, start-HasRoom}
use ensemble_chat.Relay.Crossing.{crossing_swaps}

abbrev begin : Pair
begin = start "General_Chat" 1 2

abbrev hey : RelayMessageArgs
hey = record { room_name = "General_Chat"; sender = "Bob"; content = "Hey Alice!" }

abbrev asked : Pair
asked = send begin alpha "General_Chat" "Bob" "Hey Alice!" 3

abbrev heard : Pair
heard = deliver asked beta hey [] 4

run : Reach begin heard
unfolding send start start_server create_room new_chat_server new_chat_room lookup insert
    send_message
run =
    next (next here (sent alpha "General_Chat" "Bob" "Hey Alice!" 3))
      (delivered beta [] hey [] 4 refl)

all_arrived : (i : Side) → heard.relays i ≡ []
unfolding send deliver start
all_arrived alpha = refl
all_arrived beta = refl

none_lost : (i : Side) → heard.lost i ≡ []
unfolding send deliver start
none_lost alpha = refl
none_lost beta = refl

relays_converge_example :
    count_messages "Bob" "Hey Alice!" (messages_of (heard.servers alpha) "General_Chat")
    ≡ count_messages "Bob" "Hey Alice!" (messages_of (heard.servers beta) "General_Chat")
relays_converge_example =
    relays_converge "General_Chat" "Bob" "Hey Alice!" 1 2 heard run all_arrived none_lost

no_relays : (i : Side) → begin.relays i ≡ []
unfolding start
no_relays i = refl

crossing_swaps_example :
    (q : Pair) × Reach begin q
    × ((i : Side) → q.relays i ≡ [])
    × (messages_of (q.servers alpha) "General_Chat"
        ≡ messages_of (begin.servers alpha) "General_Chat"
          ++ posted "Bob" "Hi" 3
          ++ posted "Alice" "Hey" 6)
    × (messages_of (q.servers beta) "General_Chat"
        ≡ messages_of (begin.servers beta) "General_Chat"
          ++ posted "Alice" "Hey" 4
          ++ posted "Bob" "Hi" 5)
crossing_swaps_example =
    crossing_swaps begin "General_Chat" "Bob" "Hi" "Alice" "Hey" 3 4 5 6
      (start_callback "General_Chat" 1 2) (start-HasRoom "General_Chat" 1 2) no_relays

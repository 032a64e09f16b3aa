-- ===== src/ChatClient/Examples.antt =====
-- A room with two messages on a server of internal/chatserver/chatserver.go, and the theorems at it.
use ensemble_chat.Common.{
  ◌≤◌, ◌≡◌, ◌⊎◌, ◌↔◌, refl, pos, negsuc, ◌<ℤ◌, true, false, none, some, List, [], ◌∷◌, ◌++◌, lookup,
  length, drop, arith,
}
use ensemble_chat.ChatServer.{
  ChatMessage, ChatRoom, ChatServer, join_room, joined, send_message, relay_message, get_messages,
}
use ensemble_chat.ChatServer.Rooms.{messages_of, posted, Stored, call, send_message_stores}
use ensemble_chat.ChatServer.Joins.{Joined, join_room_joins}
use ensemble_chat.ChatClient.{ChatClient, lost, answered, seen, poll_messages, send_message_rpc}
use ensemble_chat.ChatClient.Growth.{Event, sent, relayed, rejoined, polled}
use ensemble_chat.ChatClient.Runs.{run, Delivered}
use ensemble_chat.ChatClient.Polling.{polls_deliver_once}
use ensemble_chat.ChatClient.Sending.{send_message_rpc_reports}
use ensemble_chat.ChatClient.Race.{interrupted_poll_skips, get_messages_panics_iff}

abbrev room : ChatRoom
room = record {
  name = "go";
  created_at = 1;
  messages = posted "ann" "hi" 2;
  members = ("ann", true) ∷ [];
}

abbrev later_room : ChatRoom
later_room = record room { messages = posted "ann" "hi" 2 ++ posted "bob" "hello" 3 }

abbrev server : ChatServer
server = record {
  id = "s1";
  addr = "localhost:9001";
  rooms = ("go", room) ∷ [];
  clients = [];
  on_message_received = true;
}

abbrev later : ChatServer
later = record server { rooms = ("go", later_room) ∷ [] }

abbrev cat : ChatClient
cat = record { id = "cat"; server_addr = "localhost:9001"; connected = true; last_seen = [] }

abbrev events : List Event
events =
    polled answered
    ∷ sent "go" "bob" "hello" 3
    ∷ polled lost
    ∷ rejoined "chess" 4 answered
    ∷ relayed "go" "dan" "hey" 4
    ∷ polled answered
    ∷ []

-- What a client has not polled yet it has not seen.
nothing_seen : seen cat "go" ≤ length (messages_of server "go")
unfolding lookup
nothing_seen = omega arith

polls_deliver_once_example :
    (c : ChatClient) × (s : ChatServer) × (got : List ChatMessage) × (run cat server "go" events
      ≡ some (c, s, got))
    × Delivered cat server "go" c s got
polls_deliver_once_example = polls_deliver_once cat server "go" events nothing_seen (refl, tt)

found : lookup "go" server.rooms ≡ some room
unfolding lookup
found = refl

found_later : lookup "go" later.rooms ≡ some later_room
unfolding lookup
found_later = refl

interrupted_poll_skips_example :
    (c : ChatClient) × (c' : ChatClient) × (poll_messages cat server later "go" answered
      ≡ some (c, some (drop (seen cat "go") room.messages)))
    × (seen c "go" ≡ 2)
    × (poll_messages c later later "go" answered ≡ some (c', some []))
interrupted_poll_skips_example =
    interrupted_poll_skips cat server later "go" room later_room refl found found_later

get_messages_panics_iff_example :
    (get_messages server later "go" (negsuc 0) ≡ none)
    ↔ (((r : ChatRoom) × (lookup "go" server.rooms ≡ some r)) × (negsuc 0 <ℤ pos 0))
get_messages_panics_iff_example = get_messages_panics_iff server later "go" (negsuc 0)

send_message_stores_example :
    ((lookup "go" server.rooms ≡ none)
      × (send_message server "go" "bob" "hello" 3 ≡ (server, false, []))
      × (relay_message server "go" "bob" "hello" 3 ≡ (server, false)))
    ⊎ ((r : ChatRoom) × (s : ChatServer) × (lookup "go" server.rooms ≡ some r)
        × (send_message server "go" "bob" "hello" 3 ≡ (s, true, call server "go" "bob" "hello"))
        × (relay_message server "go" "bob" "hello" 3 ≡ (s, true))
        × Stored server s "go" (posted "bob" "hello" 3))
send_message_stores_example = send_message_stores server "go" "bob" "hello" 3

join_room_joins_example :
    (s : ChatServer) × (join_room server "cat" "new" 5 ≡ (s, joined server "new"))
    × Joined server s "cat" "new"
join_room_joins_example = join_room_joins server "cat" "new" 5

send_message_rpc_reports_example :
    ((lookup "chess" server.rooms ≡ none)
      × (send_message_rpc cat server "chess" "hi" 6 answered ≡ (server, [], true)))
    ⊎ ((r : ChatRoom) × (s : ChatServer) × (lookup "chess" server.rooms ≡ some r)
        × (send_message_rpc cat server "chess" "hi" 6 answered
            ≡ (s, call server "chess" "cat" "hi", true))
        × Stored server s "chess" (posted "cat" "hi" 6))
send_message_rpc_reports_example = send_message_rpc_reports cat server "chess" "hi" 6 refl

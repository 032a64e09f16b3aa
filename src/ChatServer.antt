-- ===== src/ChatServer.antt =====
-- internal/chatserver/chatserver.go: the rooms of one chat server, its operations and its RPC handlers.
-- A room is reached by its name only, so the server's map holds the rooms themselves, and what a
-- handler does through a room's pointer is put back under the name. The order of a map's keys, which
-- Go leaves open, is that of insertion. `now` is the time at which an operation runs.
pub mod Rooms
pub mod Joins
use Prim.Native.String.{◌++◌ as str_append}
use ensemble_chat.Common.{
  ℕ, ℤ, pos, negsuc, leb_ℤ, Bool, true, false, Option, none, some, List, [], ◌∷◌, ◌++◌, map, String,
  Dict, lookup, insert, length, drop, if◌then◌else◌,
}

pub record ChatMessage : Type 0 where
  pub sender : String
  pub content : String
  pub timestamp : ℕ

pub record ChatRoom : Type 0 where
  pub name : String
  pub created_at : ℕ
  pub messages : List ChatMessage
  pub members : Dict Bool

unfoldable pub new_chat_room : (name : String) (now : ℕ) → ChatRoom
new_chat_room name now = record { name = name; created_at = now; messages = []; members = [] }

unfoldable pub add_message : ChatRoom → (sender content : String) (now : ℕ) → ChatRoom
add_message room sender content now = record room {
  messages = room.messages ++ record { sender = sender; content = content; timestamp = now } ∷ [];
}

unfoldable pub join : ChatRoom → (member_id : String) → ChatRoom
join room member_id = record room { members = insert member_id true room.members }

unfoldable pub get_all_messages : ChatRoom → List ChatMessage
get_all_messages room = room.messages

-- A negative `after` is past the test of the length, and panics in the slice.
unfoldable pub get_messages_after : ChatRoom → (after : ℤ) → Option (List ChatMessage)
get_messages_after room after =
    if leb_ℤ (pos (length room.messages)) after
    then some []
    else elim after [ pos n ↦ some (drop n room.messages) | negsuc n ↦ none ]

unfoldable pub message_count : ChatRoom → ℕ
message_count room = length room.messages

abbrev keys : Dict Bool → List String
keys [] = []
keys ((k, b) ∷ d) = k ∷ keys d

unfoldable pub get_members : ChatRoom → List String
get_members room = keys room.members

-- `on_message_received`: the callback is set.
pub record ChatServer : Type 0 where
  pub id : String
  pub addr : String
  pub rooms : Dict ChatRoom
  pub clients : Dict Bool
  pub on_message_received : Bool

unfoldable pub new_chat_server : (id addr : String) → ChatServer
new_chat_server id addr = record {
  id = id;
  addr = addr;
  rooms = [];
  clients = [];
  on_message_received = false;
}

-- The server and the room that `CreateRoom` returns.
unfoldable pub create_room : ChatServer → (name : String) (now : ℕ) → ChatServer × ChatRoom
create_room s name now = elim (lookup name s.rooms) [
  | some existing ↦ (s, existing)
  | none ↦
      (record s { rooms = insert name (new_chat_room name now) s.rooms }, new_chat_room name now)
]

unfoldable pub get_room : ChatServer → (name : String) → Option ChatRoom
get_room s name = lookup name s.rooms

unfoldable pub list_rooms : Dict ChatRoom → List String
list_rooms [] = []
list_rooms ((name, room) ∷ rooms) = name ∷ list_rooms rooms

unfoldable pub connect_client : ChatServer → (client_id : String) → ChatServer
connect_client s client_id = record s { clients = insert client_id true s.clients }

-- A call of the callback, which gets the server's id with it.
pub record Received : Type 0 where
  pub server_id : String
  pub room_name : String
  pub sender : String
  pub content : String

-- The room is changed through its pointer.
abbrev pub set_room : ChatServer → (name : String) → ChatRoom → ChatServer
set_room s name room = record s { rooms = insert name room s.rooms }

-- The server, the result and the calls of the callback.
unfoldable pub send_message :
    ChatServer → (room_name sender content : String) (now : ℕ) → ChatServer × Bool × List Received
unfolding add_message
send_message s room_name sender content now = elim (lookup room_name s.rooms) [
  | none ↦ (s, false, [])
  | some room ↦ (
    set_room s room_name (add_message room sender content now),
    true,
    if s.on_message_received
        then record { server_id = s.id; room_name = room_name; sender = sender; content = content }
          ∷ []
        else [],
  )
]

unfoldable pub relay_message :
    ChatServer → (room_name sender content : String) (now : ℕ) → ChatServer × Bool
unfolding add_message
relay_message s room_name sender content now = elim (lookup room_name s.rooms) [
  | none ↦ (s, false)
  | some room ↦ (set_room s room_name (add_message room sender content now), true)
]

pub record JoinRoomReply : Type 0 where
  pub ok : Bool
  pub message : String

abbrev pub joined : ChatServer → (room_name : String) → JoinRoomReply
joined s room_name = record {
  ok = true;
  message = str_append "Joined room \"" (str_append room_name (str_append "\" on server " s.id));
}

-- `ChatService.JoinRoom`
unfoldable pub join_room :
    ChatServer → (client_id room_name : String) (now : ℕ) → ChatServer × JoinRoomReply
unfolding create_room join connect_client
join_room s client_id room_name now = elim (lookup room_name s.rooms) [
  | some room ↦
      (connect_client (set_room s room_name (join room client_id)) client_id, joined s room_name)
  | none ↦
      let (s', room) = create_room s room_name now in
      (connect_client (set_room s' room_name (join room client_id)) client_id, joined s room_name)
]

pub record GetMessagesReply : Type 0 where
  pub messages : List ChatMessage
  pub total : ℕ

-- The room behind a pointer that was read before.
abbrev pub room_now : ChatServer → (room_name : String) → ChatRoom → ChatRoom
room_now s room_name room = elim (lookup room_name s.rooms) [ none ↦ room | some room' ↦ room' ]

-- `ChatService.GetMessages` takes the room's lock twice: the messages are those of `s`, their number
-- is that of `s'`, the server when the second lock is taken.
unfoldable pub get_messages :
    (s s' : ChatServer) (room_name : String) (after : ℤ) → Option GetMessagesReply
unfolding get_messages_after message_count
get_messages s s' room_name after = elim (lookup room_name s.rooms) [
  | none ↦ some (record { messages = []; total = 0 })
  | some room ↦ elim (get_messages_after room after) [
    | none ↦ none
    | some messages ↦
        some (record { messages = messages; total = message_count (room_now s' room_name room) })
  ]
]

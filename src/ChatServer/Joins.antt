-- ===== src/ChatServer/Joins.antt =====
-- `JoinRoom` of internal/chatserver/chatserver.go.
use ensemble_chat.Common.{
  ℕ, ◌≡◌, inl, inr, refl, true, none, some, [], String, Dict, lookup, insert, lookup-insert, str_eq,
  str_eq_iff, arith, append-nil, Option-cases, Bool-cases, ◌∙◌,
}
use ensemble_chat.ChatServer.{
  ChatRoom, joined, connect_client, join, new_chat_room, ChatServer, set_room, create_room,
  join_room,
}
use ensemble_chat.ChatServer.Rooms.{messages_of, set_room-extends}

set_room-keeps :
    (s : ChatServer) (room_name : String) (room : ChatRoom) (other : String)
    → messages_of s room_name ≡ room.messages
    → messages_of (set_room s room_name room) other ≡ messages_of s other
set_room-keeps s room_name room other e =
    set_room-extends s room_name room [] other (append-nil (messages_of s room_name) ∙ e)
    ∙ elim (Bool-cases (str_eq room_name other)) [
      | inl b ↦ rw b (append-nil (messages_of s other))
      | inr b ↦ rw b (append-nil (messages_of s other))
    ]

str_eq_refl : (a : String) → str_eq a a ≡ true
str_eq_refl a = ground (arith, str_eq_iff a a)

pub lookup-insert_same {ℓ} :
    {V : Type ℓ} (k : String) (v : V) (m : Dict V) → lookup k (insert k v m) ≡ some v
lookup-insert_same k v m = lookup-insert k k v m ∙ rw (str_eq_refl k) refl

-- The client is in the room, and the server knows it.
pub record Joined (s s' : ChatServer) (client_id room_name : String) : Type 0 where
  pub known : lookup client_id s'.clients ≡ some true
  pub room : ChatRoom
  pub there : lookup room_name s'.rooms ≡ some room
  pub is_member : lookup client_id room.members ≡ some true
  pub same_texts : (other : String) → messages_of s' other ≡ messages_of s other

join_into :
    (s : ChatServer) (client_id room_name : String) (room : ChatRoom)
    → messages_of s room_name ≡ room.messages
    → Joined s
        (connect_client (set_room s room_name (join room client_id)) client_id)
        client_id
        room_name
unfolding connect_client join
join_into s client_id room_name room e = record {
  known = lookup-insert_same client_id true s.clients;
  room = join room client_id;
  there = lookup-insert_same room_name (join room client_id) s.rooms;
  is_member = lookup-insert_same client_id true room.members;
  same_texts = λ other. set_room-keeps s room_name (join room client_id) other e;
}

pub join_found :
    (s : ChatServer) (client_id room_name : String) (now : ℕ) (room : ChatRoom)
    → lookup room_name s.rooms ≡ some room
    → join_room s client_id room_name now
      ≡ (connect_client (set_room s room_name (join room client_id)) client_id, joined s room_name)
unfolding join_room
join_found s client_id room_name now room e = rw (e, join_room) refl

pub create_new :
    (s : ChatServer) (name : String) (now : ℕ)
    → lookup name s.rooms ≡ none
    → create_room s name now ≡ (set_room s name (new_chat_room name now), new_chat_room name now)
unfolding create_room
create_new s name now e = rw (e, create_room) refl

pub join_missing :
    (s : ChatServer) (client_id room_name : String) (now : ℕ)
    → lookup room_name s.rooms ≡ none
    → let room = new_chat_room room_name now in
      join_room s client_id room_name now ≡ (
        connect_client
            (set_room (set_room s room_name room) room_name (join room client_id))
            client_id,
        joined s room_name,
      )
unfolding join_room
join_missing s client_id room_name now e =
    rw (e, join_room) (rw (create_new s room_name now e) refl)

no_texts :
    (s : ChatServer) (room_name : String) (now : ℕ)
    → lookup room_name s.rooms ≡ none
    → messages_of s room_name ≡ (new_chat_room room_name now).messages
unfolding new_chat_room
no_texts s room_name now e = rw e refl

join_new :
    (s : ChatServer) (client_id room_name : String) (now : ℕ)
    → lookup room_name s.rooms ≡ none
    → let room = new_chat_room room_name now in
      Joined s
        (connect_client
          (set_room (set_room s room_name room) room_name (join room client_id))
          client_id)
        client_id
        room_name
join_new s client_id room_name now e =
    let room = new_chat_room room_name now in
    let keeps =
      λ (other : String). set_room-keeps s room_name room other (no_texts s room_name now e) in
    let j =
      join_into (set_room s room_name room) client_id room_name room
        (keeps room_name ∙ no_texts s room_name now e) in
    record {
      known = j.known;
      room = j.room;
      there = j.there;
      is_member = j.is_member;
      same_texts = λ other. j.same_texts other ∙ keeps other;
    }

-- A join succeeds, makes the room if it is missing, and changes no message of any room. Afterwards the
-- room is there, the client is a member of it, and the server knows the client.
pub join_room_joins :
    (s : ChatServer) (client_id room_name : String) (now : ℕ)
    → (s' : ChatServer) × (join_room s client_id room_name now ≡ (s', joined s room_name))
      × Joined s s' client_id room_name
join_room_joins s client_id room_name now = elim (Option-cases (lookup room_name s.rooms)) [
  | inl e ↦ (_, join_missing s client_id room_name now e, join_new s client_id room_name now e)
  | inr (room, e) ↦ (
    _,
    join_found s client_id room_name now room e,
    join_into s client_id room_name room (rw e refl),
  )
]

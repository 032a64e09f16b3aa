-- ===== src/ChatServer/Rooms.antt =====
-- What the operations of internal/chatserver/chatserver.go do to the rooms.
use ensemble_chat.Common.{
  ℕ, ◌≡◌, ◌⊎◌, inl, inr, refl, Bool, true, false, Option, none, some, List, [], ◌∷◌, ◌++◌, String,
  lookup, lookup-insert, str_eq, str_eq_iff, if◌then◌else◌, arith, append-nil, Option-cases,
  Bool-cases, ◌∙◌, sym, ap, subst,
}
use ensemble_chat.ChatServer.{
  ChatMessage, ChatRoom, add_message, ChatServer, set_room, Received, send_message, relay_message,
}

abbrev pub room_messages : Option ChatRoom → List ChatMessage
room_messages none = []
room_messages (some room) = room.messages

-- The messages of a room, none if there is no such room.
abbrev pub messages_of : ChatServer → (room_name : String) → List ChatMessage
messages_of s room_name = room_messages (lookup room_name s.rooms)

abbrev pub posted : (sender content : String) (now : ℕ) → List ChatMessage
posted sender content now = record { sender = sender; content = content; timestamp = now } ∷ []

lookup-set_room :
    (s : ChatServer) (room_name : String) (room : ChatRoom) (other : String)
    → messages_of (set_room s room_name room) other
      ≡ (if str_eq room_name other then room.messages else messages_of s other)
lookup-set_room s room_name room other =
    ap room_messages (lookup-insert room_name other room s.rooms)
    ∙ cases (str_eq room_name other) (lookup other s.rooms)
  where
    cases :
        (b : Bool) (o : Option ChatRoom)
        → room_messages (if b then some room else o)
          ≡ (if b then room.messages else room_messages o)
    cases true o = refl
    cases false o = refl

pub set_room-extends :
    (s : ChatServer) (room_name : String) (room : ChatRoom) (more : List ChatMessage)
    (other : String)
    → messages_of s room_name ++ more ≡ room.messages
    → messages_of (set_room s room_name room) other
      ≡ messages_of s other ++ (if str_eq room_name other then more else [])
set_room-extends s room_name room more other e =
    lookup-set_room s room_name room other ∙ elim (Bool-cases (str_eq room_name other)) [
      | inl same ↦
          rw same (sym (subst (λ n. messages_of s n ++ more ≡ room.messages) (same_name same) e))
      | inr differ ↦ rw differ (sym (append-nil (messages_of s other)))
    ]
  where
    same_name : str_eq room_name other ≡ true → room_name ≡ other
    same_name h = ground (arith, str_eq_iff room_name other, h)

-- A room with more messages at its end.
abbrev pub extended : List ChatMessage → Option ChatRoom → Option ChatRoom
extended more none = none
extended more (some room) = some (record room { messages = room.messages ++ more })

-- What a message does to the server, where the room is there.
pub record Stored (s s' : ChatServer) (room_name : String) (more : List ChatMessage) : Type 0 where
  pub same_server : s' ≡ record s { rooms = s'.rooms }
  pub same_rooms :
      (other : String)
      → lookup other s'.rooms ≡ (
          if str_eq room_name other
          then extended more (lookup other s.rooms)
          else lookup other s.rooms)
  pub texts :
      (other : String)
      → messages_of s' other ≡ messages_of s other ++ (if str_eq room_name other then more else [])

set_room-rooms :
    (s : ChatServer) (room_name : String) (room room' : ChatRoom) (more : List ChatMessage)
    → lookup room_name s.rooms ≡ some room
    → room' ≡ record room { messages = room.messages ++ more }
    → (other : String)
    → lookup other (set_room s room_name room').rooms ≡ (
        if str_eq room_name other
        then extended more (lookup other s.rooms)
        else lookup other s.rooms)
set_room-rooms s room_name room room' more e e' other =
    lookup-insert room_name other room' s.rooms ∙ elim (Bool-cases (str_eq room_name other)) [
      | inl same ↦
          let here : lookup other s.rooms ≡ some room =
            subst (λ n. lookup n s.rooms ≡ some room) (same_name same) e in
          rw (same, here) (ap some e')
      | inr differ ↦ rw differ refl
    ]
  where
    same_name : str_eq room_name other ≡ true → room_name ≡ other
    same_name h = ground (arith, str_eq_iff room_name other, h)

abbrev pub call : ChatServer → (room_name sender content : String) → List Received
call s room_name sender content =
    if s.on_message_received
    then record { server_id = s.id; room_name = room_name; sender = sender; content = content } ∷ []
    else []

add_message_lem :
    (room : ChatRoom) (sender content : String) (now : ℕ)
    → add_message room sender content now
      ≡ record room { messages = room.messages ++ posted sender content now }
unfolding add_message
add_message_lem room sender content now = refl

pub send_found :
    (s : ChatServer) (room_name sender content : String) (now : ℕ) (room : ChatRoom)
    → lookup room_name s.rooms ≡ some room
    → (send_message s room_name sender content now ≡ (
      set_room s room_name (add_message room sender content now),
      true,
      call s room_name sender content,
    ))
      × (relay_message s room_name sender content now
          ≡ (set_room s room_name (add_message room sender content now), true))
unfolding send_message relay_message
send_found s room_name sender content now room e =
    (rw (e, send_message) refl, rw (e, relay_message) refl)

pub added :
    (s : ChatServer) (room_name sender content : String) (now : ℕ) (room : ChatRoom)
    → lookup room_name s.rooms ≡ some room
    → messages_of s room_name ++ posted sender content now
      ≡ (add_message room sender content now).messages
unfolding add_message
added s room_name sender content now room e = rw e refl

pub send_missing :
    (s : ChatServer) (room_name sender content : String) (now : ℕ)
    → lookup room_name s.rooms ≡ none
    → (send_message s room_name sender content now ≡ (s, false, []))
      × (relay_message s room_name sender content now ≡ (s, false))
unfolding send_message relay_message
send_missing s room_name sender content now e =
    (rw (e, send_message) refl, rw (e, relay_message) refl)

-- A message is refused exactly where its room is not on the server: the server stays. Else it is the
-- new last message of its room, the room's name, members and time of creation, every other room, and
-- all else of the server stay, and `SendMessage` calls the callback once if it is set. `RelayMessage` leaves the server as `SendMessage` does, with the same
-- result, and calls nothing.
pub send_message_stores :
    (s : ChatServer) (room_name sender content : String) (now : ℕ)
    → ((lookup room_name s.rooms ≡ none)
        × (send_message s room_name sender content now ≡ (s, false, []))
        × (relay_message s room_name sender content now ≡ (s, false)))
      ⊎ ((room : ChatRoom) × (s' : ChatServer) × (lookup room_name s.rooms ≡ some room)
          × (send_message s room_name sender content now
              ≡ (s', true, call s room_name sender content))
          × (relay_message s room_name sender content now ≡ (s', true))
          × Stored s s' room_name (posted sender content now))
send_message_stores s room_name sender content now =
    elim (Option-cases (lookup room_name s.rooms)) [
      | inl e ↦ inl (
        e,
        (send_missing s room_name sender content now e).0,
        (send_missing s room_name sender content now e).1,
      )
      | inr (room, e) ↦ inr (
        room,
        set_room s room_name (add_message room sender content now),
        e,
        (send_found s room_name sender content now room e).0,
        (send_found s room_name sender content now room e).1,
        record {
          same_server = refl;
          same_rooms =
              set_room-rooms s room_name room (add_message room sender content now)
                (posted sender content now) e (add_message_lem room sender content now);
          texts = λ other.
              set_room-extends s room_name (add_message room sender content now)
                (posted sender content now) other (added s room_name sender content now room e);
        },
      )
    ]

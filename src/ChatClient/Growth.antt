-- ===== src/ChatClient/Growth.antt =====
-- Events at a server of internal/chatserver/chatserver.go, and the messages of its rooms across them.
use ensemble_chat.Common.{
  ℕ, ◌≡◌, inl, inr, sym, ap, ◌∙◌, subst, Bool, List, [], ◌++◌, String, str_eq, append_assoc,
  append-nil, if◌then◌else◌,
}
use ensemble_chat.ChatServer.{
  ChatMessage, ChatServer, Received, send_message, relay_message, join_room, JoinRoomReply,
}
use ensemble_chat.ChatServer.Rooms.{messages_of, send_message_stores, Stored, posted}
use ensemble_chat.ChatServer.Joins.{join_room_joins}
use ensemble_chat.ChatClient.{Outcome}

-- What happens to the server and one client, in order: messages, relays and joins that the server
-- serves for anyone, and the client's own `JoinRoomRPC` and `PollMessages`.
pub data Event : Type 0 where
  sent : (room_name sender content : String) (now : ℕ) → Event
  relayed : (room_name sender content : String) (now : ℕ) → Event
  joined : (client_id room_name : String) (now : ℕ) → Event
  rejoined : (room_name : String) (now : ℕ) → Outcome → Event
  polled : Outcome → Event

-- What the server serves for others.
unfoldable pub serve : ChatServer → Event → ChatServer
serve s (sent room_name sender content now) = (send_message s room_name sender content now).0
serve s (relayed room_name sender content now) = (relay_message s room_name sender content now).0
serve s (joined client_id room_name now) = (join_room s client_id room_name now).0
serve s (rejoined room_name now outcome) = s
serve s (polled outcome) = s

abbrev pub Grows : (s s' : ChatServer) (room_name : String) → Type 0
Grows s s' room_name =
    (more : List ChatMessage) × (messages_of s' room_name ≡ messages_of s room_name ++ more)

pub Grows-refl : (s : ChatServer) (room_name : String) → Grows s s room_name
Grows-refl s room_name = ([], sym (append-nil (messages_of s room_name)))

pub Grows-trans :
    (s s' s'' : ChatServer) (room_name : String)
    → Grows s s' room_name
    → Grows s' s'' room_name
    → Grows s s'' room_name
Grows-trans s s' s'' room_name (xs, e) (ys, f) =
    (xs ++ ys, f ∙ ap (λ zs. zs ++ ys) e ∙ append_assoc (messages_of s room_name) xs ys)

Stored-Grows :
    (s s' : ChatServer) (name room_name : String) (more : List ChatMessage)
    → Stored s s' name more
    → Grows s s' room_name
Stored-Grows s s' name room_name more st =
    ((if str_eq name room_name then more else []), st.texts room_name)

Grows-eq :
    (s s' s'' : ChatServer) (room_name : String)
    → s' ≡ s''
    → Grows s s'' room_name
    → Grows s s' room_name
Grows-eq s s' s'' room_name e g = subst (λ t. Grows s t room_name) (sym e) g

pub join_room-Grows :
    (s : ChatServer) (client_id name : String) (now : ℕ) (room_name : String)
    → Grows s (join_room s client_id name now).0 room_name
join_room-Grows s client_id name now room_name =
    let (s', e, j) = join_room_joins s client_id name now in
    Grows-eq s _ s' room_name (ap (λ (p : ChatServer × JoinRoomReply). p.0) e)
      ([], j.same_texts room_name ∙ sym (append-nil (messages_of s room_name)))

pub serve-Grows : (s : ChatServer) (e : Event) (room_name : String) → Grows s (serve s e) room_name
unfolding serve
serve-Grows s (rejoined name now outcome) room_name = Grows-refl s room_name
serve-Grows s (polled outcome) room_name = Grows-refl s room_name
serve-Grows s (joined client_id name now) room_name = join_room-Grows s client_id name now room_name
serve-Grows s (sent name sender content now) room_name =
    elim (send_message_stores s name sender content now) [
      | inl (_, e, _) ↦
          Grows-eq s _ s room_name (ap (λ (p : ChatServer × Bool × List Received). p.0) e)
            (Grows-refl s room_name)
      | inr (room, s', _, e, _, st) ↦
          Grows-eq s _ s' room_name (ap (λ (p : ChatServer × Bool × List Received). p.0) e)
            (Stored-Grows s s' name room_name (posted sender content now) st)
    ]
serve-Grows s (relayed name sender content now) room_name =
    elim (send_message_stores s name sender content now) [
      | inl (_, _, e) ↦
          Grows-eq s _ s room_name (ap (λ (p : ChatServer × Bool). p.0) e) (Grows-refl s room_name)
      | inr (room, s', _, _, e, st) ↦
          Grows-eq s _ s' room_name (ap (λ (p : ChatServer × Bool). p.0) e)
            (Stored-Grows s s' name room_name (posted sender content now) st)
    ]

-- ===== src/Relay/Posts.antt =====
-- What a message or a join does to one of the two servers of demo/demo_cross_server_chat/main.go.
use ensemble_chat.Common.{
  ℕ, ◌+◌, ◌≡◌, refl, sym, ap, ◌∙◌, inl, inr, Bool, true, false, ◌&&◌, none, some, List, [], ◌∷◌,
  ◌++◌, map, String, lookup, lookup-insert, str_eq, str_eq_iff, if◌then◌else◌, arith, append-nil,
  Option-cases, Bool-cases,
}
use ensemble_chat.ChatServer.{
  ChatMessage, ChatRoom, ChatServer, set_room, add_message, send_message, relay_message, join_room,
  connect_client, join, new_chat_room,
}
use ensemble_chat.ChatServer.Rooms.{
  messages_of, posted, send_found, send_missing, set_room-extends, added,
}
use ensemble_chat.ChatServer.Joins.{join_room_joins, join_found, join_missing}
use ensemble_chat.Relay.{RelayMessageArgs, forward}

abbrev pub HasRoom : ChatServer → (room_name : String) → Type 0
HasRoom s room_name = (room : ChatRoom) × (lookup room_name s.rooms ≡ some room)

-- Whether a message is the one in question.
abbrev pub is_hit : (sender content : String) (sender' content' : String) → Bool
is_hit sender content sender' content' = str_eq sender' sender && str_eq content' content

-- How often the text of a sender stands among messages, and among relays to a room.
unfoldable pub count_messages : (sender content : String) → List ChatMessage → ℕ
count_messages sender content [] = 0
count_messages sender content (m ∷ ms) =
    (if is_hit sender content m.sender m.content then 1 else 0) + count_messages sender content ms

unfoldable pub count_relays : (room_name sender content : String) → List RelayMessageArgs → ℕ
count_relays room_name sender content [] = 0
count_relays room_name sender content (r ∷ rs) =
    (if str_eq r.room_name room_name && is_hit sender content r.sender r.content then 1 else 0)
    + count_relays room_name sender content rs

pub count_messages-append :
    (sender content : String) (ms ns : List ChatMessage)
    → count_messages sender content (ms ++ ns)
      ≡ count_messages sender content ms + count_messages sender content ns
unfolding count_messages
count_messages-append sender content [] ns = omega arith
count_messages-append sender content (m ∷ ms) ns =
    omega (arith, count_messages-append sender content ms ns)

pub count_relays-append :
    (room_name sender content : String) (rs qs : List RelayMessageArgs)
    → count_relays room_name sender content (rs ++ qs)
      ≡ count_relays room_name sender content rs + count_relays room_name sender content qs
unfolding count_relays
count_relays-append room_name sender content [] qs = omega arith
count_relays-append room_name sender content (r ∷ rs) qs =
    omega (arith, count_relays-append room_name sender content rs qs)

-- What every operation keeps of a server: its callback and the presence of rooms.
pub record Kept (s s' : ChatServer) : Type 0 where
  pub callback : s'.on_message_received ≡ s.on_message_received
  pub rooms : (room_name : String) → HasRoom s room_name → HasRoom s' room_name

set_room-Kept : (s : ChatServer) (name : String) (room : ChatRoom) → Kept s (set_room s name room)
set_room-Kept s name room = record {
  callback = refl;
  rooms = λ room_name (found, e). elim (Bool-cases (str_eq name room_name)) [
    | inl b ↦ (room, lookup-insert name room_name room s.rooms ∙ rw b refl)
    | inr b ↦ (found, lookup-insert name room_name room s.rooms ∙ rw b e)
  ];
}

-- What a message to a room does to the rooms that are there.
pub record Posted (s s' : ChatServer) (target sender content : String) (now : ℕ) : Type 0 where
  pub kept : Kept s s'
  pub texts :
      (room_name : String)
      → HasRoom s room_name
      → messages_of s' room_name
        ≡ messages_of s room_name
          ++ (if str_eq target room_name then posted sender content now else [])

module _ (s : ChatServer) (target sender content : String) (now : ℕ) where
  absent :
      (room_name : String)
      → lookup target s.rooms ≡ none
      → HasRoom s room_name
      → str_eq target room_name ≡ false
  absent room_name e (room, e') = elim (Bool-cases (str_eq target room_name)) [
    | inl b ↦ absurd (cc (e, e', ap (λ n. lookup n s.rooms) ((str_eq_iff target room_name).0 b)))
    | inr b ↦ b
  ]

  pub relay_message-Posted :
      Posted s (relay_message s target sender content now).0 target sender content now
  relay_message-Posted = elim (Option-cases (lookup target s.rooms)) [
    | inl e ↦ rw ((send_missing s target sender content now e).1) (record {
      kept = record { callback = refl; rooms = λ r h. h };
      texts = λ r h. rw (absent r e h) (sym (append-nil (messages_of s r)));
    })
    | inr (room, e) ↦ rw ((send_found s target sender content now room e).1) (record {
      kept = set_room-Kept s target (add_message room sender content now);
      texts = λ r h.
          set_room-extends s target (add_message room sender content now)
            (posted sender content now) r (added s target sender content now room e);
    })
  ]

  pub same_server :
      (send_message s target sender content now).0 ≡ (relay_message s target sender content now).0
  same_server = elim (Option-cases (lookup target s.rooms)) [
    | inl e ↦ let (a, b) = send_missing s target sender content now e in rw (a, b) refl
    | inr (room, e) ↦ let (a, b) = send_found s target sender content now room e in rw (a, b) refl
  ]

  pub count-calls :
      (room_name sender' content' : String)
      → s.on_message_received ≡ true
      → HasRoom s room_name
      → count_relays room_name sender' content'
          (map forward (send_message s target sender content now).2)
        ≡ (if str_eq target room_name && is_hit sender' content' sender content then 1 else 0)
  unfolding count_relays
  count-calls room_name sender' content' on h = elim (Option-cases (lookup target s.rooms)) [
    | inl e ↦ rw ((send_missing s target sender content now e).0, absent room_name e h) refl
    | inr (room, e) ↦ rw ((send_found s target sender content now room e).0, on) (omega arith)
  ]

connect-Kept :
    (s : ChatServer) (name : String) (room : ChatRoom) (client_id : String)
    → Kept s (connect_client (set_room s name room) client_id)
unfolding connect_client
connect-Kept s name room client_id = record {
  callback = refl;
  rooms = (set_room-Kept s name room).rooms;
}

Kept-trans : {s s' s'' : ChatServer} → Kept s s' → Kept s' s'' → Kept s s''
Kept-trans k k' = record {
  callback = k'.callback ∙ k.callback;
  rooms = λ r h. k'.rooms r (k.rooms r h);
}

pub join_room-Kept :
    (s : ChatServer) (client_id room_name : String) (now : ℕ)
    → Kept s (join_room s client_id room_name now).0
join_room-Kept s client_id room_name now = elim (Option-cases (lookup room_name s.rooms)) [
  | inl e ↦
      let room = new_chat_room room_name now in
      rw (join_missing s client_id room_name now e) (
        Kept-trans (set_room-Kept s room_name room)
          (connect-Kept (set_room s room_name room) room_name (join room client_id) client_id))
  | inr (room, e) ↦
      rw (join_found s client_id room_name now room e)
        (connect-Kept s room_name (join room client_id) client_id)
]

pub join_room-texts :
    (s : ChatServer) (client_id target room_name : String) (now : ℕ)
    → messages_of (join_room s client_id target now).0 room_name ≡ messages_of s room_name
join_room-texts s client_id target room_name now =
    let (s', e, j) = join_room_joins s client_id target now in rw e (j.same_texts room_name)

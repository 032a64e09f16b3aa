-- ===== src/ChatClient/Race.antt =====
-- The two locks of `GetMessages` (internal/chatserver/chatserver.go).
use ensemble_chat.Common.{
  ℕ, ◌≡◌, ◌≢◌, ◌↔◌, inl, inr, refl, ap, ◌∙◌, ℤ, pos, negsuc, ◌<ℤ◌, true, Option, none, some, List,
  [], String, lookup, length, drop, arith, Option-cases,
}
use ensemble_chat.ChatServer.{
  ChatMessage, ChatRoom, ChatServer, message_count, room_now, GetMessagesReply, get_messages,
  get_messages_after,
}
use ensemble_chat.ChatClient.{answered, ChatClient, seen, poll_messages}
use ensemble_chat.ChatClient.Reads.{drop-all, see, seen-see, get_found, get_missing, after_lem}

get_nothing :
    (s : ChatServer) (room_name : String) (room : ChatRoom)
    → lookup room_name s.rooms ≡ some room
    → get_messages s s room_name (pos (length room.messages))
      ≡ some (record { messages = []; total = length room.messages })
get_nothing s room_name room e =
    get_found s s room_name (length room.messages) room room e e
    ∙ ap (λ (ms : List ChatMessage). some (record { messages = ms; total = length room.messages }))
        (drop-all (length room.messages) room.messages (omega arith))

-- A client polls a room with an answer, and the handler takes its first lock in `s` and its second in
-- `s'`. The poll returns the messages of the room in `s` that the client has not seen, and the client
-- takes all those in `s'` for seen: a poll right after, in `s'`, returns nothing.
pub interrupted_poll_skips :
    (c : ChatClient) (s s' : ChatServer) (room_name : String) (room room' : ChatRoom)
    → c.connected ≡ true
    → lookup room_name s.rooms ≡ some room
    → lookup room_name s'.rooms ≡ some room'
    → (c' : ChatClient) × (c'' : ChatClient) × (poll_messages c s s' room_name answered
        ≡ some (c', some (drop (seen c room_name) room.messages)))
      × (seen c' room_name ≡ length room'.messages)
      × (poll_messages c' s' s' room_name answered ≡ some (c'', some []))
unfolding poll_messages see
interrupted_poll_skips c s s' room_name room room' on e e' =
    let c' = see c room_name (length room'.messages) in
    (
      c',
      see c' room_name (length room'.messages),
      simp (on, poll_messages, get_found s s' room_name (seen c room_name) room room' e e'),
      seen-see c room_name (length room'.messages),
      simp (
        on,
        poll_messages,
        seen-see c room_name (length room'.messages),
        get_nothing s' room_name room' e',
      ),
    )

negative_panics :
    (s s' : ChatServer) (room_name : String) (n : ℕ) (room : ChatRoom)
    → lookup room_name s.rooms ≡ some room
    → get_messages s s' room_name (negsuc n) ≡ none
unfolding get_messages get_messages_after
negative_panics s s' room_name n room e = rw (e, get_messages) (ground arith)

some-none {ℓ} : {A : Type ℓ} {o : Option A} {a : A} → o ≡ some a → o ≢ none
some-none h g = cc

get_some :
    (s s' : ChatServer) (room_name : String) (n : ℕ) (room : ChatRoom)
    → lookup room_name s.rooms ≡ some room
    → (reply : GetMessagesReply) × (get_messages s s' room_name (pos n) ≡ some reply)
unfolding get_messages
get_some s s' room_name n room e = (
  record { messages = drop n room.messages; total = message_count (room_now s' room_name room) },
  rw (e, get_messages) (rw (after_lem room n) refl),
)

-- `GetMessages` panics exactly where the room is on the server and the index asked for is negative.
pub get_messages_panics_iff :
    (s s' : ChatServer) (room_name : String) (after : ℤ)
    → (get_messages s s' room_name after ≡ none)
      ↔ (((room : ChatRoom) × (lookup room_name s.rooms ≡ some room)) × (after <ℤ pos 0))
get_messages_panics_iff s s' room_name (pos n) = (
  λ h. elim (Option-cases (lookup room_name s.rooms)) [
    | inl e ↦ absurd (some-none (get_missing s s' room_name (pos n) e) h)
    | inr (room, e) ↦ absurd (some-none (get_some s s' room_name n room e).1 h)
  ],
  λ p. absurd (omega (arith, p.1)),
)
get_messages_panics_iff s s' room_name (negsuc n) = (
  λ h. elim (Option-cases (lookup room_name s.rooms)) [
    | inl e ↦ absurd (some-none (get_missing s s' room_name (negsuc n) e) h)
    | inr (room, e) ↦ ((room, e), omega arith)
  ],
  λ p. negative_panics s s' room_name n p.0.0 p.0.1,
)

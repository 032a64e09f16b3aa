-- ===== src/ChatClient/Reads.antt =====
-- What `GetMessages` (internal/chatserver/chatserver.go) and `PollMessages` (internal/client/client.go)
-- return.
use ensemble_chat.Common.{
  ℕ, zero, suc, ◌≤◌, ◌≡◌, ◌⊎◌, inl, inr, refl, ap, ◌∙◌, ℤ, pos, Option, none, some, List, [], ◌∷◌,
  ◌++◌, String, lookup, insert, length, drop, arith, Option-cases, Bool-cases,
}
use ensemble_chat.ChatServer.{
  ChatMessage, ChatRoom, ChatServer, message_count, room_now, get_messages, get_messages_after,
}
use ensemble_chat.ChatServer.Rooms.{messages_of}
use ensemble_chat.ChatServer.Joins.{lookup-insert_same}
use ensemble_chat.ChatClient.{Outcome, lost, unanswered, answered, ChatClient, seen, poll_messages}

pub drop-all {ℓ} : {A : Type ℓ} (n : ℕ) (xs : List A) → length xs ≤ n → drop n xs ≡ []
drop-all zero [] h = refl
drop-all zero (x ∷ xs) h = absurd (omega arith)
drop-all (suc n) [] h = refl
drop-all (suc n) (x ∷ xs) h = drop-all n xs (omega arith)

pub drop-append {ℓ} :
    {A : Type ℓ} (n : ℕ) (xs ys : List A) → n ≤ length xs → drop n (xs ++ ys) ≡ drop n xs ++ ys
drop-append zero xs ys h = refl
drop-append (suc n) [] ys h = absurd (omega arith)
drop-append (suc n) (x ∷ xs) ys h = drop-append n xs ys (omega arith)

pub after_lem :
    (room : ChatRoom) (n : ℕ) → get_messages_after room (pos n) ≡ some (drop n room.messages)
unfolding get_messages_after
after_lem room n = ground (arith, drop-all n room.messages)

pub get_found :
    (s s' : ChatServer) (room_name : String) (n : ℕ) (room room' : ChatRoom)
    → lookup room_name s.rooms ≡ some room
    → lookup room_name s'.rooms ≡ some room'
    → get_messages s s' room_name (pos n)
      ≡ some (record { messages = drop n room.messages; total = length room'.messages })
unfolding get_messages message_count
get_found s s' room_name n room room' e e' =
    rw (e, get_messages)
      (rw (after_lem room n)
        (ap (λ t. some (record { messages = drop n room.messages; total = t })) counted))
  where
    same : room_now s' room_name room ≡ room'
    same = rw (e', room_now) refl

    counted : message_count (room_now s' room_name room) ≡ length room'.messages
    counted = ap message_count same

pub get_missing :
    (s s' : ChatServer) (room_name : String) (after : ℤ)
    → lookup room_name s.rooms ≡ none
    → get_messages s s' room_name after ≡ some (record { messages = []; total = 0 })
unfolding get_messages
get_missing s s' room_name after e = rw (e, get_messages) refl

drop-nil {ℓ} : {A : Type ℓ} (n : ℕ) → drop {A = A} n [] ≡ []
drop-nil zero = refl
drop-nil (suc n) = refl

-- A poll whose two locks are taken in one state.
pub get_messages_lem :
    (s : ChatServer) (room_name : String) (n : ℕ)
    → get_messages s s room_name (pos n)
      ≡ some (record {
        messages = drop n (messages_of s room_name);
        total = length (messages_of s room_name);
      })
get_messages_lem s room_name n = elim (Option-cases (lookup room_name s.rooms)) [
  | inl e ↦ get_missing s s room_name (pos n) e ∙ rw e (rw (drop-nil {A = ChatMessage} n) refl)
  | inr (room, e) ↦ get_found s s room_name n room room e e ∙ rw e refl
]

unfoldable pub see : ChatClient → (room_name : String) (n : ℕ) → ChatClient
see c room_name n = record c { last_seen = insert room_name n c.last_seen }

pub seen-see :
    (c : ChatClient) (room_name : String) (n : ℕ) → seen (see c room_name n) room_name ≡ n
unfolding see
seen-see c room_name n = ap seen_value (lookup-insert_same room_name n c.last_seen)
  where
    seen_value : Option ℕ → ℕ
    seen_value o = elim o [ none ↦ 0 | some n ↦ n ]

-- A poll either leaves the client as it was, or returns what the client has not seen.
pub poll_cases :
    (c : ChatClient) (s : ChatServer) (room_name : String) (outcome : Outcome)
    → (poll_messages c s s room_name outcome ≡ some (c, none))
      ⊎ (poll_messages c s s room_name outcome
          ≡ some (
            see c room_name (length (messages_of s room_name)),
            some (drop (seen c room_name) (messages_of s room_name)),
          ))
unfolding poll_messages see
poll_cases c s room_name lost = elim (Bool-cases c.connected) [
  | inr off ↦ inl (simp (off, poll_messages))
  | inl on ↦ inl (simp (on, poll_messages))
]
poll_cases c s room_name unanswered = elim (Bool-cases c.connected) [
  | inr off ↦ inl (simp (off, poll_messages))
  | inl on ↦ inl (simp (on, poll_messages, get_messages_lem s room_name (seen c room_name)))
]
poll_cases c s room_name answered = elim (Bool-cases c.connected) [
  | inr off ↦ inl (simp (off, poll_messages))
  | inl on ↦ inr (simp (on, poll_messages, get_messages_lem s room_name (seen c room_name)))
]

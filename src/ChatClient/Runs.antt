-- ===== src/ChatClient/Runs.antt =====
-- A client of internal/client/client.go that polls one room of a server that goes on serving others.
use ensemble_chat.Common.{
  ℕ, ◌≤◌, ◌≡◌, inl, inr, true, false, str_eq, lookup, insert, lookup-insert, if◌then◌else◌,
  Bool-cases, refl, sym, ap, ◌∙◌, Option, none, some, List, [], ◌∷◌, ◌++◌, String, length,
  length-append, append_assoc, drop, arith,
}
use ensemble_chat.ChatServer.{ChatMessage, ChatServer, join_room}
use ensemble_chat.ChatServer.Rooms.{messages_of}
use ensemble_chat.ChatClient.{
  Outcome, lost, unanswered, answered, ChatClient, seen, join_room_rpc, poll_messages,
}
use ensemble_chat.ChatClient.Growth.{
  Event, rejoined, polled, join_room-Grows, serve, Grows, Grows-refl, Grows-trans,
}
use ensemble_chat.ChatClient.Reads.{drop-all, drop-append, see, seen-see}

abbrev pub received : Option (List ChatMessage) → List ChatMessage
received none = []
received (some messages) = messages

-- The client polls one room, and joins rooms; a poll takes both of its locks with nothing in between. The state at the
-- end, and the messages that the polls return.
unfoldable pub run :
    ChatClient
    → ChatServer
    → (room_name : String) → List Event
    → Option (ChatClient × ChatServer × List ChatMessage)
unfolding serve join_room_rpc
run c s room_name [] = some (c, s, [])
run c s room_name (polled outcome ∷ es) = elim (poll_messages c s s room_name outcome) [
  | none ↦ none
  | some (c', got) ↦ elim (run c' s room_name es) [
    | none ↦ none
    | some (c'', s', more) ↦ some (c'', s', received got ++ more)
  ]
]
run c s room_name (rejoined name now outcome ∷ es) =
    let (c', s', _) = join_room_rpc c s name now outcome in run c' s' room_name es
run c s room_name (e ∷ es) = run c (serve s e) room_name es

-- The client does not join this room anew with an answer, which would set what it has seen to 0.
abbrev pub StaysIn : (room_name : String) → List Event → Type 0
StaysIn room_name [] = Unit
StaysIn room_name (rejoined name now answered ∷ es) =
    (str_eq name room_name ≡ false) × StaysIn room_name es
StaysIn room_name (e ∷ es) = StaysIn room_name es

-- What a run of events comes to.
pub record Delivered (c : ChatClient) (s : ChatServer) (room_name : String) (c' : ChatClient)
    (s' : ChatServer) (got : List ChatMessage) : Type 0 where
  pub grown : Grows s s' room_name
  pub in_room : seen c' room_name ≤ length (messages_of s' room_name)
  pub once :
      got ++ drop (seen c' room_name) (messages_of s' room_name)
      ≡ drop (seen c room_name) (messages_of s' room_name)

length-Grows :
    (s s' : ChatServer) (room_name : String)
    → Grows s s' room_name
    → length (messages_of s room_name) ≤ length (messages_of s' room_name)
length-Grows s s' room_name (more, e) =
    omega (arith, ap length e, length-append (messages_of s room_name) more)

-- What one poll returns and what the later ones return.
drop-next {ℓ} :
    {A : Type ℓ} (n : ℕ) (xs more : List A)
    → n ≤ length xs
    → drop n xs ++ drop (length xs) (xs ++ more) ≡ drop n (xs ++ more)
drop-next n xs more h =
    ap (λ ys. drop n xs ++ ys)
      (drop-append (length xs) xs more (omega arith)
        ∙ ap (λ ys. ys ++ more) (drop-all (length xs) xs (omega arith)))
    ∙ sym (drop-append n xs more h)

abbrev pub Ends : ChatClient → ChatServer → (room_name : String) → List Event → Type 0
Ends c s room_name es =
    (c' : ChatClient) × (s' : ChatServer) × (got : List ChatMessage) × (run c s room_name es
      ≡ some (c', s', got))
    × Delivered c s room_name c' s' got

pub after_serve :
    (c c1 : ChatClient) (s s1 : ChatServer) (room_name : String) (e : Event) (es : List Event)
    → run c s room_name (e ∷ es) ≡ run c1 s1 room_name es
    → Grows s s1 room_name
    → seen c1 room_name ≡ seen c room_name
    → Ends c1 s1 room_name es
    → Ends c s room_name (e ∷ es)
after_serve c c1 s s1 room_name e es step grows same (c', s', got, x, d) = (
  c',
  s',
  got,
  step ∙ x,
  record {
    grown = Grows-trans s s1 s' room_name grows d.grown;
    in_room = d.in_room;
    once = d.once ∙ ap (λ n. drop n (messages_of s' room_name)) same;
  },
)

-- What is still in the room after more is served.
pub still_seen :
    (c c1 : ChatClient) (s s1 : ChatServer) (room_name : String)
    → Grows s s1 room_name
    → seen c1 room_name ≡ seen c room_name
    → seen c room_name ≤ length (messages_of s room_name)
    → seen c1 room_name ≤ length (messages_of s1 room_name)
still_seen c c1 s s1 room_name grows same h =
    omega (arith, h, same, length-Grows s s1 room_name grows)

-- `JoinRoomRPC` of another room, or without an answer.
module _ (c : ChatClient) (s : ChatServer) (room_name name : String) (now : ℕ)
    (es : List Event) where
  pub join_room_rpc_cases :
      (outcome : Outcome)
      → StaysIn room_name (rejoined name now outcome ∷ es)
      → (c1 : ChatClient) × (s1 : ChatServer) × (run c s room_name (rejoined name now outcome ∷ es)
          ≡ run c1 s1 room_name es)
        × Grows s s1 room_name
        × (seen c1 room_name ≡ seen c room_name)
        × StaysIn room_name es
  unfolding run join_room_rpc
  join_room_rpc_cases outcome h = elim (Bool-cases c.connected) [
    | inr off ↦ (c, s, rw off refl, Grows-refl s room_name, refl, later outcome h)
    | inl on ↦ by_outcome outcome h on
  ]
    where
      grows : Grows s (join_room s c.id name now).0 room_name
      grows = join_room-Grows s c.id name now room_name

      later :
          (outcome : Outcome)
          → StaysIn room_name (rejoined name now outcome ∷ es)
          → StaysIn room_name es
      later lost h = h
      later unanswered h = h
      later answered (_, h) = h

      by_outcome :
          (outcome : Outcome)
          → StaysIn room_name (rejoined name now outcome ∷ es)
          → c.connected ≡ true
          → (c1 : ChatClient) × (s1 : ChatServer) × (run c s room_name
                (rejoined name now outcome ∷ es)
              ≡ run c1 s1 room_name es)
            × Grows s s1 room_name
            × (seen c1 room_name ≡ seen c room_name)
            × StaysIn room_name es
      by_outcome lost h on = (c, s, rw on refl, Grows-refl s room_name, refl, h)
      by_outcome unanswered h on = (c, (join_room s c.id name now).0, rw on refl, grows, refl, h)
      by_outcome answered (other, h) on = (
        record c { last_seen = insert name 0 c.last_seen },
        (join_room s c.id name now).0,
        rw on refl,
        grows,
        ap (λ (o : Option ℕ). elim o [ none ↦ 0 | some n ↦ n ])
            (lookup-insert name room_name 0 c.last_seen
              ∙ ap (λ b. if b then some 0 else lookup room_name c.last_seen) other),
        h,
      )

run_poll :
    (c : ChatClient) (s : ChatServer) (room_name : String) (outcome : Outcome) (es : List Event)
    (c1 : ChatClient) (got : Option (List ChatMessage)) (c' : ChatClient) (s' : ChatServer)
    (more : List ChatMessage)
    → poll_messages c s s room_name outcome ≡ some (c1, got)
    → run c1 s room_name es ≡ some (c', s', more)
    → run c s room_name (polled outcome ∷ es) ≡ some (c', s', received got ++ more)
unfolding run
run_poll c s room_name outcome es c1 got c' s' more p x = rw (p, run) (rw x refl)

pub after_nothing :
    (c : ChatClient) (s : ChatServer) (room_name : String) (outcome : Outcome) (es : List Event)
    → poll_messages c s s room_name outcome ≡ some (c, none)
    → Ends c s room_name es
    → Ends c s room_name (polled outcome ∷ es)
after_nothing c s room_name outcome es p (c', s', got, x, d) =
    (c', s', got, run_poll c s room_name outcome es c none c' s' got p x, d)

pub after_poll :
    (c : ChatClient) (s : ChatServer) (room_name : String) (outcome : Outcome) (es : List Event)
    → seen c room_name ≤ length (messages_of s room_name)
    → poll_messages c s s room_name outcome
      ≡ some (
        see c room_name (length (messages_of s room_name)),
        some (drop (seen c room_name) (messages_of s room_name)),
      )
    → Ends (see c room_name (length (messages_of s room_name))) s room_name es
    → Ends c s room_name (polled outcome ∷ es)
after_poll c s room_name outcome es h p (c', s', got, x, d) =
    let m = messages_of s room_name in
    let n = seen c room_name in
    let (more, grown) = d.grown in
    let next : drop (seen (see c room_name (length m)) room_name) (messages_of s' room_name)
        ≡ drop (length m) (m ++ more) =
      ap (λ k. drop k (messages_of s' room_name)) (seen-see c room_name (length m))
      ∙ ap (λ ys. drop (length m) ys) grown in
    (
      c',
      s',
      drop n m ++ got,
      run_poll c s room_name outcome es (see c room_name (length m)) (some (drop n m)) c' s' got p
          x,
      record {
        grown = d.grown;
        in_room = d.in_room;
        once =
            append_assoc (drop n m) got (drop (seen c' room_name) (messages_of s' room_name))
            ∙ ap (λ ys. drop n m ++ ys) (d.once ∙ next)
            ∙ drop-next n m more h
            ∙ ap (λ ys. drop n ys) (sym grown);
      },
    )

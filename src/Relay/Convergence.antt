-- ===== src/Relay/Convergence.antt =====
-- Both servers of demo/demo_cross_server_chat/main.go get every message.
use ensemble_chat.Common.{
  ℕ, ◌+◌, ◌≡◌, refl, ap, ◌∙◌, inl, inr, true, ◌&&◌, none, some, List, [], ◌∷◌, ◌++◌, String, lookup,
  str_eq, if◌then◌else◌, arith, append-nil, Bool-cases,
}
use ensemble_chat.ChatServer.{ChatServer, new_chat_room, new_chat_server}
use ensemble_chat.ChatServer.Rooms.{messages_of, posted}
use ensemble_chat.ChatServer.Joins.{lookup-insert_same, create_new}
use ensemble_chat.Relay.{
  Side, alpha, beta, other, put, RelayMessageArgs, Pair, set_server, send, deliver, Step, sent,
  joined, delivered, failed, start_server, start, Reach, here, next,
}
use ensemble_chat.Relay.Posts.{
  HasRoom, is_hit, count_messages, count_relays, count_messages-append, count_relays-append, Kept,
  Posted, relay_message-Posted, same_server, count-calls, join_room-Kept, join_room-texts,
}

module _ (room_name sender content : String) where
  -- How often the text of the sender stands in the room of one server, is on the way there, or was lost.
  unfoldable pub weight : (i : Side) → Pair → ℕ
  weight i p =
      count_messages sender content (messages_of (p.servers i) room_name)
      + count_relays room_name sender content (p.relays i)
      + count_relays room_name sender content (p.lost i)

-- Both servers have the callback and the room, and the weights agree.
pub record IsBalanced (room_name : String) (p : Pair) : Type 0 where
  pub callback : (i : Side) → (p.servers i).on_message_received ≡ true
  pub room : (i : Side) → HasRoom (p.servers i) room_name
  pub weights :
      (sender content : String)
      → weight room_name sender content alpha p ≡ weight room_name sender content beta p

-- The other server stays, and the one gets no worse.
put-Kept :
    (p : Pair) (i : Side) (s : ChatServer)
    → Kept (p.servers i) s
    → (j : Side) → Kept (p.servers j) (put i s p.servers j)
put-Kept p alpha s k alpha = k
put-Kept p alpha s k beta = record { callback = refl; rooms = λ r h. h }
put-Kept p beta s k alpha = record { callback = refl; rooms = λ r h. h }
put-Kept p beta s k beta = k

-- A message is counted once more.
post_count :
    (s s' : ChatServer) (target from text : String) (now : ℕ) (room_name sender content : String)
    → Posted s s' target from text now
    → HasRoom s room_name
    → count_messages sender content (messages_of s' room_name)
      ≡ count_messages sender content (messages_of s room_name)
        + (if str_eq target room_name && is_hit sender content from text then 1 else 0)
unfolding count_messages
post_count s s' target from text now room_name sender content posted_there h =
    ap (count_messages sender content) (posted_there.texts room_name h)
    ∙ elim (Bool-cases (str_eq target room_name)) [
      | inl b ↦
          rw
            (
              b,
              count_messages-append sender content (messages_of s room_name) (posted from text now),
            )
            (omega arith)
      | inr b ↦ rw (b, append-nil (messages_of s room_name)) (omega arith)
    ]

count-middle :
    (room_name sender content : String) (pre : List RelayMessageArgs) (r : RelayMessageArgs)
    (post : List RelayMessageArgs)
    → count_relays room_name sender content (pre ++ r ∷ post)
      ≡ count_relays room_name sender content (pre ++ post)
        + (if str_eq r.room_name room_name && is_hit sender content r.sender r.content
            then 1
            else 0)
unfolding count_relays
count-middle room_name sender content pre r post = omega (
  arith,
  count_relays-append room_name sender content pre (r ∷ post),
  count_relays-append room_name sender content pre post,
)

abbrev arrived : Pair → Side → ChatServer → (relays lost : Side → List RelayMessageArgs) → Pair
arrived p i s relays lost = record { servers = put i s p.servers; relays = relays; lost = lost }

-- A server that is no worse than before, beside relays that keep the weights equal.
arrived-IsBalanced :
    (room_name : String) (p : Pair) (i : Side) (s : ChatServer)
    (relays lost : Side → List RelayMessageArgs)
    → IsBalanced room_name p
    → Kept (p.servers i) s
    → ((sender content : String)
        → weight room_name sender content alpha (arrived p i s relays lost)
          ≡ weight room_name sender content beta (arrived p i s relays lost))
    → IsBalanced room_name (arrived p i s relays lost)
arrived-IsBalanced room_name p i s relays lost b k w = record {
  callback = λ j. (put-Kept p i s k j).callback ∙ b.callback j;
  room = λ j. (put-Kept p i s k j).rooms room_name (b.room j);
  weights = w;
}

module _ (room_name : String) (p : Pair) (b : IsBalanced room_name p)
    (sender content : String) where
  sent_weights :
      (i : Side) (s : ChatServer) (calls : List RelayMessageArgs) (target from text : String)
      (now : ℕ)
      → Posted (p.servers i) s target from text now
      → count_relays room_name sender content calls
        ≡ (if str_eq target room_name && is_hit sender content from text then 1 else 0)
      → let q = arrived p i s (put (other i) (p.relays (other i) ++ calls) p.relays) p.lost in
        weight room_name sender content alpha q ≡ weight room_name sender content beta q
  unfolding weight
  sent_weights alpha s calls target from text now d e = omega (
    arith,
    b.weights sender content,
    e,
    count_relays-append room_name sender content (p.relays beta) calls,
    post_count (p.servers alpha) s target from text now room_name sender content d (b.room alpha),
  )
  sent_weights beta s calls target from text now d e = omega (
    arith,
    b.weights sender content,
    e,
    count_relays-append room_name sender content (p.relays alpha) calls,
    post_count (p.servers beta) s target from text now room_name sender content d (b.room beta),
  )

  delivered_weights :
      (i : Side) (s : ChatServer) (pre : List RelayMessageArgs) (r : RelayMessageArgs)
      (post : List RelayMessageArgs) (now : ℕ)
      → p.relays i ≡ pre ++ r ∷ post
      → Posted (p.servers i) s r.room_name r.sender r.content now
      → let q = arrived p i s (put i (pre ++ post) p.relays) p.lost in
        weight room_name sender content alpha q ≡ weight room_name sender content beta q
  unfolding weight
  delivered_weights alpha s pre r post now e d = omega (
    arith,
    b.weights sender content,
    ap (count_relays room_name sender content) e,
    count-middle room_name sender content pre r post,
    post_count (p.servers alpha) s r.room_name r.sender r.content now room_name sender content d
        (b.room alpha),
  )
  delivered_weights beta s pre r post now e d = omega (
    arith,
    b.weights sender content,
    ap (count_relays room_name sender content) e,
    count-middle room_name sender content pre r post,
    post_count (p.servers beta) s r.room_name r.sender r.content now room_name sender content d
        (b.room beta),
  )

  failed_weights :
      (i : Side) (pre : List RelayMessageArgs) (r : RelayMessageArgs) (post : List RelayMessageArgs)
      → p.relays i ≡ pre ++ r ∷ post
      → let q : Pair = record p {
        relays = put i (pre ++ post) p.relays;
        lost = put i (r ∷ p.lost i) p.lost;
      } in
        weight room_name sender content alpha q ≡ weight room_name sender content beta q
  unfolding weight count_relays
  failed_weights alpha pre r post e = omega (
    arith,
    b.weights sender content,
    ap (count_relays room_name sender content) e,
    count-middle room_name sender content pre r post,
  )
  failed_weights beta pre r post e = omega (
    arith,
    b.weights sender content,
    ap (count_relays room_name sender content) e,
    count-middle room_name sender content pre r post,
  )

  joined_weights :
      (i : Side) (s : ChatServer)
      → messages_of s room_name ≡ messages_of (p.servers i) room_name
      → let q = set_server p i s in
        weight room_name sender content alpha q ≡ weight room_name sender content beta q
  unfolding weight
  joined_weights alpha s e = rw e (b.weights sender content)
  joined_weights beta s e = rw e (b.weights sender content)

step-IsBalanced :
    (room_name : String) {p q : Pair} → Step p q → IsBalanced room_name p → IsBalanced room_name q
unfolding send deliver
step-IsBalanced room_name {p} (sent i target from text now) b =
    let d = relay_message-Posted (p.servers i) target from text now in
    rw (same_server (p.servers i) target from text now) (
      arrived-IsBalanced room_name p i _ _ _ b d.kept (λ sender content.
        sent_weights room_name p b sender content i _ _ target from text now d (
          count-calls (p.servers i) target from text now room_name sender content (b.callback i)
            (b.room i))))
step-IsBalanced room_name {p} (joined i client_id target now) b =
    arrived-IsBalanced room_name p i _ _ _ b (join_room-Kept (p.servers i) client_id target now)
      (λ sender content.
        joined_weights room_name p b sender content i _
          (join_room-texts (p.servers i) client_id target room_name now))
step-IsBalanced room_name {p} (delivered i pre r post now e) b =
    let d = relay_message-Posted (p.servers i) r.room_name r.sender r.content now in
    arrived-IsBalanced room_name p i _ _ _ b d.kept
      (λ sender content. delivered_weights room_name p b sender content i _ pre r post now e d)
step-IsBalanced room_name {p} (failed i pre r post e) b = record {
  callback = b.callback;
  room = b.room;
  weights = λ sender content. failed_weights room_name p b sender content i pre r post e;
}

reach-IsBalanced :
    (room_name : String) {p q : Pair} → Reach p q → IsBalanced room_name p → IsBalanced room_name q
reach-IsBalanced room_name here b = b
reach-IsBalanced room_name (next r s) b =
    step-IsBalanced room_name s (reach-IsBalanced room_name r b)

no_rooms : (id addr room_name : String) → lookup room_name (new_chat_server id addr).rooms ≡ none
unfolding new_chat_server lookup
no_rooms id addr room_name = refl

start_room :
    (id addr room_name : String) (now : ℕ)
    → lookup room_name (start_server id addr room_name now).rooms
      ≡ some (new_chat_room room_name now)
unfolding start_server
start_room id addr room_name now =
    ap (λ r. lookup room_name r.0.rooms)
      (create_new (new_chat_server id addr) room_name now (no_rooms id addr room_name))
    ∙ (lookup-insert_same room_name (new_chat_room room_name now) (new_chat_server id addr).rooms)

start_texts :
    (id addr room_name : String) (now : ℕ)
    → messages_of (start_server id addr room_name now) room_name ≡ []
unfolding new_chat_room
start_texts id addr room_name now = rw (start_room id addr room_name now) refl

pub start_callback :
    (room_name : String) (now now' : ℕ) (i : Side)
    → ((start room_name now now').servers i).on_message_received ≡ true
unfolding start start_server
start_callback room_name now now' alpha = refl
start_callback room_name now now' beta = refl

pub start-HasRoom :
    (room_name : String) (now now' : ℕ) (i : Side)
    → HasRoom ((start room_name now now').servers i) room_name
unfolding start
start-HasRoom room_name now now' alpha =
    (new_chat_room room_name now, start_room "Alpha" "127.0.0.1:9001" room_name now)
start-HasRoom room_name now now' beta =
    (new_chat_room room_name now', start_room "Beta" "127.0.0.1:9002" room_name now')

start-IsBalanced :
    (room_name : String) (now now' : ℕ) → IsBalanced room_name (start room_name now now')
unfolding start weight
start-IsBalanced room_name now now' = record {
  callback = start_callback room_name now now';
  room = start-HasRoom room_name now now';
  weights = λ sender content.
      rw
        (
          start_texts "Alpha" "127.0.0.1:9001" room_name now,
          start_texts "Beta" "127.0.0.1:9002" room_name now',
        )
        refl;
}

-- Two servers that start with a room, relay each message to the other and lose no relay: once no relay is
-- on the way, each text of each sender stands equally often in the room on both servers, in whichever order
-- clients sent and joined and relays arrived.
pub relays_converge :
    (room_name sender content : String) (now now' : ℕ) (p : Pair)
    → Reach (start room_name now now') p
    → ((i : Side) → p.relays i ≡ [])
    → ((i : Side) → p.lost i ≡ [])
    → count_messages sender content (messages_of (p.servers alpha) room_name)
      ≡ count_messages sender content (messages_of (p.servers beta) room_name)
unfolding weight count_relays
relays_converge room_name sender content now now' p r quiet whole =
    let b = reach-IsBalanced room_name r (start-IsBalanced room_name now now') in
    let none_left = λ (i : Side). ap (count_relays room_name sender content) (quiet i) in
    let none_lost = λ (i : Side). ap (count_relays room_name sender content) (whole i) in
    omega (
      arith,
      b.weights sender content,
      none_left alpha,
      none_left beta,
      none_lost alpha,
      none_lost beta,
    )

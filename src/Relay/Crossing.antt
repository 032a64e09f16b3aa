-- ===== src/Relay/Crossing.antt =====
-- Two messages that cross on the way between the servers of demo/demo_cross_server_chat/main.go.
use ensemble_chat.Common.{
  ℕ, ◌≡◌, refl, ap, ap₂, ◌∙◌, true, List, [], ◌∷◌, ◌++◌, map, String, str_eq_iff,
}
use ensemble_chat.ChatServer.{ChatServer, send_message}
use ensemble_chat.ChatServer.Rooms.{messages_of, posted, send_found}
use ensemble_chat.Relay.{
  Side, alpha, beta, RelayMessageArgs, forward, Pair, put, send, deliver, sent, delivered, Reach,
  here, next,
}
use ensemble_chat.Relay.Posts.{HasRoom, Posted, relay_message-Posted, same_server}

module _ (s : ChatServer) (room_name sender content : String) (now : ℕ) where
  one_call :
      s.on_message_received ≡ true
      → HasRoom s room_name
      → map forward (send_message s room_name sender content now).2
        ≡ record { room_name = room_name; sender = sender; content = content } ∷ []
  one_call on (room, e) = rw ((send_found s room_name sender content now room e).0, on) refl

  send_message-Posted :
      Posted s (send_message s room_name sender content now).0 room_name sender content now
  send_message-Posted =
      rw (same_server s room_name sender content now)
        (relay_message-Posted s room_name sender content now)

  appended :
      (s' : ChatServer)
      → Posted s s' room_name sender content now
      → HasRoom s room_name
      → messages_of s' room_name ≡ messages_of s room_name ++ posted sender content now
  appended s' d h = d.texts room_name h ∙ rw ((str_eq_iff room_name room_name).1 refl) refl

-- In any state of two servers with the room, the callbacks and no relay on the way, let one client send on
-- one server and another on the other before either relay arrives. Then there is a run in which all relays
-- arrive and the two servers hold the two new messages in opposite orders.
pub crossing_swaps :
    (p : Pair) (room_name sender content sender' content' : String) (t0 t1 t2 t3 : ℕ)
    → ((i : Side) → (p.servers i).on_message_received ≡ true)
    → ((i : Side) → HasRoom (p.servers i) room_name)
    → ((i : Side) → p.relays i ≡ [])
    → (q : Pair) × Reach p q
      × ((i : Side) → q.relays i ≡ [])
      × (messages_of (q.servers alpha) room_name
          ≡ messages_of (p.servers alpha) room_name
            ++ posted sender content t0
            ++ posted sender' content' t3)
      × (messages_of (q.servers beta) room_name
          ≡ messages_of (p.servers beta) room_name
            ++ posted sender' content' t1
            ++ posted sender content t2)
unfolding send deliver
crossing_swaps p room_name sender content sender' content' t0 t1 t2 t3 on room quiet =
    let a = p.servers alpha in
    let b = p.servers beta in
    let da = send_message-Posted a room_name sender content t0 in
    let db = send_message-Posted b room_name sender' content' t1 in
    let a' = (send_message a room_name sender content t0).0 in
    let b' = (send_message b room_name sender' content' t1).0 in
    let ra = da.kept.rooms room_name (room alpha) in
    let rb = db.kept.rooms room_name (room beta) in
    let x : RelayMessageArgs = record {
      room_name = room_name;
      sender = sender;
      content = content;
    } in
    let y : RelayMessageArgs = record {
      room_name = room_name;
      sender = sender';
      content = content';
    } in
    let q = send (send p alpha room_name sender content t0) beta room_name sender' content' t1 in
    let q' = deliver q beta x [] t2 in
    (
      deliver q' alpha y [] t3,
      next
          (next
            (next (next here (sent alpha room_name sender content t0))
              (sent beta room_name sender' content' t1))
            (delivered beta [] x [] t2 (
              ap₂ ◌++◌ (quiet beta)
                (one_call a room_name sender content t0 (on alpha) (room alpha)))))
          (delivered alpha [] y [] t3 (
            ap₂ ◌++◌ (quiet alpha)
              (one_call b room_name sender' content' t1 (on beta) (room beta)))),
      no_relays q.relays,
      appended a' room_name sender' content' t3 _
            (relay_message-Posted a' room_name sender' content' t3) ra
          ∙ ap (λ ms. ms ++ posted sender' content' t3)
              (appended a room_name sender content t0 a' da (room alpha)),
      appended b' room_name sender content t2 _
            (relay_message-Posted b' room_name sender content t2) rb
          ∙ ap (λ ms. ms ++ posted sender content t2)
              (appended b room_name sender' content' t1 b' db (room beta)),
    )
  where
    no_relays : (f : Side → List RelayMessageArgs) (i : Side) → put alpha [] (put beta [] f) i ≡ []
    no_relays f alpha = refl
    no_relays f beta = refl

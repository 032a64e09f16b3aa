-- ===== src/ChatClient/Polling.antt =====
-- `PollMessages` of internal/client/client.go against a server that goes on serving others.
use ensemble_chat.Common.{◌≤◌, ◌≡◌, inl, inr, refl, some, List, [], ◌∷◌, String, length, arith}
use ensemble_chat.ChatServer.{ChatMessage, ChatServer}
use ensemble_chat.ChatServer.Rooms.{messages_of}
use ensemble_chat.ChatClient.{ChatClient, seen}
use ensemble_chat.ChatClient.Growth.{
  Event, sent, relayed, joined, rejoined, polled, serve, Grows-refl, serve-Grows,
}
use ensemble_chat.ChatClient.Reads.{see, seen-see, poll_cases}
use ensemble_chat.ChatClient.Runs.{
  run, StaysIn, Delivered, after_serve, still_seen, join_room_rpc_cases, after_nothing, after_poll,
}

-- Nothing is lost and nothing comes twice: a client that has seen no more messages of a room than
-- there are, and a server, go through any sequence of messages, relays and joins that the server serves
-- for anyone, of the client's own joins, except an answered one of that room, which sets what the
-- client has seen to 0, and of polls of that room by the client; the client's calls are each lost,
-- unanswered or answered, and a poll reads the messages and their number in one state. No poll panics,
-- the room's old messages stay where they were, and what the polls returned, in order, with what is
-- still unseen at the end, is exactly what the room has after what the client had seen at the start.
pub polls_deliver_once :
    (c : ChatClient) (s : ChatServer) (room_name : String) (es : List Event)
    → seen c room_name ≤ length (messages_of s room_name)
    → StaysIn room_name es
    → (c' : ChatClient) × (s' : ChatServer) × (got : List ChatMessage) × (run c s room_name es
        ≡ some (c', s', got))
      × Delivered c s room_name c' s' got
unfolding run
polls_deliver_once c s room_name [] h stays =
    (c, s, [], refl, record { grown = Grows-refl s room_name; in_room = h; once = refl })
polls_deliver_once c s room_name (polled outcome ∷ es) h stays =
    elim (poll_cases c s room_name outcome) [
      | inl p ↦
          after_nothing c s room_name outcome es p (polls_deliver_once c s room_name es h stays)
      | inr p ↦
          let c1 = see c room_name (length (messages_of s room_name)) in
          after_poll c s room_name outcome es h p (
            polls_deliver_once c1 s room_name es
              (omega (arith, seen-see c room_name (length (messages_of s room_name)))) stays)
    ]
polls_deliver_once c s room_name (rejoined name now outcome ∷ es) h stays =
    let (c1, s1, step, grows, same, stays') =
      join_room_rpc_cases c s room_name name now es outcome stays in
    after_serve c c1 s s1 room_name (rejoined name now outcome) es step grows same
      (polls_deliver_once c1 s1 room_name es (still_seen c c1 s s1 room_name grows same h) stays')
polls_deliver_once c s room_name (sent n x t w ∷ es) h stays =
    let grows = serve-Grows s (sent n x t w) room_name in
    after_serve c c s (serve s (sent n x t w)) room_name (sent n x t w) es refl grows refl (
      polls_deliver_once c (serve s (sent n x t w)) room_name es
        (still_seen c c s (serve s (sent n x t w)) room_name grows refl h) stays)
polls_deliver_once c s room_name (relayed n x t w ∷ es) h stays =
    let grows = serve-Grows s (relayed n x t w) room_name in
    after_serve c c s (serve s (relayed n x t w)) room_name (relayed n x t w) es refl grows refl (
      polls_deliver_once c (serve s (relayed n x t w)) room_name es
        (still_seen c c s (serve s (relayed n x t w)) room_name grows refl h) stays)
polls_deliver_once c s room_name (joined i n w ∷ es) h stays =
    let grows = serve-Grows s (joined i n w) room_name in
    after_serve c c s (serve s (joined i n w)) room_name (joined i n w) es refl grows refl (
      polls_deliver_once c (serve s (joined i n w)) room_name es
        (still_seen c c s (serve s (joined i n w)) room_name grows refl h) stays)

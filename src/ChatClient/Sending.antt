-- ===== src/ChatClient/Sending.antt =====
-- `SendMessageRPC` of internal/client/client.go: what the client learns of its message.
use ensemble_chat.Common.{
  ℕ, ◌≡◌, ◌⊎◌, inl, inr, Bool, true, false, none, some, List, [], String, lookup,
}
use ensemble_chat.ChatServer.{ChatRoom, ChatServer, Received, send_message}
use ensemble_chat.ChatServer.Rooms.{posted, Stored, call, send_message_stores}
use ensemble_chat.ChatClient.{ChatClient, answered, send_message_rpc}

send_opens :
    (c : ChatClient) (s s' : ChatServer) (room_name content : String) (now : ℕ) (ok : Bool)
    (calls : List Received)
    → c.connected ≡ true
    → send_message s room_name c.id content now ≡ (s', ok, calls)
    → send_message_rpc c s room_name content now answered ≡ (s', calls, true)
unfolding send_message_rpc
send_opens c s s' room_name content now ok calls on e = simp (on, send_message_rpc, e)

-- An answered send of a connected client is reported without an error in both cases: where the room is
-- on the server, and the message is stored at its end, and where the room is not there, the message is
-- dropped, and the server stays.
pub send_message_rpc_reports :
    (c : ChatClient) (s : ChatServer) (room_name content : String) (now : ℕ)
    → c.connected ≡ true
    → ((lookup room_name s.rooms ≡ none)
        × (send_message_rpc c s room_name content now answered ≡ (s, [], true)))
      ⊎ ((room : ChatRoom) × (s' : ChatServer) × (lookup room_name s.rooms ≡ some room)
          × (send_message_rpc c s room_name content now answered
              ≡ (s', call s room_name c.id content, true))
          × Stored s s' room_name (posted c.id content now))
send_message_rpc_reports c s room_name content now on =
    elim (send_message_stores s room_name c.id content now) [
      | inl (missing, e, _) ↦ inl (missing, send_opens c s s room_name content now false [] on e)
      | inr (room, s', there, e, _, stored) ↦ inr (
        room,
        s',
        there,
        send_opens c s s' room_name content now true (call s room_name c.id content) on e,
        stored,
      )
    ]

-- ===== src/ChatClient.antt =====
-- internal/client/client.go: a client of one chat server. The RPC library is a parameter, by its
-- outcome: a call that is lost does not reach the server, one that is unanswered runs there but returns
-- an error, and one that is answered returns the reply. The methods that only print
-- are left out, and so is `Disconnect`, which changes nothing but the connection.
pub mod Growth
pub mod Reads
pub mod Runs
pub mod Polling
pub mod Race
pub mod Sending
mod Examples
use ensemble_chat.Common.{
  ℕ, ℤ, pos, Bool, true, false, Option, none, some, List, [], String, Dict, lookup, insert,
}
use ensemble_chat.ChatServer.{
  ChatMessage, ChatServer, Received, send_message, join_room, GetMessagesReply, get_messages,
}

pub data Outcome : Type 0 where
  lost unanswered answered : Outcome

-- `connected`: the RPC client is set. `last_seen` reads 0 at a key that is not set.
pub record ChatClient : Type 0 where
  pub id : String
  pub server_addr : String
  pub connected : Bool
  pub last_seen : Dict ℕ

unfoldable pub new_chat_client : (id : String) → ChatClient
new_chat_client id = record { id = id; server_addr = ""; connected = false; last_seen = [] }

-- `dialed`: the dial succeeds.
unfoldable pub connect_to_server : ChatClient → (addr : String) (dialed : Bool) → ChatClient × Bool
connect_to_server c addr dialed = elim dialed [
  | true ↦ (record c { connected = true; server_addr = addr }, true)
  | false ↦ (c, false)
]

abbrev pub seen : ChatClient → (room_name : String) → ℕ
seen c room_name = elim (lookup room_name c.last_seen) [ none ↦ 0 | some n ↦ n ]

-- The client and the server afterwards, and whether there is no error.
unfoldable pub join_room_rpc :
    ChatClient
    → ChatServer
    → (room_name : String) (now : ℕ) → Outcome
    → ChatClient × ChatServer × Bool
join_room_rpc c s room_name now outcome = elim c.connected [
  | false ↦ (c, s, false)
  | true ↦ elim outcome [
    | lost ↦ (c, s, false)
    | unanswered ↦ (c, (join_room s c.id room_name now).0, false)
    | answered ↦ (
      record c { last_seen = insert room_name 0 c.last_seen },
      (join_room s c.id room_name now).0,
      true,
    )
  ]
]

-- The server afterwards, the calls of its callback, and whether there is no error. The reply is not read.
unfoldable pub send_message_rpc :
    ChatClient
    → ChatServer
    → (room_name content : String) (now : ℕ) → Outcome
    → ChatServer × List Received × Bool
send_message_rpc c s room_name content now outcome = elim c.connected [
  | false ↦ (s, [], false)
  | true ↦
      let (s', ok, calls) = send_message s room_name c.id content now in
      elim outcome [
        | lost ↦ (s, [], false)
        | unanswered ↦ (s', calls, false)
        | answered ↦ (s', calls, true)
      ]
]

-- The client and the messages, if there is no error. `none`: the handler panics. The handler reads
-- the messages in `s` and their number in `s'`.
unfoldable pub poll_messages :
    ChatClient
    → (s s' : ChatServer) (room_name : String) → Outcome
    → Option (ChatClient × Option (List ChatMessage))
poll_messages c s s' room_name outcome = elim c.connected [
  | false ↦ some (c, none)
  | true ↦ elim outcome [
    | lost ↦ some (c, none)
    | unanswered ↦ elim (get_messages s s' room_name (pos (seen c room_name))) [
      | none ↦ none
      | some reply ↦ some (c, none)
    ]
    | answered ↦ elim (get_messages s s' room_name (pos (seen c room_name))) [
      | none ↦ none
      | some reply ↦
          some
            (record c { last_seen = insert room_name reply.total c.last_seen }, some reply.messages)
    ]
  ]
]

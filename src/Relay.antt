-- ===== src/Relay.antt =====
-- demo/demo_cross_server_chat/main.go: two chat servers whose callbacks relay every message to the other
-- server. Each relay runs in a goroutine of its own: it is on the way from the call of the callback until
-- `RelayMessage` runs on the other server, in any order, or is lost when its dial or call fails.
pub mod Posts
pub mod Convergence
pub mod Crossing
mod Examples
use ensemble_chat.Common.{ℕ, ◌≡◌, Bool, true, List, [], ◌∷◌, ◌++◌, map, String}
use ensemble_chat.ChatServer.{
  ChatServer, Received, new_chat_server, create_room, send_message, relay_message, join_room,
}

pub data Side : Type 0 where
  alpha beta : Side

abbrev pub other : Side → Side
other alpha = beta
other beta = alpha

abbrev pub put {ℓ} : {A : Type ℓ} → Side → A → (Side → A) → Side → A
put alpha a f alpha = a
put alpha a f beta = f beta
put beta a f alpha = f alpha
put beta a f beta = a

-- `RelayMessageArgs`
pub record RelayMessageArgs : Type 0 where
  pub room_name : String
  pub sender : String
  pub content : String

-- The arguments that the callback makes.
abbrev pub forward : Received → RelayMessageArgs
forward r = record { room_name = r.room_name; sender = r.sender; content = r.content }

-- `relays` are those on the way to each server, and `lost` those that were. No server reads `lost`; it is
-- kept for the proofs.
pub record Pair : Type 0 where
  pub servers : Side → ChatServer
  pub relays : Side → List RelayMessageArgs
  pub lost : Side → List RelayMessageArgs

abbrev pub set_server : Pair → Side → ChatServer → Pair
set_server p i s = record p { servers = put i s p.servers }

-- `SendMessage` on one server, whose callback starts the relays to the other.
unfoldable pub send : Pair → Side → (room_name sender content : String) (now : ℕ) → Pair
unfolding send_message
send p i room_name sender content now =
    let (s, ok, calls) = send_message (p.servers i) room_name sender content now in
    record (set_server p i s) {
      relays = put (other i) (p.relays (other i) ++ map forward calls) p.relays;
    }

-- `RelayMessage` on the server that the relay goes to; `rest` are the other relays to it.
unfoldable pub deliver :
    Pair → Side → RelayMessageArgs → (rest : List RelayMessageArgs) (now : ℕ) → Pair
unfolding relay_message
deliver p i r rest now =
    let (s, ok) = relay_message (p.servers i) r.room_name r.sender r.content now in
    record (set_server p i s) { relays = put i rest p.relays }

pub data Step (p : Pair) : Pair → Type 0 where
  sent :
      (i : Side) (room_name sender content : String) (now : ℕ)
      → Step p (send p i room_name sender content now)
  joined :
      (i : Side) (client_id room_name : String) (now : ℕ)
      → Step p (set_server p i (join_room (p.servers i) client_id room_name now).0)
  delivered :
      (i : Side) (pre : List RelayMessageArgs) (r : RelayMessageArgs) (post : List RelayMessageArgs)
      (now : ℕ)
      → p.relays i ≡ pre ++ r ∷ post
      → Step p (deliver p i r (pre ++ post) now)
  failed :
      (i : Side) (pre : List RelayMessageArgs) (r : RelayMessageArgs) (post : List RelayMessageArgs)
      → p.relays i ≡ pre ++ r ∷ post
      → Step p
          (record p { relays = put i (pre ++ post) p.relays; lost = put i (r ∷ p.lost i) p.lost })

-- The server of one side with the room and the callback.
unfoldable pub start_server : (id addr room_name : String) (now : ℕ) → ChatServer
unfolding new_chat_server create_room
start_server id addr room_name now =
    record (create_room (new_chat_server id addr) room_name now).0 { on_message_received = true }

unfoldable pub start : (room_name : String) (now now' : ℕ) → Pair
unfolding start_server
start room_name now now' = record {
  servers = λ i. elim i [
    | alpha ↦ start_server "Alpha" "127.0.0.1:9001" room_name now
    | beta ↦ start_server "Beta" "127.0.0.1:9002" room_name now'
  ];
  relays = λ i. [];
  lost = λ i. [];
}

pub data Reach (p : Pair) : Pair → Type 0 where
  here : Reach p p
  next : {q r : Pair} → Reach p q → Step q r → Reach p r

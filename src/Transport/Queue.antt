-- ===== src/Transport/Queue.antt =====
-- The message queue and the reconnection delays of `WebSocketClient`
-- (src/transport/websocket-client.ts). Messages are numbers, and the clock's readings are arguments.
use Prim.Native.Nat.{min}
use nero_mpc_sdk.Base.{
  ℕ, suc, ◌+◌, ◌-◌, ◌≤◌, ◌<◌, ◌≡◌, refl, arith, ltb, leb, Bool, true, false, not, if◌then◌else◌,
  Bool-cases, inl, inr, List, [], ◌∷◌, ◌++◌, length, length-append, drop, get_elem?, Option, none,
}

pub record PendingMessage : Type 0 where
  pub message : ℕ
  pub timestamp : ℕ

-- `is_open` is `ws !== null && ws.readyState === WebSocket.OPEN`; `waiting` is whether a reconnection
-- is scheduled.
pub record SocketClient : Type 0 where
  pub is_open : Bool
  pub message_queue : List PendingMessage
  pub reconnect_attempt : ℕ
  pub waiting : Bool

abbrev pub message_queue_max : ℕ
message_queue_max = 100

abbrev pub reconnect_delays : List ℕ
reconnect_delays = 1000 ∷ 2000 ∷ 5000 ∷ 10000 ∷ 30000 ∷ []

unfoldable pub queue_message : ℕ → ℕ → SocketClient → SocketClient
queue_message now message client =
    let kept =
      if leb message_queue_max (length client.message_queue)
      then drop 1 client.message_queue
      else client.message_queue in
    record client { message_queue = kept ++ record { message = message; timestamp = now } ∷ [] }

-- The client afterwards, and what goes over the socket.
unfoldable pub send : ℕ → ℕ → SocketClient → SocketClient × List ℕ
send now message client =
    if not client.is_open then (queue_message now message client, []) else (client, message ∷ [])

unfoldable pub valid_messages : ℕ → List PendingMessage → List PendingMessage
valid_messages now [] = []
valid_messages now (item ∷ queue) =
    let rest = valid_messages now queue in
    if ltb now (item.timestamp + 60000) then item ∷ rest else rest

unfoldable pub send_all : ℕ → List PendingMessage → SocketClient → SocketClient × List ℕ
send_all now [] client = (client, [])
send_all now (item ∷ items) client =
    let (next, sent) = send now item.message client in
    let (last, rest) = send_all now items next in (last, sent ++ rest)

unfoldable pub flush_message_queue : ℕ → SocketClient → SocketClient × List ℕ
flush_message_queue now client =
    send_all now (valid_messages now client.message_queue) (record client { message_queue = [] })

-- The delay of the timer that is set, if one is.
unfoldable pub schedule_reconnect : SocketClient → SocketClient × Option ℕ
schedule_reconnect client = if client.waiting then (client, none) else (
  record client { waiting = true },
  get_elem? reconnect_delays (min client.reconnect_attempt (length reconnect_delays - 1)),
)

unfoldable pub stop_reconnect : SocketClient → SocketClient
stop_reconnect client = record client { waiting = false; reconnect_attempt = 0 }

abbrev pub IsBounded : SocketClient → Type 0
IsBounded client = length client.message_queue ≤ message_queue_max

length-drop_one :
    {A : Type 0} (xs : List A) → 100 ≤ length xs → suc (length (drop 1 xs)) ≡ length xs
length-drop_one [] h = absurd (omega arith)
length-drop_one (x ∷ xs) h = refl

queue_message-IsBounded :
    (now message : ℕ) (client : SocketClient)
    → IsBounded client
    → IsBounded (queue_message now message client)
unfolding queue_message
queue_message-IsBounded now message client h =
    elim (Bool-cases (leb message_queue_max (length client.message_queue))) [
      | inl full ↦ rw full (
          omega (
            arith,
            length-append (drop 1 client.message_queue)
                (record { message = message; timestamp = now } ∷ []),
            length-drop_one client.message_queue (ground arith),
          ))
      | inr room ↦ rw room (
          fits (ground arith) (
            length-append client.message_queue
              (record { message = message; timestamp = now } ∷ [])))
    ]
  where
    fits : {k l : ℕ} → k < 100 → l ≡ k + 1 → l ≤ 100
    fits h e = omega arith

send-IsBounded :
    (now message : ℕ) (client : SocketClient)
    → IsBounded client
    → IsBounded (send now message client).0
unfolding send queue_message
send-IsBounded now message client h = elim (Bool-cases client.is_open) [
  | inl e ↦ rw e h
  | inr e ↦ rw e (queue_message-IsBounded now message client h)
]

send_all-IsBounded :
    (now : ℕ) (items : List PendingMessage) (client : SocketClient)
    → IsBounded client
    → IsBounded (send_all now items client).0
unfolding send_all
send_all-IsBounded now [] client h = h
send_all-IsBounded now (item ∷ items) client h =
    send_all-IsBounded now items (send now item.message client).0
      (send-IsBounded now item.message client h)

-- A queue of at most 100 messages stays so, whether a message is sent or the queue is flushed, with
-- the socket open or closed.
pub queue_stays-IsBounded :
    (now message : ℕ) (client : SocketClient)
    → IsBounded client
    → IsBounded (send now message client).0 × IsBounded (flush_message_queue now client).0
unfolding flush_message_queue
queue_stays-IsBounded now message client h = (
  send-IsBounded now message client h,
  send_all-IsBounded now (valid_messages now client.message_queue)
      (record client { message_queue = [] }) (omega arith),
)

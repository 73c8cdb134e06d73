-- ===== src/Listener.antt =====
-- debug_server/src/server.rs: `ServerThread`, which passes the client's requests on to the server's
-- channel. The bytes are what the client sends before its side of the connection is gone; bincode's
-- decoder and the encoder of the client are arguments.
pub mod Ends
pub mod Frames
mod Tests
use auxtools.Base.{
  ℕ, zero, suc, ◌+◌, ◌-◌, ◌*◌, ◌/◌, ◌%◌, ◌^◌, Bool, true, false, Option, none, some, List, [], ◌∷◌,
  ◌++◌, leb, if◌then◌else◌, length,
}
use auxtools.Server.Messages.{Request, disconnect}

-- Why the thread finishes.
pub data Reason : Type 0 where
  read_error not_a_request disconnected receiver_gone out_of_fuel : Reason

-- The channel: what was sent, and how many requests it takes before its receiver is gone.
pub record Channel : Type 0 where
  pub sent : List Request
  pub room : ℕ

unfoldable pub send : Request → Channel → Option Channel
send r c = elim c.room [ zero ↦ none | suc n ↦ some (record { sent = c.sent ++ r ∷ []; room = n }) ]

-- `handle_request`: whether to disconnect, or an error.
pub data Handled : Type 0 where
  goes_on : Channel → Handled
  stops : Reason → Handled

unfoldable pub take : {A : Type 0} → ℕ → List A → List A
take zero xs = []
take (suc n) [] = []
take (suc n) (x ∷ xs) = x ∷ take n xs

unfoldable pub drop : {A : Type 0} → ℕ → List A → List A
drop zero xs = xs
drop (suc n) [] = []
drop (suc n) (x ∷ xs) = drop n xs

-- `read_exact`
unfoldable pub read_exact : ℕ → List ℕ → Option (List ℕ × List ℕ)
unfolding take drop
read_exact n bytes = if leb n (length bytes) then some (take n bytes, drop n bytes) else none

-- `u32::from_le_bytes`
unfoldable pub from_le_bytes : List ℕ → ℕ
from_le_bytes [] = 0
from_le_bytes (b ∷ bs) = b + 256 * from_le_bytes bs

module _ (deserialize : List ℕ → Option Request) where
  unfoldable pub handle_request : List ℕ → Channel → Handled
  unfolding send
  handle_request data_bytes c = elim (deserialize data_bytes) [
    | none ↦ stops not_a_request
    | some disconnect ↦ stops disconnected
    | some request ↦ elim (send request c) [ none ↦ stops receiver_gone | some more ↦ goes_on more ]
  ]

  -- The loop of `run`. `fuel` bounds its rounds, each of which takes four bytes at least.
  unfoldable pub run : (fuel : ℕ) → List ℕ → Channel → Reason × Channel
  unfolding read_exact from_le_bytes handle_request
  run zero bytes c = (out_of_fuel, c)
  run (suc fuel) bytes c = elim (read_exact 4 bytes) [
    | none ↦ (read_error, c)
    | some (len_bytes, bytes) ↦ elim (read_exact (from_le_bytes len_bytes) bytes) [
      | none ↦ (read_error, c)
      | some (buf, bytes) ↦ elim (handle_request buf c) [
        | goes_on more ↦ run fuel bytes more
        | stops reason ↦ (reason, c)
      ]
    ]
  ]

-- `u32::to_le_bytes`
unfoldable pub to_le_bytes : ℕ → ℕ → List ℕ
to_le_bytes zero n = []
to_le_bytes (suc k) n = n % 256 ∷ to_le_bytes k (n / 256)

-- What `send` writes for a message, on either side: its length as a `u32`, and its bytes.
unfoldable pub frame : List ℕ → List ℕ
unfolding to_le_bytes
frame data_bytes = to_le_bytes 4 (length data_bytes % 2 ^ 32) ++ data_bytes

-- `spawn_listener`: a client is accepted, its stream is passed to the server, and the thread reads
-- from it; `sent` is whether the server still takes the stream. `none` is a thread that ends before it
-- reads.
module _ (deserialize : List ℕ → Option Request) where
  unfoldable pub spawn_listener :
      (fuel : ℕ) (accepted : Option (List ℕ)) (sent : Bool) → Channel → Option Reason × Channel
  unfolding run
  spawn_listener fuel none sent c = (none, c)
  spawn_listener fuel (some bytes) false c = (none, c)
  spawn_listener fuel (some bytes) true c =
      let (reason, d) = run deserialize fuel bytes c in (some reason, d)

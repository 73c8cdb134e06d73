-- ===== src/Listener/Frames.antt =====
-- debug_server/src/server.rs: requests that are sent as frames, and what the listener makes of them.
use mathlib.Core.List.{append_assoc, append-nil}
use auxtools.Base.{
  ℕ, zero, suc, ◌+◌, ◌/◌, ◌%◌, ◌^◌, ◌<◌, ◌≡◌, ◌≢◌, refl, sym, ap, ◌∙◌, Option, some, List, [], ◌∷◌,
  ◌++◌, arith, length, length-append,
}
use auxtools.Server.Messages.{Request, disconnect}
use auxtools.Listener.{
  Reason, disconnected, Channel, Handled, goes_on, stops, take, drop, read_exact, from_le_bytes,
  to_le_bytes, send, handle_request, run, frame,
}
use auxtools.Listener.Ends.{run_round}

take-append : {A : Type 0} (xs ys : List A) → take (length xs) (xs ++ ys) ≡ xs
unfolding take
take-append [] ys = refl
take-append (x ∷ xs) ys = ap (λ t. x ∷ t) (take-append xs ys)

drop-append : {A : Type 0} (xs ys : List A) → drop (length xs) (xs ++ ys) ≡ ys
unfolding drop
drop-append [] ys = refl
drop-append (x ∷ xs) ys = drop-append xs ys

read_exact-append : (xs ys : List ℕ) → read_exact (length xs) (xs ++ ys) ≡ some (xs, ys)
unfolding read_exact
read_exact-append xs ys = ground (arith, length-append xs ys, take-append xs ys, drop-append xs ys)

length-to_le_bytes : (k n : ℕ) → length (to_le_bytes k n) ≡ k
unfolding to_le_bytes
length-to_le_bytes zero n = refl
length-to_le_bytes (suc k) n = ap suc (length-to_le_bytes k (n / 256))

from_le_bytes-to_le_bytes : (n : ℕ) → n < 2 ^ 32 → from_le_bytes (to_le_bytes 4 n) ≡ n
unfolding from_le_bytes to_le_bytes
from_le_bytes-to_le_bytes n h = omega arith

-- A frame in front of other bytes is read whole.
read_frame :
    (data_bytes rest : List ℕ)
    → length data_bytes < 2 ^ 32
    → read_exact 4 (frame data_bytes ++ rest)
      ≡ some (to_le_bytes 4 (length data_bytes), data_bytes ++ rest)
unfolding frame
read_frame data_bytes rest h =
    let e : length data_bytes % 2 ^ 32 ≡ length data_bytes = omega arith in
    read_exact-append (to_le_bytes 4 (length data_bytes % 2 ^ 32)) (data_bytes ++ rest)
    ∙ ap (λ n. some (to_le_bytes 4 n, data_bytes ++ rest)) e

read_body :
    (data_bytes rest : List ℕ)
    → length data_bytes < 2 ^ 32
    → read_exact (from_le_bytes (to_le_bytes 4 (length data_bytes))) (data_bytes ++ rest)
      ≡ some (data_bytes, rest)
read_body data_bytes rest h =
    ap (λ n. read_exact n (data_bytes ++ rest)) (from_le_bytes-to_le_bytes (length data_bytes) h)
    ∙ read_exact-append data_bytes rest

-- The frames of some requests.
unfoldable pub stream : (Request → List ℕ) → List Request → List ℕ
unfolding frame
stream serialize [] = []
stream serialize (r ∷ rs) = frame (serialize r) ++ stream serialize rs

Channel-ext : (c d : Channel) → c.sent ≡ d.sent → c.room ≡ d.room → c ≡ d
Channel-ext c d e f = λ i. record { sent = e i; room = f i }

module _ (deserialize : List ℕ → Option Request) (serialize : Request → List ℕ) where
  -- The decoder reads what the encoder of the client wrote, which is not too long for its length.
  abbrev pub IsCoded : Request → Type 0
  IsCoded r = (deserialize (serialize r) ≡ some r) × (length (serialize r) < 2 ^ 32)

  -- Requests that are passed on.
  abbrev pub ArePassed : List Request → Type 0
  ArePassed [] = Unit
  ArePassed (r ∷ rs) = (r ≢ disconnect) × IsCoded r × ArePassed rs

  abbrev after : ℕ → List ℕ → Channel → Handled → Reason × Channel
  after fuel rest c h = elim h [
    | goes_on more ↦ run deserialize fuel rest more
    | stops reason ↦ (reason, c)
  ]

  run_frame :
      (fuel : ℕ) (r : Request) (rest : List ℕ) (c : Channel)
      → IsCoded r
      → run deserialize (suc fuel) (frame (serialize r) ++ rest) c
        ≡ elim (handle_request deserialize (serialize r) c) [
          | goes_on more ↦ run deserialize fuel rest more
          | stops reason ↦ (reason, c)
        ]
  run_frame fuel r rest c coded =
      run_round deserialize fuel (frame (serialize r) ++ rest)
        (to_le_bytes 4 (length (serialize r))) (serialize r ++ rest) (serialize r) rest c
        (read_frame (serialize r) rest coded.1) (read_body (serialize r) rest coded.1)

  handle-serialize :
      (r : Request) (c : Channel) (n : ℕ)
      → r ≢ disconnect
      → IsCoded r
      → c.room ≡ suc n
      → handle_request deserialize (serialize r) c
        ≡ goes_on (record { sent = c.sent ++ r ∷ []; room = n })
  unfolding handle_request send
  handle-serialize r c n keeps coded room = ground (arith, coded.0, keeps, room)

  handle-disconnect :
      (c : Channel)
      → IsCoded disconnect
      → handle_request deserialize (serialize disconnect) c ≡ stops disconnected
  unfolding handle_request
  handle-disconnect c coded = ground (arith, coded.0)

  run-stream :
      (rs : List Request) (fuel : ℕ) (rest : List ℕ) (c : Channel) (n : ℕ)
      → ArePassed rs
      → c.room ≡ length rs + n
      → run deserialize (length rs + fuel) (stream serialize rs ++ rest) c
        ≡ run deserialize fuel rest (record { sent = c.sent ++ rs; room = n })
  unfolding stream
  run-stream [] fuel rest c n keeps room =
      let e : 0 + fuel ≡ fuel = omega arith in
      ap (λ f. run deserialize f rest c) e
      ∙ ap (run deserialize fuel rest) (
          Channel-ext c (record { sent = c.sent ++ []; room = n }) (sym (append-nil c.sent))
            (omega arith))
  run-stream (r ∷ rs) fuel rest c n (first, coded, keeps) room =
      let e : suc (length rs) + fuel ≡ suc (length rs + fuel) = omega arith in
      let h = handle-serialize r c (length rs + n) first coded (omega arith) in
      let next : Channel = record { sent = c.sent ++ r ∷ []; room = length rs + n } in
      ap (λ f. run deserialize f ((frame (serialize r) ++ stream serialize rs) ++ rest) c) e
      ∙ ap (λ t. run deserialize (suc (length rs + fuel)) t c)
          (append_assoc (frame (serialize r)) (stream serialize rs) rest)
      ∙ run_frame (length rs + fuel) r (stream serialize rs ++ rest) c coded
      ∙ ap (after (length rs + fuel) (stream serialize rs ++ rest) c) h
      ∙ run-stream rs fuel rest next n keeps refl
      ∙ ap (λ t. run deserialize fuel rest (record { sent = t; room = n }))
          (append_assoc c.sent (r ∷ []) rs)

  -- A client that sends requests, each as a frame, and then Disconnect, whatever it sends after that:
  -- the thread passes every one of the requests on, in order, and finishes because the client
  -- disconnected. None of the requests is Disconnect, the decoder reads what the client's encoder
  -- wrote, and the receiver takes that many.
  pub run-stream_disconnect :
      (rs : List Request) (fuel : ℕ) (rest : List ℕ) (c : Channel) (n : ℕ)
      → ArePassed rs
      → IsCoded disconnect
      → c.room ≡ length rs + n
      → run deserialize
          (length rs + suc fuel)
          (stream serialize rs ++ (frame (serialize disconnect) ++ rest))
          c
        ≡ (disconnected, record { sent = c.sent ++ rs; room = n })
  run-stream_disconnect rs fuel rest c n keeps coded room =
      let last : Channel = record { sent = c.sent ++ rs; room = n } in
      run-stream rs (suc fuel) (frame (serialize disconnect) ++ rest) c n keeps room
      ∙ run_frame fuel disconnect rest last coded
      ∙ ap (after fuel rest last) (handle-disconnect last coded)

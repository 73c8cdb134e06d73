-- ===== src/Listener/Tests.antt =====
-- A codec of one byte for each of three requests, and the theorems about the listener there.
use auxtools.Base.{
  ℕ, ◌≡◌, refl, Option, none, some, List, [], ◌∷◌, ◌++◌, ◌==◌, if◌then◌else◌, arith,
}
use auxtools.Server.Messages.{Request, pause, stacks, disconnect}
use auxtools.Listener.{disconnected, Channel, frame, run}
use auxtools.Listener.Frames.{stream, ArePassed, run-stream_disconnect}

abbrev serialize : Request → List ℕ
serialize disconnect = 0 ∷ []
serialize pause = 1 ∷ []
serialize _ = 2 ∷ []

abbrev deserialize : List ℕ → Option Request
deserialize [] = none
deserialize (b ∷ bytes) =
    if b == 0
    then some disconnect
    else if b == 1
    then some pause
    else if b == 2
    then some stacks
    else none

abbrev two_requests : List Request
two_requests = pause ∷ stacks ∷ []

abbrev channel : Channel
channel = record { sent = []; room = 5 }

two_requests-ArePassed : ArePassed deserialize serialize two_requests
two_requests-ArePassed =
    (λ e. ground arith, (refl, omega arith), (λ e. ground arith, (refl, omega arith), tt))

run-stream_disconnect_example :
    run deserialize 3
      (stream serialize two_requests ++ (frame (serialize disconnect) ++ 9 ∷ 9 ∷ []))
      channel
    ≡ (disconnected, record { sent = two_requests; room = 3 })
run-stream_disconnect_example =
    run-stream_disconnect deserialize serialize two_requests 0 (9 ∷ 9 ∷ []) channel 3
      two_requests-ArePassed (refl, omega arith) refl

-- ===== src/Listener/Ends.antt =====
-- debug_server/src/server.rs: the listener's loop ends.
use auxtools.Base.{ℕ, suc, ◌≡◌, Option, some, List, arith}
use auxtools.Server.Messages.{Request}
use auxtools.Listener.{Channel, goes_on, stops, read_exact, from_le_bytes, handle_request, run}

module _ (deserialize : List ℕ → Option Request) where
  -- A round that reads a whole message.
  pub run_round :
      (fuel : ℕ) (bytes len_bytes after buf left : List ℕ) (c : Channel)
      → read_exact 4 bytes ≡ some (len_bytes, after)
      → read_exact (from_le_bytes len_bytes) after ≡ some (buf, left)
      → run deserialize (suc fuel) bytes c ≡ elim (handle_request deserialize buf c) [
        | goes_on more ↦ run deserialize fuel left more
        | stops reason ↦ (reason, c)
      ]
  unfolding run
  run_round fuel bytes len_bytes after buf left c h k = ground (arith, h, k)

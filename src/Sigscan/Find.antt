-- ===== src/Sigscan/Find.antt =====
-- auxtools/src/sigscan: the answer of the search on Windows and on Linux.
use auxtools.Base.{
  ℕ, zero, suc, ◌+◌, ◌-◌, ◌*◌, ◌≤◌, ◌<◌, ◌≡◌, refl, sym, subst, inl, inr, true, false, Option, none,
  some, List, arith, leb, length, Bool-cases, get_elem?-some, leb→le, Text,
}
use auxtools.Sigscan.{
  Signature, done, fits, scan, rounds, find_windows, LoadedModule, locate, find_linux,
}
use auxtools.Sigscan.Scan.{
  matches_at, InRange, Only, Answered, Prefix, misfit, Only-skip, Only-first, Only-Answer, scan-end,
  scan-miss, scan-more, scan-last, Prefix-more, Prefix-zero, Prefix-full,
}

-- A position costs at most one round for each byte of the signature.
fuel_next :
    (left n offset fuel : ℕ)
    → 0 < left
    → offset < n
    → left * n + (n - offset) < suc fuel
    → (left - 1) * n + (n - 0) < fuel
fuel_next zero n offset fuel h k e = absurd (omega arith)
fuel_next (suc left) n offset fuel h k e =
    let one : suc left - 1 ≡ left = omega arith in rw one (omega arith)

module _ (memory : ℕ → ℕ) (sig : Signature) (start data_end : ℕ) where
  -- A whole match at `base`: the second one ends the search, the first one is kept.
  second_Answered :
      (fuel base c offset : ℕ) (r : Option ℕ)
      → Only memory sig start data_end base r
      → matches_at memory sig base ≡ true
      → InRange start data_end (length sig) base
      → (r ≡ none
          → Answered memory sig start data_end
              (scan fuel memory sig data_end (c - offset + 1) 0 (some (c - offset))))
      → Answered memory sig start data_end (elim r [
        | some _ ↦ done none
        | none ↦ scan fuel memory sig data_end (c - offset + 1) 0 (some (c - offset))
      ])
  second_Answered fuel base c offset none only m i next = next refl
  second_Answered fuel base c offset (some p) (j, l, e, u) m i next = inr (p, base, j, i, l, e, m)

  scan-Answered :
      (fuel left c base offset : ℕ) (r : Option ℕ)
      → offset < length sig
      → c ≡ base + offset
      → start ≤ base
      → base + left ≡ data_end + 1
      → left * length sig + (length sig - offset) < fuel
      → Prefix memory sig base offset
      → Only memory sig start data_end base r
      → Answered memory sig start data_end (scan fuel memory sig data_end c offset r)
  scan-Answered zero left c base offset r small here from room enough pre only =
      absurd (omega arith)
  scan-Answered (suc fuel) left c base offset r small here from room enough pre only =
      elim (Bool-cases (leb c data_end)) [
        | inr past ↦
            let far : data_end < c = ground arith in
            subst (Answered memory sig start data_end)
              (sym (scan-end memory sig start data_end fuel c offset r far))
              (Only-Answer memory sig start data_end base r (omega arith) only)
        | inl at ↦
            let inside : c ≤ data_end = leb→le c data_end at in
            let (w, want) = get_elem?-some sig offset small in
            let back : c - offset ≡ base = omega arith in
            elim (Bool-cases (fits w (memory c))) [
              | inr miss ↦
                  subst (Answered memory sig start data_end)
                    (sym (scan-miss memory sig start data_end fuel c offset r w inside want miss))
                    (scan-Answered fuel (left - 1) (c - offset + 1) (base + 1) 0 r (omega arith)
                      (omega arith) (omega arith) (omega arith)
                      (fuel_next left (length sig) offset fuel (omega arith) small enough)
                      (Prefix-zero memory sig start data_end (base + 1))
                      (Only-skip memory sig start data_end base r only (
                        misfit memory sig base offset w want
                          (subst (λ a. fits w (memory a) ≡ false) here miss))))
              | inl hit ↦
                  let longer =
                    Prefix-more memory sig start data_end base offset w pre want
                      (subst (λ a. fits w (memory a) ≡ true) here hit) in
                  elim (Bool-cases (leb (length sig) (offset + 1))) [
                    | inr more ↦
                        let rest : offset + 1 < length sig = ground arith in
                        subst (Answered memory sig start data_end)
                          (sym (
                            scan-more memory sig start data_end fuel c offset r w inside want hit
                              rest))
                          (scan-Answered fuel left (c + 1) base (offset + 1) r rest (omega arith)
                            from room (omega arith) longer only)
                    | inl last ↦
                        let full = leb→le (length sig) (offset + 1) last in
                        let m =
                          Prefix-full memory sig start data_end base offset full small longer in
                        let i : InRange start data_end (length sig) base = (from, omega arith) in
                        subst (Answered memory sig start data_end)
                          (sym (
                            scan-last memory sig start data_end fuel c offset r w inside want hit
                              full))
                          (second_Answered fuel base c offset r only m i (λ e.
                            scan-Answered fuel (left - 1) (c - offset + 1) (base + 1) 0
                              (some (c - offset)) (omega arith) (omega arith) (omega arith)
                              (omega arith)
                              (fuel_next left (length sig) offset fuel (omega arith) small enough)
                              (Prefix-zero memory sig start data_end (base + 1))
                              (subst (λ b. Only memory sig start data_end (base + 1) (some b))
                                (sym back)
                                (Only-first memory sig start data_end base
                                  (subst (Only memory sig start data_end base) e only) i m))))
                  ]
            ]
      ]

-- The search of `Scanner::find` on Windows ends, and does not panic, for every signature that is
-- not empty and every module that is not empty. It returns a position exactly when the signature
-- stands there and nowhere else in the module; it returns nothing when the signature stands
-- nowhere, or at two places.
pub find_windows-Answered :
    (memory : ℕ → ℕ) (data_begin size : ℕ) (sig : Signature)
    → 0 < length sig
    → 0 < size
    → Answered memory sig data_begin
        (data_begin + size - 1)
        (find_windows memory data_begin size sig)
unfolding find_windows rounds
find_windows-Answered memory data_begin size sig some_bytes some_memory =
    scan-Answered memory sig data_begin (data_begin + size - 1)
      (rounds (data_begin + size - 1) data_begin (length sig))
      (data_begin + size - 1 + 1 - data_begin) data_begin data_begin 0 none some_bytes (omega arith)
      (omega arith) (omega arith) (omega arith)
      (Prefix-zero memory sig data_begin (data_begin + size - 1) data_begin)
      (λ q a b. absurd (omega arith))

-- On Linux the search goes one byte further: for the area from `start` of `len` bytes that the
-- loader reports, it ends without a panic and answers for the `len + 1` bytes from `start`.
pub find_linux-Answered :
    (memory : ℕ → ℕ) (target : Text) (modules : List LoadedModule) (sig : Signature) (start len : ℕ)
    → 0 < length sig
    → locate target modules (0, 0) ≡ some (start, len)
    → Answered memory sig start (start + len) (find_linux memory target modules sig)
unfolding find_linux rounds
find_linux-Answered memory target modules sig start len some_bytes found =
    rw (found, find_linux)
      (scan-Answered memory sig start (start + len) (rounds (start + len) start (length sig))
        (start + len + 1 - start) start start 0 none some_bytes (omega arith) (omega arith)
        (omega arith) (omega arith) (Prefix-zero memory sig start (start + len) start)
        (λ q a b. absurd (omega arith)))

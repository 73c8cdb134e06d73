-- ===== src/Server/Lines.antt =====
-- debug_server/src/server.rs: lines and offsets of a proc's disassembly.
use auxtools.Base.{
  ℕ, ◌+◌, ◌≤◌, ◌≡◌, Bool, true, false, ◌&&◌, Option, none, some, List, [], ◌∷◌, arith, ltb, leb,
  ◌==◌, if◌then◌else◌, Bool-cases, inl, inr,
}
use auxtools.Dmasm.{
  Instruction, dbg_line, auxtools_debug_break, other, Node, instruction, label, Disassembler,
}
use auxtools.Hooking.{Memory, bytecode}
use auxtools.Procs.{Proc, Registry, get_proc_override}
use auxtools.Bytecode.{Bytecodes}
use auxtools.Server.Messages.{ProcRef}

abbrev pub line_after : Instruction → Option ℕ → Option ℕ
line_after (dbg_line line) current = some line
line_after _ current = current

-- The loop of `get_line_number`.
unfoldable pub line_at : ℕ → Option ℕ → List Node → Option ℕ
line_at offset current [] = none
line_at offset current (label ∷ nodes) = line_at offset current nodes
line_at offset current (instruction ins o n ∷ nodes) =
    let rest = line_at offset (line_after ins current) nodes in
    if ltb offset o then current else if o == offset then line_after ins current else rest

abbrev pub is_line : ℕ → Instruction → Bool
is_line line (dbg_line l) = l == line
is_line line _ = false

-- The loop of `get_offset`; the flag is `at_offset`.
unfoldable pub offset_at : ℕ → Bool → List Node → Option ℕ
offset_at line at [] = none
offset_at line at (label ∷ nodes) = offset_at line at nodes
offset_at line at (instruction ins o n ∷ nodes) =
    let rest = offset_at line (is_line line ins) nodes in if at then some o else rest

-- What the handlers read of a proc: its disassembly.
unfoldable pub nodes_of : Disassembler → Memory → Bytecodes → Proc → List Node
unfolding bytecode
nodes_of disassemble m code p = disassemble (bytecode m (code.entry p.id))

unfoldable pub get_line_number :
    Disassembler → Memory → Bytecodes → Registry → ProcRef → (offset : ℕ) → Option ℕ
unfolding get_proc_override nodes_of line_at
get_line_number disassemble m code procs ref offset =
    elim (get_proc_override procs ref.path ref.override_id) [
      | none ↦ none
      | some p ↦ line_at offset none (nodes_of disassemble m code p)
    ]

unfoldable pub get_offset :
    Disassembler → Memory → Bytecodes → Registry → ProcRef → (line : ℕ) → Option ℕ
unfolding get_proc_override nodes_of offset_at
get_offset disassemble m code procs ref line =
    elim (get_proc_override procs ref.path ref.override_id) [
      | none ↦ none
      | some p ↦ offset_at line false (nodes_of disassemble m code p)
    ]

abbrev is_dbg_line : Instruction → Bool
is_dbg_line (dbg_line _) = true
is_dbg_line _ = false

abbrev not_both : Bool → Bool → Bool
not_both true b = if b then false else true
not_both false b = true

-- A listing as a disassembler produces it: offsets increase from `from` on, and a line marker is
-- followed by an instruction that is no line marker. The flag says whether a marker came last.
unfoldable pub is_listing : (from : ℕ) (after_marker : Bool) → List Node → Bool
is_listing from after [] = true
is_listing from after (label ∷ nodes) = is_listing from after nodes
is_listing from after (instruction ins o n ∷ nodes) =
    leb from o && (not_both after (is_dbg_line ins) && is_listing (o + 1) (is_dbg_line ins) nodes)

offset_at-from :
    (line from o : ℕ) (at after : Bool) (nodes : List Node)
    → is_listing from after nodes ≡ true
    → offset_at line at nodes ≡ some o
    → from ≤ o
unfolding is_listing offset_at
offset_at-from line from o at after [] h k = ground arith
offset_at-from line from o at after (label ∷ nodes) h k =
    offset_at-from line from o at after nodes h k
offset_at-from line from o true after (instruction ins p n ∷ nodes) h k = ground arith
offset_at-from line from o false after (instruction ins p n ∷ nodes) h k =
    let past =
      offset_at-from line (p + 1) o (is_line line ins) (is_dbg_line ins) nodes (ground arith)
        (ground arith) in
    ground (arith, past)

line_at-marked :
    (line o from : ℕ) (nodes : List Node)
    → is_listing from true nodes ≡ true
    → offset_at line true nodes ≡ some o
    → line_at o (some line) nodes ≡ some line
unfolding is_listing offset_at line_at
line_at-marked line o from [] h k = ground arith
line_at-marked line o from (label ∷ nodes) h k = line_at-marked line o from nodes h k
line_at-marked line o from (instruction (dbg_line l) p n ∷ nodes) h k = ground arith
line_at-marked line o from (instruction auxtools_debug_break p n ∷ nodes) h k = ground arith
line_at-marked line o from (instruction (other x) p n ∷ nodes) h k = ground arith

line_at-offset_at :
    (line o from : ℕ) (current : Option ℕ) (after : Bool) (nodes : List Node)
    → is_listing from after nodes ≡ true
    → offset_at line false nodes ≡ some o
    → line_at o current nodes ≡ some line
unfolding is_listing offset_at line_at
line_at-offset_at line o from current after [] h k = ground arith
line_at-offset_at line o from current after (label ∷ nodes) h k =
    line_at-offset_at line o from current after nodes h k
line_at-offset_at line o from current after (instruction (dbg_line l) p n ∷ nodes) h k =
    let ok : is_listing (p + 1) true nodes ≡ true = ground arith in
    let past : p + 1 ≤ o = offset_at-from line (p + 1) o (l == line) true nodes ok k in
    elim (Bool-cases (l == line)) [
      | inl same ↦ ground (arith, past, line_at-marked line o (p + 1) nodes ok)
      | inr differs ↦ ground (arith, past, line_at-offset_at line o (p + 1) (some l) true nodes ok)
    ]
line_at-offset_at line o from current after (instruction auxtools_debug_break p n ∷ nodes) h k =
    let ok : is_listing (p + 1) false nodes ≡ true = ground arith in
    let past : p + 1 ≤ o = offset_at-from line (p + 1) o false false nodes ok k in
    ground (arith, past, line_at-offset_at line o (p + 1) current false nodes ok k)
line_at-offset_at line o from current after (instruction (other x) p n ∷ nodes) h k =
    let ok : is_listing (p + 1) false nodes ≡ true = ground arith in
    let past : p + 1 ≤ o = offset_at-from line (p + 1) o false false nodes ok k in
    ground (arith, past, line_at-offset_at line o (p + 1) current false nodes ok k)

-- The offset that is found for a line of a proc belongs to that line: asked for its line number,
-- the server gives the line back. The disassembly is a listing: offsets increase, and two line
-- markers do not stand next to each other.
pub get_line_number-get_offset :
    (disassemble : Disassembler) (m : Memory) (code : Bytecodes) (procs : Registry) (ref : ProcRef)
    (line o : ℕ) (p : Proc)
    → get_proc_override procs ref.path ref.override_id ≡ some p
    → is_listing 0 false (nodes_of disassemble m code p) ≡ true
    → get_offset disassemble m code procs ref line ≡ some o
    → get_line_number disassemble m code procs ref o ≡ some line
unfolding get_line_number get_offset
get_line_number-get_offset disassemble m code procs ref line o p found listing h =
    let back =
      line_at-offset_at line o 0 none false (nodes_of disassemble m code p) listing
        (ground arith) in
    ground (arith, found, back)

-- ===== src/Bytecode/Shutdown.antt =====
-- auxtools/src/bytecode_manager.rs: `shutdown` after calls of `set_bytecode`.
use auxtools.Base.{
  ℕ, ◌≡◌, ◌≢◌, refl, sym, ap, ◌∙◌, subst, inl, inr, true, false, Option, none, some, List, [], ◌∷◌,
  arith, ◌==◌, ==_iff, if◌then◌else◌, length, lookup, remove, lookup-remove, lookup-insert, text_eq,
  nat_eq, Option-cases, Bool-cases,
}
use auxtools.Hooking.{Code}
use auxtools.Bytecode.{
  Bytecodes, init, put, keep_original, share, set_bytecode, restore, contains, freed, shutdown,
}

-- A call of `set_bytecode`: the proc, the words and the buffer that holds them.
pub record Call : Type 0 where
  pub id : ℕ
  pub words : List ℕ
  pub buffer : ℕ

unfoldable pub run : List Call → Bytecodes → Option Bytecodes
run [] s = some s
run (c ∷ cs) s = elim (set_bytecode c.id c.words c.buffer s) [ none ↦ none | some t ↦ run cs t ]

-- An address is listed once.
abbrev Distinct : List (ℕ × Code) → Type 0
Distinct [] = Unit {0}
Distinct ((id, c) ∷ rest) = (lookup id rest ≡ none) × Distinct rest

lookup-restore :
    (o : List (ℕ × Code)) (entry : ℕ → Code) (j : ℕ)
    → Distinct o
    → restore o entry j ≡ (elim (lookup j o) [ some c ↦ c | none ↦ entry j ])
unfolding restore put
lookup-restore [] entry j d = refl
lookup-restore ((id, c) ∷ rest) entry j d = elim (Bool-cases (id == j)) [
  | inl same ↦ ground (arith, lookup-restore rest (put entry id c) j d.1)
  | inr other ↦ ground (arith, lookup-restore rest (put entry id c) j d.1)
]

Distinct-remove : (k : ℕ) (o : List (ℕ × Code)) → Distinct o → Distinct (remove k o)
Distinct-remove k [] d = tt
Distinct-remove k ((id, c) ∷ rest) d =
    ground (arith, Distinct-remove k rest d.1, lookup-remove k id rest)

-- Shutdown would give each proc the code of `start`.
record Recalls (start : ℕ → Code) (s : Bytecodes) : Type 0 where
  distinct : Distinct s.original
  kept : (j : ℕ) → (elim (lookup j s.original) [ some c ↦ c | none ↦ s.entry j ]) ≡ start j

set_ok :
    (s t : Bytecodes) (id : ℕ) (words : List ℕ) (buffer : ℕ)
    → set_bytecode id words buffer s ≡ some t
    → (t.original ≡ keep_original id s)
      × ((j : ℕ) → id ≢ j → t.entry j ≡ s.entry j)
      × (t.entry id ≡ record { ptr = (share words buffer s.allocations).0; count = length words })
unfolding set_bytecode
set_ok s t id words buffer h = (
  ground arith,
  λ j ne. ap (λ (f : ℕ → Code). f j) (sym (entry_of h)) ∙ ground (arith, (==_iff id j).0, ne),
  ap (λ (f : ℕ → Code). f id) (sym (entry_of h)) ∙ ground (arith, (==_iff id id).1 refl),
)
  where
    entry_of :
        set_bytecode id words buffer s ≡ some t
        → put s.entry id
            (record { ptr = (share words buffer s.allocations).0; count = length words })
          ≡ t.entry
    entry_of e = ground arith

keep-Distinct : (id : ℕ) (s : Bytecodes) → Distinct s.original → Distinct (keep_original id s)
unfolding keep_original
keep-Distinct id s d =
    ground (arith, Distinct-remove id s.original d, lookup-remove id id s.original, ==_iff id id)

lookup-keep :
    (id j : ℕ) (s : Bytecodes)
    → lookup j (keep_original id s) ≡ (elim (lookup j s.original) [
      | some c ↦ some c
      | none ↦ if id == j then some (s.entry id) else none
    ])
unfolding keep_original
lookup-keep id j s =
    ground (
      arith,
      lookup-insert id j (s.entry id) s.original,
      ==_iff id j,
      ap (λ k. lookup k s.original),
    )

set_bytecode-Recalls :
    (start : ℕ → Code) (s t : Bytecodes) (id : ℕ) (words : List ℕ) (buffer : ℕ)
    → Recalls start s
    → set_bytecode id words buffer s ≡ some t
    → Recalls start t
set_bytecode-Recalls start s t id words buffer r h =
    let (o, away, here) = set_ok s t id words buffer h in
    record {
      distinct = subst Distinct (sym o) (keep-Distinct id s r.distinct);
      kept = λ j. ground (arith, r.kept j, lookup-keep id j s, o, away j, ==_iff id j, ap s.entry);
    }

run-Recalls :
    (start : ℕ → Code) (cs : List Call) (s t : Bytecodes)
    → Recalls start s
    → run cs s ≡ some t
    → Recalls start t
unfolding run
run-Recalls start [] s t r h = ground (arith, r, subst (Recalls start) {x = s} {y = t})
run-Recalls start (c ∷ cs) s t r h = elim (Option-cases (set_bytecode c.id c.words c.buffer s)) [
  | inl e ↦ absurd (ground arith)
  | inr (u, e) ↦
      run-Recalls start cs u t (set_bytecode-Recalls start s u c.id c.words c.buffer r e)
        (ground arith)
]

init-Recalls : (s : Bytecodes) → Recalls s.entry (init s)
unfolding init
init-Recalls s = record { distinct = tt; kept = λ j. refl }

-- After any calls of `set_bytecode` that do not panic, `shutdown` leaves every proc with the
-- bytecode pointer and length that it had when the manager was initialised.
pub shutdown-restores :
    (active : List ℕ) (cs : List Call) (s t : Bytecodes)
    → run cs (init s) ≡ some t
    → (j : ℕ) → (shutdown active t).0 j ≡ s.entry j
unfolding shutdown
shutdown-restores active cs s t h j =
    let r = run-Recalls s.entry cs (init s) t (init-Recalls s) h in
    lookup-restore t.original t.entry j r.distinct ∙ r.kept j

-- The buffers of a list of allocations, and of calls, have a property.
abbrev AllBuffers : (ℕ → Type 0) → List (List ℕ × ℕ) → Type 0
AllBuffers P [] = Unit {0}
AllBuffers P ((words, ptr) ∷ rest) = P ptr × AllBuffers P rest

abbrev pub EachBuffer : (ℕ → Type 0) → List Call → Type 0
EachBuffer P [] = Unit {0}
EachBuffer P (c ∷ cs) = P c.buffer × EachBuffer P cs

AllBuffers-remove :
    (P : ℕ → Type 0) (words : List ℕ) (al : List (List ℕ × ℕ))
    → AllBuffers P al
    → AllBuffers P (remove words al)
AllBuffers-remove P words [] h = tt
AllBuffers-remove P words ((us, ptr) ∷ rest) (p, h) = elim (Bool-cases (text_eq.beq us words)) [
  | inl same ↦ rw same (AllBuffers-remove P words rest h)
  | inr other ↦ rw other (p, AllBuffers-remove P words rest h)
]

AllBuffers-share :
    (P : ℕ → Type 0) (words : List ℕ) (fresh : ℕ) (al : List (List ℕ × ℕ))
    → P fresh
    → AllBuffers P al
    → AllBuffers P (share words fresh al).1
unfolding share
AllBuffers-share P words fresh al p h = elim (Option-cases (lookup words al)) [
  | inl e ↦ rw (e, share) (p, AllBuffers-remove P words al h)
  | inr (ptr, e) ↦ rw (e, share) h
]

allocations_of :
    (s t : Bytecodes) (id : ℕ) (words : List ℕ) (buffer : ℕ)
    → set_bytecode id words buffer s ≡ some t
    → (share words buffer s.allocations).1 ≡ t.allocations
unfolding set_bytecode
allocations_of s t id words buffer h = ground arith

AllBuffers-run :
    (P : ℕ → Type 0) (cs : List Call) (s t : Bytecodes)
    → EachBuffer P cs
    → AllBuffers P s.allocations
    → run cs s ≡ some t
    → AllBuffers P t.allocations
unfolding run
AllBuffers-run P [] s t each h e =
    let same : s.allocations ≡ t.allocations = ground arith in subst (AllBuffers P) same h
AllBuffers-run P (c ∷ cs) s t (p, each) h e =
    elim (Option-cases (set_bytecode c.id c.words c.buffer s)) [
      | inl k ↦ absurd (ground arith)
      | inr (u, k) ↦
          AllBuffers-run P cs u t each
            (subst (AllBuffers P) (allocations_of s u c.id c.words c.buffer k)
              (AllBuffers-share P c.words c.buffer s.allocations p h))
            (ground arith)
    ]

freed_unused :
    (P : ℕ → Type 0) (active : List ℕ) (al : List (List ℕ × ℕ)) (a : ℕ)
    → AllBuffers P al
    → contains a (freed active al) ≡ true
    → P a × (contains a active ≡ false)
unfolding freed
freed_unused P active [] a h c = absurd (ground arith)
freed_unused P active ((words, ptr) ∷ rest) a (p, h) c = elim (Bool-cases (contains ptr active)) [
  | inl used ↦ freed_unused P active rest a h (ground arith)
  | inr free ↦ elim (Bool-cases (a == ptr)) [
    | inl same ↦
        let e : ptr ≡ a = sym ((==_iff a ptr).0 same) in
        (subst P e p, subst (λ q. contains q active ≡ false) e free)
    | inr other ↦ freed_unused P active rest a h (ground arith)
  ]
]

-- No buffer that `shutdown` frees is read afterwards: it is none of the running procs' bytecode, and
-- no proc's entry points to it, given that the vectors passed in were not the procs' own bytecode.
pub shutdown-unused :
    (active : List ℕ) (cs : List Call) (s t : Bytecodes) (a : ℕ)
    → EachBuffer (λ b. (j : ℕ) → (s.entry j).ptr ≢ b) cs
    → run cs (init s) ≡ some t
    → contains a (shutdown active t).1 ≡ true
    → (contains a active ≡ false) × ((j : ℕ) → ((shutdown active t).0 j).ptr ≢ a)
unfolding init
shutdown-unused active cs s t a each h c =
    let all = AllBuffers-run (λ b. (j : ℕ) → (s.entry j).ptr ≢ b) cs (init s) t each tt h in
    let (apart, idle) =
      freed_unused (λ b. (j : ℕ) → (s.entry j).ptr ≢ b) active t.allocations a all
        (unfold shutdown in c) in
    (
      idle,
      λ j e. apart j (ap (λ (x : Code). x.ptr) (sym (shutdown-restores active cs s t h j)) ∙ e),
    )

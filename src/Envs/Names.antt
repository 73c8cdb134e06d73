-- ===== src/Envs/Names.antt =====
-- debug_server/src/assemble_env.rs and disassemble_env.rs: names that are assembled and disassembled.
use auxtools.Base.{
  ℕ, suc, ◌+◌, ◌≡◌, refl, ap, Bool, true, false, Bool-cases, Option, none, some, inl, inr, List, [],
  ◌∷◌, ◌==◌, ==_iff, if◌then◌else◌, get_elem?, arith, Text,
}
use auxtools.Value.{Value}
use auxtools.Handles.{
  Refs, Res, good, bad, contains_nul, Natives, R, pure, string_value, one, from_raw, drop,
  create_string, has_nul,
}
use auxtools.Envs.{
  index_of, from_bytes, data_of, get_string_index, get_string_data, get_variable_name_index,
  get_variable_name,
}

-- BYOND's `get_string_id` gives the number of a string with the text.
abbrev pub IsStringTable : {W : Type 0} → Natives W → Type 0
IsStringTable {W} n =
    (t : Text) (w w' : W) (id : ℕ) → n.get_string_id t w ≡ (some id, w') → n.string_text w' id ≡ t

index_of_sound :
    (id : ℕ) (names : List ℕ) (start i : ℕ)
    → index_of id names start ≡ some i
    → (k : ℕ) × (i ≡ start + k) × (get_elem? names k ≡ some id)
unfolding index_of
index_of_sound id [] start i h = ground (arith, h)
index_of_sound id (entry ∷ rest) start i h = elim (Bool-cases (entry == id)) [
  | inl e ↦ (0, ground (arith, h, e), ap some ((==_iff entry id).0 e))
  | inr e ↦
      let (k, f, g) = index_of_sound id rest (start + 1) i (ground (arith, h, e)) in
      (suc k, omega (arith, f), g)
]

module _ {W : Type 0} (n : Natives W) where
  create_string_text :
      IsStringTable n
      → (t : Text) (v : Value) (s s' : Refs W) → create_string n t s ≡ some (v, s')
      → n.string_text s'.world v.data_id ≡ t
  unfolding create_string from_raw
  create_string_text table t v s s' h =
      by_id (n.get_string_id t s.world) (λ w i. table t s.world w i) h
    where
      by_id :
          (o : Option ℕ × W)
          → ((w : W) (i : ℕ) → o ≡ (some i, w) → n.string_text w i ≡ t)
          → ◌≡◌ {A = Option (Value × Refs W)}
              (elim o.0 as (λ _. Option (Value × Refs W)) [
                | none ↦ none
                | some i ↦ from_raw (string_value i) (record s { world = o.1 })
              ])
              (some (v, s'))
          → n.string_text s'.world v.data_id ≡ t
      by_id (none, w) f h = ground (arith, h)
      by_id (some i, w) f h = ground (arith, h, f w i refl)

  -- The string that was looked up has the text.
  get_string_index_text :
      IsStringTable n
      → (t : Text) (id : ℕ) (s s' : Refs W) → get_string_index n t s ≡ some (some id, s')
      → n.string_text s'.world id ≡ t
  unfolding get_string_index from_bytes
  get_string_index_text table t id s s' h =
      by_nul (has_nul t) (create_string n t s) (λ v q. create_string_text table t v s q) h
    where
      by_nul :
          (b : Bool) (o : Option (Value × Refs W))
          → ((v : Value) (q : Refs W) → o ≡ some (v, q) → n.string_text q.world v.data_id ≡ t)
          → ◌≡◌ {A = Option (Option ℕ × Refs W)}
              (elim (if b
                  then some (bad contains_nul, s)
                  else (elim o as (λ _. Option (Res Value × Refs W)) [
                    | none ↦ none
                    | some (v, q) ↦ some (good v, q)
                  ]))
                as (λ _. Option (Option ℕ × Refs W)) [
                  | none ↦ none
                  | some (r, q) ↦
                      (elim r as (λ _. R W (Option ℕ)) [
                        | bad _ ↦ pure none
                        | good v ↦ pure (some v.data_id)
                      ])
                        q
                ])
              (some (some id, s'))
          → n.string_text s'.world id ≡ t
      by_nul true o f h = ground (arith, h)
      by_nul false none f h = ground (arith, h)
      by_nul false (some (v, q)) f h = ground (arith, h, f v q refl)

  module _ (names : W → List ℕ) where
    index_is_of :
        (t : Text) (i : ℕ) (s s' : Refs W)
        → get_variable_name_index n names t s ≡ some (some i, s')
        → (id : ℕ) × (get_string_index n t s ≡ some (some id, s'))
          × (index_of id (names s'.world) 0 ≡ some i)
    unfolding get_variable_name_index
    index_is_of t i s s' h = by_string (get_string_index n t s) h
      where
        by_string :
            (o : Option (Option ℕ × Refs W))
            → ◌≡◌ {A = Option (Option ℕ × Refs W)}
                (elim o [
                  | none ↦ none
                  | some (r, q) ↦ elim r as (λ _. Option (Option ℕ × Refs W)) [
                    | none ↦ some (none, q)
                    | some id ↦ some (index_of id (names q.world) 0, q)
                  ]
                ])
                (some (some i, s'))
            → (id : ℕ) × (o ≡ some (some id, s')) × (index_of id (names s'.world) 0 ≡ some i)
        by_string none h = ground (arith, h)
        by_string (some (none, q)) h = ground (arith, h)
        by_string (some (some id, q)) h = (id, ground (arith, h), ground (arith, h))

    -- The index that the assembler is given for a variable's name is disassembled as that name, if
    -- BYOND's number for a text is that of a string with the text; and the references that were taken
    -- for it are given back, so that the one that the assembler keeps is left.
    pub get_variable_name-get_variable_name_index :
        IsStringTable n
        → (t : Text) (i : ℕ) (s s' : Refs W)
        → get_variable_name_index n names t s ≡ some (some i, s')
        → (r : Refs W) × (get_variable_name n names i s' ≡ some (some t, r))
          × ((u : Value) → r.taken u + s'.given u ≡ s'.taken u + r.given u)
    unfolding get_variable_name get_string_data data_of from_raw drop
    get_variable_name-get_variable_name_index table t i s s' h =
        let (id, e, f) = index_is_of t i s s' h in
        let (k, same, found) = index_of_sound id (names s'.world) 0 i f in
        let at : get_elem? (names s'.world) i ≡ some id = ground (arith, same, found) in
        let text = get_string_index_text table t id s s' e in
        (
          record s' {
            taken = λ u. s'.taken u + one (string_value id) u;
            given = λ u. s'.given u + one (string_value id) u;
          },
          ground (arith, at, text),
          λ u. omega arith,
        )

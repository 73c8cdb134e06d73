-- ===== src/Server/Variables.antt =====
-- debug_server/src/server.rs: the references that stand for variables while execution is paused.
use auxtools.Base.{
  ℕ, ◌+◌, ◌-◌, ◌%◌, ◌^◌, ◌≤◌, ◌<◌, ◌≡◌, ◌↔◌, refl, ap, sym, ◌∙◌, subst, inl, inr, Bool, true, false,
  ◌&&◌, Option, none, some, List, [], ◌∷◌, ◌++◌, arith, ◌==◌, Eq, length, get_elem?, length-append,
  get_elem?-append_left, get_elem?-append_right, lt_of_get_elem?, lookup, insert, lookup-insert,
  Option-cases, Bool-cases,
}
use auxtools.Value.{Value, value_beq, value_beq_iff}

pub data Variables : Type 0 where
  arguments : ℕ → Variables
  locals : ℕ → Variables
  object_vars : Value → Variables
  list_contents : Value → Variables
  list_pair : (key val : Value) → Variables

-- The derived `PartialEq`.
abbrev pub variables_beq : Variables → Variables → Bool
variables_beq (arguments a) (arguments b) = a == b
variables_beq (locals a) (locals b) = a == b
variables_beq (object_vars a) (object_vars b) = value_beq a b
variables_beq (list_contents a) (list_contents b) = value_beq a b
variables_beq (list_pair a c) (list_pair b d) = value_beq a b && value_beq c d
variables_beq _ _ = false

pub variables_beq_iff : (a b : Variables) → (variables_beq a b ≡ true) ↔ (a ≡ b)
variables_beq_iff (object_vars a) (object_vars b) =
    (λ h. ground (arith, value_beq_iff a b), λ h. ground (arith, value_beq_iff a b))
variables_beq_iff (list_contents a) (list_contents b) =
    (λ h. ground (arith, value_beq_iff a b), λ h. ground (arith, value_beq_iff a b))
variables_beq_iff (list_pair a c) (list_pair b d) = (
  λ h. ground (arith, value_beq_iff a b, value_beq_iff c d),
  λ h. ground (arith, value_beq_iff a b, value_beq_iff c d),
)
variables_beq_iff (arguments a) (arguments b) = (λ h. ground arith, λ h. ground arith)
variables_beq_iff (locals a) (locals b) = (λ h. ground arith, λ h. ground arith)
variables_beq_iff _ _ = (λ h. ground arith, λ h. ground arith)

instance abbrev pub variables_eq : Eq Variables
variables_eq = record { beq = variables_beq; beq_iff = variables_beq_iff }

-- A `VariablesRef` is an `i32`, kept here as its 32 bits; `usize` has 32 bits too.
abbrev pub word : ℕ
word = 2 ^ 32

-- `State` without its stacks.
pub record References : Type 0 where
  pub variables : List Variables
  pub variables_to_refs : List (Variables × ℕ)

abbrev pub no_references : References
no_references = record { variables = []; variables_to_refs = [] }

unfoldable pub get_ref : References → Variables → ℕ × References
get_ref s vars = elim (lookup vars s.variables_to_refs) [
  | some reference ↦ (reference, s)
  | none ↦
      let reference : ℕ = (length s.variables + 1) % word in
      (
        reference,
        record {
          variables = s.variables ++ vars ∷ [];
          variables_to_refs = insert vars reference s.variables_to_refs;
        },
      )
]

unfoldable pub get_variables : References → ℕ → Option Variables
get_variables s reference = get_elem? s.variables ((reference + word - 1) % word)

-- Every reference given out stands for its variables, and there is room for one more.
pub record IsSound (s : References) : Type 0 where
  pub room : length s.variables + 1 < word
  pub given :
      (v : Variables) (r : ℕ)
      → lookup v s.variables_to_refs ≡ some r
      → (0 < r) × (r ≤ length s.variables) × (get_elem? s.variables (r - 1) ≡ some v)

-- What `get_ref` promises of its result: a reference that `get_variables` takes back to the
-- variables, and references given out before that keep their meaning.
pub record Given (s : References) (v : Variables) (r : ℕ) (t : References) : Type 0 where
  pub back : get_variables t r ≡ some v
  pub again : get_ref t v ≡ (r, t)
  pub stable : (q : ℕ) (w : Variables) → get_variables s q ≡ some w → get_variables t q ≡ some w
  pub sound : length t.variables + 1 < word → IsSound t

old_ref :
    (s : References) (v : Variables) (r : ℕ)
    → lookup v s.variables_to_refs ≡ some r
    → get_ref s v ≡ (r, s)
unfolding get_ref
old_ref s v r h = ground arith

new_ref :
    (s : References) (v : Variables)
    → length s.variables + 1 < word
    → lookup v s.variables_to_refs ≡ none
    → get_ref s v ≡ (
      length s.variables + 1,
      record {
        variables = s.variables ++ v ∷ [];
        variables_to_refs = insert v (length s.variables + 1) s.variables_to_refs;
      },
    )
unfolding get_ref
new_ref s v room h =
    let e : (length s.variables + 1) % word ≡ length s.variables + 1 = omega arith in ground arith

module _ {s : References} (sound : IsSound s) (v : Variables) where
  old_Given : (r : ℕ) → lookup v s.variables_to_refs ≡ some r → Given s v r s
  unfolding get_variables
  old_Given r h =
      let (pos, le, found) = sound.given v r h in
      let i : (r + word - 1) % word ≡ r - 1 = omega (arith, sound.room) in
      record {
        back = rw (i, found) refl;
        again = old_ref s v r h;
        stable = λ q w e. e;
        sound = λ _. sound;
      }

  grown : References
  grown = record {
    variables = s.variables ++ v ∷ [];
    variables_to_refs = insert v (length s.variables + 1) s.variables_to_refs;
  }

  found_last : get_elem? grown.variables (length s.variables) ≡ some v
  unfolding grown
  found_last =
      let e : length s.variables + 0 ≡ length s.variables = omega arith in
      ground (arith, get_elem?-append_right s.variables (v ∷ []) 0)

  grown_given :
      (u : Variables) (r : ℕ)
      → lookup u grown.variables_to_refs ≡ some r
      → (0 < r) × (r ≤ length grown.variables) × (get_elem? grown.variables (r - 1) ≡ some u)
  unfolding grown
  grown_given u r g = elim (Bool-cases (variables_beq v u)) [
    | inl same ↦
        let e : r ≡ length s.variables + 1 =
          ground (arith, lookup-insert v u (length s.variables + 1) s.variables_to_refs) in
        let i : r - 1 ≡ length s.variables = omega arith in
        (
          omega arith,
          omega (arith, length-append s.variables (v ∷ [])),
          rw i (found_last ∙ ap some ((variables_beq_iff v u).0 same)),
        )
    | inr other ↦
        let (pos, le, found) =
          sound.given u r
            (ground (arith, lookup-insert v u (length s.variables + 1) s.variables_to_refs)) in
        (
          pos,
          omega (arith, length-append s.variables (v ∷ [])),
          get_elem?-append_left s.variables (v ∷ []) (r - 1) (omega arith) ∙ found,
        )
  ]

  new_Given : lookup v s.variables_to_refs ≡ none → Given s v (length s.variables + 1) grown
  unfolding get_variables grown
  new_Given h =
      let i : (length s.variables + 1 + word - 1) % word ≡ length s.variables =
        omega (arith, sound.room) in
      record {
        back = rw i found_last;
        again = old_ref grown v (length s.variables + 1) (
            ground (
              arith,
              lookup-insert v v (length s.variables + 1) s.variables_to_refs,
              variables_beq_iff v v,
            ));
        stable = λ q w e.
            get_elem?-append_left s.variables (v ∷ []) _ (lt_of_get_elem? s.variables _ w e) ∙ e;
        sound = λ room. record { room = room; given = grown_given };
      }

grown_Given :
    {s : References} (sound : IsSound s) (v : Variables)
    → lookup v s.variables_to_refs ≡ none
    → Given s v (length s.variables + 1) (record {
      variables = s.variables ++ v ∷ [];
      variables_to_refs = insert v (length s.variables + 1) s.variables_to_refs;
    })
unfolding grown
grown_Given sound v h = new_Given sound v h

-- Where fewer than 2 ^ 32 - 1 variables have been given out, `get_ref` returns a reference that
-- `get_variables` takes back to the same variables. A second request for them returns the same
-- reference and changes nothing; references given out before keep their meaning; and the table
-- stays sound while there is room.
pub get_ref-Given :
    (s : References) (v : Variables) → IsSound s → Given s v (get_ref s v).0 (get_ref s v).1
get_ref-Given s v sound = elim (Option-cases (lookup v s.variables_to_refs)) [
  | inl e ↦ subst (λ p. Given s v p.0 p.1) (sym (new_ref s v sound.room e)) (grown_Given sound v e)
  | inr (r, e) ↦ subst (λ p. Given s v p.0 p.1) (sym (old_ref s v r e)) (old_Given sound v r e)
]

pub no_references-IsSound : IsSound no_references
no_references-IsSound = record { room = omega arith; given = λ v r h. ground arith }

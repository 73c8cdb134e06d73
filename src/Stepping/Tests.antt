-- ===== src/Stepping/Tests.antt =====
-- A world of two nested contexts, and the theorems about instructions there.
use auxtools.Base.{
  ℕ, ◌≡◌, refl, true, false, none, some, List, [], ◌∷◌, ◌==◌, ◌↔◌, if◌then◌else◌, arith, inr,
}
use auxtools.Value.{null_value}
use auxtools.Debug.{Context}
use auxtools.Procs.{RawProc, strip_path, empty_registry}
use auxtools.Hooking.{opcode_debug_break}
use auxtools.Server.Messages.{step}
use auxtools.Server.Session.{Session, closed, check_stream, ret}
use auxtools.Server.World.{Byond, err}
use auxtools.Stepping.Decide.{
  Steps, rest, stepping_over, stepping_out, break_on_next, becomes, stops, is_generated_proc,
  new_ref, is, decide,
}
use auxtools.Stepping.{Tracer, execute, handle_instruction}
use auxtools.Stepping.References.{new_refs, is-new_ref}
use auxtools.Stepping.Conditions.{IsDue, IsArming, IsGivenUp, out, decide-IsDue}
use auxtools.Stepping.Stops.{execute_once, execute-execute_once}
use auxtools.Stepping.Detached.{IsPassed, handle_instruction-IsPassed}

abbrev at_instance : ℕ → Context
at_instance n = record {
  address = n;
  instance_ptr = n;
  proc = 0;
  bytecode = 100;
  bytecode_offset = 4;
  usr = null_value;
  src = null_value;
  dot = null_value;
  args = [];
  locals = [];
  filename = none;
  line = 0;
}

-- The proc of every context, which is not a generated one.
abbrev procs : List RawProc
procs = record { address = 100; raw_path = b'/' ∷ b'a' ∷ [] } ∷ []

abbrev nested : Byond
nested = record {
  World = Steps;
  contexts = λ w. at_instance 1 ∷ at_instance 2 ∷ [];
  sleeping = λ w. [];
  raw_procs = procs;
  parameter_names = λ p. [];
  local_names = λ p. [];
  get_length = λ w v. 0;
  get_assoc_element = λ w v k. none;
  get_variable = λ w v t. none;
  to_text = λ w v. none;
  raw_text = λ w v. [];
  string_text = λ w i. [];
  index_value = λ i. null_value;
  disassembler = λ ws. [];
  disassembly_error = λ ws. none;
  lowercase = λ t. t;
  Expr = Unit {0};
  compile_expr = λ t names. err [];
  assemble = λ w e. (err [], w);
  fresh_buffer = λ w. 0;
  call_proc = λ p args s. ret (none, s);
  commit = λ w f slot v. w;
  parse_command = λ t. err [];
}

abbrev tracer : Tracer nested
tracer = record {
  steps = λ w. w;
  put_steps = λ t w. t;
  put_put = λ t u w. refl;
  steps_put = λ t w. refl;
  contexts_put = λ t w. refl;
  sleeping_put = λ t w. refl;
}

-- The outer instance has the tag 9.
abbrev tagged : ℕ → ℕ
tagged i = if i == 2 then 9 else 0

abbrev session : Session Steps
session = record {
  requests = [];
  stream = closed;
  link = 0;
  sent = [];
  should_catch_runtimes = true;
  state = none;
  in_eval = false;
  eval_error = none;
  conditional_breakpoints = [];
  hooks = record { memory = λ a. opcode_debug_break; original = []; deferred = none };
  bytecodes = record {
    allocations = [];
    original = [];
    entry = λ j. record { ptr = 0; count = 0 };
  };
  procs = empty_registry;
  stddef = none;
  world = record { action = stepping_over 9; last_ref = 9; tags = tagged };
}

handle_instruction-IsPassed_example :
    (t : Session Steps) × (handle_instruction nested tracer true 0
        (at_instance 1)
        (at_instance 2 ∷ [])
        session
      ≡ ret (some tt, t))
    × IsPassed nested tracer true 0 session t
unfolding check_stream
handle_instruction-IsPassed_example =
    handle_instruction-IsPassed nested tracer true 0 (at_instance 1) (at_instance 2 ∷ []) session
      (inr refl)

execute-execute_once_example :
    execute nested tracer false 0 (at_instance 1) (at_instance 2 ∷ []) session
    ≡ execute_once nested tracer false 0 (at_instance 1) (at_instance 2 ∷ []) session
execute-execute_once_example =
    execute-execute_once nested tracer false 0 (at_instance 1) (at_instance 2 ∷ []) session

-- Stepped out to the outer context, which is reached.
decide-IsDue_example :
    ((decide procs tagged [] 0 (at_instance 2) [] (stepping_out 9) ≡ stops step)
      ↔ IsDue procs tagged [] 0 (at_instance 2) [] (stepping_out 9) step)
    × ((decide procs tagged [] 0 (at_instance 2) [] (stepping_out 9) ≡ becomes break_on_next)
        ↔ IsArming procs tagged [] 0 (at_instance 2) [] (stepping_out 9))
    × ((decide procs tagged [] 0 (at_instance 2) [] (stepping_out 9) ≡ becomes rest)
        ↔ IsGivenUp procs tagged [] 0 (at_instance 2) [] (stepping_out 9))
decide-IsDue_example = decide-IsDue procs tagged [] 0 (at_instance 2) [] (stepping_out 9) step

is_due : IsDue procs tagged [] 0 (at_instance 2) [] (stepping_out 9) step
unfolding is_generated_proc strip_path
is_due = out refl refl

abbrev start : Steps
start = record { action = rest; last_ref = 0x8000; tags = λ i. 0 }

is-new_ref_example :
    (is
        (new_ref 7 (new_refs (5 ∷ 7 ∷ []) start)).1.tags
        (new_ref 7 (new_refs (5 ∷ 7 ∷ []) start)).0
        (at_instance 1)
      ≡ true)
    ↔ ((at_instance 1).instance_ptr ≡ 7)
is-new_ref_example =
    is-new_ref (5 ∷ 7 ∷ []) 7 start (at_instance 1) (λ i. omega arith) (omega arith)

abbrev near_last : Steps
near_last = record { action = rest; last_ref = 0xfffe; tags = λ i. 0 }

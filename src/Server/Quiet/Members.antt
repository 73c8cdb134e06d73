-- ===== src/Server/Quiet/Members.antt =====
-- debug_server/src/server.rs: the channel while variables are read.
use auxtools.Base.{ℕ, zero, suc, ◌+◌, refl, Option, none, some, List, [], ◌∷◌, arith, Text}
use auxtools.Value.{Value, is_list}
use auxtools.Server.Messages.{Name}
use auxtools.Server.Session.{Paused}
use auxtools.Server.World.{Byond}
use auxtools.Server.Inspect.{stacks_of, give_ref, value_to_variables_ref, value_to_variable}
use auxtools.Server.Members.{
  list_variable, list_entries, list_to_variables, member_variables, object_to_variables,
  arg_variables, member, vars_list, local_variables, get_args, get_locals,
}
use auxtools.Server.Stacks.{get_stack_frame}
use auxtools.Server.Quiet.{
  IsQuiet, bind_quiet, same_quiet, panic_quiet, option_quiet, res_quiet, if_quiet, notify-IsQuiet,
}

module _ (b : Byond) where
  pub value_to_variables_ref-IsQuiet : (v : Value) → IsQuiet (value_to_variables_ref b v)
  unfolding value_to_variables_ref give_ref
  value_to_variables_ref-IsQuiet v s x h = ground arith

  pub value_to_variable-IsQuiet : (name : Name) (v : Value) → IsQuiet (value_to_variable b name v)
  unfolding value_to_variable
  value_to_variable-IsQuiet name v s x h = grind (arith, value_to_variables_ref-IsQuiet)

  list_variable-IsQuiet :
      (p : Paused) (list : Value) (i : ℕ) (key : Value) → IsQuiet (list_variable b p list i key)
  unfolding list_variable give_ref
  list_variable-IsQuiet p list i key s x h = grind (arith, value_to_variable-IsQuiet)

  list_entries-IsQuiet : (list : Value) (n i : ℕ) → IsQuiet (list_entries b list n i)
  unfolding list_entries
  list_entries-IsQuiet list zero i s = same_quiet s refl
  list_entries-IsQuiet list (suc n) i s = option_quiet s.state s (panic_quiet s) (λ p.
      option_quiet (b.get_assoc_element s.world list (b.index_value i)) s (same_quiet s refl)
        (λ key. bind_quiet s (list_variable-IsQuiet p list i key s) (λ v t.
          bind_quiet t (list_entries-IsQuiet list n (i + 1) t) (λ vs u. same_quiet u refl))))

  pub list_to_variables-IsQuiet : (v : Value) → IsQuiet (list_to_variables b v)
  unfolding list_to_variables
  list_to_variables-IsQuiet v s =
      option_quiet s.state s (panic_quiet s)
        (λ p. if_quiet (is_list v.tag) s (list_entries-IsQuiet v _ 1 s) (same_quiet s refl))

  member_variables-IsQuiet :
      (obj vars : Value) (n i : ℕ) → IsQuiet (member_variables b obj vars n i)
  unfolding member_variables
  member_variables-IsQuiet obj vars zero i s = same_quiet s refl
  member_variables-IsQuiet obj vars (suc n) i s =
      res_quiet (member b s.world obj vars i) s
        (λ m. bind_quiet s (value_to_variable-IsQuiet _ _ s) (λ v t.
          bind_quiet t (member_variables-IsQuiet obj vars n (i + 1) t) (λ vs u. same_quiet u refl)))
        (λ e. same_quiet s refl)

  pub object_to_variables-IsQuiet : (v : Value) → IsQuiet (object_to_variables b v)
  unfolding object_to_variables
  object_to_variables-IsQuiet v s =
      res_quiet (vars_list b s.world v) s
        (λ vars.
          if_quiet (is_list vars.tag) s
            (bind_quiet s (member_variables-IsQuiet v vars _ 1 s) (λ ms t. same_quiet t refl))
            (same_quiet s refl))
        (λ e. same_quiet s refl)

  arg_variables-IsQuiet :
      (n : ℕ) (args : List (Option Text × Value)) → IsQuiet (arg_variables b n args)
  unfolding arg_variables
  arg_variables-IsQuiet n [] s = same_quiet s refl
  arg_variables-IsQuiet n ((some y, v) ∷ rest) s =
      bind_quiet s (value_to_variable-IsQuiet _ v s)
        (λ a t. bind_quiet t (arg_variables-IsQuiet n rest t) (λ c u. same_quiet u refl))
  arg_variables-IsQuiet n ((none, v) ∷ rest) s =
      bind_quiet s (value_to_variable-IsQuiet _ v s)
        (λ a t. bind_quiet t (arg_variables-IsQuiet (n + 1) rest t) (λ c u. same_quiet u refl))

  local_variables-IsQuiet : (ls : List (Text × Value)) → IsQuiet (local_variables b ls)
  unfolding local_variables
  local_variables-IsQuiet [] s = same_quiet s refl
  local_variables-IsQuiet ((y, v) ∷ rest) s =
      bind_quiet s (value_to_variable-IsQuiet _ v s)
        (λ a t. bind_quiet t (local_variables-IsQuiet rest t) (λ c u. same_quiet u refl))

  pub get_args-IsQuiet : (i : ℕ) → IsQuiet (get_args b i)
  unfolding get_args
  get_args-IsQuiet i s =
      option_quiet (get_stack_frame (stacks_of s) i) s
        (bind_quiet s (notify-IsQuiet _ s) (λ _ t. same_quiet t refl))
        (λ f. bind_quiet s (value_to_variable-IsQuiet _ _ s) (λ _ t.
          bind_quiet t (value_to_variable-IsQuiet _ _ t)
            (λ _ u. bind_quiet u (arg_variables-IsQuiet _ _ u) (λ _ w. same_quiet w refl))))

  pub get_locals-IsQuiet : (i : ℕ) → IsQuiet (get_locals b i)
  unfolding get_locals
  get_locals-IsQuiet i s =
      option_quiet (get_stack_frame (stacks_of s) i) s
        (bind_quiet s (notify-IsQuiet _ s) (λ _ t. same_quiet t refl))
        (λ f.
          bind_quiet s (value_to_variable-IsQuiet _ _ s)
            (λ _ t. bind_quiet t (local_variables-IsQuiet _ t) (λ _ w. same_quiet w refl)))

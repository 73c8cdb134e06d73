-- ===== src/Startup/Signatures.antt =====
-- auxtools/src/lib.rs: the byte signatures of BYOND's functions on Linux.
use auxtools.Base.{ℕ, none, some, List, [], ◌∷◌, ◌==◌, if◌then◌else◌}
use auxtools.Sigscan.{Signature}

-- The names of the signatures, those that differ by BYOND's build with the build they start at.
pub data SignatureName : Type 0 where
  get_proc_array_entry get_string_id call_proc_by_id call_proc_by_id2 get_variable
        get_string_table_entry call_datum_proc_by_name dec_ref_count_513 dec_ref_count_514
        inc_ref_count get_assoc_element set_assoc_element create_list append_to_list
        remove_from_list get_length get_misc_by_id runtime suspended_procs suspended_procs_buffer
        to_string_514 to_string_513 set_variable_514 set_variable_513 current_execution_context
        variable_names_514 variable_names_513 :
      SignatureName

-- `??` in a signature, which is no byte.
abbrev any : ℕ
any = 256

abbrev pattern : List ℕ → Signature
pattern [] = []
pattern (b ∷ bs) = (if b == any then none else some b) ∷ pattern bs

unfoldable pub signature_of : SignatureName → Signature
signature_of get_proc_array_entry = pattern (
    0xe8 ∷ any ∷ any ∷ any ∷ any ∷ 0x8b ∷ 0x00 ∷ 0x89 ∷ 0x04 ∷ 0x24 ∷ 0xe8 ∷ any ∷ any ∷ any ∷ any
    ∷ 0x8b ∷ 0x00 ∷ 0x89 ∷ 0x44 ∷ 0x24 ∷ any ∷ 0x8d ∷ 0x45 ∷ any ∷ [])
signature_of get_string_id = pattern (
    0x55 ∷ 0x89 ∷ 0xe5 ∷ 0x57 ∷ 0x56 ∷ 0x89 ∷ 0xce ∷ 0x53 ∷ 0x89 ∷ 0xd3 ∷ 0x83 ∷ 0xec ∷ 0x5c ∷ 0x8b
    ∷ 0x55 ∷ any ∷ 0x85 ∷ 0xc0 ∷ 0x88 ∷ 0x55 ∷ any ∷ 0x0f ∷ 0x84 ∷ any ∷ any ∷ any ∷ any ∷ [])
signature_of call_proc_by_id = pattern (
    0xe8 ∷ any ∷ any ∷ any ∷ any ∷ 0x8b ∷ 0x45 ∷ any ∷ 0x8b ∷ 0x55 ∷ any ∷ 0x89 ∷ 0x45 ∷ any ∷ 0x89
    ∷ 0x55 ∷ any ∷ 0x8b ∷ 0x55 ∷ any ∷ 0x8b ∷ 0x4d ∷ any ∷ 0x8b ∷ 0x5d ∷ any ∷ [])
signature_of call_proc_by_id2 = pattern (
    0xe8 ∷ any ∷ any ∷ any ∷ any ∷ 0x8b ∷ 0x45 ∷ any ∷ 0x8b ∷ 0x55 ∷ any ∷ 0x8b ∷ 0x5d ∷ any ∷ 0x8b
    ∷ 0x75 ∷ 0xe4 ∷ 0x83 ∷ 0xec ∷ 0x04 ∷ 0x89 ∷ 0x44 ∷ 0x24 ∷ 0x08 ∷ 0x89 ∷ 0x54 ∷ 0x24 ∷ 0x04 ∷ [])
signature_of get_variable = pattern (
    0x55 ∷ 0x89 ∷ 0xe5 ∷ 0x81 ∷ 0xec ∷ 0xc8 ∷ 0x00 ∷ 0x00 ∷ 0x00 ∷ 0x8b ∷ 0x55 ∷ any ∷ 0x89 ∷ 0x5d
    ∷ any ∷ 0x8b ∷ 0x5d ∷ any ∷ 0x89 ∷ 0x75 ∷ any ∷ 0x8b ∷ 0x75 ∷ any ∷ [])
signature_of get_string_table_entry = pattern (
    0x55 ∷ 0x89 ∷ 0xe5 ∷ 0x83 ∷ 0xec ∷ 0x18 ∷ 0x8b ∷ 0x45 ∷ any ∷ 0x39 ∷ 0x05 ∷ any ∷ any ∷ any
    ∷ any ∷ 0x76 ∷ any ∷ 0x8b ∷ 0x15 ∷ any ∷ any ∷ any ∷ any ∷ 0x8b ∷ 0x04 ∷ any ∷ [])
signature_of call_datum_proc_by_name = pattern (
    0x55 ∷ 0x89 ∷ 0xe5 ∷ 0x57 ∷ 0x56 ∷ 0x53 ∷ 0x83 ∷ 0xec ∷ 0x5c ∷ 0x8b ∷ 0x55 ∷ any ∷ 0x0f ∷ 0xb6
    ∷ 0x45 ∷ any ∷ 0x8b ∷ 0x4d ∷ any ∷ 0x8b ∷ 0x5d ∷ any ∷ 0x89 ∷ 0x14 ∷ 0x24 ∷ 0x8b ∷ 0x55 ∷ any
    ∷ 0x88 ∷ 0x45 ∷ any ∷ 0x0f ∷ 0xb6 ∷ 0xf8 ∷ 0x8b ∷ 0x75 ∷ any ∷ 0x8d ∷ 0x45 ∷ any ∷ 0x89 ∷ 0x44
    ∷ 0x24 ∷ any ∷ 0x89 ∷ 0xf8 ∷ 0x89 ∷ 0x4c ∷ 0x24 ∷ any ∷ 0x31 ∷ 0xc9 ∷ 0xc6 ∷ 0x45 ∷ any ∷ 0x00
    ∷ 0xc7 ∷ 0x44 ∷ 0x24 ∷ any ∷ 0x01 ∷ 0x00 ∷ 0x00 ∷ 0x00 ∷ [])
signature_of dec_ref_count_513 = pattern (
    0xe8 ∷ any ∷ any ∷ any ∷ any ∷ 0x8b ∷ 0x4d ∷ any ∷ 0xc7 ∷ 0x44 ∷ 0x24 ∷ any ∷ 0x00 ∷ 0x00 ∷ 0x00
    ∷ 0x00 ∷ 0xc7 ∷ 0x44 ∷ 0x24 ∷ any ∷ 0x00 ∷ 0x00 ∷ 0x00 ∷ 0x00 ∷ 0x89 ∷ 0x0c ∷ 0x24 ∷ [])
signature_of dec_ref_count_514 = pattern (
    0xe8 ∷ any ∷ any ∷ any ∷ any ∷ 0xc7 ∷ 0x06 ∷ 0x00 ∷ 0x00 ∷ 0x00 ∷ 0x00 ∷ 0xc7 ∷ 0x46 ∷ any
    ∷ 0x00 ∷ 0x00 ∷ 0x00 ∷ 0x00 ∷ 0xa1 ∷ any ∷ any ∷ any ∷ any ∷ 0x0f ∷ 0xb7 ∷ 0x50 ∷ any ∷ [])
signature_of inc_ref_count = pattern (
    0xe8 ∷ any ∷ any ∷ any ∷ any ∷ 0x8b ∷ 0x43 ∷ any ∷ 0x80 ∷ 0x48 ∷ any ∷ 0x04 ∷ 0x8b ∷ 0x5d ∷ any
    ∷ 0x8b ∷ 0x75 ∷ any ∷ 0x8b ∷ 0x7d ∷ any ∷ 0x89 ∷ 0xec ∷ 0x5d ∷ [])
signature_of get_assoc_element = pattern (
    0x55 ∷ 0x89 ∷ 0xe5 ∷ 0x83 ∷ 0xec ∷ 0x68 ∷ 0x89 ∷ 0x4d ∷ any ∷ 0xb9 ∷ 0x7b ∷ 0x00 ∷ 0x00 ∷ 0x00
    ∷ 0x89 ∷ 0x5d ∷ any ∷ 0x89 ∷ 0xd3 ∷ 0x89 ∷ 0x75 ∷ any ∷ 0x89 ∷ 0xc6 ∷ [])
signature_of set_assoc_element = pattern (
    0x55 ∷ 0xb9 ∷ 0x7c ∷ 0x00 ∷ 0x00 ∷ 0x00 ∷ 0x89 ∷ 0xe5 ∷ 0x83 ∷ 0xec ∷ 0x58 ∷ 0x89 ∷ 0x7d ∷ any
    ∷ 0x8b ∷ 0x7d ∷ any ∷ 0x89 ∷ 0x5d ∷ any ∷ 0x89 ∷ 0xc3 ∷ 0x8b ∷ 0x45 ∷ any ∷ [])
signature_of create_list = pattern (
    0x55 ∷ 0x89 ∷ 0xe5 ∷ 0x57 ∷ 0x56 ∷ 0x53 ∷ 0x83 ∷ 0xec ∷ 0x2c ∷ 0xa1 ∷ any ∷ any ∷ any ∷ any
    ∷ 0x8b ∷ 0x75 ∷ any ∷ 0x85 ∷ 0xc0 ∷ 0x0f ∷ 0x84 ∷ any ∷ any ∷ any ∷ any ∷ [])
signature_of append_to_list = pattern (
    0x55 ∷ 0x89 ∷ 0xe5 ∷ 0x83 ∷ 0xec ∷ 0x38 ∷ 0x3c ∷ 0x54 ∷ 0x89 ∷ 0x5d ∷ any ∷ 0x8b ∷ 0x5d ∷ any
    ∷ 0x89 ∷ 0x75 ∷ any ∷ 0x8b ∷ 0x75 ∷ any ∷ 0x89 ∷ 0x7d ∷ any ∷ 0x76 ∷ any ∷ [])
signature_of remove_from_list = pattern (
    0x55 ∷ 0x89 ∷ 0xe5 ∷ 0x83 ∷ 0xec ∷ 0x48 ∷ 0x3c ∷ 0x54 ∷ 0x89 ∷ 0x5d ∷ any ∷ 0x89 ∷ 0xc3 ∷ 0x89
    ∷ 0x75 ∷ any ∷ 0x8b ∷ 0x75 ∷ any ∷ 0x89 ∷ 0x7d ∷ any ∷ 0x8b ∷ 0x7d ∷ any ∷ [])
signature_of get_length = pattern (
    0x55 ∷ 0x89 ∷ 0xe5 ∷ 0x57 ∷ 0x56 ∷ 0x53 ∷ 0x83 ∷ 0xec ∷ 0x6c ∷ 0x8b ∷ 0x45 ∷ any ∷ 0x8b ∷ 0x5d
    ∷ any ∷ 0x3c ∷ 0x54 ∷ 0x76 ∷ any ∷ 0x31 ∷ 0xf6 ∷ 0x8d ∷ 0x65 ∷ any ∷ [])
signature_of get_misc_by_id = pattern (
    0xe8 ∷ any ∷ any ∷ any ∷ any ∷ 0x0f ∷ 0xb7 ∷ 0x55 ∷ any ∷ 0x03 ∷ 0x1f ∷ 0x0f ∷ 0xb7 ∷ 0x4b ∷ any
    ∷ 0x89 ∷ 0x8d ∷ any ∷ any ∷ any ∷ any ∷ 0x0f ∷ 0xb7 ∷ 0x5b ∷ any ∷ [])
signature_of runtime = pattern (
    0xe8 ∷ any ∷ any ∷ any ∷ any ∷ 0x31 ∷ 0xc0 ∷ 0x8d ∷ 0xb4 ∷ 0x26 ∷ 0x00 ∷ 0x00 ∷ 0x00 ∷ 0x00
    ∷ 0x8b ∷ 0x5d ∷ any ∷ 0x8b ∷ 0x75 ∷ any ∷ 0x8b ∷ 0x7d ∷ any ∷ 0x89 ∷ 0xec ∷ [])
signature_of suspended_procs = pattern (
    0xa3 ∷ any ∷ any ∷ any ∷ any ∷ 0x8d ∷ 0x14 ∷ any ∷ 0x73 ∷ any ∷ 0x8d ∷ 0x74 ∷ 0x26 ∷ 0x00 ∷ 0x83
    ∷ 0xc0 ∷ 0x01 ∷ 0x8b ∷ 0x14 ∷ any ∷ 0x39 ∷ 0xc3 ∷ 0x89 ∷ 0x54 ∷ any ∷ any ∷ [])
signature_of suspended_procs_buffer = pattern (
    0x89 ∷ 0x35 ∷ any ∷ any ∷ any ∷ any ∷ 0xc7 ∷ 0x04 ∷ 0x24 ∷ any ∷ any ∷ any ∷ any ∷ 0xe8 ∷ any
    ∷ any ∷ any ∷ any ∷ 0x8b ∷ 0x45 ∷ any ∷ 0x83 ∷ 0xc0 ∷ 0x08 ∷ [])
signature_of to_string_514 = pattern (
    0x55 ∷ 0x89 ∷ 0xe5 ∷ 0x83 ∷ 0xec ∷ 0x68 ∷ 0xa1 ∷ any ∷ any ∷ any ∷ any ∷ 0x8b ∷ 0x15 ∷ any ∷ any
    ∷ any ∷ any ∷ 0x8b ∷ 0x0d ∷ any ∷ any ∷ any ∷ any ∷ 0x89 ∷ 0x5d ∷ any ∷ [])
signature_of to_string_513 = pattern (
    0x55 ∷ 0x89 ∷ 0xe5 ∷ 0x83 ∷ 0xec ∷ 0x58 ∷ 0x89 ∷ 0x5d ∷ any ∷ 0x8b ∷ 0x5d ∷ any ∷ 0x89 ∷ 0x75
    ∷ any ∷ 0x8b ∷ 0x75 ∷ any ∷ 0x89 ∷ 0x7d ∷ any ∷ 0x80 ∷ 0xfb ∷ 0x54 ∷ [])
signature_of set_variable_514 = pattern (
    0x55 ∷ 0x89 ∷ 0xe5 ∷ 0x81 ∷ 0xec ∷ 0xa8 ∷ 0x00 ∷ 0x00 ∷ 0x00 ∷ 0x8b ∷ 0x55 ∷ any ∷ 0x89 ∷ 0x5d
    ∷ any ∷ 0x8b ∷ 0x4d ∷ any ∷ 0x89 ∷ 0x7d ∷ any ∷ 0x8b ∷ 0x5d ∷ any ∷ [])
signature_of set_variable_513 = pattern (
    0x55 ∷ 0x89 ∷ 0xe5 ∷ 0x81 ∷ 0xec ∷ 0xa8 ∷ 0x00 ∷ 0x00 ∷ 0x00 ∷ 0x8b ∷ 0x55 ∷ any ∷ 0x8b ∷ 0x45
    ∷ any ∷ 0x89 ∷ 0x5d ∷ any ∷ 0x8b ∷ 0x5d ∷ any ∷ 0x89 ∷ 0x7d ∷ any ∷ [])
signature_of current_execution_context = pattern (
    0xa1 ∷ any ∷ any ∷ any ∷ any ∷ 0x85 ∷ 0xc0 ∷ 0x0f ∷ 0x84 ∷ any ∷ any ∷ any ∷ any ∷ 0x8b ∷ 0x00
    ∷ 0x85 ∷ 0xc0 ∷ 0x0f ∷ 0x84 ∷ any ∷ any ∷ any ∷ any ∷ 0x8b ∷ 0x00 ∷ [])
signature_of variable_names_514 = pattern (
    0xa1 ∷ any ∷ any ∷ any ∷ any ∷ 0x8b ∷ 0x13 ∷ 0x8b ∷ 0x39 ∷ 0x8b ∷ 0x75 ∷ any ∷ 0x8b ∷ 0x14 ∷ any
    ∷ 0x89 ∷ 0x7d ∷ any ∷ 0x8b ∷ 0x3c ∷ any ∷ 0x83 ∷ 0xee ∷ 0x02 ∷ [])
signature_of variable_names_513 = pattern (
    0x8b ∷ 0x35 ∷ any ∷ any ∷ any ∷ any ∷ 0x89 ∷ 0x5d ∷ any ∷ 0x0f ∷ 0xb7 ∷ 0x08 ∷ 0x89 ∷ 0x75 ∷ any
    ∷ 0x66 ∷ 0xc7 ∷ 0x45 ∷ any ∷ 0x00 ∷ 0x00 ∷ 0x89 ∷ 0x7d ∷ any ∷ [])

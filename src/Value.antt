-- ===== src/Value.antt =====
-- auxtools/src/raw_types/values.rs and the tests of auxtools/src/value.rs and list.rs that need no
-- call into BYOND.
pub mod Turf
use auxtools.Base.{
  ℕ, ◌≡◌, refl, ap, Bool, true, false, ◌&&◌, not, Option, none, some, arith, ◌==◌, ==_iff, Eq, ◌↔◌,
  if◌then◌else◌,
}

pub data ValueTag : Type 0 where
  null : ValueTag
  turf : ValueTag
  obj : ValueTag
  mob : ValueTag
  area : ValueTag
  client : ValueTag
  string : ValueTag
  mob_typepath : ValueTag
  obj_typepath : ValueTag
  turf_typepath : ValueTag
  area_typepath : ValueTag
  resource : ValueTag
  image : ValueTag
  world : ValueTag
  list : ValueTag
  mob_vars : ValueTag
  obj_vars : ValueTag
  turf_vars : ValueTag
  area_vars : ValueTag
  client_vars : ValueTag
  vars : ValueTag
  mob_overlays : ValueTag
  mob_underlays : ValueTag
  obj_overlays : ValueTag
  obj_underlays : ValueTag
  turf_overlays : ValueTag
  turf_underlays : ValueTag
  area_overlays : ValueTag
  area_underlays : ValueTag
  image_vars : ValueTag
  world_vars : ValueTag
  global_vars : ValueTag
  datum : ValueTag
  save_file : ValueTag
  number : ValueTag
  appearance : ValueTag
  proc_id : ValueTag

-- The `#[repr(u8)]` code of a tag.
unfoldable pub as_u8 : ValueTag → ℕ
as_u8 null = 0x00
as_u8 turf = 0x01
as_u8 obj = 0x02
as_u8 mob = 0x03
as_u8 area = 0x04
as_u8 client = 0x05
as_u8 string = 0x06
as_u8 mob_typepath = 0x08
as_u8 obj_typepath = 0x09
as_u8 turf_typepath = 0x0a
as_u8 area_typepath = 0x0b
as_u8 resource = 0x0c
as_u8 image = 0x0d
as_u8 world = 0x0e
as_u8 list = 0x0f
as_u8 mob_vars = 0x2c
as_u8 obj_vars = 0x2d
as_u8 turf_vars = 0x2e
as_u8 area_vars = 0x2f
as_u8 client_vars = 0x30
as_u8 vars = 0x31
as_u8 mob_overlays = 0x32
as_u8 mob_underlays = 0x33
as_u8 obj_overlays = 0x34
as_u8 obj_underlays = 0x35
as_u8 turf_overlays = 0x36
as_u8 turf_underlays = 0x37
as_u8 area_overlays = 0x38
as_u8 area_underlays = 0x39
as_u8 image_vars = 0x42
as_u8 world_vars = 0x51
as_u8 global_vars = 0x52
as_u8 datum = 0x21
as_u8 save_file = 0x23
as_u8 number = 0x2a
as_u8 appearance = 0x3a
as_u8 proc_id = 0x26

tag_of : ℕ → Option ValueTag
tag_of c =
    if c == 0x00
    then some null
    else if c == 0x01
    then some turf
    else if c == 0x02
    then some obj
    else if c == 0x03
    then some mob
    else if c == 0x04
    then some area
    else if c == 0x05
    then some client
    else if c == 0x06
    then some string
    else if c == 0x08
    then some mob_typepath
    else if c == 0x09
    then some obj_typepath
    else if c == 0x0a
    then some turf_typepath
    else if c == 0x0b
    then some area_typepath
    else if c == 0x0c
    then some resource
    else if c == 0x0d
    then some image
    else if c == 0x0e
    then some world
    else if c == 0x0f
    then some list
    else if c == 0x2c
    then some mob_vars
    else if c == 0x2d
    then some obj_vars
    else if c == 0x2e
    then some turf_vars
    else if c == 0x2f
    then some area_vars
    else if c == 0x30
    then some client_vars
    else if c == 0x31
    then some vars
    else if c == 0x32
    then some mob_overlays
    else if c == 0x33
    then some mob_underlays
    else if c == 0x34
    then some obj_overlays
    else if c == 0x35
    then some obj_underlays
    else if c == 0x36
    then some turf_overlays
    else if c == 0x37
    then some turf_underlays
    else if c == 0x38
    then some area_overlays
    else if c == 0x39
    then some area_underlays
    else if c == 0x42
    then some image_vars
    else if c == 0x51
    then some world_vars
    else if c == 0x52
    then some global_vars
    else if c == 0x21
    then some datum
    else if c == 0x23
    then some save_file
    else if c == 0x2a
    then some number
    else if c == 0x3a
    then some appearance
    else if c == 0x26
    then some proc_id
    else none

tag_of-as_u8 : (t : ValueTag) → tag_of (as_u8 t) ≡ some t
unfolding tag_of as_u8
tag_of-as_u8 null = refl
tag_of-as_u8 turf = refl
tag_of-as_u8 obj = refl
tag_of-as_u8 mob = refl
tag_of-as_u8 area = refl
tag_of-as_u8 client = refl
tag_of-as_u8 string = refl
tag_of-as_u8 mob_typepath = refl
tag_of-as_u8 obj_typepath = refl
tag_of-as_u8 turf_typepath = refl
tag_of-as_u8 area_typepath = refl
tag_of-as_u8 resource = refl
tag_of-as_u8 image = refl
tag_of-as_u8 world = refl
tag_of-as_u8 list = refl
tag_of-as_u8 mob_vars = refl
tag_of-as_u8 obj_vars = refl
tag_of-as_u8 turf_vars = refl
tag_of-as_u8 area_vars = refl
tag_of-as_u8 client_vars = refl
tag_of-as_u8 vars = refl
tag_of-as_u8 mob_overlays = refl
tag_of-as_u8 mob_underlays = refl
tag_of-as_u8 obj_overlays = refl
tag_of-as_u8 obj_underlays = refl
tag_of-as_u8 turf_overlays = refl
tag_of-as_u8 turf_underlays = refl
tag_of-as_u8 area_overlays = refl
tag_of-as_u8 area_underlays = refl
tag_of-as_u8 image_vars = refl
tag_of-as_u8 world_vars = refl
tag_of-as_u8 global_vars = refl
tag_of-as_u8 datum = refl
tag_of-as_u8 save_file = refl
tag_of-as_u8 number = refl
tag_of-as_u8 appearance = refl
tag_of-as_u8 proc_id = refl

as_u8_injective : (s t : ValueTag) → as_u8 s ≡ as_u8 t → s ≡ t
as_u8_injective s t h = cc (tag_of-as_u8 s, tag_of-as_u8 t, h)

abbrev pub tag_beq : ValueTag → ValueTag → Bool
tag_beq s t = as_u8 s == as_u8 t

pub tag_beq_iff : (s t : ValueTag) → (tag_beq s t ≡ true) ↔ (s ≡ t)
tag_beq_iff s t = (
  λ h. as_u8_injective s t ((==_iff (as_u8 s) (as_u8 t)).0 h),
  λ e. (==_iff (as_u8 s) (as_u8 t)).1 (ap as_u8 e),
)

instance abbrev pub tag_eq : Eq ValueTag
tag_eq = record { beq = tag_beq; beq_iff = tag_beq_iff }

-- A raw value: its tag and the 32 bits of its union.
pub record Value : Type 0 where
  pub tag : ValueTag
  pub data_id : ℕ

-- `PartialEq for Value`: the tags and the 32 bits agree.
abbrev pub value_beq : Value → Value → Bool
value_beq a b = tag_beq a.tag b.tag && (a.data_id == b.data_id)

pub value_beq_iff : (a b : Value) → (value_beq a b ≡ true) ↔ (a ≡ b)
value_beq_iff a b =
    (λ h. ground (arith, tag_beq_iff a.tag b.tag), λ e. ground (arith, tag_beq_iff a.tag b.tag))

instance abbrev pub value_eq : Eq Value
value_eq = record { beq = value_beq; beq_iff = value_beq_iff }

abbrev pub value : ValueTag → ℕ → Value
value t d = record { tag = t; data_id = d }

-- `Value::globals`, `Value::world` and `Value::null`.
abbrev pub globals : Value
globals = value world 1

abbrev pub world_value : Value
world_value = value world 0

abbrev pub null_value : Value
null_value = value null 0

-- `List::is_list`
unfoldable pub is_list : ValueTag → Bool
is_list list = true
is_list mob_vars = true
is_list obj_vars = true
is_list turf_vars = true
is_list area_vars = true
is_list client_vars = true
is_list vars = true
is_list mob_overlays = true
is_list mob_underlays = true
is_list obj_overlays = true
is_list obj_underlays = true
is_list turf_overlays = true
is_list turf_underlays = true
is_list area_overlays = true
is_list area_underlays = true
is_list image_vars = true
is_list world_vars = true
is_list global_vars = true
is_list _ = false

-- `Value::is_truthy`: a number is false when it is 0.0 or -0.0, whose bits are 0 and 2 ^ 31.
unfoldable pub truth : ValueTag → ℕ → Bool
truth null d = false
truth number d = not (d == 0) && not (d == 0x8000_0000)
truth _ d = true

unfoldable pub is_truthy : Value → Bool
unfolding truth
is_truthy v = truth v.tag v.data_id

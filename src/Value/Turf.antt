-- ===== src/Value/Turf.antt =====
-- auxtools/src/value.rs: `Value::turf_by_id` and `Value::turf`. The map size comes from `world.maxx`,
-- `maxy` and `maxz`, cast to `u32`; arithmetic on `u32` is that of a release build, which wraps.
use auxtools.Base.{
  ℕ, ◌+◌, ◌-◌, ◌*◌, ◌%◌, ◌^◌, ◌<◌, ◌≡◌, ◌&&◌, Option, none, some, ltb, if◌then◌else◌, arith,
}
use auxtools.Value.{Value, ValueTag, value}

abbrev pub u32_mod : ℕ
u32_mod = 2 ^ 32

pub record MapSize : Type 0 where
  pub max_x : ℕ
  pub max_y : ℕ
  pub max_z : ℕ

abbrev turf_value : ℕ → Value
turf_value id = value ValueTag.turf id

-- `none` is the runtime error about the id.
unfoldable pub turf_by_id : MapSize → ℕ → Option Value
turf_by_id m id =
    if ltb ((id + u32_mod - 1) % u32_mod) (m.max_x * m.max_y % u32_mod * m.max_z % u32_mod)
    then some (turf_value id)
    else none

abbrev pred_u32 : ℕ → ℕ
pred_u32 x = (x + u32_mod - 1) % u32_mod

unfoldable pub turf : MapSize → (x y z : ℕ) → Option Value
turf m x y z =
    if ltb (pred_u32 x) m.max_x && (ltb (pred_u32 y) m.max_y && ltb (pred_u32 z) m.max_z)
    then some (
        turf_value (
          (pred_u32 x
            + pred_u32 y * m.max_x % u32_mod
            + pred_u32 z * m.max_x % u32_mod * m.max_y % u32_mod)
          % u32_mod))
    else none

-- The turf at the first position has an id that `turf_by_id` refuses, whatever the size of the map:
-- one counts turfs from 0, the other from 1. No side of the map is 0.
pub turf-turf_by_id :
    (m : MapSize)
    → 0 < m.max_x
    → 0 < m.max_y
    → 0 < m.max_z
    → (v : Value) × (turf m 1 1 1 ≡ some v) × (turf_by_id m v.data_id ≡ none)
unfolding turf turf_by_id
turf-turf_by_id m x y z = (value ValueTag.turf 0, ground arith, ground arith)

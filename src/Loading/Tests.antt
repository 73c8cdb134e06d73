-- ===== src/Loading/Tests.antt =====
-- debug_server/src/mem_profiler.rs and ckey_override.rs: a module that is loaded too late, and a name
-- with a percent sign.
use auxtools.Base.{◌≡◌, refl, true, false, none, some, [], ◌∷◌}
use auxtools.Loading.{AllocatorHooks, Allocator, begin_profiling, setup_hooks}
use auxtools.Loading.Guest.{Guest, Overridden, override_guest_ckey}

abbrev fresh : AllocatorHooks
fresh = record { done = false; thread_id = 0; hooked = false }

abbrev tried : AllocatorHooks
tried = record { done = true; thread_id = 7; hooked = false }

abbrev complete : Allocator
complete = record {
  malloc = some 1;
  realloc = some 2;
  free = some 3;
  new = some 4;
  delete = some 5;
}

-- A recording begins without hooks.
begins_unhooked : begin_profiling 7 none true true (fresh, none) ≡ some (tried, some [])
unfolding begin_profiling
begins_unhooked = refl

-- The module is not looked up again.
stays_unhooked : setup_hooks 7 (some complete) true tried ≡ some tried
unfolding setup_hooks
stays_unhooked = refl

abbrev on_windows : Guest
on_windows = record { string_ptr = some 4; name_format = [] }

percent_doubled :
    override_guest_ckey (b'a' ∷ b'%' ∷ []) on_windows
    ≡ Overridden.ok (record { string_ptr = some 4; name_format = b'a' ∷ b'%' ∷ b'%' ∷ [] })
unfolding override_guest_ckey
percent_doubled = refl

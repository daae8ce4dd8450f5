-- ===== src/Memory/Mmap/Alias.antt =====
-- memory/mmap.c: `aliasAtAddress`, which places an alias at a given address in a forked child.
use os2compat.Prelude.{
  ℕ, zero, suc, ◌+◌, ◌-◌, ◌*◌, ◌/◌, ◌==◌, leb, ltb, if◌then◌else◌, not, ◌||◌, Option, none, some,
  [], ◌∷◌, Array, update,
}
use os2compat.Memory.Os.{Os, perm}
use os2compat.Memory.Mmap.{add_word}

-- The local variables of the loop; `tmps` is `apvTmps`, where NULL is 0.
pub record Attempt (W : Type 0) : Type 0 where
  pub world : W
  pub tmps : Array ℕ
  pub cb_tmp : ℕ
  pub i_tmp : ℕ

-- The number of elements of `apvTmps`.
abbrev pub tmps_size : ℕ
tmps_size = 512

abbrev pub error_not_enough_memory : ℕ
error_not_enough_memory = 8

-- The requested size in whole pages of 4096 bytes.
abbrev pub whole_pages : ℕ → ℕ
whole_pages cb = add_word cb 0xfff / 0x1000 * 0x1000

module _ (os : Os) where
  open os use {World, dos_alloc_mem, dos_free_mem, dos_alias_mem}

  -- The alias itself, once the place before the requested address is filled: a `break` with its
  -- code, or another round.
  unfoldable pub try_alias : ℕ → ℕ → ℕ → Attempt World → Attempt World × Option ℕ
  try_alias p_mem cb_req pv_req c =
      let (w, rc, pv_new) = dos_alias_mem c.world p_mem cb_req [] in
      if not (rc == 0) || ltb pv_req pv_new
      then (record c { world = w }, some error_not_enough_memory)
      else if pv_new == pv_req
      then (record c { world = w }, some 0)
      else (record c { world = w; tmps = update c.tmps c.i_tmp pv_new; i_tmp = c.i_tmp + 1 }, none)

  -- The memory at `pv_new` touches the requested address: it is freed, and what is before the
  -- address is asked for instead.
  unfoldable pub touched : ℕ → ℕ → ℕ → ℕ → Attempt World → Attempt World × Option ℕ
  unfolding try_alias
  touched p_mem cb_req pv_req pv_new c =
      let d = record c {
        world = (dos_free_mem c.world pv_new).0;
        tmps = update c.tmps c.i_tmp 0;
        cb_tmp = pv_req - pv_new;
      } in
      if d.cb_tmp == 0 then try_alias p_mem cb_req pv_req d else (d, none)

  -- The memory lies behind the requested address.
  unfoldable pub passed : ℕ → ℕ → Attempt World → Attempt World × Option ℕ
  passed cb_req pv_new c =
      if leb c.cb_tmp cb_req
      then (c, some error_not_enough_memory)
      else (record c { world = (dos_free_mem c.world pv_new).0; cb_tmp = cb_req }, none)

  -- One round of the allocation loop.
  unfoldable pub attempt : ℕ → ℕ → ℕ → Attempt World → Attempt World × Option ℕ
  unfolding touched passed
  attempt p_mem cb_req pv_req c =
      let (w, rc, pv_new) = dos_alloc_mem c.world c.cb_tmp (perm ∷ []) in
      let d = record c { world = w; tmps = update c.tmps c.i_tmp pv_new } in
      if not (rc == 0)
      then (d, some error_not_enough_memory)
      else if ltb pv_req pv_new
      then passed cb_req pv_new d
      else if ltb pv_req (add_word pv_new c.cb_tmp)
      then touched p_mem cb_req pv_req pv_new d
      else (record d { i_tmp = c.i_tmp + 1 }, none)

  -- The allocation loop, on fuel.
  unfoldable pub attempts : ℕ → ℕ → ℕ → ℕ → Attempt World → Attempt World × ℕ
  unfolding attempt
  attempts zero p_mem cb_req pv_req c = (c, error_not_enough_memory)
  attempts (suc fuel) p_mem cb_req pv_req c =
      if leb tmps_size c.i_tmp
      then (c, error_not_enough_memory)
      else (let (d, stop) = attempt p_mem cb_req pv_req c in
          elim stop [ some rc ↦ (d, rc) | none ↦ attempts fuel p_mem cb_req pv_req d ])

  -- The cleanup: the first `n` elements are freed, the last one first.
  unfoldable pub free_tmps : ℕ → Array ℕ → World → World
  free_tmps zero tmps w = w
  free_tmps (suc n) tmps w =
      free_tmps n tmps (if tmps n == 0 then w else (dos_free_mem w (tmps n)).0)

  -- 1 MB and 512 elements.
  abbrev pub alias_fuel : ℕ
  alias_fuel = 1024 * 1024 + tmps_size

  -- `aliasAtAddress` with the flags OBJ_LOCATION, which it takes out; `tmps` is what `apvTmps` has
  -- at the start.
  unfoldable pub alias_at_address : Array ℕ → World → ℕ → ℕ → ℕ → World × ℕ
  unfolding attempts free_tmps
  alias_at_address tmps w p_mem cb_req pv_req =
      let (c, rc) =
        attempts alias_fuel p_mem (whole_pages cb_req) pv_req
          (record { world = w; tmps = tmps; cb_tmp = 1024 * 1024; i_tmp = 0 }) in
      (free_tmps c.i_tmp c.tmps c.world, rc)

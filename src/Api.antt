-- ===== src/Api.antt =====
-- The calls that the library exports: src/malloc.c, src/free.c and src/realloc.c. Each runs under
-- one lock from its first look at the zones to its return, so calls of several threads are
-- sequences of whole calls. `mm` is what `mmap` returns, should the call reach it.
pub mod Stale
pub mod Free
pub mod Shrink
pub mod Malloc
pub mod NewZone
pub mod LargeZone
pub mod Tests
use ft_malloc.Base.{
  ℕ, zero, suc, Bool, true, ◌&&◌, ◌||◌, not, Option, none, some, ltb, leb, ◌==◌, if◌then◌else◌,
  ◌>>=◌,
}
use ft_malloc.Base.Words.{sub64}
use ft_malloc.Sizes.{EType, large, same_type, min_split_size, align_size, get_zone_type}
use ft_malloc.Heap.{Headers, block_payload, block_from_payload}
use ft_malloc.Alloc.{allocate_block}
use ft_malloc.Blocks.{convert_block_to_empty, split_block, try_to_extend_block}
use ft_malloc.Libft.Memory.{ft_memmove}
use ft_malloc.Zones.{
  State, Platform, arena, put_arena, find_zone, find_zone_for_ptr, is_valid_block, free_large_zone,
}

-- The zone and the block for an aligned size; the state with the payload, or with NULL (0).
unfoldable pub allocate_in_zone : Platform → ℕ → State → Option ℕ → ℕ → Option (State × ℕ)
allocate_in_zone pf fuel st mm size = do
  (st', z) ← find_zone pf fuel st mm (get_zone_type size) size
  if z == 0 then some (st', 0) else do
    (a, b) ← allocate_block fuel (arena st' z) size
    if b == 0 then some (put_arena st' a, 0) else some (put_arena st' a, block_payload b)

unfoldable pub malloc : Platform → ℕ → State → Option ℕ → ℕ → Option (State × ℕ)
malloc pf fuel st mm size =
    if (size == 0) || ltb pf.max_alloc_size size
    then some (st, 0)
    else allocate_in_zone pf fuel st mm (align_size size)

-- `free` of the block `b` in its zone `z`.
unfoldable pub release : ℕ → State → (z b : ℕ) → Option State
release fuel st z b =
    if same_type (st.zone z).type large
    then some (free_large_zone st z)
    else do a ← convert_block_to_empty fuel (arena st z) b; some (put_arena st a)

unfoldable pub free : ℕ → State → ℕ → Option State
free fuel st ptr = if ptr == 0 then some st else do
  z ← find_zone_for_ptr fuel st ptr
  if z == 0 then some st else do
    valid ← is_valid_block fuel st (block_from_payload ptr) z
    if valid then release fuel st z (block_from_payload ptr) else some st

-- `realloc_malloc` and `realloc_free` are `malloc` and `free` for a caller that holds the lock.
unfoldable pub realloc_malloc : Platform → ℕ → State → Option ℕ → ℕ → Option (State × ℕ)
realloc_malloc pf fuel st mm size =
    if (size == 0) || ltb pf.max_alloc_size size
    then some (st, 0)
    else allocate_in_zone pf fuel st mm (align_size size)

unfoldable pub realloc_free : ℕ → State → ℕ → Option State
realloc_free fuel st ptr = if ptr == 0 then some st else do
  z ← find_zone_for_ptr fuel st ptr
  if z == 0 then some st else do
    valid ← is_valid_block fuel st (block_from_payload ptr) z
    if valid then release fuel st z (block_from_payload ptr) else some st

-- A new block, a copy of the payload, and the old block given back.
unfoldable pub move_block :
    Platform → ℕ → State → Option ℕ → (ptr old_size size : ℕ) → Option (State × ℕ)
move_block pf fuel st mm ptr old_size size = do
  (st', new_ptr) ← realloc_malloc pf fuel st mm size
  if new_ptr == 0 then some (st', 0) else do
    freed ← realloc_free fuel (record st' { bytes = ft_memmove st'.bytes new_ptr ptr old_size }) ptr
    some (freed, new_ptr)

-- `realloc` of the block `b` in its zone `z`, with the size aligned.
unfoldable pub resize : Platform → ℕ → State → Option ℕ → (z b ptr size : ℕ) → Option (State × ℕ)
resize pf fuel st mm z b ptr size =
    let old_size = (st.hdr b).data_size in
    if leb size old_size
    then (if leb min_split_size (sub64 old_size size)
        then (do a ← split_block fuel (arena st z) b size; some (put_arena st a, ptr))
        else some (st, ptr))
    else if same_type (get_zone_type size) (st.zone z).type
    then (do
      (a, new_ptr) ← try_to_extend_block fuel (arena st z) b size
      if new_ptr == 0
          then move_block pf fuel (put_arena st a) mm ptr old_size size
          else some (put_arena st a, new_ptr))
    else move_block pf fuel st mm ptr old_size size

unfoldable pub realloc : Platform → ℕ → State → Option ℕ → (ptr size : ℕ) → Option (State × ℕ)
realloc pf fuel st mm ptr size =
    if ptr == 0
    then malloc pf fuel st mm size
    else if size == 0
    then (do freed ← free fuel st ptr; some (freed, 0))
    else do
      z ← find_zone_for_ptr fuel st ptr
      if z == 0 then some (st, 0) else do
        valid ← is_valid_block fuel st (block_from_payload ptr) z
        if valid
            then resize pf fuel st mm z (block_from_payload ptr) ptr (align_size size)
            else some (st, 0)

-- ===== src/Zones.antt =====
-- The zones: src/malloc_find_zone.c, the searches of src/free_utils.c and `free_large_zone`.
pub mod Init
pub mod Lookup
use ft_malloc.Base.{
  ℕ, zero, suc, ◌+◌, ◌-◌, ◌%◌, ◌≤◌, ◌≡◌, Bool, false, true, ◌&&◌, ◌||◌, Option, none, some, List,
  [], ◌∷◌, ltb, leb, ◌==◌, if◌then◌else◌, ◌>>=◌,
}
use ft_malloc.Base.Words.{size_max, add64, sub64}
use ft_malloc.Sizes.{
  EType, tiny, small, large, same_type, header_size, zone_header_size, tiny_zone_size,
  small_zone_size,
}
use ft_malloc.Heap.{Headers, Block, Zone, Arena, write}

-- The process's memory, as the allocator sees it. `mapped` lists the regions that it holds from
-- `mmap`, each with its address and length.
pub record State : Type 0 where
  pub hdr : Headers
  pub bytes : ℕ → ℕ
  pub zone : ℕ → Zone
  pub g_zones : ℕ
  pub mapped : List (ℕ × ℕ)

-- What the system tells: `get_pagesize ()` and `get_max_alloc_size ()`.
pub record Platform : Type 0 where
  pub page_size : ℕ
  pub max_alloc_size : ℕ

-- Large pages, as the systems have them: of 4096 bytes at least, and of a multiple of 16.
abbrev pub LargePages : Platform → Type 0
LargePages pf = (4096 ≤ pf.page_size) × (pf.page_size % 16 ≡ 0)

-- `get_pagesize`: the cached value, unless it is still 0.
unfoldable pub get_pagesize : (cache sysconf : ℕ) → ℕ
get_pagesize cache sysconf = if cache == 0 then sysconf else cache

-- `get_max_alloc_size`, where `limit` is what `getrlimit` reads, `none` if it fails.
unfoldable pub get_max_alloc_size : (cache : ℕ) → Option ℕ → ℕ
get_max_alloc_size cache limit =
    if cache == 0 then elim limit [ none ↦ size_max | some l ↦ l ] else cache

-- The zone at `z` with the memory that its functions need, and back.
abbrev pub arena : State → ℕ → Arena
arena st z = record { self = z; hdr = st.hdr; bytes = st.bytes; zone = st.zone z }

unfoldable pub put_zone : (ℕ → Zone) → ℕ → Zone → ℕ → Zone
put_zone zs z v x = if x == z then v else zs x

abbrev pub put_arena : State → Arena → State
put_arena st a = record st { hdr = a.hdr; bytes = a.bytes; zone = put_zone st.zone a.self a.zone }

-- The fields that `zone_init` gives a zone.
unfoldable pub fresh_zone : (new_zone : ℕ) → EType → (zone_size next : ℕ) → Zone
fresh_zone new_zone type zone_size next =
    let total = sub64 zone_size zone_header_size in
    record {
      start = new_zone;
      end = add64 new_zone zone_size;
      type = type;
      blocks_num = 0;
      total_space = total;
      remaining_space = total;
      max_free_space_size = total;
      blocks = 0;
      empty_spaces = add64 new_zone zone_header_size;
      prev = 0;
      next = next;
    }

unfoldable pub zone_init : State → (new_zone : ℕ) → EType → (zone_size : ℕ) → State
zone_init st new_zone type zone_size =
    let z = fresh_zone new_zone type zone_size st.g_zones in
    let first : Block = record {
      data_size = sub64 z.total_space header_size;
      end = z.end;
      prev = 0;
      next = 0;
    } in
    let zones = put_zone st.zone new_zone z in
    record st {
      hdr = write st.hdr z.empty_spaces first;
      zone =
          if st.g_zones == 0
          then zones
          else put_zone zones st.g_zones (record (zones st.g_zones) { prev = new_zone });
      g_zones = new_zone;
    }

-- `mmap` of `zone_size` bytes, whose result is `mm` (`none` for MAP_FAILED), and `zone_init`.
unfoldable pub map_zone : State → Option ℕ → EType → (zone_size : ℕ) → State × ℕ
map_zone st none type zone_size = (st, 0)
map_zone st (some new_zone) type zone_size = (
  zone_init (record st { mapped = (new_zone, zone_size) ∷ st.mapped }) new_zone type zone_size,
  new_zone,
)

unfoldable pub create_large_zone : State → Option ℕ → ℕ → State × ℕ
create_large_zone st mm size =
    if ltb (size_max - header_size - zone_header_size) size
    then (st, 0)
    else map_zone st mm large (add64 (add64 size header_size) zone_header_size)

unfoldable pub create_zone : Platform → State → Option ℕ → EType → State × ℕ
create_zone pf st mm type =
    if same_type type tiny
    then map_zone st mm tiny (tiny_zone_size pf.page_size)
    else if same_type type small
    then map_zone st mm small (small_zone_size pf.page_size)
    else (st, 0)

-- The loop of `find_zone`: the first zone of the type with `size + HEADER_SIZE` bytes to give.
unfoldable pub zone_loop : ℕ → (ℕ → Zone) → (iter : ℕ) → EType → (size : ℕ) → Option ℕ
zone_loop zero zs iter type size = none
zone_loop (suc k) zs iter type size =
    let rest = zone_loop k zs (zs iter).next type size in
    if iter == 0
    then some 0
    else if same_type type (zs iter).type
        && leb (add64 size header_size) (zs iter).max_free_space_size
    then some iter
    else rest

unfoldable pub find_zone : Platform → ℕ → State → Option ℕ → EType → ℕ → Option (State × ℕ)
find_zone pf fuel st mm type size =
    if same_type type large then some (create_large_zone st mm size) else do
      z ← zone_loop fuel st.zone st.g_zones type size
      if z == 0 then some (create_zone pf st mm type) else some (st, z)

-- The loop of `find_zone_for_ptr`: the first zone whose bytes hold `ptr`.
unfoldable pub ptr_loop : ℕ → (ℕ → Zone) → (iter ptr : ℕ) → Option ℕ
ptr_loop zero zs iter ptr = none
ptr_loop (suc k) zs iter ptr =
    let rest = ptr_loop k zs (zs iter).next ptr in
    if iter == 0
    then some 0
    else if leb (zs iter).start ptr && ltb ptr (zs iter).end
    then some iter
    else rest

unfoldable pub find_zone_for_ptr : ℕ → State → ℕ → Option ℕ
find_zone_for_ptr fuel st ptr = if ptr == 0 then some 0 else ptr_loop fuel st.zone st.g_zones ptr

unfoldable pub valid_loop : ℕ → Headers → (iter b : ℕ) → Option Bool
valid_loop zero h iter b = none
valid_loop (suc k) h iter b =
    let rest = valid_loop k h (h iter).next b in
    if iter == 0 then some false else if iter == b then some true else rest

unfoldable pub is_valid_block : ℕ → State → (b z : ℕ) → Option Bool
is_valid_block fuel st b z =
    if (b == 0) || (z == 0) then some false else valid_loop fuel st.hdr (st.zone z).blocks b

-- `munmap`: the region at that address with that length is given back.
unfoldable pub unmap : ℕ → ℕ → List (ℕ × ℕ) → List (ℕ × ℕ)
unmap addr len [] = []
unmap addr len ((a, n) ∷ rs) = if (a == addr) && (n == len) then rs else (a, n) ∷ unmap addr len rs

unfoldable pub free_large_zone : State → ℕ → State
free_large_zone st z =
    let prev = (st.zone z).prev in
    let zones =
      if prev == 0
      then st.zone
      else put_zone st.zone prev (record (st.zone prev) { next = (st.zone z).next }) in
    let next = (zones z).next in
    record st {
      zone =
          if next == 0
          then zones
          else put_zone zones next (record (zones next) { prev = (zones z).prev });
      g_zones = if prev == 0 then (st.zone z).next else st.g_zones;
      mapped = unmap z (add64 (st.zone z).total_space zone_header_size) st.mapped;
    }

-- ===== src/Api/NewZone.antt =====
-- What `malloc` gives where no zone has room and `mmap` gives a new one.
use ft_malloc.Base.{
  ◌%◌, ℕ, ◌+◌, ◌<◌, ◌≤◌, ◌^◌, ◌≡◌, ◌≢◌, ◌⊎◌, inl, inr, refl, ap, false, List, [], ◌∷◌, ◌++◌, some,
  arith, length, ne→==, le→ltb, if◌then◌else◌,
}
use ft_malloc.Sizes.{
  EType, large, tiny, small, same_type, align_size, get_zone_type, tiny_zone_size, small_zone_size,
}
use ft_malloc.Heap.{Arena}
use ft_malloc.Alloc.{allocate_block}
use ft_malloc.Cells.{Whole, Cell, Stands, Holds, Within}
use ft_malloc.Cells.Place.{taken, rest}
use ft_malloc.Cells.FirstFit.{FirstFit, allocate_block-first_fit}
use ft_malloc.Zones.{
  LargePages, State, Platform, arena, put_arena, find_zone, create_zone, map_zone, zone_init,
}
use ft_malloc.Zones.Init.{fresh_cell, zone_init-Stands}
use ft_malloc.Zones.Lookup.{Linked, fitting, zone_loop-fitting}
use ft_malloc.Api.{malloc, allocate_in_zone}
use ft_malloc.Api.Malloc.{aligned, not_large, cell_bounds}

-- The bytes of a new zone of the type, which is tiny or small.
abbrev pub zone_bytes : Platform → EType → ℕ
zone_bytes pf type =
    if same_type type tiny then tiny_zone_size pf.page_size else small_zone_size pf.page_size

-- The state after `mmap` has given `z` and `zone_init` has set it up.
abbrev pub with_zone : State → (z : ℕ) → EType → ℕ → State
with_zone st z type bytes = zone_init (record st { mapped = (z, bytes) ∷ st.mapped }) z type bytes

pub create_zone-mapped :
    (pf : Platform) (st : State) (z : ℕ) (type : EType)
    → (type ≡ tiny) ⊎ (type ≡ small)
    → create_zone pf st (some z) type ≡ (with_zone st z type (zone_bytes pf type), z)
unfolding create_zone map_zone
create_zone-mapped pf st z type (inl e) = rw e refl
create_zone-mapped pf st z type (inr e) = rw e refl

kind :
    (n : ℕ)
    → n ≢ 0
    → n ≤ 3040
    → (get_zone_type (align_size n) ≡ tiny) ⊎ (get_zone_type (align_size n) ≡ small)
unfolding get_zone_type
kind n ne l = ground (arith, aligned n ne l, (not_large n ne l).0)

find_zone-mapped :
    (pf : Platform) (fuel : ℕ) (st : State) (z : ℕ) (type : EType) (size : ℕ) (zones : List ℕ)
    → Linked st.zone st.g_zones zones
    → length zones < fuel
    → (type ≡ tiny) ⊎ (type ≡ small)
    → same_type type large ≡ false
    → fitting st.zone zones type size ≡ 0
    → find_zone pf fuel st (some z) type size ≡ some (with_zone st z type (zone_bytes pf type), z)
unfolding find_zone
find_zone-mapped pf fuel st z type size zones l f k not_big full =
    rw (not_big, zone_loop-fitting fuel st.zone st.g_zones type size zones l f, full)
      (ap some (create_zone-mapped pf st z type k))

pub zone_bytes-bounds :
    (pf : Platform) (type : EType)
    → LargePages pf
    → (24576 ≤ zone_bytes pf type) × (zone_bytes pf type % 16 ≡ 0)
zone_bytes-bounds pf type p = ground arith

-- A fresh zone has room for the first request.
fresh-found :
    (fuel : ℕ) (a : Arena) (z bytes n : ℕ)
    → Stands a (fresh_cell z bytes ∷ [])
    → Whole n
    → n + 112 ≤ bytes
    → 2 < fuel
    → (front : List Cell) × (c : Cell) × (back : List Cell) × FirstFit n
        (fresh_cell z bytes ∷ [])
        front
        c
        back
      × ((b : Arena) × (allocate_block fuel a n ≡ some (b, c.addr))
          × Holds b (front ++ taken c n ∷ (rest c n ++ back))
          × Within a b)
fresh-found fuel a z bytes n s l room f =
    elim (allocate_block-first_fit fuel a (fresh_cell z bytes ∷ []) n s (l.0, inl l.1)
      (omega arith)) [ inr found ↦ found | inl (below, _) ↦ absurd (omega (arith, below.0, room)) ]

-- A request of at most 3040 bytes for which no zone has room is served from a new zone, if pages are
-- large and `mmap` gives one: `malloc` returns the payload of a block cut from its one free cell, and the
-- new zone, the first of `g_zones`, stands for that block and what is left.
pub malloc-new_zone :
    (pf : Platform) (fuel : ℕ) (st : State) (z n : ℕ) (zones : List ℕ)
    → n ≢ 0
    → n ≤ 3040
    → n ≤ pf.max_alloc_size
    → LargePages pf
    → Linked st.zone st.g_zones zones
    → length zones < fuel
    → 2 < fuel
    → fitting st.zone zones (get_zone_type (align_size n)) (align_size n) ≡ 0
    → z ≢ 0
    → st.g_zones ≢ z
    → z + zone_bytes pf (get_zone_type (align_size n)) < 2 ^ 64
    → let type = get_zone_type (align_size n) in
      let bytes = zone_bytes pf type in
      let new = with_zone st z type bytes in
      (front : List Cell) × (c : Cell) × (back : List Cell) × FirstFit
        (align_size n)
        (fresh_cell z bytes ∷ [])
        front
        c
        back
      × ((b : Arena) × (malloc pf fuel st (some z) n ≡ some (put_arena new b, c.addr + 32))
          × Holds b (front ++ taken c (align_size n) ∷ (rest c (align_size n) ++ back))
          × Within (arena new z) b)
unfolding malloc allocate_in_zone
malloc-new_zone pf fuel st z n zones ne l le page linked f f2 full zne other top =
    let (bound, not_big) = not_large n ne l in
    let type : EType = get_zone_type (align_size n) in
    let bytes : ℕ = zone_bytes pf type in
    let wide = zone_bytes-bounds pf type page in
    let mapped : State = record st { mapped = (z, bytes) ∷ st.mapped } in
    let new : State = with_zone st z type bytes in
    let stands = (zone_init-Stands mapped z type bytes zne other (omega (arith, wide)) top).0 in
    let (front, c, back, first, done) =
      fresh-found fuel (arena new z) z bytes (align_size n) stands (aligned n ne l)
        (omega (arith, bound, wide)) f2 in
    let (b, runs, holds, within) = done in
    let at = cell_bounds (arena new z) (fresh_cell z bytes ∷ []) front c back stands first.split in
    (
      front,
      c,
      back,
      first,
      (
        b,
        rw
            (
              ne→== n 0 ne,
              le→ltb pf.max_alloc_size n le,
              find_zone-mapped pf fuel st z type (align_size n) zones linked f (kind n ne l) not_big
                  full,
              ne→== z 0 zne,
              runs,
              ne→== c.addr 0 (omega (arith, at.0)),
            )
            (ap (λ (x : ℕ). some (put_arena new b, x)) (omega (arith, at.1))),
        holds,
        within,
      ),
    )

-- ===== src/Api/LargeZone.antt =====
-- `malloc` of a large request: a zone of its own.
use ft_malloc.Base.{
  ℕ, ◌+◌, ◌-◌, ◌++◌, ◌^◌, ◌<◌, ◌≤◌, ◌≡◌, ◌≢◌, inl, inr, refl, true, false, ap, subst, some, [], ◌∷◌,
  arith, leb, leb→le, le→ltb, ne→==, Bool-cases,
}
use ft_malloc.Base.Words.{add64, size_max}
use ft_malloc.Sizes.{large, align_size, get_zone_type}
use ft_malloc.Sizes.Align.{align_size_up, align_size-large}
use ft_malloc.Heap.{Arena}
use ft_malloc.Zones.{State, Platform, arena, put_arena, find_zone, create_large_zone, map_zone}
use ft_malloc.Zones.Init.{fresh_cell, zone_init-Stands}
use ft_malloc.Api.{malloc, allocate_in_zone}
use ft_malloc.Api.NewZone.{with_zone}
use ft_malloc.Alloc.{allocate_block}
use ft_malloc.Cells.{Cell, Whole, Stands, Holds, Within}
use ft_malloc.Cells.Place.{taken, rest}
use ft_malloc.Cells.Allocate.{allocate_from_empty-Holds}
use ft_malloc.Cells.FirstFit.{first_addr-sole, allocate-found}

-- A size that a zone can have is rounded up.
rounded : (n : ℕ) → n ≢ 0 → align_size n + 112 < 2 ^ 64 → (n ≤ align_size n) × Whole (align_size n)
rounded n ne l = elim (Bool-cases (leb n (size_max - 16))) [
  | inl e ↦
      let (multiple, le, _) = align_size_up n (leb→le n (size_max - 16) e) in
      omega (arith, multiple, le, ne)
  | inr e ↦
      let over : size_max - 16 < n = ground (arith, e) in
      absurd (omega (arith, over, l, align_size-large n over))
]

-- The block that fills a zone of `size` bytes and two headers at `z`.
abbrev pub sole_cell : (z size : ℕ) → Cell
sole_cell z size = record { addr = z + 80; size = size; used = true }

sole-taken :
    (z size : ℕ)
    → taken (fresh_cell z (size + 112)) size ∷ (rest (fresh_cell z (size + 112)) size ++ [])
      ≡ sole_cell z size ∷ []
sole-taken z size =
    let e : size + 112 - 112 ≡ size = omega arith in
    let none_left : leb 48 (size + 112 - 112 - size) ≡ false = ground arith in
    rw none_left (ap (λ (k : ℕ). sole_cell z k ∷ []) e)

large_type : (size : ℕ) → 3040 < size → get_zone_type size ≡ large
unfolding get_zone_type
large_type size l = ground arith

find_zone-own :
    (pf : Platform) (fuel : ℕ) (st : State) (z size : ℕ)
    → 3040 < size
    → size + 112 < 2 ^ 64
    → find_zone pf fuel st (some z) (get_zone_type size) size
      ≡ some (with_zone st z large (size + 112), z)
unfolding find_zone create_large_zone map_zone
find_zone-own pf fuel st z size l top =
    let bytes : add64 (add64 size 32) 80 ≡ size + 112 = ground arith in
    rw (large_type size l, le→ltb (size_max - 112) size (omega arith), bytes) refl

allocate_block-sole :
    (fuel : ℕ) (a : Arena) (z size : ℕ)
    → Stands a (fresh_cell z (size + 112) ∷ [])
    → Whole size
    → 2 < fuel
    → (b : Arena) × (allocate_block fuel a size ≡ some (b, z + 80))
      × Holds b (sole_cell z size ∷ [])
      × Within a b
allocate_block-sole fuel a z size s w f =
    let c = fresh_cell z (size + 112) in
    let fits : size ≤ c.size = omega arith in
    let (b, runs, holds, within) =
      allocate-found fuel a (c ∷ []) size s (omega (arith, f)) [] c []
        (record {
          split = refl;
          is_free = refl;
          fits = fits;
          smaller = tt;
          found = first_addr-sole size (c.size) c.addr fits;
        })
        (omega arith)
        (allocate_from_empty-Holds a [] c [] s refl size fits w fuel (omega (arith, f))) in
    (b, runs, subst (Holds b) (sole-taken z size) holds, within)

-- A request of more than 3040 bytes for which `mmap` gives a zone is served: `malloc` returns the
-- payload of the one block of the new zone, which has the aligned size, and that zone, the first of
-- `g_zones`, stands for the block alone.
pub malloc-large :
    (pf : Platform) (fuel : ℕ) (st : State) (z n : ℕ)
    → 3040 < n
    → n ≤ pf.max_alloc_size
    → 2 < fuel
    → z ≢ 0
    → st.g_zones ≢ z
    → z + align_size n + 112 < 2 ^ 64
    → let size = align_size n in
      let new = with_zone st z large (size + 112) in
      (b : Arena) × (malloc pf fuel st (some z) n ≡ some (put_arena new b, z + 112))
      × (n ≤ size)
      × Holds b (sole_cell z size ∷ [])
      × Within (arena new z) b
unfolding malloc allocate_in_zone
malloc-large pf fuel st z n l le f zne other top =
    let (covers, whole) = rounded n (omega (arith, l)) (omega (arith, top)) in
    let size : ℕ = align_size n in
    let mapped : State = record st { mapped = (z, size + 112) ∷ st.mapped } in
    let new : State = with_zone st z large (size + 112) in
    let stands =
      (zone_init-Stands mapped z large (size + 112) zne other (omega (arith, whole))
        (omega (arith, top))).0 in
    let (b, runs, holds, within) = allocate_block-sole fuel (arena new z) z size stands whole f in
    (
      b,
      rw
          (
            ne→== n 0 (omega (arith, l)),
            le→ltb pf.max_alloc_size n le,
            find_zone-own pf fuel st z size (omega (arith, l, covers)) (omega (arith, top)),
            ne→== z 0 zne,
            runs,
            ne→== (z + 80) 0 (omega arith),
          )
          (ap (λ (x : ℕ). some (put_arena new b, x)) (omega (arith, top))),
      covers,
      holds,
      within,
    )

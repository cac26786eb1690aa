-- ===== src/Api/Malloc.antt =====
-- What `malloc` gives where a zone has room.
use ft_malloc.Base.{
  ℕ, suc, ◌+◌, ◌<◌, ◌≤◌, ◌^◌, ◌≡◌, ◌≢◌, ◌⊎◌, inl, inr, refl, ap, subst, false, Option, List, [],
  ◌∷◌, ◌++◌, some, arith, length, ltb, ne→==, le→ltb, if◌then◌else◌,
}
use ft_malloc.Base.Words.{add64}
use ft_malloc.Sizes.{EType, large, same_type, align_size, get_zone_type}
use ft_malloc.Sizes.Align.{align_size_up}
use ft_malloc.Heap.{Arena}
use ft_malloc.Heap.Dll.{Span}
use ft_malloc.Merge.Spans.{max_size}
use ft_malloc.Alloc.{allocate_block}
use ft_malloc.Cells.Window.{Tiles-le, Tiles-Middle}
use ft_malloc.Cells.{Whole, Cell, fin, Tiles, pick, Stands, Holds, Within}
use ft_malloc.Cells.Place.{taken, rest}
use ft_malloc.Cells.FirstFit.{AllBelow, FirstFit, allocate_block-first_fit}
use ft_malloc.Zones.{State, Platform, arena, put_arena, find_zone}
use ft_malloc.Zones.Lookup.{Linked, fitting, zone_loop-fitting, fitting-room}
use ft_malloc.Api.{malloc, allocate_in_zone}

max_size-below : (n best : ℕ) (ss : List Span) → best < n → AllBelow n ss → max_size best ss < n
unfolding max_size
max_size-below n best [] l all = l
max_size-below n best (s ∷ ss) l all =
    max_size-below n (if ltb best s.size then s.size else best) ss (ground arith) all.1

pub not_large :
    (n : ℕ)
    → n ≢ 0
    → n ≤ 3040
    → (align_size n ≤ 3040) × (same_type (get_zone_type (align_size n)) large ≡ false)
unfolding get_zone_type
not_large n ne l =
    let (_, le, least) = align_size_up n (omega arith) in
    let bound : align_size n ≤ 3040 = least 3040 (omega arith) l in
    (bound, ground (arith, le, bound))

pub find_zone-fitting :
    (pf : Platform) (fuel : ℕ) (st : State) (mm : Option ℕ) (type : EType) (size : ℕ)
    (zones : List ℕ)
    → Linked st.zone st.g_zones zones
    → length zones < fuel
    → same_type type large ≡ false
    → fitting st.zone zones type size ≢ 0
    → find_zone pf fuel st mm type size ≡ some (st, fitting st.zone zones type size)
unfolding find_zone
find_zone-fitting pf fuel st mm type size zones l f kind ne =
    rw
      (
        kind,
        zone_loop-fitting fuel st.zone st.g_zones type size zones l f,
        ne→== (fitting st.zone zones type size) 0 ne,
      )
      refl

-- Where a free cell is left in the zone, one of them has as many bytes as the zone says.
allocate_block-found :
    (fuel : ℕ) (a : Arena) (cs : List Cell) (n : ℕ)
    → Holds a cs
    → pick false cs ≢ []
    → Whole n
    → n ≤ a.zone.max_free_space_size
    → suc (length cs) < fuel
    → (front : List Cell) × (c : Cell) × (back : List Cell) × FirstFit n cs front c back
      × ((b : Arena) × (allocate_block fuel a n ≡ some (b, c.addr))
          × Holds b (front ++ taken c n ∷ (rest c n ++ back))
          × Within a b)
allocate_block-found fuel a cs n h left l room f =
    elim (allocate_block-first_fit fuel a cs n h.lists (l.0, inl l.1) f) [
      | inr found ↦ found
      | inl (below, _) ↦ absurd (contradiction below h.max_free_space_size)
    ]
  where
    contradiction :
        AllBelow n (pick false cs)
        → (pick false cs ≡ []) ⊎ (a.zone.max_free_space_size ≡ max_size 0 (pick false cs))
        → ⊥
    contradiction below (inl e) = left e
    contradiction below (inr e) =
        omega (arith, e, room, max_size-below n 0 (pick false cs) (omega arith) below)

pub aligned : (n : ℕ) → n ≢ 0 → n ≤ 3040 → Whole (align_size n)
aligned n ne l =
    let (multiple, le, _) = align_size_up n (omega arith) in omega (arith, multiple, le, ne)

-- A cell of a zone is not at NULL, and its payload's address does not wrap.
pub cell_bounds :
    (a : Arena) (cs front : List Cell) (c : Cell) (back : List Cell)
    → Stands a cs
    → cs ≡ front ++ c ∷ back
    → (0 < c.addr) × (c.addr + 32 < 2 ^ 64)
cell_bounds a cs front c back s e =
    let m =
      Tiles-Middle (a.zone.start + 80) a.zone.end front c back
        (subst (Tiles (a.zone.start + 80) a.zone.end) e s.tiles) in
    omega (
      arith,
      Tiles-le (a.zone.start + 80) c.addr front m.front,
      Tiles-le (fin c) a.zone.end back m.back,
      m.room,
      s.top,
    )

-- A request of at most 3040 bytes is served from the first zone that fits, where there is one, its
-- counters are right and a free cell is left in it: `malloc` returns the payload of the first free
-- cell that is large enough, the zone then stands for the cells with that one divided, and no
-- other zone, and no header outside that zone's bytes, has changed.
pub malloc-served :
    (pf : Platform) (fuel : ℕ) (st : State) (mm : Option ℕ) (n : ℕ) (zones : List ℕ) (z : ℕ)
    (cs : List Cell)
    → n ≢ 0
    → n ≤ 3040
    → n ≤ pf.max_alloc_size
    → Linked st.zone st.g_zones zones
    → length zones < fuel
    → fitting st.zone zones (get_zone_type (align_size n)) (align_size n) ≡ z
    → Holds (arena st z) cs
    → pick false cs ≢ []
    → suc (length cs) < fuel
    → (front : List Cell) × (c : Cell) × (back : List Cell) × FirstFit
        (align_size n)
        cs
        front
        c
        back
      × ((b : Arena) × (malloc pf fuel st mm n ≡ some (put_arena st b, c.addr + 32))
          × Holds b (front ++ taken c (align_size n) ∷ (rest c (align_size n) ++ back))
          × Within (arena st z) b)
unfolding malloc allocate_in_zone
malloc-served pf fuel st mm n zones z cs ne l le linked f at h left f' =
    let (bound, kind) = not_large n ne l in
    let fit : fitting st.zone zones (get_zone_type (align_size n)) (align_size n) ≢ 0 =
      rw at h.lists.self in
    let room : add64 (align_size n) 32 ≤ (st.zone z).max_free_space_size =
      subst (λ x. add64 (align_size n) 32 ≤ (st.zone x).max_free_space_size) at
        (fitting-room st.zone (get_zone_type (align_size n)) (align_size n) zones fit) in
    let (front, c, back, first, done) =
      allocate_block-found fuel (arena st z) cs (align_size n) h left (aligned n ne l)
        (omega (arith, room, bound)) f' in
    let (b, runs, holds, within) = done in
    (
      front,
      c,
      back,
      first,
      (
        b,
        rw
            (
              ne→== n 0 ne,
              le→ltb pf.max_alloc_size n le,
              find_zone-fitting pf fuel st mm (get_zone_type (align_size n)) (align_size n) zones
                  linked f kind fit,
              at,
              ne→== z 0 h.lists.self,
              runs,
              ne→== c.addr 0
                  (omega (arith, (cell_bounds (arena st z) cs front c back h.lists first.split).0)),
            )
            (ap (λ (x : ℕ). some (put_arena st b, x))
              (omega (arith, (cell_bounds (arena st z) cs front c back h.lists first.split).1))),
        holds,
        within,
      ),
    )

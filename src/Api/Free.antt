-- ===== src/Api/Free.antt =====
-- What `free` does with a pointer that the allocator does not know, and with a used block.
use ft_malloc.Base.{
  ℕ, ◌+◌, ◌<◌, ◌≡◌, ◌≢◌, ◌⊎◌, inl, inr, refl, sym, ap, ◌∙◌, true, false, List, ◌∷◌, ◌++◌, some,
  arith, length, ◌==◌, ◌>>=◌, ne→==, Bool-cases, if◌then◌else◌,
}
use ft_malloc.Sizes.{large, same_type}
use ft_malloc.Heap.{Arena, block_from_payload}
use ft_malloc.Cells.{Cell, fin, pick, Tiles, Stands, Holds, Within}
use ft_malloc.Cells.Window.{length-pick, Tiles-Middle, Middle-Tiles, Middle, Tiles-le, pick-around}
use ft_malloc.Cells.Coalesce.{coalesce, coalesce-Coalesced}
use ft_malloc.Cells.Convert.{freed, convert_block_to_empty-coalesce}
use ft_malloc.Zones.{State, arena, put_arena, find_zone_for_ptr, is_valid_block}
use ft_malloc.Zones.Lookup.{
  Linked, holder, ptr_loop-holder, begins, valid_loop-begins, begins-used, begins-null,
}
use ft_malloc.Api.{free, release}

pub find_zone_for_ptr-holder :
    (fuel : ℕ) (st : State) (ptr : ℕ) (zones : List ℕ)
    → Linked st.zone st.g_zones zones
    → length zones < fuel
    → ptr ≢ 0
    → find_zone_for_ptr fuel st ptr ≡ some (holder st.zone zones ptr)
unfolding find_zone_for_ptr
find_zone_for_ptr-holder fuel st ptr zones l f ne =
    rw (ne→== ptr 0 ne) (ptr_loop-holder fuel st.zone st.g_zones ptr zones l f)

pub is_valid_block-begins :
    (fuel : ℕ) (st : State) (b z : ℕ) (cs : List Cell)
    → Stands (arena st z) cs
    → length (pick true cs) < fuel
    → is_valid_block fuel st b z ≡ some (begins b (pick true cs))
unfolding is_valid_block
is_valid_block-begins fuel st b z cs s f = rw (ne→== z 0 s.self) (elim (Bool-cases (b == 0)) [
  | inl null ↦
      let zero_lem : b ≡ 0 = ground (arith, null) in
      rw null (
        ap some
          (sym (rw zero_lem (begins-null st.hdr 0 (st.zone z).blocks (pick true cs) s.blocks))))
  | inr given ↦
      rw given (valid_loop-begins fuel st.hdr 0 (st.zone z).blocks b (pick true cs) s.blocks f)
])

-- `free` of a pointer leaves all memory as it is where the pointer is NULL, where no zone holds it,
-- and where it is not the payload of a used block of the zone that holds it.
pub free-rejected :
    (fuel : ℕ) (st : State) (ptr : ℕ) (zones : List ℕ) (cs : List Cell)
    → Linked st.zone st.g_zones zones
    → length zones < fuel
    → (holder st.zone zones ptr ≡ 0)
      ⊎ (Stands (arena st (holder st.zone zones ptr)) cs
          × (length (pick true cs) < fuel)
          × (begins (block_from_payload ptr) (pick true cs) ≡ false))
    → free fuel st ptr ≡ some st
unfolding free
free-rejected fuel st ptr zones cs l f unknown = elim (Bool-cases (ptr == 0)) [
  | inl null ↦ rw null refl
  | inr given ↦
      rw (given, find_zone_for_ptr-holder fuel st ptr zones l f (ground (arith, given)))
        (rejected unknown)
]
  where
    rejected :
        (holder st.zone zones ptr ≡ 0)
          ⊎ (Stands (arena st (holder st.zone zones ptr)) cs
              × (length (pick true cs) < fuel)
              × (begins (block_from_payload ptr) (pick true cs) ≡ false))
        → (let z = holder st.zone zones ptr in
            if z == 0 then some st else do
              valid ← is_valid_block fuel st (block_from_payload ptr) z
              if valid then release fuel st z (block_from_payload ptr) else some st)
          ≡ some st
    rejected (inl none_holds) = rw none_holds refl
    rejected (inr (s, f', not_used)) =
        rw
          (
            ne→== (holder st.zone zones ptr) 0 s.self,
            is_valid_block-begins fuel st (block_from_payload ptr) (holder st.zone zones ptr) cs s
                f',
            not_used,
          )
          refl

pub payload-addr :
    (st : State) (z : ℕ) (cs : List Cell) (c : Cell) (ds : List Cell)
    → Stands (arena st z) (cs ++ c ∷ ds)
    → block_from_payload (c.addr + 32) ≡ c.addr
payload-addr st z cs c ds s =
    let m = Tiles-Middle ((st.zone z).start + 80) (st.zone z).end cs c ds s.tiles in
    omega (arith, Tiles-le (fin c) (st.zone z).end ds m.back, s.top)

-- `free` of the payload of a used cell, in a zone that is not large, returns. The zone that holds it
-- then stands for the same cells with that one free and free neighbours joined; no other zone, and
-- no header outside that zone's bytes, has changed.
pub free-returned :
    (fuel : ℕ) (st : State) (zones : List ℕ) (z : ℕ) (cs : List Cell) (c : Cell) (ds : List Cell)
    → Linked st.zone st.g_zones zones
    → length zones < fuel
    → holder st.zone zones (c.addr + 32) ≡ z
    → Stands (arena st z) (cs ++ c ∷ ds)
    → c.used ≡ true
    → same_type (st.zone z).type large ≡ false
    → length (cs ++ c ∷ ds) < fuel
    → (b : Arena) × (free fuel st (c.addr + 32) ≡ some (put_arena st b))
      × Holds b (coalesce (cs ++ freed c ∷ ds))
      × Within (arena st z) b
unfolding free release
free-returned fuel st zones z cs c ds l f at s u small f' =
    let (b, runs, holds, within) =
      convert_block_to_empty-coalesce (arena st z) cs c ds s u fuel f' in
    (
      b,
      rw
          (
            ne→== (c.addr + 32) 0 (omega arith),
            find_zone_for_ptr-holder fuel st (c.addr + 32) zones l f (omega arith),
            at,
            ne→== z 0 s.self,
            payload-addr st z cs c ds s,
            is_valid_block-begins fuel st c.addr z (cs ++ c ∷ ds) s
                (omega (arith, length-pick true (cs ++ c ∷ ds))),
            begins-used cs c ds u,
            small,
            runs,
          )
          refl,
      holds,
      within,
    )

-- The used cells after `c` has been freed.
pub used-freed :
    (pos end : ℕ) (cs : List Cell) (c : Cell) (ds : List Cell)
    → Tiles pos end (cs ++ c ∷ ds)
    → pick true (coalesce (cs ++ freed c ∷ ds)) ≡ pick true cs ++ pick true ds
used-freed pos end cs c ds t =
    let m = Tiles-Middle pos end cs c ds t in
    let m' : Middle pos end cs (freed c) ds = record {
      front = m.front;
      room = m.room;
      back = m.back;
    } in
    (coalesce-Coalesced pos end (cs ++ freed c ∷ ds) (Middle-Tiles pos end cs (freed c) ds m')).used
    ∙ pick-around true cs (freed c) ds refl

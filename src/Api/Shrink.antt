-- ===== src/Api/Shrink.antt =====
-- What `realloc` does where the block has room to spare.
use ft_malloc.Base.{
  ℕ, ◌+◌, ◌-◌, ◌<◌, ◌≤◌, ◌≡◌, ◌≢◌, refl, true, Option, List, [], ◌∷◌, ◌++◌, some, arith, length,
  leb, ne→==, le→leb, subst,
}
use ft_malloc.Base.Words.{sub64, size_max}
use ft_malloc.Sizes.{align_size, min_split_size}
use ft_malloc.Sizes.Align.{align_size_up}
use ft_malloc.Heap.{Arena}
use ft_malloc.Heap.Dll.{Dll}
use ft_malloc.Links.Remove.{at_middle}
use ft_malloc.Cells.{Cell, fin, span, pick, Stands, Holds, Within}
use ft_malloc.Cells.Window.{length-pick, Tiles-Middle, Tiles-le, pick-middle}
use ft_malloc.Cells.Coalesce.{coalesce}
use ft_malloc.Cells.Split.{kept, cut_off, split_block-coalesce}
use ft_malloc.Zones.{State, Platform, arena, put_arena}
use ft_malloc.Zones.Lookup.{Linked, holder, begins-used}
use ft_malloc.Api.{realloc, resize}
use ft_malloc.Api.Free.{find_zone_for_ptr-holder, is_valid_block-begins, payload-addr}

-- `realloc` of a used block whose size is at least 48 bytes above the aligned request returns the
-- same pointer. The zone then stands for the cells with that one shortened to the aligned request,
-- a free cell with the rest behind it, and free neighbours joined; `mmap` is not asked, whatever
-- it would give.
pub realloc-shrunk :
    (pf : Platform) (fuel : ℕ) (st : State) (mm : Option ℕ) (zones : List ℕ) (z : ℕ)
    (cs : List Cell) (c : Cell) (ds : List Cell) (n : ℕ)
    → Linked st.zone st.g_zones zones
    → length zones < fuel
    → holder st.zone zones (c.addr + 32) ≡ z
    → Stands (arena st z) (cs ++ c ∷ ds)
    → c.used ≡ true
    → n ≢ 0
    → n ≤ size_max - 16
    → align_size n + 48 ≤ c.size
    → length (cs ++ c ∷ ds) < fuel
    → (b : Arena) × (realloc pf fuel st mm (c.addr + 32) n ≡ some (put_arena st b, c.addr + 32))
      × Holds b (coalesce ((cs ++ kept c (align_size n) ∷ []) ++ cut_off c (align_size n) ∷ ds))
      × Within (arena st z) b
unfolding realloc resize
realloc-shrunk pf fuel st mm zones z cs c ds n l f at s u ne le room f' =
    let (multiple, covers, _) = align_size_up n le in
    let (b, runs, holds, within) =
      split_block-coalesce (arena st z) cs c ds (align_size n) s u
        (omega (arith, multiple, covers, ne)) room fuel f' in
    (
      b,
      rw
          (
            ne→== (c.addr + 32) 0 (omega arith),
            ne→== n 0 ne,
            find_zone_for_ptr-holder fuel st (c.addr + 32) zones l f (omega arith),
            at,
            ne→== z 0 s.self,
            payload-addr st z cs c ds s,
            is_valid_block-begins fuel st c.addr z (cs ++ c ∷ ds) s
                (omega (arith, length-pick true (cs ++ c ∷ ds))),
            begins-used cs c ds u,
            size_lem,
            smaller,
            spare,
            runs,
          )
          refl,
      holds,
      within,
    )
  where
    size_lem : (st.hdr c.addr).data_size ≡ c.size
    size_lem =
        (at_middle st.hdr 0 (st.zone z).blocks (pick true cs) (span c) (pick true ds) (
          subst (Dll st.hdr 0 (st.zone z).blocks) (pick-middle true cs c ds u)
            s.blocks)).0.data_size

    smaller : leb (align_size n) c.size ≡ true
    smaller = le→leb (align_size n) c.size (omega (arith, room))

    spare : leb min_split_size (sub64 c.size (align_size n)) ≡ true
    spare =
        let m = Tiles-Middle ((st.zone z).start + 80) (st.zone z).end cs c ds s.tiles in
        le→leb min_split_size (sub64 c.size (align_size n))
          (omega (arith, room, s.top, Tiles-le (fin c) (st.zone z).end ds m.back))

-- ===== src/Process/Free.antt =====
-- `free` over the blocks in use of the whole process.
use ft_malloc.Base.{
  All-map, ℕ, ◌+◌, ◌-◌, ◌<◌, ◌≤◌, ◌≡◌, ◌≢◌, ◌⊎◌, inl, inr, refl, sym, ap, ◌∙◌, subst, true, false,
  List, [], ◌∷◌, ◌++◌, All, arith, length, some, Bool-cases, ne→==, length-append, append-nil,
}
use ft_malloc.Sizes.{large, same_type}
use ft_malloc.Heap.{block_from_payload}
use ft_malloc.Heap.Dll.{Span}
use ft_malloc.Cells.{Cell, pick, span, Stands}
use ft_malloc.Cells.Window.{pick-middle, length-pick}
use ft_malloc.Cells.Coalesce.{coalesce, length-coalesce}
use ft_malloc.Cells.Convert.{freed}
use ft_malloc.Zones.{State, arena, put_arena, free_large_zone}
use ft_malloc.Zones.Lookup.{Linked, holder, begins, begins-used}
use ft_malloc.Api.{free, release}
use ft_malloc.Api.Free.{
  free-rejected, free-returned, used-freed, find_zone_for_ptr-holder, is_valid_block-begins,
  payload-addr,
}
use ft_malloc.Process.{Region, InPlace, Sound, Inv, used_blocks, weight}
use ft_malloc.Process.Lists.{All-around, All-without, Regions-around}
use ft_malloc.Process.Update.{update-Inv}
use ft_malloc.Process.Unmap.{unmap-Inv}
use ft_malloc.Process.Find.{
  addrs, Found, holder-Found, Layout-Linked, begins-UsedAt, UsedAt, weight-around, length-le-weight,
}
use ft_malloc.Process.Live.{
  LiveAt, find_live, used_blocks-append, used_blocks-middle, cell_range, holder-inside,
}

-- The fuel that a call needs: more than the zones and cells, with those that it may add.
abbrev pub Enough : ℕ → List Region → Type 0
Enough fuel rs = weight rs + 3 < fuel

nil : (ss : List Span) → length ss ≡ 0 → ss ≡ []
nil [] e = refl
nil (s ∷ ss) e = absurd (omega arith)

free_large-bytes : (st : State) (z : ℕ) → (free_large_zone st z).bytes ≡ st.bytes
unfolding free_large_zone
free_large-bytes st z = ground arith

module _ (fuel : ℕ) (st : State) (front : List Region) (r : Region) (back : List Region)
    (i : Inv st (front ++ r ∷ back)) (f : Enough fuel (front ++ r ∷ back)) where
  pub place : InPlace st r
  place = (All-around (InPlace st) front r back i.layout.each).1

  pub fuel_bounds : (length (addrs (front ++ r ∷ back)) < fuel) × (length r.cells + 1 < fuel)
  fuel_bounds = omega (arith, length-le-weight (front ++ r ∷ back), weight-around front r back)

  module _ (cs : List Cell) (c : Cell) (ds : List Cell) (e : r.cells ≡ cs ++ c ∷ ds)
      (u : c.used ≡ true) where
    pub stands : Stands (arena st r.addr) (cs ++ c ∷ ds)
    stands = subst (Stands (arena st r.addr)) e place.stands

    pub held : holder st.zone (addrs (front ++ r ∷ back)) (c.addr + 32) ≡ r.addr
    held =
        holder-inside st front r back (c.addr + 32) i.layout.each
          (Regions-around front r back i.layout.apart).0
          (omega (arith, cell_range st r cs c ds place e))
          (omega (arith, cell_range st r cs c ds place e))

    abbrev rs : List Region
    rs = front ++ r ∷ back

    -- `free` of the cell's payload returns, and the blocks in use are as before without the cell.
    abbrev pub Freed : Type 0
    Freed =
        (new : State) × (rs' : List Region) × (free fuel st (c.addr + 32) ≡ some new)
        × Inv new rs'
        × (used_blocks rs'
            ≡ (used_blocks front ++ pick true cs) ++ (pick true ds ++ used_blocks back))
        × (weight rs' ≤ weight rs)
        × (new.bytes ≡ st.bytes)

    freed_small : same_type (st.zone r.addr).type large ≡ false → Freed
    freed_small small =
        let (b, runs, holds, within) =
          free-returned fuel st (addrs rs) r.addr cs c ds
            (Layout-Linked st 0 st.g_zones rs i.layout.linked i.layout.each) fuel_bounds.0 held
            stands u small (omega (arith, ap length e, fuel_bounds.1)) in
        let new : List Cell = coalesce (cs ++ freed c ∷ ds) in
        let r' : Region = record r { cells = new } in
        let used : pick true new ≡ pick true cs ++ pick true ds =
          used-freed ((st.zone r.addr).start + 80) (st.zone r.addr).end cs c ds stands.tiles in
        (
          put_arena st b,
          front ++ r' ∷ back,
          runs,
          update-Inv st front r back b new i.layout (All-without (Sound st) front r back i.sound)
              within holds (inl small),
          used_blocks-middle front r' back (pick true cs) [] (pick true ds) used,
          omega (
            arith,
            weight-around front r back,
            weight-around front r' back,
            length-coalesce (cs ++ freed c ∷ ds),
            length-append cs (freed c ∷ ds),
            ap length e,
            length-append cs (c ∷ ds),
          ),
          within.bytes,
        )

    release_large :
        same_type (st.zone r.addr).type large ≡ true
        → free fuel st (c.addr + 32) ≡ some (free_large_zone st r.addr)
    unfolding free release
    release_large big =
        rw
          (
            ne→== (c.addr + 32) 0 (omega arith),
            find_zone_for_ptr-holder fuel st (c.addr + 32) (addrs rs)
                (Layout-Linked st 0 st.g_zones rs i.layout.linked i.layout.each) fuel_bounds.0
                (omega arith),
            held,
            ne→== r.addr 0 place.stands.self,
            payload-addr st r.addr cs c ds stands,
            is_valid_block-begins fuel st c.addr r.addr (cs ++ c ∷ ds) stands
                (omega (arith, length-pick true (cs ++ c ∷ ds), ap length e, fuel_bounds.1)),
            begins-used cs c ds u,
            big,
          )
          refl

    -- A large zone has no other used cell.
    no_others :
        same_type (st.zone r.addr).type large ≡ true → (pick true cs ≡ []) × (pick true ds ≡ [])
    no_others big =
        let one : length (pick true r.cells) ≡ 1 =
          elim (All-around (Sound st) front r back i.sound).1.0 [
            | inl small ↦ absurd (cc)
            | inr one ↦ one
          ] in
        let total = ap length (ap (pick true) e ∙ pick-middle true cs c ds u) in
        (
          nil (pick true cs)
              (omega (arith, one, total, length-append (pick true cs) (span c ∷ pick true ds))),
          nil (pick true ds)
              (omega (arith, one, total, length-append (pick true cs) (span c ∷ pick true ds))),
        )

    freed_large : same_type (st.zone r.addr).type large ≡ true → Freed
    freed_large big = (
      free_large_zone st r.addr,
      front ++ back,
      release_large big,
      unmap-Inv st front r back i.layout i.sound,
      rw ((no_others big).0, (no_others big).1, append-nil (used_blocks front))
          (used_blocks-append front back),
      omega (arith, weight-around front r back),
      free_large-bytes st r.addr,
    )

    pub freed_lem : Freed
    freed_lem = elim (Bool-cases (same_type (st.zone r.addr).type large)) [
      | inl big ↦ freed_large big
      | inr small ↦ freed_small small
    ]

-- Either no block in use has `ptr` for its payload, and `free` changes nothing; or one has, and
-- `free` returns a process with the same blocks in use but that one.
abbrev pub FreeSpec : ℕ → State → List Region → ℕ → Type 0
FreeSpec fuel st rs ptr =
    All (λ s. s.addr + 32 ≢ ptr) (used_blocks rs) × (free fuel st ptr ≡ some st)
    ⊎ ((xs : List Span) × (s : Span) × (ys : List Span) × (used_blocks rs ≡ xs ++ s ∷ ys)
        × (s.addr + 32 ≡ ptr)
        × ((new : State) × (rs' : List Region) × (free fuel st ptr ≡ some new)
            × Inv new rs'
            × (used_blocks rs' ≡ xs ++ ys)
            × (weight rs' ≤ weight rs)
            × (new.bytes ≡ st.bytes)))

module _ (fuel : ℕ) (st : State) where
  not_begun :
      (ptr : ℕ) (front : List Region) (r : Region) (back : List Region)
      → InPlace st r
      → All (λ s. s.addr + 32 ≢ ptr) (used_blocks (front ++ r ∷ back))
      → r.addr ≤ ptr
      → ptr < r.limit
      → begins (block_from_payload ptr) (pick true r.cells) ≡ false
  not_begun ptr front r back p others lo hi =
      elim (Bool-cases (begins (block_from_payload ptr) (pick true r.cells))) [
        | inr e ↦ e
        | inl e ↦ absurd (begun (begins-UsedAt r.cells (block_from_payload ptr) e))
      ]
    where
      begun : UsedAt r.cells (block_from_payload ptr) → ⊥
      begun v =
          let c = v.cell in
          let apart =
            All-around (λ s. s.addr + 32 ≢ ptr) (used_blocks front ++ pick true v.front) (span c)
              (pick true v.back ++ used_blocks back)
              (subst (All (λ s. s.addr + 32 ≢ ptr))
                (used_blocks-middle front r back (pick true v.front) (span c ∷ [])
                  (pick true v.back)
                  (ap (pick true) v.split ∙ pick-middle true v.front c v.back v.used))
                others) in
          apart.1 (omega (arith, v.here, lo, hi, cell_range st r v.front c v.back p v.split))

  pub linked : (rs : List Region) → Inv st rs → Linked st.zone st.g_zones (addrs rs)
  linked rs i = Layout-Linked st 0 st.g_zones rs i.layout.linked i.layout.each

  -- No zone holds `ptr`, or its header is none in the zone that does.
  pub unknown_lem :
      (ptr : ℕ) (rs : List Region)
      → Inv st rs
      → Enough fuel rs
      → All (λ s. s.addr + 32 ≢ ptr) (used_blocks rs)
      → (cs : List Cell) × ((holder st.zone (addrs rs) ptr ≡ 0)
          ⊎ (Stands (arena st (holder st.zone (addrs rs) ptr)) cs
              × (length (pick true cs) < fuel)
              × (begins (block_from_payload ptr) (pick true cs) ≡ false)))
  unknown_lem ptr rs i f others = elim (holder-Found st.zone rs ptr) [
    | inl none_holds ↦ ([], inl none_holds)
    | inr (found, lo, hi) ↦ (found.region.cells, inr (inside found lo hi))
  ]
    where
      inside :
          (found : Found rs (holder st.zone (addrs rs) ptr))
          → (st.zone (holder st.zone (addrs rs) ptr)).start ≤ ptr
          → ptr < (st.zone (holder st.zone (addrs rs) ptr)).end
          → Stands (arena st (holder st.zone (addrs rs) ptr)) found.region.cells
            × (length (pick true found.region.cells) < fuel)
            × (begins (block_from_payload ptr) (pick true found.region.cells) ≡ false)
      inside found lo hi =
          let front = found.front in
          let r = found.region in
          let back = found.back in
          let e = found.split in
          let p = place fuel st front r back (subst (Inv st) e i) (subst (Enough fuel) e f) in
          (
            rw found.here p.stands,
            omega (
              arith,
              length-pick true r.cells,
              fuel_bounds fuel st front r back (subst (Inv st) e i) (subst (Enough fuel) e f),
            ),
            not_begun ptr front r back p
                (subst (λ ss. All (λ s. s.addr + 32 ≢ ptr) (used_blocks ss)) e others)
                (omega (arith, p.start, ap (λ x. (st.zone x).start) found.here))
                (omega (arith, p.end, ap (λ x. (st.zone x).end) found.here)),
          )

  rejected :
      (ptr : ℕ) (rs : List Region)
      → Inv st rs
      → Enough fuel rs
      → All (λ s. s.addr + 32 ≢ ptr) (used_blocks rs)
      → free fuel st ptr ≡ some st
  rejected ptr rs i f others =
      let (cs, unknown) = unknown_lem ptr rs i f others in
      free-rejected fuel st ptr (addrs rs) cs (linked rs i) (omega (arith, length-le-weight rs))
        unknown

  live :
      (ptr : ℕ) (rs : List Region)
      → Inv st rs
      → Enough fuel rs
      → LiveAt rs (ptr - 32)
      → FreeSpec fuel st rs ptr
  live ptr rs i f l =
      let front = l.front in
      let r = l.region in
      let back = l.back in
      let c = l.cell.cell in
      let e = l.split in
      let i' = subst (Inv st) e i in
      let f' = subst (Enough fuel) e f in
      let at : c.addr + 32 ≡ ptr = omega (
        arith,
        l.cell.here,
        cell_range st r l.cell.front c l.cell.back (place fuel st front r back i' f') l.cell.split,
      ) in
      let done =
        freed_lem fuel st front r back i' f' l.cell.front c l.cell.back l.cell.split l.cell.used in
      subst (λ ss. FreeSpec fuel st ss ptr) (sym e)
        (inr (
          used_blocks front ++ pick true l.cell.front,
          span c,
          pick true l.cell.back ++ used_blocks back,
          used_blocks-middle front r back (pick true l.cell.front) (span c ∷ [])
              (pick true l.cell.back)
              (ap (pick true) l.cell.split
                ∙ pick-middle true l.cell.front c l.cell.back l.cell.used),
          at,
          subst
              (λ (p : ℕ).
                (new : State) × (rs' : List Region) × (free fuel st p ≡ some new)
                × Inv new rs'
                × (used_blocks rs'
                    ≡ (used_blocks front ++ pick true l.cell.front)
                      ++ (pick true l.cell.back ++ used_blocks back))
                × (weight rs' ≤ weight (front ++ r ∷ back))
                × (new.bytes ≡ st.bytes))
              at done,
        ))

  -- In a process with the invariant, with enough fuel, `free` returns for every pointer and keeps the
  -- invariant: a pointer that is no payload of a block in use changes nothing, and with one that is
  -- the same blocks are in use but that one.
  pub free_refines :
      (ptr : ℕ) (rs : List Region) → Inv st rs → Enough fuel rs → FreeSpec fuel st rs ptr
  free_refines ptr rs i f = elim (find_live (ptr - 32) rs) [
    | inl others ↦
        let apart = All-map _ _ (used_blocks rs) (λ s ne e. ne (omega (arith, e))) others in
        inl (apart, rejected ptr rs i f apart)
    | inr l ↦ live ptr rs i f l
  ]

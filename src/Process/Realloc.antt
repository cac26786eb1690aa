-- ===== src/Process/Realloc.antt =====
-- `realloc` of src/realloc.c over the blocks in use of the whole process.
use ft_malloc.Base.{
  All-map, ℕ, ◌+◌, ◌-◌, ◌<◌, ◌≤◌, ◌≡◌, ◌≢◌, ◌⊎◌, inl, inr, refl, sym, ap, ◌∙◌, subst, true, Option,
  some, List, [], ◌∷◌, ◌++◌, All, arith, length, ne→==,
}
use ft_malloc.Sizes.{align_size}
use ft_malloc.Sizes.Align.{align_size-twice}
use ft_malloc.Heap.{block_from_payload}
use ft_malloc.Heap.Dll.{Span}
use ft_malloc.Cells.{Cell, pick, span}
use ft_malloc.Cells.Window.{pick-middle, length-pick}
use ft_malloc.Zones.{LargePages, State, Platform}
use ft_malloc.Zones.Lookup.{holder, begins-used}
use ft_malloc.Api.{realloc}
use ft_malloc.Api.Free.{find_zone_for_ptr-holder, is_valid_block-begins, payload-addr}
use ft_malloc.Process.{Region, InPlace, Inv, used_blocks, weight}
use ft_malloc.Process.Lists.{All-around}
use ft_malloc.Process.Find.{addrs, length-le-weight}
use ft_malloc.Process.Live.{find_live, used_blocks-middle, cell_range}
use ft_malloc.Process.Free.{linked, unknown_lem, stands, held, fuel_bounds}
use ft_malloc.Process.FindZone.{FromMmap, mmap_bytes}
use ft_malloc.Process.Malloc.{align_size_bounds}
use ft_malloc.Process.Contents.{Reallocated}
use ft_malloc.Process.Resize.{resize_lem}

Reallocated-weaken :
    (st : State) (rs : List Region) (xs : List Span) (s : Span) (ys : List Span) (n m : ℕ)
    (new : State) (p : ℕ)
    → m ≤ n
    → Reallocated st rs xs s ys n new p
    → Reallocated st rs xs s ys m new p
Reallocated-weaken st rs xs s ys n m new p l a = record {
  after = a.after;
  inv = a.inv;
  weight_le = a.weight_le;
  outcome = elim a.outcome [
    | inl e ↦ inl e
    | inr (t, at, size, copied, room, instead) ↦
        inr (t, at, omega (arith, l, size), copied, room, instead)
  ];
}

-- Either no block in use has `ptr` for its payload, and `realloc` gives NULL and changes nothing; or
-- one has, and `realloc` returns: NULL, with nothing changed, or the payload of a block of `n` bytes
-- at least that is there instead, with the bytes of the old one.
abbrev pub ReallocSpec : Platform → ℕ → State → Option ℕ → List Region → (ptr n : ℕ) → Type 0
ReallocSpec pf fuel st mm rs ptr n =
    All (λ s. s.addr + 32 ≢ ptr) (used_blocks rs) × (realloc pf fuel st mm ptr n ≡ some (st, 0))
    ⊎ ((xs : List Span) × (s : Span) × (ys : List Span) × (used_blocks rs ≡ xs ++ s ∷ ys)
        × (s.addr + 32 ≡ ptr)
        × ((new : State) × (p : ℕ) × (realloc pf fuel st mm ptr n ≡ some (new, p))
            × Reallocated st rs xs s ys n new p))

module _ (pf : Platform) (fuel : ℕ) (st : State) (mm : Option ℕ) (rs : List Region) (i : Inv st rs)
    (f : weight rs + 6 < fuel) (page : LargePages pf) (ptr n : ℕ) (given : ptr ≢ 0)
    (some_bytes : n ≢ 0) where
  rejected :
      All (λ s. s.addr + 32 ≢ ptr) (used_blocks rs) → realloc pf fuel st mm ptr n ≡ some (st, 0)
  unfolding realloc
  rejected others =
      let (cs, unknown) = unknown_lem fuel st ptr rs i (omega (arith, f)) others in
      rw
        (
          ne→== ptr 0 given,
          ne→== n 0 some_bytes,
          find_zone_for_ptr-holder fuel st ptr (addrs rs) (linked fuel st rs i)
              (omega (arith, f, length-le-weight rs)) given,
        )
        (elim unknown [
          | inl none_holds ↦ rw none_holds refl
          | inr (s, f', not_used) ↦
              rw
                (
                  ne→== (holder st.zone (addrs rs) ptr) 0 s.self,
                  is_valid_block-begins fuel st (block_from_payload ptr)
                      (holder st.zone (addrs rs) ptr) cs s f',
                  not_used,
                )
                refl
        ])

module _ (pf : Platform) (fuel : ℕ) (st : State) (mm : Option ℕ) (page : LargePages pf) (ptr n : ℕ)
    (given : ptr ≢ 0) (some_bytes : n ≢ 0) where
  live :
      (front : List Region) (r : Region) (back : List Region)
      → Inv st (front ++ r ∷ back)
      → weight (front ++ r ∷ back) + 6 < fuel
      → (cs : List Cell) (c : Cell) (ds : List Cell) → r.cells ≡ cs ++ c ∷ ds
      → c.used ≡ true
      → c.addr ≡ ptr - 32
      → FromMmap (front ++ r ∷ back) (mmap_bytes pf (align_size n)) mm
      → ReallocSpec pf fuel st mm (front ++ r ∷ back) ptr n
  unfolding realloc
  live front r back i f cs c ds e u here m =
      let rs : List Region = front ++ r ∷ back in
      let f' : weight rs + 3 < fuel = omega (arith, f) in
      let place = (All-around (InPlace st) front r back i.layout.each).1 in
      let at : c.addr + 32 ≡ ptr = omega (arith, here, cell_range st r cs c ds place e) in
      let s = stands fuel st front r back i f' cs c ds e u in
      let (le, low) = align_size_bounds n some_bytes in
      let (new, p, runs, done) =
        resize_lem pf fuel st mm front r back i f page cs c ds e u (align_size n) low
          (align_size-twice n) m in
      inr (
        used_blocks front ++ pick true cs,
        span c,
        pick true ds ++ used_blocks back,
        used_blocks-middle front r back (pick true cs) (span c ∷ []) (pick true ds)
            (ap (pick true) e ∙ pick-middle true cs c ds u),
        at,
        (
          new,
          p,
          rw (sym at) (
              rw
                (
                  ne→== (c.addr + 32) 0 (omega arith),
                  ne→== n 0 some_bytes,
                  find_zone_for_ptr-holder fuel st (c.addr + 32) (addrs rs) (linked fuel st rs i)
                      (fuel_bounds fuel st front r back i f').0 (omega arith),
                  held fuel st front r back i f' cs c ds e u,
                  ne→== r.addr 0 place.stands.self,
                  payload-addr st r.addr cs c ds s,
                  is_valid_block-begins fuel st c.addr r.addr (cs ++ c ∷ ds) s (
                      omega (
                        arith,
                        length-pick true (cs ++ c ∷ ds),
                        ap length e,
                        fuel_bounds fuel st front r back i f',
                      )),
                  begins-used cs c ds u,
                )
                runs),
          Reallocated-weaken st rs (used_blocks front ++ pick true cs) (span c)
              (pick true ds ++ used_blocks back) (align_size n) n new p le done,
        ),
      )

  -- In a process with the invariant, with enough fuel, large pages and an `mmap` that
  -- fails or gives a region apart from the others, `realloc` of a pointer that is not NULL, to a size
  -- that is not 0, returns and keeps the invariant: it rejects a pointer that is no payload of a block in use; else it gives NULL and the
  -- same blocks are in use, or a block of the size at least that is in use instead of the old one,
  -- with its bytes, and no byte outside that block is written.
  pub realloc_refines :
      (rs : List Region)
      → Inv st rs
      → weight rs + 6 < fuel
      → FromMmap rs (mmap_bytes pf (align_size n)) mm
      → ReallocSpec pf fuel st mm rs ptr n
  realloc_refines rs i f m = elim (find_live (ptr - 32) rs) [
    | inl others ↦
        let apart = All-map _ _ (used_blocks rs) (λ s ne e. ne (omega (arith, e))) others in
        inl (apart, rejected pf fuel st mm rs i f page ptr n given some_bytes apart)
    | inr l ↦
        let e = l.split in
        subst (λ ss. ReallocSpec pf fuel st mm ss ptr n) (sym e)
          (live l.front l.region l.back (subst (Inv st) e i)
            (subst (λ ss. weight ss + 6 < fuel) e f) l.cell.front l.cell.cell l.cell.back
            l.cell.split l.cell.used l.cell.here
            (subst (λ ss. FromMmap ss (mmap_bytes pf (align_size n)) mm) e m))
  ]

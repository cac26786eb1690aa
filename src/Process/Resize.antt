-- ===== src/Process/Resize.antt =====
-- `resize` of src/realloc.c over the blocks in use of the whole process: in place, or moved.
use ft_malloc.Base.{
  map, ℕ, ◌+◌, ◌-◌, ◌^◌, ◌<◌, ◌≤◌, ◌≡◌, ◌≢◌, ◌⊎◌, inl, inr, refl, sym, ap, ◌∙◌, subst, true, Option,
  some, List, [], ◌∷◌, ◌++◌, All, arith, length, leb, Bool-cases, ne→==, leb→le, length-append,
}
use ft_malloc.Base.Words.{sub64}
use ft_malloc.Sizes.{same_type, min_split_size, align_size, get_zone_type}
use ft_malloc.Heap.{Arena}
use ft_malloc.Heap.Dll.{Span}
use ft_malloc.Libft.Memory.{Bytes, ft_memmove}
use ft_malloc.Blocks.{split_block}
use ft_malloc.Cells.{Whole, Asked, Asked-Whole, Cell, fin, pick, span, Stands}
use ft_malloc.Cells.Window.{pick-middle}
use ft_malloc.Cells.Trim.{Resized}
use ft_malloc.Cells.Trim.{split_lem}
use ft_malloc.Libft.Memory.Overlap.{Copied, ft_memmove-Copied}
use ft_malloc.Cells.TryExtend.{cell-header, try_to_extend_block_lem}
use ft_malloc.Zones.Lookup.{same-arena}
use ft_malloc.Zones.{LargePages, State, Platform, arena, put_arena}
use ft_malloc.Api.{malloc, free, realloc_malloc, realloc_free, move_block, resize}
use ft_malloc.Process.{Separate, Region, InPlace, Sound, Inv, used_blocks, weight}
use ft_malloc.Process.Lists.{All-around, All-without}
use ft_malloc.Process.Update.{update-Inv}
use ft_malloc.Process.Find.{weight-around}
use ft_malloc.Process.Live.{used_blocks-middle, cell_range}
use ft_malloc.Process.Free.{Enough, free_refines, stands, fuel_bounds}
use ft_malloc.Process.FindZone.{FromMmap, mmap_bytes}
use ft_malloc.Process.Malloc.{malloc_refines}
use ft_malloc.Process.BlockBytes.{block_bytes, used_blocks-Separate, Separate-others}
use ft_malloc.Process.Contents.{bytes-Inv, Reallocated, here, elsewhere}

realloc_malloc-malloc :
    (pf : Platform) (fuel : ℕ) (st : State) (mm : Option ℕ) (n : ℕ)
    → realloc_malloc pf fuel st mm n ≡ malloc pf fuel st mm n
unfolding realloc_malloc malloc
realloc_malloc-malloc pf fuel st mm n = refl

realloc_free-free : (fuel : ℕ) (st : State) (p : ℕ) → realloc_free fuel st p ≡ free fuel st p
unfolding realloc_free free
realloc_free-free fuel st p = refl

module _ (pf : Platform) (fuel : ℕ) (st : State) (mm : Option ℕ) (front : List Region) (r : Region)
    (back : List Region) (i : Inv st (front ++ r ∷ back))
    (f : weight (front ++ r ∷ back) + 6 < fuel) (page : LargePages pf) (cs : List Cell) (c : Cell)
    (ds : List Cell) (e : r.cells ≡ cs ++ c ∷ ds) (u : c.used ≡ true) (n : ℕ) (low : Asked n)
    (aligned : align_size n ≡ n) where
  abbrev rs : List Region
  rs = front ++ r ∷ back

  abbrev xs : List Span
  xs = used_blocks front ++ pick true cs

  abbrev ys : List Span
  ys = pick true ds ++ used_blocks back

  abbrev Done : Option (State × ℕ) → Type 0
  Done run =
      (new : State) × (p : ℕ) × (run ≡ some (new, p)) × Reallocated st rs xs (span c) ys n new p

  enough : Enough fuel rs
  enough = omega (arith, f)

  held : Stands (arena st r.addr) (cs ++ c ∷ ds)
  held = stands fuel st front r back i enough cs c ds e u

  range : (r.addr + 80 ≤ c.addr) × Whole c.size × (fin c ≤ r.limit) × (r.limit < 2 ^ 64)
  range = cell_range st r cs c ds (All-around (InPlace st) front r back i.layout.each).1 e

  used : used_blocks rs ≡ xs ++ span c ∷ ys
  used =
      used_blocks-middle front r back (pick true cs) (span c ∷ []) (pick true ds)
        (ap (pick true) e ∙ pick-middle true cs c ds u)

  -- The process once the zone of the block has run a change of it.
  in_place :
      (m : Bytes) (b : Arena) (addr : ℕ)
      → Copied st.bytes m (c.addr + 32) (addr + 32) c.size
      → (addr ≡ c.addr) ⊎ (c.size ≤ n)
      → Resized
          (record (arena st r.addr) { bytes = m })
          b
          (pick true cs)
          (pick true ds)
          addr
          n
          (length cs + length ds + 2)
      → Reallocated st rs xs (span c) ys n (put_arena st b) (addr + 32)
  in_place m b addr copied room z =
      let st' : State = record st { bytes = m } in
      let i' = bytes-Inv st m rs i in
      let r' : Region = record r { cells = z.cells } in
      record {
        after = front ++ r' ∷ back;
        inv =
            update-Inv st' front r back b z.cells i'.layout
              (All-without (Sound st') front r back i'.sound) z.within z.holds
              (elim (All-around (Sound st) front r back i.sound).1.0 [
                | inl small ↦ inl small
                | inr one ↦ inr (
                    omega (
                      arith,
                      one,
                      ap length z.used,
                      ap length (ap (pick true) e ∙ pick-middle true cs c ds u),
                      length-append (pick true cs) (z.block ∷ pick true ds),
                      length-append (pick true cs) (span c ∷ pick true ds),
                    ))
              ]);
        weight_le = omega (
          arith,
          weight-around front r back,
          weight-around front r' back,
          z.count_le,
          ap length e,
          length-append cs (c ∷ ds),
        );
        outcome = inr (
          z.block,
          omega (arith, z.here),
          z.size,
          rw z.within.bytes copied,
          elim room [
            | inl same ↦ inl (omega (arith, same))
            | inr le ↦ inr (omega (arith, le, z.size))
          ],
          here (
              used_blocks-middle front r' back (pick true cs) (z.block ∷ []) (pick true ds) z.used),
        );
      }

  size_lem : (st.hdr c.addr).data_size ≡ c.size
  size_lem = (cell-header (arena st r.addr) cs c ds held u).0

  -- The block as it is.
  unchanged : n ≤ c.size → Reallocated st rs xs (span c) ys n st (c.addr + 32)
  unchanged fits = record {
    after = rs;
    inv = i;
    weight_le = omega arith;
    outcome = inr (
      span c,
      refl,
      fits,
      record { kept = λ k l. refl; others = λ x o. refl },
      inl refl,
      here used,
    );
  }

  -- What is left over of the block is given back.
  shrunk :
      n + 48 ≤ c.size
      → (b : Arena) × (split_block fuel (arena st r.addr) c.addr n ≡ some b)
        × Reallocated st rs xs (span c) ys n (put_arena st b) (c.addr + 32)
  shrunk big =
      let (b, runs, done) =
        split_lem fuel (arena st r.addr) cs c ds n held u
          (Asked-Whole n c.size low (omega (arith, big)) (omega (arith, range)))
          (omega (arith, big))
          (omega (arith, ap length e, fuel_bounds fuel st front r back i enough)) big in
      (
        b,
        runs,
        in_place st.bytes b c.addr (record { kept = λ k l. refl; others = λ x o. refl }) (inl refl)
            done,
      )

  -- A new block, a copy, and the old one given back.
  moved :
      FromMmap rs (mmap_bytes pf n) mm
      → c.size ≤ n
      → Done (move_block pf fuel st mm (c.addr + 32) c.size n)
  unfolding move_block
  moved from_mmap le =
      let ptr = c.addr + 32 in
      let (new, p, runs, a) =
        malloc_refines pf fuel st mm rs i enough page n
          (subst (λ k. FromMmap rs (mmap_bytes pf k) mm) (sym aligned) from_mmap) in
      elim a.answer [
        | inl (null, same) ↦ (
          new,
          0,
          rw (realloc_malloc-malloc pf fuel st mm n, runs, null) refl,
          record {
            after = a.after;
            inv = a.inv;
            weight_le = a.weight_le;
            outcome = inl (refl, same, a.bytes);
          },
        )
        | inr (us, t, vs, before, after, at, size) ↦
            let st' : State = record new { bytes = ft_memmove new.bytes p ptr c.size } in
            elim (free_refines fuel st' ptr a.after (bytes-Inv new st'.bytes a.after a.inv)
              (omega (arith, f, a.weight_le))) [
                | inl (others, kept) ↦ absurd (still_used us t vs before (rw (sym after) others))
                | inr (us', s', vs', split, at', (last, rs', freed, inv, rest, weight_le, bytes)) ↦
                    (
                      last,
                      p,
                      rw
                          (
                            realloc_malloc-malloc pf fuel st mm n,
                            runs,
                            ne→== p 0 (omega (arith, at)),
                            realloc_free-free fuel st' ptr,
                            freed,
                          )
                          refl,
                      record {
                        after = rs';
                        inv = inv;
                        weight_le = omega (arith, weight_le, a.weight_le);
                        outcome = inr (
                          t,
                          at,
                          size,
                          rw (bytes, a.bytes)
                              (ft_memmove-Copied st.bytes ptr p c.size (omega (arith, at))
                                (omega arith)),
                          inr (omega (arith, le, size)),
                          elsewhere us vs vs' s' us' (sym before ∙ used) (sym after ∙ split)
                              (omega (arith, at')) (other us t vs a.after (a.inv) before after)
                              rest,
                        );
                      },
                    )
              ]
      ]
    where
      other :
          {new : State} (us : List Span) (t : Span) (vs : List Span) (last : List Region)
          → Inv new last
          → used_blocks rs ≡ us ++ vs
          → used_blocks last ≡ us ++ t ∷ vs
          → t.addr ≢ c.addr
      other us t vs last inv before after e =
          (All-around (λ (s : Span). s.addr ≢ t.addr) xs (span c) ys
              (subst (All (λ (s : Span). s.addr ≢ t.addr)) (sym before ∙ used) (
                Separate-others us t vs (
                  subst (λ l. Separate (map block_bytes l)) after
                    (used_blocks-Separate _ last inv.layout.apart inv.layout.each))))).1
            (sym e)

      still_used :
          (us : List Span) (t : Span) (vs : List Span)
          → used_blocks rs ≡ us ++ vs
          → All (λ (s : Span). s.addr + 32 ≢ c.addr + 32) (us ++ t ∷ vs)
          → ⊥
      still_used us t vs before others =
          (All-around (λ (s : Span). s.addr + 32 ≢ c.addr + 32) xs (span c) ys
              (subst (All (λ (s : Span). s.addr + 32 ≢ c.addr + 32)) (sym before ∙ used)
                (All-without (λ (s : Span). s.addr + 32 ≢ c.addr + 32) us t vs others))).1
            refl

  pub resize_lem :
      FromMmap rs (mmap_bytes pf n) mm → Done (resize pf fuel st mm r.addr c.addr (c.addr + 32) n)
  unfolding resize
  resize_lem from_mmap = elim (Bool-cases (leb n c.size)) [
    | inl fits ↦
        let le : n ≤ c.size = leb→le n c.size fits in
        let spare : sub64 c.size n ≡ c.size - n = omega (arith, le, range) in
        elim (Bool-cases (leb min_split_size (c.size - n))) [
          | inl big ↦
              let (b, runs, done) = shrunk (ground arith) in
              (put_arena st b, c.addr + 32, rw (size_lem, fits, spare, big, runs) refl, done)
          | inr tight ↦ (st, c.addr + 32, rw (size_lem, fits, spare, tight) refl, unchanged le)
        ]
    | inr small ↦
        let le : c.size ≤ n = ground arith in
        elim (Bool-cases (same_type (get_zone_type n) (st.zone r.addr).type)) [
          | inr other ↦
              let (new, p, runs, done) = moved from_mmap le in
              (new, p, rw (size_lem, small, other) runs, done)
          | inl same ↦
              elim (try_to_extend_block_lem fuel (arena st r.addr) n low cs c ds held u
                (omega (arith, ap length e, fuel_bounds fuel st front r back i enough))) [
                  | inl null ↦
                      let (new, p, runs, done) = moved from_mmap le in
                      (new, p, rw (size_lem, small, same, null, same-arena st r.addr) runs, done)
                  | inr x ↦ (
                    put_arena st x.after,
                    x.addr + 32,
                    rw (size_lem, small, same, x.runs, ne→== (x.addr + 32) 0 (omega arith)) refl,
                    in_place x.after.bytes x.after x.addr x.copied (inr le) x.resized,
                  )
                ]
        ]
  ]

-- ===== src/Cells/TryExtend.antt =====
-- `try_to_extend_block` of src/realloc_try_to_extend_block.c: the cell behind, else the one in front.
use ft_malloc.Base.{
  ℕ, ◌+◌, ◌^◌, ◌≤◌, ◌<◌, ◌≡◌, ◌⊎◌, inl, inr, refl, sym, ap, subst, true, false, not, Option, List,
  [], ◌∷◌, ◌++◌, arith, length, some, ltb, Bool-cases, length-append, append_assoc, append-nil,
  ne→==,
}
use ft_malloc.Base.Words.{add64}
use ft_malloc.Heap.{Arena}
use ft_malloc.Heap.Dll.{Span, Dll}
use ft_malloc.Links.Remove.{at_middle}
use ft_malloc.Blocks.{take_after, take_before, extend_block, extend_block_back, try_to_extend_block}
use ft_malloc.Libft.Memory.{Bytes, ft_memmove}
use ft_malloc.Libft.Memory.Overlap.{Copied, ft_memmove-Copied}
use ft_malloc.Cells.{Asked, Asked-Whole, Cell, fin, span, pick, Stands}
use ft_malloc.Cells.Window.{Tiles-Middle, Tiles-le, pick-skip, pick-middle, pick-around}
use ft_malloc.Cells.Extend.{take_after_lem}
use ft_malloc.Cells.Trim.{Resized}
use ft_malloc.Cells.ExtendBack.{take_before_lem}
use ft_malloc.Cells.Neighbours.{find_empty_after_lem, find_empty_before_lem}

-- A call that gives a block of at least `size` bytes at `addr`: it has the `c.size` bytes that stood in
-- the block of `c` before the call, and no other byte of a block has changed.
pub record Extended (a : Arena) (c : Cell) (xs ys : List Span) (size count : ℕ)
    (run : Option (Arena × ℕ)) : Type 0 where
  pub addr : ℕ
  pub after : Arena
  pub runs : run ≡ some (after, addr + 32)
  pub range : addr + 32 < 2 ^ 64
  pub copied : Copied a.bytes after.bytes (c.addr + 32) (addr + 32) c.size
  pub resized : Resized (record a { bytes = after.bytes }) after xs ys addr size count

-- The bytes of the arena before, taken from the one after.
Resized-bytes :
    (a b : Arena) (m : Bytes) (xs ys : List Span) (addr n count : ℕ)
    → Resized (record a { bytes = m }) b xs ys addr n count
    → Resized (record a { bytes = b.bytes }) b xs ys addr n count
Resized-bytes a b m xs ys addr n count r =
    subst (λ (k : Bytes). Resized (record a { bytes = k }) b xs ys addr n count)
      (sym r.within.bytes) r

Resized-le :
    (a b : Arena) (xs ys : List Span) (addr n k m : ℕ)
    → k ≤ m
    → Resized a b xs ys addr n k
    → Resized a b xs ys addr n m
Resized-le a b xs ys addr n k m l r = record {
  cells = r.cells;
  block = r.block;
  holds = r.holds;
  within = r.within;
  used = r.used;
  here = r.here;
  size = r.size;
  count_le = omega (arith, l, r.count_le);
}

pub cell-header :
    (a : Arena) (cs : List Cell) (c : Cell) (ds : List Cell)
    → Stands a (cs ++ c ∷ ds)
    → c.used ≡ true
    → ((a.hdr c.addr).data_size ≡ c.size) × ((a.hdr c.addr).end ≡ fin c)
cell-header a cs c ds s u =
    let node =
      (at_middle a.hdr 0 a.zone.blocks (pick true cs) (span c) (pick true ds)
        (subst (Dll a.hdr 0 a.zone.blocks) (pick-middle true cs c ds u) s.blocks)).0 in
    (node.data_size, node.end)

free-header :
    (a : Arena) (cs : List Cell) (e : Cell) (ds : List Cell)
    → Stands a (cs ++ e ∷ ds)
    → e.used ≡ false
    → ((a.hdr e.addr).data_size ≡ e.size) × (0 < e.addr)
free-header a cs e ds s u =
    let node =
      (at_middle a.hdr 0 a.zone.empty_spaces (pick false cs) (span e) (pick false ds) (
        subst (Dll a.hdr 0 a.zone.empty_spaces) (pick-middle false cs e ds (ap not u))
          s.empties)).0 in
    (node.data_size, omega (arith, node.above))

-- Two cells side by side lie below the end of the zone.
pair_range :
    (a : Arena) (cs : List Cell) (c e : Cell) (ds : List Cell)
    → Stands a (cs ++ c ∷ (e ∷ ds))
    → (fin c ≡ e.addr) × (fin e < 2 ^ 64) × (80 ≤ c.addr)
pair_range a cs c e ds s =
    let m = Tiles-Middle (a.zone.start + 80) a.zone.end cs c (e ∷ ds) s.tiles in
    omega (
      arith,
      s.top,
      m.back.0,
      Tiles-le (fin c + 32 + e.size) a.zone.end ds m.back.2,
      Tiles-le (a.zone.start + 80) c.addr cs m.front,
    )

module _ (fuel : ℕ) (a : Arena) (size : ℕ) (low : Asked size) where
  Extended-after :
      (cs : List Cell) (c e : Cell) (ds : List Cell)
      → Stands a (cs ++ c ∷ (e ∷ ds))
      → c.used ≡ true
      → e.used ≡ false
      → length (cs ++ c ∷ (e ∷ ds)) < fuel
      → size ≤ c.size + 32 + e.size
      → Extended a c
          (pick true cs)
          (pick true (e ∷ ds))
          size
          (length cs + length (e ∷ ds) + 2)
          (take_after fuel a c.addr e.addr size)
  Extended-after cs c e ds s u v f fits =
      let (b, runs, done) =
        take_after_lem a cs c e ds s u v fuel size
          (omega (
            arith,
            f,
            length-append cs (c ∷ (e ∷ ds)),
            length-append cs (record c { size = c.size + 32 + e.size } ∷ ds),
          ))
          (Asked-Whole size (c.size + 32 + e.size) low fits
            (omega (arith, pair_range a cs c e ds s)))
          fits in
      record {
        addr = c.addr;
        after = b;
        runs = runs;
        range = omega (arith, pair_range a cs c e ds s);
        copied =
            subst (λ (k : Bytes). Copied a.bytes k (c.addr + 32) (c.addr + 32) c.size)
              (sym done.within.bytes) (record { kept = λ k l. refl; others = λ x o. refl });
        resized = Resized-bytes a b a.bytes _ _ _ _ _ (
            rw (pick-skip true e ds v) (
              Resized-le a b (pick true cs) (pick true ds) c.addr size (length cs + length ds + 2)
                (length cs + length (e ∷ ds) + 2) (omega arith) done));
      }

  Extended-before :
      (cs : List Cell) (e c : Cell) (ds : List Cell)
      → Stands a (cs ++ e ∷ (c ∷ ds))
      → e.used ≡ false
      → c.used ≡ true
      → length (cs ++ e ∷ (c ∷ ds)) < fuel
      → size ≤ e.size + 32 + c.size
      → Extended a c
          (pick true (cs ++ e ∷ []))
          (pick true ds)
          size
          (length (cs ++ e ∷ []) + length ds + 2)
          (take_before fuel a c.addr e.addr size)
  Extended-before cs e c ds s v u f fits =
      let (b, runs, done) =
        take_before_lem a cs e c ds s v u fuel size
          (omega (
            arith,
            f,
            length-append cs (e ∷ (c ∷ ds)),
            length-append cs
                (record { addr = e.addr; size = e.size + 32 + c.size; used = true } ∷ ds),
          ))
          (Asked-Whole size (e.size + 32 + c.size) low fits
            (omega (arith, pair_range a cs e c ds s)))
          fits in
      record {
        addr = e.addr;
        after = b;
        runs = runs;
        range = omega (arith, pair_range a cs e c ds s);
        copied =
            subst (λ (k : Bytes). Copied a.bytes k (c.addr + 32) (e.addr + 32) c.size)
              (sym done.within.bytes)
              (ft_memmove-Copied a.bytes (c.addr + 32) (e.addr + 32) c.size (omega arith)
                (omega arith));
        resized =
            Resized-bytes a b (ft_memmove a.bytes (e.addr + 32) (c.addr + 32) c.size) _ _ _ _ _ (
              rw (pick-around true cs e [] v, append-nil (pick true cs))
                (Resized-le
                  (record a { bytes = ft_memmove a.bytes (e.addr + 32) (c.addr + 32) c.size }) b
                  (pick true cs) (pick true ds) e.addr size (length cs + length ds + 2)
                  (length (cs ++ e ∷ []) + length ds + 2) (omega (arith, length-append cs (e ∷ [])))
                  done));
      }

  module _ (cs : List Cell) (c : Cell) (ds : List Cell) (s : Stands a (cs ++ c ∷ ds))
      (u : c.used ≡ true) (f : length (cs ++ c ∷ ds) < fuel) where
    abbrev Done : Option (Arena × ℕ) → Type 0
    Done run =
        (run ≡ some (a, 0))
        ⊎ Extended a c (pick true cs) (pick true ds) size (length cs + length ds + 2) run

    pub extend_block_lem : Done (extend_block fuel a c.addr size)
    unfolding extend_block
    extend_block_lem =
        elim (find_empty_after_lem fuel a cs c ds s u (cell-header a cs c ds s u).1 f) [
          | inl none_found ↦ inl (rw none_found refl)
          | inr (e, rest, split, free, found) ↦
              let s' = subst (λ l. Stands a (cs ++ c ∷ l)) split s in
              let (e_size, e_addr) =
                free-header a (cs ++ c ∷ []) e rest
                  (subst (Stands a) (sym (append_assoc cs (c ∷ []) (e ∷ rest))) s') free in
              let total : add64 (add64 c.size 32) e.size ≡ c.size + 32 + e.size =
                omega (arith, pair_range a cs c e rest s') in
              elim (Bool-cases (ltb (c.size + 32 + e.size) size)) [
                | inl small ↦ inl (
                    rw
                      (
                        found,
                        ne→== e.addr 0 (omega (arith, e_addr)),
                        (cell-header a cs c ds s u).0,
                        e_size,
                        total,
                        small,
                      )
                      refl)
                | inr fits ↦ inr (
                    rw
                      (
                        found,
                        ne→== e.addr 0 (omega (arith, e_addr)),
                        (cell-header a cs c ds s u).0,
                        e_size,
                        total,
                        fits,
                        split,
                      )
                      (Extended-after cs c e rest s' u free
                        (omega (arith, f, ap (λ (l : List Cell). length (cs ++ c ∷ l)) split))
                        (ground (arith, fits))))
              ]
        ]

    pub extend_block_back_lem : Done (extend_block_back fuel a c.addr size)
    unfolding extend_block_back
    extend_block_back_lem =
        elim (find_empty_before_lem fuel a cs c ds s u (cell-header a cs c ds s u).1 f) [
          | inl none_found ↦ inl (rw none_found refl)
          | inr (before, e, split, free, found) ↦
              let s' =
                subst (Stands a) (append_assoc before (e ∷ []) (c ∷ ds))
                  (subst (λ l. Stands a (l ++ c ∷ ds)) split s) in
              let (e_size, e_addr) = free-header a before e (c ∷ ds) s' free in
              let total : add64 (add64 e.size 32) c.size ≡ e.size + 32 + c.size =
                omega (arith, pair_range a before e c ds s') in
              elim (Bool-cases (ltb (e.size + 32 + c.size) size)) [
                | inl small ↦ inl (
                    rw
                      (
                        found,
                        ne→== e.addr 0 (omega (arith, e_addr)),
                        (cell-header a cs c ds s u).0,
                        e_size,
                        total,
                        small,
                      )
                      refl)
                | inr fits ↦ inr (
                    rw
                      (
                        found,
                        ne→== e.addr 0 (omega (arith, e_addr)),
                        (cell-header a cs c ds s u).0,
                        e_size,
                        total,
                        fits,
                        split,
                      )
                      (Extended-before before e c ds s' free u
                        (omega (
                          arith,
                          f,
                          ap (λ (l : List Cell). length (l ++ c ∷ ds)) split,
                          ap length (append_assoc before (e ∷ []) (c ∷ ds)),
                        ))
                        (ground (arith, fits))))
              ]
        ]

    -- `try_to_extend_block` of a used cell returns: NULL and nothing changed, or the payload of a block
    -- of the size at least, in the old one's place among the used ones, that begins with all the bytes
    -- that were in the old one.
    pub try_to_extend_block_lem : Done (try_to_extend_block fuel a c.addr size)
    unfolding try_to_extend_block
    try_to_extend_block_lem = elim extend_block_lem [
      | inl null ↦ rw null extend_block_back_lem
      | inr x ↦ inr (
          rw (x.runs, ne→== (x.addr + 32) 0 (omega arith))
            (record {
              addr = x.addr;
              after = x.after;
              runs = refl;
              range = x.range;
              copied = x.copied;
              resized = x.resized;
            }))
    ]

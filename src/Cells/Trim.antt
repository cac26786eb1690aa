-- ===== src/Cells/Trim.antt =====
-- `trim` of src/realloc_try_to_extend_block.c: a used cell gives back what it has left over.
use ft_malloc.Base.{
  ℕ, ◌+◌, ◌-◌, ◌≤◌, ◌<◌, ◌≡◌, inl, inr, refl, ap, ◌∙◌, subst, true, false, List, [], ◌∷◌, ◌++◌,
  arith, length, some, leb, Bool-cases, length-append, append_assoc, le→leb, leb→le,
}
use ft_malloc.Base.Words.{sub64}
use ft_malloc.Heap.{Arena}
use ft_malloc.Heap.Dll.{Span, Dll}
use ft_malloc.Links.Remove.{at_middle}
use ft_malloc.Blocks.{split_block, trim}
use ft_malloc.Cells.{Whole, Cell, fin, span, pick, Stands, Holds, Within}
use ft_malloc.Cells.Window.{Tiles-Middle, Tiles-le, pick-middle, pick-around, length-pick}
use ft_malloc.Cells.Coalesce.{coalesce, used-coalesce, length-coalesce}
use ft_malloc.Cells.Stats.{update_empty_stats-Holds}
use ft_malloc.Cells.Split.{kept, cut_off, split_block-coalesce}

-- A cell of `n` bytes.
abbrev pub resized : Cell → ℕ → Cell
resized c n = record c { size = n }

-- The zone of `b` has the used cells `xs`, one at `addr` with at least `n` bytes, and `ys`, and it
-- is otherwise as `a`'s, bytes of blocks included.
pub record Resized (a b : Arena) (xs ys : List Span) (addr n : ℕ) (count : ℕ) : Type 0 where
  pub cells : List Cell
  pub block : Span
  pub holds : Holds b cells
  pub within : Within a b
  pub used : pick true cells ≡ xs ++ block ∷ ys
  pub here : block.addr ≡ addr
  pub size : n ≤ block.size
  pub count_le : length cells ≤ count

-- `trim` of a used cell of at least `n` bytes: what is left over of it is free, if that is worth a
-- header.
module _ (fuel : ℕ) (a : Arena) (cs : List Cell) (c : Cell) (ds : List Cell) (n : ℕ)
    (s : Stands a (cs ++ c ∷ ds)) (is_used : c.used ≡ true) (low : Whole n) (room : n ≤ c.size)
    (f : length (cs ++ c ∷ ds) < fuel) where
  abbrev pub Trimmed : Type 0
  Trimmed =
      (b : Arena) × (trim fuel a c.addr n ≡ some b)
      × Resized a b (pick true cs) (pick true ds) c.addr n (length cs + length ds + 2)

  header : (a.hdr c.addr).data_size ≡ c.size
  header =
      (at_middle a.hdr 0 a.zone.blocks (pick true cs) (span c) (pick true ds)
        (subst (Dll a.hdr 0 a.zone.blocks) (pick-middle true cs c ds is_used) s.blocks)).0.data_size

  spare : sub64 c.size n ≡ c.size - n
  spare =
      let m = Tiles-Middle (a.zone.start + 80) a.zone.end cs c ds s.tiles in
      omega (arith, room, s.top, Tiles-le (fin c) a.zone.end ds m.back)

  used-split :
      pick true (coalesce ((cs ++ kept c n ∷ []) ++ cut_off c n ∷ ds))
      ≡ pick true cs ++ span (kept c n) ∷ pick true ds
  used-split =
      let one : List Cell = cs ++ kept c n ∷ [] in
      used-coalesce (one ++ cut_off c n ∷ ds)
      ∙ pick-around true one (cut_off c n) ds refl
      ∙ ap (λ l. l ++ pick true ds) (pick-middle true cs (kept c n) [] is_used)
      ∙ append_assoc (pick true cs) (span (kept c n) ∷ []) (pick true ds)

  -- `split_block` of a cell with 48 bytes or more to spare.
  pub split_lem :
      n + 48 ≤ c.size
      → (b : Arena) × (split_block fuel a c.addr n ≡ some b)
        × Resized a b (pick true cs) (pick true ds) c.addr n (length cs + length ds + 2)
  split_lem big =
      let (b, runs, holds, within) = split_block-coalesce a cs c ds n s is_used low big fuel f in
      (
        b,
        runs,
        record {
          cells = coalesce ((cs ++ kept c n ∷ []) ++ cut_off c n ∷ ds);
          block = span (kept c n);
          holds = holds;
          within = within;
          used = used-split;
          here = refl;
          size = omega arith;
          count_le = omega (
            arith,
            length-coalesce ((cs ++ kept c n ∷ []) ++ cut_off c n ∷ ds),
            length-append (cs ++ kept c n ∷ []) (cut_off c n ∷ ds),
            length-append cs (kept c n ∷ []),
          );
        },
      )

  trim_split : n + 48 ≤ c.size → Trimmed
  unfolding trim
  trim_split big =
      let (b, runs, done) = split_lem big in
      (b, rw (header, spare, le→leb 48 (c.size - n) (omega (arith, big))) runs, done)

  trim_whole : leb 48 (c.size - n) ≡ false → Trimmed
  unfolding trim
  trim_whole tight =
      let (b, runs, holds, within) =
        update_empty_stats-Holds fuel a (cs ++ c ∷ ds) s
          (omega (arith, f, length-pick false (cs ++ c ∷ ds))) in
      (
        b,
        rw (header, spare, tight) runs,
        record {
          cells = cs ++ c ∷ ds;
          block = span c;
          holds = holds;
          within = within;
          used = pick-middle true cs c ds is_used;
          here = refl;
          size = room;
          count_le = omega (arith, length-append cs (c ∷ ds));
        },
      )

  pub trim_lem : Trimmed
  trim_lem = elim (Bool-cases (leb 48 (c.size - n))) [
    | inl e ↦ trim_split (omega (arith, leb→le 48 (c.size - n) e))
    | inr e ↦ trim_whole e
  ]

pub Within-trans : (a b c : Arena) → Within a b → Within b c → Within a c
Within-trans a b c u v = record {
  self = v.self ∙ u.self;
  start = v.start ∙ u.start;
  end = v.end ∙ u.end;
  type = v.type ∙ u.type;
  total_space = v.total_space ∙ u.total_space;
  prev = v.prev ∙ u.prev;
  next = v.next ∙ u.next;
  bytes = v.bytes ∙ u.bytes;
  outside = λ x p o. v.outside x p (omega (arith, o, u.start, u.end)) ∙ u.outside x p o;
}

pub Resized-after :
    (a b c : Arena) (xs ys : List Span) (addr n count : ℕ)
    → Within a b
    → Resized b c xs ys addr n count
    → Resized a c xs ys addr n count
Resized-after a b c xs ys addr n count w r = record {
  cells = r.cells;
  block = r.block;
  holds = r.holds;
  within = Within-trans a b c w r.within;
  used = r.used;
  here = r.here;
  size = r.size;
  count_le = r.count_le;
}

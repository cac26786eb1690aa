-- ===== src/Cells/Convert.antt =====
-- `convert_block_to_empty` on a zone that stands for cells.
use ft_malloc.Base.{
  ℕ, ◌+◌, ◌-◌, ◌%◌, ◌^◌, ◌<◌, ◌≡◌, refl, sym, ap, ◌∙◌, subst, true, false, not, List, ◌∷◌, ◌++◌,
  arith, length, some,
}
use ft_malloc.Base.Words.{add64}
use ft_malloc.Sizes.{block}
use ft_malloc.Heap.{Chain, Arena}
use ft_malloc.Heap.Dll.{Dll}
use ft_malloc.Links.{heap, unlink, remove_block, insert_ordered}
use ft_malloc.Links.Remove.{at_middle}
use ft_malloc.Blocks.{add_empty, convert_block_to_empty}
use ft_malloc.Merge.{merge_empty_spaces}
use ft_malloc.Cells.{Cell, fin, span, pick, Tiles, Stands, Holds, Within}
use ft_malloc.Cells.Window.{
  Middle, Tiles-Middle, Middle-Tiles, pick-middle, pick-around, outside-Clear, free_bytes-le,
  free_bytes-free, free_bytes-used, length-middle, Clear, fuel-pick,
}
use ft_malloc.Cells.Change.{KeepsSpans, Added, Dropped, add_cell, drop_cell}
use ft_malloc.Cells.Coalesce.{coalesce}
use ft_malloc.Cells.Stats.{merge_empty_spaces-coalesce}

abbrev pub freed : Cell → Cell
freed c = record c { used = false }

module _ (a : Arena) (cs : List Cell) (c : Cell) (ds : List Cell) (s : Stands a (cs ++ c ∷ ds))
    (is_used : c.used ≡ true) where
  abbrev pos : ℕ
  pos = a.zone.start + 80

  mid : Middle pos a.zone.end cs c ds
  mid = Tiles-Middle pos a.zone.end cs c ds s.tiles

  blocks : Dll a.hdr 0 a.zone.blocks (pick true cs ++ span c ∷ pick true ds)
  blocks = subst (Dll a.hdr 0 a.zone.blocks) (pick-middle true cs c ds is_used) s.blocks

  empties : Dll a.hdr 0 a.zone.empty_spaces (pick false cs ++ pick false ds)
  empties =
      subst (Dll a.hdr 0 a.zone.empty_spaces) (pick-around false cs c ds (ap not is_used)) s.empties

  header : ((a.hdr c.addr).data_size ≡ c.size) × ((a.hdr c.addr).end ≡ fin c) × (0 < c.addr)
  header =
      let n = (at_middle a.hdr 0 a.zone.blocks (pick true cs) (span c) (pick true ds) blocks).0 in
      (n.data_size, n.end, omega (arith, n.above))

  -- The zone after `c` has left `blocks` with the chain `r` and joined `empty_spaces` with `q`.
  abbrev listed : Chain → Chain → Arena
  listed r q = record a {
    hdr = q.hdr;
    zone = record a.zone {
      blocks = r.head;
      empty_spaces = q.head;
      blocks_num = (a.zone.blocks_num + 2 ^ 32 - 1) % 2 ^ 32;
      remaining_space = add64 a.zone.remaining_space (add64 c.size 32);
    };
  }

  removed :
      (r : Chain)
      → unlink (record { hdr = a.hdr; head = a.zone.blocks }) (heap c.addr) ≡ r
      → remove_block a (heap c.addr) block
        ≡ record a { hdr = r.hdr; zone = record a.zone { blocks = r.head } }
  unfolding remove_block
  removed r e = ground (arith, s.self, header)

  convert-listed :
      (fuel : ℕ) (r q : Chain)
      → unlink (record { hdr = a.hdr; head = a.zone.blocks }) (heap c.addr) ≡ r
      → (r.hdr c.addr).data_size ≡ c.size
      → insert_ordered fuel (record { hdr = r.hdr; head = a.zone.empty_spaces }) c.addr ≡ some q
      → convert_block_to_empty fuel a c.addr ≡ merge_empty_spaces fuel (listed r q)
  unfolding convert_block_to_empty add_empty
  convert-listed fuel r q e size i = rw (removed r e, size, i) refl

  freed-Tiles : Tiles pos a.zone.end (cs ++ freed c ∷ ds)
  freed-Tiles =
      Middle-Tiles pos a.zone.end cs (freed c) ds
        (record { front = mid.front; room = mid.room; back = mid.back })

  listed-Stands :
      (r q : Chain)
      → Dll q.hdr 0 q.head (pick false cs ++ span (freed c) ∷ pick false ds)
      → Dll q.hdr 0 r.head (pick true cs ++ pick true ds)
      → Stands (listed r q) (cs ++ freed c ∷ ds)
  listed-Stands r q qe qb = record {
    self = s.self;
    tiles = freed-Tiles;
    top = s.top;
    blocks = subst (Dll q.hdr 0 r.head) (sym (pick-around true cs (freed c) ds refl)) qb;
    empties = subst (Dll q.hdr 0 q.head) (sym (pick-middle false cs (freed c) ds refl)) qe;
    blocks_num = rw (pick-around true cs (freed c) ds refl) (
        omega (
          arith,
          s.blocks_num,
          ap length (pick-middle true cs c ds is_used),
          length-middle (pick true cs) (span c) (pick true ds),
        ));
    remaining_space = omega (
      arith,
      s.remaining_space,
      s.top,
      free_bytes-used cs c ds is_used,
      free_bytes-free cs (freed c) ds refl,
      free_bytes-le pos a.zone.end (cs ++ freed c ∷ ds) freed-Tiles,
    );
  }

  -- The run, from the two changed lists.
  convert-merge :
      (fuel : ℕ)
      → length (cs ++ c ∷ ds) < fuel
      → (r : Chain) → (unlink (record { hdr = a.hdr; head = a.zone.blocks }) (heap c.addr) ≡ r)
      → KeepsSpans a.hdr r.hdr
      → ((x : ℕ) → Clear (pick true cs) (pick true ds) c.addr (fin c) x → r.hdr x ≡ a.hdr x)
      → Added true pos a.zone.end cs ds
          (freed c)
          (omega arith)
          mid.front
          mid.back
          r.hdr
          a.zone.empty_spaces
          r.head
          fuel
      → (b : Arena) × (convert_block_to_empty fuel a c.addr ≡ some b)
        × Holds b (coalesce (cs ++ freed c ∷ ds))
        × Within a b
  convert-merge fuel f r unlinked keeps same (q, inserted, qe, qb, qs, qo) =
      let (b, done, holds, within) =
        merge_empty_spaces-coalesce fuel (listed r q) (cs ++ freed c ∷ ds) (listed-Stands r q qe qb)
          (fuel-pick false cs c (freed c) ds fuel f).0 in
      (
        b,
        convert-listed fuel r q unlinked ((keeps c.addr).0 ∙ header.0) inserted ∙ done,
        holds,
        record {
          self = within.self;
          start = within.start;
          end = within.end;
          type = within.type;
          total_space = within.total_space;
          prev = within.prev;
          next = within.next;
          bytes = within.bytes;
          outside = λ x p o.
              within.outside x p o
              ∙ qo x (outside-Clear false pos a.zone.end x cs c ds mid p o)
              ∙ same x (outside-Clear true pos a.zone.end x cs c ds mid p o);
        },
      )

  convert-drop :
      (fuel : ℕ)
      → length (cs ++ c ∷ ds) < fuel
      → Dropped false pos a.zone.end cs ds c
          (omega arith)
          mid.front
          mid.back
          a.hdr
          a.zone.blocks
          a.zone.empty_spaces
      → (b : Arena) × (convert_block_to_empty fuel a c.addr ≡ some b)
        × Holds b (coalesce (cs ++ freed c ∷ ds))
        × Within a b
  convert-drop fuel f (r, unlinked, rb, re, keeps, same) =
      convert-merge fuel f r unlinked keeps same (
        add_cell true pos a.zone.end cs ds (freed c) (omega arith) mid.front mid.back r.hdr
          a.zone.empty_spaces r.head fuel re rb ((keeps c.addr).0 ∙ header.0)
          ((keeps c.addr).1 ∙ header.1) (fuel-pick false cs c c ds fuel f).1)

  -- In a zone that stands for cells, `convert_block_to_empty` of a used cell returns. The zone then
  -- stands for the same cells with that one free and free neighbours joined, its counters are
  -- right, and its place, its links and every header outside its bytes are as before.
  pub convert_block_to_empty-coalesce :
      (fuel : ℕ)
      → length (cs ++ c ∷ ds) < fuel
      → (b : Arena) × (convert_block_to_empty fuel a c.addr ≡ some b)
        × Holds b (coalesce (cs ++ freed c ∷ ds))
        × Within a b
  convert_block_to_empty-coalesce fuel f = convert-drop fuel f (
      drop_cell false pos a.zone.end cs ds c (omega arith) mid.front mid.back a.hdr a.zone.blocks
        a.zone.empty_spaces blocks empties)

-- ===== src/Cells/ExtendBack.antt =====
-- `take_before` of src/realloc_try_to_extend_block.c: a used cell moves into the free cell in front.
use ft_malloc.Base.{
  ℕ, ◌+◌, ◌%◌, ◌^◌, ◌≤◌, ◌<◌, ◌≡◌, ◌≢◌, refl, sym, ap, ◌∙◌, subst, true, false, not, List, ◌∷◌,
  ◌++◌, arith, length, some, length-append, ne→==,
}
use ft_malloc.Base.Words.{add64, sub64}
use ft_malloc.Sizes.{empty, block}
use ft_malloc.Heap.{
  Headers, Block, Chain, Arena, block_payload, set_span, set_span_at, set_span_off,
}
use ft_malloc.Heap.Dll.{Dll, Dll-frame}
use ft_malloc.Heap.Splice.{last, enter}
use ft_malloc.Links.{heap, unlink, exchange, remove_block, replace_block}
use ft_malloc.Links.Remove.{at_middle}
use ft_malloc.Links.Replace.{Fits, exchange_lem, Dll-exchanged}
use ft_malloc.Links.Bridge.{mount, mount_off, mount_keeps_span}
use ft_malloc.Blocks.{trim, take_before}
use ft_malloc.Libft.Memory.{ft_memmove}
use ft_malloc.Cells.{Whole, Cell, fin, span, pick, Tiles, Stands}
use ft_malloc.Cells.Window.{
  Middle, Tiles-Middle, Middle-Tiles, Tiles-le, pick-Inside, pick-skip, pick-cons, pick-middle,
  pick-around, outside-Clear, next-Inside, free_bytes-le, free_bytes-free, free_bytes-used,
  free_bytes-append, Clear, All-append,
}
use ft_malloc.Cells.Change.{KeepsSpans, drop_cell, others-kept, low}
use ft_malloc.Cells.Split.{SameOn-Inside}
use ft_malloc.Cells.Trim.{Resized}
use ft_malloc.Cells.Trim.{Resized-after, trim_lem}

-- The bytes of the free cell `e` and of the used cell `c` behind it, as one used cell.
abbrev pub merged : Cell → Cell → Cell
merged e c = record { addr = e.addr; size = e.size + 32 + c.size; used = true }

module _ (a : Arena) (cs : List Cell) (e c : Cell) (ds : List Cell)
    (s : Stands a (cs ++ e ∷ (c ∷ ds))) (is_free : e.used ≡ false) (is_used : c.used ≡ true) where
  abbrev pos : ℕ
  pos = a.zone.start + 80

  abbrev j : Cell
  j = merged e c

  mid : Middle pos a.zone.end cs e (c ∷ ds)
  mid = Tiles-Middle pos a.zone.end cs e (c ∷ ds) s.tiles

  back : Tiles (fin c) a.zone.end ds
  back = subst (λ x. Tiles (x + 32 + c.size) a.zone.end ds) (sym mid.back.0) mid.back.2

  bounds :
      (pos ≤ e.addr)
      × (c.addr ≡ fin e)
      × (fin c ≤ a.zone.end)
      × Whole e.size
      × (fin j ≡ fin c)
      × Whole c.size
  bounds = omega (
    arith,
    Tiles-le pos e.addr cs mid.front,
    Tiles-le (fin c) a.zone.end ds back,
    mid.room,
    mid.back.0,
    mid.back.1,
  )

  behind : Tiles (fin j) a.zone.end ds
  behind = subst (λ x. Tiles x a.zone.end ds) (sym bounds.4) back

  used_split : pick true (cs ++ e ∷ (c ∷ ds)) ≡ pick true cs ++ span c ∷ pick true ds
  used_split =
      pick-around true cs e (c ∷ ds) is_free
      ∙ ap (◌++◌ (pick true cs)) (pick-cons true c ds is_used)

  blocks : Dll a.hdr 0 a.zone.blocks (pick true cs ++ pick true (c ∷ ds))
  blocks = subst (Dll a.hdr 0 a.zone.blocks) (pick-around true cs e (c ∷ ds) is_free) s.blocks

  empties : Dll a.hdr 0 a.zone.empty_spaces (pick false cs ++ span e ∷ pick false (c ∷ ds))
  empties =
      subst (Dll a.hdr 0 a.zone.empty_spaces) (pick-middle false cs e (c ∷ ds) (ap not is_free))
        s.empties

  free_behind : pick false (c ∷ ds) ≡ pick false ds
  free_behind = pick-skip false c ds (ap not is_used)

  used_behind : pick true (c ∷ ds) ≡ span c ∷ pick true ds
  used_behind = pick-cons true c ds is_used

  header :
      ((a.hdr c.addr).data_size ≡ c.size)
      × ((a.hdr c.addr).end ≡ fin c)
      × ((a.hdr e.addr).data_size ≡ e.size)
      × (0 < e.addr)
  header =
      let n =
        (at_middle a.hdr 0 a.zone.blocks (pick true cs) (span c) (pick true ds)
          (subst (Dll a.hdr 0 a.zone.blocks) used_split s.blocks)).0 in
      let m =
        (at_middle a.hdr 0 a.zone.empty_spaces (pick false cs) (span e) (pick false (c ∷ ds))
          empties).0 in
      (n.data_size, n.end, m.data_size, omega (arith, m.above))

  -- The headers once `e` has its new span, where it has left the free list with the chain `r`.
  abbrev spanned : Chain → Headers
  spanned r = set_span r.hdr e.addr j.size (fin c)

  spanned-off : (r : Chain) (x : ℕ) → x ≢ e.addr → spanned r x ≡ r.hdr x
  spanned-off r x ne = set_span_off r.hdr e.addr x j.size (fin c) ne

  module _ (r : Chain) (rb : Dll r.hdr 0 r.head (pick false cs ++ pick false (c ∷ ds)))
      (re : Dll r.hdr 0 a.zone.blocks (pick true cs ++ pick true (c ∷ ds))) where
    abbrev h : Headers
    h = spanned r

    used_list : Dll h 0 a.zone.blocks (pick true cs ++ span c ∷ pick true ds)
    used_list = subst (Dll h 0 a.zone.blocks) (ap (◌++◌ (pick true cs)) used_behind) (
        Dll-frame r.hdr h 0 a.zone.blocks (pick true cs ++ pick true (c ∷ ds)) re (
          All-append _ (pick true cs) (pick true (c ∷ ds))
            (SameOn-Inside r.hdr h pos e.addr (pick true cs)
              (pick-Inside true pos e.addr cs mid.front)
              (λ x l u. spanned-off r x (omega (arith, u))))
            (SameOn-Inside r.hdr h (fin e) a.zone.end (pick true (c ∷ ds))
              (pick-Inside true (fin e) a.zone.end (c ∷ ds) mid.back)
              (λ x l u. spanned-off r x (omega (arith, l))))))

    abbrev n : ℕ
    n = (h c.addr).next

    -- The headers after the exchange.
    abbrev g : Headers
    g = mount h (last 0 (pick true cs)) n e.addr

    rest : Dll h c.addr n (pick true ds)
    rest = (at_middle h 0 a.zone.blocks (pick true cs) (span c) (pick true ds) used_list).1

    fits :
        Fits h 0 a.zone.blocks
          (pick true cs)
          (span c)
          (pick true ds)
          used_list
          h
          (λ x w. refl)
          e.addr
    fits =
        let above =
          next-Inside h c.addr n (fin c) a.zone.end (pick true ds) rest
            (pick-Inside true (fin c) a.zone.end ds back) in
        record {
          low = low false pos a.zone.end cs ds j (omega arith) mid.front behind;
          high = omega (arith, above, bounds.1);
        }

    exchanged :
        exchange (record { hdr = h; head = a.zone.blocks }) (heap c.addr) e.addr
        ≡ record { hdr = g; head = enter (pick true cs) a.zone.blocks e.addr }
    exchanged =
        exchange_lem h 0 a.zone.blocks (pick true cs) (span c) (pick true ds) used_list h
          (λ x w. refl) e.addr (heap c.addr) (refl, refl) elsewhere fits refl
      where
        elsewhere : (x : ℕ) → heap c.addr ≡ heap x → x ≢ e.addr
        elsewhere x eq = let at : c.addr ≡ x = cc in omega (arith, at, bounds)

    used_after :
        Dll g 0 (enter (pick true cs) a.zone.blocks e.addr) (pick true cs ++ span j ∷ pick true ds)
    used_after =
        Dll-exchanged h 0 a.zone.blocks (pick true cs) (span c) (pick true ds) used_list h
          (λ x w. refl) e.addr (span j) refl fits (set_span_at r.hdr e.addr j.size (fin c)).0
          ((set_span_at r.hdr e.addr j.size (fin c)).1 ∙ sym bounds.4)

    same : (x : ℕ) → Clear (pick true cs) (pick true ds) j.addr (fin j) x → g x ≡ r.hdr x
    same x z =
        mount_off h h 0 c.addr n e.addr x (pick true cs) (pick true ds) rest z.pos
          (omega (arith, z.pos)) z.front z.back (omega (arith, z.outside))
        ∙ spanned-off r x (omega (arith, z.outside))

    free_after : Dll g 0 r.head (pick false cs ++ pick false ds)
    free_after =
        others-kept false pos a.zone.end cs ds j (omega arith) mid.front behind r.hdr g r.head
          (subst (Dll r.hdr 0 r.head) (ap (◌++◌ (pick false cs)) free_behind) rb) same

    -- The zone once the block has moved.
    abbrev moved : Arena
    moved = record a {
      hdr = g;
      bytes = ft_memmove a.bytes (e.addr + 32) (c.addr + 32) c.size;
      zone = record a.zone {
        blocks = enter (pick true cs) a.zone.blocks e.addr;
        empty_spaces = r.head;
        remaining_space = sub64 a.zone.remaining_space (32 + e.size);
      };
    }

    moved-Stands : Stands moved (cs ++ j ∷ ds)
    moved-Stands = record {
      self = s.self;
      tiles =
          Middle-Tiles pos a.zone.end cs j ds
            (record { front = mid.front; room = omega (arith, bounds); back = behind });
      top = s.top;
      blocks =
          subst (Dll g 0 (enter (pick true cs) a.zone.blocks e.addr))
            (sym (pick-middle true cs j ds refl)) used_after;
      empties = subst (Dll g 0 r.head) (sym (pick-around false cs j ds refl)) free_after;
      blocks_num =
          s.blocks_num
          ∙ ap (λ k. k % 2 ^ 32)
              (omega (
                arith,
                ap length used_split,
                length-append (pick true cs) (span c ∷ pick true ds),
                length-append (pick true cs) (span j ∷ pick true ds),
                ap length (pick-middle true cs j ds refl),
              ));
      remaining_space = omega (
        arith,
        s.remaining_space,
        s.top,
        free_bytes-used cs j ds refl,
        free_bytes-append cs ds,
        free_bytes-free cs e (c ∷ ds) is_free,
        free_bytes-used cs c ds is_used,
        free_bytes-le pos a.zone.end (cs ++ e ∷ (c ∷ ds)) s.tiles,
      );
    }

    -- The zone before the exchange.
    abbrev taken : Arena
    taken = record a {
      hdr = h;
      zone = record a.zone {
        empty_spaces = r.head;
        remaining_space = sub64 a.zone.remaining_space (32 + e.size);
      };
    }

    replaced : replace_block taken (heap c.addr) e.addr block ≡ record taken {
      hdr = g;
      zone = record taken.zone { blocks = enter (pick true cs) a.zone.blocks e.addr };
    }
    unfolding replace_block
    replaced =
        rw
          (
            ne→== a.self 0 s.self,
            ne→== c.addr 0 (omega (arith, bounds, header)),
            ne→== e.addr 0 (omega (arith, header)),
            exchanged,
          )
          refl

    removed :
        unlink (record { hdr = a.hdr; head = a.zone.empty_spaces }) (heap e.addr) ≡ r
        → remove_block a (heap e.addr) empty
          ≡ record a { hdr = r.hdr; zone = record a.zone { empty_spaces = r.head } }
    unfolding remove_block
    removed u = ground (arith, s.self, header)

    take-moved :
        (fuel size : ℕ)
        → unlink (record { hdr = a.hdr; head = a.zone.empty_spaces }) (heap e.addr) ≡ r
        → KeepsSpans a.hdr r.hdr
        → (b : Arena) → trim fuel moved e.addr size ≡ some b
        → take_before fuel a c.addr e.addr size ≡ some (b, e.addr + 32)
    unfolding take_before
    take-moved fuel size u keeps b runs =
        rw
          (
            header.2,
            header.0,
            total,
            removed u,
            (keeps e.addr).0 ∙ header.2,
            gap,
            (keeps c.addr).1 ∙ header.1,
            replaced,
            kept_size,
            payload e.addr (omega (arith, bounds, s.top)),
            payload c.addr (omega (arith, bounds, s.top)),
            runs,
          )
          refl
      where
        total : add64 (add64 e.size 32) c.size ≡ j.size
        total = omega (arith, bounds, s.top)

        gap : add64 32 e.size ≡ 32 + e.size
        gap = omega (arith, bounds, s.top)

        kept_size : (g c.addr).data_size ≡ c.size
        kept_size =
            (mount_keeps_span h (last 0 (pick true cs)) n e.addr c.addr).0
            ∙ ap (λ (b : Block). b.data_size) (spanned-off r c.addr (omega (arith, bounds)))
            ∙ (keeps c.addr).0
            ∙ header.0

        payload : (x : ℕ) → x + 32 < 2 ^ 64 → block_payload x ≡ x + 32
        payload x l = omega (arith, l)

  -- `take_before` returns the payload of the free cell's header; the used cell has moved there with
  -- its bytes, and has those of both cells, less what is trimmed off.
  pub take_before_lem :
      (fuel size : ℕ)
      → length (cs ++ j ∷ ds) < fuel
      → Whole size
      → size ≤ j.size
      → (b : Arena) × (take_before fuel a c.addr e.addr size ≡ some (b, e.addr + 32))
        × Resized
            (record a { bytes = ft_memmove a.bytes (e.addr + 32) (c.addr + 32) c.size })
            b
            (pick true cs)
            (pick true ds)
            e.addr
            size
            (length cs + length ds + 2)
  take_before_lem fuel size f lo fit =
      let (r, unlinked, rb, re, keeps, clear) =
        drop_cell true pos a.zone.end cs (c ∷ ds) e (omega arith) mid.front mid.back a.hdr
          a.zone.empty_spaces a.zone.blocks empties blocks in
      let (b, runs, done) =
        trim_lem fuel (moved r rb re) cs j ds size (moved-Stands r rb re) refl lo fit f in
      (
        b,
        take-moved r rb re fuel size unlinked keeps b runs,
        Resized-after (record a { bytes = ft_memmove a.bytes (e.addr + 32) (c.addr + 32) c.size })
            (moved r rb re) b (pick true cs) (pick true ds) e.addr size (length cs + length ds + 2)
            (record {
              self = refl;
              start = refl;
              end = refl;
              type = refl;
              total_space = refl;
              prev = refl;
              next = refl;
              bytes = refl;
              outside = λ x p o.
                  same r rb re x (
                    outside-Clear true pos a.zone.end x cs j ds
                      (record { front = mid.front; room = omega (arith, bounds); back = behind }) p
                      o)
                  ∙ clear x (outside-Clear false pos a.zone.end x cs e (c ∷ ds) mid p o);
            })
            done,
      )

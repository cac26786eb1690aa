-- ===== src/Cells/Extend.antt =====
-- `take_after` of src/realloc_try_to_extend_block.c: a used cell takes over the free cell behind it.
use ft_malloc.Base.{
  ℕ, ◌+◌, ◌%◌, ◌^◌, ◌≤◌, ◌<◌, ◌≡◌, ◌≢◌, refl, sym, ap, ◌∙◌, subst, true, false, Bool, not, List, [],
  ◌∷◌, ◌++◌, arith, length, some, length-append, append_assoc, append-nil,
}
use ft_malloc.Base.Words.{add64, sub64}
use ft_malloc.Sizes.{empty}
use ft_malloc.Heap.{Headers, Chain, Arena, block_payload, set_span, set_span_off, write}
use ft_malloc.Heap.Dll.{Dll, Dll-frame, SameOn}
use ft_malloc.Links.{heap, unlink, remove_block}
use ft_malloc.Links.Remove.{at_middle}
use ft_malloc.Blocks.{trim, take_after}
use ft_malloc.Cells.{Whole, Cell, fin, span, pick, Tiles, Stands, Within}
use ft_malloc.Cells.Window.{
  Middle, Tiles-Middle, Middle-Tiles, Tiles-join, Tiles-le, pick-Inside, pick-skip, pick-middle,
  pick-around, outside-Clear, free_bytes-le, free_bytes-free, free_bytes-used, free_bytes-append,
  Clear, All-append,
}
use ft_malloc.Cells.Change.{KeepsSpans, drop_cell}
use ft_malloc.Cells.Split.{Dll-resized, SameOn-Inside}
use ft_malloc.Cells.Trim.{resized, Resized, Resized-after, trim_lem}

-- The cells `c`, used, and `e`, free, side by side.
abbrev pub joined : Cell → Cell → Cell
joined c e = resized c (c.size + 32 + e.size)

module _ (a : Arena) (cs : List Cell) (c e : Cell) (ds : List Cell)
    (s : Stands a (cs ++ c ∷ (e ∷ ds))) (is_used : c.used ≡ true) (is_free : e.used ≡ false) where
  abbrev pos : ℕ
  pos = a.zone.start + 80

  abbrev cs1 : List Cell
  cs1 = cs ++ c ∷ []

  abbrev j : Cell
  j = joined c e

  mid : Middle pos a.zone.end cs c (e ∷ ds)
  mid = Tiles-Middle pos a.zone.end cs c (e ∷ ds) s.tiles

  front : Tiles pos e.addr cs1
  front = Tiles-join pos c.addr e.addr cs (c ∷ []) mid.front (refl, mid.room, sym (mid.back.0))

  back : Tiles (fin e) a.zone.end ds
  back = subst (λ x. Tiles (x + 32 + e.size) a.zone.end ds) (sym mid.back.0) mid.back.2

  bounds : (pos ≤ c.addr) × (e.addr ≡ fin c) × (fin e ≤ a.zone.end) × Whole e.size × (fin j ≡ fin e)
  bounds = omega (
    arith,
    Tiles-le pos c.addr cs mid.front,
    Tiles-le (fin e) a.zone.end ds back,
    mid.back.0,
    mid.back.1,
  )

  used_around : pick true cs1 ++ pick true ds ≡ pick true cs ++ span c ∷ pick true ds
  used_around =
      ap (λ l. l ++ pick true ds) (pick-middle true cs c [] is_used)
      ∙ append_assoc (pick true cs) (span c ∷ []) (pick true ds)

  blocks : Dll a.hdr 0 a.zone.blocks (pick true cs1 ++ pick true ds)
  blocks =
      subst (Dll a.hdr 0 a.zone.blocks)
        (pick-middle true cs c (e ∷ ds) is_used
          ∙ ap (λ l. pick true cs ++ span c ∷ l) (pick-skip true e ds is_free)
          ∙ sym used_around)
        s.blocks

  free_around : pick false (cs ++ c ∷ (e ∷ ds)) ≡ pick false cs1 ++ span e ∷ pick false ds
  free_around =
      ap (pick false) (sym (append_assoc cs (c ∷ []) (e ∷ ds)))
      ∙ pick-middle false cs1 e ds (ap not is_free)

  empties : Dll a.hdr 0 a.zone.empty_spaces (pick false cs1 ++ span e ∷ pick false ds)
  empties = subst (Dll a.hdr 0 a.zone.empty_spaces) free_around s.empties

  free_front : pick false cs1 ≡ pick false cs
  free_front = pick-around false cs c [] (ap not is_used) ∙ append-nil (pick false cs)

  sizes : ((a.hdr c.addr).data_size ≡ c.size) × ((a.hdr e.addr).data_size ≡ e.size) × (0 < e.addr)
  sizes =
      let node =
        (at_middle a.hdr 0 a.zone.empty_spaces (pick false cs1) (span e) (pick false ds)
          empties).0 in
      (
        (at_middle a.hdr 0 a.zone.blocks (pick true cs) (span c) (pick true ds)
            (subst (Dll a.hdr 0 a.zone.blocks) used_around blocks)).0.data_size,
        node.data_size,
        omega (arith, node.above),
      )

  -- The headers once `c` has the bytes of `e`, where `e` has left the list with the chain `r`.
  abbrev grown : Chain → Headers
  grown r = set_span r.hdr c.addr j.size (fin j)

  abbrev joined_arena : Chain → Arena
  joined_arena r = record a {
    hdr = grown r;
    zone = record a.zone {
      empty_spaces = r.head;
      remaining_space = sub64 a.zone.remaining_space (32 + e.size);
    };
  }

  same-grown : (r : Chain) (x : ℕ) → x ≢ c.addr → grown r x ≡ r.hdr x
  same-grown r x ne = set_span_off r.hdr c.addr x j.size (fin j) ne

  here-grown :
      (r : Chain) → grown r c.addr ≡ record (r.hdr c.addr) { data_size = j.size; end = fin j }
  unfolding set_span write
  here-grown r = ground arith

  around-grown :
      (r : Chain) (b : Bool)
      → SameOn r.hdr (grown r) (pick b cs) × SameOn r.hdr (grown r) (pick b ds)
  around-grown r b = (
    SameOn-Inside r.hdr (grown r) pos c.addr (pick b cs) (pick-Inside b pos c.addr cs mid.front)
        (λ x l u. same-grown r x (omega (arith, u))),
    SameOn-Inside r.hdr (grown r) (fin e) a.zone.end (pick b ds)
        (pick-Inside b (fin e) a.zone.end ds back)
        (λ x l u. same-grown r x (omega (arith, l, bounds.1))),
  )

  joined-Tiles : Tiles pos a.zone.end (cs ++ j ∷ ds)
  joined-Tiles = Middle-Tiles pos a.zone.end cs j ds (record {
    front = mid.front;
    room = omega (arith, mid.room, bounds);
    back = subst (λ x. Tiles x a.zone.end ds) (sym bounds.4) back;
  })

  joined-Stands :
      (r : Chain)
      → Dll r.hdr 0 r.head (pick false cs1 ++ pick false ds)
      → Dll r.hdr 0 a.zone.blocks (pick true cs1 ++ pick true ds)
      → Stands (joined_arena r) (cs ++ j ∷ ds)
  joined-Stands r rb re = record {
    self = s.self;
    tiles = joined-Tiles;
    top = s.top;
    blocks = subst (Dll (grown r) 0 a.zone.blocks) (sym (pick-middle true cs j ds is_used)) (
        Dll-resized r.hdr (grown r) 0 a.zone.blocks (pick true cs) (span c) (pick true ds) j.size
          (fin j) (subst (Dll r.hdr 0 a.zone.blocks) used_around re) (around-grown r true).0
          (around-grown r true).1 (here-grown r));
    empties = subst (Dll (grown r) 0 r.head) (sym (pick-around false cs j ds (ap not is_used))) (
        Dll-frame r.hdr (grown r) 0 r.head (pick false cs ++ pick false ds)
          (subst (Dll r.hdr 0 r.head) (ap (λ l. l ++ pick false ds) free_front) rb)
          (All-append _ (pick false cs) (pick false ds) (around-grown r false).0
            (around-grown r false).1));
    blocks_num =
        s.blocks_num
        ∙ ap (λ n. n % 2 ^ 32)
            (ap length (pick-middle true cs c (e ∷ ds) is_used)
              ∙ rw is_free (
                  omega (
                    arith,
                    length-append (pick true cs) (span c ∷ pick true ds),
                    length-append (pick true cs) (span j ∷ pick true ds),
                    ap length (pick-middle true cs j ds is_used),
                  )));
    remaining_space = omega (
      arith,
      s.remaining_space,
      s.top,
      free_bytes-used cs j ds is_used,
      free_bytes-append cs ds,
      free_bytes-used cs c (e ∷ ds) is_used,
      free_bytes-free cs e ds is_free,
      free_bytes-le pos a.zone.end (cs ++ c ∷ (e ∷ ds)) s.tiles,
    );
  }

  removed :
      (r : Chain)
      → unlink (record { hdr = a.hdr; head = a.zone.empty_spaces }) (heap e.addr) ≡ r
      → remove_block a (heap e.addr) empty
        ≡ record a { hdr = r.hdr; zone = record a.zone { empty_spaces = r.head } }
  unfolding remove_block
  removed r u = ground (arith, s.self, sizes)

  take-joined :
      (fuel n : ℕ) (r : Chain)
      → unlink (record { hdr = a.hdr; head = a.zone.empty_spaces }) (heap e.addr) ≡ r
      → KeepsSpans a.hdr r.hdr
      → (b : Arena) → trim fuel (joined_arena r) c.addr n ≡ some b
      → take_after fuel a c.addr e.addr n ≡ some (b, c.addr + 32)
  unfolding take_after
  take-joined fuel n r u keeps b runs =
      rw (sizes.0, sizes.1, total, removed r u, (keeps e.addr).0 ∙ sizes.1, header, stop, runs)
        (ap (λ (x : ℕ). some (b, x)) payload)
    where
      total : add64 (add64 c.size 32) e.size ≡ j.size
      total = omega (arith, bounds, s.top)

      header : add64 32 e.size ≡ 32 + e.size
      header = omega (arith, bounds, s.top)

      stop : add64 (add64 c.addr 32) j.size ≡ fin j
      stop = omega (arith, bounds, s.top)

      payload : block_payload c.addr ≡ c.addr + 32
      payload = omega (arith, bounds, s.top)

  -- Every header outside the zone's bytes is as before.
  joined-Within :
      (r : Chain)
      → ((x : ℕ) → Clear (pick false cs1) (pick false ds) e.addr (fin e) x → r.hdr x ≡ a.hdr x)
      → Within a (joined_arena r)
  joined-Within r same = record {
    self = refl;
    start = refl;
    end = refl;
    type = refl;
    total_space = refl;
    prev = refl;
    next = refl;
    bytes = refl;
    outside = λ x p o.
        same-grown r x (omega (arith, o, bounds))
        ∙ same x (
            outside-Clear false pos a.zone.end x cs1 e ds
              (record { front = front; room = bounds.3; back = back }) p o);
  }

  -- `take_after` returns the block's payload; the block has the bytes of both cells, less what is
  -- trimmed off.
  pub take_after_lem :
      (fuel n : ℕ)
      → length (cs ++ j ∷ ds) < fuel
      → Whole n
      → n ≤ j.size
      → (b : Arena) × (take_after fuel a c.addr e.addr n ≡ some (b, c.addr + 32))
        × Resized a b (pick true cs) (pick true ds) c.addr n (length cs + length ds + 2)
  take_after_lem fuel n f low room =
      let (r, unlinked, rb, re, keeps, same) =
        drop_cell true pos a.zone.end cs1 ds e (omega arith) front back a.hdr a.zone.empty_spaces
          a.zone.blocks empties blocks in
      let (b, runs, done) =
        trim_lem fuel (joined_arena r) cs j ds n (joined-Stands r rb re) is_used low room f in
      (
        b,
        take-joined fuel n r unlinked keeps b runs,
        Resized-after a (joined_arena r) b (pick true cs) (pick true ds) c.addr n
            (length cs + length ds + 2) (joined-Within r same) done,
      )

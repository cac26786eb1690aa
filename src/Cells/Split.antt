-- ===== src/Cells/Split.antt =====
-- `split_block` on a zone that stands for cells.
use ft_malloc.Base.{
  ℕ, ◌+◌, ◌-◌, ◌≤◌, ◌<◌, ◌≡◌, ◌⊎◌, inl, inr, refl, sym, ap, ◌∙◌, subst, true, false, not, List, [],
  ◌∷◌, ◌++◌, arith, length, some, ltb, length-append, Bool, append_assoc, append-nil,
}
use ft_malloc.Base.Words.{add64, sub64}
use ft_malloc.Heap.{Headers, Chain, Arena, set_span, set_span_at, set_span_off, write}
use ft_malloc.Heap.Dll.{Span, Dll, Dll-frame, SameOn}
use ft_malloc.Links.{insert_ordered}
use ft_malloc.Links.Remove.{at_middle}
use ft_malloc.Blocks.{add_empty, split_block}
use ft_malloc.Merge.{merge_empty_spaces}
use ft_malloc.Cells.{Whole, Cell, fin, span, pick, Tiles, Stands, Holds, Within}
use ft_malloc.Cells.Window.{
  Inside, pick-Inside, All-append, Middle, Tiles-Middle, Tiles-join, Middle-Tiles, pick-middle,
  pick-around, outside-Clear, free_bytes-le, free_bytes-free, free_bytes-used, free_bytes-append,
  length-pick, Tiles-le,
}
use ft_malloc.Cells.Change.{Added, add_cell}
use ft_malloc.Cells.Coalesce.{coalesce}
use ft_malloc.Cells.Stats.{merge_empty_spaces-coalesce}

-- A chain with another size for one of its headers.
pub Dll-resized :
    (h g : Headers) (p a : ℕ) (xs : List Span) (s : Span) (ys : List Span) (n e : ℕ)
    → Dll h p a (xs ++ s ∷ ys)
    → SameOn h g xs
    → SameOn h g ys
    → g s.addr ≡ record (h s.addr) { data_size = n; end = e }
    → Dll g p a (xs ++ record s { size = n; fin = e } ∷ ys)
Dll-resized h g p a [] s ys n e d u v w = (
  record {
    here = d.0.here;
    above = d.0.above;
    data_size = rw w refl;
    end = rw w refl;
    prev = rw w (d.0.prev);
  },
  rw w (Dll-frame h g s.addr (h s.addr).next ys d.1 v),
)
Dll-resized h g p a (x ∷ xs) s ys n e d u v w = (
  record {
    here = d.0.here;
    above = d.0.above;
    data_size = rw (u.0) (d.0.data_size);
    end = rw (u.0) (d.0.end);
    prev = rw (u.0) (d.0.prev);
  },
  rw (u.0) (Dll-resized h g x.addr (h x.addr).next xs s ys n e d.1 u.1 v w),
)

pub SameOn-Inside :
    (h g : Headers) (lo hi : ℕ) (ss : List Span)
    → Inside lo hi ss
    → ((x : ℕ) → lo ≤ x → x < hi → g x ≡ h x)
    → SameOn h g ss
SameOn-Inside h g lo hi [] i same = tt
SameOn-Inside h g lo hi (s ∷ ss) i same =
    (same s.addr i.0.0 i.0.1, SameOn-Inside h g lo hi ss i.1 same)

-- The two parts of a cell that keeps `n` bytes.
abbrev pub kept : Cell → ℕ → Cell
kept c n = record c { size = n }

abbrev pub cut_off : Cell → ℕ → Cell
cut_off c n = record { addr = c.addr + 32 + n; size = c.size - n - 32; used = false }

module _ (a : Arena) (cs : List Cell) (c : Cell) (ds : List Cell) (n : ℕ)
    (s : Stands a (cs ++ c ∷ ds)) (is_used : c.used ≡ true) (low : Whole n)
    (room : n + 48 ≤ c.size) where
  abbrev pos : ℕ
  pos = a.zone.start + 80

  abbrev d : Cell
  d = cut_off c n

  abbrev cs1 : List Cell
  cs1 = cs ++ kept c n ∷ []

  abbrev cut : Headers
  cut = set_span (set_span a.hdr c.addr n d.addr) d.addr d.size (fin d)

  mid : Middle pos a.zone.end cs c ds
  mid = Tiles-Middle pos a.zone.end cs c ds s.tiles

  bounds : (pos ≤ c.addr) × (fin c ≤ a.zone.end) × (fin d ≡ fin c)
  bounds =
      omega (arith, room, Tiles-le pos c.addr cs mid.front, Tiles-le (fin c) a.zone.end ds mid.back)

  cut-off : (x : ℕ) → (x < c.addr) ⊎ (fin c ≤ x) → cut x ≡ a.hdr x
  cut-off x o =
      set_span_off (set_span a.hdr c.addr n d.addr) d.addr x d.size (fin d) (omega (arith, o, room))
      ∙ set_span_off a.hdr c.addr x n d.addr (omega (arith, o))

  cut-here : cut c.addr ≡ record (a.hdr c.addr) { data_size = n; end = d.addr }
  unfolding set_span write
  cut-here = ground arith

  cut-there : ((cut d.addr).data_size ≡ d.size) × ((cut d.addr).end ≡ fin d)
  cut-there = set_span_at (set_span a.hdr c.addr n d.addr) d.addr d.size (fin d)

  same-front : (b : Bool) → SameOn a.hdr cut (pick b cs)
  same-front b =
      SameOn-Inside a.hdr cut pos c.addr (pick b cs) (pick-Inside b pos c.addr cs mid.front)
        (λ x l u. cut-off x (inl u))

  same-back : (b : Bool) → SameOn a.hdr cut (pick b ds)
  same-back b =
      SameOn-Inside a.hdr cut (fin c) a.zone.end (pick b ds)
        (pick-Inside b (fin c) a.zone.end ds mid.back) (λ x l u. cut-off x (inr l))

  used_front : pick true cs1 ≡ pick true cs ++ span (kept c n) ∷ []
  used_front = pick-middle true cs (kept c n) [] is_used

  free_front : pick false cs1 ≡ pick false cs ++ []
  free_front = pick-around false cs (kept c n) [] (ap not is_used)

  blocks : Dll cut 0 a.zone.blocks (pick true cs1 ++ pick true ds)
  blocks =
      subst (Dll cut 0 a.zone.blocks)
        (sym (append_assoc (pick true cs) (span (kept c n) ∷ []) (pick true ds))
          ∙ ap (λ l. l ++ pick true ds) (sym used_front))
        (Dll-resized a.hdr cut 0 a.zone.blocks (pick true cs) (span c) (pick true ds) n d.addr
          (subst (Dll a.hdr 0 a.zone.blocks) (pick-middle true cs c ds is_used) s.blocks)
          (same-front true) (same-back true) cut-here)

  empties : Dll cut 0 a.zone.empty_spaces (pick false cs1 ++ pick false ds)
  empties =
      rw (free_front, append-nil (pick false cs))
        (Dll-frame a.hdr cut 0 a.zone.empty_spaces (pick false cs ++ pick false ds)
          (subst (Dll a.hdr 0 a.zone.empty_spaces) (pick-around false cs c ds (ap not is_used))
            s.empties)
          (All-append _ (pick false cs) (pick false ds) (same-front false) (same-back false)))

  front : Tiles pos d.addr cs1
  front = Tiles-join pos c.addr d.addr cs (kept c n ∷ []) mid.front (refl, low, omega arith)

  back : Tiles (fin d) a.zone.end ds
  back = rw (bounds.2) mid.back

  middle : Middle pos a.zone.end cs1 d ds
  middle = record { front = front; room = omega (arith, room, mid.room); back = back }

  -- The zone after the cut, with the chain `q` of its empty spaces.
  abbrev listed : Chain → Arena
  listed q = record a {
    hdr = q.hdr;
    zone = record a.zone {
      empty_spaces = q.head;
      remaining_space = add64 a.zone.remaining_space (c.size - n);
    };
  }

  listed-Stands :
      (q : Chain)
      → Dll q.hdr 0 q.head (pick false cs1 ++ span d ∷ pick false ds)
      → Dll q.hdr 0 a.zone.blocks (pick true cs1 ++ pick true ds)
      → Stands (listed q) (cs1 ++ d ∷ ds)
  listed-Stands q qe qb = record {
    self = s.self;
    tiles = Middle-Tiles pos a.zone.end cs1 d ds middle;
    top = s.top;
    blocks = subst (Dll q.hdr 0 a.zone.blocks) (sym (pick-around true cs1 d ds refl)) qb;
    empties = subst (Dll q.hdr 0 q.head) (sym (pick-middle false cs1 d ds refl)) qe;
    blocks_num = omega (
      arith,
      s.blocks_num,
      ap length (pick-middle true cs c ds is_used),
      length-append (pick true cs) (span c ∷ pick true ds),
      ap length (pick-around true cs1 d ds refl),
      length-append (pick true cs1) (pick true ds),
      ap length used_front,
      length-append (pick true cs) (span (kept c n) ∷ []),
    );
    remaining_space = omega (
      arith,
      s.remaining_space,
      s.top,
      room,
      free_bytes-used cs c ds is_used,
      free_bytes-append cs ds,
      free_bytes-free cs1 d ds refl,
      free_bytes-append cs1 ds,
      free_bytes-used cs (kept c n) [] is_used,
      free_bytes-append cs [],
      free_bytes-le pos a.zone.end (cs1 ++ d ∷ ds) (Middle-Tiles pos a.zone.end cs1 d ds middle),
    );
  }

  header : ((a.hdr c.addr).data_size ≡ c.size) × (0 < c.addr)
  header =
      let node =
        (at_middle a.hdr 0 a.zone.blocks (pick true cs) (span c) (pick true ds)
          (subst (Dll a.hdr 0 a.zone.blocks) (pick-middle true cs c ds is_used) s.blocks)).0 in
      (node.data_size, omega (arith, node.above))

  split-listed :
      (fuel : ℕ) (q : Chain)
      → insert_ordered fuel (record { hdr = cut; head = a.zone.empty_spaces }) d.addr ≡ some q
      → split_block fuel a c.addr n ≡ merge_empty_spaces fuel (listed q)
  unfolding split_block add_empty
  split-listed fuel q i = rw (header.0, leftover, long_enough, new_addr, new_size, new_end, i) refl
    where
      leftover : sub64 c.size n ≡ c.size - n
      leftover = omega (arith, room, bounds.0, bounds.1, s.top)

      long_enough : ltb (c.size - n) 48 ≡ false
      long_enough = ground arith

      new_addr : add64 (add64 c.addr 32) n ≡ d.addr
      new_addr = omega (arith, room, bounds.1, s.top)

      new_size : sub64 (c.size - n) 32 ≡ d.size
      new_size = omega (arith, room, bounds.1, s.top)

      new_end : add64 (add64 d.addr 32) d.size ≡ fin d
      new_end = omega (arith, room, bounds.1, s.top)

  enough :
      (fuel : ℕ)
      → length (cs ++ c ∷ ds) < fuel
      → (length (pick false cs1) < fuel) × (length (pick false (cs1 ++ d ∷ ds)) < fuel)
  enough fuel f = omega (
    arith,
    ap length free_front,
    length-append (pick false cs) [],
    ap length (pick-middle false cs1 d ds refl),
    length-append (pick false cs1) (span d ∷ pick false ds),
    length-append cs (c ∷ ds),
    length-pick false cs,
    length-pick false ds,
  )

  split-merge :
      (fuel : ℕ)
      → length (cs ++ c ∷ ds) < fuel
      → Added true pos a.zone.end cs1 ds d
          (omega arith)
          front
          back
          cut
          a.zone.empty_spaces
          a.zone.blocks
          fuel
      → (b : Arena) × (split_block fuel a c.addr n ≡ some b)
        × Holds b (coalesce (cs1 ++ d ∷ ds))
        × Within a b
  split-merge fuel f (q, inserted, qe, qb, qs, qo) =
      let (b, done, holds, within) =
        merge_empty_spaces-coalesce fuel (listed q) (cs1 ++ d ∷ ds) (listed-Stands q qe qb)
          (enough fuel f).1 in
      (
        b,
        split-listed fuel q inserted ∙ done,
        holds,
        record {
          self = within.self;
          start = within.start;
          end = within.end;
          type = within.type;
          total_space = within.total_space;
          prev = within.prev;
          next = within.next;
          bytes = within.bytes;
          outside = λ x p o.
              within.outside x p o
              ∙ qo x (outside-Clear false pos a.zone.end x cs1 d ds middle p o)
              ∙ cut-off x (omega (arith, o, bounds.0, bounds.1));
        },
      )

  -- In a zone that stands for cells, `split_block` of a used cell to a multiple of 16 bytes returns,
  -- where at least 48 bytes are left over. The cell keeps `n` bytes, the rest of it is a free cell behind it, and free
  -- neighbours are joined; the zone's place, its links and every header outside its bytes are as
  -- before.
  pub split_block-coalesce :
      (fuel : ℕ)
      → length (cs ++ c ∷ ds) < fuel
      → (b : Arena) × (split_block fuel a c.addr n ≡ some b)
        × Holds b (coalesce ((cs ++ kept c n ∷ []) ++ cut_off c n ∷ ds))
        × Within a b
  split_block-coalesce fuel f = split-merge fuel f (
      add_cell true pos a.zone.end cs1 ds d (omega arith) front back cut a.zone.empty_spaces
        a.zone.blocks fuel empties blocks cut-there.0 cut-there.1 (enough fuel f).0)

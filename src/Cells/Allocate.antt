-- ===== src/Cells/Allocate.antt =====
-- `allocate_from_empty` and `allocate_block` on a zone that stands for cells.
use ft_malloc.Base.{
  ℕ, suc, ◌+◌, ◌-◌, ◌%◌, ◌^◌, ◌≤◌, ◌<◌, ◌≡◌, inl, inr, refl, sym, ap, ◌∙◌, subst, true, false, List,
  ◌∷◌, ◌++◌, arith, length, length-append, some, leb, leb→le, Bool-cases, ◌>>=◌,
}
use ft_malloc.Base.Words.{add64, sub64}
use ft_malloc.Heap.{Chain, Arena}
use ft_malloc.Heap.Dll.{Dll}
use ft_malloc.Links.{insert_ordered}
use ft_malloc.Alloc.{add_block_to_list, allocate_from_empty}
use ft_malloc.Merge.{update_empty_stats}
use ft_malloc.Cells.{Whole, Cell, fin, span, pick, Tiles, free_bytes, Stands, Holds, Within}
use ft_malloc.Cells.Window.{
  Clear, Middle, Middle-Tiles, pick-middle, pick-around, outside-Clear, length-pick, free_bytes-le,
  free_bytes-free, free_bytes-used, length-middle,
}
use ft_malloc.Cells.Change.{Added, add_cell}
use ft_malloc.Cells.Place.{taken, rest, at_cut, cut, Cut, cut_lem, mid}
use ft_malloc.Cells.Stats.{update_empty_stats-Holds}

module _ (a : Arena) (cs : List Cell) (c : Cell) (ds : List Cell) (s : Stands a (cs ++ c ∷ ds))
    (is_free : c.used ≡ false) (n : ℕ) (fits : n ≤ c.size) (room : Whole n) where
  abbrev pos : ℕ
  pos = a.zone.start + 80

  m : Middle pos a.zone.end cs c ds
  m = mid a cs c ds s is_free n fits room

  abbrev behind : List Cell
  behind = rest c n ++ ds

  abbrev after : List Cell
  after = cs ++ taken c n ∷ behind

  behind-Tiles : Tiles (fin (taken c n)) a.zone.end behind
  behind-Tiles = elim (Bool-cases (leb 48 (c.size - n))) [
    | inl w ↦ rw w (
      refl,
      omega (arith, leb→le 48 (c.size - n) w, m.room),
      subst (λ p. Tiles p a.zone.end ds) (shift w) m.back,
    )
    | inr w ↦ rw w m.back
  ]
    where
      shift : leb 48 (c.size - n) ≡ true → fin c ≡ c.addr + 32 + n + 32 + (c.size - n - 32)
      shift w = omega (arith, leb→le 48 (c.size - n) w)

  taken-Middle : Middle pos a.zone.end cs (taken c n) behind
  taken-Middle = record { front = m.front; room = ground (arith, m.room); back = behind-Tiles }

  -- The zone with the new block listed and counted.
  abbrev counted : Chain → Chain → Arena
  counted r q = record a {
    hdr = q.hdr;
    zone = record a.zone {
      blocks = q.head;
      empty_spaces = r.head;
      blocks_num = (a.zone.blocks_num + 1) % 2 ^ 32;
      remaining_space = sub64 a.zone.remaining_space (add64 (taken c n).size 32);
    };
  }

  free_bytes-behind :
      free_bytes (cs ++ behind) + ((taken c n).size + 32) ≡ 32 + c.size + free_bytes (cs ++ ds)
  free_bytes-behind = elim (Bool-cases (leb 48 (c.size - n))) [
    | inl w ↦ rw w (
        omega (
          arith,
          leb→le 48 (c.size - n) w,
          free_bytes-free cs
              (record { addr = c.addr + 32 + n; size = c.size - n - 32; used = false }) ds refl,
        ))
    | inr w ↦ rw w (omega arith)
  ]

  free_bytes-after : free_bytes (cs ++ c ∷ ds) ≡ free_bytes after + ((taken c n).size + 32)
  free_bytes-after = omega (
    arith,
    free_bytes-behind,
    free_bytes-free cs c ds is_free,
    free_bytes-used cs (taken c n) behind refl,
  )

  -- The used cells are those of before, and the new one.
  used-behind : pick true behind ≡ pick true ds
  used-behind = elim (Bool-cases (leb 48 (c.size - n))) [ inl w ↦ rw w | inr w ↦ rw w ]

  counted-Stands :
      (r q : Chain)
      → Dll q.hdr 0 q.head (pick true cs ++ span (taken c n) ∷ pick true behind)
      → Dll q.hdr 0 r.head (pick false cs ++ pick false behind)
      → Stands (counted r q) after
  counted-Stands r q qb qe = record {
    self = s.self;
    tiles = Middle-Tiles pos a.zone.end cs (taken c n) behind taken-Middle;
    top = s.top;
    blocks = subst (Dll q.hdr 0 q.head) (sym (pick-middle true cs (taken c n) behind refl)) qb;
    empties = subst (Dll q.hdr 0 r.head) (sym (pick-around false cs (taken c n) behind refl)) qe;
    blocks_num = omega (
      arith,
      s.blocks_num,
      ap length (pick-around true cs c ds is_free),
      ap length (pick-middle true cs (taken c n) behind refl),
      length-middle (pick true cs) (span (taken c n)) (pick true behind),
      ap (λ l. length (pick true cs ++ l)) used-behind,
    );
    remaining_space = omega (
      arith,
      s.remaining_space,
      s.top,
      free_bytes-after,
      free_bytes-le pos a.zone.end (cs ++ c ∷ ds) s.tiles,
    );
  }

  placed :
      (fuel : ℕ) (r q : Chain)
      → at_cut a cs c ds s is_free n fits room ≡ cut a cs c ds s is_free n fits room r
      → insert_ordered fuel (record { hdr = r.hdr; head = a.zone.blocks }) c.addr ≡ some q
      → (q.hdr c.addr).data_size ≡ (taken c n).size
      → allocate_from_empty fuel a c.addr n
        ≡ (update_empty_stats fuel (counted r q) >>= λ done. some (done, c.addr))
  unfolding allocate_from_empty add_block_to_list
  placed fuel r q e i size = rw (e, i, size) refl

  length-after : length after ≤ suc (length (cs ++ c ∷ ds))
  length-after = omega (
    arith,
    length-append cs (taken c n ∷ behind),
    length-append cs (c ∷ ds),
    length-append (rest c n) ds,
    length-rest,
  )
    where
      length-rest : length (rest c n) ≤ 1
      length-rest = elim (Bool-cases (leb 48 (c.size - n))) [
        | inl w ↦ rw w (omega arith)
        | inr w ↦ rw w (omega arith)
      ]

  -- What the allocation of a cell achieves.
  abbrev pub Allocated : ℕ → Type 0
  Allocated fuel =
      (b : Arena) × (allocate_from_empty fuel a c.addr n ≡ some (b, c.addr))
      × Holds b after
      × Within a b

  allocate-Added :
      (fuel : ℕ)
      → suc (length (cs ++ c ∷ ds)) < fuel
      → (r : Chain) → at_cut a cs c ds s is_free n fits room ≡ cut a cs c ds s is_free n fits room r
      → (r.hdr c.addr).data_size ≡ (taken c n).size
      → ((x : ℕ) → Clear (pick false cs) (pick false ds) c.addr (fin c) x → r.hdr x ≡ a.hdr x)
      → Added false pos a.zone.end cs behind
          (taken c n)
          (omega arith)
          m.front
          behind-Tiles
          r.hdr
          a.zone.blocks
          r.head
          fuel
      → Allocated fuel
  allocate-Added fuel f r e size same (q, inserted, qb, qe, qs, qo) =
      let (b, done, holds, within) =
        update_empty_stats-Holds fuel (counted r q) after (counted-Stands r q qb qe)
          (omega (arith, length-pick false after, length-after)) in
      (
        b,
        rw (placed fuel r q e inserted ((qs c.addr).0 ∙ size), done) refl,
        holds,
        record {
          self = within.self;
          start = within.start;
          end = within.end;
          type = within.type;
          total_space = within.total_space;
          prev = within.prev;
          next = within.next;
          bytes = within.bytes;
          outside = λ x p o.
              within.outside x p o
              ∙ qo x (outside-Clear true pos a.zone.end x cs (taken c n) behind taken-Middle p o)
              ∙ same x (outside-Clear false pos a.zone.end x cs c ds m p o);
        },
      )

  allocate-cut :
      (fuel : ℕ)
      → suc (length (cs ++ c ∷ ds)) < fuel
      → Cut a cs c ds s is_free n fits room
      → Allocated fuel
  allocate-cut fuel f (r, e, re, rb, size, stop, same) = allocate-Added fuel f r e size same (
      add_cell false pos a.zone.end cs behind (taken c n) (omega arith) m.front behind-Tiles r.hdr
        a.zone.blocks r.head fuel rb re size stop
        (omega (arith, length-pick true cs, length-append cs (c ∷ ds))))

  -- In a zone that stands for cells, `allocate_from_empty` returns for a free cell that is large
  -- enough. The cell is used then, and what is left of it, if a header and 16 bytes fit, is a free
  -- cell behind it; counters are right, and nothing outside the zone's bytes has changed.
  pub allocate_from_empty-Holds : (fuel : ℕ) → suc (length (cs ++ c ∷ ds)) < fuel → Allocated fuel
  allocate_from_empty-Holds fuel f = allocate-cut fuel f (cut_lem a cs c ds s is_free n fits room)

-- ===== src/Cells/Place.antt =====
-- `allocate_from_empty` on a zone that stands for cells.
use ft_malloc.Base.{
  ℕ, ◌+◌, ◌-◌, ◌^◌, ◌≤◌, ◌<◌, ◌≡◌, ◌⊎◌, inl, inr, refl, ap, ◌∙◌, subst, true, false, not, List, [],
  ◌∷◌, ◌++◌, arith, leb, ◌==◌, if◌then◌else◌, Bool-cases, leb→le,
}
use ft_malloc.Sizes.{empty}
use ft_malloc.Heap.{
  Headers, Block, Chain, Arena, write, write_at, write_off, set_span_at, set_span_off, set_span,
}
use ft_malloc.Heap.Dll.{Span, Dll}
use ft_malloc.Links.{stack, exchange, remove_block, replace_block}
use ft_malloc.Links.Remove.{at_middle}
use ft_malloc.Alloc.{update_empty_spaces, leftover_header, block_header}
use ft_malloc.Cells.{Whole, Cell, fin, span, pick, Stands}
use ft_malloc.Cells.Window.{Clear, Middle, Tiles-Middle, pick-middle, pick-around, Tiles-le}
use ft_malloc.Cells.Change.{DroppedCopy, Swapped, drop_copy, swap_copy}

-- The cell for a request of `n` bytes: all of `c`, unless a header and 16 bytes are left over.
abbrev pub taken : Cell → ℕ → Cell
taken c n = record {
  addr = c.addr;
  size = (if leb 48 (c.size - n) then n else c.size);
  used = true;
}

-- What is left of `c`.
abbrev pub rest : Cell → ℕ → List Cell
rest c n =
    if leb 48 (c.size - n)
    then record { addr = c.addr + 32 + n; size = c.size - n - 32; used = false } ∷ []
    else []

module _ (a : Arena) (cs : List Cell) (c : Cell) (ds : List Cell) (s : Stands a (cs ++ c ∷ ds))
    (is_free : c.used ≡ false) (n : ℕ) (fits : n ≤ c.size) (room : Whole n) where
  abbrev pub pos : ℕ
  pos = a.zone.start + 80

  pub mid : Middle pos a.zone.end cs c ds
  mid = Tiles-Middle pos a.zone.end cs c ds s.tiles

  blocks : Dll a.hdr 0 a.zone.blocks (pick true cs ++ pick true ds)
  blocks = subst (Dll a.hdr 0 a.zone.blocks) (pick-around true cs c ds is_free) s.blocks

  empties : Dll a.hdr 0 a.zone.empty_spaces (pick false cs ++ span c ∷ pick false ds)
  empties =
      subst (Dll a.hdr 0 a.zone.empty_spaces) (pick-middle false cs c ds (ap not is_free)) s.empties

  pub header : ((a.hdr c.addr).data_size ≡ c.size) × ((a.hdr c.addr).end ≡ fin c) × (0 < c.addr)
  header =
      let node =
        (at_middle a.hdr 0 a.zone.empty_spaces (pick false cs) (span c) (pick false ds)
          empties).0 in
      (node.data_size, node.end, omega (arith, node.above))

  pub bound : fin c < 2 ^ 64
  bound = omega (arith, Tiles-le (fin c) a.zone.end ds mid.back, s.top)

  abbrev pub old : Block
  old = leftover_header (a.hdr c.addr) n

  abbrev pub new : Block
  new = block_header (a.hdr c.addr) c.addr n

  -- The two headers that are computed first.
  old_lem :
      (old.data_size ≡ (if leb 48 (c.size - n) then c.size - n - 32 else 0))
      × (old.end ≡ fin c)
      × (old.prev ≡ (a.hdr c.addr).prev)
      × (old.next ≡ (a.hdr c.addr).next)
  unfolding leftover_header
  old_lem = ground (arith, header, bound)

  new_lem : (new.data_size ≡ (taken c n).size) × (new.end ≡ fin (taken c n))
  unfolding block_header
  new_lem = ground (arith, old_lem, header, bound)

  -- The arena once the free list is right: its headers, and the head of that list.
  abbrev pub cut : Chain → Arena
  cut r = record a { hdr = r.hdr; zone = record a.zone { empty_spaces = r.head } }

  abbrev pub at_cut : Arena
  at_cut = update_empty_spaces (record a { hdr = write a.hdr c.addr new }) old c.addr

  -- What `update_empty_spaces` achieves.
  abbrev pub Cut : Type 0
  Cut =
      (r : Chain) × (at_cut ≡ cut r)
      × Dll r.hdr 0 r.head (pick false cs ++ pick false (rest c n ++ ds))
      × Dll r.hdr 0 a.zone.blocks (pick true cs ++ pick true (rest c n ++ ds))
      × ((r.hdr c.addr).data_size ≡ (taken c n).size)
      × ((r.hdr c.addr).end ≡ fin (taken c n))
      × ((x : ℕ) → Clear (pick false cs) (pick false ds) c.addr (fin c) x → r.hdr x ≡ a.hdr x)

  -- Nothing is left over: the copy of the header leaves the list.
  cut_whole :
      leb 48 (c.size - n) ≡ false
      → DroppedCopy true pos a.zone.end cs ds c
          (omega arith)
          mid.front
          mid.back
          a.hdr
          (write a.hdr c.addr new)
          old
          a.zone.empty_spaces
          a.zone.blocks
      → Cut
  unfolding update_empty_spaces remove_block write
  cut_whole w (r, e, rf, rb, keeps, same) = (
    r,
    ground (arith, s.self, old_lem, w, e),
    rw w rf,
    rw w rb,
    (keeps c.addr).0 ∙ ground (arith, new_lem),
    (keeps c.addr).1 ∙ ground (arith, new_lem),
    same,
  )

  abbrev left_cell : Cell
  left_cell = record { addr = c.addr + 32 + n; size = c.size - n - 32; used = false }

  abbrev left : Span
  left = span left_cell

  abbrev split_headers : Headers
  split_headers = set_span (write a.hdr c.addr new) left.addr left.size left.fin

  split_at_cell : split_headers c.addr ≡ new
  split_at_cell =
      set_span_off (write a.hdr c.addr new) left.addr c.addr left.size left.fin (omega arith)
      ∙ write_at a.hdr c.addr new

  split_off :
      (x : ℕ) → (x < c.addr) ⊎ (fin c ≤ x) → leb 48 (c.size - n) ≡ true → split_headers x ≡ a.hdr x
  split_off x w l =
      set_span_off (write a.hdr c.addr new) left.addr x left.size left.fin
        (omega (arith, leb→le 48 (c.size - n) l))
      ∙ write_off a.hdr c.addr x new (omega arith)

  module _ (w : leb 48 (c.size - n) ≡ true) where
    split_facts :
        ((old.data_size == 0) ≡ false)
        × (old.data_size ≡ left.size)
        × (old.end ≡ left.fin)
        × (new.end ≡ left.addr)
    split_facts = (
      ground (arith, old_lem),
      ground (arith, old_lem),
      ground (arith, old_lem),
      ground (arith, new_lem),
    )

    -- Something is left over: its header takes the place of the copy.
    replaced :
        (r : Chain)
        → exchange
            (record { hdr = split_headers; head = a.zone.empty_spaces })
            (stack old)
            left.addr
          ≡ r
        → replace_block (record a { hdr = split_headers }) (stack old) left.addr empty ≡ cut r
    unfolding replace_block
    replaced r e = ground (arith, s.self, e)

    at_cut_split :
        at_cut ≡ replace_block (record a { hdr = split_headers }) (stack old) left.addr empty
    unfolding update_empty_spaces
    at_cut_split = rw (split_facts.0, write_at, split_facts.3, split_facts.1, split_facts.2) refl

    cut_split :
        Swapped true pos a.zone.end cs ds c
          (omega arith)
          mid.front
          mid.back
          a.hdr
          split_headers
          old
          left
          a.zone.empty_spaces
          a.zone.blocks
        → Cut
    cut_split (r, e, rf, rb, keeps, same) = (
      r,
      at_cut_split ∙ replaced r e,
      rw w rf,
      rw w rb,
      (keeps c.addr).0 ∙ ap (λ (b : Block). b.data_size) split_at_cell ∙ new_lem.0,
      (keeps c.addr).1 ∙ ap (λ (b : Block). b.end) split_at_cell ∙ new_lem.1,
      same,
    )

  pub cut_lem : Cut
  cut_lem = elim (Bool-cases (leb 48 (c.size - n))) [
    | inl w ↦ cut_split w (
        swap_copy true pos a.zone.end cs ds c (omega arith) mid.front mid.back a.hdr split_headers
          old left a.zone.empty_spaces a.zone.blocks empties blocks (λ x o. split_off x o w)
          (old_lem.2, old_lem.3) (omega arith, omega (arith, leb→le 48 (c.size - n) w))
          (set_span_at (write a.hdr c.addr new) left.addr left.size left.fin))
    | inr w ↦ cut_whole w (
        drop_copy true pos a.zone.end cs ds c (omega arith) mid.front mid.back a.hdr
          (write a.hdr c.addr new) old a.zone.empty_spaces a.zone.blocks empties blocks
          (λ x o. write_off a.hdr c.addr x new (omega arith)) (old_lem.2, old_lem.3))
  ]

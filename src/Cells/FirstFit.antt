-- ===== src/Cells/FirstFit.antt =====
-- `find_empty_space` takes the first free cell that is large enough, and `allocate_block` uses it.
use ft_malloc.Base.{
  le→leb, ◌+◌, ℕ, zero, suc, ◌≤◌, ◌<◌, ◌≡◌, ◌⊎◌, inl, inr, refl, ap, subst, true, false, List, [],
  ◌∷◌, ◌++◌, arith, length, All, some, leb, leb→le, ne→==, Bool-cases, if◌then◌else◌,
}
use ft_malloc.Heap.{Headers, Arena}
use ft_malloc.Heap.Dll.{Span, Dll}
use ft_malloc.Alloc.{find_loop, find_empty_space, allocate_from_empty, allocate_block}
use ft_malloc.Cells.{Asked, Asked-Whole, fin, Cell, pick, Stands, Holds, Within}
use ft_malloc.Cells.Window.{Tiles-Middle, Tiles-le, length-pick}
use ft_malloc.Cells.Place.{taken, rest, header}
use ft_malloc.Cells.Allocate.{allocate_from_empty-Holds}

-- The address of the first span of at least `n` bytes, or NULL.
pub first_addr : ℕ → List Span → ℕ
first_addr n [] = 0
first_addr n (s ∷ ss) = if leb n s.size then s.addr else first_addr n ss

find_loop-first_addr :
    (k : ℕ) (h : Headers) (p a n : ℕ) (ss : List Span)
    → Dll h p a ss
    → length ss < k
    → find_loop k h a n ≡ some (first_addr n ss)
unfolding find_loop first_addr
find_loop-first_addr zero h p a n ss d f = absurd (omega arith)
find_loop-first_addr (suc k) h p a n [] d f = ground arith
find_loop-first_addr (suc k) h p a n (s ∷ ss) d f =
    rw (d.0.here, d.0.data_size)
      (ground (arith, d.0.above, find_loop-first_addr k h s.addr (h s.addr).next n ss d.1))

find_empty_space-first_addr :
    (fuel : ℕ) (a : Arena) (n : ℕ) (ss : List Span)
    → Dll a.hdr 0 a.zone.empty_spaces ss
    → length ss < fuel
    → find_empty_space fuel a n ≡ some (first_addr n ss)
unfolding find_empty_space first_addr
find_empty_space-first_addr fuel a n [] d f = ground arith
find_empty_space-first_addr fuel a n (s ∷ ss) d f = ground (
  arith,
  d.0.here,
  d.0.above,
  find_loop-first_addr fuel a.hdr 0 a.zone.empty_spaces n (s ∷ ss) d f,
)

-- No span has `n` bytes.
abbrev pub AllBelow : ℕ → List Span → Type 0
AllBelow n = All (λ s. s.size < n)

-- The first free cell of at least `n` bytes, with the cells around it.
pub record FirstFit (n : ℕ) (cs : List Cell) (front : List Cell) (c : Cell) (back : List Cell)
    : Type 0 where
  pub split : cs ≡ front ++ c ∷ back
  pub is_free : c.used ≡ false
  pub fits : n ≤ c.size
  pub smaller : AllBelow n (pick false front)
  pub found : first_addr n (pick false cs) ≡ c.addr

abbrev Search : ℕ → List Cell → Type 0
Search n cs =
    AllBelow n (pick false cs) × (first_addr n (pick false cs) ≡ 0)
    ⊎ ((front : List Cell) × (c : Cell) × (back : List Cell) × FirstFit n cs front c back)

Search-skip :
    (n : ℕ) (c : Cell) (cs : List Cell)
    → (c.used ≡ true) ⊎ (c.used ≡ false) × (c.size < n)
    → Search n cs
    → Search n (c ∷ cs)
unfolding first_addr
Search-skip n c cs (inl u) (inl r) = inl (rw u (r.0), rw u (r.1))
Search-skip n c cs (inr (u, l)) (inl r) = inl (rw u (l, r.0), ground (arith, r.1))
Search-skip n c cs (inl u) (inr (front, d, back, r)) = inr (
  c ∷ front,
  d,
  back,
  record {
    split = ap (◌∷◌ c) r.split;
    is_free = r.is_free;
    fits = r.fits;
    smaller = rw u (r.smaller);
    found = rw u (r.found);
  },
)
Search-skip n c cs (inr (u, l)) (inr (front, d, back, r)) = inr (
  c ∷ front,
  d,
  back,
  record {
    split = ap (◌∷◌ c) r.split;
    is_free = r.is_free;
    fits = r.fits;
    smaller = rw u (l, r.smaller);
    found = ground (arith, r.found);
  },
)

Search-here : (n : ℕ) (c : Cell) (cs : List Cell) → c.used ≡ false → n ≤ c.size → Search n (c ∷ cs)
unfolding first_addr
Search-here n c cs u l =
    inr (
      [],
      c,
      cs,
      record { split = refl; is_free = u; fits = l; smaller = tt; found = ground arith },
    )

find_cell : (n : ℕ) (cs : List Cell) → Search n cs
unfolding first_addr
find_cell n [] = inl (tt, refl)
find_cell n (c ∷ cs) = elim (Bool-cases c.used) [
  | inl u ↦ Search-skip n c cs (inl u) (find_cell n cs)
  | inr u ↦ elim (Bool-cases (leb n c.size)) [
    | inl l ↦ Search-here n c cs u (leb→le n c.size l)
    | inr l ↦ Search-skip n c cs (inr (u, ground arith)) (find_cell n cs)
  ]
]

-- Either no free cell has `n` bytes, and `allocate_block` gives NULL and leaves the zone alone; or
-- it takes the first that has, and the zone stands for the cells with that one divided.
abbrev pub FirstFitResult : ℕ → Arena → List Cell → ℕ → Type 0
FirstFitResult fuel a cs n =
    AllBelow n (pick false cs) × (allocate_block fuel a n ≡ some (a, 0))
    ⊎ ((front : List Cell) × (c : Cell) × (back : List Cell) × FirstFit n cs front c back
        × ((b : Arena) × (allocate_block fuel a n ≡ some (b, c.addr))
            × Holds b (front ++ taken c n ∷ (rest c n ++ back))
            × Within a b))

-- A lone span that is large enough is found.
pub first_addr-sole :
    (n size a : ℕ)
    → n ≤ size
    → first_addr n (record { addr = a; size = size; fin = a + 32 + size } ∷ []) ≡ a
unfolding first_addr
first_addr-sole n size a l = rw (le→leb n size l) refl

pub allocate-found :
    (fuel : ℕ) (a : Arena) (cs : List Cell) (n : ℕ) (s : Stands a cs)
    → suc (length cs) < fuel
    → (front : List Cell) (c : Cell) (back : List Cell) → FirstFit n cs front c back
    → 0 < c.addr
    → (b : Arena) × (allocate_from_empty fuel a c.addr n ≡ some (b, c.addr))
      × Holds b (front ++ taken c n ∷ (rest c n ++ back))
      × Within a b
    → (b : Arena) × (allocate_block fuel a n ≡ some (b, c.addr))
      × Holds b (front ++ taken c n ∷ (rest c n ++ back))
      × Within a b
unfolding allocate_block
allocate-found fuel a cs n s f front c back r pos (b, run, holds, within) = (
  b,
  rw
      (
        find_empty_space-first_addr fuel a n (pick false cs) s.empties
            (omega (arith, length-pick false cs)),
        r.found,
        ne→== c.addr 0 (omega arith),
        run,
      )
      refl,
  holds,
  within,
)

allocate-at :
    (fuel : ℕ) (a : Arena) (cs : List Cell) (n : ℕ)
    → Stands a cs
    → Asked n
    → suc (length cs) < fuel
    → Search n cs
    → FirstFitResult fuel a cs n
unfolding allocate_block
allocate-at fuel a cs n s l f (inl r) = inl (
  r.0,
  rw
      (
        find_empty_space-first_addr fuel a n (pick false cs) s.empties
            (omega (arith, length-pick false cs)),
        r.1,
      )
      refl,
)
allocate-at fuel a cs n s l f (inr (front, c, back, r)) =
    let s' : Stands a (front ++ c ∷ back) = subst (Stands a) r.split s in
    let f' : suc (length (front ++ c ∷ back)) < fuel =
      subst (λ l. suc (length l) < fuel) r.split f in
    let m = Tiles-Middle (a.zone.start + 80) a.zone.end front c back s'.tiles in
    let whole = Asked-Whole n c.size l r.fits (
      omega (
        arith,
        s'.top,
        Tiles-le (fin c) a.zone.end back m.back,
        Tiles-le (a.zone.start + 80) c.addr front m.front,
      )) in
    inr (
      front,
      c,
      back,
      r,
      allocate-found fuel a cs n s f front c back r
          ((header a front c back s' r.is_free n r.fits whole).2)
          (allocate_from_empty-Holds a front c back s' r.is_free n r.fits whole fuel f'),
    )

-- In a zone that stands for cells, `allocate_block` for an aligned size gives NULL and leaves the zone
-- as it is, if no free cell is large enough; otherwise it returns the first free cell that is, the
-- zone then stands for the cells with that one divided, and nothing outside the zone has changed.
pub allocate_block-first_fit :
    (fuel : ℕ) (a : Arena) (cs : List Cell) (n : ℕ)
    → Stands a cs
    → Asked n
    → suc (length cs) < fuel
    → FirstFitResult fuel a cs n
allocate_block-first_fit fuel a cs n s l f = allocate-at fuel a cs n s l f (find_cell n cs)

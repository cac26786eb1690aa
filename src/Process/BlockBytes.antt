-- ===== src/Process/BlockBytes.antt =====
-- The bytes of the blocks in use, headers included, in zones that are apart.
use ft_malloc.Base.{
  ℕ, ◌+◌, ◌≤◌, inl, inr, true, List, [], ◌∷◌, ◌++◌, map, All, arith, Bool-cases, map-append, ◌≢◌,
}
use ft_malloc.Heap.Dll.{Span}
use ft_malloc.Cells.{Cell, pick, span, Tiles}
use ft_malloc.Cells.Window.{All-append, Tiles-le}
use ft_malloc.Zones.{State}
use ft_malloc.Process.{Region, bounds, InPlace, Apart, Separate, used_blocks}
use ft_malloc.Process.Lists.{All-bounds}

-- The bytes of a block, from its header on.
abbrev pub block_bytes : Span → ℕ × ℕ
block_bytes s = (s.addr, s.addr + 32 + s.size)

abbrev pub Between : (lo hi : ℕ) → Span → Type 0
Between lo hi s = (lo ≤ s.addr) × (s.addr + 32 + s.size ≤ hi)

pub used-Between :
    (lo pos hi : ℕ) (cs : List Cell)
    → lo ≤ pos
    → Tiles pos hi cs
    → All (Between lo hi) (pick true cs)
used-Between lo pos hi [] l t = tt
used-Between lo pos hi (c ∷ cs) l t =
    let later = used-Between lo (pos + 32 + c.size) hi cs (omega (arith, l)) t.2 in
    elim (Bool-cases c.used) [
      | inr free ↦ rw free later
      | inl used ↦ rw used (omega (arith, l, t.0, Tiles-le (pos + 32 + c.size) hi cs t.2), later)
    ]

Between-Apart :
    (s : Span) (lo hi : ℕ) (ss : List Span)
    → s.addr + 32 + s.size ≤ lo
    → All (Between lo hi) ss
    → All (Apart (block_bytes s)) (map block_bytes ss)
Between-Apart s lo hi [] l a = tt
Between-Apart s lo hi (t ∷ ss) l a = (inl (omega (arith, l, a.0)), Between-Apart s lo hi ss l a.1)

used-Separate :
    (pos hi : ℕ) (cs : List Cell) → Tiles pos hi cs → Separate (map block_bytes (pick true cs))
used-Separate pos hi [] t = tt
used-Separate pos hi (c ∷ cs) t = elim (Bool-cases c.used) [
  | inr free ↦ rw free (used-Separate (pos + 32 + c.size) hi cs t.2)
  | inl used ↦ rw used (
    Between-Apart (span c) (pos + 32 + c.size) hi (pick true cs) (omega (arith, t.0))
        (used-Between (pos + 32 + c.size) (pos + 32 + c.size) hi cs (omega arith) t.2),
    used-Separate (pos + 32 + c.size) hi cs t.2,
  )
]

Separate-append :
    (xs ys : List (ℕ × ℕ))
    → Separate xs
    → Separate ys
    → All (λ x. All (Apart x) ys) xs
    → Separate (xs ++ ys)
Separate-append [] ys s t a = t
Separate-append (x ∷ xs) ys s t a =
    (All-append (Apart x) xs ys s.0 a.0, Separate-append xs ys s.1 t a.1)

module _ (st : State) where
  -- The blocks of zones that are apart from `r` are apart from all between its bounds.
  others_apart :
      (s : Span) (r : Region) (rs : List Region)
      → Between r.addr r.limit s
      → All (λ t. Apart (bounds r) (bounds t)) rs
      → All (InPlace st) rs
      → All (Apart (block_bytes s)) (map block_bytes (used_blocks rs))
  others_apart s r [] b a p = tt
  others_apart s r (t ∷ rs) b a p =
      let inside =
        used-Between t.addr ((st.zone t.addr).start + 80) (st.zone t.addr).end t.cells
          (omega (arith, p.0.start)) p.0.stands.tiles in
      rw (map-append block_bytes (pick true t.cells) (used_blocks rs)) (
        All-append (Apart (block_bytes s)) (map block_bytes (pick true t.cells))
          (map block_bytes (used_blocks rs)) (zone_apart (pick true t.cells) inside)
          (others_apart s r rs b a.1 p.1))
    where
      zone_apart :
          (ss : List Span)
          → All (Between t.addr (st.zone t.addr).end) ss
          → All (Apart (block_bytes s)) (map block_bytes ss)
      zone_apart [] i = tt
      zone_apart (u ∷ ss) i = (ground (arith, a.0, b, i.0, p.0.end), zone_apart ss i.1)

  pub used_blocks-Separate :
      (rs : List Region)
      → Separate (map bounds rs)
      → All (InPlace st) rs
      → Separate (map block_bytes (used_blocks rs))
  used_blocks-Separate [] s p = tt
  used_blocks-Separate (r ∷ rs) s p =
      let inside =
        used-Between r.addr ((st.zone r.addr).start + 80) (st.zone r.addr).end r.cells
          (omega (arith, p.0.start)) p.0.stands.tiles in
      rw (map-append block_bytes (pick true r.cells) (used_blocks rs)) (
        Separate-append (map block_bytes (pick true r.cells)) (map block_bytes (used_blocks rs))
          (used-Separate ((st.zone r.addr).start + 80) (st.zone r.addr).end r.cells
            p.0.stands.tiles)
          (used_blocks-Separate rs s.1 p.1) (each (pick true r.cells) inside))
    where
      each :
          (ss : List Span)
          → All (Between r.addr (st.zone r.addr).end) ss
          → All (λ x. All (Apart x) (map block_bytes (used_blocks rs))) (map block_bytes ss)
      each [] i = tt
      each (u ∷ ss) i = (
        others_apart u r rs (omega (arith, i.0, p.0.end)) (All-bounds (Apart (bounds r)) rs s.0)
            p.1,
        each ss i.1,
      )

Apart-All :
    (s t : Span) (ss : List Span)
    → All (Apart (block_bytes s)) (map block_bytes (t ∷ ss))
    → s.addr ≢ t.addr
Apart-All s t ss a = λ e. ground (arith, a.0, e)

others-All :
    (t : Span) (ss : List Span)
    → All (Apart (block_bytes t)) (map block_bytes ss)
    → All (λ (s : Span). s.addr ≢ t.addr) ss
others-All t [] a = tt
others-All t (s ∷ ss) a = (λ e. ground (arith, a.0, e), others-All t ss a.1)

-- A block among blocks that are apart begins where none of the others begins.
pub Separate-others :
    (us : List Span) (t : Span) (vs : List Span)
    → Separate (map block_bytes (us ++ t ∷ vs))
    → All (λ (s : Span). s.addr ≢ t.addr) (us ++ vs)
Separate-others [] t vs d = others-All t vs d.0
Separate-others (u ∷ us) t vs d = (first us d.0, Separate-others us t vs d.1)
  where
    first :
        (ss : List Span)
        → All (Apart (block_bytes u)) (map block_bytes (ss ++ t ∷ vs))
        → u.addr ≢ t.addr
    first [] a = Apart-All u t vs a
    first (s ∷ ss) a = first ss a.1

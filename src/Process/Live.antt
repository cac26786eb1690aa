-- ===== src/Process/Live.antt =====
-- The blocks in use, zone by zone: where one is, and how `find_zone_for_ptr` gets to its zone.
use ft_malloc.Base.{
  ℕ, ◌+◌, ◌^◌, ◌<◌, ◌≤◌, ◌≡◌, ◌≢◌, ◌⊎◌, inl, inr, refl, sym, ap, ◌∙◌, subst, true, false, List, [],
  ◌∷◌, ◌++◌, All, arith, ◌==◌, Bool-cases, append_assoc,
}
use ft_malloc.Heap.Dll.{Span}
use ft_malloc.Cells.{Whole, Cell, fin, pick, Tiles}
use ft_malloc.Cells.Window.{All-append, Tiles-Middle, Tiles-le}
use ft_malloc.Zones.{State}
use ft_malloc.Zones.Lookup.{holder, begins}
use ft_malloc.Process.{Region, bounds, InPlace, Apart, used_blocks}
use ft_malloc.Process.Find.{addrs, UsedAt, begins-UsedAt}

-- A used cell of a zone, with the zones and the cells around it.
pub record LiveAt (rs : List Region) (b : ℕ) : Type 0 where
  pub front : List Region
  pub region : Region
  pub back : List Region
  pub split : rs ≡ front ++ region ∷ back
  pub cell : UsedAt region.cells b

LiveAt-cons : (r : Region) (rs : List Region) (b : ℕ) → LiveAt rs b → LiveAt (r ∷ rs) b
LiveAt-cons r rs b l = record {
  front = r ∷ l.front;
  region = l.region;
  back = l.back;
  split = ap (◌∷◌ r) l.split;
  cell = l.cell;
}

begins-All : (b : ℕ) (ss : List Span) → begins b ss ≡ false → All (λ s. s.addr ≢ b) ss
begins-All b [] e = tt
begins-All b (s ∷ ss) e = elim (Bool-cases (s.addr == b)) [
  | inl at ↦ absurd (cc (rw at at e))
  | inr other ↦ (ground (arith, other), begins-All b ss (rw other at e))
]

-- A header is that of a block in use, or of none.
pub find_live : (b : ℕ) (rs : List Region) → All (λ s. s.addr ≢ b) (used_blocks rs) ⊎ LiveAt rs b
find_live b [] = inl tt
find_live b (r ∷ rs) = elim (Bool-cases (begins b (pick true r.cells))) [
  | inl e ↦
      inr (record {
        front = [];
        region = r;
        back = rs;
        split = refl;
        cell = begins-UsedAt r.cells b e;
      })
  | inr e ↦ elim (find_live b rs) [
    | inl others ↦ inl (
        All-append (λ s. s.addr ≢ b) (pick true r.cells) (used_blocks rs)
          (begins-All b (pick true r.cells) e) others)
    | inr l ↦ inr (LiveAt-cons r rs b l)
  ]
]

pub used_blocks-append :
    (rs ss : List Region) → used_blocks (rs ++ ss) ≡ used_blocks rs ++ used_blocks ss
used_blocks-append [] ss = refl
used_blocks-append (r ∷ rs) ss =
    ap (◌++◌ (pick true r.cells)) (used_blocks-append rs ss)
    ∙ sym (append_assoc (pick true r.cells) (used_blocks rs) (used_blocks ss))

-- The blocks in use with the part `xs ++ m ++ ys` of one zone in their middle.
pub used_blocks-middle :
    (front : List Region) (r : Region) (back : List Region) (xs m ys : List Span)
    → pick true r.cells ≡ xs ++ (m ++ ys)
    → used_blocks (front ++ r ∷ back) ≡ (used_blocks front ++ xs) ++ (m ++ (ys ++ used_blocks back))
used_blocks-middle front r back xs m ys e =
    used_blocks-append front (r ∷ back)
    ∙ ap (λ l. used_blocks front ++ (l ++ used_blocks back)) e
    ∙ ap (◌++◌ (used_blocks front)) (append_assoc xs (m ++ ys) (used_blocks back))
    ∙ ap (λ l. used_blocks front ++ (xs ++ l)) (append_assoc m ys (used_blocks back))
    ∙ sym (append_assoc (used_blocks front) xs (m ++ (ys ++ used_blocks back)))

-- Where a cell of a zone lies.
pub cell_range :
    (st : State) (r : Region) (cs : List Cell) (c : Cell) (ds : List Cell)
    → InPlace st r
    → r.cells ≡ cs ++ c ∷ ds
    → (r.addr + 80 ≤ c.addr) × Whole c.size × (fin c ≤ r.limit) × (r.limit < 2 ^ 64)
cell_range st r cs c ds p e =
    let m =
      Tiles-Middle ((st.zone r.addr).start + 80) (st.zone r.addr).end cs c ds
        (subst (Tiles ((st.zone r.addr).start + 80) (st.zone r.addr).end) e p.stands.tiles) in
    omega (
      arith,
      p.start,
      p.end,
      m.room,
      p.stands.top,
      Tiles-le ((st.zone r.addr).start + 80) c.addr cs m.front,
      Tiles-le (fin c) (st.zone r.addr).end ds m.back,
    )

-- The search finds the zone that a pointer into its bytes belongs to.
pub holder-inside :
    (st : State) (front : List Region) (r : Region) (back : List Region) (ptr : ℕ)
    → All (InPlace st) (front ++ r ∷ back)
    → All (λ s. Apart (bounds r) (bounds s)) front
    → r.addr ≤ ptr
    → ptr < r.limit
    → holder st.zone (addrs (front ++ r ∷ back)) ptr ≡ r.addr
holder-inside st [] r back ptr p a l u = ground (arith, p.0.start, p.0.end)
holder-inside st (s ∷ front) r back ptr p a l u =
    ground (arith, p.0.start, p.0.end, a.0, holder-inside st front r back ptr p.1 a.1 l u)

-- ===== src/Cells/Window.antt =====
-- Cells on the two sides of one cell: where their headers lie, and which lists they avoid.
use ft_malloc.Base.{
  ℕ, suc, ◌+◌, ◌≤◌, ◌<◌, ◌≡◌, ◌⊎◌, inl, inr, refl, sym, ap, ◌∙◌, subst, Bool, true, false, not,
  List, [], ◌∷◌, ◌++◌, arith, length, length-append, All, Bool-cases,
}
use ft_malloc.Heap.{Headers}
use ft_malloc.Heap.Dll.{Span, Dll}
use ft_malloc.Heap.Splice.{Avoids, last}
use ft_malloc.Links.Insert.{Beyond}
use ft_malloc.Cells.{Whole, Cell, fin, span, same, pick, Tiles, free_bytes}

pub pick-append : (b : Bool) (cs ds : List Cell) → pick b (cs ++ ds) ≡ pick b cs ++ pick b ds
pick-append b [] ds = refl
pick-append b (c ∷ cs) ds = elim (Bool-cases (same b c.used)) [
  | inl e ↦ rw e (ap (◌∷◌ (span c)) (pick-append b cs ds))
  | inr e ↦ rw e (pick-append b cs ds)
]

pub free_bytes-append : (cs ds : List Cell) → free_bytes (cs ++ ds) ≡ free_bytes cs + free_bytes ds
free_bytes-append [] ds = omega arith
free_bytes-append (c ∷ cs) ds = ground (arith, free_bytes-append cs ds)

-- A tiling is cut at a cell.
pub Tiles-cut :
    (pos end : ℕ) (cs ds : List Cell)
    → Tiles pos end (cs ++ ds)
    → (mid : ℕ) × Tiles pos mid cs × Tiles mid end ds
Tiles-cut pos end [] ds t = (pos, refl, t)
Tiles-cut pos end (c ∷ cs) ds t =
    let (mid, front, back) = Tiles-cut (pos + 32 + c.size) end cs ds t.2 in
    (mid, (t.0, t.1, front), back)

pub Tiles-join :
    (pos mid end : ℕ) (cs ds : List Cell)
    → Tiles pos mid cs
    → Tiles mid end ds
    → Tiles pos end (cs ++ ds)
Tiles-join pos mid end [] ds t u = rw t u
Tiles-join pos mid end (c ∷ cs) ds t u =
    (t.0, t.1, Tiles-join (pos + 32 + c.size) mid end cs ds t.2 u)

pub Tiles-le : (pos end : ℕ) (cs : List Cell) → Tiles pos end cs → pos ≤ end
Tiles-le pos end [] t = omega arith
Tiles-le pos end (c ∷ cs) t = omega (arith, Tiles-le (pos + 32 + c.size) end cs t.2)

-- Every header lies between the two ends.
abbrev pub Inside : ℕ → ℕ → List Span → Type 0
Inside pos end = All (λ s. (pos ≤ s.addr) × (s.addr < end))

Inside-weaken :
    (pos pos' end : ℕ) (ss : List Span) → pos' ≤ pos → Inside pos end ss → Inside pos' end ss
Inside-weaken pos pos' end [] l i = tt
Inside-weaken pos pos' end (s ∷ ss) l i =
    (omega (arith, i.0.0, i.0.1), Inside-weaken pos pos' end ss l i.1)

pub pick-Inside :
    (b : Bool) (pos end : ℕ) (cs : List Cell) → Tiles pos end cs → Inside pos end (pick b cs)
pick-Inside b pos end [] t = tt
pick-Inside b pos end (c ∷ cs) t =
    let later =
      Inside-weaken (pos + 32 + c.size) pos end (pick b cs) (omega arith)
        (pick-Inside b (pos + 32 + c.size) end cs t.2) in
    elim (Bool-cases (same b c.used)) [
      | inl e ↦ rw e (omega (arith, t.0, Tiles-le (pos + 32 + c.size) end cs t.2), later)
      | inr e ↦ rw e later
    ]

pub Avoids-outside :
    (x pos end : ℕ) (ss : List Span) → Inside pos end ss → (x < pos) ⊎ (end ≤ x) → Avoids x ss
Avoids-outside x pos end [] i o = tt
Avoids-outside x pos end (s ∷ ss) i o =
    (omega (arith, i.0.0, i.0.1), Avoids-outside x pos end ss i.1 o)

pub pick-cons :
    (b : Bool) (c : Cell) (cs : List Cell)
    → same b c.used ≡ true
    → pick b (c ∷ cs) ≡ span c ∷ pick b cs
pick-cons b c cs e = rw e

pub pick-skip :
    (b : Bool) (c : Cell) (cs : List Cell) → same b c.used ≡ false → pick b (c ∷ cs) ≡ pick b cs
pick-skip b c cs e = rw e

pub same-not : (b u : Bool) → same (not b) u ≡ not (same b u)
same-not true u = refl
same-not false true = refl
same-not false false = refl

-- None of `ss` is a header of `ls`.
abbrev pub Separate : List Span → List Span → Type 0
Separate ls ss = All (λ s. Avoids s.addr ls) ss

Separate-cons :
    (c : Cell) (pos end : ℕ) (ls ss : List Span)
    → c.addr < pos
    → Inside pos end ss
    → Separate ls ss
    → Separate (span c ∷ ls) ss
Separate-cons c pos end ls [] l i v = tt
Separate-cons c pos end ls (s ∷ ss) l i v =
    ((omega (arith, i.0.0), v.0), Separate-cons c pos end ls ss l i.1 v.1)

-- A header of one kind is no header of the other.
pub Apart :
    (b : Bool) (pos end : ℕ) (cs : List Cell)
    → Tiles pos end cs
    → Separate (pick (not b) cs) (pick b cs)
Apart b pos end [] t = tt
Apart b pos end (c ∷ cs) t =
    let rest = Apart b (pos + 32 + c.size) end cs t.2 in
    elim (Bool-cases (same b c.used)) [
      | inl e ↦
          let skip = pick-skip (not b) c cs (same-not b c.used ∙ ap not e) in
          subst (λ l. Separate l (pick b (c ∷ cs))) (sym skip)
            (rw e (
              Avoids-outside c.addr (pos + 32 + c.size) end (pick (not b) cs)
                  (pick-Inside (not b) (pos + 32 + c.size) end cs t.2) (omega (arith, t.0)),
              rest,
            ))
      | inr e ↦
          let add = pick-cons (not b) c cs (same-not b c.used ∙ ap not e) in
          subst (λ l. Separate l (pick b (c ∷ cs))) (sym add)
            (rw e (
              Separate-cons c (pos + 32 + c.size) end (pick (not b) cs) (pick b cs)
                (omega (arith, t.0)) (pick-Inside b (pos + 32 + c.size) end cs t.2) rest))
    ]

-- The header `x` lies outside the bytes from `lo` to `hi`, and is none of the lists' headers.
pub record Clear (xs ys : List Span) (lo hi x : ℕ) : Type 0 where
  pub pos : 0 < x
  pub front : Avoids x xs
  pub back : Avoids x ys
  pub outside : (x < lo) ⊎ (hi ≤ x)

module _ (b : Bool) (pos lo hi end : ℕ) (cs ds : List Cell) (first : 0 < pos) (gap : lo ≤ hi)
    (t : Tiles pos lo cs) (u : Tiles hi end ds) where
  front-Clear :
      (ss : List Span)
      → Inside pos lo ss
      → All (λ s. Avoids s.addr (pick (not b) cs)) ss
      → All (λ s. Clear (pick (not b) cs) (pick (not b) ds) lo hi s.addr) ss
  front-Clear [] i v = tt
  front-Clear (s ∷ ss) i v = (
    record {
      pos = omega (arith, i.0.0);
      front = v.0;
      back =
          Avoids-outside s.addr hi end (pick (not b) ds) (pick-Inside (not b) hi end ds u)
            (omega (arith, i.0.1));
      outside = inl (omega (arith, i.0.1));
    },
    front-Clear ss i.1 v.1,
  )

  back-Clear :
      (ss : List Span)
      → Inside hi end ss
      → All (λ s. Avoids s.addr (pick (not b) ds)) ss
      → All (λ s. Clear (pick (not b) cs) (pick (not b) ds) lo hi s.addr) ss
  back-Clear [] i v = tt
  back-Clear (s ∷ ss) i v = (
    record {
      pos = omega (arith, i.0.0, Tiles-le pos lo cs t);
      front =
          Avoids-outside s.addr pos lo (pick (not b) cs) (pick-Inside (not b) pos lo cs t)
            (omega (arith, i.0.0));
      back = v.0;
      outside = inr (omega (arith, i.0.0));
    },
    back-Clear ss i.1 v.1,
  )

  -- The headers of one kind are clear of the lists of the other kind, and of the bytes between.
  pub pick-Clear :
      All (λ s. Clear (pick (not b) cs) (pick (not b) ds) lo hi s.addr) (pick b cs)
      × All (λ s. Clear (pick (not b) cs) (pick (not b) ds) lo hi s.addr) (pick b ds)
  pick-Clear = (
    front-Clear (pick b cs) (pick-Inside b pos lo cs t) (Apart b pos lo cs t),
    back-Clear (pick b ds) (pick-Inside b hi end ds u) (Apart b hi end ds u),
  )

pub All-append {ℓ κ} :
    {A : Type ℓ} (P : A → Type κ) (xs ys : List A) → All P xs → All P ys → All P (xs ++ ys)
All-append P [] ys a b = b
All-append P (x ∷ xs) ys a b = (a.0, All-append P xs ys a.1 b)

pub last-lt : (p pos lo : ℕ) (ss : List Span) → Inside pos lo ss → p < lo → last p ss < lo
last-lt p pos lo [] i l = l
last-lt p pos lo (s ∷ ss) i l = last-lt s.addr pos lo ss i.1 i.0.1

pub Beyond-Inside : (x hi end : ℕ) (ss : List Span) → Inside hi end ss → x < hi → Beyond x ss
Beyond-Inside x hi end [] i l = tt
Beyond-Inside x hi end (s ∷ ss) i l = omega (arith, i.0.0)

-- What follows is NULL or lies at `hi` or behind it.
pub next-Inside :
    (h : Headers) (r n hi end : ℕ) (ss : List Span)
    → Dll h r n ss
    → Inside hi end ss
    → (n ≡ 0) ⊎ (hi ≤ n)
next-Inside h r n hi end [] d i = inl d
next-Inside h r n hi end (s ∷ ss) d i = inr (omega (arith, d.0.here, i.0.0))

pub length-pick : (b : Bool) (cs : List Cell) → length (pick b cs) ≤ length cs
length-pick b [] = omega arith
length-pick b (c ∷ cs) = ground (arith, length-pick b cs)

pub free_bytes-le : (pos end : ℕ) (cs : List Cell) → Tiles pos end cs → pos + free_bytes cs ≤ end
free_bytes-le pos end [] t = omega arith
free_bytes-le pos end (c ∷ cs) t = ground (arith, free_bytes-le (pos + 32 + c.size) end cs t.2)

-- One cell of a tiling: what is in front of it, its size, and what is behind it.
pub record Middle (pos end : ℕ) (cs : List Cell) (c : Cell) (ds : List Cell) : Type 0 where
  pub front : Tiles pos c.addr cs
  pub room : Whole c.size
  pub back : Tiles (fin c) end ds

pub Tiles-Middle :
    (pos end : ℕ) (cs : List Cell) (c : Cell) (ds : List Cell)
    → Tiles pos end (cs ++ c ∷ ds)
    → Middle pos end cs c ds
Tiles-Middle pos end cs c ds t =
    let (mid, front, back) = Tiles-cut pos end cs (c ∷ ds) t in
    record {
      front = subst (λ m. Tiles pos m cs) (sym (back.0)) front;
      room = back.1;
      back = subst (λ m. Tiles (m + 32 + c.size) end ds) (sym (back.0)) back.2;
    }

pub Middle-Tiles :
    (pos end : ℕ) (cs : List Cell) (c : Cell) (ds : List Cell)
    → Middle pos end cs c ds
    → Tiles pos end (cs ++ c ∷ ds)
Middle-Tiles pos end cs c ds m =
    Tiles-join pos c.addr end cs (c ∷ ds) m.front (refl, m.room, m.back)

-- The two lists at a cell, for the cell's kind and for the other.
pub pick-middle :
    (b : Bool) (cs : List Cell) (c : Cell) (ds : List Cell)
    → same b c.used ≡ true
    → pick b (cs ++ c ∷ ds) ≡ pick b cs ++ span c ∷ pick b ds
pick-middle b cs c ds e = pick-append b cs (c ∷ ds) ∙ ap (◌++◌ (pick b cs)) (pick-cons b c ds e)

pub pick-around :
    (b : Bool) (cs : List Cell) (c : Cell) (ds : List Cell)
    → same b c.used ≡ false
    → pick b (cs ++ c ∷ ds) ≡ pick b cs ++ pick b ds
pick-around b cs c ds e = pick-append b cs (c ∷ ds) ∙ ap (◌++◌ (pick b cs)) (pick-skip b c ds e)

-- An address outside the zone's bytes is clear of everything.
pub outside-Clear :
    (o : Bool) (pos end x : ℕ) (cs : List Cell) (c : Cell) (ds : List Cell)
    → Middle pos end cs c ds
    → 0 < x
    → (x < pos) ⊎ (end ≤ x)
    → Clear (pick o cs) (pick o ds) c.addr (fin c) x
outside-Clear o pos end x cs c ds m p w =
    let le = Tiles-le pos c.addr cs m.front in
    let ge = Tiles-le (fin c) end ds m.back in
    record {
      pos = p;
      front =
          Avoids-outside x pos c.addr (pick o cs) (pick-Inside o pos c.addr cs m.front)
            (omega (arith, ge));
      back =
          Avoids-outside x (fin c) end (pick o ds) (pick-Inside o (fin c) end ds m.back)
            (omega (arith, le));
      outside = omega (arith, le, ge);
    }

pub length-middle :
    (xs : List Span) (s : Span) (ys : List Span) → length (xs ++ s ∷ ys) ≡ suc (length (xs ++ ys))
length-middle [] s ys = refl
length-middle (x ∷ xs) s ys = ap suc (length-middle xs s ys)

pub free_bytes-free :
    (cs : List Cell) (c : Cell) (ds : List Cell)
    → c.used ≡ false
    → free_bytes (cs ++ c ∷ ds) ≡ 32 + c.size + free_bytes (cs ++ ds)
free_bytes-free [] c ds e = rw e
free_bytes-free (x ∷ cs) c ds e = ground (arith, free_bytes-free cs c ds e)

pub free_bytes-used :
    (cs : List Cell) (c : Cell) (ds : List Cell)
    → c.used ≡ true
    → free_bytes (cs ++ c ∷ ds) ≡ free_bytes (cs ++ ds)
free_bytes-used [] c ds e = rw e
free_bytes-used (x ∷ cs) c ds e = ground (arith, free_bytes-used cs c ds e)

-- Enough fuel for the cells is enough for either list.
pub fuel-pick :
    (b : Bool) (cs : List Cell) (c d : Cell) (ds : List Cell) (fuel : ℕ)
    → length (cs ++ c ∷ ds) < fuel
    → (length (pick b (cs ++ d ∷ ds)) < fuel) × (length (pick b cs) < fuel)
fuel-pick b cs c d ds fuel f = omega (
  arith,
  length-pick b (cs ++ d ∷ ds),
  length-pick b cs,
  length-append cs (c ∷ ds),
  length-append cs (d ∷ ds),
)

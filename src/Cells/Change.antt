-- ===== src/Cells/Change.antt =====
-- A cell's header put into the list of its kind, or taken out of it: the two lists afterwards.
use ft_malloc.Base.{
  All-map, ℕ, ◌≤◌, ◌<◌, ◌≡◌, ◌⊎◌, refl, ◌∙◌, Bool, not, List, ◌∷◌, ◌++◌, arith, length, All, some,
}
use ft_malloc.Heap.{Headers, Chain, Block}
use ft_malloc.Heap.Dll.{Span, Dll, Dll-frame}
use ft_malloc.Heap.Splice.{last, enter}
use ft_malloc.Links.{heap, stack, unlink, exchange, insert_ordered}
use ft_malloc.Links.Replace.{Fits, exchange_lem, Dll-exchanged}
use ft_malloc.Links.Bridge.{
  AgreeAround, bridge, mount, mount_off, bridge_off, Dll-mount, mount_keeps_span, bridge_keeps_span,
}
use ft_malloc.Links.Insert.{follow, rest-follow, insert_ordered_lem, next-Beyond}
use ft_malloc.Links.Remove.{at_middle, Dll-unlinked, unlink_lem}
use ft_malloc.Cells.{Cell, fin, span, pick, Tiles}
use ft_malloc.Cells.Window.{
  Clear, pick-Clear, pick-Inside, last-lt, Beyond-Inside, All-append, Tiles-le, next-Inside,
}

-- The spans in all headers are as before.
abbrev pub KeepsSpans : Headers → Headers → Type 0
KeepsSpans h g = (x : ℕ) → ((g x).data_size ≡ (h x).data_size) × ((g x).end ≡ (h x).end)

module _ (o : Bool) (pos end : ℕ) (cs ds : List Cell) (c : Cell) (first : 0 < pos)
    (t : Tiles pos c.addr cs) (u : Tiles (fin c) end ds) where
  -- The list that changes, in its two parts, and the list of the other kind.
  abbrev front : List Span
  front = pick (not o) cs

  abbrev back : List Span
  back = pick (not o) ds

  abbrev others : List Span
  others = pick o cs ++ pick o ds

  -- Headers of the other kind are clear of the list that changes, and of the cell.
  pub others-Clear : All (λ s. Clear front back c.addr (fin c) s.addr) others
  others-Clear =
      let (f, k) = pick-Clear o pos c.addr (fin c) end cs ds first (omega arith) t u in
      All-append _ (pick o cs) (pick o ds) f k

  pub low : last 0 front < c.addr
  low =
      last-lt 0 pos c.addr front (pick-Inside (not o) pos c.addr cs t)
        (omega (arith, Tiles-le pos c.addr cs t))

  -- A store that differs only in the neighbours' headers and inside the cell keeps the others.
  pub others-kept :
      (h g : Headers) (e : ℕ)
      → Dll h 0 e others
      → ((x : ℕ) → Clear front back c.addr (fin c) x → g x ≡ h x)
      → Dll g 0 e others
  others-kept h g e d same =
      Dll-frame h g 0 e others d (All-map _ _ others (λ s. same s.addr) others-Clear)

  -- The chain, the two lists and the spans after the insertion of the cell's header.
  abbrev pub Added : Headers → (a e fuel : ℕ) → Type 0
  Added h a e fuel =
      (r : Chain) × (insert_ordered fuel (record { hdr = h; head = a }) c.addr ≡ some r)
      × Dll r.hdr 0 r.head (front ++ span c ∷ back)
      × Dll r.hdr 0 e others
      × KeepsSpans h r.hdr
      × ((x : ℕ) → Clear front back c.addr (fin c) x → r.hdr x ≡ h x)

  pub add_cell :
      (h : Headers) (a e fuel : ℕ)
      → Dll h 0 a (front ++ back)
      → Dll h 0 e others
      → (h c.addr).data_size ≡ c.size
      → (h c.addr).end ≡ fin c
      → length front < fuel
      → Added h a e fuel
  add_cell h a e fuel d k size stop f =
      let n = follow h a front in
      let q = last 0 front in
      let rest = rest-follow h 0 a front back d in
      let beyond =
        Beyond-Inside c.addr (fin c) end back (pick-Inside (not o) (fin c) end ds u)
          (omega arith) in
      let same = λ (x : ℕ) (z : Clear front back c.addr (fin c) x).
        mount_off h h 0 q n c.addr x front back rest z.pos (omega (arith, z.pos)) z.front z.back
          (omega (arith, z.outside)) in
      (
        record { hdr = mount h q n c.addr; head = enter front a c.addr },
        insert_ordered_lem fuel h a front back (span c) d low beyond f,
        Dll-mount h h 0 a q n front back back (span c) d rest (λ x w. refl) low
            (next-Beyond h q n c.addr back rest beyond) size stop,
        others-kept h (mount h q n c.addr) e k same,
        mount_keeps_span h q n c.addr,
        same,
      )

  -- The chain, the two lists and the spans after the cell's header has been taken out.
  abbrev pub Dropped : Headers → (a e : ℕ) → Type 0
  Dropped h a e =
      (r : Chain) × (unlink (record { hdr = h; head = a }) (heap c.addr) ≡ r)
      × Dll r.hdr 0 r.head (front ++ back)
      × Dll r.hdr 0 e others
      × KeepsSpans h r.hdr
      × ((x : ℕ) → Clear front back c.addr (fin c) x → r.hdr x ≡ h x)

  pub drop_cell :
      (h : Headers) (a e : ℕ)
      → Dll h 0 a (front ++ span c ∷ back)
      → Dll h 0 e others
      → Dropped h a e
  drop_cell h a e d k =
      let n = (h c.addr).next in
      let q = last 0 front in
      let rest = (at_middle h 0 a front (span c) back d).1 in
      let same = λ (x : ℕ) (z : Clear front back c.addr (fin c) x).
        bridge_off h h 0 c.addr n n q x front back rest z.pos (omega (arith, z.pos)) z.front
          z.back in
      (
        record { hdr = bridge h q n n q; head = enter front a n },
        unlink_lem h 0 a front (span c) back d h (λ x w. refl) (heap c.addr) (refl, refl) refl,
        Dll-unlinked h 0 a front (span c) back d h (λ x w. refl),
        others-kept h (bridge h q n n q) e k same,
        bridge_keeps_span h q n n q,
        same,
      )

  -- The same from a copy `b` of the cell's header, in a store `h1` where the header itself may
  -- have been overwritten.
  abbrev pub CopyOf : Headers → Block → Type 0
  CopyOf h b = (b.prev ≡ (h c.addr).prev) × (b.next ≡ (h c.addr).next)

  abbrev pub SameOffCell : Headers → Headers → Type 0
  SameOffCell h h1 = (x : ℕ) → (x < c.addr) ⊎ (fin c ≤ x) → h1 x ≡ h x

  -- What follows the cell in its list lies behind the cell.
  beyond_cell :
      (h : Headers) (a : ℕ)
      → Dll h 0 a (front ++ span c ∷ back)
      → ((h c.addr).next ≡ 0) ⊎ (fin c ≤ (h c.addr).next)
  beyond_cell h a d =
      next-Inside h c.addr (h c.addr).next (fin c) end back
        (at_middle h 0 a front (span c) back d).1 (pick-Inside (not o) (fin c) end ds u)

  agree_around :
      (h h1 : Headers) (a : ℕ)
      → Dll h 0 a (front ++ span c ∷ back)
      → SameOffCell h h1
      → AgreeAround h h1 (last 0 front) (h c.addr).next
  agree_around h h1 a d same x w = same x (omega (arith, w, low, beyond_cell h a d))

  abbrev pub DroppedCopy : Headers → Headers → Block → (a e : ℕ) → Type 0
  DroppedCopy h h1 b a e =
      (r : Chain) × (unlink (record { hdr = h1; head = a }) (stack b) ≡ r)
      × Dll r.hdr 0 r.head (front ++ back)
      × Dll r.hdr 0 e others
      × KeepsSpans h1 r.hdr
      × ((x : ℕ) → Clear front back c.addr (fin c) x → r.hdr x ≡ h x)

  pub drop_copy :
      (h h1 : Headers) (b : Block) (a e : ℕ)
      → Dll h 0 a (front ++ span c ∷ back)
      → Dll h 0 e others
      → SameOffCell h h1
      → CopyOf h b
      → DroppedCopy h h1 b a e
  drop_copy h h1 b a e d k off copy =
      let n = (h c.addr).next in
      let q = last 0 front in
      let (node, rest) = at_middle h 0 a front (span c) back d in
      let agree = agree_around h h1 a d off in
      let same = λ (x : ℕ) (z : Clear front back c.addr (fin c) x).
        bridge_off h h1 0 c.addr n n q x front back rest z.pos (omega (arith, z.pos)) z.front z.back
        ∙ off x z.outside in
      (
        record { hdr = bridge h1 q n n q; head = enter front a n },
        unlink_lem h 0 a front (span c) back d h1 agree (stack b) (copy.0 ∙ node.prev, copy.1) refl,
        Dll-unlinked h 0 a front (span c) back d h1 agree,
        others-kept h (bridge h1 q n n q) e k same,
        bridge_keeps_span h1 q n n q,
        same,
      )

  abbrev pub Swapped : Headers → Headers → Block → Span → (a e : ℕ) → Type 0
  Swapped h h1 b s a e =
      (r : Chain) × (exchange (record { hdr = h1; head = a }) (stack b) s.addr ≡ r)
      × Dll r.hdr 0 r.head (front ++ s ∷ back)
      × Dll r.hdr 0 e others
      × KeepsSpans h1 r.hdr
      × ((x : ℕ) → Clear front back c.addr (fin c) x → r.hdr x ≡ h x)

  -- Another header inside the cell takes the place of the cell's own in the list.
  pub swap_copy :
      (h h1 : Headers) (b : Block) (s : Span) (a e : ℕ)
      → Dll h 0 a (front ++ span c ∷ back)
      → Dll h 0 e others
      → SameOffCell h h1
      → CopyOf h b
      → (c.addr ≤ s.addr) × (s.addr < fin c)
      → ((h1 s.addr).data_size ≡ s.size) × ((h1 s.addr).end ≡ s.fin)
      → Swapped h h1 b s a e
  swap_copy h h1 b s a e d k off copy inside spans =
      let n = (h c.addr).next in
      let q = last 0 front in
      let (node, rest) = at_middle h 0 a front (span c) back d in
      let agree = agree_around h h1 a d off in
      let fits : Fits h 0 a front (span c) back d h1 agree s.addr = record {
        low = omega (arith, low, inside);
        high = omega (arith, beyond_cell h a d, inside);
      } in
      let same = λ (x : ℕ) (z : Clear front back c.addr (fin c) x).
        mount_off h h1 0 c.addr n s.addr x front back rest z.pos (omega (arith, z.pos)) z.front
          z.back (omega (arith, z.outside, inside))
        ∙ off x z.outside in
      (
        record { hdr = mount h1 q n s.addr; head = enter front a s.addr },
        exchange_lem h 0 a front (span c) back d h1 agree s.addr (stack b)
            (copy.0 ∙ node.prev, copy.1) (λ x w. cc) fits refl,
        Dll-exchanged h 0 a front (span c) back d h1 agree s.addr s refl fits spans.0 spans.1,
        others-kept h (mount h1 q n s.addr) e k same,
        mount_keeps_span h1 q n s.addr,
        same,
      )

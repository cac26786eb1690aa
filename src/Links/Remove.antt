-- ===== src/Links/Remove.antt =====
-- What `remove_block` does to a list.
use ft_malloc.Base.{ℕ, ◌≤◌, ◌<◌, ◌≡◌, ◌⊎◌, inl, inr, ◌∙◌, List, ◌∷◌, ◌++◌, arith}
use ft_malloc.Heap.{Headers}
use ft_malloc.Heap.Dll.{Span, IsNode, Dll}
use ft_malloc.Heap.Splice.{
  enter, last, le-last, Dll-rest, splice, enter_cases, next_above, Dll-tail,
}
use ft_malloc.Links.{Ref, heap, stack, unlink}
use ft_malloc.Links.Bridge.{bridge, bridge_elsewhere, bridge_at_pred, bridge_at_succ, AgreeAround}

module _ (h : Headers) (p a : ℕ) (xs : List Span) (s : Span) (ys : List Span)
    (d : Dll h p a (xs ++ s ∷ ys)) where
  -- The header of `s`, and the chain behind it.
  pub at_middle : IsNode h (last p xs) s.addr s × Dll h s.addr (h s.addr).next ys
  at_middle = let (m, r) = Dll-rest h p a xs (s ∷ ys) d in (ground arith, r.1)

  -- Its neighbours lie on its two sides.
  pub bounds :
      (p ≤ last p xs) × (last p xs < s.addr) × (((h s.addr).next ≡ 0) ⊎ (s.addr < (h s.addr).next))
  bounds = (
    le-last h p a xs (s ∷ ys) d,
    at_middle.0.above,
    next_above h s.addr (h s.addr).next ys at_middle.1,
  )

  -- `unlink` runs on `h1`, which agrees with `h` on the two sides of `s`.
  module _ (h1 : Headers) (agree : AgreeAround h h1 (last p xs) (h s.addr).next) where
    -- The headers that `unlink` leaves.
    abbrev pub unlinked : Headers
    unlinked = bridge h1 (last p xs) (h s.addr).next (h s.addr).next (last p xs)

    -- They hold the list without `s`.
    pub Dll-unlinked : Dll unlinked p (enter xs a (h s.addr).next) (xs ++ ys)
    Dll-unlinked =
        let q = last p xs in
        let n = (h s.addr).next in
        splice h unlinked p a n xs (s ∷ ys) ys d
          (λ x l u.
            bridge_elsewhere h1 q n n q x (omega arith) (omega (arith, bounds))
            ∙ agree x (inl (omega arith)))
          (λ ne. ground (
            arith,
            bridge_at_pred h1 q n n q (omega (arith, bounds)) (omega (arith, bounds)),
            agree q (inl (omega arith)),
          ))
          (Dll-tail h unlinked s.addr n q ys at_middle.1 (omega (arith, bounds))
            (λ ne. ground (
              arith,
              bridge_at_succ h1 q n n q ne (omega (arith, bounds)),
              agree n (inr (ne, omega arith)),
            ))
            (λ x c l.
              bridge_elsewhere h1 q n n q x (omega (arith, bounds)) (omega arith)
              ∙ agree x (inr (c, omega arith))))

    -- `old` is the header itself, or a copy of it that is still up to date.
    abbrev pub Reads : Ref → Type 0
    Reads (heap x) = (x ≡ s.addr) × (h1 s.addr ≡ h s.addr)
    Reads (stack b) = (b.prev ≡ last p xs) × (b.next ≡ (h s.addr).next)

    -- `unlink` gives those headers, and a head that skips `s`.
    pub unlink_lem :
        (old : Ref)
        → Reads old
        → p ≡ 0
        → unlink (record { hdr = h1; head = a }) old
          ≡ record { hdr = unlinked; head = enter xs a (h s.addr).next }
    unfolding unlink bridge
    unlink_lem (heap x) r e =
        ground (arith, bounds, at_middle.0.prev, enter_cases h p a (h s.addr).next xs (s ∷ ys) d)
    unlink_lem (stack b) r e =
        ground (arith, bounds, enter_cases h p a (h s.addr).next xs (s ∷ ys) d)

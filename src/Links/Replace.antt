-- ===== src/Links/Replace.antt =====
-- What `replace_block` does to a list.
use ft_malloc.Base.{ℕ, ◌<◌, ◌≡◌, ◌≢◌, ◌⊎◌, List, ◌∷◌, ◌++◌, arith}
use ft_malloc.Heap.{Headers}
use ft_malloc.Heap.Dll.{Span, Dll}
use ft_malloc.Heap.Splice.{enter, last, enter_cases}
use ft_malloc.Links.{Ref, heap, stack, exchange}
use ft_malloc.Links.Bridge.{mount, Dll-mount, AgreeAround}
use ft_malloc.Links.Remove.{at_middle, bounds, Reads}

module _ (h : Headers) (p a : ℕ) (xs : List Span) (s : Span) (ys : List Span)
    (d : Dll h p a (xs ++ s ∷ ys)) (h1 : Headers)
    (agree : AgreeAround h h1 (last p xs) (h s.addr).next) (new : ℕ) where
  -- The new header lies between the neighbours of the old one.
  pub record Fits : Type 0 where
    pub low : last p xs < new
    pub high : ((h s.addr).next ≡ 0) ⊎ (new < (h s.addr).next)

  -- `exchange` gives the headers of `mount`, for an `old` in the heap that is not `new`, or for a
  -- copy of the old header that is still up to date.
  pub exchange_lem :
      (old : Ref)
      → Reads h p a xs s ys d h1 agree old
      → ((x : ℕ) → old ≡ heap x → x ≢ new)
      → Fits
      → p ≡ 0
      → exchange (record { hdr = h1; head = a }) old new
        ≡ record { hdr = mount h1 (last p xs) (h s.addr).next new; head = enter xs a new }
  unfolding exchange mount
  exchange_lem (heap x) r ne fit e = ground (
    arith,
    ne x,
    bounds h p a xs s ys d,
    (at_middle h p a xs s ys d).0.prev,
    enter_cases h p a new xs (s ∷ ys) d,
  )
  exchange_lem (stack b) r ne fit e =
      ground (arith, bounds h p a xs s ys d, enter_cases h p a new xs (s ∷ ys) d)

  -- The list then holds `t` for `s`.
  pub Dll-exchanged :
      (t : Span)
      → t.addr ≡ new
      → Fits
      → (h1 new).data_size ≡ t.size
      → (h1 new).end ≡ t.fin
      → Dll (mount h1 (last p xs) (h s.addr).next new) p (enter xs a new) (xs ++ t ∷ ys)
  Dll-exchanged t e fit size fin = rw (← e) (
      Dll-mount h h1 p a s.addr (h s.addr).next xs (s ∷ ys) ys t d (at_middle h p a xs s ys d).1
        agree (omega (arith, fit.low)) (omega (arith, fit.high)) (rw e size) (rw e fin))

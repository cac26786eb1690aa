-- ===== src/Heap/Splice.antt =====
-- A chain whose end is exchanged for another one.
use ft_malloc.Base.{ℕ, ◌≤◌, ◌<◌, ◌≡◌, ◌≢◌, ◌⊎◌, inl, inr, refl, List, [], ◌∷◌, ◌++◌, arith, All}
use ft_malloc.Heap.{Headers}
use ft_malloc.Heap.Dll.{Span, Dll, Dll-below}

-- The pointer to the first of `xs`, or what follows an empty `xs`.
abbrev pub enter : List Span → ℕ → ℕ → ℕ
enter [] a n = n
enter (x ∷ xs) a n = a

-- The address of the last of `xs`, or the predecessor of an empty `xs`.
abbrev pub last : ℕ → List Span → ℕ
last p [] = p
last p (x ∷ xs) = last x.addr xs

pub le-last : (h : Headers) (p a : ℕ) (xs zs : List Span) → Dll h p a (xs ++ zs) → p ≤ last p xs
le-last h p a [] zs d = omega arith
le-last h p a (x ∷ xs) zs d = omega (arith, d.0.above, le-last h x.addr (h x.addr).next xs zs d.1)

-- The chain seen from behind `xs`.
pub Dll-rest :
    (h : Headers) (p a : ℕ) (xs zs : List Span)
    → Dll h p a (xs ++ zs)
    → (m : ℕ) × Dll h (last p xs) m zs
Dll-rest h p a [] zs d = (a, d)
Dll-rest h p a (x ∷ xs) zs d = Dll-rest h x.addr (h x.addr).next xs zs d.1

-- `g` keeps `xs` but for the last `next`, and from there it has the chain `zs`.
pub splice :
    (h g : Headers) (p a m : ℕ) (xs ys zs : List Span)
    → Dll h p a (xs ++ ys)
    → ((x : ℕ) → p < x → x < last p xs → g x ≡ h x)
    → (last p xs ≢ p → g (last p xs) ≡ record (h (last p xs)) { next = m })
    → Dll g (last p xs) m zs
    → Dll g p (enter xs a m) (xs ++ zs)
splice h g p a m [] ys zs d same at_last rest = rest
splice h g p a m (x ∷ []) ys zs d same at_last rest =
    let e = at_last (omega (arith, d.0.above)) in (ground arith, ground arith)
splice h g p a m (x ∷ x' ∷ xs) ys zs d same at_last rest = (
  ground (arith, e),
  rw e (
      splice h g x.addr (h x.addr).next m (x' ∷ xs) ys zs d.1
        (λ y l u. same y (omega (arith, d.0.above)) u)
        (λ ne. at_last (omega (arith, d.0.above, d.1.0.above, inner))) rest),
)
  where
    inner : x'.addr ≤ last p (x ∷ x' ∷ xs)
    inner = le-last h x'.addr (h x'.addr).next xs ys d.1.1

    e : g x.addr ≡ h x.addr
    e = same x.addr d.0.above (omega (arith, d.1.0.above, inner))

-- Either `xs` is empty, or the chain is entered at its first header.
pub enter_cases :
    (h : Headers) (p a m : ℕ) (xs zs : List Span)
    → Dll h p a (xs ++ zs)
    → (last p xs ≡ p) × (enter xs a m ≡ m) ⊎ (p < last p xs) × (enter xs a m ≡ a)
enter_cases h p a m [] zs d = inl (refl, refl)
enter_cases h p a m (x ∷ xs) zs d =
    inr (omega (arith, d.0.above, le-last h x.addr (h x.addr).next xs zs d.1), refl)

-- A chain with another predecessor.
pub Dll-tail :
    (h g : Headers) (r n q : ℕ) (ys : List Span)
    → Dll h r n ys
    → (n ≡ 0) ⊎ (q < n)
    → (n ≢ 0 → g n ≡ record (h n) { prev = q })
    → ((x : ℕ) → n ≢ 0 → n < x → g x ≡ h x)
    → Dll g q n ys
Dll-tail h g r n q [] d k first same = d
Dll-tail h g r n q (y ∷ ys) d k first same = (
  ground (arith, at_first),
  rw next_kept (
      Dll-below h g y.addr (h y.addr).next ys d.1
        λ x l. same x (omega (arith, d.0.above, d.0.here)) (omega (arith, d.0.here))),
)
  where
    at_first : g y.addr ≡ record (h y.addr) { prev = q }
    at_first = rw (d.0.here) at first (omega (arith, d.0.above, d.0.here))

    next_kept : (g y.addr).next ≡ (h y.addr).next
    next_kept = rw at_first

-- What follows a chain's header is NULL or lies behind it.
pub next_above : (h : Headers) (r n : ℕ) (ys : List Span) → Dll h r n ys → (n ≡ 0) ⊎ (r < n)
next_above h r n [] d = inl d
next_above h r n (y ∷ ys) d = inr (omega (arith, d.0.here, d.0.above))

-- The address `x` is no header's of the list.
abbrev pub Avoids : ℕ → List Span → Type 0
Avoids x ss = All (λ s. x ≢ s.addr) ss

-- Two stores agree but for the headers of a list (and NULL).
abbrev pub SameOutside : List Span → Headers → Headers → Type 0
SameOutside ss h g = (x : ℕ) → 0 < x → Avoids x ss → g x ≡ h x

pub Avoids-next :
    (h : Headers) (r n x : ℕ) (ys : List Span) → Dll h r n ys → 0 < x → Avoids x ys → x ≢ n
Avoids-next h r n x [] d l v = omega arith
Avoids-next h r n x (y ∷ ys) d l v = rw (d.0.here) (v.0)

-- A list avoids its predecessor, and every address below it.
pub Avoids-below : (h : Headers) (p a x : ℕ) (ss : List Span) → Dll h p a ss → x ≤ p → Avoids x ss
Avoids-below h p a x [] d l = tt
Avoids-below h p a x (s ∷ ss) d l = (
  omega (arith, d.0.above),
  Avoids-below h s.addr (h s.addr).next x ss d.1 (omega (arith, d.0.above)),
)

-- An address off the list is not the last header of its front part.
pub Avoids-last : (x p : ℕ) (xs : List Span) → x ≢ p → Avoids x xs → x ≢ last p xs
Avoids-last x p [] ne v = ne
Avoids-last x p (s ∷ ss) ne v = Avoids-last x s.addr ss v.0 v.1

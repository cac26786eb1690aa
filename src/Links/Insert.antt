-- ===== src/Links/Insert.antt =====
-- What the ordered insertions and `replace_block` do to a list.
use ft_malloc.Base.{
  ℕ, zero, suc, ◌<◌, ◌≡◌, ◌≢◌, ◌⊎◌, inl, inr, some, List, [], ◌∷◌, ◌++◌, arith, length,
}
use ft_malloc.Heap.{Headers}
use ft_malloc.Heap.Dll.{Span, Dll}
use ft_malloc.Heap.Splice.{enter, last, le-last}
use ft_malloc.Links.{walk, link_front, link_after, insert_ordered}
use ft_malloc.Links.Bridge.{mount}

-- `ys` begins behind the address `new`, or is empty.
abbrev pub Beyond : ℕ → List Span → Type 0
Beyond new [] = Unit {0}
Beyond new (y ∷ ys) = new < y.addr

pub next-Beyond :
    (h : Headers) (r n new : ℕ) (ys : List Span)
    → Dll h r n ys
    → Beyond new ys
    → (n ≡ 0) ⊎ (new < n)
next-Beyond h r n new [] d b = inl d
next-Beyond h r n new (y ∷ ys) d b = inr (omega (arith, d.0.here))

-- With fuel for each header the walk stops at the last header before `new`.
walk-last :
    (k : ℕ) (h : Headers) (p a new : ℕ) (x : Span) (xs ys : List Span)
    → Dll h p a ((x ∷ xs) ++ ys)
    → last p (x ∷ xs) < new
    → Beyond new ys
    → length xs < k
    → walk k h a new ≡ some (last x.addr xs)
unfolding walk
walk-last zero h p a new x xs ys d l b f = absurd (omega arith)
walk-last (suc k) h p a new x [] ys d l b f =
    rw (d.0.here) (ground (arith, next-Beyond h x.addr (h x.addr).next new ys d.1 b))
walk-last (suc k) h p a new x (x' ∷ xs) ys d l b f = rw (d.0.here) (
    ground (
      arith,
      d.1.0.here,
      d.1.0.above,
      le-last h x'.addr (h x'.addr).next xs ys d.1.1,
      walk-last k h x.addr (h x.addr).next new x' xs ys d.1 l b (omega arith),
    ))

-- The writes of the two kinds of insertion are those of `mount`.
link_after-mount :
    (h : Headers) (q new : ℕ)
    → q ≢ 0
    → q < new
    → ((h q).next ≡ 0) ⊎ (new < (h q).next)
    → link_after h q new ≡ mount h q (h q).next new
unfolding link_after mount
link_after-mount h q new c l k = ground arith

link_front-mount :
    (h : Headers) (a new : ℕ)
    → (a ≡ 0) ⊎ (new < a)
    → link_front (record { hdr = h; head = a }) new ≡ record { hdr = mount h 0 a new; head = new }
unfolding link_front mount
link_front-mount h a new k = ground arith

-- What follows the last of `xs`.
abbrev pub follow : Headers → ℕ → List Span → ℕ
follow h a [] = a
follow h a (x ∷ xs) = (h (last x.addr xs)).next

pub rest-follow :
    (h : Headers) (p a : ℕ) (xs ys : List Span)
    → Dll h p a (xs ++ ys)
    → Dll h (last p xs) (follow h a xs) ys
rest-follow h p a [] ys d = d
rest-follow h p a (x ∷ []) ys d = d.1
rest-follow h p a (x ∷ x' ∷ xs) ys d = rest-follow h x.addr (h x.addr).next (x' ∷ xs) ys d.1

-- The ordered insertion returns, and puts the header `t` between those below and those above it.
pub insert_ordered_lem :
    (fuel : ℕ) (h : Headers) (a : ℕ) (xs ys : List Span) (t : Span)
    → Dll h 0 a (xs ++ ys)
    → last 0 xs < t.addr
    → Beyond t.addr ys
    → length xs < fuel
    → insert_ordered fuel (record { hdr = h; head = a }) t.addr
      ≡ some (record { hdr = mount h (last 0 xs) (follow h a xs) t.addr; head = enter xs a t.addr })
unfolding insert_ordered
insert_ordered_lem fuel h a [] ys t d l b f =
    ground (arith, next-Beyond h 0 a t.addr ys d b, link_front-mount h a t.addr)
insert_ordered_lem fuel h a (x ∷ xs) ys t d l b f = ground (
  arith,
  d.0.here,
  d.0.above,
  le-last h x.addr (h x.addr).next xs ys d.1,
  next-Beyond h (last x.addr xs) (h (last x.addr xs)).next t.addr ys
      (rest-follow h 0 a (x ∷ xs) ys d) b,
  walk-last fuel h 0 a t.addr x xs ys d l b (omega arith),
  link_after-mount h (last x.addr xs) t.addr,
)

-- ===== src/Cells/Coalesce.antt =====
-- Neighbouring free cells joined, and the list of free spans afterwards.
use ft_malloc.Base.{
  ℕ, ◌+◌, ◌≤◌, ◌<◌, ◌≡◌, ◌⊎◌, inl, inr, refl, subst, true, false, not, ◌&&◌, List, [], ◌∷◌, arith,
  length, suc, if◌then◌else◌, Bool-cases, ◌^◌,
}
use ft_malloc.Heap.Dll.{Span}
use ft_malloc.Merge.Spans.{join, is_near, merge_from, merge_spans}
use ft_malloc.Cells.{Cell, fin, span, pick, Tiles, free_bytes}
use ft_malloc.Cells.Window.{Inside, pick-Inside, Tiles-le}

abbrev pub fuse : Cell → Cell → Cell
fuse c d = record { addr = c.addr; size = c.size + 32 + d.size; used = false }

unfoldable pub coalesce_from : Cell → List Cell → List Cell
coalesce_from c [] = c ∷ []
coalesce_from c (d ∷ ds) =
    let fused = coalesce_from (fuse c d) ds in
    let kept = c ∷ coalesce_from d ds in if not c.used && not d.used then fused else kept

unfoldable pub coalesce : List Cell → List Cell
unfolding coalesce_from
coalesce [] = []
coalesce (c ∷ cs) = coalesce_from c cs

-- No free cell follows a free cell.
abbrev pub Follows : Cell → List Cell → Type 0
Follows c [] = Unit {0}
Follows c (d ∷ ds) = (c.used ≡ true) ⊎ (d.used ≡ true)

abbrev pub IsCoalesced : List Cell → Type 0
IsCoalesced [] = Unit {0}
IsCoalesced (c ∷ cs) = Follows c cs × IsCoalesced cs

Tiles-fuse :
    (pos end : ℕ) (c d : Cell) (ds : List Cell)
    → Tiles pos end (c ∷ d ∷ ds)
    → Tiles pos end (fuse c d ∷ ds)
Tiles-fuse pos end c d ds t = (t.0, omega (arith, t.1), subst (λ p. Tiles p end ds) shift t.2.2)
  where
    shift : pos + 32 + c.size + 32 + d.size ≡ pos + 32 + (c.size + 32 + d.size)
    shift = omega arith

pub coalesce_from-Tiles :
    (pos end : ℕ) (c : Cell) (ds : List Cell)
    → Tiles pos end (c ∷ ds)
    → Tiles pos end (coalesce_from c ds)
unfolding coalesce_from
coalesce_from-Tiles pos end c [] t = t
coalesce_from-Tiles pos end c (d ∷ ds) t = elim (Bool-cases (not c.used && not d.used)) [
  | inl e ↦ rw e (coalesce_from-Tiles pos end (fuse c d) ds (Tiles-fuse pos end c d ds t))
  | inr e ↦ rw e (t.0, t.1, coalesce_from-Tiles (pos + 32 + c.size) end d ds t.2)
]

pub free_bytes-coalesce_from :
    (c : Cell) (ds : List Cell) → free_bytes (coalesce_from c ds) ≡ free_bytes (c ∷ ds)
unfolding coalesce_from
free_bytes-coalesce_from c [] = refl
free_bytes-coalesce_from c (d ∷ ds) =
    ground (arith, free_bytes-coalesce_from (fuse c d) ds, free_bytes-coalesce_from d ds)

pub used-coalesce_from :
    (c : Cell) (ds : List Cell) → pick true (coalesce_from c ds) ≡ pick true (c ∷ ds)
unfolding coalesce_from
used-coalesce_from c [] = refl
used-coalesce_from c (d ∷ ds) =
    ground (arith, used-coalesce_from (fuse c d) ds, used-coalesce_from d ds)

-- The first cell of the result has the kind of the first cell.
coalesce_from-head :
    (c : Cell) (b : Cell) (ds : List Cell)
    → (b.used ≡ true) ⊎ (c.used ≡ true)
    → Follows b (coalesce_from c ds)
unfolding coalesce_from
coalesce_from-head c b [] k = k
coalesce_from-head c b (d ∷ ds) k = elim (Bool-cases (not c.used && not d.used)) [
  | inl e ↦ rw e (coalesce_from-head (fuse c d) b ds (ground arith))
  | inr e ↦ rw e k
]

-- Merging leaves no free neighbours.
pub coalesce_from-IsCoalesced : (c : Cell) (ds : List Cell) → IsCoalesced (coalesce_from c ds)
unfolding coalesce_from
coalesce_from-IsCoalesced c [] = (tt, tt)
coalesce_from-IsCoalesced c (d ∷ ds) = elim (Bool-cases (not c.used && not d.used)) [
  | inl e ↦ rw e (coalesce_from-IsCoalesced (fuse c d) ds)
  | inr e ↦ rw e (coalesce_from-head d c ds (ground arith), coalesce_from-IsCoalesced d ds)
]

-- A span of which a header and 16 bytes separate the others is not joined to them.
merge_from-far :
    (c : Cell) (hi end : ℕ) (ss : List Span)
    → Inside hi end ss
    → fin c + 48 ≤ hi
    → end < 2 ^ 64
    → merge_from (span c) ss ≡ span c ∷ merge_spans ss
unfolding merge_from merge_spans is_near
merge_from-far c hi end [] i l top = refl
merge_from-far c hi end (s ∷ ss) i l top = rw (far)
  where
    far : is_near (span c) s ≡ false
    far = ground (arith, i.0.0, i.0.1)

-- Joining the spans of two free neighbours is the span of the joined cell.
join-fuse :
    (c d : Cell)
    → d.addr ≡ fin c
    → fin d < 2 ^ 64
    → (is_near (span c) (span d) ≡ true) × (join (span c) (span d) ≡ span (fuse c d))
unfolding join is_near
join-fuse c d e top = (ground arith, ground arith)

-- The free spans of the result are the merged free spans.
abbrev merged_free : Cell → List Cell → List Span
merged_free c ds =
    if c.used then merge_spans (pick false ds) else merge_from (span c) (pick false ds)

pub free-coalesce_from :
    (pos end : ℕ) (c : Cell) (ds : List Cell)
    → Tiles pos end (c ∷ ds)
    → end < 2 ^ 64
    → pick false (coalesce_from c ds) ≡ merged_free c ds
unfolding coalesce_from merge_from merge_spans
free-coalesce_from pos end c [] t top = ground arith
free-coalesce_from pos end c (d ∷ ds) t top =
    let le = Tiles-le (pos + 32 + c.size + 32 + d.size) end ds t.2.2 in
    ground (
      arith,
      join-fuse c d (omega (arith, t.0, t.2.0)) (omega (arith, t.2.0, le)),
      merge_from-far c (pos + 32 + c.size + 32 + d.size) end (pick false ds)
          (pick-Inside false (pos + 32 + c.size + 32 + d.size) end ds t.2.2)
          (omega (arith, t.0, t.2.1)) top,
      free-coalesce_from pos end (fuse c d) ds (Tiles-fuse pos end c d ds t) top,
      free-coalesce_from (pos + 32 + c.size) end d ds t.2 top,
    )

pub free-coalesce :
    (pos end : ℕ) (cs : List Cell)
    → Tiles pos end cs
    → end < 2 ^ 64
    → pick false (coalesce cs) ≡ merge_spans (pick false cs)
unfolding coalesce merge_spans
free-coalesce pos end [] t top = refl
free-coalesce pos end (c ∷ ds) t top = ground (arith, free-coalesce_from pos end c ds t top)

-- What joining keeps: the bytes that the cells fill, the used cells, and the free bytes.
pub record Coalesced (pos end : ℕ) (cs : List Cell) : Type 0 where
  pub tiles : Tiles pos end (coalesce cs)
  pub used : pick true (coalesce cs) ≡ pick true cs
  pub free : free_bytes (coalesce cs) ≡ free_bytes cs

pub coalesce-Coalesced : (pos end : ℕ) (cs : List Cell) → Tiles pos end cs → Coalesced pos end cs
unfolding coalesce
coalesce-Coalesced pos end [] t = record { tiles = t; used = refl; free = refl }
coalesce-Coalesced pos end (c ∷ ds) t = record {
  tiles = coalesce_from-Tiles pos end c ds t;
  used = used-coalesce_from c ds;
  free = free_bytes-coalesce_from c ds;
}

length-coalesce_from : (c : Cell) (ds : List Cell) → length (coalesce_from c ds) ≤ suc (length ds)
unfolding coalesce_from
length-coalesce_from c [] = omega arith
length-coalesce_from c (d ∷ ds) =
    ground (arith, length-coalesce_from (fuse c d) ds, length-coalesce_from d ds)

-- Joining adds no cells.
pub length-coalesce : (cs : List Cell) → length (coalesce cs) ≤ length cs
unfolding coalesce
length-coalesce [] = omega arith
length-coalesce (c ∷ ds) = length-coalesce_from c ds

pub used-coalesce : (cs : List Cell) → pick true (coalesce cs) ≡ pick true cs
unfolding coalesce
used-coalesce [] = refl
used-coalesce (c ∷ ds) = used-coalesce_from c ds

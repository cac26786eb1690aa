-- ===== src/Process/Malloc.antt =====
-- `malloc` over the blocks in use of the whole process.
use ft_malloc.Base.{
  ℕ, ◌+◌, ◌-◌, ◌≤◌, ◌≡◌, ◌≢◌, ◌⊎◌, ◌||◌, inl, inr, refl, sym, ap, ◌∙◌, Option, some, List, [], ◌∷◌,
  ◌++◌, arith, leb, ltb, ◌==◌, if◌then◌else◌, ◌>>=◌, Bool-cases, ne→==, leb→le,
}
use ft_malloc.Base.Words.{size_max}
use ft_malloc.Sizes.{align_size}
use ft_malloc.Sizes.Align.{align_size_up, align_size-large}
use ft_malloc.Heap.{block_payload}
use ft_malloc.Heap.Dll.{Span}
use ft_malloc.Alloc.{allocate_block}
use ft_malloc.Zones.{LargePages, State, Platform, arena, put_arena}
use ft_malloc.Api.{malloc, allocate_in_zone}
use ft_malloc.Cells.{Asked}
use ft_malloc.Process.{Region, InPlace, Inv, used_blocks, weight}
use ft_malloc.Process.Lists.{All-around}
use ft_malloc.Process.Update.{same-Inv}
use ft_malloc.Process.Find.{weight-around}
use ft_malloc.Process.Live.{used_blocks-middle}
use ft_malloc.Process.Free.{Enough}
use ft_malloc.Process.Allocate.{allocate_served}
use ft_malloc.Process.FindZone.{FromMmap, mmap_bytes, Zoned, find_zone_lem}

-- A call that answers a request of `n` bytes: it returns NULL and the blocks in use are the same, or
-- the payload of a block that is new among them and has at least `n` bytes.
pub record Answered (st : State) (rs : List Region) (n : ℕ) (new : State) (p : ℕ) : Type 0 where
  pub after : List Region
  pub inv : Inv new after
  pub weight_le : weight after ≤ weight rs + 3
  pub bytes : new.bytes ≡ st.bytes
  pub answer :
      (p ≡ 0) × (used_blocks after ≡ used_blocks rs)
      ⊎ ((xs : List Span) × (s : Span) × (ys : List Span) × (used_blocks rs ≡ xs ++ ys)
          × (used_blocks after ≡ xs ++ s ∷ ys)
          × (s.addr + 32 ≡ p)
          × (n ≤ s.size))

module _ (fuel : ℕ) (st : State) (rs : List Region) (size : ℕ) (new : State)
    (low : Asked size) where
  -- The second half of a request: a block of the zone that was found.
  finish : ℕ → Option (State × ℕ)
  finish z = if z == 0 then some (new, 0) else do
    (a, b) ← allocate_block fuel (arena new z) size
    if b == 0 then some (put_arena new a, 0) else some (put_arena new a, block_payload b)

  finish_zoned :
      (z : ℕ)
      → Zoned fuel st rs size new z
      → (last : State) × (p : ℕ) × (finish z ≡ some (last, p)) × Answered st rs size last p
  unfolding finish
  finish_zoned z q =
      let r = q.region in
      let front = q.front in
      let back = q.back in
      let nonnull = (All-around (InPlace new) front r back q.layout.each).1.stands.self in
      elim (allocate_served fuel new front r back q.layout q.soles q.may size low q.fuel_lt) [
        | inl (below, runs) ↦ (
          put_arena new (arena new r.addr),
          0,
          rw (q.here, ne→== r.addr 0 nonnull, runs) refl,
          record {
            after = front ++ r ∷ back;
            inv = same-Inv new front r back (q.refused below);
            weight_le = omega (arith, q.weight_le);
            bytes = q.bytes;
            answer = inl (refl, q.blocks);
          },
        )
        | inr s ↦
            let g = s.grown in
            let r' : Region = record r { cells = s.cells } in
            (
              put_arena new s.arena_after,
              s.addr + 32,
              rw (q.here, ne→== r.addr 0 nonnull, s.runs, ne→== s.addr 0 (omega (arith, s.range)))
                  (ap (λ (x : ℕ). some (put_arena new s.arena_after, x)) (omega (arith, s.range))),
              record {
                after = front ++ r' ∷ back;
                inv = s.inv;
                weight_le = omega (
                  arith,
                  q.weight_le,
                  g.count,
                  weight-around front r back,
                  weight-around front r' back,
                );
                bytes = s.bytes ∙ q.bytes;
                answer = inr (
                  used_blocks front ++ g.front,
                  g.block,
                  g.back ++ used_blocks back,
                  sym q.blocks ∙ used_blocks-middle front r back g.front [] g.back g.before,
                  used_blocks-middle front r' back g.front (g.block ∷ []) g.back g.after,
                  omega (arith, g.here),
                  g.size,
                );
              },
            )
      ]

-- Nothing done, and NULL.
unanswered : (st : State) (rs : List Region) (n : ℕ) → Inv st rs → Answered st rs n st 0
unanswered st rs n i = record {
  after = rs;
  inv = i;
  weight_le = omega arith;
  bytes = refl;
  answer = inl (refl, refl);
}

-- A block of more bytes answers a request of fewer.
Answered-weaken :
    (st : State) (rs : List Region) (n m : ℕ) (new : State) (p : ℕ)
    → m ≤ n
    → Answered st rs n new p
    → Answered st rs m new p
Answered-weaken st rs n m new p l a = record {
  after = a.after;
  inv = a.inv;
  weight_le = a.weight_le;
  bytes = a.bytes;
  answer = elim a.answer [
    | inl e ↦ inl e
    | inr (xs, s, ys, before, after, at, size) ↦
        inr (xs, s, ys, before, after, at, omega (arith, l, size))
  ];
}

pub align_size_bounds : (n : ℕ) → n ≢ 0 → (n ≤ align_size n) × (Asked (align_size n))
align_size_bounds n ne = elim (Bool-cases (leb n (size_max - 16))) [
  | inl e ↦
      let (multiple, le, _) = align_size_up n (leb→le n (size_max - 16) e) in
      (le, omega (arith, multiple, le, ne))
  | inr e ↦ rw (align_size-large n (ground arith)) (ground arith)
]

module _ (pf : Platform) (fuel : ℕ) (st : State) (mm : Option ℕ) (rs : List Region) (i : Inv st rs)
    (f : Enough fuel rs) (page : LargePages pf) where
  pub allocate_in_zone_lem :
      (size : ℕ)
      → Asked size
      → FromMmap rs (mmap_bytes pf size) mm
      → (new : State) × (p : ℕ) × (allocate_in_zone pf fuel st mm size ≡ some (new, p))
        × Answered st rs size new p
  unfolding allocate_in_zone finish
  allocate_in_zone_lem size low m =
      let (new, z, runs, found) = find_zone_lem pf fuel st rs size i f mm page m low in
      elim found [
        | inl (null, same) ↦ (new, 0, rw (runs, null) refl, rw same (unanswered st rs size i))
        | inr q ↦
            let (last, p, done, answered) = finish_zoned fuel st rs size new low z q in
            (last, p, rw runs done, answered)
      ]

  -- In a process with the invariant, with enough fuel, large pages and an `mmap` that
  -- fails or gives a region apart from the others, `malloc` returns, and keeps the invariant: it gives
  -- NULL and the same blocks are in use, or a block of the size at least that is new among them.
  pub malloc_refines :
      (n : ℕ)
      → FromMmap rs (mmap_bytes pf (align_size n)) mm
      → (new : State) × (p : ℕ) × (malloc pf fuel st mm n ≡ some (new, p)) × Answered st rs n new p
  unfolding malloc
  malloc_refines n m = elim (Bool-cases ((n == 0) || ltb pf.max_alloc_size n)) [
    | inl e ↦ (st, 0, rw e refl, unanswered st rs n i)
    | inr e ↦
        let (le, low) = align_size_bounds n (ground (arith, e)) in
        let (new, p, runs, answered) = allocate_in_zone_lem (align_size n) low m in
        (new, p, rw e runs, Answered-weaken st rs (align_size n) n new p le answered)
  ]

-- ===== src/Process/Runs.antt =====
-- Runs of the process: sequences of calls of the three functions, as the lock orders them.
use ft_malloc.Base.{
  ℕ, ◌+◌, ◌++◌, ◌%◌, ◌^◌, ◌<◌, ◌≤◌, ◌≡◌, ◌≢◌, ◌⊎◌, inl, inr, refl, sym, subst, Option, none, some,
  List, [], ◌∷◌, map, All, arith, ◌==◌, ◌>>=◌, Bool-cases,
}
use ft_malloc.Sizes.{align_size}
use ft_malloc.Zones.{LargePages, State, Platform}
use ft_malloc.Api.{malloc, free, realloc}
use ft_malloc.Heap.Dll.{Span}
use ft_malloc.Process.{Region, bounds, extent, InPlace, Apart, Inv, weight, used_blocks}
use ft_malloc.Process.Free.{free_refines}
use ft_malloc.Process.FindZone.{FromMmap, mmap_bytes}
use ft_malloc.Process.Malloc.{malloc_refines}
use ft_malloc.Process.Realloc.{realloc_refines}
use ft_malloc.Process.Contents.{Instead, here, elsewhere}

-- A call, with what `mmap` returns should the call reach it.
pub data Call : Type 0 where
  call_malloc : (n : ℕ) → (mm : Option ℕ) → Call
  call_free : (ptr : ℕ) → Call
  call_realloc : (ptr n : ℕ) → (mm : Option ℕ) → Call

-- The state after the call, and the pointer that it returns; NULL for `free`.
unfoldable pub run_call : Platform → ℕ → State → Call → Option (State × ℕ)
run_call pf fuel st (call_malloc n mm) = malloc pf fuel st mm n
run_call pf fuel st (call_free ptr) = do new ← free fuel st ptr; some (new, 0)
run_call pf fuel st (call_realloc ptr n mm) = realloc pf fuel st mm ptr n

-- What `mmap` may return for `bytes` bytes to a process that holds the regions `mapped`.
abbrev pub Grants : List (ℕ × ℕ) → (bytes : ℕ) → Option ℕ → Type 0
Grants mapped bytes none = Unit {0}
Grants mapped bytes (some z) =
    (z ≢ 0)
    × (z % 16 ≡ 0)
    × (z + bytes < 2 ^ 64)
    × All (λ (s : ℕ × ℕ). (z + bytes ≤ s.0) ⊎ (s.0 + s.1 ≤ z)) mapped

abbrev pub Allowed : Platform → State → Call → Type 0
Allowed pf st (call_malloc n mm) = Grants st.mapped (mmap_bytes pf (align_size n)) mm
Allowed pf st (call_free ptr) = Unit {0}
Allowed pf st (call_realloc ptr n mm) = Grants st.mapped (mmap_bytes pf (align_size n)) mm

-- With enough fuel the call returns this, however much more there is.
abbrev pub Returns : Platform → State → Call → State → ℕ → Type 0
Returns pf st call new p =
    (k : ℕ) × ((fuel : ℕ) → k < fuel → run_call pf fuel st call ≡ some (new, p))

-- The states that calls lead to from a process without zones.
pub data Reach (pf : Platform) : State → Type 0 where
  started : (st : State) → st.g_zones ≡ 0 → st.mapped ≡ [] → Reach pf st
  called :
      (st : State) (call : Call) (new : State) (p : ℕ)
      → Reach pf st
      → Allowed pf st call
      → Returns pf st call new p
      → Reach pf new

Grants-FromMmap :
    (rs : List Region) (bytes : ℕ) (mm : Option ℕ)
    → (st : State) → Inv st rs
    → Grants st.mapped bytes mm
    → FromMmap rs bytes mm
Grants-FromMmap rs bytes none st i g = FromMmap.failed
Grants-FromMmap rs bytes (some z) st i g = FromMmap.mapped z (record {
  nonnull = g.0;
  aligned = g.1;
  top = g.2;
  apart =
      apart rs i.layout.each
        (subst (All (λ (s : ℕ × ℕ). (z + bytes ≤ s.0) ⊎ (s.0 + s.1 ≤ z))) i.layout.mapped g.3);
})
  where
    apart :
        (ss : List Region)
        → All (InPlace st) ss
        → All (λ (s : ℕ × ℕ). (z + bytes ≤ s.0) ⊎ (s.0 + s.1 ≤ z)) (map extent ss)
        → All (λ (s : Region). Apart (z, z + bytes) (bounds s)) ss
    apart [] p a = tt
    apart (s ∷ ss) p a = (ground (arith, a.0, p.0.room), apart ss p.1 a.1)

-- The pointer is the payload of one of the blocks.
abbrev pub PayloadOf : ℕ → List Span → Type 0
PayloadOf p [] = ⊥
PayloadOf p (s ∷ ss) = (s.addr + 32 ≡ p) ⊎ PayloadOf p ss

PayloadOf-middle :
    (p : ℕ) (xs : List Span) (s : Span) (ys : List Span)
    → s.addr + 32 ≡ p
    → PayloadOf p (xs ++ s ∷ ys)
PayloadOf-middle p [] s ys at = inl at
PayloadOf-middle p (x ∷ xs) s ys at = inr (PayloadOf-middle p xs s ys at)

-- Another block than the one that is taken out.
PayloadOf-without :
    (p : ℕ) (xs : List Span) (s : Span) (ys : List Span)
    → s.addr + 32 ≢ p
    → PayloadOf p (xs ++ s ∷ ys)
    → PayloadOf p (xs ++ ys)
PayloadOf-without p [] s ys n (inl at) = absurd (n at)
PayloadOf-without p [] s ys n (inr a) = a
PayloadOf-without p (x ∷ xs) s ys n (inl at) = inl at
PayloadOf-without p (x ∷ xs) s ys n (inr a) = inr (PayloadOf-without p xs s ys n a)

Instead-PayloadOf :
    (p : ℕ) (xs : List Span) (s : Span) (ys : List Span) (t : Span) (zs : List Span)
    → t.addr + 32 ≡ p
    → Instead xs s ys t zs
    → PayloadOf p zs
Instead-PayloadOf p xs s ys t zs at (here e) =
    subst (PayloadOf p) (sym e) (PayloadOf-middle p xs t ys at)
Instead-PayloadOf p xs s ys t zs at (elsewhere us vs vs' s' us' before after same n e) =
    subst (PayloadOf p) (sym e) (
      PayloadOf-without p us' s' vs' (λ w. n (omega (arith, at, same, w)))
        (subst (PayloadOf p) after (PayloadOf-middle p us t vs at)))

module _ (pf : Platform) (page : LargePages pf) (fuel : ℕ) (st : State) (rs : List Region)
    (i : Inv st rs) (f : weight rs + 6 < fuel) where
  abbrev Kept : Option (State × ℕ) → Type 0
  Kept run =
      (new : State) × (p : ℕ) × (after : List Region) × (run ≡ some (new, p))
      × Inv new after
      × (weight after ≤ weight rs + 3)
      × ((p ≡ 0) ⊎ PayloadOf p (used_blocks after))

  malloc-Inv :
      (n : ℕ) (mm : Option ℕ)
      → Grants st.mapped (mmap_bytes pf (align_size n)) mm
      → Kept (malloc pf fuel st mm n)
  malloc-Inv n mm a =
      let (new, p, runs, done) =
        malloc_refines pf fuel st mm rs i (omega (arith, f)) page n
          (Grants-FromMmap rs (mmap_bytes pf (align_size n)) mm st i a) in
      (
        new,
        p,
        done.after,
        runs,
        done.inv,
        done.weight_le,
        elim done.answer [
          | inl (null, same) ↦ inl null
          | inr (xs, s, ys, before, after, at, size) ↦
              inr (subst (PayloadOf p) (sym after) (PayloadOf-middle p xs s ys at))
        ],
      )

  free-Inv : (ptr : ℕ) → Kept (do new ← free fuel st ptr; some (new, 0))
  free-Inv ptr = elim (free_refines fuel st ptr rs i (omega (arith, f))) [
    | inl (others, runs) ↦ (st, 0, rs, rw runs refl, i, omega arith, inl refl)
    | inr (xs, s, ys, split, at, (new, after, runs, inv, rest, weight_le, bytes)) ↦
        (new, 0, after, rw runs refl, inv, omega (arith, weight_le), inl refl)
  ]

  realloc-Inv :
      (ptr n : ℕ) (mm : Option ℕ)
      → Grants st.mapped (mmap_bytes pf (align_size n)) mm
      → Kept (realloc pf fuel st mm ptr n)
  unfolding realloc
  realloc-Inv ptr n mm a = elim (Bool-cases (ptr == 0)) [
    | inl null ↦ rw null (malloc-Inv n mm a)
    | inr given ↦ elim (Bool-cases (n == 0)) [
      | inl no_bytes ↦ rw (given, no_bytes) (free-Inv ptr)
      | inr bytes ↦
          elim (realloc_refines pf fuel st mm page ptr n (ground (arith, given))
            (ground (arith, bytes)) rs i f
            (Grants-FromMmap rs (mmap_bytes pf (align_size n)) mm st i a)) [
              | inl (others, runs) ↦ (st, 0, rs, runs, i, omega arith, inl refl)
              | inr (xs, s, ys, split, at, (new, p, runs, done)) ↦ (
                new,
                p,
                done.after,
                runs,
                done.inv,
                done.weight_le,
                elim done.outcome [
                  | inl (null, same, bytes) ↦ inl null
                  | inr (t, at, size, copied, room, instead) ↦
                      inr (Instead-PayloadOf p xs s ys t (used_blocks done.after) at instead)
                ],
              )
            ]
    ]
  ]

  -- Each call that the system allows returns, in a state with the invariant and at most three more
  -- zones and cells.
  pub run_call-Inv : (call : Call) → Allowed pf st call → Kept (run_call pf fuel st call)
  unfolding run_call
  run_call-Inv (call_malloc n mm) a = malloc-Inv n mm a
  run_call-Inv (call_free ptr) a = free-Inv ptr
  run_call-Inv (call_realloc ptr n mm) a = realloc-Inv ptr n mm a

empty-Inv : (st : State) → st.g_zones ≡ 0 → st.mapped ≡ [] → Inv st []
empty-Inv st g m = record {
  layout = record { linked = g; each = tt; apart = tt; mapped = m };
  sound = tt;
}

same_state :
    (run : Option (State × ℕ)) (st new : State) (p q : ℕ)
    → run ≡ some (st, p)
    → run ≡ some (new, q)
    → st ≡ new
same_state run st new p q e e' = cc

-- With large pages, in every state that calls of the three functions lead to from a
-- process without zones, the zones are linked, disjoint and just what the process holds from `mmap`,
-- each stands for its cells and records its largest free space rightly while it has one, and each
-- large one has one block in use.
pub Reach-Inv :
    (pf : Platform) → LargePages pf → (st : State) → Reach pf st → (rs : List Region) × Inv st rs
Reach-Inv pf page st (started _ g m) = ([], empty-Inv st g m)
Reach-Inv pf page _ (called st call new p r a (k, returns)) =
    let (rs, i) = Reach-Inv pf page st r in
    let (new', p', after, runs, inv, weight_le, at) =
      run_call-Inv pf page (k + weight rs + 7) st rs i (omega arith) call a in
    (
      after,
      subst (λ s. Inv s after)
          (same_state (run_call pf (k + weight rs + 7) st call) new' new p' p runs
            (returns (k + weight rs + 7) (omega arith)))
          inv,
    )

-- With large pages, in every state that calls of the three functions lead to from a
-- process without zones, each call that the system allows returns, whatever its arguments, with
-- fuel from some number on.
pub Reach-returns :
    (pf : Platform)
    → LargePages pf
    → (st : State) → Reach pf st
    → (call : Call) → Allowed pf st call
    → (k : ℕ) × ((fuel : ℕ)
        → k < fuel
        → (new : State) × (p : ℕ) × (run_call pf fuel st call ≡ some (new, p)))
Reach-returns pf page st r call a =
    let (rs, i) = Reach-Inv pf page st r in
    (
      weight rs + 6,
      λ fuel l.
          let (new, p, after, runs, inv, weight_le, at) =
            run_call-Inv pf page fuel st rs i l call a in
          (new, p, runs),
    )

-- ===== src/Process/Aligned.antt =====
-- The alignment of the blocks in use, and of the pointers that the calls return.
use ft_malloc.Base.{
  ℕ, ◌+◌, ◌%◌, ◌<◌, ◌≤◌, ◌≡◌, ◌⊎◌, inl, inr, true, some, List, [], ◌∷◌, All, arith, Bool-cases,
}
use ft_malloc.Heap.Dll.{Span}
use ft_malloc.Cells.{Cell, pick, Tiles}
use ft_malloc.Cells.Window.{All-append}
use ft_malloc.Zones.{LargePages, State, Platform}
use ft_malloc.Process.{Region, InPlace, Inv, used_blocks, weight}
use ft_malloc.Process.Runs.{Call, run_call, Allowed, Reach, Reach-Inv, PayloadOf, run_call-Inv}

-- The payload begins at a multiple of 16, and has a multiple of 16 bytes, not 0.
abbrev pub Aligned : Span → Type 0
Aligned s = ((s.addr + 32) % 16 ≡ 0) × (16 ≤ s.size) × (s.size % 16 ≡ 0)

pick-Aligned :
    (pos end : ℕ) (cs : List Cell) → pos % 16 ≡ 0 → Tiles pos end cs → All Aligned (pick true cs)
pick-Aligned pos end [] a t = tt
pick-Aligned pos end (c ∷ cs) a t =
    let later = pick-Aligned (pos + 32 + c.size) end cs (omega (arith, a, t.1)) t.2 in
    elim (Bool-cases c.used) [
      | inl used ↦ rw used (omega (arith, a, t.0, t.1), later)
      | inr free ↦ rw free later
    ]

used_blocks-Aligned :
    (st : State) (rs : List Region) → All (InPlace st) rs → All Aligned (used_blocks rs)
used_blocks-Aligned st [] p = tt
used_blocks-Aligned st (r ∷ rs) p =
    All-append Aligned (pick true r.cells) (used_blocks rs)
      (pick-Aligned ((st.zone r.addr).start + 80) (st.zone r.addr).end r.cells
        (omega (arith, p.0.start, p.0.aligned)) p.0.stands.tiles)
      (used_blocks-Aligned st rs p.1)

PayloadOf-Aligned : (p : ℕ) (ss : List Span) → All Aligned ss → PayloadOf p ss → p % 16 ≡ 0
PayloadOf-Aligned p [] a q = absurd q
PayloadOf-Aligned p (s ∷ ss) a (inl at) = omega (arith, at, a.0)
PayloadOf-Aligned p (s ∷ ss) a (inr q) = PayloadOf-Aligned p ss a.1 q

-- In every state that calls of the three functions lead to from a process without zones, each call
-- that the system allows returns, with fuel from some number on, NULL or a multiple of 16 that is the
-- payload of a block in use; and then each block in use has its payload at a multiple of 16, of a
-- multiple of 16 bytes. Pages are large.
pub Reach-Aligned :
    (pf : Platform)
    → LargePages pf
    → (st : State) → Reach pf st
    → (call : Call) → Allowed pf st call
    → (k : ℕ) × ((fuel : ℕ)
        → k < fuel
        → (new : State) × (p : ℕ) × (after : List Region) × (run_call pf fuel st call
            ≡ some (new, p))
          × Inv new after
          × All Aligned (used_blocks after)
          × ((p ≡ 0) ⊎ (p % 16 ≡ 0) × PayloadOf p (used_blocks after)))
Reach-Aligned pf page st r call a =
    let (rs, i) = Reach-Inv pf page st r in
    (
      weight rs + 6,
      λ fuel l.
          let (new, p, after, runs, inv, weight_le, at) =
            run_call-Inv pf page fuel st rs i l call a in
          let all = used_blocks-Aligned new after inv.layout.each in
          (
            new,
            p,
            after,
            runs,
            inv,
            all,
            elim at [
              | inl null ↦ inl null
              | inr q ↦ inr (PayloadOf-Aligned p (used_blocks after) all q, q)
            ],
          ),
    )

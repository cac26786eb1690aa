-- ===== src/Process/Disjoint.antt =====
-- No two blocks in use of the process share a byte, headers included.
use ft_malloc.Base.{All-map, ◌+◌, ◌≤◌, true, List, [], ◌∷◌, map, All, arith, ◌<◌, ◌^◌, ◌≡◌}
use ft_malloc.Heap.Dll.{Span}
use ft_malloc.Cells.{pick}
use ft_malloc.Zones.{LargePages, State, Platform}
use ft_malloc.Process.{Region, InPlace, Separate, Inv, used_blocks, extent}
use ft_malloc.Process.BlockBytes.{block_bytes, used-Between, used_blocks-Separate}
use ft_malloc.Process.Runs.{Reach, Reach-Inv}

-- With large pages, in every state that calls of the three functions lead to from a
-- process without zones, no two blocks in use have a byte in
-- common, be it of a header or of the memory behind it.
pub Reach-Separate :
    (pf : Platform)
    → LargePages pf
    → (st : State) → Reach pf st
    → (rs : List Region) × Inv st rs × Separate (map block_bytes (used_blocks rs))
Reach-Separate pf page st r =
    let (rs, i) = Reach-Inv pf page st r in
    (rs, i, used_blocks-Separate st rs i.layout.apart i.layout.each)

-- The block lies in the zone `r`, behind its header.
abbrev pub Inside : Region → Span → Type 0
Inside r s = (r.addr + 80 ≤ s.addr) × (s.addr + 32 + s.size ≤ r.limit)

zones-Inside :
    (st : State) (rs : List Region)
    → All (InPlace st) rs
    → All (λ (r : Region). (r.limit < 2 ^ 64) × All (Inside r) (pick true r.cells)) rs
zones-Inside st [] p = tt
zones-Inside st (r ∷ rs) p =
    let inside =
      used-Between (r.addr + 80) ((st.zone r.addr).start + 80) (st.zone r.addr).end r.cells
        (omega (arith, p.0.start)) p.0.stands.tiles in
    (
      (
        omega (arith, p.0.end, p.0.stands.top),
        All-map _ _ (pick true r.cells) (λ s b. omega (arith, b, p.0.end)) inside,
      ),
      zones-Inside st rs p.1,
    )

-- With large pages, in every state that calls of the three functions lead to from a
-- process without zones, the zones of `g_zones` have just the bytes that `mmap` gave and end below
-- 2 ^ 64, and each block of their lists of used blocks lies with its header in its zone, behind the
-- zone's header.
pub Reach-Inside :
    (pf : Platform)
    → LargePages pf
    → (st : State) → Reach pf st
    → (rs : List Region) × Inv st rs
      × (st.mapped ≡ map extent rs)
      × All (λ (r : Region). (r.limit < 2 ^ 64) × All (Inside r) (pick true r.cells)) rs
Reach-Inside pf page st r =
    let (rs, i) = Reach-Inv pf page st r in
    (rs, i, i.layout.mapped, zones-Inside st rs i.layout.each)

-- ===== src/Process.antt =====
-- The memory of the whole process: the zones in the order of their list, each with its cells.
pub mod Lists
pub mod Update
pub mod Find
pub mod Chain
pub mod Unmap
pub mod Map
pub mod Live
pub mod Free
pub mod Allocate
pub mod FindZone
pub mod Malloc
pub mod Contents
pub mod Resize
pub mod Realloc
pub mod Runs
pub mod BlockBytes
pub mod Disjoint
pub mod Aligned
pub mod Report
pub mod Twice
pub mod Statistics
use ft_malloc.Base.{
  ℕ, ◌+◌, ◌-◌, ◌%◌, ◌<◌, ◌≤◌, ◌≡◌, ◌≢◌, ◌⊎◌, true, false, List, [], ◌∷◌, ◌++◌, map, All, length,
}
use ft_malloc.Sizes.{large, same_type}
use ft_malloc.Heap.{Zone}
use ft_malloc.Merge.Spans.{max_size}
use ft_malloc.Heap.Dll.{Span}
use ft_malloc.Cells.{Cell, pick, Stands}
use ft_malloc.Zones.{State, arena}

-- A zone's address, the end of its bytes, and its cells.
pub record Region : Type 0 where
  pub addr : ℕ
  pub limit : ℕ
  pub cells : List Cell

abbrev pub bounds : Region → ℕ × ℕ
bounds r = (r.addr, r.limit)

-- What `mmap` was asked for.
abbrev pub extent : Region → ℕ × ℕ
extent r = (r.addr, r.limit - r.addr)

-- Zones at the addresses, from `a` on, linked both ways; `p` is the one in front of `a`.
abbrev pub ZoneDll : (ℕ → Zone) → ℕ → ℕ → List (ℕ × ℕ) → Type 0
ZoneDll zone p a [] = a ≡ 0
ZoneDll zone p a (z ∷ zs) = (a ≡ z.0) × ((zone z.0).prev ≡ p) × ZoneDll zone z.0 (zone z.0).next zs

-- The zone at `r.addr`, a multiple of 16, stands for the cells of `r`.
pub record InPlace (st : State) (r : Region) : Type 0 where
  pub stands : Stands (arena st r.addr) r.cells
  pub start : (st.zone r.addr).start ≡ r.addr
  pub end : (st.zone r.addr).end ≡ r.limit
  pub total_space : (st.zone r.addr).total_space + 80 ≡ r.limit - r.addr
  pub room : r.addr + 80 ≤ r.limit
  pub aligned : r.addr % 16 ≡ 0

abbrev pub Apart : ℕ × ℕ → ℕ × ℕ → Type 0
Apart r s = (r.1 ≤ s.0) ⊎ (s.1 ≤ r.0)

-- No two of the regions have a byte in common.
abbrev pub Separate : List (ℕ × ℕ) → Type 0
Separate [] = Unit {0}
Separate (z ∷ zs) = All (Apart z) zs × Separate zs

-- The zones of the process: linked, each standing for its cells, and disjoint; and the process
-- holds from `mmap` just their bytes.
pub record Layout (st : State) (rs : List Region) : Type 0 where
  pub linked : ZoneDll st.zone 0 st.g_zones (map bounds rs)
  pub each : All (InPlace st) rs
  pub apart : Separate (map bounds rs)
  pub mapped : st.mapped ≡ map extent rs

-- A large zone has one used cell.
abbrev pub Sole : State → Region → Type 0
Sole st r = (same_type (st.zone r.addr).type large ≡ false) ⊎ (length (pick true r.cells) ≡ 1)

-- The largest free space that the zone's header records is right, while the zone has a free cell.
abbrev pub Recorded : State → Region → Type 0
Recorded st r =
    (pick false r.cells ≡ [])
    ⊎ ((st.zone r.addr).max_free_space_size ≡ max_size 0 (pick false r.cells))

abbrev pub Sound : State → Region → Type 0
Sound st r = Sole st r × Recorded st r

pub record Inv (st : State) (rs : List Region) : Type 0 where
  pub layout : Layout st rs
  pub sound : All (Sound st) rs

-- The blocks in use, zone by zone, in the order of their addresses within each.
abbrev pub used_blocks : List Region → List Span
used_blocks [] = []
used_blocks (r ∷ rs) = pick true r.cells ++ used_blocks rs

-- The number of zones and cells.
abbrev pub weight : List Region → ℕ
weight [] = 0
weight (r ∷ rs) = 1 + length r.cells + weight rs

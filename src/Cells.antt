-- ===== src/Cells.antt =====
-- The abstract view of a zone: cells, used or free, that fill its bytes without a gap.
pub mod Window
pub mod Change
pub mod Coalesce
pub mod Convert
pub mod Split
pub mod Trim
pub mod Extend
pub mod Neighbours
pub mod ExtendBack
pub mod TryExtend
pub mod Allocate
pub mod FirstFit
pub mod Place
pub mod Stats
use ft_malloc.Base.{
  ℕ, ◌+◌, ◌%◌, ◌^◌, ◌≤◌, ◌<◌, ◌≡◌, ◌≢◌, ◌⊎◌, Bool, true, false, not, List, [], ◌∷◌, ◌++◌, arith,
  length, if◌then◌else◌,
}
use ft_malloc.Heap.{Arena}
use ft_malloc.Heap.Dll.{Span, Dll}
use ft_malloc.Merge.Spans.{max_size}

-- A header at `addr` with `size` bytes behind it.
pub record Cell : Type 0 where
  pub addr : ℕ
  pub size : ℕ
  pub used : Bool

abbrev pub fin : Cell → ℕ
fin c = c.addr + 32 + c.size

abbrev pub span : Cell → Span
span c = record { addr = c.addr; size = c.size; fin = fin c }

abbrev pub same : Bool → Bool → Bool
same true b = b
same false b = not b

-- The spans of the used cells (`true`) or of the free ones (`false`).
abbrev pub pick : Bool → List Cell → List Span
pick b [] = []
pick b (c ∷ cs) = if same b c.used then span c ∷ pick b cs else pick b cs

-- A multiple of 16, and not 0.
abbrev pub Whole : ℕ → Type 0
Whole n = (16 ≤ n) × (n % 16 ≡ 0)

-- A size as `align_size` gives it: a multiple of 16, not 0, unless it is too large for any zone.
abbrev pub Asked : ℕ → Type 0
Asked n = (16 ≤ n) × ((n % 16 ≡ 0) ⊎ (2 ^ 64 ≤ n + 16))

-- A size that fits somewhere is such a multiple.
pub Asked-Whole : (n m : ℕ) → Asked n → n ≤ m → m + 112 ≤ 2 ^ 64 → Whole n
Asked-Whole n m a l t = omega (arith, a, l, t)

-- The cells follow one another from `pos` up to `end`, and each has a multiple of 16 bytes.
abbrev pub Tiles : ℕ → ℕ → List Cell → Type 0
Tiles pos end [] = pos ≡ end
Tiles pos end (c ∷ cs) = (c.addr ≡ pos) × Whole c.size × Tiles (pos + 32 + c.size) end cs

-- The bytes of the free cells, with their headers.
abbrev pub free_bytes : List Cell → ℕ
free_bytes [] = 0
free_bytes (c ∷ cs) = if c.used then free_bytes cs else 32 + c.size + free_bytes cs

-- The two lists of the zone stand for the used and the free cells, and its counters are right.
pub record Stands (a : Arena) (cs : List Cell) : Type 0 where
  pub self : a.self ≢ 0
  pub tiles : Tiles (a.zone.start + 80) a.zone.end cs
  pub top : a.zone.end < 2 ^ 64
  pub blocks : Dll a.hdr 0 a.zone.blocks (pick true cs)
  pub empties : Dll a.hdr 0 a.zone.empty_spaces (pick false cs)
  pub blocks_num : a.zone.blocks_num ≡ length (pick true cs) % 2 ^ 32
  pub remaining_space : a.zone.remaining_space ≡ free_bytes cs

-- `max_free_space_size` is right too, while there is a free cell.
pub record Holds (a : Arena) (cs : List Cell) : Type 0 where
  pub lists : Stands a cs
  pub max_free_space_size :
      (pick false cs ≡ []) ⊎ (a.zone.max_free_space_size ≡ max_size 0 (pick false cs))

-- What no operation on a zone's blocks changes: the zone's place and kind, its links to other
-- zones, every header outside its bytes, and the bytes of the blocks.
pub record Within (a b : Arena) : Type 0 where
  pub self : b.self ≡ a.self
  pub start : b.zone.start ≡ a.zone.start
  pub end : b.zone.end ≡ a.zone.end
  pub type : b.zone.type ≡ a.zone.type
  pub total_space : b.zone.total_space ≡ a.zone.total_space
  pub prev : b.zone.prev ≡ a.zone.prev
  pub next : b.zone.next ≡ a.zone.next
  pub bytes : b.bytes ≡ a.bytes
  pub outside : (x : ℕ) → 0 < x → (x < a.zone.start + 80) ⊎ (a.zone.end ≤ x) → b.hdr x ≡ a.hdr x

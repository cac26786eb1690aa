-- ===== src/Process/Allocate.antt =====
-- A request served in one zone, seen from the whole process.
use ft_malloc.Base.{
  ℕ, suc, ◌+◌, ◌^◌, ◌<◌, ◌≤◌, ◌≡◌, ◌⊎◌, inl, inr, refl, ap, ◌∙◌, true, false, List, [], ◌∷◌, ◌++◌,
  All, arith, length, some, length-append,
}
use ft_malloc.Sizes.{large, same_type}
use ft_malloc.Heap.{Arena}
use ft_malloc.Heap.Dll.{Span}
use ft_malloc.Alloc.{allocate_block}
use ft_malloc.Cells.{Asked, Cell, pick, span}
use ft_malloc.Cells.Window.{pick-middle, pick-around, pick-append}
use ft_malloc.Cells.Place.{taken, rest}
use ft_malloc.Cells.FirstFit.{AllBelow, FirstFit, allocate_block-first_fit}
use ft_malloc.Zones.{State, arena, put_arena}
use ft_malloc.Process.{Region, InPlace, Layout, Sole, Sound, Inv}
use ft_malloc.Process.Lists.{All-around}
use ft_malloc.Process.Update.{update-Inv}
use ft_malloc.Process.Live.{cell_range}

-- Nothing used is left over from a free cell.
rest-free : (c : Cell) (n : ℕ) → (pick true (rest c n) ≡ []) × (length (rest c n) ≤ 1)
rest-free c n = ground arith

-- The used cells once a free one has been taken.
used-taken :
    (cs : List Cell) (c : Cell) (ds : List Cell) (n : ℕ)
    → pick true (cs ++ taken c n ∷ (rest c n ++ ds))
      ≡ pick true cs ++ span (taken c n) ∷ pick true ds
used-taken cs c ds n =
    pick-middle true cs (taken c n) (rest c n ++ ds) refl
    ∙ ap (λ l. pick true cs ++ span (taken c n) ∷ l)
        (pick-append true (rest c n) ds ∙ rw ((rest-free c n).0) refl)

-- The cells that a request leaves of a zone: one more is used, of `n` bytes at least.
pub record Grown (cs ds : List Cell) (b n : ℕ) : Type 0 where
  pub front : List Span
  pub block : Span
  pub back : List Span
  pub before : pick true cs ≡ front ++ back
  pub after : pick true ds ≡ front ++ block ∷ back
  pub here : block.addr ≡ b
  pub size : n ≤ block.size
  pub count : length ds ≤ length cs + 1

taken-Grown :
    (cs front : List Cell) (c : Cell) (back : List Cell) (n : ℕ)
    → FirstFit n cs front c back
    → Grown cs (front ++ taken c n ∷ (rest c n ++ back)) c.addr n
taken-Grown cs front c back n f = record {
  front = pick true front;
  block = span (taken c n);
  back = pick true back;
  before = ap (pick true) f.split ∙ pick-around true front c back f.is_free;
  after = used-taken front c back n;
  here = refl;
  size = ground (arith, f.fits);
  count = omega (
    arith,
    ap length f.split,
    length-append front (c ∷ back),
    length-append front (taken c n ∷ (rest c n ++ back)),
    length-append (rest c n) back,
    (rest-free c n).1,
  );
}

-- A zone that may take another used cell: one that is not large, or has none yet.
abbrev pub MayTake : State → Region → Type 0
MayTake st r = (same_type (st.zone r.addr).type large ≡ false) ⊎ (pick true r.cells ≡ [])

module _ (fuel : ℕ) (st : State) (front : List Region) (r : Region) (back : List Region)
    (l : Layout st (front ++ r ∷ back)) (o : All (Sound st) (front ++ back)) (may : MayTake st r)
    (n : ℕ) (low : Asked n) (f : suc (length r.cells) < fuel) where
  place : InPlace st r
  place = (All-around (InPlace st) front r back l.each).1

  -- A block of the zone, and the whole process behind the allocation.
  pub record Served : Type 0 where
    pub arena_after : Arena
    pub cells : List Cell
    pub addr : ℕ
    pub runs : allocate_block fuel (arena st r.addr) n ≡ some (arena_after, addr)
    pub inv : Inv (put_arena st arena_after) (front ++ record r { cells = cells } ∷ back)
    pub grown : Grown r.cells cells addr n
    pub range : (0 < addr) × (addr + 32 < 2 ^ 64)
    pub bytes : arena_after.bytes ≡ st.bytes

  sole : (cs : List Cell) (b : ℕ) → Grown r.cells cs b n → Sole st (record r { cells = cs })
  sole cs b g = elim may [
    | inl small ↦ inl small
    | inr empty ↦ inr (
        omega (
          arith,
          ap length empty,
          ap length g.before,
          ap length g.after,
          length-append g.front g.back,
          length-append g.front (g.block ∷ g.back),
        ))
  ]

  -- Either no free cell of the zone is large enough and nothing changes, or a block is cut from one.
  pub allocate_served :
      AllBelow n (pick false r.cells)
        × (allocate_block fuel (arena st r.addr) n ≡ some (arena st r.addr, 0))
      ⊎ Served
  allocate_served =
      elim (allocate_block-first_fit fuel (arena st r.addr) r.cells n place.stands low f) [
        | inl small ↦ inl small
        | inr (cs, c, ds, first, (b, runs, holds, within)) ↦
            let cells : List Cell = cs ++ taken c n ∷ (rest c n ++ ds) in
            let grown = taken-Grown r.cells cs c ds n first in
            inr (record {
              arena_after = b;
              cells = cells;
              addr = c.addr;
              runs = runs;
              inv = update-Inv st front r back b cells l o within holds (sole cells c.addr grown);
              grown = grown;
              range = omega (arith, cell_range st r cs c ds place first.split);
              bytes = within.bytes;
            })
      ]

-- ===== src/Demo/Runs.antt =====
-- Calls on the process that has the zone of the tests alone.
use ft_malloc.Base.{
  inr, ◌+◌, ◌*◌, ℕ, ◌^◌, ◌-◌, ◌≡◌, ◌⊎◌, inl, refl, none, some, List, [], ◌∷◌, arith,
}
use ft_malloc.Sizes.{align_size}
use ft_malloc.Zones.{State, Platform}
use ft_malloc.Api.{free, malloc}
use ft_malloc.Blocks.{try_to_extend_block}
use ft_malloc.Cells.{span}
use ft_malloc.Cells.TryExtend.{Extended, try_to_extend_block_lem}
use ft_malloc.Process.{Region, Inv}
use ft_malloc.Process.Free.{FreeSpec, free_refines}
use ft_malloc.Process.FindZone.{FromMmap, FindZone, find_zone_lem}
use ft_malloc.Process.Malloc.{Answered, malloc_refines}
use ft_malloc.Process.Realloc.{ReallocSpec, realloc_refines}
use ft_malloc.Base.{◌≤◌}
use ft_malloc.Sizes.{tiny, large}
use ft_malloc.Heap.{Arena}
use ft_malloc.Zones.{arena, put_arena}
use ft_malloc.Cells.{Holds, Within}
use ft_malloc.Api.NewZone.{with_zone}
use ft_malloc.Api.LargeZone.{sole_cell, malloc-large}
use ft_malloc.Show.{Line, zone_line, block_line, show_alloc_mem}
use ft_malloc.Show.Extended.{show_alloc_mem_ex}
use ft_malloc.Process.Report.{show_alloc_mem-listing}
use ft_malloc.Process.Statistics.{statistics, show_alloc_mem_ex-statistics}
use ft_malloc.Merge.Spans.{max_size}
use ft_malloc.Process.Twice.{free-twice}
use ft_malloc.Demo.{cell, cells, state, demo, demo-Stands}

abbrev pub pf : Platform
pf = record { page_size = 4096; max_alloc_size = 2 ^ 64 - 1 }

abbrev regions : List Region
regions = record { addr = 4096; limit = 4528; cells = cells } ∷ []

state-Inv : Inv state regions
unfolding max_size
state-Inv = record {
  layout = record {
    linked = (refl, refl, refl);
    each = (
      record {
        stands = demo-Stands;
        start = refl;
        end = refl;
        total_space = refl;
        room = omega arith;
        aligned = omega arith;
      },
      tt,
    );
    apart = (tt, tt);
    mapped = refl;
  };
  sound = ((inl refl, inr refl), tt);
}

free_refines_example : FreeSpec 12 state regions 4384
free_refines_example = free_refines 12 state 4384 regions state-Inv (omega arith)

malloc_refines_example :
    (new : State) × (p : ℕ) × (malloc pf 12 state none 40 ≡ some (new, p))
    × Answered state regions 40 new p
malloc_refines_example =
    malloc_refines pf 12 state none regions state-Inv (omega arith) (omega arith) 40 FromMmap.failed

realloc_refines_example : ReallocSpec pf 12 state none regions 4208 100
realloc_refines_example =
    realloc_refines pf 12 state none (omega arith) 4208 100 (omega arith) (omega arith) regions
      state-Inv (omega arith) FromMmap.failed

find_zone_lem_example : FindZone pf 12 state none regions 48
find_zone_lem_example =
    find_zone_lem pf 12 state regions 48 state-Inv (omega arith) none (omega arith) FromMmap.failed
      (omega arith)

-- The first cell is extended over the free one behind it.
try_to_extend_block_lem_example :
    (try_to_extend_block 10 demo 4176 112 ≡ some (demo, 0))
    ⊎ Extended demo
        (cell 4176 48 1)
        []
        (span (cell 4352 16 1) ∷ [])
        112
        5
        (try_to_extend_block 10 demo 4176 112)
try_to_extend_block_lem_example =
    try_to_extend_block_lem 10 demo 112 (omega arith) [] (cell 4176 48 1)
      (cell 4256 64 0 ∷ cell 4352 16 1 ∷ cell 4400 96 0 ∷ []) demo-Stands refl (omega arith)

show_alloc_mem-listing_example :
    (show_alloc_mem 12 state
      ≡ some (zone_line tiny 4096 ∷ block_line 4176 4256 80 ∷ block_line 4352 4400 48 ∷ [], 64))
    × (80 + (48 + 0) ≡ 48 + (16 + 0) + 32 * 2)
show_alloc_mem-listing_example = show_alloc_mem-listing 12 state regions state-Inv (omega arith)

show_alloc_mem_ex-statistics_example :
    (lines : List Line) × (total : ℕ) × (show_alloc_mem_ex 12 state
      ≡ some (lines, total, statistics state regions, 2, 2))
show_alloc_mem_ex-statistics_example =
    show_alloc_mem_ex-statistics 12 state regions state-Inv (omega arith)

malloc-large_example :
    let new = with_zone state 65536 large 10112 in
    (b : Arena) × (malloc pf 12 state (some 65536) 9999 ≡ some (put_arena new b, 65648))
    × (9999 ≤ 10000)
    × Holds b (sole_cell 65536 10000 ∷ [])
    × Within (arena new 65536) b
unfolding align_size
malloc-large_example =
    malloc-large pf 12 state 65536 9999 (omega arith) (omega arith) (omega arith) (omega arith)
      (omega arith) (omega arith)

free-twice_example : (new : State) × (free 12 state 4384 ≡ some new) × (free 12 new 4384 ≡ some new)
free-twice_example = free-twice 12 state 4384 regions state-Inv (omega arith)

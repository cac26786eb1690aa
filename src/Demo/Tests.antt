-- ===== src/Demo/Tests.antt =====
-- The theorems about zones, at a small zone, and runs of the calls.
use ft_malloc.Base.{◌+◌, ◌≡◌, ◌⊎◌, refl, [], ◌∷◌, arith, some, ◌^◌, ◌++◌, none, ap, length}
use ft_malloc.Cells.{Stands, Holds, Within}
use ft_malloc.Cells.Coalesce.{coalesce}
use ft_malloc.Cells.Convert.{convert_block_to_empty-coalesce}
use ft_malloc.Cells.FirstFit.{FirstFitResult, allocate_block-first_fit}
use ft_malloc.Cells.Stats.{merge_empty_spaces-coalesce}
use ft_malloc.Blocks.{convert_block_to_empty}
use ft_malloc.Merge.{merge_empty_spaces}
use ft_malloc.Heap.{Arena}
use ft_malloc.Demo.{
  cell, cells, demo, demo-Stands, state, torn, torn_cells, torn-Stands, full, full_cells,
  full-Stands, full_state,
}
use ft_malloc.Base.{◌-◌}
use ft_malloc.Sizes.{tiny, small, get_zone_type, align_size}
use ft_malloc.Cells.{span}
use ft_malloc.Zones.{zone_init, arena, put_arena}
use ft_malloc.Zones.Init.{fresh_cell, zone_init-Stands}
use ft_malloc.Libft.Memory.{ft_memmove}
use ft_malloc.Libft.Memory.Overlap.{ft_memmove-moved}
use ft_malloc.Show.{zone_line_ex, print_zone_ex}
use ft_malloc.Show.Lines.{print_zone_ex-full}
use ft_malloc.Base.{List, inr}
use ft_malloc.Cells.{Cell}
use ft_malloc.Cells.Place.{taken, rest}
use ft_malloc.Cells.FirstFit.{FirstFit}
use ft_malloc.Merge.Spans.{max_size}
use ft_malloc.Api.{malloc, free}
use ft_malloc.Api.Free.{free-rejected}
use ft_malloc.Api.Malloc.{malloc-served}
use ft_malloc.Api.NewZone.{with_zone, malloc-new_zone}
use ft_malloc.Blocks.{split_block}
use ft_malloc.Cells.Split.{split_block-coalesce}
use ft_malloc.Api.{realloc}
use ft_malloc.Api.Shrink.{realloc-shrunk}

allocate_block-first_fit_example : FirstFitResult 10 demo cells 80
allocate_block-first_fit_example =
    allocate_block-first_fit 10 demo cells 80 demo-Stands (omega arith) (omega arith)

convert_block_to_empty-coalesce_example :
    (b : Arena) × (convert_block_to_empty 10 demo 4352 ≡ some b)
    × Holds b (coalesce (cell 4176 48 1 ∷ cell 4256 64 0 ∷ cell 4352 16 0 ∷ cell 4400 96 0 ∷ []))
    × Within demo b
convert_block_to_empty-coalesce_example =
    convert_block_to_empty-coalesce demo (cell 4176 48 1 ∷ cell 4256 64 0 ∷ []) (cell 4352 16 1)
      (cell 4400 96 0 ∷ []) demo-Stands refl 10 (omega arith)

merge_empty_spaces-coalesce_example :
    (b : Arena) × (merge_empty_spaces 10 torn ≡ some b)
    × Holds b (coalesce torn_cells)
    × Within torn b
merge_empty_spaces-coalesce_example =
    merge_empty_spaces-coalesce 10 torn torn_cells torn-Stands (omega arith)

zone_init-Stands_example :
    let new = zone_init state 8192 small 4096 in
    Stands (arena new 8192) (fresh_cell 8192 4096 ∷ [])
    × (new.g_zones ≡ 8192)
    × ((new.zone 8192).type ≡ small)
    × ((new.zone 8192).start ≡ 8192)
    × ((new.zone 8192).end ≡ 8192 + 4096)
    × ((new.zone 8192).next ≡ 4096)
    × (state.g_zones ≡ 0 ⊎ ((new.zone 4096).prev ≡ 8192))
zone_init-Stands_example =
    zone_init-Stands state 8192 small 4096 (omega arith) (omega arith) (omega arith) (omega arith)

ft_memmove-moved_example : ft_memmove (λ x. x) 12 10 5 14 ≡ 12
ft_memmove-moved_example = ft_memmove-moved (λ x. x) 12 10 5 (omega arith) (omega arith) 14

print_zone_ex-full_example :
    print_zone_ex 3 full.hdr full.zone ≡ some (zone_line_ex tiny 4096 4528 432 ∷ [], 0)
print_zone_ex-full_example =
    print_zone_ex-full 3 full full_cells (span (cell 4176 320 1)) [] full-Stands refl refl
      (omega arith)

-- 4288 is the payload of a free cell.
free-rejected_example : free 10 state 4288 ≡ some state
free-rejected_example =
    free-rejected 10 state 4288 (4096 ∷ []) cells (refl, omega arith, refl) (omega arith)
      (inr (demo-Stands, omega arith, refl))

malloc-served_example :
    (front : List Cell) × (c : Cell) × (back : List Cell) × FirstFit 48 cells front c back
    × ((b : Arena) × (malloc
            (record { page_size = 4096; max_alloc_size = 2 ^ 64 - 1 })
            10
            state
            none
            40
          ≡ some (put_arena state b, c.addr + 32))
        × Holds b (front ++ taken c 48 ∷ (rest c 48 ++ back))
        × Within demo b)
unfolding align_size get_zone_type max_size
malloc-served_example =
    malloc-served (record { page_size = 4096; max_alloc_size = 2 ^ 64 - 1 }) 10 state none 40
      (4096 ∷ []) 4096 cells (omega arith) (omega arith) (omega arith) (refl, omega arith, refl)
      (omega arith) refl (record { lists = demo-Stands; max_free_space_size = inr refl })
      (λ e. omega (arith, ap length e)) (omega arith)

malloc-new_zone_example :
    let new = with_zone state 16384 small 393216 in
    (front : List Cell) × (c : Cell) × (back : List Cell) × FirstFit 2000
      (fresh_cell 16384 393216 ∷ [])
      front
      c
      back
    × ((b : Arena) × (malloc
            (record { page_size = 4096; max_alloc_size = 2 ^ 64 - 1 })
            10
            state
            (some 16384)
            2000
          ≡ some (put_arena new b, c.addr + 32))
        × Holds b (front ++ taken c 2000 ∷ (rest c 2000 ++ back))
        × Within (arena new 16384) b)
unfolding align_size get_zone_type
malloc-new_zone_example =
    malloc-new_zone (record { page_size = 4096; max_alloc_size = 2 ^ 64 - 1 }) 10 state 16384 2000
      (4096 ∷ []) (omega arith) (omega arith) (omega arith) (omega arith) (refl, omega arith, refl)
      (omega arith) (omega arith) refl (omega arith) (omega arith) (omega arith)

split_block-coalesce_example :
    (b : Arena) × (split_block 3 full 4176 112 ≡ some b)
    × Holds b (coalesce (cell 4176 112 1 ∷ cell 4320 176 0 ∷ []))
    × Within full b
split_block-coalesce_example =
    split_block-coalesce full [] (cell 4176 320 1) [] 112 full-Stands refl (omega arith)
      (omega arith) 3 (omega arith)

realloc-shrunk_example :
    (b : Arena) × (realloc
        (record { page_size = 4096; max_alloc_size = 2 ^ 64 - 1 })
        3
        full_state
        none
        4208
        100
      ≡ some (put_arena full_state b, 4208))
    × Holds b (coalesce (cell 4176 112 1 ∷ cell 4320 176 0 ∷ []))
    × Within full b
unfolding align_size
realloc-shrunk_example =
    realloc-shrunk (record { page_size = 4096; max_alloc_size = 2 ^ 64 - 1 }) 3 full_state none
      (4096 ∷ []) 4096 [] (cell 4176 320 1) [] 100 (refl, omega arith, refl) (omega arith) refl
      full-Stands refl (omega arith) (omega arith) (omega arith) (omega arith)

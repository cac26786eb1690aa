-- ===== src/Merge.antt =====
-- `update_empty_stats` of src/malloc_utils.c and `merge_empty_spaces` of src/free_utils.c.
-- Both loops take one unit of fuel for each round, and give `none` when it runs out.
pub mod Stats
pub mod Spans
pub mod Loop
use ft_malloc.Base.{ℕ, zero, suc, Bool, ◌||◌, Option, none, some, ltb, ◌==◌, if◌then◌else◌, ◌>>=◌}
use ft_malloc.Base.Words.{add64, sub64}
use ft_malloc.Sizes.{header_size, min_split_size}
use ft_malloc.Heap.{Headers, Block, Arena, write, set_next, set_prev, set_span}

-- The loop over the empty spaces that keeps the largest `data_size`.
unfoldable pub max_loop : ℕ → Headers → (iter best : ℕ) → Option ℕ
max_loop zero h iter best = none
max_loop (suc k) h iter best =
    let rest =
      max_loop k h (h iter).next
        (if ltb best (h iter).data_size then (h iter).data_size else best) in
    if iter == 0 then some best else rest

unfoldable pub update_empty_stats : ℕ → Arena → Option Arena
unfolding max_loop
update_empty_stats fuel a = if (a.self == 0) || (a.zone.empty_spaces == 0) then some a else do
  best ← max_loop fuel a.hdr a.zone.empty_spaces (a.hdr a.zone.empty_spaces).data_size
  some (record a { zone = record a.zone { max_free_space_size = best } })

-- `empty` takes over the bytes of the empty space behind it, and the gap between the two.
unfoldable pub absorb : Headers → (empty next_empty gap : ℕ) → Headers
unfolding set_next set_prev set_span
absorb h empty next_empty gap =
    let size = add64 (h empty).data_size (add64 (add64 gap (h next_empty).data_size) header_size) in
    let h1 = set_span h empty size (h next_empty).end in
    let h2 = set_next h1 empty (h1 next_empty).next in
    if (h2 next_empty).next == 0 then h2 else set_prev h2 (h2 next_empty).next empty

unfoldable pub merge_loop : ℕ → Headers → ℕ → Option Headers
unfolding absorb
merge_loop zero h empty = none
merge_loop (suc k) h empty =
    let next_empty = (h empty).next in
    let gap = sub64 next_empty (h empty).end in
    let merged = merge_loop k (absorb h empty next_empty gap) empty in
    let moved_on = merge_loop k h next_empty in
    if (empty == 0) || (next_empty == 0)
    then some h
    else if ltb gap min_split_size
    then merged
    else moved_on

unfoldable pub merge_empty_spaces : ℕ → Arena → Option Arena
unfolding merge_loop update_empty_stats
merge_empty_spaces fuel a = do
  h ← merge_loop fuel a.hdr a.zone.empty_spaces
  update_empty_stats fuel (record a { hdr = h })

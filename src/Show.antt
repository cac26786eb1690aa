-- ===== src/Show.antt =====
-- src/show_alloc_mem.c and src/show_alloc_mem_ex.c: what the two reports list and count. A line of
-- the report is a value with the numbers that it prints; its colours and words are not modelled.
pub mod Extended
pub mod Banner
pub mod Lines
use ft_malloc.Base.{
  ℕ, zero, suc, ◌+◌, ◌%◌, ◌^◌, ◌&&◌, not, Bool, Option, none, some, List, [], ◌∷◌, ◌++◌, ltb, ◌==◌,
  if◌then◌else◌, ◌>>=◌,
}
use ft_malloc.Base.Words.{add64}
use ft_malloc.Sizes.{EType, header_size, zone_header_size}
use ft_malloc.Heap.{Headers, Zone}
use ft_malloc.Zones.{State}

pub data Line : Type 0 where
  zone_line : EType → (start : ℕ) → Line
  zone_line_ex : EType → (start end bytes : ℕ) → Line
  block_line empty_line : (addr end bytes : ℕ) → Line

-- The loop of `print_zone` in show_alloc_mem.c: the lines, and `total_allocated`.
unfoldable pub print_blocks : ℕ → Headers → (block total : ℕ) → Option (List Line × ℕ)
print_blocks zero h block total = none
print_blocks (suc k) h block total =
    let rest = print_blocks k h (h block).next (add64 total (h block).data_size) in
    if block == 0 then some ([], total) else do
      (lines, sum) ← rest
      some (block_line block (h block).end (add64 (h block).data_size header_size) ∷ lines, sum)

unfoldable pub print_zone : ℕ → Headers → Zone → Option (List Line × ℕ)
print_zone fuel h z = do
  (lines, total) ← print_blocks fuel h z.blocks 0
  some (zone_line z.type z.start ∷ lines, total)

-- `show_alloc_mem`: the lines of all zones, and the total.
unfoldable pub show_loop : ℕ → State → (zone total : ℕ) → Option (List Line × ℕ)
show_loop zero st zone total = none
show_loop (suc k) st zone total =
    let rest = λ (t : ℕ). show_loop k st (st.zone zone).next t in
    if zone == 0 then some ([], total) else do
      (lines, sum) ← print_zone (suc k) st.hdr (st.zone zone)
      (more, all) ← rest (add64 total sum)
      some (lines ++ more, all)

unfoldable pub show_alloc_mem : ℕ → State → Option (List Line × ℕ)
show_alloc_mem fuel st = if st.g_zones == 0 then some ([], 0) else show_loop fuel st st.g_zones 0

-- The loop that counts a list's headers, of `count_items`.
unfoldable pub count_loop : ℕ → Headers → (iter count : ℕ) → Option ℕ
count_loop zero h iter count = none
count_loop (suc k) h iter count =
    let rest = count_loop k h (h iter).next (count + 1) in if iter == 0 then some count else rest

unfoldable pub count_items : ℕ → Headers → Zone → Option ℕ
count_items fuel h z = do
  blocks ← count_loop fuel h z.blocks 0
  count_loop fuel h z.empty_spaces blocks

-- The merged walk of `print_zone` in show_alloc_mem_ex.c, one item in each round.
unfoldable pub merged_loop : (rounds : ℕ) → Headers → (block empty total : ℕ) → List Line × ℕ
merged_loop zero h block empty total = ([], total)
merged_loop (suc k) h block empty total =
    let at_block = merged_loop k h (h block).next empty (add64 total (h block).data_size) in
    let at_empty = merged_loop k h block (h empty).next total in
    let neither = merged_loop k h block empty total in
    if not (block == 0) && ltb block empty
    then (
      block_line block (h block).end (add64 (h block).data_size header_size) ∷ at_block.0,
      at_block.1,
    )
    else if not (empty == 0)
    then (
      empty_line empty (h empty).end (add64 (h empty).data_size header_size) ∷ at_empty.0,
      at_empty.1,
    )
    else neither

unfoldable pub print_zone_ex : ℕ → Headers → Zone → Option (List Line × ℕ)
print_zone_ex fuel h z = do
  items ← count_items fuel h z
  if items == 0
      then some ([], 0)
      else (let (lines, total) = merged_loop items h z.blocks z.empty_spaces 0 in
          some (
            zone_line_ex z.type z.start z.end (add64 z.total_space zone_header_size) ∷ lines,
            total,
          ))

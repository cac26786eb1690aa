-- ===== src/Show/Extended.antt =====
-- `show_alloc_mem_ex`: the extended listing of all zones, and the statistics.
use ft_malloc.Base.{
  ℕ, zero, suc, ◌+◌, ◌%◌, ◌^◌, Option, none, some, List, [], ◌∷◌, ◌++◌, ◌==◌, if◌then◌else◌, ◌>>=◌,
}
use ft_malloc.Base.Words.{add64}
use ft_malloc.Sizes.{EType}
use ft_malloc.Zones.{State}
use ft_malloc.Show.{Line, count_loop, print_zone_ex}

-- What the statistics print of a zone.
pub record ZoneStats : Type 0 where
  pub type : EType
  pub start : ℕ
  pub end : ℕ
  pub total_space : ℕ
  pub remaining_space : ℕ
  pub max_free_space_size : ℕ
  pub blocks_num : ℕ
  pub empty_count : ℕ

unfoldable pub listing_loop : ℕ → State → (zone total : ℕ) → Option (List Line × ℕ)
listing_loop zero st zone total = none
listing_loop (suc k) st zone total =
    let rest = λ (t : ℕ). listing_loop k st (st.zone zone).next t in
    if zone == 0 then some ([], total) else do
      (lines, sum) ← print_zone_ex (suc k) st.hdr (st.zone zone)
      (more, all) ← rest (add64 total sum)
      some (lines ++ more, all)

-- `total_blocks` and `total_empty` are `u_int`s.
unfoldable pub stats_loop :
    ℕ → State → (zone total_blocks total_empty : ℕ) → Option (List ZoneStats × ℕ × ℕ)
stats_loop zero st zone total_blocks total_empty = none
stats_loop (suc k) st zone total_blocks total_empty =
    let z = st.zone zone in
    let rest = λ (b e : ℕ). stats_loop k st z.next b e in
    if zone == 0 then some ([], total_blocks, total_empty) else do
      empty_count ← count_loop (suc k) st.hdr z.empty_spaces 0
      (more, blocks, empties) ←
          rest ((total_blocks + z.blocks_num) % 2 ^ 32) ((total_empty + empty_count) % 2 ^ 32)
      some (
        record {
          type = z.type;
          start = z.start;
          end = z.end;
          total_space = z.total_space;
          remaining_space = z.remaining_space;
          max_free_space_size = z.max_free_space_size;
          blocks_num = z.blocks_num;
          empty_count = empty_count;
        }
            ∷ more,
        blocks,
        empties,
      )

unfoldable pub show_alloc_mem_ex : ℕ → State → Option (List Line × ℕ × List ZoneStats × ℕ × ℕ)
show_alloc_mem_ex fuel st = if st.g_zones == 0 then some ([], 0, [], 0, 0) else do
  (lines, total) ← listing_loop fuel st st.g_zones 0
  (stats, total_blocks, total_empty) ← stats_loop fuel st st.g_zones 0 0
  some (lines, total, stats, total_blocks, total_empty)

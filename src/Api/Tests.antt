-- ===== src/Api/Tests.antt =====
-- A run of the calls.
use ft_malloc.Base.{ℕ, ◌-◌, ◌^◌, ◌≡◌, refl, [], Option, none, some, ◌>>=◌}
use ft_malloc.Sizes.{tiny, align_size, get_zone_type}
use ft_malloc.Zones.{State, Platform, fresh_zone, map_zone}
use ft_malloc.Api.{malloc, free, realloc}
use ft_malloc.Api.{allocate_in_zone, release, realloc_malloc, realloc_free, move_block, resize}
use ft_malloc.Zones.{
  get_pagesize, get_max_alloc_size, put_zone, zone_init, create_large_zone, create_zone, zone_loop,
  find_zone, ptr_loop, find_zone_for_ptr, valid_loop, is_valid_block, unmap, free_large_zone,
}
use ft_malloc.Blocks.{
  add_empty, convert_block_to_empty, split_block, after_loop, find_empty_after, before_loop,
  find_empty_before, trim, take_after, extend_block, take_before, extend_block_back,
  try_to_extend_block,
}
use ft_malloc.Alloc.{
  find_loop, find_empty_space, add_block_to_list, update_empty_spaces, leftover_header,
  block_header, allocate_from_empty, allocate_block,
}
use ft_malloc.Merge.{max_loop, update_empty_stats, absorb, merge_loop, merge_empty_spaces}
use ft_malloc.Links.{
  relink_next, relink_prev, unlink, remove_block, exchange, replace_block, walk, link_front,
  link_after, insert_ordered,
}
use ft_malloc.Heap.{write, set_next, set_prev, set_span}
use ft_malloc.Libft.Memory.{set_byte, copy_up, copy_down, ft_memcpy, ft_memmove}

abbrev platform : Platform
platform = record { page_size = 4096; max_alloc_size = 2 ^ 64 - 1 }

-- No zone yet.
abbrev start : State
start = record {
  hdr = λ _. record { data_size = 0; end = 0; prev = 0; next = 0 };
  bytes = λ _. 0;
  zone = λ z. fresh_zone 0 tiny 0 0;
  g_zones = 0;
  mapped = [];
}

-- The numbers are the addresses that the calls return.
abbrev run : Option (ℕ × ℕ × ℕ × ℕ × ℕ)
run = do
  (s1, a) ← malloc platform 10 start (some 4096) 100
  (s2, b) ← malloc platform 10 s1 none 20
  (s3, c) ← malloc platform 10 s2 none 50
  s4 ← free 10 s3 a
  s5 ← free 10 s4 b
  (s6, d) ← realloc platform 10 s5 none c 300
  (s7, e) ← realloc platform 10 s6 (some 1000000) c 1300
  some (a, b, c, d, e)

run-result : run ≡ some (4208, 4352, 4416, 0, 1000112)
unfolding absorb add_block_to_list add_empty after_loop align_size allocate_block
    allocate_from_empty allocate_in_zone before_loop block_header convert_block_to_empty copy_down
    copy_up create_large_zone create_zone exchange extend_block extend_block_back find_empty_after
    find_empty_before find_empty_space find_loop find_zone find_zone_for_ptr free free_large_zone
    fresh_zone ft_memcpy ft_memmove get_max_alloc_size get_pagesize get_zone_type insert_ordered
    is_valid_block leftover_header link_after link_front malloc map_zone max_loop merge_empty_spaces
    merge_loop move_block ptr_loop put_zone realloc realloc_free realloc_malloc release relink_next
    relink_prev remove_block replace_block resize set_byte set_next set_prev set_span split_block
    take_after take_before trim try_to_extend_block unlink unmap update_empty_spaces
    update_empty_stats valid_loop walk write zone_init zone_loop
run-result = refl

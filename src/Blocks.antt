-- ===== src/Blocks.antt =====
-- Blocks of a zone that are given back, shortened or extended: src/free_convert_block_to_empty.c,
-- src/realloc_utils.c and src/realloc_try_to_extend_block.c.
use ft_malloc.Base.{
  ℕ, zero, suc, ◌+◌, ◌-◌, ◌%◌, ◌^◌, Option, none, some, ltb, leb, ◌==◌, if◌then◌else◌, ◌>>=◌,
}
use ft_malloc.Base.Words.{add64, sub64}
use ft_malloc.Sizes.{header_size, min_split_size, empty, block}
use ft_malloc.Heap.{Headers, Arena, chain, with_chain, set_span, block_payload}
use ft_malloc.Links.{heap, remove_block, replace_block, insert_ordered}
use ft_malloc.Merge.{update_empty_stats, merge_empty_spaces}
use ft_malloc.Libft.Memory.{ft_memmove}

-- The ordered insertion into `empty_spaces`, which stands both in `convert_block_to_empty` and in
-- `split_block`.
unfoldable pub add_empty : ℕ → Arena → ℕ → Option Arena
add_empty fuel a new_empty = do
  c ← insert_ordered fuel (chain empty a) new_empty
  some (with_chain empty a c)

unfoldable pub convert_block_to_empty : ℕ → Arena → ℕ → Option Arena
convert_block_to_empty fuel a b = do
  let removed = remove_block a (heap b) block
  let counted = record removed {
    zone = record removed.zone {
      blocks_num = (removed.zone.blocks_num + 2 ^ 32 - 1) % 2 ^ 32;
      remaining_space =
          add64 removed.zone.remaining_space (add64 (removed.hdr b).data_size header_size);
    };
  }
  listed ← add_empty fuel counted b
  merge_empty_spaces fuel listed

unfoldable pub split_block : ℕ → Arena → (b new_size : ℕ) → Option Arena
split_block fuel a b new_size =
    let leftover = sub64 (a.hdr b).data_size new_size in
    if ltb leftover min_split_size then some a else do
      let new_empty = add64 (add64 b header_size) new_size
      let size = sub64 leftover header_size
      let cut = set_span a.hdr b new_size new_empty
      let headers = set_span cut new_empty size (add64 (add64 new_empty header_size) size)
      listed ←
          add_empty fuel
            (record a {
              hdr = headers;
              zone = record a.zone { remaining_space = add64 a.zone.remaining_space leftover };
            })
            new_empty
      merge_empty_spaces fuel listed

-- The two searches: the empty space that begins where the block ends, and the one that ends where
-- the block begins; NULL (0) where there is none.
unfoldable pub after_loop : ℕ → Headers → (fin iter : ℕ) → Option ℕ
after_loop zero h fin iter = none
after_loop (suc k) h fin iter =
    let rest = after_loop k h fin (h iter).next in
    if iter == 0
    then some 0
    else if leb iter fin
    then (if fin == iter then some iter else rest)
    else some 0

unfoldable pub find_empty_after : ℕ → Arena → ℕ → Option ℕ
find_empty_after fuel a b =
    if a.zone.empty_spaces == 0
    then some 0
    else after_loop fuel a.hdr (a.hdr b).end a.zone.empty_spaces

unfoldable pub before_loop : ℕ → Headers → (b iter : ℕ) → Option ℕ
before_loop zero h b iter = none
before_loop (suc k) h b iter =
    let rest = before_loop k h b (h iter).next in
    if iter == 0
    then some 0
    else if leb (h iter).end b
    then (if b == (h iter).end then some iter else rest)
    else some 0

unfoldable pub find_empty_before : ℕ → Arena → ℕ → Option ℕ
find_empty_before fuel a b =
    if a.zone.empty_spaces == 0 then some 0 else before_loop fuel a.hdr b a.zone.empty_spaces

-- `split_block` where enough is left over, else `update_empty_stats`.
unfoldable pub trim : ℕ → Arena → (b size : ℕ) → Option Arena
trim fuel a b size =
    if leb min_split_size (sub64 (a.hdr b).data_size size)
    then split_block fuel a b size
    else update_empty_stats fuel a

-- What `extend_block` does with the empty space `e` behind the block.
unfoldable pub take_after : ℕ → Arena → (b e size : ℕ) → Option (Arena × ℕ)
take_after fuel a b e size = do
  let available = add64 (add64 (a.hdr b).data_size header_size) (a.hdr e).data_size
  let removed = remove_block a (heap e) empty
  let counted = sub64 removed.zone.remaining_space (add64 header_size (removed.hdr e).data_size)
  done ←
      trim fuel
        (record removed {
          hdr = set_span removed.hdr b available (add64 (add64 b header_size) available);
          zone = record removed.zone { remaining_space = counted };
        })
        b size
  some (done, block_payload b)

-- The arena and the payload, or NULL (0) where the space behind the block is too small.
unfoldable pub extend_block : ℕ → Arena → (b size : ℕ) → Option (Arena × ℕ)
extend_block fuel a b size = do
  e ← find_empty_after fuel a b
  if e == 0
      then some (a, 0)
      else if ltb (add64 (add64 (a.hdr b).data_size header_size) (a.hdr e).data_size) size
      then some (a, 0)
      else take_after fuel a b e size

-- What `extend_block_back` does with the empty space `e` in front of the block.
unfoldable pub take_before : ℕ → Arena → (b e size : ℕ) → Option (Arena × ℕ)
take_before fuel a b e size = do
  let available = add64 (add64 (a.hdr e).data_size header_size) (a.hdr b).data_size
  let removed = remove_block a (heap e) empty
  let counted = sub64 removed.zone.remaining_space (add64 header_size (removed.hdr e).data_size)
  let taken = record removed {
    hdr = set_span removed.hdr e available (removed.hdr b).end;
    zone = record removed.zone { remaining_space = counted };
  }
  let replaced = replace_block taken (heap b) e block
  let moved =
      ft_memmove replaced.bytes (block_payload e) (block_payload b) (replaced.hdr b).data_size
  done ← trim fuel (record replaced { bytes = moved }) e size
  some (done, block_payload e)

unfoldable pub extend_block_back : ℕ → Arena → (b size : ℕ) → Option (Arena × ℕ)
extend_block_back fuel a b size = do
  e ← find_empty_before fuel a b
  if e == 0
      then some (a, 0)
      else if ltb (add64 (add64 (a.hdr e).data_size header_size) (a.hdr b).data_size) size
      then some (a, 0)
      else take_before fuel a b e size

unfoldable pub try_to_extend_block : ℕ → Arena → (b size : ℕ) → Option (Arena × ℕ)
try_to_extend_block fuel a b size = do
  (extended, ptr) ← extend_block fuel a b size
  if ptr == 0 then extend_block_back fuel a b size else some (extended, ptr)

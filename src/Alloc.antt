-- ===== src/Alloc.antt =====
-- src/malloc_allocate_block.c: a block is cut from the first empty space that is large enough.
pub mod Exhausted
use ft_malloc.Base.{
  ℕ, zero, suc, ◌+◌, ◌%◌, ◌^◌, Option, none, some, leb, ◌==◌, if◌then◌else◌, ◌>>=◌,
}
use ft_malloc.Base.Words.{add64, sub64}
use ft_malloc.Sizes.{header_size, min_split_size, empty, block}
use ft_malloc.Heap.{Headers, Block, Arena, chain, with_chain, write, set_span}
use ft_malloc.Links.{stack, remove_block, replace_block, insert_ordered}
use ft_malloc.Merge.{update_empty_stats}

-- The loop of `find_empty_space`: NULL (0) at the end of the list, `none` when the fuel runs out.
unfoldable pub find_loop : ℕ → Headers → (iter size : ℕ) → Option ℕ
find_loop zero h iter size = none
find_loop (suc k) h iter size =
    let rest = find_loop k h (h iter).next size in
    if iter == 0 then some 0 else if leb size (h iter).data_size then some iter else rest

unfoldable pub find_empty_space : ℕ → Arena → ℕ → Option ℕ
find_empty_space fuel a size =
    if a.zone.empty_spaces == 0 then some 0 else find_loop fuel a.hdr a.zone.empty_spaces size

unfoldable pub add_block_to_list : ℕ → Arena → ℕ → Option Arena
add_block_to_list fuel a new_block = do
  c ← insert_ordered fuel (chain block a) new_block
  some (with_chain block a c)

unfoldable pub update_empty_spaces : Arena → Block → ℕ → Arena
update_empty_spaces a old_empty new_block =
    if old_empty.data_size == 0
    then remove_block a (stack old_empty) empty
    else (let new_empty = (a.hdr new_block).end in
        replace_block
          (record a { hdr = set_span a.hdr new_empty old_empty.data_size old_empty.end })
          (stack old_empty) new_empty empty)

-- The copy of the empty space's header, less what the block takes; size 0 if nothing is left.
unfoldable pub leftover_header : Block → ℕ → Block
leftover_header e size =
    let leftover = sub64 e.data_size size in
    record e { data_size = if leb min_split_size leftover then sub64 leftover header_size else 0 }

-- The header of the block, which takes all of the space if nothing is left of it.
unfoldable pub block_header : Block → (empty_space size : ℕ) → Block
block_header e empty_space size =
    let data_size =
      if (leftover_header e size).data_size == 0
      then add64 size (sub64 e.data_size size)
      else size in
    record {
      data_size = data_size;
      end = add64 (add64 empty_space header_size) data_size;
      prev = 0;
      next = 0;
    }

unfoldable pub allocate_from_empty : ℕ → Arena → (empty_space size : ℕ) → Option (Arena × ℕ)
allocate_from_empty fuel a empty_space size = do
  let old_empty = leftover_header (a.hdr empty_space) size
  let new = block_header (a.hdr empty_space) empty_space size
  let cut =
      update_empty_spaces (record a { hdr = write a.hdr empty_space new }) old_empty empty_space
  listed ← add_block_to_list fuel cut empty_space
  let counted = record listed {
    zone = record listed.zone {
      blocks_num = (listed.zone.blocks_num + 1) % 2 ^ 32;
      remaining_space =
          sub64 listed.zone.remaining_space (add64 (listed.hdr empty_space).data_size header_size);
    };
  }
  done ← update_empty_stats fuel counted
  some (done, empty_space)

-- The arena and the new block, or NULL (0) where no empty space is large enough.
unfoldable pub allocate_block : ℕ → Arena → ℕ → Option (Arena × ℕ)
allocate_block fuel a size = do
  empty_space ← find_empty_space fuel a size
  if empty_space == 0 then some (a, 0) else allocate_from_empty fuel a empty_space size

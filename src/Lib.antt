-- ===== src/Lib.antt =====
-- Verification of ft_malloc, a replacement for malloc, free and realloc.
--
-- The program. It asks mmap for zones of memory. A zone begins with a header, `t_zone`, and the
-- rest of it is divided into blocks, each behind a header of its own, `t_block`. A zone keeps two
-- doubly linked lists of these headers in the order of their addresses, the blocks in use and the
-- empty spaces, and counters for them. Zones are of three types: small requests share a tiny or a
-- small zone, and a large request has a zone of its own. The zones form a doubly linked list from
-- `g_zones`.
--
-- The files, and the code each is about.
--   Base      lists, Booleans and the `size_t` arithmetic, with its wrap at 2 ^ 64.
--   Sizes     the types, constants and macros of include/malloc.h, with `align_size` and
--             `get_zone_type` of src/malloc_utils.c.
--   Heap      `t_block` and `t_zone`: the headers are a function of their addresses. Heap.Dll says
--             what a sorted doubly linked list in it is, and Heap.Splice changes one in its middle.
--   Links     `remove_block` and `replace_block` of src/malloc_utils.c, and the ordered insertion
--             that src/malloc_allocate_block.c and others have. Links.Remove, Links.Replace and
--             Links.Insert prove what they do to a list.
--   Merge     `merge_empty_spaces` and `update_empty_stats`: Merge.Spans says what it does on a
--             list of spans, Merge.Loop that the loop does that.
--   Alloc     src/malloc_allocate_block.c.
--   Blocks    src/free_convert_block_to_empty.c, src/realloc_utils.c and
--             src/realloc_try_to_extend_block.c.
--   Zones     src/malloc_find_zone.c and the zone searches of src/free_utils.c. Zones.Lookup says
--             what the searches over the zones and their blocks find.
--   Api       src/malloc.c, src/free.c and src/realloc.c; Api.Malloc, Api.NewZone, Api.LargeZone,
--             Api.Shrink and Api.Free prove what the calls do over the cells of a zone.
--   Show      src/show_alloc_mem.c, src/show_alloc_mem_ex.c: the lines that they print, as values.
--             Show.Banner: the constructor of src/malloc.c.
--   Libft     Libft.Memory: libft/src/ft_memcpy.c and ft_memmove.c, which the allocator calls.
--             Libft.Text: the searches, comparisons and bounded copies of libft/src. Libft.Chars:
--             its functions on single characters. Libft.Numbers: ft_atoi.c, ft_atol.c, ft_atoll.c
--             and ft_itoa.c. Libft.Sorting: merge_sort.c. Libft.Partition: quick_sort.c.
--             Libft.Lists: the linked lists of libft/src/ft_lst*.c. Libft.Strings: the texts and
--             arrays of texts that ft_substr.c, ft_strdup.c, ft_strjoin.c, charjoin.c, ft_strtrim.c,
--             ft_strmapi.c, ft_striteri.c and array_*.c make. Libft.Split: ft_split.c. Libft.Lines:
--             get_next_line.c. Libft.Output: ft_put*.c, and ft_printf.c in Libft.Output.Printf;
--             Libft.Output.Expand relates a format to the texts that it stands for.
--   Cells     the abstract view of a zone: one list of cells in the order of their addresses, each
--             used or free, that fills the zone. `Stands` ties a zone's memory to its cells, with
--             both lists and the counters; `Holds` adds the largest free space. Window and Change
--             move single cells, Place, Allocate, Convert, Split, Coalesce and Stats carry the
--             operations, and Trim, Extend, ExtendBack, Neighbours and TryExtend those of
--             `realloc`.
--   Process   the abstract view of the whole process: its zones in the order of their list, each a
--             `Region` with its cells. `Inv` ties the memory to them; `used_blocks` are the blocks
--             in use. Map and Unmap add and remove a zone, FindZone and Allocate serve a request,
--             and Malloc, Free, Resize and Realloc are the calls; Contents says what a resized
--             block keeps. Runs has the step relation of calls and the states that they lead to,
--             Disjoint and Aligned what follows for the blocks, Report what the
--             reports print.
--   Demo      small zones, and the theorems at them.
--
-- The model. A pointer is its address, a number, and NULL is 0. `size_t` and `u_int` arithmetic
-- wraps as in C (`add64`, `sub64`, `% 2 ^ 32`). The functions of the code take the memory and give
-- the new one. A pointer to a header on the stack, which `update_empty_spaces` passes to the list
-- functions, is its own kind of reference (`Links.stack`). Loops over a list run on fuel and give
-- `none` when it runs out; the theorems say that they return when the fuel is greater than the
-- number of zones and than the number of the zone's cells, with one more for the cell that a cut
-- adds. For a call on the whole process, fuel above the number of all zones and cells and 6 more is
-- enough. `ft_itoa` runs 11 rounds, one more than an `int` has digits. An `int` is its word in
-- two's complement, and its arithmetic wraps around. In Libft.Strings, Split, Lines and Output a
-- text is a value, the list of its bytes in front of the NUL, a pointer into it is its rest, and it is
-- shorter than an `int` counts; which calls of malloc give memory is an argument. The digits of
-- `ft_putnbr_n` and `ft_putnbr_base_n` run on 20 and 65 rounds, more than the digits of a 64-bit word.
--
-- The parameters. What mmap returns is an argument of the calls (`none` for MAP_FAILED), as are the
-- page size and the limit of `getrlimit` (`Platform`), what the calls of `read` and `write` give, and
-- the variable arguments of `ft_printf`. The theorems about the whole process ask of
-- mmap that a region it gives is not NULL, begins at a multiple of 16, ends below 2 ^ 64 and is apart
-- from those that the process holds (`Grants`), and that a page has a multiple of 16 bytes, 4096 at
-- least (`LargePages`).
--
-- Not modelled. The bytes of the blocks and the headers are two stores, so a program that writes
-- over a header is outside the model. A call is one step, since the code holds its lock throughout
-- it. The colours and words of the reports are output alone. The tests and the build files are not modelled.
pub mod Base
pub mod Sizes
pub mod Heap
pub mod Links
pub mod Merge
pub mod Libft
pub mod Alloc
pub mod Blocks
pub mod Zones
pub mod Api
pub mod Show
pub mod Cells
pub mod Process
mod Demo

-- ===== src/Show/Lines.antt =====
-- What the two reports print of a zone.
use ft_malloc.Base.{
  ℕ, zero, suc, ◌+◌, ◌<◌, ◌≡◌, refl, ap, subst, true, false, List, [], ◌∷◌, map, some, arith,
  length, ne→==,
}
use ft_malloc.Base.Words.{add64}
use ft_malloc.Heap.{Headers, Arena}
use ft_malloc.Heap.Dll.{Span, Dll}
use ft_malloc.Cells.{Cell, pick, Stands}
use ft_malloc.Show.{
  Line, zone_line, zone_line_ex, block_line, print_blocks, print_zone, count_loop, count_items,
  merged_loop, print_zone_ex,
}

-- The line of a used cell.
abbrev pub line : Span → Line
line s = block_line s.addr s.fin (add64 s.size 32)

-- The sizes added up in a `size_t`, from `total` on.
abbrev pub sum_sizes : ℕ → List Span → ℕ
sum_sizes total [] = total
sum_sizes total (s ∷ ss) = sum_sizes (add64 total s.size) ss

print_blocks-lines :
    (k : ℕ) (h : Headers) (p a total : ℕ) (ss : List Span)
    → Dll h p a ss
    → length ss < k
    → print_blocks k h a total ≡ some (map line ss, sum_sizes total ss)
unfolding print_blocks
print_blocks-lines zero h p a total ss d f = absurd (omega arith)
print_blocks-lines (suc k) h p a total [] d f = ground arith
print_blocks-lines (suc k) h p a total (s ∷ ss) d f =
    rw (d.0.here, d.0.data_size, d.0.end)
      (rw (ne→== s.addr 0 (omega (arith, d.0.above))) (
        rw (print_blocks-lines k h s.addr (h s.addr).next (add64 total s.size) ss d.1 (omega arith))
          refl))

-- `print_zone` of show_alloc_mem.c prints the zone's line and a line for each used cell, in the
-- order of the addresses, and returns the sum of their sizes.
pub print_zone-lines :
    (fuel : ℕ) (a : Arena) (cs : List Cell)
    → Stands a cs
    → length (pick true cs) < fuel
    → print_zone fuel a.hdr a.zone
      ≡ some
          (zone_line a.zone.type a.zone.start ∷ map line (pick true cs), sum_sizes 0 (pick true cs))
unfolding print_zone
print_zone-lines fuel a cs s f =
    rw (print_blocks-lines fuel a.hdr 0 a.zone.blocks 0 (pick true cs) s.blocks f) refl

-- Once the walk has passed the last empty space it prints no more blocks.
merged_loop-null : (k : ℕ) (h : Headers) (b total : ℕ) → merged_loop k h b 0 total ≡ ([], total)
unfolding merged_loop
merged_loop-null zero h b total = refl
merged_loop-null (suc k) h b total = ground (arith, merged_loop-null k h b total)

pub count_loop-length :
    (k : ℕ) (h : Headers) (p a n : ℕ) (ss : List Span)
    → Dll h p a ss
    → length ss < k
    → count_loop k h a n ≡ some (n + length ss)
unfolding count_loop
count_loop-length zero h p a n ss d f = absurd (omega arith)
count_loop-length (suc k) h p a n [] d f = ground arith
count_loop-length (suc k) h p a n (s ∷ ss) d f =
    rw (d.0.here)
      (ground (arith, d.0.above, count_loop-length k h s.addr (h s.addr).next (n + 1) ss d.1))

-- In a zone that has used cells and no free one, `print_zone` of show_alloc_mem_ex.c prints none
-- of the blocks and counts no byte of them.
pub print_zone_ex-full :
    (fuel : ℕ) (a : Arena) (cs : List Cell) (c : Span) (us : List Span)
    → Stands a cs
    → pick false cs ≡ []
    → pick true cs ≡ c ∷ us
    → length (pick true cs) < fuel
    → print_zone_ex fuel a.hdr a.zone
      ≡ some
          (zone_line_ex a.zone.type a.zone.start a.zone.end (add64 a.zone.total_space 80) ∷ [], 0)
unfolding print_zone_ex count_items
print_zone_ex-full fuel a cs c us s none_free used f =
    rw
      (
        count_loop-length fuel a.hdr 0 a.zone.blocks 0 (pick true cs) s.blocks f,
        count_loop-length fuel a.hdr 0 a.zone.empty_spaces (0 + length (pick true cs))
            (pick false cs) s.empties (omega (arith, ap length none_free)),
      )
      (rw
        (ne→== (0 + length (pick true cs) + length (pick false cs)) 0
          (omega (arith, ap length used)))
        (rw (at_end, merged_loop-null) refl))
  where
    at_end : a.zone.empty_spaces ≡ 0
    at_end = subst (Dll a.hdr 0 a.zone.empty_spaces) none_free s.empties

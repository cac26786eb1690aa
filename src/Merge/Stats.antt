-- ===== src/Merge/Stats.antt =====
-- The loop of `update_empty_stats` finds the largest size.
use ft_malloc.Base.{ℕ, zero, suc, ◌<◌, ◌≡◌, some, List, [], ◌∷◌, arith, length, ltb, if◌then◌else◌}
use ft_malloc.Heap.{Headers}
use ft_malloc.Heap.Dll.{Span, Dll}
use ft_malloc.Merge.{max_loop}
use ft_malloc.Merge.Spans.{max_size}

pub max_loop-max_size :
    (k : ℕ) (h : Headers) (p a best : ℕ) (ss : List Span)
    → Dll h p a ss
    → length ss < k
    → max_loop k h a best ≡ some (max_size best ss)
unfolding max_loop max_size
max_loop-max_size zero h p a best ss d f = absurd (omega arith)
max_loop-max_size (suc k) h p a best [] d f = ground arith
max_loop-max_size (suc k) h p a best (s ∷ ss) d f =
    rw (d.0.here, d.0.data_size)
      (ground (
        arith,
        d.0.above,
        max_loop-max_size k h s.addr (h s.addr).next (if ltb best s.size then s.size else best) ss
            d.1,
      ))

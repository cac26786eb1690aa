-- ===== src/Merge/Spans.antt =====
-- Merging, on the spans that a list stands for.
use ft_malloc.Base.{ℕ, Bool, List, [], ◌∷◌, ltb, if◌then◌else◌}
use ft_malloc.Base.Words.{add64, sub64}
use ft_malloc.Heap.Dll.{Span}

-- `t` is joined to `s`, with the gap between them.
unfoldable pub join : Span → Span → Span
join s t = record {
  addr = s.addr;
  size = add64 s.size (add64 (add64 (sub64 t.addr s.fin) t.size) 32);
  fin = t.fin;
}

-- Two neighbours are joined when no header and 16 bytes fit between them.
unfoldable pub is_near : Span → Span → Bool
is_near s t = ltb (sub64 t.addr s.fin) 48

unfoldable pub merge_from : Span → List Span → List Span
unfolding join is_near
merge_from s [] = s ∷ []
merge_from s (t ∷ ts) =
    let joined = merge_from (join s t) ts in
    let kept = s ∷ merge_from t ts in if is_near s t then joined else kept

unfoldable pub merge_spans : List Span → List Span
unfolding merge_from
merge_spans [] = []
merge_spans (s ∷ ss) = merge_from s ss

-- The largest size.
unfoldable pub max_size : ℕ → List Span → ℕ
max_size best [] = best
max_size best (s ∷ ss) = max_size (if ltb best s.size then s.size else best) ss

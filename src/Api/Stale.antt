-- ===== src/Api/Stale.antt =====
-- A zone whose last free space has been taken keeps its `max_free_space_size`, and then takes
-- requests that it cannot serve.
use ft_malloc.Base.{List, [], ◌∷◌}
use ft_malloc.Heap.Dll.{Span, Dll}

abbrev head : Span → List Span → Span
head d [] = d
head d (x ∷ xs) = x

-- ===== src/Libft/Lists/Map.antt =====
-- libft/src/ft_lstmap.c. What `malloc` returns for the node of each element is an argument, `fresh`, by
-- the place of the element; the calls of `del` and of `free` are recorded.
use ft_malloc.Base.{
  ℕ, zero, suc, ◌+◌, ◌||◌, not, Bool, Option, none, some, List, [], ◌∷◌, ◌==◌, if◌then◌else◌, ◌>>=◌,
}
use ft_malloc.Libft.Lists.{Nodes, Released, freed, ft_lstnew, ft_lstadd_back, ft_lstclear}

-- The nodes, the list that is returned, and the calls.
abbrev pub MappedList : Type 0
MappedList = Nodes × ℕ × List Released

-- The loop at the place `i`, with at most `k` rounds left; `fuel` is for the walks over the new list.
unfoldable pub map_loop :
    (fuel : ℕ) → ℕ → (f fresh : ℕ → ℕ) → Nodes → (lst list i : ℕ) → Option MappedList
map_loop fuel zero f fresh nodes lst list i = none
map_loop fuel (suc k) f fresh nodes lst list i =
    let tmp = f (nodes lst).content in
    let made = ft_lstnew nodes (fresh i) tmp in
    let cleared = ft_lstclear fuel nodes list >>= λ calls. some (nodes, 0, freed tmp ∷ calls.0) in
    let further = ft_lstadd_back fuel made.0 list made.1 >>= λ added.
    map_loop fuel k f fresh added.0 (added.0 lst).next added.1 (i + 1) in
    if lst == 0 then some (nodes, list, []) else if made.1 == 0 then cleared else further

-- `f` is `none` for NULL, and `del` tells whether it is not NULL.
unfoldable pub ft_lstmap :
    ℕ
    → (fresh : ℕ → ℕ) → Nodes
    → (lst : ℕ) → (f : Option (ℕ → ℕ)) → (del : Bool) → Option MappedList
ft_lstmap fuel fresh nodes lst none del = some (nodes, 0, [])
ft_lstmap fuel fresh nodes lst (some f) del =
    let run = map_loop fuel fuel f fresh nodes lst 0 0 in
    if (lst == 0) || not del then some (nodes, 0, []) else run

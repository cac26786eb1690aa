-- ===== src/Libft/Lists.antt =====
-- The linked lists of libft: `t_list` of libft/include/libft.h, with libft/src/ft_lstnew.c,
-- ft_lstsize.c, ft_lstlast.c, ft_lstadd_front.c, ft_lstadd_back.c, ft_lstiter.c, ft_lstdelone.c and ft_lstclear.c.
-- The functions that a caller passes, and `free`, are recorded as the calls that are made of them.
pub mod Append
pub mod Map
use ft_malloc.Base.{
  ℕ, zero, suc, ◌+◌, ◌%◌, ◌^◌, ◌&&◌, not, Option, none, some, List, [], ◌∷◌, ◌==◌, if◌then◌else◌,
  ◌>>=◌,
}

-- A node: the address of its content, and of the next node.
pub record Node : Type 0 where
  pub content : ℕ
  pub next : ℕ

abbrev pub Nodes : Type 0
Nodes = ℕ → Node

unfoldable pub set_next : Nodes → (a next : ℕ) → Nodes
set_next nodes a next x = if x == a then record (nodes x) { next = next } else nodes x

-- The node at `list`, which `malloc` returned; `next` is NULL.
unfoldable pub ft_lstnew : Nodes → (list content : ℕ) → Nodes × ℕ
ft_lstnew nodes list content =
    if list == 0
    then (nodes, 0)
    else ((λ x. if x == list then record { content = content; next = 0 } else nodes x), list)

-- The loop of `ft_lstsize`, whose count is the word of an `int`.
unfoldable pub size_loop : ℕ → Nodes → (lst i : ℕ) → Option ℕ
size_loop zero nodes lst i = none
size_loop (suc k) nodes lst i =
    let rest = size_loop k nodes (nodes lst).next ((i + 1) % 2 ^ 32) in
    if lst == 0 then some i else rest

unfoldable pub ft_lstsize : ℕ → Nodes → ℕ → Option ℕ
ft_lstsize fuel nodes lst = size_loop fuel nodes lst 0

-- `while (lst && lst->next) lst = lst->next;`, of `ft_lstlast` and of `ft_lstadd_back`.
unfoldable pub ft_lstlast : ℕ → Nodes → ℕ → Option ℕ
ft_lstlast zero nodes lst = none
ft_lstlast (suc k) nodes lst =
    let rest = ft_lstlast k nodes (nodes lst).next in
    if not (lst == 0) && not ((nodes lst).next == 0) then rest else some lst

-- The nodes after the call, and `*lst`.
unfoldable pub ft_lstadd_front : Nodes → (lst to_add : ℕ) → Nodes × ℕ
ft_lstadd_front nodes lst to_add = (set_next nodes to_add lst, to_add)

unfoldable pub ft_lstadd_back : ℕ → Nodes → (lst to_add : ℕ) → Option (Nodes × ℕ)
ft_lstadd_back fuel nodes lst to_add =
    if lst == 0
    then some (nodes, to_add)
    else do last ← ft_lstlast fuel nodes lst; some (set_next nodes last to_add, lst)

-- The contents that `f` gets, in order.
unfoldable pub ft_lstiter : ℕ → Nodes → ℕ → Option (List ℕ)
ft_lstiter zero nodes lst = none
ft_lstiter (suc k) nodes lst =
    if lst == 0
    then some []
    else do rest ← ft_lstiter k nodes (nodes lst).next; some ((nodes lst).content ∷ rest)

-- A call of `del`, or of `free`, with its argument.
pub data Released : Type 0 where
  deleted freed : ℕ → Released

unfoldable pub ft_lstdelone : Nodes → ℕ → List Released
ft_lstdelone nodes lst = deleted (nodes lst).content ∷ freed lst ∷ []

-- The loop of `ft_lstclear`.
unfoldable pub clear_loop : ℕ → Nodes → ℕ → Option (List Released)
clear_loop zero nodes clear = none
clear_loop (suc k) nodes clear = if clear == 0 then some [] else do
  rest ← clear_loop k nodes (nodes clear).next
  some (deleted (nodes clear).content ∷ freed clear ∷ rest)

-- The calls that it makes, and `*lst`.
unfoldable pub ft_lstclear : ℕ → Nodes → ℕ → Option (List Released × ℕ)
ft_lstclear fuel nodes lst = do calls ← clear_loop fuel nodes lst; some (calls, 0)

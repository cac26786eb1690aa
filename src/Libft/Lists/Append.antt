-- ===== src/Libft/Lists/Append.antt =====
-- What the operations of a linked list do to the list of its nodes.
use ft_malloc.Base.{
  ℕ, zero, suc, ◌+◌, ◌%◌, ◌^◌, ◌<◌, ◌≡◌, ◌≢◌, refl, sym, ap, ◌∙◌, some, List, [], ◌∷◌, ◌++◌, map,
  All, length, arith, ne→==,
}
use ft_malloc.Libft.Lists.{
  Nodes, set_next, size_loop, ft_lstsize, ft_lstlast, ft_lstadd_back, ft_lstiter, Released, deleted,
  freed, clear_loop, ft_lstclear,
}

-- The nodes `xs` in order, from `a` on.
abbrev pub Chained : Nodes → ℕ → List ℕ → Type 0
Chained nodes a [] = a ≡ 0
Chained nodes a (x ∷ xs) = (a ≡ x) × (x ≢ 0) × Chained nodes (nodes x).next xs

abbrev pub Distinct : List ℕ → Type 0
Distinct [] = Unit {0}
Distinct (x ∷ xs) = All (λ y. y ≢ x) xs × Distinct xs

abbrev pub last : ℕ → List ℕ → ℕ
last x [] = x
last x (y ∷ ys) = last y ys

last-All : (P : ℕ → Type 0) (x : ℕ) (xs : List ℕ) → P x → All P xs → P (last x xs)
last-All P x [] p a = p
last-All P x (y ∷ ys) p a = last-All P y ys a.0 a.1

set_next-here : (nodes : Nodes) (a n : ℕ) → (set_next nodes a n a).next ≡ n
unfolding set_next
set_next-here nodes a n = ground arith

set_next-off : (nodes : Nodes) (a n x : ℕ) → x ≢ a → set_next nodes a n x ≡ nodes x
unfolding set_next
set_next-off nodes a n x ne = rw (ne→== x a ne) refl

Chained-frame :
    (nodes : Nodes) (z n a : ℕ) (xs : List ℕ)
    → All (λ x. x ≢ z) xs
    → Chained nodes a xs
    → Chained (set_next nodes z n) a xs
Chained-frame nodes z n a [] o c = c
Chained-frame nodes z n a (x ∷ xs) o c = (
  c.0,
  c.1,
  rw (set_next-off nodes z n x o.0) (Chained-frame nodes z n (nodes x).next xs o.1 c.2),
)

-- The last node's link set: the nodes `ys` follow.
Chained-append :
    (nodes : Nodes) (a t x : ℕ) (xs ys : List ℕ)
    → Distinct (x ∷ xs)
    → All (λ y. y ≢ last x xs) ys
    → Chained nodes a (x ∷ xs)
    → Chained nodes t ys
    → Chained (set_next nodes (last x xs) t) a (x ∷ (xs ++ ys))
Chained-append nodes a t x [] ys d o c e =
    (c.0, c.1, rw (set_next-here nodes x t) (Chained-frame nodes x t t ys o e))
Chained-append nodes a t x (y ∷ xs) ys d o c e =
    let other : x ≢ last y xs = λ same. last-All (λ z. z ≢ x) y xs d.0.0 d.0.1 (sym same) in
    (
      c.0,
      c.1,
      rw (set_next-off nodes (last y xs) t x other)
          (Chained-append nodes (nodes x).next t y xs ys d.1 o c.2 e),
    )

pub ft_lstlast-last :
    (fuel : ℕ) (nodes : Nodes) (a x : ℕ) (xs : List ℕ)
    → length xs < fuel
    → Chained nodes a (x ∷ xs)
    → ft_lstlast fuel nodes a ≡ some (last x xs)
unfolding ft_lstlast
ft_lstlast-last zero nodes a x xs l c = absurd (omega (arith, l))
ft_lstlast-last (suc k) nodes a x [] l c = rw (c.0, ne→== x 0 c.1, c.2) refl
ft_lstlast-last (suc k) nodes a x (y ∷ ys) l c =
    rw (c.0, ne→== x 0 c.1, ne→== (nodes x).next 0 (λ e. c.2.1 (sym c.2.0 ∙ e)))
      (ft_lstlast-last k nodes (nodes x).next y ys (omega (arith, l)) c.2)

-- `ft_lstadd_back` returns, and the nodes of the list that is added follow those of the list, where no
-- node stands in both, nor twice in the list.
pub ft_lstadd_back-append :
    (fuel : ℕ) (nodes : Nodes) (lst to_add : ℕ) (xs ys : List ℕ)
    → length xs < fuel
    → Distinct xs
    → All (λ x. All (λ y. y ≢ x) ys) xs
    → Chained nodes lst xs
    → Chained nodes to_add ys
    → (new : Nodes) × (lst' : ℕ) × (ft_lstadd_back fuel nodes lst to_add ≡ some (new, lst'))
      × Chained new lst' (xs ++ ys)
unfolding ft_lstadd_back
ft_lstadd_back-append fuel nodes lst to_add [] ys l d o c e = (nodes, to_add, rw c refl, e)
ft_lstadd_back-append fuel nodes lst to_add (x ∷ xs) ys l d o c e = (
  set_next nodes (last x xs) to_add,
  lst,
  rw
      (
        ne→== lst 0 (λ z. c.1 (sym c.0 ∙ z)),
        ft_lstlast-last fuel nodes lst x xs (omega (arith, l)) c,
      )
      refl,
  Chained-append nodes lst to_add x xs ys d (last-All (λ z. All (λ y. y ≢ z) ys) x xs o.0 o.1) c e,
)

size_loop-length :
    (fuel : ℕ) (nodes : Nodes) (a i : ℕ) (xs : List ℕ)
    → length xs < fuel
    → Chained nodes a xs
    → i < 2 ^ 32
    → size_loop fuel nodes a i ≡ some ((i + length xs) % 2 ^ 32)
unfolding size_loop
size_loop-length zero nodes a i xs l c b = absurd (omega (arith, l))
size_loop-length (suc k) nodes a i [] l c b = rw c (ap some (omega (arith, b)))
size_loop-length (suc k) nodes a i (x ∷ xs) l c b =
    rw (c.0, ne→== x 0 c.1)
      (size_loop-length k nodes (nodes x).next ((i + 1) % 2 ^ 32) xs (omega (arith, l)) c.2
          (omega arith)
        ∙ ap some (omega arith))

-- What `ft_lstclear` calls for the nodes.
abbrev pub releases : Nodes → List ℕ → List Released
releases nodes [] = []
releases nodes (x ∷ xs) = deleted (nodes x).content ∷ freed x ∷ releases nodes xs

clear_loop-releases :
    (fuel : ℕ) (nodes : Nodes) (a : ℕ) (xs : List ℕ)
    → length xs < fuel
    → Chained nodes a xs
    → clear_loop fuel nodes a ≡ some (releases nodes xs)
unfolding clear_loop
clear_loop-releases zero nodes a xs l c = absurd (omega (arith, l))
clear_loop-releases (suc k) nodes a [] l c = rw c refl
clear_loop-releases (suc k) nodes a (x ∷ xs) l c =
    rw (c.0, ne→== x 0 c.1, clear_loop-releases k nodes (nodes x).next xs (omega (arith, l)) c.2)
      refl

ft_lstiter-contents :
    (fuel : ℕ) (nodes : Nodes) (a : ℕ) (xs : List ℕ)
    → length xs < fuel
    → Chained nodes a xs
    → ft_lstiter fuel nodes a ≡ some (map (λ x. (nodes x).content) xs)
unfolding ft_lstiter
ft_lstiter-contents zero nodes a xs l c = absurd (omega (arith, l))
ft_lstiter-contents (suc k) nodes a [] l c = rw c refl
ft_lstiter-contents (suc k) nodes a (x ∷ xs) l c =
    rw (c.0, ne→== x 0 c.1, ft_lstiter-contents k nodes (nodes x).next xs (omega (arith, l)) c.2)
      refl

-- The walks over a list that is linked to its end return: `ft_lstsize` with the number of its nodes,
-- modulo 2 ^ 32, `ft_lstiter` with a call for each content, and `ft_lstclear` with each content deleted
-- and each node freed, once and in order, and the list NULL.
pub lists_walked :
    (fuel : ℕ) (nodes : Nodes) (lst : ℕ) (xs : List ℕ)
    → length xs < fuel
    → Chained nodes lst xs
    → (ft_lstsize fuel nodes lst ≡ some (length xs % 2 ^ 32))
      × (ft_lstiter fuel nodes lst ≡ some (map (λ x. (nodes x).content) xs))
      × (ft_lstclear fuel nodes lst ≡ some (releases nodes xs, 0))
unfolding ft_lstsize ft_lstclear
lists_walked fuel nodes lst xs l c = (
  size_loop-length fuel nodes lst 0 xs l c (omega arith) ∙ ap some (omega arith),
  ft_lstiter-contents fuel nodes lst xs l c,
  rw (clear_loop-releases fuel nodes lst xs l c) refl,
)

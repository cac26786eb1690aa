-- ===== src/Libft/Sorting.antt =====
-- libft/src/merge_sort.c, on an array of `int` and the array for its intermediate results.
pub mod Weave
pub mod Loop
pub mod Merge
use ft_malloc.Base.{
  ℕ, zero, suc, ◌+◌, ◌-◌, ◌/◌, ◌&&◌, ◌||◌, Bool, true, false, ltb, leb, ◌==◌, if◌then◌else◌,
}
use ft_malloc.Libft.Text.{ℤ, pos, negsuc}

-- `a <= b`.
unfoldable pub int_le : ℤ → ℤ → Bool
int_le (pos a) (pos b) = leb a b
int_le (pos a) (negsuc b) = false
int_le (negsuc a) (pos b) = true
int_le (negsuc a) (negsuc b) = leb b a

abbrev pub Ints : Type 0
Ints = ℕ → ℤ

unfoldable pub set_int : Ints → ℕ → ℤ → Ints
set_int list i v x = if x == i then v else list x

-- The loop of `merge`, with `k` rounds left.
unfoldable pub merge_loop : ℕ → Ints → Ints → (i m j middle end : ℕ) → Ints
unfolding int_le set_int
merge_loop zero list temp i m j middle end = temp
merge_loop (suc k) list temp i m j middle end =
    let left = merge_loop k list (set_int temp j (list i)) (i + 1) m (j + 1) middle end in
    let right = merge_loop k list (set_int temp j (list m)) i (m + 1) (j + 1) middle end in
    if ltb i middle && (leb end m || int_le (list i) (list m)) then left else right

-- `merge` of the two halves of `list` into `temp`, which it returns.
unfoldable pub merge : Ints → (i n : ℕ) → Ints → Ints
merge list i n temp = merge_loop (n - i) list temp i ((n + i) / 2) i ((n + i) / 2) n

-- Both arrays after the call; with `n - i` fuel the recursion comes to its end.
unfoldable pub merge_split : ℕ → Ints → (i n : ℕ) → Ints → Ints × Ints
unfolding merge
merge_split zero list i n temp = (list, temp)
merge_split (suc k) list i n temp =
    let m = (n + i) / 2 in
    let first = merge_split k temp i m list in
    let second = merge_split k first.0 m n first.1 in
    if leb (n - i) 1 then (list, temp) else (merge second.0 i n second.1, second.0)

-- `while (i--) { list_temp[n] = list[n]; n++; }`, with `i` rounds left.
unfoldable pub copy_ints : ℕ → Ints → Ints → (n : ℕ) → Ints
unfolding set_int
copy_ints zero list temp n = temp
copy_ints (suc i) list temp n = copy_ints i list (set_int temp n (list n)) (n + 1)

unfoldable pub merge_sort : Ints → (i : ℕ) → Ints → Ints × Ints
merge_sort list i temp = merge_split i list 0 i (copy_ints i list temp 0)

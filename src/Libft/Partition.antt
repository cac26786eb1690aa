-- ===== src/Libft/Partition.antt =====
-- libft/src/quick_sort.c: `quick_sort` and its partition of an array of `int`.
pub mod Stuck
use ft_malloc.Base.{
  ℕ, zero, suc, ◌+◌, ◌-◌, ◌/◌, not, Bool, true, false, Option, none, some, leb, ◌==◌, if◌then◌else◌,
  ◌>>=◌,
}
use ft_malloc.Libft.Text.{ℤ}
use ft_malloc.Libft.Sorting.{Ints, int_le, set_int}

-- `while (list[i] < pivot) i++;`
unfoldable pub scan_up : ℕ → Ints → (i : ℕ) → (pivot : ℤ) → Option ℕ
scan_up zero list i pivot = none
scan_up (suc k) list i pivot =
    let rest = scan_up k list (i + 1) pivot in if int_le pivot (list i) then some i else rest

-- `while (list[j] > pivot) j--;`, which has no result where it leaves the array.
unfoldable pub scan_down : ℕ → Ints → (j : ℕ) → (pivot : ℤ) → Option ℕ
scan_down zero list j pivot = none
scan_down (suc k) list j pivot =
    let rest = if j == 0 then none else scan_down k list (j - 1) pivot in
    if int_le (list j) pivot then some j else rest

unfoldable pub swap_ints : Ints → (i j : ℕ) → Ints
unfolding set_int
swap_ints list i j = set_int (set_int list i (list j)) j (list i)

-- The rounds of `while (1)`: the array, and the place of the split.
unfoldable pub split_loop : ℕ → Ints → (i j : ℕ) → (pivot : ℤ) → Option (Ints × ℕ)
split_loop zero list i j pivot = none
split_loop (suc k) list i j pivot = do
  up ← scan_up (suc k) list i pivot
  down ← scan_down (suc k) list j pivot
  let rest = split_loop k (swap_ints list up down) up down pivot
  if leb down up then some (list, down) else rest

unfoldable pub quick_split : ℕ → Ints → (start len : ℕ) → Option (Ints × ℕ)
quick_split fuel list start len = split_loop fuel list start len (list ((start + len) / 2))

unfoldable pub quick_sort : ℕ → Ints → (start len : ℕ) → Option Ints
quick_sort zero list start len = none
quick_sort (suc k) list start len = if leb (len - start) 1 then some list else do
  (parted, split) ← quick_split (suc k) list start len
  left ← quick_sort k parted start split
  quick_sort k left split len

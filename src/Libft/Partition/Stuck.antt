-- ===== src/Libft/Partition/Stuck.antt =====
-- The partition of `quick_sort` does not move on over elements that are the pivot.
use ft_malloc.Base.{
  ℕ, zero, suc, ◌+◌, ◌-◌, ◌/◌, ◌<◌, ◌≡◌, refl, true, false, none, some, leb, arith,
}
use ft_malloc.Libft.Text.{ℤ, pos, negsuc}
use ft_malloc.Libft.Sorting.{Ints, int_le, set_int}
use ft_malloc.Libft.Partition.{scan_up, scan_down, swap_ints, split_loop, quick_split, quick_sort}

int_le_refl : (a : ℤ) → int_le a a ≡ true
unfolding int_le
int_le_refl (pos a) = ground arith
int_le_refl (negsuc a) = ground arith

scan_up-here :
    (k : ℕ) (list : Ints) (i : ℕ) (p : ℤ) → list i ≡ p → scan_up (suc k) list i p ≡ some i
unfolding scan_up
scan_up-here k list i p e = rw (e, int_le_refl p) refl

scan_down-here :
    (k : ℕ) (list : Ints) (j : ℕ) (p : ℤ) → list j ≡ p → scan_down (suc k) list j p ≡ some j
unfolding scan_down
scan_down-here k list j p e = rw (e, int_le_refl p) refl

swapped :
    (list : Ints) (i j : ℕ) (p : ℤ)
    → list i ≡ p
    → list j ≡ p
    → (swap_ints list i j i ≡ p) × (swap_ints list i j j ≡ p)
unfolding swap_ints set_int
swapped list i j p e f = ground (arith, e, f)

split_loop-stuck :
    (fuel : ℕ) (list : Ints) (i j : ℕ) (p : ℤ)
    → i < j
    → list i ≡ p
    → list j ≡ p
    → split_loop fuel list i j p ≡ none
unfolding split_loop
split_loop-stuck zero list i j p l e f = refl
split_loop-stuck (suc k) list i j p l e f =
    let more : leb j i ≡ false = ground (arith, l) in
    rw (scan_up-here k list i p e, scan_down-here k list j p f, more)
      (split_loop-stuck k (swap_ints list i j) i j p l (swapped list i j p e f).0
        (swapped list i j p e f).1)

-- `quick_sort` returns for no fuel where the first and the last element of three or more are equal
-- to the one in the middle: the partition swaps the two for ever.
pub quick_sort-stuck :
    (fuel : ℕ) (list : Ints) (start len : ℕ)
    → start + 1 < len
    → list start ≡ list ((start + len) / 2)
    → list len ≡ list ((start + len) / 2)
    → quick_sort fuel list start len ≡ none
unfolding quick_sort quick_split
quick_sort-stuck zero list start len l e f = refl
quick_sort-stuck (suc k) list start len l e f =
    let more : leb (len - start) 1 ≡ false = ground (arith, l) in
    rw
      (
        more,
        split_loop-stuck (suc k) list start len (list ((start + len) / 2)) (omega (arith, l)) e f,
      )
      refl

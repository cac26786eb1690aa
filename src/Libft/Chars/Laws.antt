-- ===== src/Libft/Chars/Laws.antt =====
-- How the tests and the changes of characters fit together.
use ft_malloc.Base.{ℕ, ◌≡◌, ◌⊎◌, ◌||◌, true, false, arith}
use ft_malloc.Libft.Chars.{
  ft_isalpha, ft_isdigit, ft_isalnum, ft_isascii, ft_isprint, ft_tolower, ft_toupper,
}

-- `ft_isalnum` holds of the letters and the digits, all of which are printable ASCII characters, and
-- no letter is a digit.
pub ft_isalnum-classes :
    (i : ℕ)
    → (ft_isalnum i ≡ (ft_isalpha i || ft_isdigit i))
      × ((ft_isalnum i ≡ false) ⊎ ((ft_isprint i ≡ true) × (ft_isascii i ≡ true)))
      × ((ft_isalpha i ≡ false) ⊎ (ft_isdigit i ≡ false))
unfolding ft_isalnum ft_isalpha ft_isdigit ft_isprint ft_isascii
ft_isalnum-classes i = (ground arith, ground arith, ground arith)

-- The two changes of case keep what is a letter, and one undoes the other up to the case that it
-- gives: lower of upper is lower, and upper of lower is upper.
pub ft_tolower-ft_toupper :
    (c : ℕ)
    → (ft_tolower (ft_toupper c) ≡ ft_tolower c)
      × (ft_toupper (ft_tolower c) ≡ ft_toupper c)
      × (ft_isalpha (ft_toupper c) ≡ ft_isalpha c)
      × (ft_isalpha (ft_tolower c) ≡ ft_isalpha c)
unfolding ft_tolower ft_toupper ft_isalpha
ft_tolower-ft_toupper c = (ground arith, ground arith, ground arith, ground arith)

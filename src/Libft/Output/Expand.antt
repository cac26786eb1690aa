-- ===== src/Libft/Output/Expand.antt =====
-- The text that a format of `ft_printf` stands for.
pub mod Emits
pub mod Format
use ft_malloc.Base.{
  ℕ, zero, suc, ◌+◌, ◌-◌, ◌/◌, ◌%◌, ◌^◌, ◌≤◌, ◌<◌, ◌≡◌, ◌≢◌, ◌⊎◌, inl, inr, refl, sym, ap, ◌∙◌,
  subst, ◌||◌, true, false, Bool, Option, none, some, List, [], ◌∷◌, ◌++◌, ◌==◌, if◌then◌else◌, leb,
  ltb, length, arith, Bool-cases, append_assoc, append-nil, length-append,
}
use native.Mathlib.Nat.{mod-lt, mod-eq_of_lt}
use ft_malloc.Libft.Text.{ℤ, pos, negsuc}
use ft_malloc.Libft.Strings.{Text, byte_at}
use ft_malloc.Libft.Output.{
  Writes, Console, Printed, write, add_count, and_then, ft_putchar_n, null_text, ft_putstr_n,
  put_decimal, rounds, ft_putnbr_n, print_base, valid_base, ft_putnbr_base_n, ft_putptr_n,
  hex_digits, has_byte,
}
use ft_malloc.Libft.Output.Base.{
  value, IsNumeral, Shows, write-whole, print_base-Shows, ft_putnbr_base_n-Shows,
}
use ft_malloc.Libft.Output.Printf.{
  Args, to_int, upper_digits, takes_argument, put_all, print, ft_printf,
}

abbrev pub decimal : Text
decimal = 48 ∷ 49 ∷ 50 ∷ 51 ∷ 52 ∷ 53 ∷ 54 ∷ 55 ∷ 56 ∷ 57 ∷ []

-- The digits of a number in a base, and of a signed one.
abbrev pub Numeral : Text → ℕ → Text → Type 0
Numeral base n t = (value base 0 t ≡ n) × IsNumeral base t

abbrev pub Signed : ℤ → Text → Type 0
Signed (pos n) t = Numeral decimal n t
Signed (negsuc n) t = (u : Text) × (t ≡ 45 ∷ u) × Numeral decimal (n + 1) u

abbrev pub shown : Option Text → Text
shown none = null_text
shown (some s) = s

-- What the conversion `d` makes of the argument at the place `n`.
pub data Converted (args : Args) (n d : ℕ) : Text → Type 0 where
  character : d ≡ 99 → Converted args n d (args.word n % 256 ∷ [])
  text : d ≡ 115 → Converted args n d (shown (args.text n))
  pointer :
      (t : Text)
      → d ≡ 112
      → Numeral hex_digits (args.word n % 2 ^ 64) t
      → Converted args n d (48 ∷ 120 ∷ t)
  signed :
      (t : Text) → (d ≡ 100) ⊎ (d ≡ 105) → Signed (to_int (args.word n)) t → Converted args n d t
  unsigned : (t : Text) → d ≡ 117 → Numeral decimal (args.word n % 2 ^ 32) t → Converted args n d t
  lower : (t : Text) → d ≡ 120 → Numeral hex_digits (args.word n % 2 ^ 32) t → Converted args n d t
  upper : (t : Text) → d ≡ 88 → Numeral upper_digits (args.word n % 2 ^ 32) t → Converted args n d t
  percent : d ≡ 37 → Converted args n d (37 ∷ [])
  other : takes_argument d ≡ false → d ≢ 37 → Converted args n d []

-- What a format stands for, with the arguments from the place `n` on.
pub data Expands (args : Args) : ℕ → Text → Text → Type 0 where
  ended : (n : ℕ) → Expands args n [] []
  plain :
      (n x : ℕ) (str t : Text)
      → x ≢ 37
      → Expands args n str t
      → Expands args n (x ∷ str) (x % 256 ∷ t)
  lone : (n x : ℕ) → x ≡ 37 → Expands args n (x ∷ []) []
  converted :
      (n x d : ℕ) (str t u : Text)
      → x ≡ 37
      → Converted args n d t
      → Expands args (if takes_argument d then n + 1 else n) str u
      → Expands args n (x ∷ d ∷ str) (t ++ u)

-- The text has been written, and counted.
abbrev pub Wrote : Console → Text → Printed → Type 0
Wrote c t p = (d : Console) × (p ≡ (d, some (length t))) × (d.out ≡ c.out ++ t)

-- A text that the format stands for has been written, and counted.
abbrev pub Prints : Args → Text → Console → Printed → Type 0
Prints args str con p = (t : Text) × Expands args 0 str t × Wrote con t p

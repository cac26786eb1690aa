-- ===== src/Libft/Output/Printf.antt =====
-- libft/src/ft_printf.c. What the variable arguments are is a parameter: `word` gives an argument
-- that is read as a number, and `text` one that is read as a pointer to a text, by its place.
use ft_malloc.Base.{
  ℕ, ◌+◌, ◌-◌, ◌%◌, ◌^◌, ◌||◌, Bool, Option, none, some, [], ◌∷◌, ltb, ◌==◌, if◌then◌else◌,
}
use ft_malloc.Libft.Text.{ℤ, pos, negsuc}
use ft_malloc.Libft.Strings.{Text}
use ft_malloc.Libft.Output.{
  Writes, Console, Printed, and_then, ft_putchar_n, ft_putstr_n, ft_putnbr_n, ft_putnbr_base_n,
  ft_putptr_n, hex_digits,
}

pub record Args : Type 0 where
  pub word : ℕ → ℕ
  pub text : ℕ → Option Text

-- The `int` of a word.
unfoldable pub to_int : ℕ → ℤ
to_int w = if ltb (w % 2 ^ 32) (2 ^ 31) then pos (w % 2 ^ 32) else negsuc (2 ^ 32 - w % 2 ^ 32 - 1)

-- The upper case hexadecimal digits.
abbrev pub upper_digits : Text
upper_digits = 48 ∷ 49 ∷ 50 ∷ 51 ∷ 52 ∷ 53 ∷ 54 ∷ 55 ∷ 56 ∷ 57 ∷ 65 ∷ 66 ∷ 67 ∷ 68 ∷ 69 ∷ 70 ∷ []

-- `c`, `s`, `p`, `d`, `i`, `u`, `x` and `X` take the argument at the place `n`.
unfoldable pub takes_argument : ℕ → Bool
takes_argument c =
    (c == 99)
    || (c == 115)
    || (c == 112)
    || (c == 100)
    || (c == 105)
    || (c == 117)
    || (c == 120)
    || (c == 88)

unfoldable pub put_all : Writes → Args → Console → (c n : ℕ) → Printed
put_all left args con c n =
    if c == 99
    then ft_putchar_n left con (args.word n)
    else if c == 115
    then ft_putstr_n left con (args.text n)
    else if c == 112
    then ft_putptr_n left con (args.word n % 2 ^ 64)
    else if (c == 100) || (c == 105)
    then ft_putnbr_n left con (to_int (args.word n))
    else if c == 117
    then ft_putnbr_n left con (pos (args.word n % 2 ^ 32))
    else if c == 120
    then ft_putnbr_base_n left con (args.word n % 2 ^ 32) hex_digits
    else if c == 88
    then ft_putnbr_base_n left con (args.word n % 2 ^ 32) upper_digits
    else if c == 37
    then ft_putchar_n left con c
    else (con, some 0)

-- `print` from a place of the format on, with the arguments from `n` on: the inner loop over bytes
-- other than `%`, and the outer loop with the byte behind a `%`, which may be the NUL.
unfoldable pub print : Writes → Args → Text → Console → (n : ℕ) → Printed
print left args [] con n = (con, some 0)
print left args (x ∷ []) con n =
    if x == 37 then put_all left args con 0 n else ft_putchar_n left con x
print left args (x ∷ d ∷ str) con n =
    let plain = and_then (ft_putchar_n left con x) (λ c. print left args (d ∷ str) c n) in
    let converted =
      and_then (put_all left args con d n)
        (λ c. print left args str c (if takes_argument d then n + 1 else n)) in
    if x == 37 then converted else plain

unfoldable pub ft_printf : Writes → Args → Console → (str : Option Text) → Printed
ft_printf left args con none = (con, some 0)
ft_printf left args con (some str) = print left args str con 0

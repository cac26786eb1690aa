-- ===== src/Libft/Output.antt =====
-- The output of libft: libft/src/ft_putchar_n.c, ft_putstr_n.c, ft_putnbr_n.c, ft_putnbr_base_n.c,
-- ft_putptr_n.c, ft_putchar_fd.c, ft_putstr_fd.c, ft_putendl_fd.c and ft_putnbr_fd.c. The outcome of
-- each call of `write` is an argument: `left` tells by the call's number how many of its bytes it
-- leaves out, and is `none` where it returns - 1. A count that a function returns is `none` for - 1; it
-- is taken to fit in an `int`.
pub mod Printf
pub mod Counts
pub mod Base
pub mod Expand
use ft_malloc.Base.{
  ℕ, zero, suc, ◌+◌, ◌-◌, ◌*◌, ◌/◌, ◌%◌, ◌^◌, ◌&&◌, ◌||◌, not, Bool, true, false, Option, none,
  some, List, [], ◌∷◌, ◌++◌, ltb, leb, ◌==◌, if◌then◌else◌, length, take,
}
use ft_malloc.Libft.Text.{ℤ, pos, negsuc}
use ft_malloc.Libft.Strings.{Text, byte_at}

-- The number of calls of `write`, and the bytes that they wrote to the descriptor.
pub record Console : Type 0 where
  pub calls : ℕ
  pub out : Text

abbrev pub Writes : Type 0
Writes = ℕ → Option ℕ

-- The console after a call, and what the call returned.
abbrev pub Printed : Type 0
Printed = Console × Option ℕ

unfoldable pub written : Console → Text → Option ℕ → Printed
written c t none = (record c { calls = c.calls + 1 }, none)
written c t (some k) =
    let sent = take (length t - k) t in
    (record { calls = c.calls + 1; out = c.out ++ sent }, some (length sent))

unfoldable pub write : Writes → Console → Text → Printed
write left c t = written c t (left c.calls)

unfoldable pub add_count : ℕ → Option ℕ → Option ℕ
add_count n none = none
add_count n (some k) = some (n + k)

-- `if (n == -1) return (-1); res += n;`, and what follows.
unfoldable pub and_then : Printed → (Console → Printed) → Printed
and_then (c, none) f = (c, none)
and_then (c, some n) f = let rest = f c in (rest.0, add_count n rest.1)

unfoldable pub ft_putchar_n : Writes → Console → (c : ℕ) → Printed
ft_putchar_n left con c = write left con (c % 256 ∷ [])

-- `(null)`
abbrev pub null_text : Text
null_text = 40 ∷ 110 ∷ 117 ∷ 108 ∷ 108 ∷ 41 ∷ []

unfoldable pub ft_putstr_n : Writes → Console → (s : Option Text) → Printed
ft_putstr_n left con none = write left con null_text
ft_putstr_n left con (some s) = write left con s

-- `ft_putnbr_n` of a number that is not negative, with at most `k` rounds left.
unfoldable pub put_decimal : Writes → ℕ → Console → (nbr : ℕ) → Printed
put_decimal left zero con nbr = (con, some 0)
put_decimal left (suc k) con nbr =
    let higher =
      and_then (put_decimal left k con (nbr / 10)) (λ c. ft_putchar_n left c (nbr % 10 + 48)) in
    if ltb 9 nbr then higher else ft_putchar_n left con (nbr % 10 + 48)

-- More rounds than a `long` has decimal digits, and than an `unsigned long` has binary ones.
abbrev pub rounds : ℕ
rounds = 20

abbrev pub base_rounds : ℕ
base_rounds = 65

unfoldable pub ft_putnbr_n : Writes → Console → (nbr : ℤ) → Printed
ft_putnbr_n left con (pos n) = put_decimal left rounds con n
ft_putnbr_n left con (negsuc n) =
    and_then (ft_putchar_n left con 45) (λ c. put_decimal left rounds c (n + 1))

-- `print` of ft_putnbr_base_n.c, with at most `k` rounds left.
unfoldable pub print_base : Writes → ℕ → Console → (nbr base_len : ℕ) → (base : Text) → Printed
print_base left zero con nbr base_len base = (con, some 0)
print_base left (suc k) con nbr base_len base =
    let digit = byte_at base (nbr % base_len) ∷ [] in
    let higher =
      and_then (print_base left k con (nbr / base_len) base_len base) (λ c. write left c digit) in
    if leb base_len nbr then higher else write left con digit

-- Whether the byte is in the text.
unfoldable pub has_byte : Text → ℕ → Bool
has_byte [] b = false
has_byte (x ∷ xs) b = (b == x) || has_byte xs b

-- The tests of `ft_putnbr_base_n` on each byte of the base.
unfoldable pub valid_base : Text → Bool
valid_base [] = true
valid_base (x ∷ xs) =
    leb 32 x && leb x 126 && not (x == 43) && not (x == 45) && not (has_byte xs x) && valid_base xs

unfoldable pub ft_putnbr_base_n : Writes → Console → (nbr : ℕ) → (base : Text) → Printed
ft_putnbr_base_n left con nbr base =
    if not (valid_base base) || leb (length base) 1
    then (con, some 0)
    else print_base left base_rounds con nbr (length base) base

-- The lower case hexadecimal digits.
abbrev pub hex_digits : Text
hex_digits = 48 ∷ 49 ∷ 50 ∷ 51 ∷ 52 ∷ 53 ∷ 54 ∷ 55 ∷ 56 ∷ 57 ∷ 97 ∷ 98 ∷ 99 ∷ 100 ∷ 101 ∷ 102 ∷ []

unfoldable pub ft_putptr_n : Writes → Console → (ptr : ℕ) → Printed
ft_putptr_n left con ptr =
    and_then (write left con (48 ∷ 120 ∷ [])) (λ c. ft_putnbr_base_n left c ptr hex_digits)

-- The four functions on a descriptor; the console is that descriptor's.
unfoldable pub ft_putchar_fd : Writes → Console → (c : ℕ) → Printed
ft_putchar_fd left con c = write left con (c % 256 ∷ [])

unfoldable pub ft_putstr_fd : Writes → Console → (s : Text) → Printed
ft_putstr_fd left con s = write left con s

unfoldable pub ft_putendl_fd : Writes → Console → (s : Text) → Console
ft_putendl_fd left con s = (ft_putchar_fd left (ft_putstr_fd left con s).0 10).0

-- The digits of `ft_putnbr_fd`, which goes on after a failed write.
unfoldable pub put_digits_fd : Writes → ℕ → Console → (nbr : ℕ) → Console
put_digits_fd left zero con nbr = con
put_digits_fd left (suc k) con nbr =
    let higher = put_digits_fd left k con (nbr / 10) in
    (ft_putchar_fd left (if ltb 9 nbr then higher else con) (nbr % 10 + 48)).0

unfoldable pub ft_putnbr_fd : Writes → Console → (n : ℤ) → Console
ft_putnbr_fd left con (pos n) = put_digits_fd left rounds con n
ft_putnbr_fd left con (negsuc n) = put_digits_fd left rounds (ft_putchar_fd left con 45).0 (n + 1)

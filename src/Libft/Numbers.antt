-- ===== src/Libft/Numbers.antt =====
-- Numbers and their texts: libft/src/ft_atoi.c, ft_atol.c, ft_atoll.c and ft_itoa.c. An `int` is its
-- 32-bit word and a `long` its 64-bit word, in two's complement; sums and products wrap around.
pub mod Digits
pub mod Reading
pub mod RoundTrip
use ft_malloc.Base.{
  ℕ, zero, suc, ◌+◌, ◌-◌, ◌*◌, ◌/◌, ◌%◌, ◌^◌, ◌&&◌, ◌||◌, not, Bool, Option, none, some, ltb, leb,
  ◌==◌, if◌then◌else◌, ◌>>=◌,
}
use ft_malloc.Libft.Memory.{Bytes, set_byte}
use ft_malloc.Libft.Text.{ft_bzero}

unfoldable pub is_space : ℕ → Bool
is_space b = (ltb 8 b && ltb b 14) || (b == 32)

unfoldable pub is_digit : ℕ → Bool
is_digit b = ltb 47 b && ltb b 58

-- The address of the first byte that is no space.
unfoldable pub skip_spaces : ℕ → Bytes → ℕ → Option ℕ
unfolding is_space
skip_spaces zero m x = none
skip_spaces (suc k) m x =
    let rest = skip_spaces k m (x + 1) in if is_space (m x) then rest else some x

-- The digits from `x` on, read into a word of `range` values.
unfoldable pub read_digits : (range : ℕ) → ℕ → Bytes → (x nbr : ℕ) → Option ℕ
unfolding is_digit
read_digits range zero m x nbr = none
read_digits range (suc k) m x nbr =
    let rest = read_digits range k m (x + 1) ((nbr * 10 + (m x - 48)) % range) in
    if is_digit (m x) then rest else some nbr

unfoldable pub negate : (range : ℕ) → ℕ → ℕ
negate range nbr = (range - nbr) % range

-- What the three functions do, each at its own width.
unfoldable pub read_number : (range : ℕ) → ℕ → Bytes → (str : ℕ) → Option ℕ
read_number range fuel m str = do
  i ← skip_spaces fuel m str
  nbr ← read_digits range fuel m (if (m i == 45) || (m i == 43) then i + 1 else i) 0
  some (if m i == 45 then negate range nbr else nbr)

unfoldable pub ft_atoi : ℕ → Bytes → (str : ℕ) → Option ℕ
ft_atoi fuel m str = read_number (2 ^ 32) fuel m str

unfoldable pub ft_atol : ℕ → Bytes → (str : ℕ) → Option ℕ
ft_atol fuel m str = read_number (2 ^ 64) fuel m str

unfoldable pub ft_atoll : ℕ → Bytes → (str : ℕ) → Option ℕ
ft_atoll fuel m str = read_number (2 ^ 64) fuel m str

-- `(long)n`.
unfoldable pub sign_extend : ℕ → ℕ
sign_extend n = if ltb n (2 ^ 31) then n else n + (2 ^ 64 - 2 ^ 32)

-- `nbr < 0`, and `-nbr` where it is.
unfoldable pub is_negative : ℕ → Bool
is_negative nbr = leb (2 ^ 63) nbr

unfoldable pub magnitude : ℕ → ℕ
magnitude nbr = if leb (2 ^ 63) nbr then negate (2 ^ 64) nbr else nbr

-- `nbr % 10 || nbr / 10`.
unfoldable pub has_digits : ℕ → Bool
has_digits nbr = not (nbr % 10 == 0) || not (nbr / 10 == 0)

-- The loop of `count_itoa`, with at most `k` rounds left.
unfoldable pub count_digits : ℕ → (nbr i : ℕ) → ℕ
count_digits zero nbr i = i
count_digits (suc k) nbr i =
    let rest = count_digits k (nbr / 10) (i + 1) in if has_digits nbr then rest else i

-- More rounds than the digits of an `int`.
abbrev pub rounds : ℕ
rounds = 11

unfoldable pub count_itoa : ℕ → ℕ
count_itoa nbr =
    count_digits rounds (magnitude nbr)
      ((if is_negative nbr then 1 else 0) + (if magnitude nbr == 0 then 1 else 0))

-- The loop of `ft_itoa`, which writes the digits backwards; the next one goes in front of `end`.
unfoldable pub put_digits : ℕ → Bytes → (end nbr : ℕ) → Bytes
put_digits zero m end nbr = m
put_digits (suc k) m end nbr =
    let rest = put_digits k (set_byte m (end - 1) (nbr % 10 + 48)) (end - 1) (nbr / 10) in
    if has_digits nbr then rest else m

-- The memory and the text, where `res` is what the call of `malloc` in `ft_calloc` returns.
unfoldable pub ft_itoa : Bytes → (res n : ℕ) → Bytes × ℕ
ft_itoa m res n =
    let nbr = sign_extend n in
    let len = count_itoa nbr in
    let cleared = ft_bzero m res (len + 1) in
    let signed = if is_negative nbr then set_byte cleared res 45 else cleared in
    let null = if magnitude nbr == 0 then set_byte signed (res + len - 1) 48 else signed in
    if res == 0 then (m, 0) else (put_digits rounds null (res + len) (magnitude nbr), res)

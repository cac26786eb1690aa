-- ===== src/Libft/Numbers/Reading.antt =====
-- What `ft_atoi` reads of the text of a number.
use ft_malloc.Base.{
  ℕ, zero, suc, ◌+◌, ◌-◌, ◌^◌, ◌<◌, ◌≤◌, ◌≡◌, ◌≢◌, ◌⊎◌, inl, inr, refl, ap, ◌∙◌, true, false, some,
  ltb, leb, ◌==◌, arith, Bool-cases,
}
use ft_malloc.Libft.Memory.{Bytes}
use ft_malloc.Libft.Numbers.{
  is_space, is_digit, skip_spaces, negate, read_number, ft_atoi, sign_extend, is_negative,
  magnitude,
}
use ft_malloc.Libft.Numbers.Digits.{Number, Number-Digits, read_digits-Number}

-- The text of a natural number: digits at least one, and a byte behind them that is none.
pub record Decimal (m : Bytes) (x v : ℕ) : Type 0 where
  pub count : ℕ
  pub few : count ≤ 11
  pub number : Number m x (suc count) v
  pub stop : m (x + suc count) ≡ 0

digit_facts :
    (b : ℕ) → is_digit b ≡ true → (is_space b ≡ false) × ((b == 45) ≡ false) × ((b == 43) ≡ false)
unfolding is_digit is_space
digit_facts b e = ground (arith, e)

stop_lem : (b : ℕ) → b ≡ 0 → is_digit b ≡ false
unfolding is_digit
stop_lem b e = rw e refl

minus_lem : (b : ℕ) → b ≡ 45 → is_space b ≡ false
unfolding is_space
minus_lem b e = rw e refl

-- What `ft_atoi` reads of such a text, with or without a sign.
pub atoi-digits :
    (fuel : ℕ) (m : Bytes) (x v : ℕ)
    → 12 < fuel
    → v < 2 ^ 32
    → Decimal m x v
    → ft_atoi fuel m x ≡ some v
unfolding ft_atoi read_number skip_spaces
atoi-digits zero m x v l b d = absurd (omega (arith, l))
atoi-digits (suc fuel) m x v l b d =
    let first : is_digit (m x) ≡ true =
      ap (λ (y : ℕ). is_digit (m y)) (omega arith)
      ∙ Number-Digits m x (suc d.count) v d.number 0 (omega arith) in
    let (no_space, no_minus, no_plus) = digit_facts (m x) first in
    let stop : is_digit (m (x + suc d.count)) ≡ false = stop_lem (m (x + suc d.count)) d.stop in
    rw
      (
        no_space,
        no_minus,
        no_plus,
        read_digits-Number (suc fuel) m x (suc d.count) v (omega (arith, l, d.few)) b d.number stop,
      )
      refl

pub atoi-minus :
    (fuel : ℕ) (m : Bytes) (x v : ℕ)
    → 12 < fuel
    → v < 2 ^ 32
    → m x ≡ 45
    → Decimal m (x + 1) v
    → ft_atoi fuel m x ≡ some (negate (2 ^ 32) v)
unfolding ft_atoi read_number skip_spaces
atoi-minus zero m x v l b minus d = absurd (omega (arith, l))
atoi-minus (suc fuel) m x v l b minus d =
    let stop : is_digit (m (x + 1 + suc d.count)) ≡ false =
      stop_lem (m (x + 1 + suc d.count)) d.stop in
    rw
      (
        minus_lem (m x) minus,
        minus,
        read_digits-Number (suc fuel) m (x + 1) (suc d.count) v (omega (arith, l, d.few)) b d.number
            stop,
      )
      refl

-- The value of an `int`: its sign, and its magnitude.
pub int_facts :
    (n : ℕ)
    → n < 2 ^ 32
    → ((is_negative (sign_extend n) ≡ false) × (magnitude (sign_extend n) ≡ n) × (n < 2 ^ 31))
      ⊎ ((is_negative (sign_extend n) ≡ true)
          × (magnitude (sign_extend n) + n ≡ 2 ^ 32)
          × (magnitude (sign_extend n) ≤ 2 ^ 31)
          × (magnitude (sign_extend n) ≢ 0))
unfolding is_negative sign_extend magnitude negate
int_facts n l = elim (Bool-cases (ltb n 2147483648)) [
  | inl e ↦ rw e (inl (ground (arith, e)))
  | inr e ↦
      let wide : leb 9223372036854775808 (n + (2 ^ 64 - 2 ^ 32)) ≡ true = ground (arith, e) in
      let low : 2147483648 ≤ n = ground (arith, e) in
      rw e
        (inr (rw wide (refl, omega (arith, l, low), omega (arith, l, low), omega (arith, l, low))))
]

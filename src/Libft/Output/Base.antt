-- ===== src/Libft/Output/Base.antt =====
-- A number that is printed in a base, and read back.
use ft_malloc.Base.{
  ℕ, zero, suc, ◌+◌, ◌-◌, ◌*◌, ◌/◌, ◌%◌, ◌^◌, ◌≤◌, ◌<◌, ◌≡◌, ◌≢◌, ◌⊎◌, inl, inr, refl, sym, ap, ◌∙◌,
  true, false, some, [], ◌∷◌, ◌++◌, ◌==◌, if◌then◌else◌, leb, length, take-whole, arith, Bool-cases,
  leb→le, append_assoc, length-append,
}
use native.Mathlib.Nat.{
  div-add-mod', mod-lt, div-lt_iff_lt-mul, pow-suc, pow-zero, pow-le-pow_left, mod-eq_of_lt,
}
use ft_malloc.Libft.Strings.{Text, byte_at}
use ft_malloc.Libft.Output.{
  Writes, Console, Printed, written, write, add_count, and_then, print_base, has_byte, valid_base,
  ft_putnbr_base_n,
}

-- The place of a byte in a base.
abbrev pub place : Text → ℕ → ℕ
place [] b = 0
place (x ∷ xs) b = if x == b then 0 else suc (place xs b)

-- The number that digits stand for, behind those that make `acc`.
abbrev pub value : Text → ℕ → Text → ℕ
value base acc [] = acc
value base acc (d ∷ ds) = value base (acc * length base + place base d) ds

-- The digits of a number: there is one, and a zero comes first only alone.
abbrev pub IsNumeral : Text → Text → Type 0
IsNumeral base [] = ¬ Unit {0}
IsNumeral base (d ∷ []) = Unit {0}
IsNumeral base (d ∷ e ∷ ds) = place base d ≢ 0

value-append :
    (base : Text) (acc : ℕ) (ds : Text) (d : ℕ)
    → value base acc (ds ++ d ∷ []) ≡ value base acc ds * length base + place base d
value-append base acc [] d = refl
value-append base acc (e ∷ ds) d = value-append base (acc * length base + place base e) ds d

has_byte-at : (xs : Text) (i : ℕ) → i < length xs → has_byte xs (byte_at xs i) ≡ true
unfolding has_byte byte_at
has_byte-at [] i l = absurd (omega (arith, l))
has_byte-at (x ∷ xs) zero l = ground arith
has_byte-at (x ∷ xs) (suc i) l = ground (arith, has_byte-at xs i (omega (arith, l)))

valid_base-rest :
    (x : ℕ) (xs : Text)
    → valid_base (x ∷ xs) ≡ true
    → (has_byte xs x ≡ false) × (valid_base xs ≡ true)
unfolding valid_base
valid_base-rest x xs v = (ground (arith, v), ground (arith, v))

-- A byte stands once in a valid base.
place-byte_at :
    (base : Text) (i : ℕ)
    → valid_base base ≡ true
    → i < length base
    → place base (byte_at base i) ≡ i
unfolding valid_base byte_at
place-byte_at [] i v l = absurd (omega (arith, l))
place-byte_at (x ∷ xs) zero v l = ground arith
place-byte_at (x ∷ xs) (suc i) v l =
    let (once, rest) = valid_base-rest x xs v in
    elim (Bool-cases (x == byte_at xs i)) [
      | inl e ↦
          let same : x ≡ byte_at xs i = ground (arith, e) in
          absurd (apart (sym once ∙ ap (has_byte xs) same ∙ has_byte-at xs i (omega (arith, l))))
      | inr e ↦ rw e (ap suc (place-byte_at xs i rest (omega (arith, l))))
    ]
  where
    apart : ¬ (false ≡ true)
    apart e = cc

le→leb_false : (a b : ℕ) → b < a → leb a b ≡ false
le→leb_false a b h = ground arith

IsNumeral-append :
    (base t : Text) (d : ℕ) → IsNumeral base t → value base 0 t ≢ 0 → IsNumeral base (t ++ d ∷ [])
IsNumeral-append base [] d i n = absurd (i tt)
IsNumeral-append base (e ∷ []) d i n = λ z. n (omega (arith, z))
IsNumeral-append base (e ∷ f ∷ ds) d i n = i

-- The text that stands for the number in the base has been written, and counted.
abbrev pub Shows : Text → Console → ℕ → Printed → Type 0
Shows base con nbr p =
    (t : Text) × (d : Console) × (p ≡ (d, some (length t)))
    × (d.out ≡ con.out ++ t)
    × (value base 0 t ≡ nbr)
    × IsNumeral base t

module _ (left : Writes) (whole : (n : ℕ) → left n ≡ some 0) where
  pub write-whole :
      (con : Console) (t : Text)
      → write left con t ≡ (record { calls = con.calls + 1; out = con.out ++ t }, some (length t))
  unfolding write written
  write-whole con t = rw (whole con.calls, take-whole (length t - 0) t (omega arith)) refl

  module _ (base : Text) (valid : valid_base base ≡ true) (two : 2 ≤ length base) where
    digit-place : (n : ℕ) → place base (byte_at base (n % length base)) ≡ n % length base
    digit-place n = place-byte_at base (n % length base) valid (mod-lt n (omega (arith, two)))

    shorter : (n j : ℕ) → n < length base ^ suc j → n / length base < length base ^ j
    shorter n j l =
        (div-lt_iff_lt-mul {k = length base} {x = n} {y = length base ^ j} (omega (arith, two))).1
          (omega (arith, l, pow-suc (length base) j))

    below : (n : ℕ) → n / length base ≡ 0 → n < length base
    below n z =
        let l =
          (div-lt_iff_lt-mul {k = length base} {x = n} {y = 1} (omega (arith, two))).0
            (omega (arith, z)) in
        omega (arith, l)

    single :
        (k : ℕ) (con : Console) (nbr : ℕ)
        → leb (length base) nbr ≡ false
        → Shows base con nbr (print_base left (suc k) con nbr (length base) base)
    unfolding print_base
    single k con nbr e =
        let digit = byte_at base (nbr % length base) in
        let small : nbr % length base ≡ nbr = mod-eq_of_lt (ground (arith, e)) in
        (
          digit ∷ [],
          record { calls = con.calls + 1; out = con.out ++ digit ∷ [] },
          rw (e, write-whole con (digit ∷ [])) refl,
          refl,
          omega (arith, digit-place nbr, small),
          tt,
        )

    further :
        (k : ℕ) (con : Console) (nbr : ℕ)
        → leb (length base) nbr ≡ true
        → Shows base con
            (nbr / length base)
            (print_base left k con (nbr / length base) (length base) base)
        → Shows base con nbr (print_base left (suc k) con nbr (length base) base)
    unfolding print_base and_then add_count
    further k con nbr e (t, d, p, out, read, numeral) =
        let digit = byte_at base (nbr % length base) in
        let not_zero : nbr / length base ≢ 0 =
          λ z. absurd (omega (arith, below nbr z, leb→le (length base) nbr e)) in
        (
          t ++ digit ∷ [],
          record { calls = d.calls + 1; out = d.out ++ digit ∷ [] },
          rw (e, p, write-whole d (digit ∷ []))
              (ap (λ n. (record { calls = d.calls + 1; out = d.out ++ digit ∷ [] }, some n))
                (sym (length-append t (digit ∷ [])))),
          ap (λ u. u ++ digit ∷ []) out ∙ append_assoc con.out t (digit ∷ []),
          value-append base 0 t digit
              ∙ rw (read, digit-place nbr) (omega (arith, div-add-mod' nbr (length base))),
          IsNumeral-append base t digit numeral (λ z. not_zero (sym read ∙ z)),
        )

    pub print_base-Shows :
        (k : ℕ) (con : Console) (nbr : ℕ)
        → nbr < length base ^ k
        → Shows base con nbr (print_base left (suc k) con nbr (length base) base)
    print_base-Shows zero con nbr l =
        single zero con nbr
          (le→leb_false (length base) nbr (omega (arith, two, l, pow-zero (length base))))
    print_base-Shows (suc j) con nbr l = elim (Bool-cases (leb (length base) nbr)) [
      | inr e ↦ single (suc j) con nbr e
      | inl e ↦
          further (suc j) con nbr e (print_base-Shows j con (nbr / length base) (shorter nbr j l))
    ]

-- 64 digits are enough in every base.
wide : (base : Text) → 2 ≤ length base → (n : ℕ) → n < 2 ^ 64 → n < length base ^ 64
wide base two n l = omega (arith, l, pow-le-pow_left {n = 2} {m = length base} two 64)

-- Where each call of `write` writes all its bytes, `ft_putnbr_base_n` with a base of two bytes or more
-- that passes its tests writes the digits of the number, and returns how many there are: the
-- number that they stand for in that base is the one that was to be printed, and a zero comes first
-- only alone. With any other base it writes nothing and returns 0.
pub ft_putnbr_base_n-Shows :
    (left : Writes)
    → ((n : ℕ) → left n ≡ some 0)
    → (con : Console) (nbr : ℕ) (base : Text) → nbr < 2 ^ 64
    → ((valid_base base ≡ true)
        × (2 ≤ length base)
        × Shows base con nbr (ft_putnbr_base_n left con nbr base))
      ⊎ ((valid_base base ≡ false) ⊎ (length base ≤ 1))
        × (ft_putnbr_base_n left con nbr base ≡ (con, some 0))
unfolding ft_putnbr_base_n
ft_putnbr_base_n-Shows left whole con nbr base l = elim (Bool-cases (valid_base base)) [
  | inr e ↦ inr (inl e, rw e refl)
  | inl e ↦ elim (Bool-cases (leb (length base) 1)) [
    | inl f ↦ inr (inr (leb→le (length base) 1 f), rw (e, f) refl)
    | inr f ↦
        let two : 2 ≤ length base = ground (arith, f) in
        inl (
          e,
          two,
          rw (e, f) (print_base-Shows left whole base e two 64 con nbr (wide base two nbr l)),
        )
  ]
]

-- ===== src/Libft/Output/Expand/Emits.antt =====
-- What the functions that print one value write.
use ft_malloc.Base.{
  ℕ, zero, suc, ◌+◌, ◌/◌, ◌%◌, ◌^◌, ◌<◌, ◌≡◌, inl, inr, refl, sym, ap, ◌∙◌, subst, true, Option,
  none, some, [], ◌∷◌, ◌++◌, leb, ltb, length, arith, Bool-cases, append_assoc, length-append,
}
use native.Mathlib.Nat.{mod-lt, mod-eq_of_lt}
use ft_malloc.Libft.Text.{ℤ, pos, negsuc}
use ft_malloc.Libft.Strings.{Text, byte_at}
use ft_malloc.Libft.Output.{
  Writes, Console, Printed, write, add_count, and_then, ft_putchar_n, null_text, ft_putstr_n,
  put_decimal, rounds, ft_putnbr_n, print_base, valid_base, ft_putnbr_base_n, ft_putptr_n,
  hex_digits, has_byte,
}
use ft_malloc.Libft.Output.Base.{Shows, write-whole, print_base-Shows, ft_putnbr_base_n-Shows}
use ft_malloc.Libft.Output.Printf.{to_int, upper_digits}
use ft_malloc.Libft.Output.Expand.{decimal, Numeral, Signed, shown, Wrote}

-- Some text of the kind has been written, and counted.
unfoldable pub Emits : (Text → Type 0) → Console → Printed → Type 0
Emits P c p = (t : Text) × P t × Wrote c t p

pub Emits-and_then :
    (P Q R : Text → Type 0) (c : Console) (p : Printed) (f : Console → Printed)
    → Emits P c p
    → ((d : Console) → Emits Q d (f d))
    → ((t u : Text) → P t → Q u → R (t ++ u))
    → Emits R c (and_then p f)
unfolding Emits and_then add_count
Emits-and_then P Q R c p f (t, kind, (d, e, out)) g join =
    let (u, rest, (d', e', out')) = g d in
    (
      t ++ u,
      join t u kind rest,
      (
        d',
        rw (e, e') (ap (λ n. (d', some n)) (sym (length-append t u))),
        out' ∙ ap (λ v. v ++ u) out ∙ append_assoc c.out t u,
      ),
    )

pub Emits-weaken :
    (P Q : Text → Type 0) (c : Console) (p : Printed)
    → ((t : Text) → P t → Q t)
    → Emits P c p
    → Emits Q c p
unfolding Emits
Emits-weaken P Q c p f (t, kind, w) = (t, f t kind, w)

rising : ℕ → ℕ → Text
rising a zero = []
rising a (suc k) = a ∷ rising (suc a) k

byte_at-rising : (a k i : ℕ) → i < k → byte_at (rising a k) i ≡ i + a
unfolding byte_at rising
byte_at-rising a zero i l = absurd (omega (arith, l))
byte_at-rising a (suc k) zero l = omega arith
byte_at-rising a (suc k) (suc i) l = byte_at-rising (suc a) k i (omega (arith, l)) ∙ omega arith

decimal-rising : decimal ≡ rising 48 10
unfolding rising
decimal-rising = refl

decimal-at : (n : ℕ) → byte_at decimal (n % 10) ≡ (n % 10 + 48) % 256
decimal-at n =
    let small : n % 10 < 10 = mod-lt n (omega arith) in
    ap (λ t. byte_at t (n % 10)) decimal-rising
    ∙ byte_at-rising 48 10 (n % 10) small
    ∙ sym (mod-eq_of_lt (omega (arith, small)))

ltb-leb : (n : ℕ) → ltb 9 n ≡ leb 10 n
ltb-leb n = ground arith

decimal-valid : valid_base decimal ≡ true
unfolding valid_base has_byte
decimal-valid = refl

pub Fits : ℤ → Type 0
Fits (pos n) = n < 10 ^ 19
Fits (negsuc n) = n + 1 < 10 ^ 19

pub word_bound : (w : ℕ) → w % 2 ^ 32 < 2 ^ 32
word_bound w = mod-lt w (omega arith)

pub to_int-Fits : (w : ℕ) → Fits (to_int w)
unfolding Fits to_int
to_int-Fits w =
    let small : w % 2 ^ 32 < 2 ^ 32 = mod-lt w (omega arith) in
    elim (Bool-cases (ltb (w % 2 ^ 32) (2 ^ 31))) [
      | inl e ↦ rw e (omega (arith, small))
      | inr e ↦ rw e (omega (arith, small))
    ]

pub hex-valid : valid_base hex_digits ≡ true
unfolding valid_base has_byte
hex-valid = refl

pub upper-valid : valid_base upper_digits ≡ true
unfolding valid_base has_byte
upper-valid = refl

module _ (left : Writes) (whole : (n : ℕ) → left n ≡ some 0) where
  pub Emits-write : (c : Console) (t : Text) → Emits (λ u. u ≡ t) c (write left c t)
  unfolding Emits
  Emits-write c t = (t, refl, (_, write-whole left whole c t, refl))

  -- The decimal digits are those of the base of ten digits.
  put_decimal-print_base :
      (k : ℕ) (c : Console) (nbr : ℕ)
      → put_decimal left k c nbr ≡ print_base left k c nbr 10 decimal
  unfolding put_decimal print_base ft_putchar_n
  put_decimal-print_base zero c nbr = refl
  put_decimal-print_base (suc k) c nbr =
      rw (put_decimal-print_base k c (nbr / 10), ltb-leb nbr, decimal-at nbr) refl

  Shows-Emits :
      (base : Text) (c : Console) (n : ℕ) (p : Printed)
      → Shows base c n p
      → Emits (Numeral base n) c p
  unfolding Emits
  Shows-Emits base c n p (t, d, e, out, read, numeral) = (t, (read, numeral), (d, e, out))

  pub put_decimal-Emits :
      (c : Console) (n : ℕ)
      → n < 10 ^ 19
      → Emits (Numeral decimal n) c (put_decimal left rounds c n)
  put_decimal-Emits c n l =
      subst (Emits (Numeral decimal n) c) (sym (put_decimal-print_base rounds c n)) (
        Shows-Emits decimal c n _
          (print_base-Shows left whole decimal decimal-valid (omega arith) 19 c n l))

  pub hex-Emits :
      (base : Text) (c : Console) (n : ℕ)
      → valid_base base ≡ true
      → length base ≡ 16
      → n < 2 ^ 64
      → Emits (Numeral base n) c (ft_putnbr_base_n left c n base)
  hex-Emits base c n v len l = elim (ft_putnbr_base_n-Shows left whole c n base l) [
    | inl (e, two, s) ↦ Shows-Emits base c n _ s
    | inr (inl e, p) ↦ absurd (cc)
    | inr (inr e, p) ↦ absurd (omega (arith, e, len))
  ]

  pub ft_putnbr_n-Signed :
      (c : Console) (z : ℤ) → Fits z → Emits (Signed z) c (ft_putnbr_n left c z)
  unfolding ft_putnbr_n Fits ft_putchar_n
  ft_putnbr_n-Signed c (pos n) l = put_decimal-Emits c n l
  ft_putnbr_n-Signed c (negsuc n) l =
      Emits-and_then _ _ _ c _ _ (Emits-write c (45 ∷ [])) (λ d. put_decimal-Emits d (n + 1) l)
        (λ t u e k. (u, ap (λ v. v ++ u) e, k))

  pub ft_putptr_n-Emits :
      (c : Console) (w : ℕ)
      → w < 2 ^ 64
      → Emits
          (λ t. (u : Text) × (t ≡ 48 ∷ 120 ∷ u) × Numeral hex_digits w u)
          c
          (ft_putptr_n left c w)
  unfolding ft_putptr_n
  ft_putptr_n-Emits c w l =
      Emits-and_then _ _ _ c _ _ (Emits-write c (48 ∷ 120 ∷ []))
        (λ d. hex-Emits hex_digits d w hex-valid refl l) (λ t u e k. (u, ap (λ v. v ++ u) e, k))

  pub ft_putstr_n-Emits :
      (c : Console) (s : Option Text) → Emits (λ u. u ≡ shown s) c (ft_putstr_n left c s)
  unfolding ft_putstr_n
  ft_putstr_n-Emits c none = Emits-write c null_text
  ft_putstr_n-Emits c (some s) = Emits-write c s

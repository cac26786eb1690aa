-- ===== src/Libft/Numbers/RoundTrip.antt =====
-- A number that `ft_itoa` writes is the one that `ft_atoi` reads.
use ft_malloc.Base.{
  subst, ℕ, suc, ◌+◌, ◌-◌, ◌/◌, ◌^◌, ◌<◌, ◌≤◌, ◌≡◌, ◌≢◌, inl, inr, refl, sym, ap, ◌∙◌, true, false,
  Bool, some, ◌==◌, if◌then◌else◌, arith, Bool-cases, ne→==,
}
use ft_malloc.Libft.Memory.{Bytes, set_byte}
use ft_malloc.Libft.Text.{ft_bzero}
use ft_malloc.Libft.Numbers.{
  negate, ft_atoi, sign_extend, is_negative, magnitude, has_digits, count_itoa, put_digits, ft_itoa,
  rounds,
}
use ft_malloc.Libft.Numbers.Digits.{
  Number, digits, count_digits-digits, digits-le, put_digits-Number, pow10, set_byte-here,
  set_byte-off, ft_bzero-cleared,
}
use ft_malloc.Libft.Numbers.Reading.{Decimal, atoi-digits, atoi-minus, int_facts}

has_digits-given : (v : ℕ) → v ≢ 0 → has_digits v ≡ true
unfolding has_digits
has_digits-given v ne = ground (arith, ne)

digits-given : (k v : ℕ) → v ≢ 0 → digits (suc k) v ≡ suc (digits k (v / 10))
digits-given k v ne = rw (has_digits-given v ne) refl

digits-null : (k : ℕ) → digits (suc k) 0 ≡ 0
unfolding has_digits
digits-null k = refl

put_digits-null : (k : ℕ) (m : Bytes) (end : ℕ) → put_digits (suc k) m end 0 ≡ m
unfolding put_digits has_digits
put_digits-null k m end = refl

-- The last steps of `ft_itoa` write the magnitude `v` behind the sign, in the memory `m` that is
-- cleared at the end.
abbrev filled : (k : ℕ) → Bytes → (x len v : ℕ) → Bytes
filled k m x len v = put_digits k (if v == 0 then set_byte m (x + len - 1) 48 else m) (x + len) v

Written : (k : ℕ) → Bytes → (x len v : ℕ) → Type 0
Written k m x len v =
    Decimal (filled k m x len v) x v × ((y : ℕ) → y < x → filled k m x len v y ≡ m y)

Written-null : (k : ℕ) (m : Bytes) (x : ℕ) → m (x + 1) ≡ 0 → Written (suc k) m x 1 0
unfolding Written
Written-null k m x stop =
    let back : x + 1 - 1 ≡ x = omega arith in
    let first : x + 0 ≡ x = omega arith in
    rw (put_digits-null k (set_byte m (x + 1 - 1) 48) (x + 1), back)
      (
        record {
          count = 0;
          few = omega arith;
          number = (rw first (set_byte-here m x 48), refl);
          stop = set_byte-off m x 48 (x + 1) (omega arith) ∙ stop;
        },
        λ y o. set_byte-off m x 48 y (omega (arith, o)),
      )

Written-given :
    (k : ℕ) (m : Bytes) (x v : ℕ)
    → k ≤ 11
    → v < pow10 (suc k)
    → v ≢ 0
    → m (x + digits (suc k) v) ≡ 0
    → Written (suc k) m x (digits (suc k) v) v
unfolding Written
Written-given k m x v few l ne stop =
    let len = digits (suc k) v in
    let (number, kept) = put_digits-Number (suc k) m x (x + len) v l refl in
    rw (ne→== v 0 ne) (
      record {
        count = digits k (v / 10);
        few = omega (arith, few, digits-le k (v / 10));
        number =
            subst (λ (n : ℕ). Number (put_digits (suc k) m (x + len) v) x n v) (digits-given k v ne)
              number;
        stop =
            ap (λ (n : ℕ). put_digits (suc k) m (x + len) v (x + n)) (sym (digits-given k v ne))
            ∙ kept (x + len) (inr (omega arith))
            ∙ stop;
      },
      λ y o. kept y (inl o),
    )

written :
    (k : ℕ) (m : Bytes) (x len v : ℕ)
    → k ≤ 11
    → v < pow10 (suc k)
    → len ≡ digits (suc k) v + (if v == 0 then 1 else 0)
    → m (x + len) ≡ 0
    → Written (suc k) m x len v
written k m x len v few l e stop = elim (Bool-cases (v == 0)) [
  | inl null ↦
      let zero_lem : v ≡ 0 = ground (arith, null) in
      let one : len ≡ 1 = e ∙ rw (zero_lem, digits-null k) refl in
      rw (zero_lem, one) (Written-null k m x (ap (λ (n : ℕ). m (x + n)) (sym one) ∙ stop))
  | inr given ↦
      let count : len ≡ digits (suc k) v = e ∙ rw given (omega arith) in
      rw count (
        Written-given k m x v few l (ground (arith, given))
          (ap (λ (n : ℕ). m (x + n)) (sym count) ∙ stop))
]

count_itoa-digits :
    (nbr v : ℕ) (negative : Bool)
    → is_negative nbr ≡ negative
    → magnitude nbr ≡ v
    → count_itoa nbr ≡ digits rounds v + ((if negative then 1 else 0) + (if v == 0 then 1 else 0))
unfolding count_itoa
count_itoa-digits nbr v negative sign size =
    rw (sign, size)
      (count_digits-digits rounds v ((if negative then 1 else 0) + (if v == 0 then 1 else 0)))

-- `ft_itoa` of an `int` that is not negative.
itoa-plain :
    (m : Bytes) (res n : ℕ)
    → res ≢ 0
    → n < 2 ^ 32
    → is_negative (sign_extend n) ≡ false
    → magnitude (sign_extend n) ≡ n
    → ((ft_itoa m res n).1 ≡ res) × Decimal (ft_itoa m res n).0 res n
unfolding ft_itoa Written
itoa-plain m res n given l plain size =
    let len = digits rounds n + (0 + (if n == 0 then 1 else 0)) in
    rw (count_itoa-digits (sign_extend n) n false plain size, plain, size, ne→== res 0 given)
      (
        refl,
        (written 10 (ft_bzero m res (len + 1)) res len n (omega arith) (omega (arith, l))
            (omega arith)
            (ft_bzero-cleared m res (len + 1) (res + len) (omega arith) (omega arith))).0,
      )

-- `ft_itoa` of a negative `int`.
itoa-signed :
    (m : Bytes) (res n v : ℕ)
    → res ≢ 0
    → v < 2 ^ 32
    → is_negative (sign_extend n) ≡ true
    → magnitude (sign_extend n) ≡ v
    → v ≢ 0
    → ((ft_itoa m res n).1 ≡ res)
      × ((ft_itoa m res n).0 res ≡ 45)
      × Decimal (ft_itoa m res n).0 (res + 1) v
unfolding ft_itoa Written
itoa-signed m res n v given l negative size ne =
    let d = digits rounds v in
    let len = d + (1 + 0) in
    let signed = set_byte (ft_bzero m res (len + 1)) res 45 in
    let end : res + len ≡ res + 1 + d = omega arith in
    let stop : signed (res + 1 + d) ≡ 0 =
      set_byte-off (ft_bzero m res (len + 1)) res 45 (res + 1 + d) (omega arith)
      ∙ ft_bzero-cleared m res (len + 1) (res + 1 + d) (omega arith) (omega arith) in
    let nonzero : (v == 0) ≡ false = ne→== v 0 ne in
    let (text, kept) =
      Written-given 10 signed (res + 1) v (omega arith) (omega (arith, l)) ne stop in
    let result : ft_itoa m res n ≡ (put_digits rounds signed (res + 1 + d) v, res) =
      rw
        (
          count_itoa-digits (sign_extend n) v true negative size,
          negative,
          size,
          nonzero,
          ne→== res 0 given,
          end,
        )
        refl in
    let plain : filled 11 signed (res + 1) d v ≡ put_digits rounds signed (res + 1 + d) v =
      rw nonzero refl in
    rw result (
      refl,
      sym (ap (λ (b : Bytes). b res) plain)
          ∙ kept res (omega arith)
          ∙ set_byte-here (ft_bzero m res (len + 1)) res 45,
      subst (λ b. Decimal b (res + 1) v) plain text,
    )

-- `ft_atoi` reads the text that `ft_itoa` writes as the number that was written, for each of the
-- 2 ^ 32 values of an `int`, where the text has got memory.
pub ft_atoi-ft_itoa :
    (fuel : ℕ) (m : Bytes) (res n : ℕ)
    → 12 < fuel
    → n < 2 ^ 32
    → res ≢ 0
    → ft_atoi fuel (ft_itoa m res n).0 (ft_itoa m res n).1 ≡ some n
unfolding negate
ft_atoi-ft_itoa fuel m res n f l given = elim (int_facts n l) [
  | inl (plain, size, low) ↦
      let (at, text) = itoa-plain m res n given l plain size in
      rw at (atoi-digits fuel (ft_itoa m res n).0 res n f l text)
  | inr (negative, total, low, ne) ↦
      let v = magnitude (sign_extend n) in
      let (at, minus, text) = itoa-signed m res n v given (omega (arith, low)) negative refl ne in
      rw at (
        atoi-minus fuel (ft_itoa m res n).0 res v f (omega (arith, low)) minus text
        ∙ ap some (omega (arith, total, low, ne)))
]

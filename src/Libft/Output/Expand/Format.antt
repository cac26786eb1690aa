-- ===== src/Libft/Output/Expand/Format.antt =====
-- What `ft_printf` writes.
use ft_malloc.Base.{
  ℕ, ◌+◌, ◌%◌, ◌^◌, ◌≡◌, ◌≢◌, ◌⊎◌, inl, inr, refl, sym, ap, ◌∙◌, subst, ◌||◌, false, some, [], ◌∷◌,
  ◌++◌, ◌==◌, if◌then◌else◌, arith, Bool-cases, append-nil,
}
use native.Mathlib.Nat.{mod-lt}
use ft_malloc.Libft.Strings.{Text}
use ft_malloc.Libft.Output.{Writes, Console, ft_putchar_n, ft_putnbr_n, hex_digits}
use ft_malloc.Libft.Output.Printf.{
  Args, to_int, upper_digits, takes_argument, put_all, print, ft_printf,
}
use ft_malloc.Libft.Output.Expand.{
  Converted, Expands, Prints, character, text, pointer, signed, unsigned, lower, upper, percent,
  other, ended, plain, lone, converted,
}
use ft_malloc.Libft.Output.Expand.Emits.{
  Emits, Emits-and_then, Emits-weaken, Emits-write, put_decimal-Emits, hex-Emits,
  ft_putnbr_n-Signed, ft_putptr_n-Emits, ft_putstr_n-Emits, to_int-Fits, word_bound, hex-valid,
  upper-valid,
}

module _ (left : Writes) (whole : (n : ℕ) → left n ≡ some 0) where
  -- The conversions behind `c`, `s`, `p`, `d` and `i`.
  others-Converted :
      (args : Args) (c : Console) (d n : ℕ)
      → (d == 99) ≡ false
      → (d == 115) ≡ false
      → (d == 112) ≡ false
      → (d == 100) || (d == 105) ≡ false
      → Emits (Converted args n d) c (put_all left args c d n)
  unfolding put_all takes_argument ft_putchar_n ft_putnbr_n Emits
  others-Converted args c d n f0 f1 f2 f3 = elim (Bool-cases (d == 117)) [
    | inl e ↦
        let is : d ≡ 117 = ground (arith, e) in
        rw (f0, f1, f2, f3, e)
          (Emits-weaken _ _ c _ (λ t k. unsigned t is k)
            (put_decimal-Emits left whole c (args.word n % 2 ^ 32)
              (omega (arith, word_bound (args.word n)))))
    | inr f4 ↦ elim (Bool-cases (d == 120)) [
      | inl e ↦
          let is : d ≡ 120 = ground (arith, e) in
          rw (f0, f1, f2, f3, f4, e)
            (Emits-weaken _ _ c _ (λ t k. lower t is k)
              (hex-Emits left whole hex_digits c (args.word n % 2 ^ 32) hex-valid refl
                (omega (arith, word_bound (args.word n)))))
      | inr f5 ↦ elim (Bool-cases (d == 88)) [
        | inl e ↦
            let is : d ≡ 88 = ground (arith, e) in
            rw (f0, f1, f2, f3, f4, f5, e)
              (Emits-weaken _ _ c _ (λ t k. upper t is k)
                (hex-Emits left whole upper_digits c (args.word n % 2 ^ 32) upper-valid refl
                  (omega (arith, word_bound (args.word n)))))
        | inr f6 ↦ elim (Bool-cases (d == 37)) [
          | inl e ↦
              let is : d ≡ 37 = ground (arith, e) in
              rw (f0, f1, f2, f3, f4, f5, f6, e)
                (Emits-weaken _ _ c _
                  (λ t k.
                    subst (Converted args n d) (sym (k ∙ ap (λ b. b % 256 ∷ []) is)) (percent is))
                  (Emits-write left whole c (d % 256 ∷ [])))
          | inr f7 ↦
              let takes_none : takes_argument d ≡ false =
                ground (arith, f0, f1, f2, f3, f4, f5, f6) in
              let is_not : d ≢ 37 = ground (arith, f7) in
              rw (f0, f1, f2, f3, f4, f5, f6, f7)
                ([], other takes_none is_not, (c, refl, sym (append-nil c.out)))
        ]
      ]
    ]
  ]

  put_all-Converted :
      (args : Args) (c : Console) (d n : ℕ) → Emits (Converted args n d) c (put_all left args c d n)
  unfolding put_all ft_putchar_n
  put_all-Converted args c d n = elim (Bool-cases (d == 99)) [
    | inl e ↦
        let is : d ≡ 99 = ground (arith, e) in
        rw e (
          Emits-weaken _ _ c _ (λ t k. subst (Converted args n d) (sym k) (character is))
            (Emits-write left whole c (args.word n % 256 ∷ [])))
    | inr f0 ↦ elim (Bool-cases (d == 115)) [
      | inl e ↦
          let is : d ≡ 115 = ground (arith, e) in
          rw (f0, e)
            (Emits-weaken _ _ c _ (λ t k. subst (Converted args n d) (sym k) (text is))
              (ft_putstr_n-Emits left whole c (args.text n)))
      | inr f1 ↦ elim (Bool-cases (d == 112)) [
        | inl e ↦
            let is : d ≡ 112 = ground (arith, e) in
            rw (f0, f1, e)
              (Emits-weaken _ _ c _
                (λ t k.
                  let (u, e, numeral) = k in
                  subst (Converted args n d) (sym e) (pointer u is numeral))
                (ft_putptr_n-Emits left whole c (args.word n % 2 ^ 64)
                  (mod-lt (args.word n) (omega arith))))
        | inr f2 ↦ elim (Bool-cases ((d == 100) || (d == 105))) [
          | inl e ↦
              let is : (d ≡ 100) ⊎ (d ≡ 105) = ground (arith, e) in
              rw (f0, f1, f2, e)
                (Emits-weaken _ _ c _ (λ t k. signed t is k)
                  (ft_putnbr_n-Signed left whole c (to_int (args.word n))
                    (to_int-Fits (args.word n))))
          | inr f3 ↦ others-Converted args c d n f0 f1 f2 f3
        ]
      ]
    ]
  ]

  nul-nothing : (args : Args) (c : Console) (n : ℕ) → put_all left args c 0 n ≡ (c, some 0)
  unfolding put_all
  nul-nothing args c n = refl

  ended-Emits : (args : Args) (n : ℕ) (c : Console) → Emits (Expands args n []) c (c, some 0)
  unfolding Emits
  ended-Emits args n c = ([], ended n, (c, refl, sym (append-nil c.out)))

  lone-Emits :
      (args : Args) (n x : ℕ) (c : Console) → x ≡ 37 → Emits (Expands args n (x ∷ [])) c (c, some 0)
  unfolding Emits
  lone-Emits args n x c is = ([], lone n x is, (c, refl, sym (append-nil c.out)))

  plain-Expands :
      (args : Args) (n x : ℕ) (str t u : Text)
      → x ≢ 37
      → t ≡ x % 256 ∷ []
      → Expands args n str u
      → Expands args n (x ∷ str) (t ++ u)
  plain-Expands args n x str t u not e k =
      subst (λ v. Expands args n (x ∷ str) (v ++ u)) (sym e) (plain n x str u not k)

  print-Expands :
      (args : Args) (str : Text) (c : Console) (n : ℕ)
      → Emits (Expands args n str) c (print left args str c n)
  unfolding print ft_putchar_n
  print-Expands args [] c n = ended-Emits args n c
  print-Expands args (x ∷ []) c n = elim (Bool-cases (x == 37)) [
    | inl e ↦ rw (e, nul-nothing args c n) (lone-Emits args n x c (ground (arith, e)))
    | inr e ↦
        let not : x ≢ 37 = ground (arith, e) in
        rw e (
          Emits-weaken _ _ c _
            (λ t k. subst (Expands args n (x ∷ [])) (sym k) (plain n x [] [] not (ended n)))
            (Emits-write left whole c (x % 256 ∷ [])))
  ]
  print-Expands args (x ∷ d ∷ str) c n = elim (Bool-cases (x == 37)) [
    | inl e ↦
        let is : x ≡ 37 = ground (arith, e) in
        rw e (
          Emits-and_then _ _ _ c _ _ (put_all-Converted args c d n)
            (λ c'. print-Expands args str c' (if takes_argument d then n + 1 else n))
            (λ t u k l. converted n x d str t u is k l))
    | inr e ↦
        let not : x ≢ 37 = ground (arith, e) in
        rw e (
          Emits-and_then _ _ _ c _ _ (Emits-write left whole c (x % 256 ∷ []))
            (λ c'. print-Expands args (d ∷ str) c' n)
            (λ t u k l. plain-Expands args n x (d ∷ str) t u not k l))
  ]

-- Where each call of `write` writes all its bytes, `ft_printf` writes a text that its format stands for
-- with its arguments, and returns the length of that text: a byte other than `%` stands for itself, and
-- a `%` with the byte behind it for what that conversion makes of the next argument, a number by its
-- digits in the base, that are read back as the number and have a zero first only alone.
pub ft_printf-Expands :
    (left : Writes)
    → ((n : ℕ) → left n ≡ some 0)
    → (args : Args) (con : Console) (str : Text)
    → Prints args str con (ft_printf left args con (some str))
unfolding ft_printf Emits
ft_printf-Expands left whole args con str = print-Expands left whole args str con 0

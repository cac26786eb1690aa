-- ===== src/Libft/Output/Counts.antt =====
-- What the output functions return.
use ft_malloc.Base.{
  ℕ, zero, suc, ◌+◌, ◌-◌, ◌/◌, ◌%◌, ◌^◌, ◌≤◌, ◌<◌, ◌≡◌, ◌≢◌, inl, inr, refl, sym, ap, ◌∙◌, ◌||◌,
  not, true, false, Bool, Option, none, some, [], ◌∷◌, ◌++◌, ◌==◌, if◌then◌else◌, leb, ltb, length,
  take, arith, Bool-cases, Option-cases, append_assoc, append-nil, length-append,
}
use ft_malloc.Libft.Text.{ℤ, pos, negsuc}
use ft_malloc.Libft.Strings.{Text, byte_at}
use ft_malloc.Libft.Output.{
  Writes, Console, Printed, written, write, add_count, and_then, ft_putchar_n, null_text,
  ft_putstr_n, put_decimal, rounds, base_rounds, ft_putnbr_n, print_base, valid_base,
  ft_putnbr_base_n, ft_putptr_n, hex_digits,
}
use ft_malloc.Libft.Output.Printf.{
  Args, to_int, upper_digits, takes_argument, put_all, print, ft_printf,
}

-- The bytes that were written are counted; or a call of `write` failed, and the result is - 1.
abbrev pub Outcome : Writes → Console → Text → Printed → Type 0
Outcome left c new (d, none) = (n : ℕ) × (c.calls ≤ n) × (n < d.calls) × (left n ≡ none)
Outcome left c new (d, some k) =
    (k ≡ length new) × ((n : ℕ) → c.calls ≤ n → n < d.calls → left n ≢ none)

pub record Counts (left : Writes) (c : Console) (p : Printed) : Type 0 where
  pub new : Text
  pub out : p.0.out ≡ c.out ++ new
  pub calls : c.calls ≤ p.0.calls
  pub outcome : Outcome left c new p

module _ (left : Writes) where
  Counts-nothing : (c : Console) → Counts left c (c, some 0)
  Counts-nothing c = record {
    new = [];
    out = sym (append-nil c.out);
    calls = omega arith;
    outcome = (refl, λ n l h. absurd (omega (arith, l, h)));
  }

  Counts-write : (c : Console) (t : Text) → Counts left c (write left c t)
  unfolding write written
  Counts-write c t = elim (Option-cases (left c.calls)) [
    | inl e ↦ rw e (record {
      new = [];
      out = sym (append-nil c.out);
      calls = omega arith;
      outcome = (c.calls, omega arith, omega arith, e);
    })
    | inr (k, e) ↦ rw e (record {
      new = take (length t - k) t;
      out = refl;
      calls = omega arith;
      outcome = (refl, λ n l h w. clash k e n (omega (arith, l, h)) w);
    })
  ]
    where
      clash : (k : ℕ) → left c.calls ≡ some k → (n : ℕ) → n ≡ c.calls → left n ≡ none → ⊥
      clash k e n same w = cc

  Counts-added :
      (c d : Console) (n : ℕ) (r : Printed)
      → Counts left c (d, some n)
      → Counts left d r
      → Counts left c (r.0, add_count n r.1)
  unfolding add_count
  Counts-added c d n (e, none) k g = record {
    new = k.new ++ g.new;
    out = rw (sym (append_assoc c.out k.new g.new)) (g.out ∙ ap (λ t. t ++ g.new) k.out);
    calls = omega (arith, k.calls, g.calls);
    outcome = (g.outcome.0, omega (arith, k.calls, g.outcome.1), g.outcome.2, g.outcome.3);
  }
  Counts-added c d n (e, some m) k g = record {
    new = k.new ++ g.new;
    out = rw (sym (append_assoc c.out k.new g.new)) (g.out ∙ ap (λ t. t ++ g.new) k.out);
    calls = omega (arith, k.calls, g.calls);
    outcome = (
      omega (arith, k.outcome.0, g.outcome.0, length-append k.new g.new),
      λ i l h. elim (Bool-cases (ltb i d.calls)) [
        | inl e ↦ k.outcome.1 i l (ground (arith, e))
        | inr e ↦ g.outcome.1 i (ground (arith, e)) h
      ],
    );
  }

  Counts-and_then :
      (c : Console) (p : Printed) (f : Console → Printed)
      → Counts left c p
      → ((d : Console) → Counts left d (f d))
      → Counts left c (and_then p f)
  unfolding and_then add_count
  Counts-and_then c (d, none) f k g = k
  Counts-and_then c (d, some n) f k g = Counts-added c d n (f d) k (g d)

  put_decimal-Counts : (k : ℕ) (c : Console) (nbr : ℕ) → Counts left c (put_decimal left k c nbr)
  unfolding put_decimal ft_putchar_n
  put_decimal-Counts zero c nbr = Counts-nothing c
  put_decimal-Counts (suc k) c nbr = elim (Bool-cases (ltb 9 nbr)) [
    | inl e ↦ rw e (
        Counts-and_then c (put_decimal left k c (nbr / 10))
          (λ d. ft_putchar_n left d (nbr % 10 + 48)) (put_decimal-Counts k c (nbr / 10))
          (λ d. Counts-write d ((nbr % 10 + 48) % 256 ∷ [])))
    | inr e ↦ rw e (Counts-write c ((nbr % 10 + 48) % 256 ∷ []))
  ]

  ft_putnbr_n-Counts : (c : Console) (nbr : ℤ) → Counts left c (ft_putnbr_n left c nbr)
  unfolding ft_putnbr_n ft_putchar_n
  ft_putnbr_n-Counts c (pos n) = put_decimal-Counts rounds c n
  ft_putnbr_n-Counts c (negsuc n) =
      Counts-and_then c (write left c (45 ∷ [])) (λ d. put_decimal left rounds d (n + 1))
        (Counts-write c (45 ∷ [])) (λ d. put_decimal-Counts rounds d (n + 1))

  print_base-Counts :
      (k : ℕ) (c : Console) (nbr len : ℕ) (base : Text)
      → Counts left c (print_base left k c nbr len base)
  unfolding print_base
  print_base-Counts zero c nbr len base = Counts-nothing c
  print_base-Counts (suc k) c nbr len base =
      let digit = byte_at base (nbr % len) ∷ [] in
      elim (Bool-cases (leb len nbr)) [
        | inl e ↦ rw e (
            Counts-and_then c (print_base left k c (nbr / len) len base) (λ d. write left d digit)
              (print_base-Counts k c (nbr / len) len base) (λ d. Counts-write d digit))
        | inr e ↦ rw e (Counts-write c digit)
      ]

  ft_putnbr_base_n-Counts :
      (c : Console) (nbr : ℕ) (base : Text) → Counts left c (ft_putnbr_base_n left c nbr base)
  unfolding ft_putnbr_base_n
  ft_putnbr_base_n-Counts c nbr base =
      elim (Bool-cases (not (valid_base base) || leb (length base) 1)) [
        | inl e ↦ rw e (Counts-nothing c)
        | inr e ↦ rw e (print_base-Counts base_rounds c nbr (length base) base)
      ]

  ft_putptr_n-Counts : (c : Console) (ptr : ℕ) → Counts left c (ft_putptr_n left c ptr)
  unfolding ft_putptr_n
  ft_putptr_n-Counts c ptr =
      Counts-and_then c (write left c (48 ∷ 120 ∷ [])) (λ d. ft_putnbr_base_n left d ptr hex_digits)
        (Counts-write c (48 ∷ 120 ∷ [])) (λ d. ft_putnbr_base_n-Counts d ptr hex_digits)

  ft_putstr_n-Counts : (c : Console) (s : Option Text) → Counts left c (ft_putstr_n left c s)
  unfolding ft_putstr_n
  ft_putstr_n-Counts c none = Counts-write c null_text
  ft_putstr_n-Counts c (some s) = Counts-write c s

  Counts-if :
      (b : Bool) (c : Console) (p q : Printed)
      → Counts left c p
      → Counts left c q
      → Counts left c (if b then p else q)
  Counts-if true c p q k l = k
  Counts-if false c p q k l = l

  put_all-Counts : (args : Args) (c : Console) (x n : ℕ) → Counts left c (put_all left args c x n)
  unfolding put_all ft_putchar_n
  put_all-Counts args c x n = Counts-if (x == 99) c _ _ (Counts-write c (args.word n % 256 ∷ [])) (
      Counts-if (x == 115) c _ _ (ft_putstr_n-Counts c (args.text n)) (
        Counts-if (x == 112) c _ _ (ft_putptr_n-Counts c (args.word n % 2 ^ 64)) (
          Counts-if ((x == 100) || (x == 105)) c _ _ (ft_putnbr_n-Counts c (to_int (args.word n))) (
            Counts-if (x == 117) c _ _ (ft_putnbr_n-Counts c (pos (args.word n % 2 ^ 32))) (
              Counts-if (x == 120) c _ _
                (ft_putnbr_base_n-Counts c (args.word n % 2 ^ 32) hex_digits)
                (Counts-if (x == 88) c _ _
                  (ft_putnbr_base_n-Counts c (args.word n % 2 ^ 32) upper_digits)
                  (Counts-if (x == 37) c _ _ (Counts-write c (x % 256 ∷ []))
                    (Counts-nothing c))))))))

  print-Counts :
      (args : Args) (str : Text) (c : Console) (n : ℕ) → Counts left c (print left args str c n)
  unfolding print ft_putchar_n
  print-Counts args [] c n = Counts-nothing c
  print-Counts args (x ∷ []) c n =
      Counts-if (x == 37) c (put_all left args c 0 n) (ft_putchar_n left c x)
        (put_all-Counts args c 0 n) (Counts-write c (x % 256 ∷ []))
  print-Counts args (x ∷ d ∷ str) c n =
      Counts-if (x == 37) c _ _
        (Counts-and_then c (put_all left args c d n) _ (put_all-Counts args c d n)
          (λ e. print-Counts args str e (if takes_argument d then n + 1 else n)))
        (Counts-and_then c (write left c (x % 256 ∷ [])) _ (Counts-write c (x % 256 ∷ []))
          (λ e. print-Counts args (d ∷ str) e n))

-- `ft_printf` returns the number of the bytes that its calls of `write` wrote, short writes included,
-- if none of them failed; it returns - 1 just where one failed. Nothing that was written before is
-- changed.
pub ft_printf-Counts :
    (left : Writes) (args : Args) (c : Console) (str : Option Text)
    → Counts left c (ft_printf left args c str)
unfolding ft_printf
ft_printf-Counts left args c none = Counts-nothing left c
ft_printf-Counts left args c (some str) = print-Counts left args str c 0

-- ===== src/Libft/Text/Laws.antt =====
-- What the comparisons, searches and bounded copies of libft give.
use ft_malloc.Base.{
  ℕ, zero, suc, ◌+◌, ◌%◌, ◌≤◌, ◌<◌, ◌≡◌, ◌≢◌, ◌⊎◌, inl, inr, refl, ap, false, arith, ◌==◌,
  Bool-cases, some,
}
use ft_malloc.Libft.Memory.{Bytes}
use ft_malloc.Libft.Text.{pos, byte_diff, ft_memcmp, char_is, chr_loop, ft_strchr}

-- `n` bytes of text at `str`, then a NUL byte.
abbrev pub IsText : Bytes → (str n : ℕ) → Type 0
IsText m str zero = m str ≡ 0
IsText m str (suc n) = (m str ≢ 0) × IsText m (str + 1) n

char_is-high : (byte c : ℕ) → 128 ≤ c % 256 → char_is byte c ≡ false
unfolding char_is
char_is-high byte c h = ground arith

chr_loop-high :
    (fuel : ℕ) (m : Bytes) (str c n : ℕ)
    → IsText m str n
    → n < fuel
    → 128 ≤ c % 256
    → chr_loop fuel m str c ≡ some 0
unfolding chr_loop
chr_loop-high zero m str c n t f h = absurd (omega arith)
chr_loop-high (suc k) m str c zero t f h = rw (t, char_is-high 0 c h) refl
chr_loop-high (suc k) m str c (suc n) t f h =
    rw (char_is-high (m str) c h)
      (ground (arith, chr_loop-high k m (str + 1) c n t.1 (omega arith) h))

-- From the byte 128 on, `ft_strchr` of that byte returns NULL in every text, whether the byte is in
-- it or not, since it compares a signed `char` with an `unsigned char`.
pub ft_strchr-high :
    (fuel : ℕ) (m : Bytes) (str c n : ℕ)
    → IsText m str n
    → n < fuel
    → 128 ≤ c % 256
    → ft_strchr fuel m str c ≡ some 0
unfolding ft_strchr
ft_strchr-high fuel m str c n t f h = ground (arith, chr_loop-high fuel m str c n t f h)

-- The two regions agree in their first `n` bytes.
abbrev pub Agree : Bytes → (a b n : ℕ) → Type 0
Agree m a b zero = Unit
Agree m a b (suc n) = (m a ≡ m b) × Agree m (a + 1) (b + 1) n

-- `ft_memcmp` gives 0 where the two regions agree, and otherwise the difference of the first two
-- bytes that differ.
pub ft_memcmp-first :
    (n : ℕ) (m : Bytes) (a b : ℕ)
    → (Agree m a b n × (ft_memcmp m a b n ≡ pos 0))
      ⊎ ((j : ℕ) × (j < n)
          × Agree m a b j
          × (m (a + j) ≢ m (b + j))
          × (ft_memcmp m a b n ≡ byte_diff (m (a + j)) (m (b + j))))
unfolding ft_memcmp
ft_memcmp-first zero m a b = inl (tt, refl)
ft_memcmp-first (suc n) m a b = elim (Bool-cases (m a == m b)) [
  | inr differ ↦
      inr (0, omega arith, tt, ground (arith, here a, here b), rw (differ, here a, here b) refl)
  | inl same ↦ elim (ft_memcmp-first n m (a + 1) (b + 1)) [
    | inl (agree, zero_lem) ↦ inl ((ground arith, agree), rw same zero_lem)
    | inr (j, l, agree, ne, lem) ↦ inr (
      suc j,
      omega arith,
      (ground arith, agree),
      ground (arith, ne, next a j, next b j),
      rw same (rw (next a j, next b j) lem),
    )
  ]
]
  where
    here : (x : ℕ) → m (x + 0) ≡ m x
    here x = ap m (omega arith)

    next : (x j : ℕ) → m (x + suc j) ≡ m (x + 1 + j)
    next x j = ap m (omega arith)

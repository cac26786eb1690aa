-- ===== src/Sizes/Align.antt =====
-- What `align_size` computes.
use ft_malloc.Base.{
  ◌⊎◌, ℕ, ◌+◌, ◌-◌, ◌%◌, ◌≤◌, ◌<◌, ◌≡◌, arith, le→ltb, lt→ltb, Bool-cases, leb, leb→le, inl, inr,
  ap,
}
use ft_malloc.Base.Words.{size_max}
use ft_malloc.Base.Bits.{and_minus_16}
use ft_malloc.Sizes.{align_size, alignment}

-- Where the sum does not wrap, the mask rounds down `size + 15`.
pub align_size-round :
    (size : ℕ) → size ≤ size_max - 16 → align_size size ≡ size + 15 - (size + 15) % 16
unfolding align_size
align_size-round size h = rw (le→ltb (size_max - 16) size h) (
    omega (
      arith,
      and_minus_16
          ((((size + 16) % 18446744073709551616) + 18446744073709551616 - 1) % 18446744073709551616)
          (omega arith),
    ))

-- Up to SIZE_MAX - 16, `align_size` returns the least multiple of 16 that is not below the size.
pub align_size_up :
    (size : ℕ)
    → size ≤ size_max - 16
    → (align_size size % 16 ≡ 0)
      × (size ≤ align_size size)
      × ((m : ℕ) → m % 16 ≡ 0 → size ≤ m → align_size size ≤ m)
align_size_up size h = (
  omega (arith, align_size-round size h),
  omega (arith, align_size-round size h),
  λ m p q. omega (arith, align_size-round size h),
)

pub align_size-large : (size : ℕ) → size_max - 16 < size → align_size size ≡ size
unfolding align_size
align_size-large size h = rw (lt→ltb (size_max - 16) size h)

-- An aligned size is aligned as it is.
pub align_size-twice : (size : ℕ) → align_size (align_size size) ≡ align_size size
align_size-twice size = elim (Bool-cases (leb size (size_max - 16))) [
  | inr e ↦ ap align_size (align_size-large size (ground arith))
  | inl e ↦
      let (multiple, le, least) = align_size_up size (leb→le size (size_max - 16) e) in
      elim (Bool-cases (leb (align_size size) (size_max - 16))) [
        | inr e' ↦ align_size-large (align_size size) (ground arith)
        | inl e' ↦
            let (_, le', least') =
              align_size_up (align_size size) (leb→le (align_size size) (size_max - 16) e') in
            omega (arith, le', least' (align_size size) multiple (omega arith))
      ]
]

-- For every size: up to SIZE_MAX - 16, `align_size` returns the least multiple of 16 that is not below
-- the size, and above that the size as it is.
pub align_size_least :
    (size : ℕ)
    → (size ≤ size_max - alignment)
        × (align_size size % 16 ≡ 0)
        × (size ≤ align_size size)
        × ((m : ℕ) → m % 16 ≡ 0 → size ≤ m → align_size size ≤ m)
      ⊎ (size_max - alignment < size) × (align_size size ≡ size)
align_size_least size = elim (Bool-cases (leb size (size_max - 16))) [
  | inl e ↦
      let le = leb→le size (size_max - 16) e in
      let (multiple, covers, least) = align_size_up size le in inl (le, multiple, covers, least)
  | inr e ↦
      let above : size_max - 16 < size = ground (arith, e) in
      inr (above, align_size-large size above)
]

-- ===== src/Libft/Memory/Overlap.antt =====
-- `ft_memmove` copies as if through a buffer, however the two regions overlap.
use ft_malloc.Base.{
  refl, true, ℕ, zero, suc, ◌+◌, ◌-◌, ◌≤◌, ◌<◌, ◌≡◌, ◌≢◌, ◌⊎◌, inl, inr, ◌∙◌, ltb→lt, ap, ◌&&◌,
  arith, ltb, leb, if◌then◌else◌, Bool-cases,
}
use ft_malloc.Libft.Memory.{Bytes, set_byte, copy_up, copy_down, ft_memcpy, ft_memmove}

-- The bytes of `m` with `n` of them from `src` on copied to `dest`.
abbrev pub moved : Bytes → (dest src n : ℕ) → Bytes
moved m dest src n x = if leb dest x && ltb x (dest + n) then m (src + (x - dest)) else m x

copy_down-moved :
    (n : ℕ) (m : Bytes) (dest src : ℕ)
    → src ≤ dest
    → (x : ℕ) → copy_down n m dest src x ≡ moved m dest src n x
unfolding copy_down set_byte
copy_down-moved zero m dest src l x = ground arith
copy_down-moved (suc n) m dest src l x =
    copy_down-moved n (set_byte m (dest + n) (m (src + n))) dest src l x ∙ step (dest_cases x)
  where
    dest_cases : (x : ℕ) → (x ≡ dest + n) ⊎ (x ≢ dest + n)
    dest_cases x = ground arith

    step :
        (x ≡ dest + n) ⊎ (x ≢ dest + n)
        → moved (set_byte m (dest + n) (m (src + n))) dest src n x ≡ moved m dest src (suc n) x
    step (inl e) = rw e (ground (arith, shift))
      where
        shift : m (src + (dest + n - dest)) ≡ m (src + n)
        shift = ap (λ (y : ℕ). m (src + y)) (omega arith)
    step (inr ne) = ground arith

-- The bytes from `dest + i` on, with `k` rounds left.
abbrev moved_from : Bytes → (dest src i k : ℕ) → Bytes
moved_from m dest src i k x =
    if leb (dest + i) x && ltb x (dest + i + k) then m (src + (x - dest)) else m x

copy_up-moved :
    (k : ℕ) (m : Bytes) (dest src i : ℕ)
    → dest < src
    → (x : ℕ) → copy_up k m dest src i x ≡ moved_from m dest src i k x
unfolding copy_up set_byte
copy_up-moved zero m dest src i l x = ground arith
copy_up-moved (suc k) m dest src i l x =
    copy_up-moved k (set_byte m (dest + i) (m (src + i))) dest src (i + 1) l x ∙ step (dest_cases x)
  where
    dest_cases : (x : ℕ) → (x ≡ dest + i) ⊎ (x ≢ dest + i)
    dest_cases x = ground arith

    step :
        (x ≡ dest + i) ⊎ (x ≢ dest + i)
        → moved_from (set_byte m (dest + i) (m (src + i))) dest src (i + 1) k x
          ≡ moved_from m dest src i (suc k) x
    step (inl e) = rw e (ground (arith, shift))
      where
        shift : m (src + (dest + i - dest)) ≡ m (src + i)
        shift = ap (λ (y : ℕ). m (src + y)) (omega arith)
    step (inr ne) = ground arith

-- After `ft_memmove` between addresses that are not NULL each byte of the destination is the byte
-- that stood at its place in the source before the call, and every other byte is as before,
-- however the two regions overlap.
pub ft_memmove-moved :
    (m : Bytes) (dest src n : ℕ)
    → dest ≢ 0
    → src ≢ 0
    → (x : ℕ)
    → ft_memmove m dest src n x
      ≡ (if leb dest x && ltb x (dest + n) then m (src + (x - dest)) else m x)
unfolding ft_memmove ft_memcpy
ft_memmove-moved m dest src n d s x = elim (Bool-cases (ltb dest src)) [
  | inl up ↦ ground (arith, copy_up-moved n m dest src 0 (ltb→lt dest src up) x)
  | inr down ↦ ground (arith, copy_down-moved n m dest src (ground arith) x)
]

-- The `size` bytes at `to` are those that were at `from`; every other byte is as before.
pub record Copied (old new : Bytes) (from to size : ℕ) : Type 0 where
  pub kept : (k : ℕ) → k < size → new (to + k) ≡ old (from + k)
  pub others : (x : ℕ) → (x < to) ⊎ (to + size ≤ x) → new x ≡ old x

pub ft_memmove-Copied :
    (m : Bytes) (from to size : ℕ)
    → to ≢ 0
    → from ≢ 0
    → Copied m (ft_memmove m to from size) from to size
ft_memmove-Copied m from to size t f = record {
  kept = λ k l.
      let at : from + (to + k - to) ≡ from + k = omega arith in
      let inside : leb to (to + k) && ltb (to + k) (to + size) ≡ true = ground arith in
      ft_memmove-moved m to from size t f (to + k) ∙ rw (inside, at) refl;
  others = λ x o. ft_memmove-moved m to from size t f x ∙ ground (arith, o);
}

-- ===== src/Libft/Memory.antt =====
-- libft/src/ft_memcpy.c and libft/src/ft_memmove.c, on bytes at addresses.
pub mod Overlap
use ft_malloc.Base.{ℕ, zero, suc, ◌+◌, ◌&&◌, ltb, ◌==◌, if◌then◌else◌}

abbrev pub Bytes : Type 0
Bytes = ℕ → ℕ

unfoldable pub set_byte : Bytes → ℕ → ℕ → Bytes
set_byte m a v x = if x == a then v else m x

-- `while (n > i) { str[i] = temp[i]; i++; }`, with `k` rounds left.
unfoldable pub copy_up : ℕ → Bytes → (dest src i : ℕ) → Bytes
unfolding set_byte
copy_up zero m dest src i = m
copy_up (suc k) m dest src i = copy_up k (set_byte m (dest + i) (m (src + i))) dest src (i + 1)

-- `while (n--) str[n] = cpy[n];`
unfoldable pub copy_down : ℕ → Bytes → (dest src : ℕ) → Bytes
unfolding set_byte
copy_down zero m dest src = m
copy_down (suc n) m dest src = copy_down n (set_byte m (dest + n) (m (src + n))) dest src

unfoldable pub ft_memcpy : Bytes → (dest src n : ℕ) → Bytes
unfolding copy_up
ft_memcpy m dest src n = if (dest == 0) && (src == 0) then m else copy_up n m dest src 0

unfoldable pub ft_memmove : Bytes → (dest src n : ℕ) → Bytes
unfolding ft_memcpy copy_down
ft_memmove m dest src n =
    if (dest == 0) && (src == 0)
    then m
    else if ltb dest src
    then ft_memcpy m dest src n
    else copy_down n m dest src

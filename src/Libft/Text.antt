-- ===== src/Libft/Text.antt =====
-- The searches, comparisons and bounded copies of libft: libft/src/ft_memset.c, ft_bzero.c, ft_calloc.c,
-- ft_memchr.c, ft_memcmp.c, ft_strlen.c, ft_strlcpy.c, ft_strlcat.c, ft_strncmp.c, ft_strnstr.c,
-- ft_strchr.c and ft_strrchr.c. A loop that only a NUL byte ends runs on fuel. `char` is signed, as
-- on the platforms that the Makefile builds for.
pub mod Laws
use ft_malloc.Base.{
  ℕ, zero, suc, ◌+◌, ◌-◌, ◌*◌, ◌%◌, ◌^◌, ◌&&◌, ◌||◌, not, Bool, Option, none, some, ltb, leb, ◌==◌,
  if◌then◌else◌, ◌>>=◌,
}
use ft_malloc.Base.Words.{add64}
use ft_malloc.Libft.Memory.{Bytes, set_byte}

-- An `int`: `negsuc n` is - (n + 1).
pub data ℤ : Type 0 where
  pos negsuc : ℕ → ℤ

-- The difference of two bytes.
unfoldable pub byte_diff : ℕ → ℕ → ℤ
byte_diff a b = if ltb a b then negsuc (b - a - 1) else pos (a - b)

-- `while (n > i) { str[i] = c; i++; }`, with `k` rounds left.
unfoldable pub fill : ℕ → Bytes → (dest c i : ℕ) → Bytes
fill zero m dest c i = m
fill (suc k) m dest c i = fill k (set_byte m (dest + i) (c % 256)) dest c (i + 1)

unfoldable pub ft_memset : Bytes → (dest c n : ℕ) → Bytes
ft_memset m dest c n = fill n m dest c 0

unfoldable pub ft_bzero : Bytes → (dest n : ℕ) → Bytes
ft_bzero m dest n = ft_memset m dest 0 n

-- The memory and its address, where `array` is what `malloc` returns for `len * size` bytes; the
-- product wraps around.
unfoldable pub ft_calloc : Bytes → (array len size : ℕ) → Bytes × ℕ
ft_calloc m array len size =
    if array == 0 then (m, 0) else (ft_bzero m array (len * size % 2 ^ 64), array)

unfoldable pub ft_memchr : Bytes → (src c n : ℕ) → ℕ
ft_memchr m src c zero = 0
ft_memchr m src c (suc n) =
    let rest = ft_memchr m (src + 1) c n in if m src == (c % 256) then src else rest

unfoldable pub ft_memcmp : Bytes → (str1 str2 n : ℕ) → ℤ
ft_memcmp m str1 str2 zero = pos 0
ft_memcmp m str1 str2 (suc n) =
    let rest = ft_memcmp m (str1 + 1) (str2 + 1) n in
    if m str1 == m str2 then rest else byte_diff (m str1) (m str2)

unfoldable pub len_loop : ℕ → Bytes → (str i : ℕ) → Option ℕ
len_loop zero m str i = none
len_loop (suc k) m str i =
    let rest = len_loop k m str (i + 1) in if m (str + i) == 0 then some i else rest

unfoldable pub ft_strlen : ℕ → Bytes → ℕ → Option ℕ
ft_strlen fuel m str = if str == 0 then some 0 else len_loop fuel m str 0

-- The loop of the two bounded copies, with at most `k` rounds left: the memory and the last `i`.
unfoldable pub copy_text : ℕ → Bytes → (dest src i : ℕ) → Bytes × ℕ
copy_text zero m dest src i = (m, i)
copy_text (suc k) m dest src i =
    let rest = copy_text k (set_byte m (dest + i) (m (src + i))) dest src (i + 1) in
    if m (src + i) == 0 then (m, i) else rest

-- The copy with the NUL byte behind it.
unfoldable pub copy_ended : ℕ → Bytes → (dest src : ℕ) → Bytes
copy_ended k m dest src =
    let copied = copy_text k m dest src 0 in set_byte copied.0 (dest + copied.1) 0

unfoldable pub ft_strlcpy : ℕ → Bytes → (dest src size : ℕ) → Option (Bytes × ℕ)
ft_strlcpy fuel m dest src size = do
  let copied = if size == 0 then m else copy_ended (size - 1) m dest src
  len ← ft_strlen fuel copied src
  some (copied, len)

unfoldable pub ft_strlcat : ℕ → Bytes → (dest src size : ℕ) → Option (Bytes × ℕ)
ft_strlcat fuel m dest src size = do
  dest_len ← ft_strlen fuel m dest
  let added = copy_ended (size - dest_len - 1) m (dest + dest_len) src
  if (dest == 0) || (src == 0)
      then some (m, 0)
      else if (size == 0) || leb size dest_len
      then (ft_strlen fuel m src >>= λ n. some (m, add64 n size))
      else (ft_strlen fuel added src >>= λ n. some (added, add64 dest_len n))

unfoldable pub ft_strncmp : Bytes → (str1 str2 n : ℕ) → ℤ
ft_strncmp m str1 str2 zero = pos 0
ft_strncmp m str1 str2 (suc n) =
    let rest = ft_strncmp m (str1 + 1) (str2 + 1) n in
    if (m str1 == 0) && (m str2 == 0)
    then pos 0
    else if m str1 == m str2
    then rest
    else byte_diff (m str1) (m str2)

-- The inner loop of `ft_strnstr`, with at most `k` rounds left: the number of bytes that agree.
unfoldable pub match_loop : ℕ → Bytes → (str1 str2 n : ℕ) → ℕ
match_loop zero m str1 str2 n = n
match_loop (suc k) m str1 str2 n =
    let rest = match_loop k m str1 str2 (n + 1) in
    if (m (str1 + n) == m (str2 + n)) && not (m (str1 + n) == 0) then rest else n

-- The outer loop at `str1 + i`, with `len - i` rounds left.
unfoldable pub find_text : ℕ → Bytes → (str1 str2 : ℕ) → ℕ
find_text zero m str1 str2 = 0
find_text (suc k) m str1 str2 =
    let rest = find_text k m (str1 + 1) str2 in
    if m str1 == 0
    then 0
    else if m (str2 + match_loop (suc k) m str1 str2 0) == 0
    then str1
    else rest

unfoldable pub ft_strnstr : Bytes → (str1 str2 len : ℕ) → ℕ
ft_strnstr m str1 str2 len = if m str2 == 0 then str1 else find_text len m str1 str2

-- `str[i] == (unsigned char) c`: the left side is a signed `char`, so it is negative from 128 on.
unfoldable pub char_is : (byte c : ℕ) → Bool
char_is byte c = ltb byte 128 && (byte == (c % 256))

unfoldable pub chr_loop : ℕ → Bytes → (str c : ℕ) → Option ℕ
chr_loop zero m str c = none
chr_loop (suc k) m str c =
    let rest = chr_loop k m (str + 1) c in
    if m str == 0
    then some (if char_is (m str) c then str else 0)
    else if char_is (m str) c
    then some str
    else rest

unfoldable pub ft_strchr : ℕ → Bytes → (str c : ℕ) → Option ℕ
ft_strchr fuel m str c = if str == 0 then some 0 else chr_loop fuel m str c

-- `while (i--)` from `i` on.
unfoldable pub rchr_loop : ℕ → Bytes → (str c : ℕ) → ℕ
rchr_loop zero m str c = 0
rchr_loop (suc i) m str c =
    let rest = rchr_loop i m str c in if char_is (m (str + i)) c then str + i else rest

unfoldable pub ft_strrchr : ℕ → Bytes → (str c : ℕ) → Option ℕ
ft_strrchr fuel m str c = do
  len ← ft_strlen fuel m str
  some (if c % 256 == 0 then str + len else rchr_loop len m str c)

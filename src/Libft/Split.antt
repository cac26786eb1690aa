-- ===== src/Libft/Split.antt =====
-- libft/src/ft_split.c. Texts, arrays of them and `malloc` are those of Libft.Strings.
pub mod Count
pub mod Words
use ft_malloc.Base.{
  ℕ, zero, suc, ◌+◌, ◌&&◌, not, Bool, Option, none, some, List, [], ◌∷◌, ◌++◌, ◌==◌, if◌then◌else◌,
  drop,
}
use ft_malloc.Libft.Strings.{
  Text, Store, get_memory, free_texts, ft_substr, byte_at, is_null, text_of,
}

-- `while (s[i] && s[i] == c) i++;`: the number of rounds.
unfoldable pub count_same : Text → ℕ → ℕ
count_same [] c = 0
count_same (x ∷ xs) c = if x == c then suc (count_same xs c) else 0

unfoldable pub word_len : Text → ℕ → ℕ
word_len [] c = 0
word_len (x ∷ xs) c = if x == c then 0 else suc (word_len xs c)

-- The second loop of `count_split`.
unfoldable pub count_loop : Text → (c n : ℕ) → ℕ
count_loop [] c n = n
count_loop (x ∷ xs) c n =
    count_loop xs c
      (if (x == c) && not (byte_at xs 0 == c) && not (byte_at xs 0 == 0) then n + 1 else n)

unfoldable pub count_split : Text → ℕ → ℕ
count_split s c =
    let t = drop (count_same s c) s in count_loop t c (if byte_at t 0 == 0 then 0 else 1)

-- The entry of the text that could not be allocated is NULL.
unfoldable pub free_split : List Text → Store → Store
free_split array st = free_texts array st

-- The loop of `ft_split`, with `i` rounds left.
unfoldable pub split_loop :
    (ℕ → Bool)
    → ℕ
    → Store
    → (array : List Text) → (s : Text) → (n c : ℕ) → Store × Option (List Text)
split_loop grant zero st array s n c = (st, some array)
split_loop grant (suc i) st array s n c =
    let from = n + count_same (drop n s) c in
    let got = ft_substr grant st s from (word_len (drop from s) c) in
    let rest =
      split_loop grant i got.0 (array ++ text_of got.1 ∷ []) s (from + word_len (drop from s) c)
        c in
    if is_null got.1 then (free_split array got.0, none) else rest

unfoldable pub ft_split : (ℕ → Bool) → Store → Text → (c : ℕ) → Store × Option (List Text)
ft_split grant st s c =
    let got = get_memory grant st in
    if got.0 then split_loop grant (count_split s c) got.1 [] s 0 c else (got.1, none)

-- ===== src/Libft/Strings.antt =====
-- The texts that libft allocates, as values: libft/src/ft_substr.c, ft_strdup.c, ft_strjoin.c,
-- charjoin.c, ft_strtrim.c, ft_strmapi.c and ft_striteri.c, and array_len.c, array_char_len.c,
-- array_dup.c, array_free.c and array_to_str.c. A text is the list of its bytes in front of the NUL,
-- and an array of texts the list of those in front of its NULL. Whether a call of `malloc` gives
-- memory is an argument, `grant`, by the number of the call; the blocks in use are counted.
pub mod Trim
pub mod Arrays
use ft_malloc.Base.{
  ℕ, zero, suc, ◌+◌, ◌-◌, ◌||◌, not, Bool, true, false, Option, none, some, List, [], ◌∷◌, ◌++◌,
  leb, ◌==◌, if◌then◌else◌, length, take, drop,
}
use ft_malloc.Libft.Text.{char_is}

abbrev pub Text : Type 0
Text = List ℕ

-- The number of calls of `malloc`, and of the blocks in use.
pub record Store : Type 0 where
  pub calls : ℕ
  pub held : ℕ

unfoldable pub get_memory : (ℕ → Bool) → Store → Bool × Store
get_memory grant st = (
  grant st.calls,
  record { calls = st.calls + 1; held = if grant st.calls then st.held + 1 else st.held },
)

-- `free` of a block, and of a text that may be NULL.
unfoldable pub free_block : Store → Store
free_block st = record st { held = st.held - 1 }

unfoldable pub free_text : Option Text → Store → Store
free_text none st = st
free_text (some t) st = free_block st

unfoldable pub is_null : Option Text → Bool
is_null none = true
is_null (some t) = false

-- The bytes at a pointer, which the code reads only where it is not NULL.
unfoldable pub text_of : Option Text → Text
text_of none = []
text_of (some t) = t

-- A text in new memory, or NULL.
unfoldable pub new_text : (ℕ → Bool) → Store → Text → Store × Option Text
new_text grant st t =
    let got = get_memory grant st in if got.0 then (got.1, some t) else (got.1, none)

unfoldable pub ft_substr : (ℕ → Bool) → Store → Text → (start len : ℕ) → Store × Option Text
ft_substr grant st s start len =
    new_text grant st (if leb (length s) start then [] else take len (drop start s))

unfoldable pub ft_strdup : (ℕ → Bool) → Store → Text → Store × Option Text
ft_strdup grant st str = new_text grant st (take (length str) str)

unfoldable pub ft_strjoin : (ℕ → Bool) → Store → (s1 s2 : Text) → Store × Option Text
ft_strjoin grant st s1 s2 = new_text grant st (take (length s1) s1 ++ take (length s2) s2)

unfoldable pub charjoin : (ℕ → Bool) → Store → Text → (c : ℕ) → Store × Option Text
charjoin grant st str c = ft_strjoin grant st str (if c == 0 then [] else c ∷ [])

-- Whether `ft_strchr(set, c)` finds the byte; it finds a NUL at the end.
unfoldable pub in_set : Text → ℕ → Bool
in_set [] c = char_is 0 c
in_set (x ∷ xs) c = char_is x c || in_set xs c

-- The byte at `s[i]`, up to the NUL.
unfoldable pub byte_at : Text → ℕ → ℕ
byte_at [] i = 0
byte_at (x ∷ xs) zero = x
byte_at (x ∷ xs) (suc i) = byte_at xs i

-- `while (*s1 && ft_strchr(set, *s1)) s1++;`
unfoldable pub trim_front : Text → Text → Text
trim_front set [] = []
trim_front set (x ∷ xs) = if in_set set x then trim_front set xs else x ∷ xs

-- `while (i && ft_strchr(set, s1[i])) i--;`
unfoldable pub trim_end : Text → Text → ℕ → ℕ
trim_end set s zero = zero
trim_end set s (suc i) = if in_set set (byte_at s (suc i)) then trim_end set s i else suc i

unfoldable pub ft_strtrim : (ℕ → Bool) → Store → (s1 set : Option Text) → Store × Option Text
ft_strtrim grant st none set = (st, none)
ft_strtrim grant st (some s1) none = (st, none)
ft_strtrim grant st (some s1) (some set) =
    let s = trim_front set s1 in ft_substr grant st s 0 (trim_end set s (length s) + 1)

-- The bytes up to the first NUL.
unfoldable pub up_to_null : Text → Text
up_to_null [] = []
up_to_null (x ∷ xs) = if x == 0 then [] else x ∷ up_to_null xs

-- The bytes that `f` makes of those of a text, which it gets with their places.
unfoldable pub map_places : (ℕ → ℕ → ℕ) → ℕ → Text → Text
map_places f i [] = []
map_places f i (x ∷ xs) = f i x ∷ map_places f (i + 1) xs

-- Where `f` gives a NUL, the new text ends.
unfoldable pub ft_strmapi : (ℕ → Bool) → Store → Text → (ℕ → ℕ → ℕ) → Store × Option Text
ft_strmapi grant st s f = new_text grant st (up_to_null (map_places f 0 s))

-- The bytes of the text afterwards, where `f` writes its result to the byte that it gets.
unfoldable pub ft_striteri : Text → (ℕ → ℕ → ℕ) → Text
ft_striteri s f = map_places f 0 s

unfoldable pub array_len : Option (List Text) → ℕ
array_len none = 0
array_len (some array) = length array

unfoldable pub array_char_len : List Text → ℕ
array_char_len [] = 0
array_char_len (t ∷ ts) = length t + array_char_len ts

-- `free` of each text, and of the array.
unfoldable pub free_texts : List Text → Store → Store
free_texts [] st = free_block st
free_texts (t ∷ ts) st = free_texts ts (free_block st)

unfoldable pub array_free : Option (List Text) → Store → Store
array_free none st = st
array_free (some array) st = free_texts array st

-- The loop of `array_dup`, behind the texts `copy`.
unfoldable pub dup_loop : (ℕ → Bool) → Store → (copy array : List Text) → Store × Option (List Text)
dup_loop grant st copy [] = (st, some copy)
dup_loop grant st copy (t ∷ ts) =
    let got = ft_strdup grant st t in
    let rest = dup_loop grant got.0 (copy ++ text_of got.1 ∷ []) ts in
    if is_null got.1 then (array_free (some copy) got.0, none) else rest

unfoldable pub array_dup : (ℕ → Bool) → Store → Option (List Text) → Store × Option (List Text)
array_dup grant st none =
    let got = get_memory grant st in if got.0 then (got.1, some []) else (got.1, none)
array_dup grant st (some array) =
    let got = get_memory grant st in if got.0 then dup_loop grant got.1 [] array else (got.1, none)

-- What `ft_strlcat(dest, src, size)` makes of the text at `dest`.
unfoldable pub append_text : (dest src : Text) → (size : ℕ) → Text
append_text dest src size =
    if leb size (length dest) then dest else dest ++ take (size - length dest - 1) src

-- The loop of `array_to_str`.
unfoldable pub to_str_loop : (len spliter : ℕ) → Text → List Text → Text
to_str_loop len spliter str [] = str
to_str_loop len spliter str (t ∷ []) = append_text str t (len + 1)
to_str_loop len spliter str (t ∷ u ∷ ts) =
    let added = append_text str t (len + 1) in
    to_str_loop len spliter
      (if spliter == 0 then added else append_text added (spliter ∷ []) (len + 1)) (u ∷ ts)

unfoldable pub array_to_str : (ℕ → Bool) → Store → List Text → (spliter : ℕ) → Store × Option Text
array_to_str grant st array spliter =
    let len =
      if spliter == 0
      then array_char_len array
      else array_char_len array + array_len (some array) in
    new_text grant st (to_str_loop len spliter [] array)

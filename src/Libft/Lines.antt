-- ===== src/Libft/Lines.antt =====
-- libft/src/get_next_line.c. The results of `read` are an argument: `reads` has
-- what its calls give, one after the other, `none` for an error and no bytes for the end of the
-- file, where it stays. Texts and `malloc` are those of Libft.Strings. BUFFER_SIZE is positive, as its
-- default of 42 is; how the reads divide the file is the argument's choice.
pub mod Held
pub mod Stream
use ft_malloc.Base.{
  ℕ, ◌+◌, ◌-◌, ◌||◌, not, Bool, true, false, Option, none, some, List, [], ◌∷◌, ◌++◌, ltb, ◌==◌,
  if◌then◌else◌,
}
use ft_malloc.Libft.Strings.{Text, Store, get_memory, free_block, free_text, up_to_null, is_null}
use ft_malloc.Libft.Text.{ℤ, pos, negsuc}

abbrev pub Reads : Type 0
Reads = List (Option Text)

-- What `ft_strchr(str, '\n')` finds.
unfoldable pub has_newline : Text → Bool
has_newline [] = false
has_newline (x ∷ xs) = (x == 10) || has_newline xs

unfoldable pub text_has_newline : Option Text → Bool
text_has_newline none = false
text_has_newline (some t) = has_newline t

-- The bytes behind the first newline, and those up to it.
unfoldable pub behind_newline : Text → Text
behind_newline [] = []
behind_newline (x ∷ xs) = if x == 10 then xs else behind_newline xs

unfoldable pub up_to_newline : Text → Text
up_to_newline [] = []
up_to_newline (x ∷ xs) = if x == 10 then x ∷ [] else x ∷ up_to_newline xs

-- `free(str)`, and the copy of what stands behind its first newline.
unfoldable pub order_nl : (ℕ → Bool) → Store → Text → Store × Option Text
order_nl grant st str =
    let got = get_memory grant st in
    if not (has_newline str)
    then (free_block st, none)
    else if got.0
    then (free_block got.1, some (behind_newline str))
    else (free_block got.1, none)

unfoldable pub substr_nl : (ℕ → Bool) → Store → Text → Store × Option Text
substr_nl grant st [] = (st, none)
substr_nl grant st (x ∷ xs) =
    let got = get_memory grant st in
    if got.0 then (got.1, some (up_to_newline (x ∷ xs))) else (got.1, none)

-- The part of `strjoin_nl` behind its first test.
unfoldable pub join_texts : (ℕ → Bool) → Store → Text → Option Text → Store × Option Text
join_texts grant st s1 none = (free_block st, none)
join_texts grant st s1 (some s2) =
    let got = get_memory grant st in
    if got.0 then (free_block got.1, some (s1 ++ s2)) else (free_block got.1, none)

unfoldable pub strjoin_nl : (ℕ → Bool) → Store → (s1 s2 : Option Text) → Store × Option Text
strjoin_nl grant st (some s1) s2 = join_texts grant st s1 s2
strjoin_nl grant st none s2 =
    let got = get_memory grant st in if got.0 then join_texts grant got.1 [] s2 else (got.1, none)

-- What is left of the reads, and the text, which is NULL after an error.
pub record ReadLine : Type 0 where
  pub store : Store
  pub reads : Reads
  pub text : Option Text

unfoldable pub gave : Store → Reads → Option Text → ReadLine
gave st reads text = record { store = st; reads = reads; text = text }

-- The loop of `read_nl`, with the release of its buffer.
unfoldable pub read_loop : (ℕ → Bool) → Reads → Store → Option Text → ReadLine
read_loop grant [] st str = gave (free_block st) [] str
read_loop grant (none ∷ rs) st str =
    if text_has_newline str
    then gave (free_block st) (none ∷ rs) str
    else gave (free_text str (free_block st)) rs none
read_loop grant (some [] ∷ rs) st str =
    if text_has_newline str
    then gave (free_block st) (some [] ∷ rs) str
    else gave (free_block st) rs str
read_loop grant (some (b ∷ bs) ∷ rs) st str =
    let joined = strjoin_nl grant st str (some (up_to_null (b ∷ bs))) in
    let rest = read_loop grant rs joined.0 joined.1 in
    if text_has_newline str
    then gave (free_block st) (some (b ∷ bs) ∷ rs) str
    else if is_null joined.1
    then gave (free_block joined.0) rs none
    else rest

unfoldable pub read_nl : (ℕ → Bool) → Store → Reads → Option Text → ReadLine
read_nl grant st reads str =
    let got = get_memory grant st in
    if got.0 then read_loop grant reads got.1 str else gave (free_text str got.1) reads none

-- The state after a call: `temp` is the static array, of which the call sees one entry.
pub record Line : Type 0 where
  pub store : Store
  pub reads : Reads
  pub temp : Option Text
  pub line : Option Text

unfoldable pub line_result : Store → Reads → (temp line : Option Text) → Line
line_result st reads temp line = record { store = st; reads = reads; temp = temp; line = line }

-- The part of `get_next_line` behind the call of `read_nl`.
unfoldable pub take_line : (ℕ → Bool) → Store → Reads → Option Text → Line
take_line grant st reads none = line_result st reads none none
take_line grant st reads (some t) =
    let res = substr_nl grant st t in
    let left = order_nl grant res.0 t in
    if is_null res.1
    then line_result (free_text (some t) res.0) reads none none
    else line_result left.0 reads left.1 res.1

unfoldable pub next_line : (ℕ → Bool) → Store → Reads → Option Text → Line
next_line grant st reads temp =
    let got = read_nl grant st reads temp in take_line grant got.store got.reads got.text

-- The entries of `temp`, which has `open_max` of them.
abbrev pub Temps : Type 0
Temps = ℕ → Option Text

unfoldable pub set_temp : Temps → ℕ → Option Text → Temps
set_temp temps fd t x = if x == fd then t else temps x

-- `none` where the entry is outside the array.
unfoldable pub get_next_line :
    (ℕ → Bool) → (open_max : ℕ) → Store → Reads → Temps → ℤ → Option (Line × Temps)
get_next_line grant open_max st reads temps (negsuc n) =
    some (line_result st reads none none, temps)
get_next_line grant open_max st reads temps (pos fd) =
    let got = next_line grant st reads (temps fd) in
    if ltb open_max fd
    then some (line_result st reads none none, temps)
    else if fd == open_max
    then none
    else some (got, set_temp temps fd got.temp)

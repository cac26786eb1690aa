-- ===== src/Show/Banner.antt =====
-- The constructor of the library in src/malloc.c, which writes a line. `write` is that of
-- Libft.Output, with its outcome as an argument.
use ft_malloc.Base.{ℕ, List, [], ◌∷◌, ◌++◌, take}
use ft_malloc.Libft.Output.{Writes, Console, write}

-- The escape sequences of include/colors.h for magenta and for no colour.
abbrev pub magenta : List ℕ
magenta = 27 ∷ 91 ∷ 49 ∷ 59 ∷ 51 ∷ 53 ∷ 109 ∷ []

abbrev pub nc : List ℕ
nc = 27 ∷ 91 ∷ 48 ∷ 109 ∷ []

-- `[42 MALLOC] Library loaded!` and a newline.
abbrev pub loaded : List ℕ
loaded =
    91 ∷ 52 ∷ 50 ∷ 32 ∷ 77 ∷ 65 ∷ 76 ∷ 76 ∷ 79 ∷ 67 ∷ 93 ∷ 32 ∷ 76 ∷ 105 ∷ 98 ∷ 114 ∷ 97 ∷ 114 ∷ 121
    ∷ 32 ∷ 108 ∷ 111 ∷ 97 ∷ 100 ∷ 101 ∷ 100 ∷ 33 ∷ 10 ∷ []

-- 40 bytes are written from a text of 39 bytes, so the last of them is its NUL.
unfoldable pub init_malloc : Writes → Console → Console
init_malloc left con = (write left con (take 40 (magenta ++ (loaded ++ (nc ++ 0 ∷ []))))).0

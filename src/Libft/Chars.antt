-- ===== src/Libft/Chars.antt =====
-- The tests and changes of single characters: ft_isalpha.c, ft_isdigit.c, ft_isalnum.c, ft_isascii.c,
-- ft_isprint.c, ft_tolower.c and ft_toupper.c of libft/src. Their argument is an `int`; the model
-- is for arguments that are not negative. A test's 1 and 0 are true and false.
pub mod Laws
use ft_malloc.Base.{ℕ, ◌+◌, ◌-◌, ◌&&◌, ◌||◌, Bool, leb, ltb, if◌then◌else◌}

unfoldable pub ft_isalpha : ℕ → Bool
ft_isalpha i = (leb 65 i && leb i 90) || (leb 97 i && leb i 122)

unfoldable pub ft_isdigit : ℕ → Bool
ft_isdigit i = leb 48 i && leb i 57

unfoldable pub ft_isalnum : ℕ → Bool
ft_isalnum i = (leb 65 i && leb i 90) || (leb 97 i && leb i 122) || (leb 48 i && leb i 57)

unfoldable pub ft_isascii : ℕ → Bool
ft_isascii i = leb 0 i && ltb i 128

unfoldable pub ft_isprint : ℕ → Bool
ft_isprint i = ltb 31 i && ltb i 127

unfoldable pub ft_tolower : ℕ → ℕ
ft_tolower c = if leb 65 c && leb c 90 then c + 32 else c

unfoldable pub ft_toupper : ℕ → ℕ
ft_toupper c = if leb 97 c && leb c 122 then c - 32 else c

-- ===== src/Sizes.antt =====
-- Sizes and their classes: the macros of include/malloc.h, and `align_size` and `get_zone_type`
-- of src/malloc_utils.c, on an LP64 platform (`size_t` and pointers of 64 bits, and
-- `alignof(max_align_t)` 16, as the comments of the header say).
pub mod Align
pub mod Classes
pub mod Tests
use Prim.Native.Nat.{bit_and}
use ft_malloc.Base.{ℕ, ◌+◌, ◌-◌, ◌*◌, ◌^◌, Bool, ◌&&◌, ltb, leb, ◌==◌, if◌then◌else◌}
use ft_malloc.Base.Words.{size_max, sub64, add64}

-- `enum e_type`: the zone classes, and the two lists of a zone.
pub data EType : Type 0 where
  tiny small large empty block : EType

abbrev code : EType → ℕ
code tiny = 0
code small = 1
code large = 2
code empty = 3
code block = 4

-- `a == b` on values of the enumeration.
abbrev pub same_type : EType → EType → Bool
same_type a b = code a == code b

abbrev pub alignment : ℕ
alignment = 16

-- `sizeof(t_block)`: a size and three pointers.
abbrev pub header_size : ℕ
header_size = 32

-- `sizeof(t_zone)`: two `u_int`s and nine words.
abbrev pub zone_header_size : ℕ
zone_header_size = 80

abbrev pub min_split_size : ℕ
min_split_size = header_size + alignment

abbrev pub tiny_data_max : ℕ
tiny_data_max = alignment * 10

abbrev pub small_data_max : ℕ
small_data_max = tiny_data_max * 19

abbrev pub is_tiny : ℕ → Bool
is_tiny size = leb 1 size && leb size tiny_data_max

abbrev pub is_small : ℕ → Bool
is_small size = leb 161 size && leb size small_data_max

abbrev pub is_large : ℕ → Bool
is_large size = leb 3041 size

-- The zone sizes are multiples of the page size, which the system gives.
abbrev pub tiny_zone_size : ℕ → ℕ
tiny_zone_size page = page * 6

abbrev pub small_zone_size : ℕ → ℕ
small_zone_size page = tiny_zone_size page * 16

-- `-alignment` is its two's complement.
unfoldable pub align_size : ℕ → ℕ
align_size size =
    if ltb (size_max - alignment) size
    then size
    else bit_and (sub64 (add64 size alignment) 1) (2 ^ 64 - alignment)

unfoldable pub get_zone_type : ℕ → EType
get_zone_type size = if is_tiny size then tiny else if is_small size then small else large

-- ===== src/Sizes/Classes.antt =====
-- The three classes of sizes.
use ft_malloc.Base.{ℕ, ◌≤◌, ◌<◌, ◌≡◌, ◌↔◌, arith}
use ft_malloc.Sizes.{get_zone_type, tiny, small, large}

-- Every size that is not zero belongs to exactly one class, with the borders 160 and 3040.
pub get_zone_type_classes :
    (size : ℕ)
    → 0 < size
    → ((get_zone_type size ≡ tiny) ↔ (size ≤ 160))
      × ((get_zone_type size ≡ small) ↔ (160 < size) × (size ≤ 3040))
      × ((get_zone_type size ≡ large) ↔ (3040 < size))
unfolding get_zone_type
get_zone_type_classes size h = ground arith

-- ===== src/Sizes/Tests.antt =====
-- The size functions at concrete sizes.
use ft_malloc.Base.{ℕ, ◌-◌, ◌<◌, ◌≤◌, ◌≡◌, ◌⊎◌, ◌%◌, refl}
use ft_malloc.Base.Words.{size_max}
use ft_malloc.Sizes.{align_size, alignment}
use ft_malloc.Sizes.Align.{align_size_least}

align_100 : align_size 100 ≡ 112
unfolding align_size
align_100 = refl

align_size_least_example :
    (100 ≤ size_max - alignment)
      × (align_size 100 % 16 ≡ 0)
      × (100 ≤ align_size 100)
      × ((m : ℕ) → m % 16 ≡ 0 → 100 ≤ m → align_size 100 ≤ m)
    ⊎ (size_max - alignment < 100) × (align_size 100 ≡ 100)
align_size_least_example = align_size_least 100

-- ===== src/Zones/Init.antt =====
-- A zone that has just been mapped.
use ft_malloc.Base.{ℕ, ◌+◌, ◌-◌, ◌%◌, ◌^◌, ◌≤◌, ◌<◌, ◌≡◌, ◌≢◌, refl, false, [], ◌∷◌, arith, ◌⊎◌}
use ft_malloc.Sizes.{EType}
use ft_malloc.Heap.{write}
use ft_malloc.Cells.{Cell, Stands}
use ft_malloc.Zones.{State, arena, zone_init, fresh_zone, put_zone}

-- All of a fresh zone behind its header is one free cell.
abbrev pub fresh_cell : (z size : ℕ) → Cell
fresh_cell z size = record { addr = z + 80; size = size - 112; used = false }

-- The zone that `zone_init` makes in a mapped region of a multiple of 16 bytes, with room for one
-- block of 16 bytes, stands for one free cell; it is the first of `g_zones`, of the type and size that were asked for, and
-- linked to the zone that was the first before.
pub zone_init-Stands :
    (st : State) (z : ℕ) (type : EType) (size : ℕ)
    → z ≢ 0
    → st.g_zones ≢ z
    → (128 ≤ size) × (size % 16 ≡ 0)
    → z + size < 2 ^ 64
    → let new = zone_init st z type size in
      Stands (arena new z) (fresh_cell z size ∷ [])
      × (new.g_zones ≡ z)
      × ((new.zone z).type ≡ type)
      × ((new.zone z).start ≡ z)
      × ((new.zone z).end ≡ z + size)
      × ((new.zone z).next ≡ st.g_zones)
      × (st.g_zones ≡ 0 ⊎ ((new.zone st.g_zones).prev ≡ z))
unfolding zone_init fresh_zone put_zone write
zone_init-Stands st z type size ne diff big top = (
  record {
    self = ne;
    tiles = (ground arith, ground arith, ground arith);
    top = ground arith;
    blocks = ground arith;
    empties = (ground arith, ground arith);
    blocks_num = ground arith;
    remaining_space = ground arith;
  },
  refl,
  ground arith,
  ground arith,
  ground arith,
  ground arith,
  ground arith,
)

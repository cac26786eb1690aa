-- ===== src/Demo/Reached.antt =====
-- Calls on a process that has no zone yet.
use ft_malloc.Base.{
  Option, ℕ, zero, suc, ◌%◌, ◌^◌, ◌<◌, ◌≡◌, ◌⊎◌, refl, none, some, List, [], map, arith,
}
use ft_malloc.Zones.{zone_init, fresh_zone, put_zone}
use ft_malloc.Heap.{write, set_next, set_prev, set_span}
use ft_malloc.Alloc.{
  allocate_block, allocate_from_empty, find_empty_space, find_loop, update_empty_spaces,
  leftover_header, block_header, add_block_to_list,
}
use ft_malloc.Links.{
  insert_ordered, replace_block, remove_block, exchange, unlink, relink_next, relink_prev,
  link_front, link_after, walk,
}
use ft_malloc.Merge.{update_empty_stats, max_loop}
use ft_malloc.Sizes.{get_zone_type, align_size}
use ft_malloc.Zones.{State, find_zone, zone_loop, create_zone, map_zone}
use ft_malloc.Api.{malloc, allocate_in_zone}
use ft_malloc.Process.{Region, Inv, Separate, used_blocks}
use ft_malloc.Process.Runs.{call_malloc, run_call, Reach, started, called, Reach-Inv, Reach-returns}
use ft_malloc.Base.{All, true}
use ft_malloc.Cells.{pick}
use ft_malloc.Process.{extent}
use ft_malloc.Process.Runs.{PayloadOf}
use ft_malloc.Process.Aligned.{Aligned, Reach-Aligned}
use ft_malloc.Process.BlockBytes.{block_bytes}
use ft_malloc.Process.Disjoint.{Inside, Reach-Inside, Reach-Separate}
use ft_malloc.Demo.{state}
use ft_malloc.Demo.Runs.{pf}

-- The process before its first call.
abbrev empty_state : State
empty_state = record state { g_zones = 0; mapped = [] }

-- Its first call asks `mmap` for a zone, in vain.
in_vain :
    (fuel : ℕ)
    → 0 < fuel
    → run_call pf fuel empty_state (call_malloc 2000 none) ≡ some (empty_state, 0)
unfolding run_call malloc allocate_in_zone find_zone zone_loop create_zone map_zone get_zone_type
    align_size
in_vain zero l = absurd (omega (arith, l))
in_vain (suc fuel) l = refl

abbrev reached : Reach pf empty_state
reached =
    called empty_state (call_malloc 2000 none) empty_state 0 (started empty_state refl refl) tt
      (0, in_vain)

-- Its second call gets a zone, and the first block in it.
abbrev first_call : ℕ → Option (State × ℕ)
first_call fuel = run_call pf fuel empty_state (call_malloc 2000 (some 16384))

abbrev outcome : Option (State × ℕ) → State × ℕ
outcome none = (empty_state, 0)
outcome (some r) = r

abbrev served_state : State
served_state = (outcome (first_call 3)).0

is_served : (fuel : ℕ) → 2 < fuel → first_call fuel ≡ some (served_state, 16496)
unfolding run_call malloc allocate_in_zone find_zone zone_loop create_zone map_zone get_zone_type
    align_size zone_init fresh_zone put_zone write allocate_block allocate_from_empty
    find_empty_space find_loop update_empty_spaces leftover_header block_header add_block_to_list
    insert_ordered replace_block remove_block exchange unlink relink_next relink_prev set_next
    set_prev set_span update_empty_stats max_loop link_front link_after walk
is_served zero l = absurd (omega (arith, l))
is_served (suc zero) l = absurd (omega (arith, l))
is_served (suc (suc zero)) l = absurd (omega (arith, l))
is_served (suc (suc (suc fuel))) l = refl

served_reached : Reach pf served_state
unfolding align_size get_zone_type
served_reached =
    called empty_state (call_malloc 2000 (some 16384)) served_state 16496 reached
      (omega arith, omega arith, omega arith, tt) (2, is_served)

Reach-Inv_example : (rs : List Region) × Inv served_state rs
Reach-Inv_example = Reach-Inv pf (omega arith) served_state served_reached

Reach-Separate_example :
    (rs : List Region) × Inv served_state rs × Separate (map block_bytes (used_blocks rs))
Reach-Separate_example = Reach-Separate pf (omega arith) served_state served_reached

Reach-returns_example :
    (k : ℕ) × ((fuel : ℕ)
      → k < fuel
      → (new : State) × (p : ℕ) × (run_call pf fuel empty_state (call_malloc 2000 (some 16384))
          ≡ some (new, p)))
unfolding align_size get_zone_type
Reach-returns_example =
    Reach-returns pf (omega arith) empty_state reached (call_malloc 2000 (some 16384))
      (omega arith, omega arith, omega arith, tt)

Reach-Inside_example :
    (rs : List Region) × Inv served_state rs
    × (served_state.mapped ≡ map extent rs)
    × All (λ (r : Region). (r.limit < 2 ^ 64) × All (Inside r) (pick true r.cells)) rs
Reach-Inside_example = Reach-Inside pf (omega arith) served_state served_reached

Reach-Aligned_example :
    (k : ℕ) × ((fuel : ℕ)
      → k < fuel
      → (new : State) × (p : ℕ) × (after : List Region) × (run_call pf fuel empty_state
            (call_malloc 2000 (some 16384))
          ≡ some (new, p))
        × Inv new after
        × All Aligned (used_blocks after)
        × ((p ≡ 0) ⊎ (p % 16 ≡ 0) × PayloadOf p (used_blocks after)))
unfolding align_size get_zone_type
Reach-Aligned_example =
    Reach-Aligned pf (omega arith) empty_state reached (call_malloc 2000 (some 16384))
      (omega arith, omega arith, omega arith, tt)

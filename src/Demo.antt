-- ===== src/Demo.antt =====
-- A small zone for tests: at address 4096, with a used cell of 48 bytes, a free one of 64 bytes,
-- a used one of 16 bytes and a free one of 96 bytes.
pub mod Tests
pub mod Runs
pub mod Reached
use ft_malloc.Base.{ℕ, ◌≡◌, ◌==◌, if◌then◌else◌, refl, true, false, List, [], ◌∷◌, arith, inr}
use ft_malloc.Sizes.{tiny}
use ft_malloc.Heap.{Headers, Block, Zone, Arena}
use ft_malloc.Merge.Spans.{max_size}
use ft_malloc.Cells.{Cell, Stands, Holds}
use ft_malloc.Zones.{State, arena}

abbrev pub cell : ℕ → ℕ → ℕ → Cell
cell addr size kind = record {
  addr = addr;
  size = size;
  used = (if kind == 1 then true else false);
}

abbrev pub cells : List Cell
cells = cell 4176 48 1 ∷ cell 4256 64 0 ∷ cell 4352 16 1 ∷ cell 4400 96 0 ∷ []

abbrev header : ℕ → ℕ → ℕ → ℕ → Block
header size end prev next = record { data_size = size; end = end; prev = prev; next = next }

abbrev pub headers : Headers
headers x =
    if x == 4176
    then header 48 4256 0 4352
    else if x == 4256
    then header 64 4352 0 4400
    else if x == 4352
    then header 16 4400 4176 0
    else if x == 4400
    then header 96 4528 4256 0
    else header 0 0 0 0

abbrev pub zone : Zone
zone = record {
  start = 4096;
  end = 4528;
  type = tiny;
  blocks_num = 2;
  total_space = 352;
  remaining_space = 224;
  max_free_space_size = 96;
  blocks = 4176;
  empty_spaces = 4256;
  prev = 0;
  next = 0;
}

abbrev pub demo : Arena
demo = record { self = 4096; hdr = headers; bytes = λ x. x; zone = zone }

pub demo-Stands : Stands demo cells
demo-Stands = record {
  self = omega arith;
  tiles = omega arith;
  top = omega arith;
  blocks = omega arith;
  empties = omega arith;
  blocks_num = refl;
  remaining_space = refl;
}

-- The process with that zone alone.
abbrev pub state : State
state = record {
  hdr = headers;
  bytes = λ x. x;
  zone = λ _. zone;
  g_zones = 4096;
  mapped = (4096, 432) ∷ [];
}

-- The same memory after the first cell has been put among the free ones, before the merge.
abbrev torn_headers : Headers
torn_headers x =
    if x == 4176
    then header 48 4256 0 4256
    else if x == 4256
    then header 64 4352 4176 4400
    else if x == 4352
    then header 16 4400 0 0
    else if x == 4400
    then header 96 4528 4256 0
    else header 0 0 0 0

abbrev pub torn_cells : List Cell
torn_cells = cell 4176 48 0 ∷ cell 4256 64 0 ∷ cell 4352 16 1 ∷ cell 4400 96 0 ∷ []

abbrev pub torn : Arena
torn = record {
  self = 4096;
  hdr = torn_headers;
  bytes = λ x. x;
  zone = record zone { blocks_num = 1; remaining_space = 304; blocks = 4352; empty_spaces = 4176 };
}

pub torn-Stands : Stands torn torn_cells
torn-Stands = record {
  self = omega arith;
  tiles = omega arith;
  top = omega arith;
  blocks = omega arith;
  empties = omega arith;
  blocks_num = refl;
  remaining_space = refl;
}

-- A zone with one used cell and no free one, whose largest free space is still said to have
-- 352 bytes.
abbrev pub full_cells : List Cell
full_cells = cell 4176 320 1 ∷ []

abbrev pub full_zone : Zone
full_zone = record zone {
  blocks_num = 1;
  remaining_space = 0;
  max_free_space_size = 352;
  blocks = 4176;
  empty_spaces = 0;
}

abbrev pub full : Arena
full = record { self = 4096; hdr = λ _. header 320 4528 0 0; bytes = λ x. x; zone = full_zone }

pub full-Stands : Stands full full_cells
full-Stands = record {
  self = omega arith;
  tiles = omega arith;
  top = omega arith;
  blocks = omega arith;
  empties = omega arith;
  blocks_num = refl;
  remaining_space = refl;
}

abbrev pub full_state : State
full_state = record {
  hdr = λ _. header 320 4528 0 0;
  bytes = λ x. x;
  zone = λ _. full_zone;
  g_zones = 4096;
  mapped = (4096, 432) ∷ [];
}

-- A zone of the same bytes with a used cell of 176 bytes, and a free one of 112.
abbrev pub last_cells : List Cell
last_cells = cell 4176 176 1 ∷ cell 4384 112 0 ∷ []

abbrev pub last_state : State
last_state = record {
  hdr = λ x. if x == 4176 then header 176 4384 0 0 else header 112 4528 0 0;
  bytes = λ x. x;
  zone = λ _. record zone {
    blocks_num = 1;
    remaining_space = 144;
    max_free_space_size = 112;
    empty_spaces = 4384;
  };
  g_zones = 4096;
  mapped = (4096, 432) ∷ [];
}

pub last-Holds : Holds (arena last_state 4096) last_cells
unfolding max_size
last-Holds = record {
  lists = record {
    self = omega arith;
    tiles = omega arith;
    top = omega arith;
    blocks = omega arith;
    empties = omega arith;
    blocks_num = refl;
    remaining_space = refl;
  };
  max_free_space_size = inr refl;
}

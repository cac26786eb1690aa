-- ===== src/Heap.antt =====
-- The store of the allocator: block headers and zone headers at addresses, as include/malloc.h
-- declares them. An address is a number, and NULL is 0. The bytes of payloads are a store of
-- their own: a header that is written does not show in the bytes under it.
pub mod Dll
pub mod Splice
use ft_malloc.Base.{ℕ, ◌≡◌, ◌≢◌, ◌==◌, if◌then◌else◌, arith}
use ft_malloc.Base.Words.{add64, sub64}
use ft_malloc.Sizes.{EType, header_size, empty, same_type}

-- `struct s_block_header`.
pub record Block : Type 0 where
  pub data_size : ℕ
  pub end : ℕ
  pub prev : ℕ
  pub next : ℕ

-- `struct s_zone_header`.
pub record Zone : Type 0 where
  pub start : ℕ
  pub end : ℕ
  pub type : EType
  pub blocks_num : ℕ
  pub total_space : ℕ
  pub remaining_space : ℕ
  pub max_free_space_size : ℕ
  pub blocks : ℕ
  pub empty_spaces : ℕ
  pub prev : ℕ
  pub next : ℕ

-- What the memory holds at each address, read as a block header.
abbrev pub Headers : Type 0
Headers = ℕ → Block

unfoldable pub write : Headers → ℕ → Block → Headers
write h a b x = if x == a then b else h x

unfoldable pub set_next : Headers → ℕ → ℕ → Headers
unfolding write
set_next h a v = write h a (record (h a) { next = v })

unfoldable pub set_prev : Headers → ℕ → ℕ → Headers
unfolding write
set_prev h a v = write h a (record (h a) { prev = v })

-- `data_size` and `end` of a header, written together.
unfoldable pub set_span : Headers → ℕ → ℕ → ℕ → Headers
unfolding write
set_span h a size fin = write h a (record (h a) { data_size = size; end = fin })

pub write_at : (h : Headers) (a : ℕ) (b : Block) → write h a b a ≡ b
unfolding write
write_at h a b = ground arith

pub write_off : (h : Headers) (a x : ℕ) (b : Block) → x ≢ a → write h a b x ≡ h x
unfolding write
write_off h a x b ne = ground arith

pub set_span_at :
    (h : Headers) (a size fin : ℕ)
    → ((set_span h a size fin a).data_size ≡ size) × ((set_span h a size fin a).end ≡ fin)
unfolding set_span
set_span_at h a size fin = ground arith

pub set_span_off : (h : Headers) (a x size fin : ℕ) → x ≢ a → set_span h a size fin x ≡ h x
unfolding set_span
set_span_off h a x size fin ne = ground arith

-- `block_payload`, `block_from_payload` and `block_end` of include/utils.h.
abbrev pub block_payload : ℕ → ℕ
block_payload block = add64 block header_size

abbrev pub block_from_payload : ℕ → ℕ
block_from_payload ptr = sub64 ptr header_size

abbrev pub block_end : Headers → ℕ → ℕ
block_end h block = add64 (add64 block header_size) (h block).data_size

-- One of the two lists of a zone: the headers and the pointer to the first.
pub record Chain : Type 0 where
  pub hdr : Headers
  pub head : ℕ

-- What a function sees that works on one zone: the memory, and the zone behind its pointer `self`.
pub record Arena : Type 0 where
  pub self : ℕ
  pub hdr : Headers
  pub bytes : ℕ → ℕ
  pub zone : Zone

-- The list that `type` selects: `empty_spaces` for EMPTY, else `blocks`.
abbrev pub chain : EType → Arena → Chain
chain type a =
    if same_type type empty
    then record { hdr = a.hdr; head = a.zone.empty_spaces }
    else record { hdr = a.hdr; head = a.zone.blocks }

abbrev pub with_chain : EType → Arena → Chain → Arena
with_chain type a c =
    if same_type type empty
    then record a { hdr = c.hdr; zone = record a.zone { empty_spaces = c.head } }
    else record a { hdr = c.hdr; zone = record a.zone { blocks = c.head } }

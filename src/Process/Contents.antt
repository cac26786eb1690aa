-- ===== src/Process/Contents.antt =====
-- What a call that resizes a block leaves: the blocks in use, and their bytes.
use ft_malloc.Base.{ℕ, ◌+◌, ◌≤◌, ◌≡◌, ◌≢◌, ◌⊎◌, refl, List, [], ◌∷◌, ◌++◌, All}
use ft_malloc.Heap.Dll.{Span}
use ft_malloc.Libft.Memory.{Bytes}
use ft_malloc.Libft.Memory.Overlap.{Copied}
use ft_malloc.Zones.{State}
use ft_malloc.Process.{Region, InPlace, Inv, used_blocks, weight}
use ft_malloc.Process.Update.{InPlace-frame}

-- The invariant does not read the bytes of blocks.
pub bytes-Inv :
    (st : State) (m : Bytes) (rs : List Region) → Inv st rs → Inv (record st { bytes = m }) rs
bytes-Inv st m rs i = record {
  layout = record {
    linked = i.layout.linked;
    each = each rs i.layout.each;
    apart = i.layout.apart;
    mapped = i.layout.mapped;
  };
  sound = i.sound;
}
  where
    each : (ss : List Region) → All (InPlace st) ss → All (InPlace (record st { bytes = m })) ss
    each [] p = tt
    each (s ∷ ss) p =
        (InPlace-frame st (record st { bytes = m }) s p.0 refl (λ x l u. refl), each ss p.1)

-- `t` stands where `s` was, or is added somewhere, at another address, and the
-- block with the header of `s` taken out.
pub data Instead (xs : List Span) (s : Span) (ys : List Span) (t : Span) (zs : List Span)
    : Type 0 where
  here : zs ≡ xs ++ t ∷ ys → Instead xs s ys t zs
  elsewhere :
      (us vs vs' : List Span) (s' : Span) (us' : List Span)
      → us ++ vs ≡ xs ++ s ∷ ys
      → us ++ t ∷ vs ≡ us' ++ s' ∷ vs'
      → s'.addr ≡ s.addr
      → t.addr ≢ s.addr
      → zs ≡ us' ++ vs'
      → Instead xs s ys t zs

-- A call that resizes the block `s` to `n` bytes or more: it returns NULL and nothing changes, or the
-- payload of a block that is there instead of `s`, with the bytes of `s`.
pub record Reallocated (st : State) (rs : List Region) (xs : List Span) (s : Span) (ys : List Span)
    (n : ℕ) (new : State) (p : ℕ) : Type 0 where
  pub after : List Region
  pub inv : Inv new after
  pub weight_le : weight after ≤ weight rs + 3
  pub outcome :
      (p ≡ 0) × (used_blocks after ≡ used_blocks rs) × (new.bytes ≡ st.bytes)
      ⊎ ((t : Span) × (t.addr + 32 ≡ p)
          × (n ≤ t.size)
          × Copied st.bytes new.bytes (s.addr + 32) p s.size
          × ((p ≡ s.addr + 32) ⊎ (s.size ≤ t.size))
          × Instead xs s ys t (used_blocks after))

-- ===== src/Process/Twice.antt =====
-- Two calls of `free` for one pointer.
use ft_malloc.Base.{ℕ, ◌≡◌, ◌≢◌, inl, inr, sym, ◌∙◌, subst, List, ◌∷◌, ◌++◌, map, All, some, arith}
use ft_malloc.Heap.Dll.{Span}
use ft_malloc.Zones.{State}
use ft_malloc.Api.{free}
use ft_malloc.Process.{Region, Separate, Inv}
use ft_malloc.Process.Lists.{All-around}
use ft_malloc.Process.BlockBytes.{block_bytes, used_blocks-Separate, Separate-others}
use ft_malloc.Process.Free.{Enough, free_refines}

-- No block begins where the one that was taken out does.
gone :
    (us vs : List Span) (s t : Span) (xs ys : List Span)
    → Separate (map block_bytes (xs ++ s ∷ ys))
    → xs ++ ys ≡ us ++ t ∷ vs
    → t.addr ≢ s.addr
gone us vs s t xs ys d e =
    (All-around (λ (b : Span). b.addr ≢ s.addr) us t vs
      (subst (All (λ (b : Span). b.addr ≢ s.addr)) e (Separate-others xs s ys d))).1

-- In a process with the invariant, with enough fuel, `free` returns for every pointer, and a second
-- `free` of it with no call between changes nothing: that of a block in a tiny or small zone, whose
-- header may have been merged away, that of a block whose large zone has been unmapped, and that of
-- any other pointer.
pub free-twice :
    (fuel : ℕ) (st : State) (ptr : ℕ) (rs : List Region)
    → Inv st rs
    → Enough fuel rs
    → (new : State) × (free fuel st ptr ≡ some new) × (free fuel new ptr ≡ some new)
free-twice fuel st ptr rs i f = elim (free_refines fuel st ptr rs i f) [
  | inl (others, same) ↦ (st, same, same)
  | inr (xs, s, ys, split, at, (new, rs', ran, inv, left, weight_le, bytes)) ↦
      elim (free_refines fuel new ptr rs' inv (omega (arith, f, weight_le))) [
        | inl (others, same) ↦ (new, ran, same)
        | inr (us, t, vs, split', at', again) ↦ absurd (
            gone us vs s t xs ys
              (subst (λ l. Separate (map block_bytes l)) split
                (used_blocks-Separate st rs i.layout.apart i.layout.each))
              (sym left ∙ split') (omega (arith, at, at')))
      ]
]

-- ===== src/Heap/Dll.antt =====
-- What a chain of headers stands for: spans in the order of their addresses, doubly linked.
use ft_malloc.Base.{ℕ, ◌<◌, ◌≡◌, List, [], ◌∷◌, arith, All}
use ft_malloc.Heap.{Headers}

-- A header's address, its `data_size` and its `end`.
pub record Span : Type 0 where
  pub addr : ℕ
  pub size : ℕ
  pub fin : ℕ

-- The pointer `a` leads from the header at `p` (NULL for none) to the header of `s`, behind `p`.
pub record IsNode (h : Headers) (p a : ℕ) (s : Span) : Type 0 where
  pub here : a ≡ s.addr
  pub above : p < s.addr
  pub data_size : (h s.addr).data_size ≡ s.size
  pub end : (h s.addr).end ≡ s.fin
  pub prev : (h s.addr).prev ≡ p

abbrev pub Dll : Headers → ℕ → ℕ → List Span → Type 0
Dll h p a [] = a ≡ 0
Dll h p a (s ∷ ss) = IsNode h p a s × Dll h s.addr (h s.addr).next ss

abbrev pub SameOn : Headers → Headers → List Span → Type 0
SameOn h g ss = All (λ s. g s.addr ≡ h s.addr) ss

-- A chain depends on its own headers only.
pub Dll-frame :
    (h g : Headers) (p a : ℕ) (ss : List Span) → Dll h p a ss → SameOn h g ss → Dll g p a ss
Dll-frame h g p a [] d same = d
Dll-frame h g p a (s ∷ ss) d same =
    (ground arith, rw (same.0) (Dll-frame h g s.addr (h s.addr).next ss d.1 same.1))

-- Every span of a chain lies behind the chain's predecessor.
pub Dll-above : (h : Headers) (p a : ℕ) (ss : List Span) → Dll h p a ss → All (λ s. p < s.addr) ss
Dll-above h p a [] d = tt
Dll-above h p a (s ∷ ss) d = (d.0.above, weaken ss (Dll-above h s.addr (h s.addr).next ss d.1))
  where
    weaken : (ss : List Span) → All (λ t. s.addr < t.addr) ss → All (λ t. p < t.addr) ss
    weaken [] w = tt
    weaken (t ∷ ts) w = (omega (arith, d.0.above), weaken ts w.1)

pub SameOn-above :
    (h g : Headers) (p a : ℕ) (ss : List Span)
    → Dll h p a ss
    → ((x : ℕ) → p < x → g x ≡ h x)
    → SameOn h g ss
SameOn-above h g p a [] d same = tt
SameOn-above h g p a (s ∷ ss) d same = (
  same s.addr d.0.above,
  SameOn-above h g s.addr (h s.addr).next ss d.1 (λ x l. same x (omega (arith, d.0.above))),
)

-- A change at or below `p` spares the chain behind `p`.
pub Dll-below :
    (h g : Headers) (p a : ℕ) (ss : List Span)
    → Dll h p a ss
    → ((x : ℕ) → p < x → g x ≡ h x)
    → Dll g p a ss
Dll-below h g p a ss d same = Dll-frame h g p a ss d (SameOn-above h g p a ss d same)

-- ===== src/Zones/Lookup.antt =====
-- The searches of src/free_utils.c over the list of zones and the blocks of a zone.
use ft_malloc.Base.{
  ap, ℕ, zero, suc, ◌+◌, ◌<◌, ◌≡◌, ◌≢◌, refl, true, false, Bool, List, [], ◌∷◌, ◌++◌, ◌&&◌, some,
  arith, length, ltb, leb, ◌==◌, if◌then◌else◌, ne→==, ==_refl, Bool-cases, subst, sym, ◌≤◌, ◌⊎◌,
  inl, inr,
}
use ft_malloc.Heap.{Headers, Zone, Arena}
use ft_malloc.Heap.Dll.{Span, Dll}
use ft_malloc.Cells.{Cell, pick, Tiles, Stands}
use ft_malloc.Cells.Window.{Tiles-le}
use ft_malloc.Zones.{State, arena, put_arena, put_zone, ptr_loop, valid_loop, zone_loop}
use ft_malloc.Base.Words.{add64}
use ft_malloc.Sizes.{EType, same_type}

-- The zones of the list `zones`, in its order, are linked from `a` on.
abbrev pub Linked : (ℕ → Zone) → ℕ → List ℕ → Type 0
Linked zone a [] = a ≡ 0
Linked zone a (z ∷ zones) = (a ≡ z) × (z ≢ 0) × Linked zone (zone z).next zones

-- The first of the zones whose bytes hold `ptr`, or 0.
abbrev pub holder : (ℕ → Zone) → List ℕ → ℕ → ℕ
holder zone [] ptr = 0
holder zone (z ∷ zones) ptr =
    if leb (zone z).start ptr && ltb ptr (zone z).end then z else holder zone zones ptr

pub ptr_loop-holder :
    (k : ℕ) (zone : ℕ → Zone) (a ptr : ℕ) (zones : List ℕ)
    → Linked zone a zones
    → length zones < k
    → ptr_loop k zone a ptr ≡ some (holder zone zones ptr)
unfolding ptr_loop
ptr_loop-holder zero zone a ptr zones l f = absurd (omega arith)
ptr_loop-holder (suc k) zone a ptr [] l f = ground arith
ptr_loop-holder (suc k) zone a ptr (z ∷ zones) l f =
    rw (l.0, ne→== z 0 l.1)
      (ground (arith, ptr_loop-holder k zone (zone z).next ptr zones l.2 (omega arith)))

-- One of the spans begins at `b`.
abbrev pub begins : ℕ → List Span → Bool
begins b [] = false
begins b (s ∷ ss) = if s.addr == b then true else begins b ss

pub valid_loop-begins :
    (k : ℕ) (h : Headers) (p a b : ℕ) (ss : List Span)
    → Dll h p a ss
    → length ss < k
    → valid_loop k h a b ≡ some (begins b ss)
unfolding valid_loop
valid_loop-begins zero h p a b ss d f = absurd (omega arith)
valid_loop-begins (suc k) h p a b [] d f = ground arith
valid_loop-begins (suc k) h p a b (s ∷ ss) d f =
    rw (d.0.here, ne→== s.addr 0 (omega (arith, d.0.above)))
      (ground (arith, valid_loop-begins k h s.addr (h s.addr).next b ss d.1 (omega arith)))

pub begins-used :
    (cs : List Cell) (c : Cell) (ds : List Cell)
    → c.used ≡ true
    → begins c.addr (pick true (cs ++ c ∷ ds)) ≡ true
begins-used [] c ds u = rw u (ground arith)
begins-used (b ∷ cs) c ds u = ground (arith, begins-used cs c ds u)

pub begins-null : (h : Headers) (p a : ℕ) (ss : List Span) → Dll h p a ss → begins 0 ss ≡ false
begins-null h p a [] d = refl
begins-null h p a (s ∷ ss) d =
    rw (ne→== s.addr 0 (omega (arith, d.0.above))) (begins-null h s.addr (h s.addr).next ss d.1)

-- The cells lie between `pos` and `end`, so none begins in front of `pos` or from `end` on.
pub begins-apart :
    (o : Bool) (pos end b : ℕ) (cs : List Cell)
    → Tiles pos end cs
    → (b < pos) ⊎ (end ≤ b)
    → begins b (pick o cs) ≡ false
begins-apart o pos end b [] t w = refl
begins-apart o pos end b (c ∷ cs) t w = ground (
  arith,
  ne→== c.addr b (omega (arith, w, t.0, Tiles-le (pos + 32 + c.size) end cs t.2)),
  begins-apart o (pos + 32 + c.size) end b cs t.2 (omega (arith, w)),
)

pub begins-append :
    (b : ℕ) (ss ts : List Span)
    → begins b ss ≡ false
    → begins b ts ≡ false
    → begins b (ss ++ ts) ≡ false
begins-append b [] ts e f = f
begins-append b (s ∷ ss) ts e f = ground (arith, e, f, begins-append b ss ts)

pub Linked-put :
    (zone : ℕ → Zone) (z a : ℕ) (v : Zone) (zones : List ℕ)
    → v.next ≡ (zone z).next
    → Linked zone a zones
    → Linked (put_zone zone z v) a zones
unfolding put_zone
Linked-put zone z a v [] e l = l
Linked-put zone z a v (y ∷ zones) e l = (
  l.0,
  l.1,
  elim (Bool-cases (y == z)) [
    | inl same ↦
        let at : y ≡ z = ground (arith, same) in
        rw same (
          Linked-put zone z v.next v zones e (subst (λ n. Linked zone n zones) (rw at (sym e)) l.2))
    | inr other ↦ rw other (Linked-put zone z (zone y).next v zones e l.2)
  ],
)

pub holder-put :
    (zone : ℕ → Zone) (z ptr : ℕ) (v : Zone) (zones : List ℕ)
    → v.start ≡ (zone z).start
    → v.end ≡ (zone z).end
    → holder (put_zone zone z v) zones ptr ≡ holder zone zones ptr
unfolding put_zone
holder-put zone z ptr v [] e f = refl
holder-put zone z ptr v (y ∷ zones) e f = elim (Bool-cases (y == z)) [
  | inl same ↦
      let at : y ≡ z = ground (arith, same) in
      rw (same, at, e, f, holder-put zone z ptr v zones e f) refl
  | inr other ↦ rw (other, holder-put zone z ptr v zones e f) refl
]

pub Stands-put :
    (st : State) (b : Arena) (z : ℕ) (cs : List Cell)
    → b.self ≡ z
    → Stands b cs
    → Stands (arena (put_arena st b) z) cs
unfolding put_zone
Stands-put st b z cs e s =
    subst (λ (v : Zone). Stands (record { self = z; hdr = b.hdr; bytes = b.bytes; zone = v }) cs)
      kept
      (record {
        self = omega (arith, s.self, e);
        tiles = s.tiles;
        top = s.top;
        blocks = s.blocks;
        empties = s.empties;
        blocks_num = s.blocks_num;
        remaining_space = s.remaining_space;
      })
  where
    kept : b.zone ≡ put_zone st.zone b.self b.zone z
    kept = rw (e, ==_refl z) refl

-- The first of the zones that is of the type and says that it has a free space with room for
-- `size` bytes and a header, or 0.
abbrev pub fitting : (ℕ → Zone) → List ℕ → EType → ℕ → ℕ
fitting zone [] type size = 0
fitting zone (z ∷ zones) type size =
    if same_type type (zone z).type && leb (add64 size 32) (zone z).max_free_space_size
    then z
    else fitting zone zones type size

pub zone_loop-fitting :
    (k : ℕ) (zone : ℕ → Zone) (a : ℕ) (type : EType) (size : ℕ) (zones : List ℕ)
    → Linked zone a zones
    → length zones < k
    → zone_loop k zone a type size ≡ some (fitting zone zones type size)
unfolding zone_loop
zone_loop-fitting zero zone a type size zones l f = absurd (omega arith)
zone_loop-fitting (suc k) zone a type size [] l f = ground arith
zone_loop-fitting (suc k) zone a type size (z ∷ zones) l f =
    rw (l.0, ne→== z 0 l.1)
      (ground (arith, zone_loop-fitting k zone (zone z).next type size zones l.2 (omega arith)))

-- The zone that was found does say so.
pub fitting-room :
    (zone : ℕ → Zone) (type : EType) (size : ℕ) (zones : List ℕ)
    → fitting zone zones type size ≢ 0
    → add64 size 32 ≤ (zone (fitting zone zones type size)).max_free_space_size
fitting-room zone type size [] ne = absurd (ne refl)
fitting-room zone type size (z ∷ zones) ne =
    elim (Bool-cases
      (same_type type (zone z).type && leb (add64 size 32) (zone z).max_free_space_size)) [
        | inl e ↦ rw e (ground arith)
        | inr e ↦ rw e (fitting-room zone type size zones (rw e at ne))
      ]

-- A zone put back as it was.
pub same-arena : (st : State) (z : ℕ) → put_arena st (arena st z) ≡ st
unfolding put_zone
same-arena st z = ap (λ (f : ℕ → Zone). record st { zone = f }) (λ j x. same x j)
  where
    same : (x : ℕ) → put_zone st.zone z (st.zone z) x ≡ st.zone x
    same x = ground arith

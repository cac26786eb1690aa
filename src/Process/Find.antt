-- ===== src/Process/Find.antt =====
-- The zone that a search gives is one of the zones.
use ft_malloc.Base.{
  ℕ, ◌+◌, ◌<◌, ◌≤◌, ◌≡◌, ◌⊎◌, inl, inr, refl, ap, true, ◌&&◌, List, [], ◌∷◌, ◌++◌, map, All, arith,
  length, leb, ltb, ◌==◌, Bool-cases,
}
use ft_malloc.Base.Words.{add64}
use ft_malloc.Sizes.{EType, same_type}
use ft_malloc.Heap.{Zone}
use ft_malloc.Cells.{Cell, pick}
use ft_malloc.Zones.{State}
use ft_malloc.Zones.Lookup.{Linked, holder, fitting, begins}
use ft_malloc.Process.{Region, bounds, ZoneDll, InPlace, weight}

abbrev pub addrs : List Region → List ℕ
addrs rs = map (λ r. r.addr) rs

-- The zone at `z` is one of the zones.
pub record Found (rs : List Region) (z : ℕ) : Type 0 where
  pub front : List Region
  pub region : Region
  pub back : List Region
  pub split : rs ≡ front ++ region ∷ back
  pub here : z ≡ region.addr

Found-cons : (s : Region) (rs : List Region) (z : ℕ) → Found rs z → Found (s ∷ rs) z
Found-cons s rs z f = record {
  front = s ∷ f.front;
  region = f.region;
  back = f.back;
  split = ap (◌∷◌ s) f.split;
  here = f.here;
}

Found-head : (s : Region) (rs : List Region) → Found (s ∷ rs) s.addr
Found-head s rs = record { front = []; region = s; back = rs; split = refl; here = refl }

pub holder-Found :
    (zone : ℕ → Zone) (rs : List Region) (ptr : ℕ)
    → (holder zone (addrs rs) ptr ≡ 0)
      ⊎ Found rs (holder zone (addrs rs) ptr)
        × ((zone (holder zone (addrs rs) ptr)).start ≤ ptr)
        × (ptr < (zone (holder zone (addrs rs) ptr)).end)
holder-Found zone [] ptr = inl refl
holder-Found zone (r ∷ rs) ptr =
    elim (Bool-cases (leb (zone r.addr).start ptr && ltb ptr (zone r.addr).end)) [
      | inl e ↦ rw e (inr (Found-head r rs, ground arith, ground arith))
      | inr e ↦ rw e (elim (holder-Found zone rs ptr) [
        | inl n ↦ inl n
        | inr (f, l, u) ↦ inr (Found-cons r rs (holder zone (addrs rs) ptr) f, l, u)
      ])
    ]

pub fitting-Found :
    (zone : ℕ → Zone) (rs : List Region) (type : EType) (size : ℕ)
    → (fitting zone (addrs rs) type size ≡ 0)
      ⊎ Found rs (fitting zone (addrs rs) type size)
        × (same_type type (zone (fitting zone (addrs rs) type size)).type ≡ true)
        × (add64 size 32 ≤ (zone (fitting zone (addrs rs) type size)).max_free_space_size)
fitting-Found zone [] type size = inl refl
fitting-Found zone (r ∷ rs) type size =
    elim (Bool-cases (
      same_type type (zone r.addr).type && leb (add64 size 32) (zone r.addr).max_free_space_size)) [
        | inl e ↦ rw e (inr (Found-head r rs, ground arith, ground arith))
        | inr e ↦ rw e (elim (fitting-Found zone rs type size) [
          | inl n ↦ inl n
          | inr (f, t, room) ↦ inr (Found-cons r rs (fitting zone (addrs rs) type size) f, t, room)
        ])
      ]

-- The links of a layout, one way.
pub Layout-Linked :
    (st : State) (p a : ℕ) (rs : List Region)
    → ZoneDll st.zone p a (map bounds rs)
    → All (InPlace st) rs
    → Linked st.zone a (addrs rs)
Layout-Linked st p a [] d i = d
Layout-Linked st p a (r ∷ rs) d i =
    (d.0, i.0.stands.self, Layout-Linked st r.addr (st.zone r.addr).next rs d.2 i.1)

-- A used cell that begins at `b`, with the cells around it.
pub record UsedAt (cs : List Cell) (b : ℕ) : Type 0 where
  pub front : List Cell
  pub cell : Cell
  pub back : List Cell
  pub split : cs ≡ front ++ cell ∷ back
  pub used : cell.used ≡ true
  pub here : cell.addr ≡ b

UsedAt-cons : (d : Cell) (cs : List Cell) (b : ℕ) → UsedAt cs b → UsedAt (d ∷ cs) b
UsedAt-cons d cs b u = record {
  front = d ∷ u.front;
  cell = u.cell;
  back = u.back;
  split = ap (◌∷◌ d) u.split;
  used = u.used;
  here = u.here;
}

pub begins-UsedAt : (cs : List Cell) (b : ℕ) → begins b (pick true cs) ≡ true → UsedAt cs b
begins-UsedAt [] b e = absurd (cc)
begins-UsedAt (d ∷ cs) b e = elim (Bool-cases d.used) [
  | inr free ↦ UsedAt-cons d cs b (begins-UsedAt cs b (rw free at e))
  | inl used ↦ elim (Bool-cases (d.addr == b)) [
    | inl at ↦ record {
      front = [];
      cell = d;
      back = cs;
      split = refl;
      used = used;
      here = ground (arith, at);
    }
    | inr other ↦ UsedAt-cons d cs b (begins-UsedAt cs b (rw (used, other) at e))
  ]
]

pub weight-around :
    (front : List Region) (r : Region) (back : List Region)
    → weight (front ++ r ∷ back) ≡ 1 + length r.cells + weight (front ++ back)
weight-around [] r back = refl
weight-around (s ∷ front) r back = omega (arith, weight-around front r back)

pub length-le-weight : (rs : List Region) → length (addrs rs) ≤ weight rs
length-le-weight [] = omega arith
length-le-weight (r ∷ rs) = omega (arith, length-le-weight rs)

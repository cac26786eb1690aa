-- ===== src/Process/Map.antt =====
-- `zone_init` puts a zone that `mmap` gave in front of the others.
use ft_malloc.Base.{
  ℕ, ◌+◌, ◌%◌, ◌^◌, ◌<◌, ◌≤◌, ◌≡◌, ◌≢◌, ◌⊎◌, inl, inr, refl, sym, ap, ◌∙◌, subst, List, [], ◌∷◌,
  map, All, arith,
}
use ft_malloc.Sizes.{EType}
use ft_malloc.Heap.{write}
use ft_malloc.Cells.{Stands}
use ft_malloc.Zones.{State, arena, put_zone, fresh_zone, zone_init}
use ft_malloc.Zones.Init.{fresh_cell, zone_init-Stands}
use ft_malloc.Api.NewZone.{with_zone}
use ft_malloc.Process.{Region, bounds, extent, ZoneDll, InPlace, Apart, Layout, Sound}
use ft_malloc.Process.Lists.{bounds-All}
use ft_malloc.Process.Chain.{
  Without, Distinct, InPlace-relinked, Layout-Distinct, ZoneDll-frame, SameLinks, apart-Without,
}

-- What `mmap` promises of `bytes` bytes at `z`: the region is not at NULL, it begins at a multiple of
-- 16 (of a page, in fact), it ends below 2 ^ 64, and
-- it is apart from the zones that the process holds.
pub record Fresh (rs : List Region) (z bytes : ℕ) : Type 0 where
  pub nonnull : z ≢ 0
  pub aligned : z % 16 ≡ 0
  pub top : z + bytes < 2 ^ 64
  pub apart : All (λ s. Apart (z, z + bytes) (bounds s)) rs

abbrev pub fresh_region : ℕ → ℕ → Region
fresh_region z bytes = record { addr = z; limit = z + bytes; cells = fresh_cell z bytes ∷ [] }

module _ (st : State) (z : ℕ) (type : EType) (bytes : ℕ) (other : st.g_zones ≢ z)
    (room : (128 ≤ bytes) × (bytes % 16 ≡ 0)) (top : z + bytes < 2 ^ 64) where
  abbrev new : State
  new = with_zone st z type bytes

  total : (new.zone z).total_space + 80 ≡ bytes
  unfolding zone_init fresh_zone put_zone
  total = ground arith

  pub own_prev : (new.zone z).prev ≡ 0
  unfolding zone_init fresh_zone put_zone
  own_prev = ground arith

  relinked :
      (x : ℕ)
      → x ≢ z
      → new.zone x ≡ record (st.zone x) { prev = (new.zone x).prev; next = (new.zone x).next }
  unfolding zone_init put_zone
  relinked x ne = ground arith

  links :
      (x : ℕ)
      → x ≢ z
      → ((new.zone x).next ≡ (st.zone x).next)
        × ((x ≡ st.g_zones) ⊎ ((new.zone x).prev ≡ (st.zone x).prev))
  unfolding zone_init put_zone
  links x ne = ground arith

  regions : new.mapped ≡ (z, bytes) ∷ st.mapped
  unfolding zone_init
  regions = refl

  headers : (x : ℕ) → x ≢ z + 80 → new.hdr x ≡ st.hdr x
  unfolding zone_init write fresh_zone
  headers x ne = ground arith

module _ (st : State) (z : ℕ) (type : EType) (bytes : ℕ) (rs : List Region) (l : Layout st rs)
    (fresh : Fresh rs z bytes) (room : (128 ≤ bytes) × (bytes % 16 ≡ 0)) where
  abbrev made : State
  made = with_zone st z type bytes

  -- The new zone is none of the others, and not the first of them.
  apart : Without z (map bounds rs)
  apart = apart-Without st (fresh_region z bytes) rs (omega (arith, room)) fresh.apart l.each

  first_other :
      (ss : List Region)
      → ZoneDll st.zone 0 st.g_zones (map bounds ss)
      → Without z (map bounds ss)
      → st.g_zones ≢ z
  first_other [] d w = λ e. fresh.nonnull (sym e ∙ d)
  first_other (s ∷ ss) d w = λ e. w.0 (sym e ∙ d.0)

  other : st.g_zones ≢ z
  other = first_other rs l.linked apart

  made_facts :
      Stands (arena made z) (fresh_cell z bytes ∷ [])
      × (made.g_zones ≡ z)
      × ((made.zone z).type ≡ type)
      × ((made.zone z).start ≡ z)
      × ((made.zone z).end ≡ z + bytes)
      × ((made.zone z).next ≡ st.g_zones)
      × (st.g_zones ≡ 0 ⊎ ((made.zone st.g_zones).prev ≡ z))
  made_facts =
      zone_init-Stands (record st { mapped = (z, bytes) ∷ st.mapped }) z type bytes fresh.nonnull
        other room fresh.top

  same_links :
      (ss : List Region)
      → Without z (map bounds ss)
      → Without st.g_zones (map bounds ss)
      → SameLinks st.zone made.zone (map bounds ss)
  same_links [] v w = tt
  same_links (s ∷ ss) v w =
      let (next, prev) = links st z type bytes other room fresh.top s.addr (λ e. v.0 (sym e)) in
      ((elim prev [ inl e ↦ absurd (w.0 (sym e)) | inr e ↦ e ], next), same_links ss v.1 w.1)

  tail :
      (ss : List Region)
      → ZoneDll st.zone 0 st.g_zones (map bounds ss)
      → Without z (map bounds ss)
      → Without 0 (map bounds ss)
      → Distinct (map bounds ss)
      → ZoneDll made.zone z st.g_zones (map bounds ss)
  tail [] d v o w = d
  tail (s ∷ ss) d v o w =
      let (next, _) = links st z type bytes other room fresh.top s.addr (λ e. v.0 (sym e)) in
      (
        d.0,
        elim made_facts.6 [ inl e ↦ absurd (o.0 (sym e ∙ d.0)) | inr e ↦ rw (← d.0) e ],
        rw next (
            ZoneDll-frame st.zone made.zone s.addr (st.zone s.addr).next (map bounds ss) d.2
              (same_links ss v.1 (subst (λ m. Without m (map bounds ss)) (sym d.0) w.0))),
      )

  kept :
      (ss : List Region)
      → All (λ s. Apart (z, z + bytes) (bounds s)) ss
      → All (InPlace st) ss
      → All (Sound st) ss
      → All (InPlace made) ss × All (Sound made) ss
  kept [] a p o = (tt, tt)
  kept (s ∷ ss) a p o =
      let e =
        relinked st z type bytes other room fresh.top s.addr (omega (arith, a.0, room, p.0.room)) in
      let (places, soles) = kept ss a.1 p.1 o.1 in
      (
        (
          InPlace-relinked st made s (made.zone s.addr).prev (made.zone s.addr).next p.0 e
              (λ x lo hi.
                headers st z type bytes other room fresh.top x (omega (arith, lo, hi, a.0, room))),
          places,
        ),
        (rw e (o.0), soles),
      )

  -- The zones with the new one in front are laid out; the others are as they were.
  pub map-Layout : All (Sound st) rs → Layout made (fresh_region z bytes ∷ rs) × All (Sound made) rs
  map-Layout o =
      let (distinct, nonnull) = Layout-Distinct st rs l.each l.apart in
      let (places, soles) = kept rs fresh.apart l.each o in
      (
        record {
          linked = (
            made_facts.1,
            own_prev st z type bytes other room fresh.top,
            rw (made_facts.5) (tail rs l.linked apart nonnull distinct),
          );
          each = (
            record {
              stands = made_facts.0;
              start = made_facts.3;
              end = made_facts.4;
              aligned = fresh.aligned;
              total_space = total st z type bytes other room fresh.top ∙ omega arith;
              room = omega (arith, room);
            },
            places,
          );
          apart = (bounds-All (Apart (z, z + bytes)) rs fresh.apart, l.apart);
          mapped =
              regions st z type bytes other room fresh.top
              ∙ rw (l.mapped) (ap (λ (n : ℕ). (z, n) ∷ map extent rs) (omega arith));
        },
        soles,
      )

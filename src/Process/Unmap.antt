-- ===== src/Process/Unmap.antt =====
-- `free_large_zone` takes one zone out of the layout, and gives its bytes back.
use ft_malloc.Base.{
  ℕ, ◌-◌, ◌≡◌, ◌≢◌, refl, sym, ap, ◌∙◌, subst, List, [], ◌∷◌, ◌++◌, map, All, arith, ◌==◌,
  if◌then◌else◌, ne→==, map-append,
}
use ft_malloc.Base.Words.{add64}
use ft_malloc.Heap.{Zone}
use ft_malloc.Zones.{State, put_zone, unmap, free_large_zone}
use ft_malloc.Process.{Region, bounds, extent, ZoneDll, InPlace, Layout, Sound, Inv}
use ft_malloc.Process.Lists.{All-around, Regions-around, All-without}
use ft_malloc.Process.Chain.{
  Without, Distinct, InPlace-relinked, ZoneDll-middle, ZoneDll-unlinked, last_zone, head_after,
  last_zone-pos, last_zone-ne, Layout-Distinct, Distinct-front,
}

module _ (st : State) (z : ℕ) (other : (st.zone z).prev ≢ z) where
  abbrev q : ℕ
  q = (st.zone z).prev

  abbrev n : ℕ
  n = (st.zone z).next

  abbrev g : ℕ → Zone
  g = (free_large_zone st z).zone

  nexts : (x : ℕ) → x ≢ q → (g x).next ≡ (st.zone x).next
  unfolding free_large_zone put_zone
  nexts x ne = ground arith

  prevs : (x : ℕ) → x ≢ n → (g x).prev ≡ (st.zone x).prev
  unfolding free_large_zone put_zone
  prevs x ne = ground arith

  forward : q ≢ 0 → (g q).next ≡ n
  unfolding free_large_zone put_zone
  forward ne = ground arith

  backward : n ≢ 0 → (g n).prev ≡ q
  unfolding free_large_zone put_zone
  backward ne = ground arith

  relinked : (x : ℕ) → g x ≡ record (st.zone x) { prev = (g x).prev; next = (g x).next }
  unfolding free_large_zone put_zone
  relinked x = ground arith

  first : (free_large_zone st z).g_zones ≡ (if q == 0 then n else st.g_zones)
  unfolding free_large_zone
  first = refl

-- The extent of the zone leaves the list of what `mmap` gave.
unmap-extent :
    (z len : ℕ) (front : List Region) (r : Region) (back : List Region)
    → z ≡ r.addr
    → len ≡ r.limit - r.addr
    → Without z (map bounds front)
    → unmap z len (map extent (front ++ r ∷ back)) ≡ map extent (front ++ back)
unfolding unmap
unmap-extent z len [] r back e f w = ground arith
unmap-extent z len (s ∷ front) r back e f w =
    rw (ne→== s.addr z (λ h. w.0 (sym h)), unmap-extent z len front r back e f w.1) refl

-- The pointer to the first zone once `r` is gone.
first_zone :
    (front : List (ℕ × ℕ)) (q a n : ℕ)
    → last_zone 0 front ≡ q
    → Without 0 front
    → (if q == 0 then n else a) ≡ head_after front a n
first_zone [] q a n e w = rw (sym e) refl
first_zone (x ∷ front) q a n e w =
    rw (ne→== q 0 (subst (λ m. m ≢ 0) e (last_zone-pos x.0 front (λ h. w.0 (sym h)) w.1))) refl

module _ (st : State) (front : List Region) (r : Region) (back : List Region)
    (l : Layout st (front ++ r ∷ back)) where
  abbrev new : State
  new = free_large_zone st r.addr

  chain : ZoneDll st.zone 0 st.g_zones (map bounds front ++ bounds r ∷ map bounds back)
  chain = subst (ZoneDll st.zone 0 st.g_zones) (map-append bounds front (r ∷ back)) l.linked

  distinct :
      Distinct (map bounds front ++ bounds r ∷ map bounds back)
      × Without 0 (map bounds front ++ bounds r ∷ map bounds back)
  distinct =
      subst (λ zs. Distinct zs × Without 0 zs) (map-append bounds front (r ∷ back))
        (Layout-Distinct st (front ++ r ∷ back) l.each l.apart)

  before : (st.zone r.addr).prev ≡ last_zone 0 (map bounds front)
  before =
      (ZoneDll-middle st.zone 0 st.g_zones (map bounds front) (bounds r) (map bounds back) chain).0

  nonnull : Without 0 (map bounds front) × (0 ≢ r.addr) × Without 0 (map bounds back)
  nonnull = All-around (λ z. 0 ≢ z.0) (map bounds front) (bounds r) (map bounds back) distinct.1

  front_distinct : Without r.addr (map bounds front)
  front_distinct = Distinct-front (map bounds front) (bounds r) (map bounds back) distinct.0

  other : (st.zone r.addr).prev ≢ r.addr
  other = λ e.
      last_zone-ne r.addr 0 (map bounds front) (λ h. nonnull.1 (sym h)) front_distinct
        (sym e ∙ before)

  kept : (rs : List Region) → All (InPlace st) rs → All (InPlace new) rs
  unfolding free_large_zone
  kept [] p = tt
  kept (s ∷ rs) p = (
    InPlace-relinked st new s (new.zone s.addr).prev (new.zone s.addr).next p.0
        (relinked st r.addr other s.addr) (λ x l u. refl),
    kept rs p.1,
  )

  soles : (rs : List Region) → All (Sound st) rs → All (Sound new) rs
  soles [] o = tt
  soles (s ∷ rs) o = (rw (relinked st r.addr other s.addr) (o.0), soles rs o.1)

  linked : ZoneDll new.zone 0 new.g_zones (map bounds (front ++ back))
  linked =
      let z = r.addr in
      let q = (st.zone z).prev in
      let n = (st.zone z).next in
      rw
        (
          map-append bounds front back,
          first st z other,
          first_zone (map bounds front) q st.g_zones n (sym before) nonnull.0,
        )
        (ZoneDll-unlinked st.zone new.zone q n (nexts st z other) (prevs st z other)
          (forward st z other) (backward st z other) 0 st.g_zones (map bounds front) (bounds r)
          (map bounds back) chain (sym before) refl distinct.1 distinct.1 distinct.0)

  -- The zones that stay are laid out as before; the bytes of the one that goes are given back.
  pub unmap-Layout : Layout new (front ++ back)
  unfolding free_large_zone
  unmap-Layout =
      let here = (All-around (InPlace st) front r back l.each).1 in
      record {
        linked = linked;
        each = kept (front ++ back) (All-without (InPlace st) front r back l.each);
        apart = (Regions-around front r back l.apart).2;
        mapped =
            ap (unmap r.addr (add64 (st.zone r.addr).total_space 80)) l.mapped
            ∙ unmap-extent r.addr (add64 (st.zone r.addr).total_space 80) front r back refl
                (omega (arith, here.total_space, here.room, here.end, here.stands.top))
                front_distinct;
      }

  pub unmap-Inv : All (Sound st) (front ++ r ∷ back) → Inv new (front ++ back)
  unmap-Inv o = record {
    layout = unmap-Layout;
    sound = soles (front ++ back) (All-without (Sound st) front r back o);
  }

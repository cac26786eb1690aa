-- ===== src/Process/FindZone.antt =====
-- The zone that `find_zone` gives for a request, found or made.
use ft_malloc.Base.{
  ℕ, suc, ◌+◌, ◌-◌, ◌%◌, ◌<◌, ◌≤◌, ◌≡◌, ◌⊎◌, inl, inr, refl, sym, ap, ◌∙◌, subst, true, false,
  Option, none, some, List, [], ◌∷◌, ◌++◌, All, arith, length, ltb, if◌then◌else◌, Bool-cases,
}
use ft_malloc.Base.Words.{add64, sub64, size_max}
use ft_malloc.Sizes.{EType, tiny, small, large, same_type, get_zone_type}
use ft_malloc.Cells.{Asked, pick}
use ft_malloc.Cells.FirstFit.{AllBelow}
use ft_malloc.Zones.{
  LargePages, State, Platform, put_zone, fresh_zone, zone_init, find_zone, create_large_zone,
  create_zone, map_zone,
}
use ft_malloc.Zones.Lookup.{Linked, fitting, zone_loop-fitting}
use ft_malloc.Api.Malloc.{find_zone-fitting}
use ft_malloc.Api.NewZone.{zone_bytes, with_zone, create_zone-mapped, zone_bytes-bounds}
use ft_malloc.Process.{Region, InPlace, Layout, Sound, Inv, used_blocks, weight}
use ft_malloc.Process.Lists.{All-without, All-around}
use ft_malloc.Process.Map.{Fresh, fresh_region, map-Layout}
use ft_malloc.Process.Find.{addrs, fitting-Found, Layout-Linked, length-le-weight, weight-around}
use ft_malloc.Process.Free.{Enough}
use ft_malloc.Process.Allocate.{MayTake}

-- What `mmap` returns for `bytes` bytes: it fails, or gives a region apart from those that are held.
pub data FromMmap (rs : List Region) (bytes : ℕ) : Option ℕ → Type 0 where
  failed : FromMmap rs bytes none
  mapped : (z : ℕ) → Fresh rs z bytes → FromMmap rs bytes (some z)

-- What a request of the aligned `size` asks of `mmap`, if it comes to that.
abbrev pub mmap_bytes : Platform → ℕ → ℕ
mmap_bytes pf size =
    if same_type (get_zone_type size) large then size + 112 else zone_bytes pf (get_zone_type size)

-- The zone at `z` may serve the request: it has the type of the request, and the free space that its
-- header records covers the request with a header; it is one of the zones, which are laid out, with
-- the same blocks in use.
pub record Zoned (fuel : ℕ) (st : State) (rs : List Region) (size : ℕ) (new : State) (z : ℕ)
    : Type 0 where
  pub front : List Region
  pub region : Region
  pub back : List Region
  pub here : z ≡ region.addr
  pub type : same_type (get_zone_type size) (new.zone z).type ≡ true
  pub covers : size + 32 ≤ (new.zone z).max_free_space_size
  pub layout : Layout new (front ++ region ∷ back)
  pub soles : All (Sound new) (front ++ back)
  pub may : MayTake new region
  pub blocks : used_blocks (front ++ region ∷ back) ≡ used_blocks rs
  pub weight_le : weight (front ++ region ∷ back) ≤ weight rs + 2
  pub bytes : new.bytes ≡ st.bytes
  pub fuel_lt : suc (length region.cells) < fuel
  pub refused : AllBelow size (pick false region.cells) → Inv new (front ++ region ∷ back)

-- `find_zone` gives such a zone, or NULL and changes nothing.
abbrev pub FindZone : Platform → ℕ → State → Option ℕ → List Region → ℕ → Type 0
FindZone pf fuel st mm rs size =
    (new : State) × (z : ℕ) × (find_zone pf fuel st mm (get_zone_type size) size ≡ some (new, z))
    × ((z ≡ 0) × (new ≡ st) ⊎ Zoned fuel st rs size new z)

same_type_trans :
    (a b : EType) → same_type a b ≡ true → same_type a large ≡ false → same_type b large ≡ false
same_type_trans a b e n = ground arith

same_type_refl : (a : EType) → same_type a a ≡ true
same_type_refl a = ground arith

-- The type of a zone that was set up, and the free space that its header records.
with_zone-fields :
    (st : State) (z : ℕ) (type : EType) (n : ℕ)
    → (((with_zone st z type n).zone z).type ≡ type)
      × (((with_zone st z type n).zone z).max_free_space_size ≡ sub64 n 80)
unfolding zone_init fresh_zone put_zone
with_zone-fields st z type n = (ground arith, ground arith)

with_zone-bytes :
    (st : State) (z : ℕ) (type : EType) (n : ℕ) → (with_zone st z type n).bytes ≡ st.bytes
unfolding zone_init
with_zone-bytes st z type n = refl

module _ (pf : Platform) (fuel : ℕ) (st : State) (rs : List Region) (size : ℕ) (i : Inv st rs)
    (f : Enough fuel rs) where
  -- A fresh zone with room for the request.
  made :
      (z : ℕ) (type : EType) (bytes : ℕ)
      → same_type (get_zone_type size) type ≡ true
      → Fresh rs z bytes
      → (128 ≤ bytes) × (bytes % 16 ≡ 0)
      → size + 112 ≤ bytes
      → Zoned fuel st rs size (with_zone st z type bytes) z
  made z type bytes same fresh room fits =
      let (layout, soles) = map-Layout st z type bytes rs i.layout fresh room i.sound in
      record {
        front = [];
        region = fresh_region z bytes;
        back = rs;
        here = refl;
        type = rw (with_zone-fields st z type bytes).0 same;
        covers = omega (arith, (with_zone-fields st z type bytes).1, fresh.top, fits);
        layout = layout;
        soles = soles;
        may = inr refl;
        blocks = refl;
        weight_le = omega arith;
        bytes = with_zone-bytes st z type bytes;
        fuel_lt = omega (arith, f);
        refused = λ below. absurd (omega (arith, below.0, fits));
      }

  kind_of :
      (s : ℕ)
      → same_type (get_zone_type s) large ≡ false
      → ((get_zone_type s ≡ tiny) ⊎ (get_zone_type s ≡ small)) × (s ≤ 3040)
  unfolding get_zone_type
  kind_of s e = ground arith

  linked : Linked st.zone st.g_zones (addrs rs)
  linked = Layout-Linked st 0 st.g_zones rs i.layout.linked i.layout.each

  find_zone-none_fits :
      (mm : Option ℕ)
      → same_type (get_zone_type size) large ≡ false
      → fitting st.zone (addrs rs) (get_zone_type size) size ≡ 0
      → find_zone pf fuel st mm (get_zone_type size) size
        ≡ some (create_zone pf st mm (get_zone_type size))
  unfolding find_zone
  find_zone-none_fits mm shared full =
      rw
        (
          shared,
          zone_loop-fitting fuel st.zone st.g_zones (get_zone_type size) size (addrs rs) linked
              (omega (arith, f, length-le-weight rs)),
          full,
        )
        refl

  create_zone-failed : (type : EType) → create_zone pf st none type ≡ (st, 0)
  unfolding create_zone map_zone
  create_zone-failed type = ground arith

  -- A tiny or small request that no zone fits.
  find_new :
      (mm : Option ℕ)
      → LargePages pf
      → FromMmap rs (mmap_bytes pf size) mm
      → same_type (get_zone_type size) large ≡ false
      → fitting st.zone (addrs rs) (get_zone_type size) size ≡ 0
      → FindZone pf fuel st mm rs size
  find_new none page failed shared full = (
    st,
    0,
    find_zone-none_fits none shared full ∙ ap some (create_zone-failed (get_zone_type size)),
    inl (refl, refl),
  )
  find_new (some _) page (mapped z fresh) shared full =
      let type = get_zone_type size in
      let bytes = zone_bytes pf type in
      let (kind, le) = kind_of size shared in
      let wide = zone_bytes-bounds pf type page in
      let fresh' : Fresh rs z bytes =
        subst (Fresh rs z)
          (ap (λ b. if b then size + 112 else zone_bytes pf (get_zone_type size)) shared) fresh in
      (
        with_zone st z type bytes,
        z,
        find_zone-none_fits (some z) shared full ∙ ap some (create_zone-mapped pf st z type kind),
        inr (
            made z type bytes (same_type_refl type) fresh' (omega (arith, wide))
              (omega (arith, wide, le))),
      )

  -- A tiny or small request that a zone fits.
  find_old :
      (mm : Option ℕ)
      → same_type (get_zone_type size) large ≡ false
      → (front : List Region) (r : Region) (back : List Region) → rs ≡ front ++ r ∷ back
      → fitting st.zone (addrs rs) (get_zone_type size) size ≡ r.addr
      → same_type (get_zone_type size) (st.zone r.addr).type ≡ true
      → size + 32 ≤ (st.zone r.addr).max_free_space_size
      → FindZone pf fuel st mm rs size
  find_old mm shared front r back e at type_eq room =
      let place =
        (All-around (InPlace st) front r back (subst (All (InPlace st)) e i.layout.each)).1 in
      (
        st,
        r.addr,
        find_zone-fitting pf fuel st mm (get_zone_type size) size (addrs rs) linked
              (omega (arith, f, length-le-weight rs)) shared (rw at place.stands.self)
            ∙ ap (λ (z : ℕ). some (st, z)) at,
        inr (record {
          front = front;
          region = r;
          back = back;
          here = refl;
          type = type_eq;
          covers = room;
          layout = subst (Layout st) e i.layout;
          soles = All-without (Sound st) front r back (subst (All (Sound st)) e i.sound);
          may = inl (same_type_trans (get_zone_type size) (st.zone r.addr).type type_eq shared);
          blocks = ap used_blocks (sym e);
          weight_le = omega (arith, ap weight e);
          bytes = refl;
          fuel_lt = omega (arith, f, ap weight e, weight-around front r back);
          refused = λ below. subst (Inv st) e i;
        }),
      )

  find_zone-large :
      (mm : Option ℕ)
      → same_type (get_zone_type size) large ≡ true
      → find_zone pf fuel st mm (get_zone_type size) size ≡ some (create_large_zone st mm size)
  unfolding find_zone
  find_zone-large mm big = rw big refl

  create_large-failed : create_large_zone st none size ≡ (st, 0)
  unfolding create_large_zone map_zone
  create_large-failed = ground arith

  create_large-over :
      (mm : Option ℕ) → ltb (size_max - 112) size ≡ true → create_large_zone st mm size ≡ (st, 0)
  unfolding create_large_zone
  create_large-over mm over = rw over refl

  create_large-mapped :
      (z : ℕ)
      → ltb (size_max - 112) size ≡ false
      → create_large_zone st (some z) size ≡ (with_zone st z large (size + 112), z)
  unfolding create_large_zone map_zone
  create_large-mapped z fits =
      let bytes : add64 (add64 size 32) 80 ≡ size + 112 = ground arith in rw (fits, bytes) refl

  -- A large request.
  find_large :
      (mm : Option ℕ)
      → FromMmap rs (mmap_bytes pf size) mm
      → same_type (get_zone_type size) large ≡ true
      → Asked size
      → FindZone pf fuel st mm rs size
  find_large none failed big low =
      (st, 0, find_zone-large none big ∙ ap some create_large-failed, inl (refl, refl))
  find_large (some _) (mapped z fresh) big low =
      let fresh' : Fresh rs z (size + 112) =
        subst (Fresh rs z)
          (ap (λ b. if b then size + 112 else zone_bytes pf (get_zone_type size)) big) fresh in
      elim (Bool-cases (ltb (size_max - 112) size)) [
        | inl over ↦ (
          st,
          0,
          find_zone-large (some z) big ∙ ap some (create_large-over (some z) over),
          inl (refl, refl),
        )
        | inr fits ↦ (
          with_zone st z large (size + 112),
          z,
          find_zone-large (some z) big ∙ ap some (create_large-mapped z fits),
          inr (made z large (size + 112) big fresh' (ground (arith, low, fits)) (omega arith)),
        )
      ]

  -- In a process with the invariant, with enough fuel and large pages, `find_zone`
  -- for an aligned size returns: NULL, with nothing changed, or a zone of the layout, found or made,
  -- that has the type of the request, records a free space that covers the request with a header, and
  -- may take another block; the same blocks are in use.
  pub find_zone_lem :
      (mm : Option ℕ)
      → LargePages pf
      → FromMmap rs (mmap_bytes pf size) mm
      → Asked size
      → FindZone pf fuel st mm rs size
  find_zone_lem mm page m low = elim (Bool-cases (same_type (get_zone_type size) large)) [
    | inl big ↦ find_large mm m big low
    | inr shared ↦ elim (fitting-Found st.zone rs (get_zone_type size) size) [
      | inl full ↦ find_new mm page m shared full
      | inr (found, type_eq, room) ↦
          find_old mm shared found.front found.region found.back found.split found.here
            (subst (λ z. same_type (get_zone_type size) (st.zone z).type ≡ true) found.here type_eq)
            (subst (λ (z : ℕ). size + 32 ≤ (st.zone z).max_free_space_size) found.here
              (omega (arith, room, (kind_of size shared).1)))
    ]
  ]

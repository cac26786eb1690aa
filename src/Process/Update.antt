-- ===== src/Process/Update.antt =====
-- An operation on the blocks of one zone keeps the layout of all.
use ft_malloc.Base.{
  ℕ, ◌+◌, ◌<◌, ◌≤◌, ◌≡◌, ◌≢◌, inl, inr, refl, sym, ◌∙◌, subst, true, false, List, [], ◌∷◌, ◌++◌,
  map, All, arith, ◌==◌, ne→==, ==_refl, Bool, Bool-cases, map-append,
}
use ft_malloc.Heap.{Zone, Arena}
use ft_malloc.Heap.Dll.{Dll, Dll-frame}
use ft_malloc.Cells.{Cell, pick, Stands, Holds, Within}
use ft_malloc.Cells.Window.{All-append, pick-Inside}
use ft_malloc.Cells.Split.{SameOn-Inside}
use ft_malloc.Zones.{State, arena, put_zone, put_arena}
use ft_malloc.Zones.Lookup.{Stands-put}
use ft_malloc.Process.{Region, bounds, extent, ZoneDll, InPlace, Apart, Layout, Sole, Sound, Inv}
use ft_malloc.Process.Lists.{All-around, All-parts, All-without, Regions-around}

-- A zone stands for its cells wherever its header and its bytes are the same.
pub Stands-frame :
    (a b : Arena) (cs : List Cell)
    → Stands a cs
    → b.self ≡ a.self
    → b.zone ≡ a.zone
    → ((x : ℕ) → a.zone.start + 80 ≤ x → x < a.zone.end → b.hdr x ≡ a.hdr x)
    → Stands b cs
Stands-frame a b cs s e z same = rw z (record {
  self = rw e (s.self);
  tiles = s.tiles;
  top = s.top;
  blocks = kept true a.zone.blocks s.blocks;
  empties = kept false a.zone.empty_spaces s.empties;
  blocks_num = s.blocks_num;
  remaining_space = s.remaining_space;
})
  where
    kept : (o : Bool) (h : ℕ) → Dll a.hdr 0 h (pick o cs) → Dll b.hdr 0 h (pick o cs)
    kept o h d = Dll-frame a.hdr b.hdr 0 h (pick o cs) d (
        SameOn-Inside a.hdr b.hdr (a.zone.start + 80) a.zone.end (pick o cs)
          (pick-Inside o (a.zone.start + 80) a.zone.end cs s.tiles) same)

pub InPlace-frame :
    (st new : State) (s : Region)
    → InPlace st s
    → new.zone s.addr ≡ st.zone s.addr
    → ((x : ℕ) → s.addr + 80 ≤ x → x < s.limit → new.hdr x ≡ st.hdr x)
    → InPlace new s
InPlace-frame st new s p z same = record {
  stands =
      Stands-frame (arena st s.addr) (arena new s.addr) s.cells p.stands refl z
        (λ x l u. same x (omega (arith, p.start)) (omega (arith, p.end)));
  start = rw z (p.start);
  end = rw z (p.end);
  total_space = rw z (p.total_space);
  room = p.room;
  aligned = p.aligned;
}

-- A zone's header written with the same links.
pub ZoneDll-put :
    (zone : ℕ → Zone) (z p a : ℕ) (v : Zone) (zs : List (ℕ × ℕ))
    → v.prev ≡ (zone z).prev
    → v.next ≡ (zone z).next
    → ZoneDll zone p a zs
    → ZoneDll (put_zone zone z v) p a zs
unfolding put_zone
ZoneDll-put zone z p a v [] e f d = d
ZoneDll-put zone z p a v (y ∷ zs) e f d = elim (Bool-cases (y.0 == z)) [
  | inr other ↦ rw other (d.0, d.1, ZoneDll-put zone z y.0 (zone y.0).next v zs e f d.2)
  | inl same ↦
      let at : y.0 ≡ z = ground (arith, same) in
      rw same (
        d.0,
        e ∙ rw (sym at) (d.1),
        ZoneDll-put zone z y.0 v.next v zs e f
            (subst (λ n. ZoneDll zone y.0 n zs) (rw at (sym f)) d.2),
      )
]

pub put_zone-off : (zone : ℕ → Zone) (z x : ℕ) (v : Zone) → x ≢ z → put_zone zone z v x ≡ zone x
unfolding put_zone
put_zone-off zone z x v ne = rw (ne→== x z ne) refl

pub put_zone-at : (zone : ℕ → Zone) (z : ℕ) (v : Zone) → put_zone zone z v z ≡ v
unfolding put_zone
put_zone-at zone z v = rw (==_refl z) refl

module _ (st : State) (r : Region) (b : Arena) (cs : List Cell) (here : InPlace st r)
    (w : Within (arena st r.addr) b) (s : Stands b cs) where
  abbrev new : State
  new = put_arena st b

  -- Zones apart from the one that changed are in place.
  others :
      (rs : List Region)
      → All (λ s. Apart (bounds r) (bounds s)) rs
      → All (InPlace st) rs
      → All (InPlace new) rs
  others [] a p = tt
  others (t ∷ rs) a p = (
    InPlace-frame st new t p.0
        (put_zone-off st.zone b.self t.addr b.zone
          (omega (arith, w.self, a.0, here.room, p.0.room)))
        (λ x l u. w.outside x (omega (arith, l)) (omega (arith, l, u, a.0, here.start, here.end))),
    others rs a.1 p.1,
  )

  changed : InPlace new (record r { cells = cs })
  changed =
      let at : new.zone r.addr ≡ b.zone = rw (sym w.self) (put_zone-at st.zone b.self b.zone) in
      record {
        stands = Stands-put st b r.addr cs w.self s;
        start = rw at (w.start ∙ here.start);
        end = rw at (w.end ∙ here.end);
        total_space = rw (at, w.total_space) (here.total_space);
        room = here.room;
        aligned = here.aligned;
      }

  soles :
      (rs : List Region)
      → All (λ s. Apart (bounds r) (bounds s)) rs
      → All (InPlace st) rs
      → All (Sound st) rs
      → All (Sound new) rs
  soles [] a p o = tt
  soles (t ∷ rs) a p o = (
    rw (put_zone-off st.zone b.self t.addr b.zone (omega (arith, w.self, a.0, here.room, p.0.room)))
        (o.0),
    soles rs a.1 p.1 o.1,
  )

-- Where one zone of a layout has run an operation on its blocks, the zones are laid out as before,
-- and that one stands for its new cells.
pub update-Layout :
    (st : State) (front : List Region) (r : Region) (back : List Region) (b : Arena)
    (cs : List Cell)
    → Layout st (front ++ r ∷ back)
    → Within (arena st r.addr) b
    → Stands b cs
    → Layout (put_arena st b) (front ++ record r { cells = cs } ∷ back)
update-Layout st front r back b cs l w s =
    let r' : Region = record r { cells = cs } in
    let (before, here, behind) = All-around (InPlace st) front r back l.each in
    let (apart_before, apart_behind, _) = Regions-around front r back l.apart in
    let same : map bounds (front ++ r' ∷ back) ≡ map bounds (front ++ r ∷ back) =
      rw (map-append bounds front (r' ∷ back), map-append bounds front (r ∷ back)) refl in
    record {
      linked =
          rw (same, w.self)
            (ZoneDll-put st.zone r.addr 0 st.g_zones b.zone (map bounds (front ++ r ∷ back)) w.prev
              w.next l.linked);
      each =
          All-append (InPlace (put_arena st b)) front (r' ∷ back)
            (others st r b cs here w s front apart_before before)
            (changed st r b cs here w s, others st r b cs here w s back apart_behind behind);
      apart = rw same (l.apart);
      mapped =
          l.mapped
          ∙ rw (map-append extent front (r ∷ back), map-append extent front (r' ∷ back)) refl;
    }

-- The same for the whole invariant, if a large zone then has one used cell and the zone's counters
-- are right.
pub update-Inv :
    (st : State) (front : List Region) (r : Region) (back : List Region) (b : Arena)
    (cs : List Cell)
    → Layout st (front ++ r ∷ back)
    → All (Sound st) (front ++ back)
    → Within (arena st r.addr) b
    → Holds b cs
    → Sole st (record r { cells = cs })
    → Inv (put_arena st b) (front ++ record r { cells = cs } ∷ back)
update-Inv st front r back b cs l i w h o =
    let s = h.lists in
    let r' : Region = record r { cells = cs } in
    let (before, here, behind) = All-around (InPlace st) front r back l.each in
    let (sole_before, sole_behind) = All-parts (Sound st) front back i in
    let (apart_before, apart_behind, _) = Regions-around front r back l.apart in
    let at : put_zone st.zone b.self b.zone r.addr ≡ b.zone =
      rw (sym w.self) (put_zone-at st.zone b.self b.zone) in
    record {
      layout = update-Layout st front r back b cs l w s;
      sound =
          All-append (Sound (put_arena st b)) front (r' ∷ back)
            (soles st r b cs here w s front apart_before before sole_before)
            (
              (rw (at, w.type) o, rw at (h.max_free_space_size)),
              soles st r b cs here w s back apart_behind behind sole_behind,
            );
    }

-- Nothing done to a zone changes the layout.
pub same-Inv :
    (st : State) (front : List Region) (r : Region) (back : List Region)
    → Inv st (front ++ r ∷ back)
    → Inv (put_arena st (arena st r.addr)) (front ++ r ∷ back)
same-Inv st front r back i =
    update-Inv st front r back (arena st r.addr) r.cells i.layout
      (All-without (Sound st) front r back i.sound)
      (record {
        self = refl;
        start = refl;
        end = refl;
        type = refl;
        total_space = refl;
        prev = refl;
        next = refl;
        bytes = refl;
        outside = λ x p o. refl;
      })
      (record {
        lists = (All-around (InPlace st) front r back i.layout.each).1.stands;
        max_free_space_size = (All-around (Sound st) front r back i.sound).1.1;
      })
      (All-around (Sound st) front r back i.sound).1.0

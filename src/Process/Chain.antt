-- ===== src/Process/Chain.antt =====
-- The list of zones: which writes it spares, and how a zone leaves it.
use ft_malloc.Base.{
  ℕ, ◌+◌, ◌<◌, ◌≤◌, ◌≡◌, ◌≢◌, sym, ◌∙◌, subst, List, [], ◌∷◌, ◌++◌, map, All, arith,
}
use ft_malloc.Heap.{Zone}
use ft_malloc.Zones.{State}
use ft_malloc.Process.{Region, bounds, ZoneDll, InPlace, Apart, Separate}
use ft_malloc.Process.Lists.{All-around, All-bounds}
use ft_malloc.Process.Update.{InPlace-frame}

-- The addresses differ from `x`.
abbrev pub Without : ℕ → List (ℕ × ℕ) → Type 0
Without x = All (λ z. x ≢ z.0)

abbrev pub Distinct : List (ℕ × ℕ) → Type 0
Distinct [] = Unit {0}
Distinct (z ∷ zs) = Without z.0 zs × Distinct zs

-- New links leave a zone in place.
pub InPlace-relinked :
    (st new : State) (s : Region) (prev next : ℕ)
    → InPlace st s
    → new.zone s.addr ≡ record (st.zone s.addr) { prev = prev; next = next }
    → ((x : ℕ) → s.addr + 80 ≤ x → x < s.limit → new.hdr x ≡ st.hdr x)
    → InPlace new s
InPlace-relinked st new s prev next p z same =
    let old = p.stands in
    let relinked : State = record st {
      zone = λ _. record (st.zone s.addr) { prev = prev; next = next };
    } in
    InPlace-frame relinked new s
      (record {
        stands = record {
          self = old.self;
          tiles = old.tiles;
          top = old.top;
          blocks = old.blocks;
          empties = old.empties;
          blocks_num = old.blocks_num;
          remaining_space = old.remaining_space;
        };
        start = p.start;
        end = p.end;
        total_space = p.total_space;
        room = p.room;
        aligned = p.aligned;
      })
      z same

abbrev pub SameLinks : (ℕ → Zone) → (ℕ → Zone) → List (ℕ × ℕ) → Type 0
SameLinks zone g = All (λ z. ((g z.0).prev ≡ (zone z.0).prev) × ((g z.0).next ≡ (zone z.0).next))

pub ZoneDll-frame :
    (zone g : ℕ → Zone) (p a : ℕ) (zs : List (ℕ × ℕ))
    → ZoneDll zone p a zs
    → SameLinks zone g zs
    → ZoneDll g p a zs
ZoneDll-frame zone g p a [] d s = d
ZoneDll-frame zone g p a (z ∷ zs) d s =
    (d.0, s.0.0 ∙ d.1, rw (s.0.1) (ZoneDll-frame zone g z.0 (zone z.0).next zs d.2 s.1))

abbrev pub last_zone : ℕ → List (ℕ × ℕ) → ℕ
last_zone p [] = p
last_zone p (x ∷ xs) = last_zone x.0 xs

pub ZoneDll-middle :
    (zone : ℕ → Zone) (p a : ℕ) (xs : List (ℕ × ℕ)) (z : ℕ × ℕ) (ys : List (ℕ × ℕ))
    → ZoneDll zone p a (xs ++ z ∷ ys)
    → ((zone z.0).prev ≡ last_zone p xs) × ZoneDll zone z.0 (zone z.0).next ys
ZoneDll-middle zone p a [] z ys d = (d.1, d.2)
ZoneDll-middle zone p a (x ∷ xs) z ys d = ZoneDll-middle zone x.0 (zone x.0).next xs z ys d.2

-- The pointer that leads to the zones once the first of them, behind `xs`, is gone.
abbrev pub head_after : List (ℕ × ℕ) → ℕ → ℕ → ℕ
head_after [] a n = n
head_after (x ∷ xs) a n = a

pub last_zone-ne : (x p : ℕ) (xs : List (ℕ × ℕ)) → x ≢ p → Without x xs → x ≢ last_zone p xs
last_zone-ne x p [] ne w = ne
last_zone-ne x p (y ∷ xs) ne w = last_zone-ne x y.0 xs w.0 w.1

-- What follows a zone in the list is no zone in front of it.
next-ne :
    (zone : ℕ → Zone) (x z n : ℕ) (ys : List (ℕ × ℕ))
    → ZoneDll zone z n ys
    → x ≢ 0
    → Without x ys
    → x ≢ n
next-ne zone x z n [] d ne w = λ e. ne (e ∙ d)
next-ne zone x z n (y ∷ ys) d ne w = λ e. w.0 (e ∙ d.0)

module _ (zone g : ℕ → Zone) (q n : ℕ) (nexts : (x : ℕ) → x ≢ q → (g x).next ≡ (zone x).next)
    (prevs : (x : ℕ) → x ≢ n → (g x).prev ≡ (zone x).prev) (forward : q ≢ 0 → (g q).next ≡ n)
    (backward : n ≢ 0 → (g n).prev ≡ q) where
  same_links : (ys : List (ℕ × ℕ)) → Without q ys → Without n ys → SameLinks zone g ys
  same_links [] v w = tt
  same_links (y ∷ ys) v w =
      ((prevs y.0 (λ e. w.0 (sym e)), nexts y.0 (λ e. v.0 (sym e))), same_links ys v.1 w.1)

  behind :
      (z : ℕ) (ys : List (ℕ × ℕ))
      → ZoneDll zone z n ys
      → Without 0 ys
      → Without q ys
      → Distinct ys
      → ZoneDll g q n ys
  behind z [] d o v w = d
  behind z (y ∷ ys) d o v w = (
    d.0,
    rw (← d.0) (backward (λ e. o.0 (sym e ∙ d.0))),
    rw (nexts y.0 (λ e. v.0 (sym e))) (
        ZoneDll-frame zone g y.0 (zone y.0).next ys d.2
          (same_links ys v.1 (subst (λ (m : ℕ). Without m ys) (sym d.0) w.0))),
  )

  link :
      (x : ℕ) (xs : List (ℕ × ℕ))
      → last_zone x xs ≡ q
      → Without x xs
      → x ≢ 0
      → head_after xs (zone x).next n ≡ (g x).next
  link x [] e w ne = sym (rw e (forward (λ h. ne (e ∙ h))))
  link x (y ∷ xs) e w ne = sym (nexts x (subst (λ m. x ≢ m) e (last_zone-ne x y.0 xs w.0 w.1)))

  -- Where `q` stands in front of `z` in the list and `n` behind it, `z` is gone from the new links.
  pub ZoneDll-unlinked :
      (p a : ℕ) (xs : List (ℕ × ℕ)) (z : ℕ × ℕ) (ys : List (ℕ × ℕ))
      → ZoneDll zone p a (xs ++ z ∷ ys)
      → last_zone p xs ≡ q
      → (zone z.0).next ≡ n
      → Without p (xs ++ z ∷ ys)
      → Without 0 (xs ++ z ∷ ys)
      → Distinct (xs ++ z ∷ ys)
      → ZoneDll g p (head_after xs a n) (xs ++ ys)
  ZoneDll-unlinked p a [] z ys d e f v o w =
      subst (λ (m : ℕ). ZoneDll g m n ys) (sym e)
        (behind z.0 ys (subst (λ (m : ℕ). ZoneDll zone z.0 m ys) f d.2) o.1
          (subst (λ (m : ℕ). Without m ys) e v.1) w.1)
  ZoneDll-unlinked p a (x ∷ xs) z ys d e f v o w =
      let tail = (ZoneDll-middle zone x.0 (zone x.0).next xs z ys d.2).1 in
      let apart =
        next-ne zone x.0 z.0 n ys (subst (λ (m : ℕ). ZoneDll zone z.0 m ys) f tail)
          (λ h. o.0 (sym h)) (All-around (λ y. x.0 ≢ y.0) xs z ys w.0).2 in
      (
        d.0,
        prevs x.0 apart ∙ d.1,
        subst (λ (m : ℕ). ZoneDll g x.0 m (xs ++ ys))
            (link x.0 xs e (All-around (λ y. x.0 ≢ y.0) xs z ys w.0).0 (λ h. o.0 (sym h)))
            (ZoneDll-unlinked x.0 (zone x.0).next xs z ys d.2 e f w.0 o.1 w.1),
      )

pub apart-Without :
    (st : State) (r : Region) (rs : List Region)
    → r.addr + 80 ≤ r.limit
    → All (λ s. Apart (bounds r) (bounds s)) rs
    → All (InPlace st) rs
    → Without r.addr (map bounds rs)
apart-Without st r [] l a p = tt
apart-Without st r (s ∷ rs) l a p =
    (omega (arith, a.0, l, p.0.room), apart-Without st r rs l a.1 p.1)

-- The zones of a layout have different addresses, and none is NULL.
pub Layout-Distinct :
    (st : State) (rs : List Region)
    → All (InPlace st) rs
    → Separate (map bounds rs)
    → Distinct (map bounds rs) × Without 0 (map bounds rs)
Layout-Distinct st [] p s = (tt, tt)
Layout-Distinct st (r ∷ rs) p s =
    let (later, nonnull) = Layout-Distinct st rs p.1 s.1 in
    (
      (apart-Without st r rs p.0.room (All-bounds (Apart (bounds r)) rs s.0) p.1, later),
      ((λ e. p.0.stands.self (sym e)), nonnull),
    )

-- The last zone of a layout is not NULL.
pub last_zone-pos : (p : ℕ) (xs : List (ℕ × ℕ)) → p ≢ 0 → Without 0 xs → last_zone p xs ≢ 0
last_zone-pos p [] ne w = ne
last_zone-pos p (x ∷ xs) ne w = last_zone-pos x.0 xs (λ e. w.0 (sym e)) w.1

pub Distinct-front :
    (xs : List (ℕ × ℕ)) (z : ℕ × ℕ) (ys : List (ℕ × ℕ)) → Distinct (xs ++ z ∷ ys) → Without z.0 xs
Distinct-front [] z ys d = tt
Distinct-front (x ∷ xs) z ys d =
    ((λ e. (All-around (λ y. x.0 ≢ y.0) xs z ys d.0).1 (sym e)), Distinct-front xs z ys d.1)

-- ===== src/Process/Lists.antt =====
-- One zone among the others.
use ft_malloc.Base.{ℕ, inl, inr, List, [], ◌∷◌, ◌++◌, map, All, subst, map-append}
use ft_malloc.Process.{Region, bounds, Apart, Separate}

pub All-around {ℓ κ} :
    {A : Type ℓ} (P : A → Type κ) (xs : List A) (x : A) (ys : List A)
    → All P (xs ++ x ∷ ys)
    → All P xs × P x × All P ys
All-around P [] x ys a = (tt, a.0, a.1)
All-around P (w ∷ xs) x ys a =
    let (before, here, behind) = All-around P xs x ys a.1 in ((a.0, before), here, behind)

pub All-without {ℓ κ} :
    {A : Type ℓ} (P : A → Type κ) (xs : List A) (x : A) (ys : List A)
    → All P (xs ++ x ∷ ys)
    → All P (xs ++ ys)
All-without P [] x ys a = a.1
All-without P (w ∷ xs) x ys a = (a.0, All-without P xs x ys a.1)

pub All-bounds {κ} :
    (P : ℕ × ℕ → Type κ) (rs : List Region) → All P (map bounds rs) → All (λ r. P (bounds r)) rs
All-bounds P [] a = tt
All-bounds P (r ∷ rs) a = (a.0, All-bounds P rs a.1)

-- A region is apart from those around it.
pub Separate-around :
    (xs : List (ℕ × ℕ)) (z : ℕ × ℕ) (ys : List (ℕ × ℕ))
    → Separate (xs ++ z ∷ ys)
    → All (Apart z) xs × All (Apart z) ys × Separate (xs ++ ys)
Separate-around [] z ys s = (tt, s.0, s.1)
Separate-around (x ∷ xs) z ys s =
    let (before, behind, others) = Separate-around xs z ys s.1 in
    let apart : Apart z x = elim ((All-around (Apart x) xs z ys s.0).1) [
      | inl l ↦ inr l
      | inr l ↦ inl l
    ] in
    ((apart, before), behind, (All-without (Apart x) xs z ys s.0, others))

-- The same for the regions of zones.
pub Regions-around :
    (front : List Region) (r : Region) (back : List Region)
    → Separate (map bounds (front ++ r ∷ back))
    → All (λ s. Apart (bounds r) (bounds s)) front
      × All (λ s. Apart (bounds r) (bounds s)) back
      × Separate (map bounds (front ++ back))
Regions-around front r back s =
    let (before, behind, others) =
      Separate-around (map bounds front) (bounds r) (map bounds back)
        (subst Separate (map-append bounds front (r ∷ back)) s) in
    (
      All-bounds (Apart (bounds r)) front before,
      All-bounds (Apart (bounds r)) back behind,
      rw (map-append bounds front back) others,
    )

pub bounds-All {κ} :
    (P : ℕ × ℕ → Type κ) (rs : List Region) → All (λ r. P (bounds r)) rs → All P (map bounds rs)
bounds-All P [] a = tt
bounds-All P (r ∷ rs) a = (a.0, bounds-All P rs a.1)

pub All-parts {ℓ κ} :
    {A : Type ℓ} (P : A → Type κ) (xs ys : List A) → All P (xs ++ ys) → All P xs × All P ys
All-parts P [] ys a = (tt, a)
All-parts P (x ∷ xs) ys a = let (before, behind) = All-parts P xs ys a.1 in ((a.0, before), behind)

-- ===== src/Libft/Sorting/Weave.antt =====
-- The merge of two lists, and what it keeps.
use ft_malloc.Base.{
  ℕ, zero, suc, ◌+◌, ◌≡◌, inl, inr, refl, Bool, true, false, ◌==◌, if◌then◌else◌, List, [], ◌∷◌,
  ◌++◌, All, length, arith, Bool-cases,
}
use ft_malloc.Libft.Text.{ℤ, pos, negsuc}
use ft_malloc.Libft.Sorting.{int_le}

abbrev pub Le : ℤ → ℤ → Type 0
Le a b = int_le a b ≡ true

int_le_total : (a b : ℤ) → int_le a b ≡ false → Le b a
unfolding int_le
int_le_total (pos a) (pos b) e = ground arith
int_le_total (pos a) (negsuc b) e = refl
int_le_total (negsuc a) (pos b) e = absurd (cc)
int_le_total (negsuc a) (negsuc b) e = ground arith

int_le_trans : (a b c : ℤ) → Le a b → Le b c → Le a c
unfolding int_le
int_le_trans (pos a) (pos b) (pos c) d e = ground arith
int_le_trans (pos a) (pos b) (negsuc c) d e = absurd (cc)
int_le_trans (pos a) (negsuc b) c d e = absurd (cc)
int_le_trans (negsuc a) b (pos c) d e = refl
int_le_trans (negsuc a) (pos b) (negsuc c) d e = absurd (cc)
int_le_trans (negsuc a) (negsuc b) (negsuc c) d e = ground arith

abbrev pub Sorted : List ℤ → Type 0
Sorted [] = Unit {0}
Sorted (x ∷ xs) = All (Le x) xs × Sorted xs

abbrev pub int_same : ℤ → ℤ → Bool
int_same (pos a) (pos b) = a == b
int_same (pos a) (negsuc b) = false
int_same (negsuc a) (pos b) = false
int_same (negsuc a) (negsuc b) = a == b

-- How often a number stands in a list.
abbrev pub count : ℤ → List ℤ → ℕ
count z [] = 0
count z (x ∷ xs) = (if int_same z x then 1 else 0) + count z xs

pub count-append : (z : ℤ) (xs ys : List ℤ) → count z (xs ++ ys) ≡ count z xs + count z ys
count-append z [] ys = omega arith
count-append z (x ∷ xs) ys = omega (arith, count-append z xs ys)

-- The smaller of the two first elements, `k` times.
abbrev pub weave : ℕ → List ℤ → List ℤ → List ℤ
weave zero xs ys = []
weave (suc k) [] [] = []
weave (suc k) [] (y ∷ ys) = y ∷ weave k [] ys
weave (suc k) (x ∷ xs) [] = x ∷ weave k xs []
weave (suc k) (x ∷ xs) (y ∷ ys) =
    let left = weave k xs (y ∷ ys) in
    let right = weave k (x ∷ xs) ys in if int_le x y then x ∷ left else y ∷ right

weave-All : (P : ℤ → Type 0) (k : ℕ) (xs ys : List ℤ) → All P xs → All P ys → All P (weave k xs ys)
weave-All P zero xs ys a b = tt
weave-All P (suc k) [] [] a b = tt
weave-All P (suc k) [] (y ∷ ys) a b = (b.0, weave-All P k [] ys tt b.1)
weave-All P (suc k) (x ∷ xs) [] a b = (a.0, weave-All P k xs [] a.1 tt)
weave-All P (suc k) (x ∷ xs) (y ∷ ys) a b = elim (Bool-cases (int_le x y)) [
  | inl e ↦ rw e (a.0, weave-All P k xs (y ∷ ys) a.1 b)
  | inr e ↦ rw e (b.0, weave-All P k (x ∷ xs) ys a b.1)
]

All-Le : (a b : ℤ) (xs : List ℤ) → Le a b → All (Le b) xs → All (Le a) xs
All-Le a b [] l p = tt
All-Le a b (x ∷ xs) l p = (int_le_trans a b x l p.0, All-Le a b xs l p.1)

pub weave-Sorted : (k : ℕ) (xs ys : List ℤ) → Sorted xs → Sorted ys → Sorted (weave k xs ys)
weave-Sorted zero xs ys s t = tt
weave-Sorted (suc k) [] [] s t = tt
weave-Sorted (suc k) [] (y ∷ ys) s t =
    (weave-All (Le y) k [] ys tt t.0, weave-Sorted k [] ys tt t.1)
weave-Sorted (suc k) (x ∷ xs) [] s t =
    (weave-All (Le x) k xs [] s.0 tt, weave-Sorted k xs [] s.1 tt)
weave-Sorted (suc k) (x ∷ xs) (y ∷ ys) s t = elim (Bool-cases (int_le x y)) [
  | inl e ↦ rw e (
    weave-All (Le x) k xs (y ∷ ys) s.0 (e, All-Le x y ys e t.0),
    weave-Sorted k xs (y ∷ ys) s.1 t,
  )
  | inr e ↦
      let le = int_le_total x y e in
      rw e (
        weave-All (Le y) k (x ∷ xs) ys (le, All-Le y x xs le s.0) t.0,
        weave-Sorted k (x ∷ xs) ys s t.1,
      )
]

pub weave-count :
    (z : ℤ) (k : ℕ) (xs ys : List ℤ)
    → length xs + length ys ≡ k
    → count z (weave k xs ys) ≡ count z xs + count z ys
weave-count z zero [] [] e = refl
weave-count z zero [] (y ∷ ys) e = absurd (omega (arith, e))
weave-count z zero (x ∷ xs) ys e = absurd (omega (arith, e))
weave-count z (suc k) [] [] e = refl
weave-count z (suc k) [] (y ∷ ys) e = omega (arith, weave-count z k [] ys (omega (arith, e)))
weave-count z (suc k) (x ∷ xs) [] e = omega (arith, weave-count z k xs [] (omega (arith, e)))
weave-count z (suc k) (x ∷ xs) (y ∷ ys) e = elim (Bool-cases (int_le x y)) [
  | inl l ↦ rw l (omega (arith, weave-count z k xs (y ∷ ys) (omega (arith, e))))
  | inr l ↦ rw l (omega (arith, weave-count z k (x ∷ xs) ys (omega (arith, e))))
]

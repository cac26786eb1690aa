-- ===== src/Libft/Sorting/Loop.antt =====
-- The loop of `merge` merges two parts of an array as lists are merged.
use ft_malloc.Base.{
  ℕ, zero, suc, ◌+◌, ◌<◌, ◌≤◌, ◌≡◌, ◌≢◌, ◌⊎◌, inl, inr, refl, sym, ap, ◌∙◌, subst, Bool, true,
  false, ltb, leb, ◌&&◌, ◌||◌, List, [], ◌∷◌, ◌++◌, length, arith, Bool-cases,
}
use ft_malloc.Libft.Text.{ℤ}
use ft_malloc.Libft.Sorting.{int_le, Ints, set_int, merge_loop}
use ft_malloc.Libft.Sorting.Weave.{weave}

-- The `k` elements from `i` on.
abbrev pub part : Ints → (i k : ℕ) → List ℤ
part list i zero = []
part list i (suc k) = list i ∷ part list (i + 1) k

-- `new` is `old` but for the `k` elements from `i` on.
abbrev pub Only : Ints → Ints → (i k : ℕ) → Type 0
Only old new i k = (x : ℕ) → (x < i) ⊎ (i + k ≤ x) → new x ≡ old x

pub part-same :
    (f g : Ints) (i k : ℕ) → ((x : ℕ) → i ≤ x → x < i + k → f x ≡ g x) → part f i k ≡ part g i k
part-same f g i zero e = refl
part-same f g i (suc k) e =
    ap (λ v. v ∷ part f (i + 1) k) (e i (omega arith) (omega arith))
    ∙ ap (◌∷◌ (g i))
        (part-same f g (i + 1) k (λ x lo hi. e x (omega (arith, lo)) (omega (arith, hi))))

pub part-append : (f : Ints) (i a b : ℕ) → part f i (a + b) ≡ part f i a ++ part f (i + a) b
part-append f i zero b =
    let none : 0 + b ≡ b = omega arith in let here : i + 0 ≡ i = omega arith in rw (none, here) refl
part-append f i (suc a) b =
    let more : suc a + b ≡ suc (a + b) = omega arith in
    let next : i + suc a ≡ i + 1 + a = omega arith in
    rw (more, next) (ap (◌∷◌ (f i)) (part-append f (i + 1) a b))

pub length-part : (f : Ints) (i k : ℕ) → length (part f i k) ≡ k
length-part f i zero = refl
length-part f i (suc k) = omega (arith, length-part f (i + 1) k)

pub set_int-here : (f : Ints) (i : ℕ) (v : ℤ) → set_int f i v i ≡ v
unfolding set_int
set_int-here f i v = ground arith

pub set_int-off : (f : Ints) (i x : ℕ) (v : ℤ) → x ≢ i → set_int f i v x ≡ f x
unfolding set_int
set_int-off f i x v ne = ground (arith, ne)

-- One element written, and the rest behind it.
pushed :
    (temp whole rest : Ints) (j k : ℕ) (v : ℤ) (w : List ℤ)
    → whole ≡ rest
    → (part rest (j + 1) k ≡ w) × Only (set_int temp j v) rest (j + 1) k
    → (part whole j (suc k) ≡ v ∷ w) × Only temp whole j (suc k)
pushed temp whole rest j k v w e (p, o) =
    subst (λ f. (part f j (suc k) ≡ v ∷ w) × Only temp f j (suc k)) (sym e)
      (
        ap (λ u. u ∷ part rest (j + 1) k) (o j (inl (omega arith)) ∙ set_int-here temp j v)
            ∙ ap (◌∷◌ v) p,
        λ x q. o x (omega (arith, q)) ∙ set_int-off temp j x v (omega (arith, q)),
      )

module _ (list temp : Ints) (i m j middle end : ℕ) where
  takes_left : Bool
  takes_left = ltb i middle && (leb end m || int_le (list i) (list m))

  loop-done : merge_loop zero list temp i m j middle end ≡ temp
  unfolding merge_loop
  loop-done = refl

  loop-left :
      (k : ℕ)
      → takes_left ≡ true
      → merge_loop (suc k) list temp i m j middle end
        ≡ merge_loop k list (set_int temp j (list i)) (i + 1) m (j + 1) middle end
  unfolding merge_loop takes_left
  loop-left k e = rw e refl

  loop-right :
      (k : ℕ)
      → takes_left ≡ false
      → merge_loop (suc k) list temp i m j middle end
        ≡ merge_loop k list (set_int temp j (list m)) i (m + 1) (j + 1) middle end
  unfolding merge_loop takes_left
  loop-right k e = rw e refl

-- The loop of `merge`, with as many rounds as the parts from `i` up to `middle` and from `m` up to `end`
-- have elements, writes from `j` on what the merge of the two lists gives, and nothing else.
pub merge_loop-weave :
    (k : ℕ) (list temp : Ints) (i m j middle end a b : ℕ)
    → i + a ≡ middle
    → m + b ≡ end
    → a + b ≡ k
    → (part (merge_loop k list temp i m j middle end) j k ≡ weave k (part list i a) (part list m b))
      × Only temp (merge_loop k list temp i m j middle end) j k
unfolding takes_left
merge_loop-weave zero list temp i m j middle end a b e f g =
    rw (loop-done list temp i m j middle end) (refl, λ x o. refl)
merge_loop-weave (suc k) list temp i m j middle end zero zero e f g = absurd (omega (arith, g))
merge_loop-weave (suc k) list temp i m j middle end zero (suc b) e f g =
    let empty : ltb i middle ≡ false = ground (arith, e) in
    pushed temp (merge_loop (suc k) list temp i m j middle end)
      (merge_loop k list (set_int temp j (list m)) i (m + 1) (j + 1) middle end) j k (list m)
      (weave k [] (part list (m + 1) b)) (loop-right list temp i m j middle end k (rw empty refl))
      (merge_loop-weave k list (set_int temp j (list m)) i (m + 1) (j + 1) middle end 0 b e
        (omega (arith, f)) (omega (arith, g)))
merge_loop-weave (suc k) list temp i m j middle end (suc a) zero e f g =
    let given : ltb i middle ≡ true = ground (arith, e) in
    let empty : leb end m ≡ true = ground (arith, f) in
    pushed temp (merge_loop (suc k) list temp i m j middle end)
      (merge_loop k list (set_int temp j (list i)) (i + 1) m (j + 1) middle end) j k (list i)
      (weave k (part list (i + 1) a) [])
      (loop-left list temp i m j middle end k (rw (given, empty) refl))
      (merge_loop-weave k list (set_int temp j (list i)) (i + 1) m (j + 1) middle end a 0
        (omega (arith, e)) f (omega (arith, g)))
merge_loop-weave (suc k) list temp i m j middle end (suc a) (suc b) e f g =
    let given : ltb i middle ≡ true = ground (arith, e) in
    let given' : leb end m ≡ false = ground (arith, f) in
    elim (Bool-cases (int_le (list i) (list m))) [
      | inl l ↦ rw l (
          pushed temp (merge_loop (suc k) list temp i m j middle end)
            (merge_loop k list (set_int temp j (list i)) (i + 1) m (j + 1) middle end) j k (list i)
            (weave k (part list (i + 1) a) (part list m (suc b)))
            (loop-left list temp i m j middle end k (rw (given, given', l) refl))
            (merge_loop-weave k list (set_int temp j (list i)) (i + 1) m (j + 1) middle end a
              (suc b) (omega (arith, e)) f (omega (arith, g))))
      | inr l ↦ rw l (
          pushed temp (merge_loop (suc k) list temp i m j middle end)
            (merge_loop k list (set_int temp j (list m)) i (m + 1) (j + 1) middle end) j k (list m)
            (weave k (part list i (suc a)) (part list (m + 1) b))
            (loop-right list temp i m j middle end k (rw (given, given', l) refl))
            (merge_loop-weave k list (set_int temp j (list m)) i (m + 1) (j + 1) middle end (suc a)
              b e (omega (arith, f)) (omega (arith, g))))
    ]

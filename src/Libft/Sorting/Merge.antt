-- ===== src/Libft/Sorting/Merge.antt =====
-- `merge_sort` sorts: its loop merges two parts of an array as lists are merged.
use ft_malloc.Base.{
  ℕ, zero, suc, ◌+◌, ◌-◌, ◌/◌, ◌<◌, ◌≤◌, ◌≡◌, ◌≢◌, ◌⊎◌, inl, inr, refl, sym, ap, ◌∙◌, subst, false,
  leb, ◌==◌, ◌++◌, arith, Bool-cases,
}
use ft_malloc.Libft.Text.{ℤ}
use ft_malloc.Libft.Sorting.{Ints, set_int, merge_loop, merge_split, copy_ints, merge_sort}
use ft_malloc.Libft.Sorting.Weave.{Sorted, count, count-append, weave-Sorted, weave-count}
use ft_malloc.Libft.Sorting.Loop.{
  part, Only, part-same, part-append, length-part, set_int-here, set_int-off, merge_loop-weave,
}

-- `new` has the elements of `old` from `i` up to `n`, in order.
pub record Sorts (old new : Ints) (i k : ℕ) : Type 0 where
  pub sorted : Sorted (part new i k)
  pub same : (z : ℤ) → count z (part new i k) ≡ count z (part old i k)
  pub others : Only old new i k

-- `merge` of two sorted parts.
merge-Sorts :
    (old list temp : Ints) (i a b : ℕ)
    → Sorted (part list i a)
    → Sorted (part list (i + a) b)
    → ((z : ℤ) → count z (part list i (a + b)) ≡ count z (part old i (a + b)))
    → Only old temp i (a + b)
    → Sorts old (merge_loop (i + (a + b) - i) list temp i (i + a) i (i + a) (i + (a + b))) i (a + b)
merge-Sorts old list temp i a b s t c o =
    let rounds : i + (a + b) - i ≡ a + b = omega arith in
    let (woven, only) =
      merge_loop-weave (a + b) list temp i (i + a) i (i + a) (i + (a + b)) a b refl (omega arith)
        refl in
    rw rounds (record {
      sorted = rw woven (weave-Sorted (a + b) (part list i a) (part list (i + a) b) s t);
      same = λ z.
          ap (count z) woven
          ∙ weave-count z (a + b) (part list i a) (part list (i + a) b)
              (omega (arith, length-part list i a, length-part list (i + a) b))
          ∙ sym (
              ap (count z) (part-append list i a b)
              ∙ count-append z (part list i a) (part list (i + a) b))
          ∙ c z;
      others = λ x q. only x q ∙ o x q;
    })

-- Two halves of `temp` that are sorted one after the other, then merged into `list`.
halves :
    (list temp list1 temp1 list2 temp2 : Ints) (i a b : ℕ)
    → ((x : ℕ) → i ≤ x → x < i + (a + b) → list x ≡ temp x)
    → Sorts temp temp1 i a
    → Only list list1 i a
    → Sorts temp1 temp2 (i + a) b
    → Only list1 list2 (i + a) b
    → Sorts list
        (merge_loop (i + (a + b) - i) temp2 list2 i (i + a) i (i + a) (i + (a + b)))
        i
        (a + b)
      × Only temp temp2 i (a + b)
halves list temp list1 temp1 list2 temp2 i a b e s1 o1 s2 o2 = (
  merge-Sorts list temp2 list2 i a b (subst Sorted (sym front) s1.sorted) s2.sorted counts
      (λ x q. o2 x (omega (arith, q)) ∙ o1 x (omega (arith, q))),
  λ x q. s2.others x (omega (arith, q)) ∙ s1.others x (omega (arith, q)),
)
  where
    front : part temp2 i a ≡ part temp1 i a
    front = part-same temp2 temp1 i a (λ x lo hi. s2.others x (inl hi))

    back : part temp1 (i + a) b ≡ part temp (i + a) b
    back = part-same temp1 temp (i + a) b (λ x lo hi. s1.others x (inr lo))

    before : part list i (a + b) ≡ part temp i a ++ part temp (i + a) b
    before = part-same list temp i (a + b) e ∙ part-append temp i a b

    counts : (z : ℤ) → count z (part temp2 i (a + b)) ≡ count z (part list i (a + b))
    counts z = omega (
      arith,
      ap (count z) (part-append temp2 i a b),
      count-append z (part temp2 i a) (part temp2 (i + a) b),
      ap (count z) front,
      s1.same z,
      s2.same z,
      ap (count z) back,
      ap (count z) before,
      count-append z (part temp i a) (part temp (i + a) b),
    )

-- A part of one element or none is sorted.
short : (list temp : Ints) (i k : ℕ) → k ≤ 1 → Sorts list list i k × Only temp temp i k
short list temp i zero l =
    (record { sorted = tt; same = λ z. refl; others = λ x q. refl }, λ x q. refl)
short list temp i (suc zero) l =
    (record { sorted = (tt, tt); same = λ z. refl; others = λ x q. refl }, λ x q. refl)
short list temp i (suc (suc k)) l = absurd (omega (arith, l))

-- Both arrays keep what is outside the part that is sorted.
BothKept : ℕ → Ints → Ints → (i n k : ℕ) → Type 0
BothKept fuel list temp i n k =
    Sorts list (merge_split fuel list i n temp).0 i k
    × Only temp (merge_split fuel list i n temp).1 i k

split_halves :
    (fuel : ℕ) (list temp : Ints) (i a b : ℕ)
    → leb (i + (a + b) - i) 1 ≡ false
    → (i + (a + b) + i) / 2 ≡ i + a
    → ((x : ℕ) → i ≤ x → x < i + (a + b) → list x ≡ temp x)
    → BothKept fuel temp list i (i + a) a
    → (let first = merge_split fuel temp i (i + a) list in
        BothKept fuel first.0 first.1 (i + a) (i + (a + b)) b)
    → BothKept (suc fuel) list temp i (i + (a + b)) (a + b)
unfolding merge_split BothKept
split_halves fuel list temp i a b many half e (s1, o1) (s2, o2) =
    let first = merge_split fuel temp i (i + a) list in
    let second = merge_split fuel first.0 (i + a) (i + (a + b)) first.1 in
    rw (many, half) (halves list temp first.1 first.0 second.1 second.0 i a b e s1 o1 s2 o2)

merge_split-Sorts :
    (fuel : ℕ) (list temp : Ints) (i k : ℕ)
    → k ≤ fuel
    → ((x : ℕ) → i ≤ x → x < i + k → list x ≡ temp x)
    → BothKept fuel list temp i (i + k) k
unfolding merge_split BothKept
merge_split-Sorts zero list temp i k l e = short list temp i k (omega (arith, l))
merge_split-Sorts (suc fuel) list temp i k l e = elim (Bool-cases (leb (i + k - i) 1)) [
  | inl few ↦ rw few (short list temp i k (ground (arith, few)))
  | inr many ↦
      let a = k / 2 in
      let b = k - k / 2 in
      let two : 2 ≤ k = ground (arith, many) in
      let total : a + b ≡ k = omega arith in
      let half : (i + (a + b) + i) / 2 ≡ i + a = omega arith in
      let end : i + a + b ≡ i + (a + b) = omega arith in
      let first = merge_split fuel temp i (i + a) list in
      let ih =
        merge_split-Sorts fuel temp list i a (omega (arith, l, two))
          (λ x lo hi. sym (e x lo (omega (arith, hi)))) in
      let ih' = merge_split-Sorts fuel first.0 first.1 (i + a) b (omega (arith, l, two)) (λ x lo hi.
        ih.0.others x (inr lo)
        ∙ sym (e x (omega (arith, lo)) (omega (arith, hi, total)))
        ∙ sym (ih.1 x (inr lo))) in
      subst (λ (n : ℕ). BothKept (suc fuel) list temp i (i + n) n) total
        (split_halves fuel list temp i a b (rw total many) half
          (λ x lo hi. e x lo (omega (arith, hi))) ih
          (subst (λ (n : ℕ). BothKept fuel first.0 first.1 (i + a) n b) end ih'))
]

copy_ints-same :
    (k : ℕ) (list temp : Ints) (n x : ℕ)
    → (n ≤ x) × (x < n + k) ⊎ (temp x ≡ list x)
    → copy_ints k list temp n x ≡ list x
unfolding copy_ints
copy_ints-same zero list temp n x (inl q) = absurd (omega (arith, q))
copy_ints-same zero list temp n x (inr q) = q
copy_ints-same (suc k) list temp n x q =
    copy_ints-same k list (set_int temp n (list n)) (n + 1) x (elim (Bool-cases (x == n)) [
      | inl e ↦ let at : x ≡ n = ground (arith, e) in inr (rw at (set_int-here temp n (list n)))
      | inr e ↦
          let ne : x ≢ n = ground (arith, e) in
          elim q [
            | inl between ↦ inl (omega (arith, between, ne))
            | inr same ↦ inr (set_int-off temp n x (list n) ne ∙ same)
          ]
    ])

-- `merge_sort` of the first `n` elements leaves them in ascending order, each as often as before, and
-- the rest of the array as it is.
pub merge_sort-Sorts : (list temp : Ints) (n : ℕ) → Sorts list (merge_sort list n temp).0 0 n
unfolding merge_sort BothKept
merge_sort-Sorts list temp n =
    let all : n ≡ 0 + n = omega arith in
    subst (λ (m : ℕ). Sorts list (merge_split n list 0 m (copy_ints n list temp 0)).0 0 n) (sym all)
      (merge_split-Sorts n list (copy_ints n list temp 0) 0 n (omega arith)
        (λ x lo hi. sym (copy_ints-same n list temp 0 x (inl (omega (arith, hi)))))).0

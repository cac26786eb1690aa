-- ===== src/Libft/Split/Count.antt =====
-- The number of words that `count_split` gives.
use ft_malloc.Base.{
  ℕ, zero, suc, ◌+◌, ◌&&◌, ◌≡◌, ◌≢◌, ◌⊎◌, inl, inr, refl, sym, ap, ◌∙◌, not, true, false, [], ◌∷◌,
  ◌==◌, if◌then◌else◌, drop, arith, All, Bool-cases, ne→==, ==_refl,
}
use ft_malloc.Libft.Strings.{Text, byte_at}
use ft_malloc.Libft.Split.{count_same, word_len, count_loop, count_split}

-- What is behind the leading bytes `c`, the word in front of the next one, and what is behind it.
abbrev pub from_word : Text → ℕ → Text
from_word s c = drop (count_same s c) s

abbrev pub behind_word : Text → ℕ → Text
behind_word t c = drop (word_len t c) t

-- The text is empty or begins with `c`.
abbrev pub Ends : ℕ → Text → Type 0
Ends c [] = Unit {0}
Ends c (x ∷ xs) = x ≡ c

count_loop-add : (t : Text) (c n k : ℕ) → count_loop t c (n + k) ≡ n + count_loop t c k
unfolding count_loop
count_loop-add [] c n k = refl
count_loop-add (x ∷ xs) c n k =
    elim (Bool-cases ((x == c) && not (byte_at xs 0 == c) && not (byte_at xs 0 == 0))) [
      | inl e ↦ rw e (ap (count_loop xs c) (omega arith) ∙ count_loop-add xs c n (k + 1))
      | inr e ↦ rw e (count_loop-add xs c n k)
    ]

module _ (x : ℕ) (xs : Text) (c : ℕ) where
  pub from_word-same : (x == c) ≡ true → from_word (x ∷ xs) c ≡ from_word xs c
  unfolding count_same
  from_word-same e = rw e refl

  pub from_word-other : (x == c) ≡ false → from_word (x ∷ xs) c ≡ x ∷ xs
  unfolding count_same
  from_word-other e = rw e refl

  behind_word-same : (x == c) ≡ true → behind_word (x ∷ xs) c ≡ x ∷ xs
  unfolding word_len
  behind_word-same e = rw e refl

  pub behind_word-other : (x == c) ≡ false → behind_word (x ∷ xs) c ≡ behind_word xs c
  unfolding word_len
  behind_word-other e = rw e refl

  pub count_split-same : (x == c) ≡ true → count_split (x ∷ xs) c ≡ count_split xs c
  unfolding count_split
  count_split-same e = rw (from_word-same e) refl

  pub count_split-other :
      (x == c) ≡ false → x ≢ 0 → count_split (x ∷ xs) c ≡ count_loop (x ∷ xs) c 1
  unfolding count_split byte_at
  count_split-other e n = rw (from_word-other e, ne→== x 0 n) refl

  count_loop-other : (n : ℕ) → (x == c) ≡ false → count_loop (x ∷ xs) c n ≡ count_loop xs c n
  unfolding count_loop
  count_loop-other n e = rw e refl

-- The loop over a word counts what the loop behind it counts.
count_loop-word : (t : Text) (c n : ℕ) → count_loop t c n ≡ count_loop (behind_word t c) c n
unfolding word_len
count_loop-word [] c n = refl
count_loop-word (x ∷ xs) c n = elim (Bool-cases (x == c)) [
  | inl e ↦ ap (λ t. count_loop t c n) (sym (behind_word-same x xs c e))
  | inr e ↦
      count_loop-other x xs c n e
      ∙ count_loop-word xs c n
      ∙ ap (λ t. count_loop t c n) (sym (behind_word-other x xs c e))
]

count_loop-step :
    (x : ℕ) (xs : Text) (c n : ℕ)
    → count_loop (x ∷ xs) c n
      ≡ count_loop xs c
          (if (x == c) && not (byte_at xs 0 == c) && not (byte_at xs 0 == 0) then n + 1 else n)
unfolding count_loop
count_loop-step x xs c n = refl

count_loop-same :
    (x y : ℕ) (ys : Text) (c n : ℕ)
    → x ≡ c
    → y ≢ 0
    → count_loop (x ∷ y ∷ ys) c n ≡ count_loop (y ∷ ys) c (if y == c then n else n + 1)
unfolding byte_at
count_loop-same x y ys c n e z =
    count_loop-step x (y ∷ ys) c n ∙ ap (count_loop (y ∷ ys) c) (ground (arith, e, z))

count_empty : (c : ℕ) → count_split [] c ≡ 0
unfolding count_split count_same count_loop byte_at
count_empty c = refl

nothing : (c n : ℕ) → count_loop [] c n ≡ n
unfolding count_loop
nothing c n = refl

last : (x c n : ℕ) → x ≡ c → count_loop (x ∷ []) c n ≡ n
unfolding count_loop byte_at
last x c n e = ground (arith, e)

-- In front of a byte `c` the loop counts the words that follow.
count_loop-split :
    (t : Text) (c n : ℕ) → All (λ x. x ≢ 0) t → Ends c t → count_loop t c n ≡ n + count_split t c
count_loop-split [] c n a e = omega (arith, nothing c n, count_empty c)
count_loop-split (x ∷ []) c n a e =
    omega (arith, last x c n e, count_empty c, count_split-same x [] c (rw e (==_refl c)))
count_loop-split (x ∷ y ∷ ys) c n a e =
    let same = count_split-same x (y ∷ ys) c (rw e (==_refl c)) in
    elim (Bool-cases (y == c)) [
      | inl w ↦ omega (
        arith,
        same,
        rw w at (count_loop-same x y ys c n e a.1.0),
        count_loop-split (y ∷ ys) c n a.1 (ground (arith, w)),
      )
      | inr w ↦ omega (
        arith,
        same,
        rw w at (count_loop-same x y ys c n e a.1.0),
        count_loop-add (y ∷ ys) c n 1,
        count_split-other y ys c w a.1.0,
      )
    ]

pub All-drop : (P : ℕ → Type 0) (n : ℕ) (t : Text) → All P t → All P (drop n t)
All-drop P n [] a = tt
All-drop P zero (x ∷ xs) a = a
All-drop P (suc n) (x ∷ xs) a = All-drop P n xs a.1

pub behind_word-Ends : (t : Text) (c : ℕ) → Ends c (behind_word t c)
behind_word-Ends [] c = tt
behind_word-Ends (x ∷ xs) c = elim (Bool-cases (x == c)) [
  | inl e ↦ rw (behind_word-same x xs c e) (ground (arith, e))
  | inr e ↦ rw (behind_word-other x xs c e) (behind_word-Ends xs c)
]

-- What `count_split` counts: nothing, where there are only bytes `c`; else the next word, and those
-- behind it.
pub count_split-next :
    (t : Text) (c : ℕ)
    → All (λ x. x ≢ 0) t
    → (from_word t c ≡ []) × (count_split t c ≡ 0)
      ⊎ (from_word t c ≢ [])
        × (count_split t c ≡ suc (count_split (behind_word (from_word t c) c) c))
count_split-next [] c a = inl (refl, count_empty c)
count_split-next (x ∷ xs) c a = elim (Bool-cases (x == c)) [
  | inl e ↦ rw (from_word-same x xs c e, count_split-same x xs c e) (count_split-next xs c a.1)
  | inr e ↦
      let rest = behind_word (x ∷ xs) c in
      rw (from_word-other x xs c e) (
        inr (
          λ w. cc,
          count_split-other x xs c e a.0
              ∙ count_loop-word (x ∷ xs) c 1
              ∙ count_loop-split rest c 1 (All-drop (λ x. x ≢ 0) (word_len (x ∷ xs) c) (x ∷ xs) a)
                  (behind_word-Ends (x ∷ xs) c)
              ∙ omega arith,
        ))
]

-- ===== src/Libft/Split/Words.antt =====
-- The words that `ft_split` gives, and what is left in use where it fails.
use ft_malloc.Base.{
  ℕ, zero, suc, ◌+◌, ◌-◌, ◌≤◌, ◌≡◌, ◌≢◌, inl, inr, refl, sym, ap, ◌∙◌, subst, true, Bool, Option,
  none, some, List, [], ◌∷◌, ◌++◌, ◌==◌, leb, length, take, drop, arith, All, Bool-cases,
  append_assoc, append-nil, length-append,
}
use ft_malloc.Libft.Strings.{
  Text, Store, get_memory, free_block, free_texts, new_text, ft_substr, is_null, text_of,
}
use ft_malloc.Libft.Split.{count_same, word_len, count_split, free_split, split_loop, ft_split}
use ft_malloc.Libft.Split.Count.{
  from_word, behind_word, Ends, from_word-same, from_word-other, count_split-next, All-drop,
  behind_word-Ends,
}

-- The words of a text: the longest runs of bytes other than `c`.
pub data Splits (c : ℕ) : Text → List Text → Type 0 where
  ended : Splits c [] []
  skipped : (xs : Text) (ws : List Text) → Splits c xs ws → Splits c (c ∷ xs) ws
  word :
      (w rest : Text) (ws : List Text)
      → w ≢ []
      → All (λ x. x ≢ c) w
      → Ends c rest
      → Splits c rest ws
      → Splits c (w ++ rest) (w ∷ ws)

Splits-from_word : (c : ℕ) (t : Text) (ws : List Text) → Splits c (from_word t c) ws → Splits c t ws
Splits-from_word c [] ws s = s
Splits-from_word c (x ∷ xs) ws s = elim (Bool-cases (x == c)) [
  | inl e ↦
      let same : c ≡ x = ground (arith, e) in
      subst (λ y. Splits c (y ∷ xs) ws) same
        (skipped xs ws
          (Splits-from_word c xs ws (subst (λ t. Splits c t ws) (from_word-same x xs c e) s)))
  | inr e ↦ subst (λ t. Splits c t ws) (from_word-other x xs c e) s
]

-- The word at the beginning of a text.
abbrev first_word : Text → ℕ → Text
first_word t c = take (word_len t c) t

first_word-append : (t : Text) (c : ℕ) → first_word t c ++ behind_word t c ≡ t
unfolding word_len
first_word-append [] c = refl
first_word-append (x ∷ xs) c = elim (Bool-cases (x == c)) [
  | inl e ↦ rw e refl
  | inr e ↦ rw e (ap (◌∷◌ x) (first_word-append xs c))
]

first_word-All : (t : Text) (c : ℕ) → All (λ x. x ≢ c) (first_word t c)
unfolding word_len
first_word-All [] c = tt
first_word-All (x ∷ xs) c = elim (Bool-cases (x == c)) [
  | inl e ↦ rw e tt
  | inr e ↦ rw e (ground (arith, e), first_word-All xs c)
]

-- What is left behind the bytes `c` begins with another byte.
from_word-first : (t : Text) (c : ℕ) → from_word t c ≢ [] → first_word (from_word t c) c ≢ []
unfolding word_len
from_word-first [] c n = absurd (n refl)
from_word-first (x ∷ xs) c n = elim (Bool-cases (x == c)) [
  | inl e ↦
      subst (λ u. first_word u c ≢ []) (sym (from_word-same x xs c e))
        (from_word-first xs c (λ w. n (from_word-same x xs c e ∙ w)))
  | inr e ↦ subst (λ u. first_word u c ≢ []) (sym (from_word-other x xs c e)) (rw e (λ w. cc))
]

drop-drop : (a b : ℕ) (t : Text) → drop (a + b) t ≡ drop b (drop a t)
drop-drop a b [] = refl
drop-drop zero b (x ∷ xs) = ap (λ n. drop n (x ∷ xs)) (omega arith)
drop-drop (suc a) b (x ∷ xs) =
    let e : suc a + b ≡ suc (a + b) = omega arith in ap (λ n. drop n (x ∷ xs)) e ∙ drop-drop a b xs

drop-past : (n : ℕ) (t : Text) → length t ≤ n → drop n t ≡ []
drop-past n [] h = refl
drop-past zero (x ∷ xs) h = absurd (omega (arith, h))
drop-past (suc n) (x ∷ xs) h = drop-past n xs (omega (arith, h))

-- The blocks that the array and its texts take.
abbrev pub texts_blocks : Option (List Text) → ℕ
texts_blocks none = 0
texts_blocks (some ts) = 1 + length ts

drop-zero : (t : Text) → drop 0 t ≡ t
drop-zero [] = refl
drop-zero (x ∷ xs) = refl

module _ (grant : ℕ → Bool) where
  -- The bytes at a place, also where it is behind the text.
  ft_substr-taken :
      (st : Store) (s : Text) (n len : ℕ)
      → ft_substr grant st s n len ≡ new_text grant st (take len (drop n s))
  unfolding ft_substr
  ft_substr-taken st s n len = elim (Bool-cases (leb (length s) n)) [
    | inl e ↦ rw (e, drop-past n s (ground (arith, e))) refl
    | inr e ↦ rw e refl
  ]

  -- `k` further words, from the place `n` on.
  abbrev Gives : (k : ℕ) → Store → List Text → Text → (n c : ℕ) → Type 0
  Gives k st array s n c =
      (new : Store) × (ws : List Text) × (split_loop grant k st array s n c
        ≡ (new, some (array ++ ws)))
      × Splits c (drop n s) ws
      × (new.held ≡ st.held + length ws)

  split_loop-Splits :
      ((n : ℕ) → grant n ≡ true)
      → (k : ℕ) (st : Store) (array : List Text) (s : Text) (n c : ℕ) → All (λ x. x ≢ 0) s
      → count_split (drop n s) c ≡ k
      → Gives k st array s n c
  unfolding split_loop new_text get_memory is_null text_of
  split_loop-Splits g zero st array s n c a e =
      elim (count_split-next (drop n s) c (All-drop _ n s a)) [
        | inl (none_left, z) ↦ (
          st,
          [],
          rw (append-nil array) refl,
          Splits-from_word c (drop n s) [] (subst (λ t. Splits c t []) (sym none_left) ended),
          omega arith,
        )
        | inr (more, z) ↦ absurd (omega (arith, z, e))
      ]
  split_loop-Splits g (suc k) st array s n c a e =
      elim (count_split-next (drop n s) c (All-drop _ n s a)) [
        | inl (none_left, z) ↦ absurd (omega (arith, z, e))
        | inr (more, z) ↦
            let u = drop n s in
            let from = n + count_same u c in
            let t = from_word u c in
            let here : drop from s ≡ t = drop-drop n (count_same u c) s in
            let w = first_word t c in
            let st1 : Store = record { calls = st.calls + 1; held = st.held + 1 } in
            let behind : drop (from + word_len t c) s ≡ behind_word t c =
              drop-drop from (word_len t c) s ∙ ap (drop (word_len t c)) here in
            let (new, ws, ran, splits, held) =
              split_loop-Splits g k st1 (array ++ w ∷ []) s (from + word_len t c) c a
                (rw behind (omega (arith, z, e))) in
            (
              new,
              w ∷ ws,
              rw (ft_substr-taken st s from (word_len (drop from s) c), here, g st.calls)
                  (ran ∙ rw (append_assoc array (w ∷ []) ws) refl),
              Splits-from_word c u (w ∷ ws) (
                  subst (λ v. Splits c v (w ∷ ws)) (first_word-append t c)
                    (word w (behind_word t c) ws (from_word-first u c more) (first_word-All t c)
                      (behind_word-Ends t c) (subst (λ v. Splits c v ws) behind splits))),
              omega (arith, held),
            )
      ]

  free_texts-held :
      (ts : List Text) (st : Store)
      → 1 + length ts ≤ st.held
      → (free_texts ts st).held + 1 + length ts ≡ st.held
  unfolding free_texts free_block
  free_texts-held [] st h = omega (arith, h)
  free_texts-held (t ∷ ts) st h =
      omega (arith, h, free_texts-held ts (record st { held = st.held - 1 }) (omega (arith, h)))

  split_loop-held :
      (k : ℕ) (st : Store) (array : List Text) (s : Text) (n c : ℕ)
      → 1 + length array ≤ st.held
      → (split_loop grant k st array s n c).0.held + 1 + length array
        ≡ st.held + texts_blocks (split_loop grant k st array s n c).1
  unfolding split_loop new_text get_memory is_null text_of free_split
  split_loop-held zero st array s n c h = omega arith
  split_loop-held (suc k) st array s n c h =
      let from = n + count_same (drop n s) c in
      let w = take (word_len (drop from s) c) (drop from s) in
      let end = from + word_len (drop from s) c in
      rw (ft_substr-taken st s from (word_len (drop from s) c))
        (elim (Bool-cases (grant st.calls)) [
          | inl e ↦
              let st1 : Store = record { calls = st.calls + 1; held = st.held + 1 } in
              rw e (
                omega (
                  arith,
                  split_loop-held k st1 (array ++ w ∷ []) s end c
                      (omega (arith, h, length-append array (w ∷ []))),
                  length-append array (w ∷ []),
                ))
          | inr e ↦
              let st1 : Store = record { calls = st.calls + 1; held = st.held } in
              rw e (omega (arith, free_texts-held array st1 h))
        ])

-- Where each `malloc` gives memory, `ft_split` gives the words of the text, the longest runs of
-- bytes other than `c`, in their order, and a block is in use for each of them and for the array.
pub ft_split-Splits :
    (grant : ℕ → Bool)
    → ((n : ℕ) → grant n ≡ true)
    → (st : Store) (s : Text) (c : ℕ) → All (λ x. x ≢ 0) s
    → (new : Store) × (ws : List Text) × (ft_split grant st s c ≡ (new, some ws))
      × Splits c s ws
      × (new.held ≡ st.held + 1 + length ws)
unfolding ft_split get_memory
ft_split-Splits grant g st s c a =
    let st1 : Store = record { calls = st.calls + 1; held = st.held + 1 } in
    let (new, ws, ran, splits, held) =
      split_loop-Splits grant g (count_split s c) st1 [] s 0 c a
        (ap (λ t. count_split t c) (drop-zero s)) in
    (new, ws, rw (g st.calls) ran, subst (λ t. Splits c t ws) (drop-zero s) splits, held)

-- Whatever `malloc` gives, `ft_split` leaves in use the array and the texts that it returns and
-- nothing else: where a text cannot be allocated, those of before are freed, and the array.
pub ft_split-held :
    (grant : ℕ → Bool) (st : Store) (s : Text) (c : ℕ)
    → (ft_split grant st s c).0.held ≡ st.held + texts_blocks (ft_split grant st s c).1
unfolding ft_split get_memory
ft_split-held grant st s c = elim (Bool-cases (grant st.calls)) [
  | inl e ↦
      let st1 : Store = record { calls = st.calls + 1; held = st.held + 1 } in
      rw e (omega (arith, split_loop-held grant (count_split s c) st1 [] s 0 c (omega arith)))
  | inr e ↦ rw e (omega arith)
]

-- ===== src/Libft/Strings/Arrays.antt =====
-- What the functions on arrays of texts give.
use ft_malloc.Base.{
  ℕ, suc, ◌+◌, ◌-◌, ◌≤◌, ◌<◌, ◌≡◌, inl, inr, refl, sym, ap, ◌∙◌, Bool, true, some, List, [], ◌∷◌,
  ◌++◌, leb, ◌==◌, if◌then◌else◌, length, arith, Bool-cases, length-append, append_assoc,
  append-nil, take-whole,
}
use ft_malloc.Libft.Strings.{
  Text, Store, get_memory, new_text, array_len, array_char_len, append_text, to_str_loop,
  array_to_str,
}

-- The separator between two texts, which is nothing for a NUL.
abbrev between : ℕ → Text
between spliter = if spliter == 0 then [] else spliter ∷ []

-- The texts one after the other, with the separator between them.
abbrev joined : ℕ → List Text → Text
joined spliter [] = []
joined spliter (t ∷ []) = t
joined spliter (t ∷ u ∷ ts) = t ++ (between spliter ++ joined spliter (u ∷ ts))

-- Where there is room, nothing is cut off.
append_text-whole :
    (dest src : Text) (size : ℕ)
    → length dest + length src < size
    → append_text dest src size ≡ dest ++ src
unfolding append_text
append_text-whole dest src size l = elim (Bool-cases (leb size (length dest))) [
  | inl e ↦ absurd (ground (arith, e, l))
  | inr e ↦ rw (e, take-whole (size - length dest - 1) src (omega (arith, l))) refl
]

added :
    (len spliter : ℕ) (str t : Text)
    → length str + length t + length (between spliter) ≤ len
    → (if spliter == 0
        then append_text str t (len + 1)
        else append_text (append_text str t (len + 1)) (spliter ∷ []) (len + 1))
      ≡ str ++ (t ++ between spliter)
added len spliter str t l = elim (Bool-cases (spliter == 0)) [
  | inl e ↦ rw (e, append-nil t) (append_text-whole str t (len + 1) (omega (arith, l)))
  | inr e ↦
      let fits : length str + length t + 1 ≤ len = rw e at l in
      rw (e, append_text-whole str t (len + 1) (omega (arith, fits)))
        (append_text-whole (str ++ t) (spliter ∷ []) (len + 1)
            (omega (arith, fits, length-append str t))
          ∙ append_assoc str t (spliter ∷ []))
]

to_str_loop-joined :
    (len spliter : ℕ) (str : Text) (ts : List Text)
    → length str + length (joined spliter ts) ≤ len
    → to_str_loop len spliter str ts ≡ str ++ joined spliter ts
unfolding to_str_loop
to_str_loop-joined len spliter str [] l = sym (append-nil str)
to_str_loop-joined len spliter str (t ∷ []) l = append_text-whole str t (len + 1) (omega (arith, l))
to_str_loop-joined len spliter str (t ∷ u ∷ ts) l =
    let rest = joined spliter (u ∷ ts) in
    let sum : length (t ++ (between spliter ++ rest))
        ≡ length t + length (between spliter) + length rest =
      omega
        (arith, length-append t (between spliter ++ rest), length-append (between spliter) rest) in
    let next : Text = str ++ (t ++ between spliter) in
    rw (added len spliter str t (omega (arith, l, sum))) (
      to_str_loop-joined len spliter next (u ∷ ts) (
        omega (
          arith,
          l,
          sum,
          length-append str (t ++ between spliter),
          length-append t (between spliter),
        ))
      ∙ append_assoc str (t ++ between spliter) rest
      ∙ ap (λ v. str ++ v) (append_assoc t (between spliter) rest))

length-between :
    (spliter n : ℕ)
    → length (between spliter) + (if spliter == 0 then 0 else suc n)
      ≡ (if spliter == 0 then 0 else suc (suc n))
length-between spliter n = elim (Bool-cases (spliter == 0)) [
  | inl e ↦ rw e refl
  | inr e ↦ rw e (omega arith)
]

length-joined :
    (spliter : ℕ) (ts : List Text)
    → length (joined spliter ts) ≤ array_char_len ts + (if spliter == 0 then 0 else length ts)
unfolding array_char_len
length-joined spliter [] = omega arith
length-joined spliter (t ∷ []) = omega arith
length-joined spliter (t ∷ u ∷ ts) = omega (
  arith,
  length-joined spliter (u ∷ ts),
  length-append t (between spliter ++ joined spliter (u ∷ ts)),
  length-append (between spliter) (joined spliter (u ∷ ts)),
  length-between spliter (length ts),
)

-- The memory that is asked for the bytes.
abbrev room : List Text → ℕ → ℕ
room array spliter =
    if spliter == 0 then array_char_len array else array_char_len array + length array

fits : (array : List Text) (spliter : ℕ) → length (joined spliter array) ≤ room array spliter
fits array spliter =
    let le = length-joined spliter array in
    elim (Bool-cases (spliter == 0)) [
      | inl e ↦ rw e (omega (arith, rw e at le))
      | inr e ↦ rw e (omega (arith, rw e at le))
    ]

-- If `malloc` gives memory, `array_to_str` gives all bytes of the texts, one text after the other with
-- the separator between them, in one new block; a NUL as separator is none.
array_to_str-joined :
    (grant : ℕ → Bool) (st : Store) (array : List Text) (spliter : ℕ)
    → grant st.calls ≡ true
    → (new : Store) × (array_to_str grant st array spliter ≡ (new, some (joined spliter array)))
      × (new.held ≡ st.held + 1)
unfolding array_to_str new_text get_memory array_len
array_to_str-joined grant st array spliter g = (
  record { calls = st.calls + 1; held = st.held + 1 },
  rw
      (
        g,
        to_str_loop-joined (room array spliter) spliter [] array
            (omega (arith, fits array spliter)),
      )
      refl,
  omega arith,
)

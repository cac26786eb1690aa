-- ===== src/Libft/Strings/Trim.antt =====
-- What `ft_strtrim` leaves of a text.
use ft_malloc.Base.{
  All-map, sym, ◌∙◌, ◌%◌, ℕ, zero, suc, ◌+◌, ◌≤◌, ◌<◌, ◌≡◌, ◌⊎◌, inl, inr, refl, ap, Bool, true,
  false, some, [], ◌∷◌, ◌++◌, leb, ◌==◌, length, take, arith, All, Bool-cases,
}
use ft_malloc.Libft.Text.{char_is}
use ft_malloc.Libft.Strings.{
  Text, Store, get_memory, new_text, ft_substr, in_set, byte_at, trim_front, trim_end, ft_strtrim,
}

-- The bytes `front` in the set are skipped, and `s` is left, with another byte first.
abbrev Begins : Text → Text → Text → Text → Type 0
Begins set s1 front s =
    (s1 ≡ front ++ s)
    × All (λ x. in_set set x ≡ true) front
    × ((s ≡ []) ⊎ (in_set set (byte_at s 0) ≡ false))

trim_front-Begins : (set s1 : Text) → (front : Text) × Begins set s1 front (trim_front set s1)
unfolding trim_front byte_at
trim_front-Begins set [] = ([], (refl, tt, inl refl))
trim_front-Begins set (x ∷ xs) = elim (Bool-cases (in_set set x)) [
  | inl e ↦
      let (front, (split, all, first)) = trim_front-Begins set xs in
      (x ∷ front, rw e (ap (◌∷◌ x) split, (refl, all), first))
  | inr e ↦ ([], rw e (refl, tt, inr e))
]

-- From `i` down, the bytes behind the place `j` are in the set, and the one at it is not.
abbrev Stops : Text → Text → (i j : ℕ) → Type 0
Stops set s i j =
    (j ≤ i)
    × ((k : ℕ) → j < k → k ≤ i → in_set set (byte_at s k) ≡ true)
    × ((j ≡ 0) ⊎ (in_set set (byte_at s j) ≡ false))

trim_end-Stops : (set s : Text) (i : ℕ) → Stops set s i (trim_end set s i)
unfolding trim_end
trim_end-Stops set s zero = (omega arith, λ k l h. absurd (omega (arith, l, h)), inl refl)
trim_end-Stops set s (suc i) = elim (Bool-cases (in_set set (byte_at s (suc i)))) [
  | inl e ↦
      let (le, all, stop) = trim_end-Stops set s i in
      rw e (
        omega (arith, le),
        λ k l h. elim (Bool-cases (k == suc i)) [
          | inl f ↦ let same : k ≡ suc i = ground (arith, f) in rw same e
          | inr f ↦ all k l (ground (arith, f, h))
        ],
        stop,
      )
  | inr e ↦ rw e (omega arith, λ k l h. absurd (omega (arith, l, h)), inr e)
]

-- The byte stands in the text.
abbrev pub Among : ℕ → Text → Type 0
Among c [] = ⊥
Among c (x ∷ xs) = (x ≡ c) ⊎ Among c xs

-- What is stripped: the bytes of the set below 128, and the NUL, which ends every set.
abbrev pub Strips : Text → ℕ → Type 0
Strips set c = (c % 256 < 128) × ((c % 256 ≡ 0) ⊎ Among (c % 256) set)

in_set-Strips : (set : Text) (c : ℕ) → in_set set c ≡ true → Strips set c
unfolding in_set char_is
in_set-Strips [] c e = let z : c % 256 ≡ 0 = ground (arith, e) in (omega (arith, z), inl z)
in_set-Strips (x ∷ xs) c e = elim (Bool-cases (char_is x c)) [
  | inl f ↦ let same : x ≡ c % 256 = ground (arith, f) in (ground (arith, f, same), inr (inl same))
  | inr f ↦
      let (low, more) = in_set-Strips xs c (ground (arith, e, f)) in
      (low, elim more [ inl z ↦ inl z | inr m ↦ inr (inr m) ])
]

Strips-in_set :
    (set : Text) (c : ℕ) → c % 256 < 128 → (c % 256 ≡ 0) ⊎ Among (c % 256) set → in_set set c ≡ true
unfolding in_set char_is
Strips-in_set [] c l (inl z) = ground (arith, z)
Strips-in_set [] c l (inr m) = absurd m
Strips-in_set (x ∷ xs) c l (inl z) = ground (arith, Strips-in_set xs c l (inl z))
Strips-in_set (x ∷ xs) c l (inr (inl same)) = ground (arith, same, l)
Strips-in_set (x ∷ xs) c l (inr (inr m)) = ground (arith, Strips-in_set xs c l (inr m))

in_set-kept : (set : Text) (c : ℕ) → in_set set c ≡ false → ¬ Strips set c
in_set-kept set c e (low, m) = absurd (apart (sym e ∙ Strips-in_set set c low m))
  where
    apart : ¬ (false ≡ true)
    apart e = cc

-- `r` is the text without the stripped bytes at its ends: those in front of `s` and those behind
-- the first `n` bytes of `s` are stripped ones, and the first and the last of these are not.
abbrev pub Trimmed : Text → Text → Text → Type 0
Trimmed set s1 r =
    (front : Text) × (s : Text) × (n : ℕ) × (s1 ≡ front ++ s)
    × (r ≡ take n s)
    × All (λ x. Strips set x) front
    × ((k : ℕ) → n ≤ k → k < length s → Strips set (byte_at s k))
    × ((s ≡ []) ⊎ ¬ Strips set (byte_at s 0) × (j : ℕ) × (n ≡ suc j) × ¬ Strips set (byte_at s j))

ends :
    (set s : Text) (j : ℕ)
    → (s ≡ []) ⊎ (in_set set (byte_at s 0) ≡ false)
    → (j ≡ 0) ⊎ (in_set set (byte_at s j) ≡ false)
    → (s ≡ []) ⊎ ¬ Strips set (byte_at s 0) × (k : ℕ) × (j + 1 ≡ suc k) × ¬ Strips set (byte_at s k)
ends set s j (inl e) stop = inl e
ends set s j (inr first) (inl z) =
    let kept = in_set-kept set (byte_at s 0) first in inr (kept, j, omega arith, rw z kept)
ends set s j (inr first) (inr last) =
    inr (in_set-kept set (byte_at s 0) first, j, omega arith, in_set-kept set (byte_at s j) last)

ft_substr-start :
    (grant : ℕ → Bool) (st : Store) (s : Text) (n : ℕ)
    → (grant st.calls ≡ true)
    → (new : Store) × (ft_substr grant st s 0 n ≡ (new, some (take n s))) × (new.held ≡ st.held + 1)
unfolding ft_substr new_text get_memory
ft_substr-start grant st [] n g =
    (record { calls = st.calls + 1; held = st.held + 1 }, rw g refl, omega arith)
ft_substr-start grant st (x ∷ xs) n g =
    (record { calls = st.calls + 1; held = st.held + 1 }, rw (g, above) refl, omega arith)
  where
    above : leb (suc (length xs)) 0 ≡ false
    above = ground arith

-- If `malloc` gives memory, `ft_strtrim` gives the text without the bytes at its ends that stand in the
-- set and are below 128, in one new block. Bytes from 128 on are left, also where the set has them.
pub ft_strtrim-Trimmed :
    (grant : ℕ → Bool) (st : Store) (s1 set : Text)
    → grant st.calls ≡ true
    → (new : Store) × (r : Text) × (ft_strtrim grant st (some s1) (some set) ≡ (new, some r))
      × Trimmed set s1 r
      × (new.held ≡ st.held + 1)
unfolding ft_strtrim
ft_strtrim-Trimmed grant st s1 set g =
    let s = trim_front set s1 in
    let j = trim_end set s (length s) in
    let (front, (split, all, first)) = trim_front-Begins set s1 in
    let (le, back, stop) = trim_end-Stops set s (length s) in
    let (new, ran, held) = ft_substr-start grant st s (j + 1) g in
    (
      new,
      take (j + 1) s,
      ran,
      (
        front,
        s,
        j + 1,
        split,
        refl,
        All-map _ _ front (λ x e. in_set-Strips set x e) all,
        λ k l h. in_set-Strips set (byte_at s k) (back k (omega (arith, l)) (omega (arith, h))),
        ends set s j first stop,
      ),
      held,
    )

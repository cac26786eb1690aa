-- ===== src/Libft/Lines/Stream.antt =====
-- What the lines are that `get_next_line` gives, when no read and no allocation fails.
use ft_malloc.Base.{
  ℕ, ◌+◌, ◌<◌, ◌≡◌, ◌≢◌, ◌⊎◌, inl, inr, refl, ap, subst, ◌∙◌, true, false, Bool, Option, none, some,
  [], ◌∷◌, ◌++◌, append_assoc, arith, Bool-cases, le→ltb, ne→==, ==_refl, All, ◌==◌,
}
use ft_malloc.Libft.Text.{pos}
use ft_malloc.Libft.Strings.{Text, Store, get_memory, free_block, up_to_null, is_null, text_of}
use ft_malloc.Libft.Lines.{
  Reads, has_newline, text_has_newline, behind_newline, up_to_newline, order_nl, substr_nl,
  join_texts, strjoin_nl, ReadLine, gave, read_loop, read_nl, Line, line_result, take_line,
  next_line, Temps, set_temp, get_next_line,
}

-- A read that gives bytes, none of them NUL.
abbrev pub IsChunk : Option Text → Type 0
IsChunk none = ¬ Unit {0}
IsChunk (some []) = ¬ Unit {0}
IsChunk (some (b ∷ bs)) = All (λ x. x ≢ 0) (b ∷ bs)

-- The bytes that the reads give until the end of the file.
abbrev pub bytes_of : Reads → Text
bytes_of [] = []
bytes_of (none ∷ rs) = bytes_of rs
bytes_of (some t ∷ rs) = t ++ bytes_of rs

-- What is still to be given: the text that is kept, and what the reads give.
abbrev pub pending : Option Text → Reads → Text
pending t rs = text_of t ++ bytes_of rs

-- A line with what follows it: only its last byte may be a newline, and it is one unless the line
-- is the last.
abbrev pub IsLine : Text → Text → Type 0
IsLine [] rest = ¬ Unit {0}
IsLine (x ∷ []) rest = (x ≡ 10) ⊎ (rest ≡ [])
IsLine (x ∷ y ∷ ys) rest = (x ≢ 10) × IsLine (y ∷ ys) rest

-- The first line of the text, if it has one, and what follows it.
abbrev pub FirstLine : Text → Option Text → Text → Type 0
FirstLine text none rest = (text ≡ []) × (rest ≡ [])
FirstLine text (some l) rest = (text ≡ l ++ rest) × IsLine l rest

up_to_null-whole : (t : Text) → All (λ x. x ≢ 0) t → up_to_null t ≡ t
unfolding up_to_null
up_to_null-whole [] a = refl
up_to_null-whole (x ∷ xs) a = rw (ne→== x 0 a.0, up_to_null-whole xs a.1) refl

IsLine-cons : (x : ℕ) (l rest : Text) → x ≢ 10 → IsLine l rest → IsLine (x ∷ l) rest
IsLine-cons x [] rest n i = absurd (i tt)
IsLine-cons x (y ∷ ys) rest n i = (n, i)

-- The text up to the first newline and what is behind it.
divided :
    (x : ℕ) (xs more : Text)
    → (has_newline (x ∷ xs) ≡ true) ⊎ (more ≡ [])
    → FirstLine ((x ∷ xs) ++ more) (some (up_to_newline (x ∷ xs))) (behind_newline (x ∷ xs) ++ more)
unfolding has_newline up_to_newline behind_newline
divided x [] more h = elim (Bool-cases (x == 10)) [
  | inl e ↦ rw e (refl, inl (ground (arith, e)))
  | inr e ↦ rw e (refl, inr (ground (arith, e, h)))
]
divided x (y ∷ ys) more h = elim (Bool-cases (x == 10)) [
  | inl e ↦ rw e (refl, inl (ground (arith, e)))
  | inr e ↦
      let rest = divided y ys more (ground (arith, e, h)) in
      rw e (
        ap (◌∷◌ x) rest.0,
        IsLine-cons x (up_to_newline (y ∷ ys)) (behind_newline (y ∷ ys) ++ more) (ground (arith, e))
            rest.1,
      )
]

-- What the loop leaves: the text and the reads left are all there was, and a line can be taken.
abbrev Ready : Option Text → Reads → ReadLine → Type 0
Ready str rs got =
    (pending got.text got.reads ≡ pending str rs)
    × All IsChunk got.reads
    × ((text_has_newline got.text ≡ true) ⊎ (got.reads ≡ []))

module _ (grant : ℕ → Bool) (granted : (n : ℕ) → grant n ≡ true) where
  joined_text :
      (st : Store) (str : Option Text) (t : Text)
      → (strjoin_nl grant st str (some t)).1 ≡ some (text_of str ++ t)
  unfolding strjoin_nl join_texts get_memory free_block text_of
  joined_text st none t = rw (granted st.calls, granted (st.calls + 1)) refl
  joined_text st (some s) t = rw (granted st.calls) refl

  read_loop-Ready :
      (rs : Reads) (st : Store) (str : Option Text)
      → All IsChunk rs
      → Ready str rs (read_loop grant rs st str)
  unfolding read_loop gave is_null text_of
  read_loop-Ready [] st str a = (refl, tt, inr refl)
  read_loop-Ready (none ∷ rs) st str a = absurd (a.0 tt)
  read_loop-Ready (some [] ∷ rs) st str a = absurd (a.0 tt)
  read_loop-Ready (some (b ∷ bs) ∷ rs) st str a = elim (Bool-cases (text_has_newline str)) [
    | inl e ↦ rw e (refl, a, inl e)
    | inr e ↦
        let joined = strjoin_nl grant st str (some (up_to_null (b ∷ bs))) in
        let text : joined.1 ≡ some (text_of str ++ b ∷ bs) =
          joined_text st str (up_to_null (b ∷ bs))
          ∙ ap (λ t. some (text_of str ++ t)) (up_to_null-whole (b ∷ bs) a.0) in
        let (all, chunks, stop) = read_loop-Ready rs joined.0 (some (text_of str ++ b ∷ bs)) a.1 in
        rw (e, text) (all ∙ append_assoc (text_of str) (b ∷ bs) (bytes_of rs), chunks, stop)
  ]

  order_nl-whole :
      (st : Store) (t : Text)
      → ((order_nl grant st t).1 ≡ some (behind_newline t)) × (has_newline t ≡ true)
        ⊎ ((order_nl grant st t).1 ≡ none) × (has_newline t ≡ false)
  unfolding order_nl get_memory
  order_nl-whole st t = elim (Bool-cases (has_newline t)) [
    | inl e ↦ inl (rw (e, granted st.calls) refl, e)
    | inr e ↦ inr (rw e refl, e)
  ]

  behind-none : (t : Text) → has_newline t ≡ false → behind_newline t ≡ []
  unfolding has_newline behind_newline
  behind-none [] e = refl
  behind-none (x ∷ xs) e = ground (arith, e, behind-none xs)

  abbrev Took : Text → Line → Type 0
  Took text got = FirstLine text got.line (pending got.temp got.reads) × All IsChunk got.reads

  take_line-Took :
      (st : Store) (rs : Reads) (text : Option Text)
      → All IsChunk rs
      → (text_has_newline text ≡ true) ⊎ (rs ≡ [])
      → Took (pending text rs) (take_line grant st rs text)
  unfolding text_of take_line substr_nl line_result is_null get_memory text_has_newline has_newline
  take_line-Took st rs none a e = elim e [ inl k ↦ absurd (cc) | inr k ↦ rw k ((refl, refl), tt) ]
  take_line-Took st rs (some []) a e = elim e [
    | inl k ↦ absurd (cc)
    | inr k ↦ rw k ((refl, refl), tt)
  ]
  take_line-Took st rs (some (x ∷ xs)) a e =
      let left : Store = record { calls = st.calls + 1; held = st.held + 1 } in
      rw (granted st.calls) (elim (order_nl-whole left (x ∷ xs)) [
        | inl (w, nl) ↦ rw w (divided x xs (bytes_of rs) (inl nl), a)
        | inr (w, last) ↦
            let ended : rs ≡ [] = elim e [ inl k ↦ absurd (cc) | inr k ↦ k ] in
            rw (w, ended)
              (
                subst (FirstLine ((x ∷ xs) ++ []) (some (up_to_newline (x ∷ xs))))
                    (ap (λ t. t ++ []) (behind-none (x ∷ xs) last)) (divided x xs [] (inr refl)),
                tt,
              )
      ])

  next_line-Took :
      (st : Store) (rs : Reads) (temp : Option Text)
      → All IsChunk rs
      → Took (pending temp rs) (next_line grant st rs temp)
  unfolding next_line read_nl get_memory
  next_line-Took st rs temp a =
      let opened : Store = record { calls = st.calls + 1; held = st.held + 1 } in
      let got = read_loop grant rs opened temp in
      let (all, chunks, stop) = read_loop-Ready rs opened temp a in
      rw (granted st.calls) (
        subst (λ t. Took t (take_line grant got.store got.reads got.text)) all
          (take_line-Took got.store got.reads got.text chunks stop))

-- Where each read gives bytes, none of them NUL, until the file ends, and each `malloc` gives
-- memory, a call of `get_next_line` for an entry of its array gives the first line of what is still
-- to be given, however the reads divide it; or NULL, if that is nothing. What follows the line is
-- then still to be given, and the other entries are as before.
pub get_next_line-FirstLine :
    (grant : ℕ → Bool)
    → ((n : ℕ) → grant n ≡ true)
    → (open_max : ℕ) (st : Store) (rs : Reads) (temps : Temps) (fd : ℕ) → fd < open_max
    → All IsChunk rs
    → (got : Line) × (new : Temps) × (get_next_line grant open_max st rs temps (pos fd)
        ≡ some (got, new))
      × FirstLine (pending (temps fd) rs) got.line (pending (new fd) got.reads)
      × All IsChunk got.reads
      × ((x : ℕ) → x ≢ fd → new x ≡ temps x)
unfolding get_next_line set_temp
get_next_line-FirstLine grant granted open_max st rs temps fd l a =
    let got = next_line grant st rs (temps fd) in
    let (first, chunks) = next_line-Took grant granted st rs (temps fd) a in
    (
      got,
      set_temp temps fd got.temp,
      rw (le→ltb open_max fd (omega arith), ne→== fd open_max (omega arith)) refl,
      rw (==_refl fd) first,
      chunks,
      λ x n. rw (ne→== x fd n) refl,
    )

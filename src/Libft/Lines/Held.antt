-- ===== src/Libft/Lines/Held.antt =====
-- The blocks that `get_next_line` holds.
use ft_malloc.Base.{
  ℕ, ◌+◌, ◌≤◌, ◌≡◌, refl, ◌<◌, ◌≢◌, true, Bool, Option, none, some, [], ◌∷◌, le→ltb, ne→==, ==_refl,
  arith,
}
use ft_malloc.Libft.Text.{pos}
use ft_malloc.Libft.Strings.{Text, Store, get_memory, free_block, free_text, up_to_null, is_null}
use ft_malloc.Libft.Lines.{
  Reads, order_nl, substr_nl, join_texts, strjoin_nl, ReadLine, gave, read_loop, read_nl, Line,
  line_result, take_line, next_line, Temps, set_temp, get_next_line,
}

-- The number of blocks that a text takes.
abbrev pub blocks_of : Option Text → ℕ
blocks_of none = 0
blocks_of (some t) = 1

module _ (grant : ℕ → Bool) where
  order_nl-held :
      (st : Store) (str : Text)
      → 1 ≤ st.held
      → (order_nl grant st str).0.held + 1 ≡ st.held + blocks_of (order_nl grant st str).1
  unfolding order_nl get_memory free_block
  order_nl-held st str h = ground arith

  substr_nl-held :
      (st : Store) (str : Text)
      → (substr_nl grant st str).0.held ≡ st.held + blocks_of (substr_nl grant st str).1
  unfolding substr_nl get_memory
  substr_nl-held st [] = ground arith
  substr_nl-held st (x ∷ xs) = ground arith

  strjoin_nl-held :
      (st : Store) (s1 s2 : Option Text)
      → blocks_of s1 ≤ st.held
      → (strjoin_nl grant st s1 s2).0.held + blocks_of s1
        ≡ st.held + blocks_of (strjoin_nl grant st s1 s2).1
  unfolding strjoin_nl join_texts get_memory free_block
  strjoin_nl-held st none none h = ground arith
  strjoin_nl-held st none (some s2) h = ground arith
  strjoin_nl-held st (some s1) none h = ground arith
  strjoin_nl-held st (some s1) (some s2) h = ground arith

  -- The loop releases its buffer, and holds on to the text that it gives alone.
  abbrev Keeps : Store → Option Text → ReadLine → Type 0
  Keeps st str got = got.store.held + 1 + blocks_of str ≡ st.held + blocks_of got.text

  is_null-blocks : (t : Option Text) → is_null t ≡ true → blocks_of t ≡ 0
  unfolding is_null
  is_null-blocks none e = refl
  is_null-blocks (some t) e = absurd (cc)

  read_loop-held :
      (rs : Reads) (st : Store) (str : Option Text)
      → 1 + blocks_of str ≤ st.held
      → Keeps st str (read_loop grant rs st str)
  unfolding read_loop gave free_block free_text
  read_loop-held [] st str h = ground arith
  read_loop-held (none ∷ rs) st none h = ground arith
  read_loop-held (none ∷ rs) st (some t) h = ground arith
  read_loop-held (some [] ∷ rs) st str h = ground arith
  read_loop-held (some (b ∷ bs) ∷ rs) st str h =
      let joined = strjoin_nl grant st str (some (up_to_null (b ∷ bs))) in
      let kept = strjoin_nl-held st str (some (up_to_null (b ∷ bs))) (omega (arith, h)) in
      ground (
        arith,
        kept,
        is_null-blocks joined.1,
        read_loop-held rs joined.0 joined.1 (omega (arith, kept, h)),
      )

  read_nl-held :
      (st : Store) (rs : Reads) (str : Option Text)
      → blocks_of str ≤ st.held
      → (read_nl grant st rs str).store.held + blocks_of str
        ≡ st.held + blocks_of (read_nl grant st rs str).text
  unfolding read_nl get_memory gave free_text free_block
  read_nl-held st rs none h = ground (
    arith,
    read_loop-held rs (record { calls = st.calls + 1; held = st.held + 1 }) none (omega (arith, h)),
  )
  read_nl-held st rs (some t) h = ground (
    arith,
    read_loop-held rs (record { calls = st.calls + 1; held = st.held + 1 }) (some t)
        (omega (arith, h)),
  )

  take_line-held :
      (st : Store) (rs : Reads) (text : Option Text)
      → blocks_of text ≤ st.held
      → (take_line grant st rs text).store.held + blocks_of text
        ≡ st.held
          + blocks_of (take_line grant st rs text).temp
          + blocks_of (take_line grant st rs text).line
  unfolding take_line line_result free_text free_block
  take_line-held st rs none h = ground arith
  take_line-held st rs (some t) h =
      let res = substr_nl grant st t in
      let kept = substr_nl-held st t in
      ground (arith, kept, is_null-blocks res.1, order_nl-held res.0 t (omega (arith, kept, h)))

  pub next_line-held :
      (st : Store) (rs : Reads) (temp : Option Text)
      → blocks_of temp ≤ st.held
      → (next_line grant st rs temp).store.held + blocks_of temp
        ≡ st.held
          + blocks_of (next_line grant st rs temp).temp
          + blocks_of (next_line grant st rs temp).line
  unfolding next_line
  next_line-held st rs temp h =
      let got = read_nl grant st rs temp in
      let kept = read_nl-held st rs temp h in
      omega (arith, kept, take_line-held got.store got.reads got.text (omega (arith, kept, h)))

-- A call of `get_next_line` for an entry of its array leaves no block behind: whatever `read` and
-- `malloc` give, those in use are the ones of before without the entry's old text, with its new text
-- and with the line. The other entries are as before.
pub get_next_line-held :
    (grant : ℕ → Bool) (open_max : ℕ) (st : Store) (rs : Reads) (temps : Temps) (fd : ℕ)
    → fd < open_max
    → blocks_of (temps fd) ≤ st.held
    → (got : Line) × (new : Temps) × (get_next_line grant open_max st rs temps (pos fd)
        ≡ some (got, new))
      × (got.store.held + blocks_of (temps fd) ≡ st.held + blocks_of (new fd) + blocks_of got.line)
      × ((x : ℕ) → x ≢ fd → new x ≡ temps x)
unfolding get_next_line set_temp
get_next_line-held grant open_max st rs temps fd l h =
    let got = next_line grant st rs (temps fd) in
    (
      got,
      set_temp temps fd got.temp,
      rw (le→ltb open_max fd (omega arith), ne→== fd open_max (omega arith)) refl,
      rw (==_refl fd) (next_line-held grant st rs (temps fd) h),
      λ x n. rw (ne→== x fd n) refl,
    )

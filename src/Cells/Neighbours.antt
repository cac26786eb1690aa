-- ===== src/Cells/Neighbours.antt =====
-- The searches for a free cell right behind a block, or right in front of it.
use ft_malloc.Base.{
  ℕ, zero, suc, ◌+◌, ◌≤◌, ◌<◌, ◌≡◌, ◌⊎◌, inl, inr, refl, sym, ap, ◌∙◌, subst, true, false, not,
  List, [], ◌∷◌, ◌++◌, arith, length, some, ◌==◌, if◌then◌else◌, Bool-cases, ne→==,
}
use ft_malloc.Heap.{Headers, Arena}
use ft_malloc.Heap.Dll.{Span, Dll}
use ft_malloc.Blocks.{after_loop, before_loop, find_empty_after, find_empty_before}
use ft_malloc.Zones.Lookup.{begins, begins-apart}
use ft_malloc.Cells.{Cell, fin, span, pick, Tiles, Stands}
use ft_malloc.Cells.Window.{Middle, Tiles-Middle, Tiles-le, length-pick, pick-around}

after_loop-begins :
    (k : ℕ) (h : Headers) (p x b : ℕ) (ss : List Span)
    → Dll h p x ss
    → length ss < k
    → (after_loop k h b x ≡ some 0) ⊎ (begins b ss ≡ true) × (after_loop k h b x ≡ some b)
unfolding after_loop
after_loop-begins zero h p x b ss d f = absurd (omega arith)
after_loop-begins (suc k) h p x b [] d f = inl (ground arith)
after_loop-begins (suc k) h p x b (s ∷ ss) d f =
    rw (d.0.here, ne→== s.addr 0 (omega (arith, d.0.above)))
      (ground (arith, after_loop-begins k h s.addr (h s.addr).next b ss d.1 (omega arith)))

-- The first of the spans that ends at `b`, or 0.
abbrev ender : ℕ → List Span → ℕ
ender b [] = 0
ender b (s ∷ ss) = if b == s.fin then s.addr else ender b ss

before_loop-ender :
    (k : ℕ) (h : Headers) (p x b : ℕ) (ss : List Span)
    → Dll h p x ss
    → length ss < k
    → (before_loop k h b x ≡ some 0) ⊎ (before_loop k h b x ≡ some (ender b ss))
unfolding before_loop
before_loop-ender zero h p x b ss d f = absurd (omega arith)
before_loop-ender (suc k) h p x b [] d f = inl (ground arith)
before_loop-ender (suc k) h p x b (s ∷ ss) d f =
    rw (d.0.here, ne→== s.addr 0 (omega (arith, d.0.above)), d.0.end)
      (ground (arith, before_loop-ender k h s.addr (h s.addr).next b ss d.1 (omega arith)))

-- The cell behind a tiling's first bytes is free, if a free cell begins there.
first_free :
    (pos end : ℕ) (ds : List Cell)
    → Tiles pos end ds
    → begins pos (pick false ds) ≡ true
    → (e : Cell) × (rest : List Cell) × (ds ≡ e ∷ rest) × (e.used ≡ false)
first_free pos end [] t b = absurd (cc)
first_free pos end (e ∷ ds) t b = elim (Bool-cases e.used) [
  | inr free ↦ (e, ds, refl, free)
  | inl used ↦
      absurd (
        cc
          (rw used at b, begins-apart false (pos + 32 + e.size) end pos ds t.2 (inl (omega arith))))
]

begins-behind :
    (b : ℕ) (ss ts : List Span) → begins b ss ≡ false → begins b (ss ++ ts) ≡ begins b ts
begins-behind b [] ts e = refl
begins-behind b (s ∷ ss) ts e = ground (arith, e, begins-behind b ss ts)

ender-behind : (b : ℕ) (ss ts : List Span) → ender b ts ≡ 0 → ender b (ss ++ ts) ≡ ender b ss
ender-behind b [] ts e = e
ender-behind b (s ∷ ss) ts e = ground (arith, ender-behind b ss ts e)

ender-none :
    (b pos end : ℕ) (ds : List Cell) → Tiles pos end ds → b ≤ pos → ender b (pick false ds) ≡ 0
ender-none b pos end [] t l = refl
ender-none b pos end (d ∷ ds) t l = ground (
  arith,
  ne→== b (fin d) (omega (arith, t.0, t.1)),
  ender-none b (pos + 32 + d.size) end ds t.2 (omega arith),
)

-- The last cell of a tiling is free, if a free cell ends where the tiling does.
last_free :
    (pos end : ℕ) (cs : List Cell)
    → Tiles pos end cs
    → (ender end (pick false cs) ≡ 0)
      ⊎ ((before : List Cell) × (e : Cell) × (cs ≡ before ++ e ∷ [])
          × (e.used ≡ false)
          × (ender end (pick false cs) ≡ e.addr))
last_free pos end [] t = inl refl
last_free pos end (c ∷ []) t = elim (Bool-cases c.used) [
  | inl used ↦ inl (rw used refl)
  | inr free ↦ inr ([], c, refl, free, rw free (ground (arith, t.0, t.2)))
]
last_free pos end (c ∷ (d ∷ cs)) t =
    let skip : ender end (pick false (c ∷ (d ∷ cs))) ≡ ender end (pick false (d ∷ cs)) =
      skipped c (pick false (d ∷ cs)) (
        ne→== end (fin c)
          (omega (arith, t.0, t.2.1, Tiles-le (pos + 32 + c.size + 32 + d.size) end cs t.2.2))) in
    elim (last_free (pos + 32 + c.size) end (d ∷ cs) t.2) [
      | inl none_ends ↦ inl (skip ∙ none_ends)
      | inr (before, e, split, free, at) ↦ inr (c ∷ before, e, ap (◌∷◌ c) split, free, skip ∙ at)
    ]
  where
    skipped :
        (b : Cell) (ss : List Span)
        → (end == fin b) ≡ false
        → ender end (if not b.used then span b ∷ ss else ss) ≡ ender end ss
    skipped b ss e = ground arith

module _ (fuel : ℕ) (a : Arena) (cs : List Cell) (c : Cell) (ds : List Cell)
    (s : Stands a (cs ++ c ∷ ds)) (is_used : c.used ≡ true) (end_lem : (a.hdr c.addr).end ≡ fin c)
    (f : length (cs ++ c ∷ ds) < fuel) where
  mid : Middle (a.zone.start + 80) a.zone.end cs c ds
  mid = Tiles-Middle (a.zone.start + 80) a.zone.end cs c ds s.tiles

  around : pick false (cs ++ c ∷ ds) ≡ pick false cs ++ pick false ds
  around = pick-around false cs c ds (ap not is_used)

  next_free :
      begins (fin c) (pick false (cs ++ c ∷ ds)) ≡ true
      → (e : Cell) × (rest : List Cell) × (ds ≡ e ∷ rest) × (e.used ≡ false) × (fin c ≡ e.addr)
  next_free b =
      let before =
        begins-apart false (a.zone.start + 80) c.addr (fin c) cs mid.front (inr (omega arith)) in
      let (e, rest, split, free) = first_free (fin c) a.zone.end ds mid.back (
        sym (begins-behind (fin c) (pick false cs) (pick false ds) before)
        ∙ ap (begins (fin c)) (sym around)
        ∙ b) in
      (e, rest, split, free, sym (subst (Tiles (fin c) a.zone.end) split mid.back).0)

  -- `find_empty_after` gives NULL, or the free cell that is next.
  pub find_empty_after_lem :
      (find_empty_after fuel a c.addr ≡ some 0)
      ⊎ ((e : Cell) × (rest : List Cell) × (ds ≡ e ∷ rest)
          × (e.used ≡ false)
          × (find_empty_after fuel a c.addr ≡ some e.addr))
  unfolding find_empty_after
  find_empty_after_lem = elim (Bool-cases (a.zone.empty_spaces == 0)) [
    | inl null ↦ inl (rw null refl)
    | inr given ↦
        elim (after_loop-begins fuel a.hdr 0 a.zone.empty_spaces (fin c) (pick false (cs ++ c ∷ ds))
          s.empties (omega (arith, f, length-pick false (cs ++ c ∷ ds)))) [
            | inl none_found ↦ inl (rw (given, end_lem) none_found)
            | inr (b, run) ↦ inr (found (next_free b) (rw (given, end_lem) run))
          ]
  ]
    where
      found :
          (e : Cell) × (rest : List Cell) × (ds ≡ e ∷ rest) × (e.used ≡ false) × (fin c ≡ e.addr)
          → find_empty_after fuel a c.addr ≡ some (fin c)
          → (e : Cell) × (rest : List Cell) × (ds ≡ e ∷ rest)
            × (e.used ≡ false)
            × (find_empty_after fuel a c.addr ≡ some e.addr)
      found (e, rest, split, free, at) run = (e, rest, split, free, run ∙ ap some at)

  -- `find_empty_before` gives NULL, or the free cell that is in front.
  pub find_empty_before_lem :
      (find_empty_before fuel a c.addr ≡ some 0)
      ⊎ ((before : List Cell) × (e : Cell) × (cs ≡ before ++ e ∷ [])
          × (e.used ≡ false)
          × (find_empty_before fuel a c.addr ≡ some e.addr))
  unfolding find_empty_before
  find_empty_before_lem = elim (Bool-cases (a.zone.empty_spaces == 0)) [
    | inl null ↦ inl (rw null refl)
    | inr given ↦
        let at : ender c.addr (pick false (cs ++ c ∷ ds)) ≡ ender c.addr (pick false cs) =
          ap (ender c.addr) around
          ∙ ender-behind c.addr (pick false cs) (pick false ds)
              (ender-none c.addr (fin c) a.zone.end ds mid.back (omega arith)) in
        elim (before_loop-ender fuel a.hdr 0 a.zone.empty_spaces c.addr (pick false (cs ++ c ∷ ds))
          s.empties (omega (arith, f, length-pick false (cs ++ c ∷ ds)))) [
            | inl none_found ↦ inl (rw given none_found)
            | inr run ↦ elim (last_free (a.zone.start + 80) c.addr cs mid.front) [
              | inl null ↦ inl (rw given (run ∙ ap some (at ∙ null)))
              | inr (before, e, split, free, here) ↦
                  inr (before, e, split, free, rw given (run ∙ ap some (at ∙ here)))
            ]
          ]
  ]

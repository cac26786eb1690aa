-- ===== src/Process/Report.antt =====
-- What `show_alloc_mem` reports of the whole process.
use ft_malloc.Base.{
  All-map, length-append, ◌*◌, ℕ, zero, suc, ◌+◌, ◌%◌, ◌^◌, ◌<◌, ◌≡◌, ◌≢◌, refl, sym, ap, ◌∙◌, true,
  List, [], ◌∷◌, ◌++◌, map, All, some, arith, length, ne→==,
}
use ft_malloc.Base.Words.{add64}
use ft_malloc.Heap.Dll.{Span}
use ft_malloc.Cells.{pick}
use ft_malloc.Cells.Window.{length-pick}
use ft_malloc.Zones.{State, arena}
use ft_malloc.Show.{
  Line, zone_line, zone_line_ex, block_line, empty_line, show_loop, show_alloc_mem,
}
use ft_malloc.Show.Lines.{line, sum_sizes, print_zone-lines}
use ft_malloc.Process.BlockBytes.{used-Between}
use ft_malloc.Process.{Region, bounds, ZoneDll, InPlace, Inv, used_blocks, weight}

-- The bytes of the blocks, without their headers.
abbrev pub block_sizes : List Span → ℕ
block_sizes [] = 0
block_sizes (s ∷ ss) = s.size + block_sizes ss

sum_sizes-sum :
    (total : ℕ) (ss : List Span)
    → total < 2 ^ 64
    → sum_sizes total ss ≡ (total + block_sizes ss) % 2 ^ 64
sum_sizes-sum total [] l = omega (arith, l)
sum_sizes-sum total (s ∷ ss) l = omega (arith, sum_sizes-sum (add64 total s.size) ss (omega arith))

block_sizes-append : (xs ys : List Span) → block_sizes (xs ++ ys) ≡ block_sizes xs + block_sizes ys
block_sizes-append [] ys = omega arith
block_sizes-append (x ∷ xs) ys = omega (arith, block_sizes-append xs ys)

-- A line for each zone, and behind it one for each of its blocks in use, in the order of the
-- addresses.
abbrev pub listing : State → List Region → List Line
listing st [] = []
listing st (r ∷ rs) =
    (zone_line (st.zone r.addr).type r.addr ∷ map line (pick true r.cells)) ++ listing st rs

module _ (st : State) where
  show_loop-listing :
      (k : ℕ) (p a total : ℕ) (rs : List Region)
      → ZoneDll st.zone p a (map bounds rs)
      → All (InPlace st) rs
      → weight rs < k
      → total < 2 ^ 64
      → show_loop k st a total
        ≡ some (listing st rs, (total + block_sizes (used_blocks rs)) % 2 ^ 64)
  unfolding show_loop
  show_loop-listing zero p a total rs d i f t = absurd (omega (arith, f))
  show_loop-listing (suc k) p a total [] d i f t = rw d (ap (λ n. some ([], n)) (omega (arith, t)))
  show_loop-listing (suc k) p a total (r ∷ rs) d i f t =
      let sum = sum_sizes 0 (pick true r.cells) in
      let printed =
        print_zone-lines (suc k) (arena st r.addr) r.cells i.0.stands
          (omega (arith, f, length-pick true r.cells)) in
      let rest =
        show_loop-listing k r.addr (st.zone r.addr).next (add64 total sum) rs d.2 i.1
          (omega (arith, f)) (omega arith) in
      let all : (add64 total sum + block_sizes (used_blocks rs)) % 2 ^ 64
          ≡ (total + block_sizes (used_blocks (r ∷ rs))) % 2 ^ 64 =
        omega (
          arith,
          sum_sizes-sum 0 (pick true r.cells) (omega arith),
          block_sizes-append (pick true r.cells) (used_blocks rs),
        ) in
      rw (d.0, ne→== r.addr 0 i.0.stands.self, printed, rest, i.0.start)
        (ap (λ n. some (listing st (r ∷ rs), n)) all)

show_alloc_mem-lines :
    (fuel : ℕ) (st : State) (rs : List Region)
    → Inv st rs
    → weight rs < fuel
    → show_alloc_mem fuel st ≡ some (listing st rs, block_sizes (used_blocks rs) % 2 ^ 64)
unfolding show_alloc_mem
show_alloc_mem-lines fuel st [] i f = rw (i.layout.linked) refl
show_alloc_mem-lines fuel st (r ∷ rs) i f =
    let nonnull : st.g_zones ≢ 0 = λ z. i.layout.each.0.stands.self (sym i.layout.linked.0 ∙ z) in
    rw (ne→== st.g_zones 0 nonnull) (
      show_loop-listing st fuel 0 st.g_zones 0 (r ∷ rs) i.layout.linked i.layout.each f
        (omega arith)
      ∙ ap (λ n. some (listing st (r ∷ rs), n)) (omega arith))

-- The bytes that the lines of a listing say, added up.
abbrev pub listed_bytes : List Line → ℕ
listed_bytes [] = 0
listed_bytes (zone_line t a ∷ ls) = listed_bytes ls
listed_bytes (zone_line_ex t a e n ∷ ls) = listed_bytes ls
listed_bytes (block_line a e n ∷ ls) = n + listed_bytes ls
listed_bytes (empty_line a e n ∷ ls) = n + listed_bytes ls

listed_bytes-append :
    (xs ys : List Line) → listed_bytes (xs ++ ys) ≡ listed_bytes xs + listed_bytes ys
listed_bytes-append [] ys = omega arith
listed_bytes-append (zone_line t a ∷ xs) ys = listed_bytes-append xs ys
listed_bytes-append (zone_line_ex t a e n ∷ xs) ys = listed_bytes-append xs ys
listed_bytes-append (block_line a e n ∷ xs) ys = omega (arith, listed_bytes-append xs ys)
listed_bytes-append (empty_line a e n ∷ xs) ys = omega (arith, listed_bytes-append xs ys)

lines-listed :
    (ss : List Span)
    → All (λ (s : Span). s.size + 32 < 2 ^ 64) ss
    → listed_bytes (map line ss) ≡ block_sizes ss + 32 * length ss
lines-listed [] p = refl
lines-listed (s ∷ ss) p = omega (arith, p.0, lines-listed ss p.1)

listing-listed :
    (st : State) (rs : List Region)
    → All (InPlace st) rs
    → listed_bytes (listing st rs) ≡ block_sizes (used_blocks rs) + 32 * length (used_blocks rs)
listing-listed st [] i = refl
listing-listed st (r ∷ rs) i =
    let used = pick true r.cells in
    let inside =
      used-Between (r.addr + 80) ((st.zone r.addr).start + 80) (st.zone r.addr).end r.cells
        (omega (arith, i.0.start)) i.0.stands.tiles in
    let here =
      lines-listed used (All-map _ _ used (λ s b. omega (arith, b, i.0.stands.top)) inside) in
    omega (
      arith,
      here,
      listing-listed st rs i.1,
      listed_bytes-append (map line used) (listing st rs),
      block_sizes-append used (used_blocks rs),
      length-append used (used_blocks rs),
    )

-- In a process with the invariant, `show_alloc_mem` returns: it lists each zone, in the order of their
-- list, with a line for each of its blocks in use and no other, in the order of the addresses. A line
-- gives the bytes of the block with its header, and the total is the sum of the blocks' sizes without
-- headers, in a `size_t`; so the lines add up to 32 bytes more for each block than all sizes.
pub show_alloc_mem-listing :
    (fuel : ℕ) (st : State) (rs : List Region)
    → Inv st rs
    → weight rs < fuel
    → (show_alloc_mem fuel st ≡ some (listing st rs, block_sizes (used_blocks rs) % 2 ^ 64))
      × (listed_bytes (listing st rs) ≡ block_sizes (used_blocks rs) + 32 * length (used_blocks rs))
show_alloc_mem-listing fuel st rs i f =
    (show_alloc_mem-lines fuel st rs i f, listing-listed st rs i.layout.each)

-- ===== src/Process/Statistics.antt =====
-- What `show_alloc_mem_ex` reports of the whole process.
use ft_malloc.Merge.Spans.{max_size}
use ft_malloc.Base.{
  ◌⊎◌, All-map, inl, inr, ◌==◌, Bool-cases, ℕ, zero, suc, Bool, ◌+◌, ◌-◌, ◌%◌, ◌^◌, ◌<◌, ◌≡◌, ◌≢◌,
  refl, sym, ap, ◌∙◌, true, false, List, [], ◌∷◌, ◌++◌, map, All, some, arith, length, ne→==,
}
use ft_malloc.Base.Words.{add64}
use ft_malloc.Heap.Dll.{Span}
use ft_malloc.Cells.{pick, free_bytes}
use ft_malloc.Cells.Window.{length-pick}
use ft_malloc.Zones.{State}
use ft_malloc.Show.{Line, zone_line_ex, print_zone_ex, count_items, merged_loop}
use ft_malloc.Show.Extended.{ZoneStats, stats_loop, listing_loop, show_alloc_mem_ex}
use ft_malloc.Show.Lines.{count_loop-length}
use ft_malloc.Process.{Recorded, Region, bounds, ZoneDll, InPlace, Inv, weight}

-- The size of the largest free cell; `old` where there is none.
abbrev pub largest : (old : ℕ) → List Span → ℕ
largest old [] = old
largest old (s ∷ ss) = max_size 0 (s ∷ ss)

recorded-largest : (m : ℕ) (ss : List Span) → (ss ≡ []) ⊎ (m ≡ max_size 0 ss) → m ≡ largest m ss
recorded-largest m [] h = refl
recorded-largest m (s ∷ ss) (inl e) = absurd (omega (arith, ap length e))
recorded-largest m (s ∷ ss) (inr e) = e

-- What the statistics say of each zone: its cells of either kind, counted, their free bytes, and the
-- largest free cell. A zone without one still shows the size that its header keeps from before.
abbrev pub statistics : State → List Region → List ZoneStats
statistics st [] = []
statistics st (r ∷ rs) =
    record {
      type = (st.zone r.addr).type;
      start = r.addr;
      end = r.limit;
      total_space = r.limit - r.addr - 80;
      remaining_space = free_bytes r.cells;
      max_free_space_size = largest (st.zone r.addr).max_free_space_size (pick false r.cells);
      blocks_num = length (pick true r.cells) % 2 ^ 32;
      empty_count = length (pick false r.cells);
    }
    ∷ statistics st rs

-- The number of cells of a kind in all zones.
abbrev pub cells_of : Bool → List Region → ℕ
cells_of b [] = 0
cells_of b (r ∷ rs) = length (pick b r.cells) + cells_of b rs

-- The record that the loop makes of a zone.
abbrev stats_of : State → Region → (empty_count : ℕ) → ZoneStats
stats_of st r empty_count = record {
  type = (st.zone r.addr).type;
  start = (st.zone r.addr).start;
  end = (st.zone r.addr).end;
  total_space = (st.zone r.addr).total_space;
  remaining_space = (st.zone r.addr).remaining_space;
  max_free_space_size = (st.zone r.addr).max_free_space_size;
  blocks_num = (st.zone r.addr).blocks_num;
  empty_count = empty_count;
}

module _ (st : State) where
  stats_of-statistics :
      (r : Region) (rs : List Region)
      → InPlace st r
      → Recorded st r
      → stats_of st r (length (pick false r.cells)) ∷ statistics st rs ≡ statistics st (r ∷ rs)
  stats_of-statistics r rs p o =
      let space : (st.zone r.addr).total_space ≡ r.limit - r.addr - 80 =
        omega (arith, p.total_space, p.room) in
      cc (
        p.start,
        p.end,
        space,
        p.stands.remaining_space,
        p.stands.blocks_num,
        recorded-largest (st.zone r.addr).max_free_space_size (pick false r.cells) o,
      )

  stats_loop-statistics :
      (k : ℕ) (p a b e : ℕ) (rs : List Region)
      → ZoneDll st.zone p a (map bounds rs)
      → All (InPlace st) rs
      → All (Recorded st) rs
      → weight rs < k
      → (b < 2 ^ 32) × (e < 2 ^ 32)
      → stats_loop k st a b e
        ≡ some (statistics st rs, (b + cells_of true rs) % 2 ^ 32, (e + cells_of false rs) % 2 ^ 32)
  unfolding stats_loop
  stats_loop-statistics zero p a b e rs d i o f l = absurd (omega (arith, f))
  stats_loop-statistics (suc k) p a b e [] d i o f l =
      let eb : b ≡ (b + 0) % 2 ^ 32 = omega (arith, l) in
      let ee : e ≡ (e + 0) % 2 ^ 32 = omega (arith, l) in rw d (cc (eb, ee))
  stats_loop-statistics (suc k) p a b e (r ∷ rs) d i o f l =
      let counted =
        count_loop-length (suc k) st.hdr 0 (st.zone r.addr).empty_spaces 0 (pick false r.cells)
          i.0.stands.empties (omega (arith, f, length-pick false r.cells)) in
      let rest =
        stats_loop-statistics k r.addr (st.zone r.addr).next
          ((b + (st.zone r.addr).blocks_num) % 2 ^ 32)
          ((e + (0 + length (pick false r.cells))) % 2 ^ 32) rs d.2 i.1 o.1 (omega (arith, f))
          (omega arith) in
      let same : 0 + length (pick false r.cells) ≡ length (pick false r.cells) = omega arith in
      let blocks : ((b + (st.zone r.addr).blocks_num) % 2 ^ 32 + cells_of true rs) % 2 ^ 32
          ≡ (b + cells_of true (r ∷ rs)) % 2 ^ 32 =
        omega (arith, i.0.stands.blocks_num) in
      let empties : ((e + (0 + length (pick false r.cells))) % 2 ^ 32 + cells_of false rs) % 2 ^ 32
          ≡ (e + cells_of false (r ∷ rs)) % 2 ^ 32 =
        omega arith in
      rw (d.0, ne→== r.addr 0 i.0.stands.self, counted, rest)
        (cc (same, stats_of-statistics r rs i.0 o.0, blocks, empties))

  items_counted :
      (fuel : ℕ) (r : Region)
      → InPlace st r
      → length r.cells < fuel
      → (lines : List Line) × (total : ℕ) × (print_zone_ex fuel st.hdr (st.zone r.addr)
          ≡ some (lines, total))
  unfolding print_zone_ex count_items
  items_counted fuel r p f =
      let used = length (pick true r.cells) in
      let items = 0 + used + length (pick false r.cells) in
      let z = st.zone r.addr in
      let blocks =
        count_loop-length fuel st.hdr 0 (st.zone r.addr).blocks 0 (pick true r.cells)
          p.stands.blocks (omega (arith, f, length-pick true r.cells)) in
      let all =
        count_loop-length fuel st.hdr 0 (st.zone r.addr).empty_spaces (0 + used)
          (pick false r.cells) p.stands.empties (omega (arith, f, length-pick false r.cells)) in
      elim (Bool-cases (items == 0)) [
        | inl e ↦ ([], 0, rw (blocks, all, e) refl)
        | inr e ↦
            let walk = merged_loop items st.hdr z.blocks z.empty_spaces 0 in
            (
              zone_line_ex z.type z.start z.end (add64 z.total_space 80) ∷ walk.0,
              walk.1,
              rw (blocks, all, e) refl,
            )
      ]

  listing_loop-returns :
      (k : ℕ) (p a total : ℕ) (rs : List Region)
      → ZoneDll st.zone p a (map bounds rs)
      → All (InPlace st) rs
      → weight rs < k
      → (lines : List Line) × (sum : ℕ) × (listing_loop k st a total ≡ some (lines, sum))
  unfolding listing_loop
  listing_loop-returns zero p a total rs d i f = absurd (omega (arith, f))
  listing_loop-returns (suc k) p a total [] d i f = ([], total, rw d refl)
  listing_loop-returns (suc k) p a total (r ∷ rs) d i f =
      let (lines, sum, printed) = items_counted (suc k) r i.0 (omega (arith, f)) in
      let (more, all, rest) =
        listing_loop-returns k r.addr (st.zone r.addr).next (add64 total sum) rs d.2 i.1
          (omega (arith, f)) in
      (lines ++ more, all, rw (d.0, ne→== r.addr 0 i.0.stands.self, printed, rest) refl)

unsigned : (n : ℕ) → (0 + n) % 2 ^ 32 ≡ n % 2 ^ 32
unsigned n = omega arith

-- In a process with the invariant, `show_alloc_mem_ex` returns, and its statistics give for each zone,
-- in the order of their list, its bounds, the number of its blocks in use in a `u_int`, the number of
-- its empty spaces, the bytes that are free, and the size of the largest empty space, all as its
-- cells have them; a zone without an empty space shows the size that its header keeps. Then come
-- the numbers of all blocks and of all empty spaces, each counted in a `u_int`.
pub show_alloc_mem_ex-statistics :
    (fuel : ℕ) (st : State) (rs : List Region)
    → Inv st rs
    → weight rs < fuel
    → (lines : List Line) × (total : ℕ) × (show_alloc_mem_ex fuel st
        ≡ some
            (lines, total, statistics st rs, cells_of true rs % 2 ^ 32, cells_of false rs % 2 ^ 32))
unfolding show_alloc_mem_ex
show_alloc_mem_ex-statistics fuel st [] i f = ([], 0, rw (i.layout.linked) refl)
show_alloc_mem_ex-statistics fuel st (r ∷ rs) i f =
    let nonnull : st.g_zones ≢ 0 = λ z. i.layout.each.0.stands.self (sym i.layout.linked.0 ∙ z) in
    let (lines, total, listed) =
      listing_loop-returns st fuel 0 st.g_zones 0 (r ∷ rs) i.layout.linked i.layout.each f in
    let counted =
      stats_loop-statistics st fuel 0 st.g_zones 0 0 (r ∷ rs) i.layout.linked i.layout.each
        (All-map _ _ (r ∷ rs) (λ s o. o.1) i.sound) f (omega arith) in
    (
      lines,
      total,
      rw (ne→== st.g_zones 0 nonnull, listed, counted)
          (cc (unsigned (cells_of true (r ∷ rs)), unsigned (cells_of false (r ∷ rs)))),
    )

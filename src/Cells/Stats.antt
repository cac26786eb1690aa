-- ===== src/Cells/Stats.antt =====
-- `update_empty_stats` and `merge_empty_spaces` on a zone that stands for cells.
use ft_malloc.Base.{
  ℕ, zero, suc, ◌+◌, ◌≤◌, ◌<◌, ◌≡◌, ◌≢◌, ◌⊎◌, inl, inr, refl, ◌∙◌, true, false, List, [], ◌∷◌,
  arith, length, some,
}
use ft_malloc.Heap.{Headers, Arena}
use ft_malloc.Heap.Dll.{Span, Dll, SameOn, Dll-frame}
use ft_malloc.Heap.Splice.{SameOutside}
use ft_malloc.Merge.{update_empty_stats, merge_empty_spaces, merge_loop}
use ft_malloc.Merge.Spans.{max_size, join, merge_from, merge_spans}
use ft_malloc.Merge.Stats.{max_loop-max_size}
use ft_malloc.Merge.Loop.{merge_loop-merge_from}
use ft_malloc.Cells.{Cell, pick, Tiles, Stands, Holds, Within}
use ft_malloc.Cells.Window.{Apart, Separate, Inside, pick-Inside, Avoids-outside}
use ft_malloc.Cells.Coalesce.{coalesce, free-coalesce, coalesce-Coalesced}

abbrev with_max : Arena → ℕ → Arena
with_max a m = record a { zone = record a.zone { max_free_space_size = m } }

stats_run :
    (fuel : ℕ) (a : Arena) (ss : List Span)
    → a.self ≢ 0
    → Dll a.hdr 0 a.zone.empty_spaces ss
    → length ss < fuel
    → (m : ℕ) × (update_empty_stats fuel a ≡ some (with_max a m))
      × ((ss ≡ []) ⊎ (m ≡ max_size 0 ss))
unfolding update_empty_stats max_size
stats_run fuel a [] ne d f = (a.zone.max_free_space_size, ground arith, inl refl)
stats_run fuel a (s ∷ ss) ne d f = (
  max_size 0 (s ∷ ss),
  ground (
    arith,
    d.0.here,
    d.0.above,
    d.0.data_size,
    max_loop-max_size fuel a.hdr 0 a.zone.empty_spaces s.size (s ∷ ss) d f,
  ),
  inr refl,
)

-- `update_empty_stats` returns, and makes `max_free_space_size` right where there is a free cell.
pub update_empty_stats-Holds :
    (fuel : ℕ) (a : Arena) (cs : List Cell)
    → Stands a cs
    → length (pick false cs) < fuel
    → (b : Arena) × (update_empty_stats fuel a ≡ some b) × Holds b cs × Within a b
update_empty_stats-Holds fuel a cs s f =
    let (m, run, stat) = stats_run fuel a (pick false cs) s.self s.empties f in
    (
      with_max a m,
      run,
      record {
        lists = record {
          self = s.self;
          tiles = s.tiles;
          top = s.top;
          blocks = s.blocks;
          empties = s.empties;
          blocks_num = s.blocks_num;
          remaining_space = s.remaining_space;
        };
        max_free_space_size = stat;
      },
      record {
        self = refl;
        start = refl;
        end = refl;
        type = refl;
        total_space = refl;
        prev = refl;
        next = refl;
        bytes = refl;
        outside = λ x p o. refl;
      },
    )

merge_run :
    (k : ℕ) (h : Headers) (e : ℕ) (ss : List Span)
    → Dll h 0 e ss
    → length ss < k
    → (g : Headers) × (merge_loop k h e ≡ some g) × Dll g 0 e (merge_spans ss) × SameOutside ss h g
unfolding merge_spans merge_loop
merge_run zero h e [] d f = absurd (omega arith)
merge_run (suc k) h e [] d f = (h, ground arith, d, λ x p v. refl)
merge_run k h e (s ∷ ss) d f = merge_loop-merge_from k h 0 e s ss d (omega arith)

length-merge_from : (s : Span) (ss : List Span) → length (merge_from s ss) ≤ suc (length ss)
unfolding merge_from
length-merge_from s [] = omega arith
length-merge_from s (t ∷ ts) =
    ground (arith, length-merge_from (join s t) ts, length-merge_from t ts)

length-merge_spans : (ss : List Span) → length (merge_spans ss) ≤ length ss
unfolding merge_spans
length-merge_spans [] = omega arith
length-merge_spans (s ∷ ss) = length-merge_from s ss

-- Headers of used cells are not touched by a change to the free ones.
used-kept :
    (h g : Headers) (a pos end : ℕ) (cs : List Cell)
    → 0 < pos
    → Tiles pos end cs
    → SameOutside (pick false cs) h g
    → Dll h 0 a (pick true cs)
    → Dll g 0 a (pick true cs)
used-kept h g a pos end cs l t same d =
    Dll-frame h g 0 a (pick true cs) d
      (go (pick true cs) (pick-Inside true pos end cs t) (Apart true pos end cs t))
  where
    go : (ss : List Span) → Inside pos end ss → Separate (pick false cs) ss → SameOn h g ss
    go [] i v = tt
    go (s ∷ ss) i v = (same s.addr (omega (arith, i.0.0)) v.0, go ss i.1 v.1)

-- With fuel for each free cell `merge_empty_spaces` returns, the zone then stands for the
-- coalesced cells, and nothing outside the zone's bytes has changed.
pub merge_empty_spaces-coalesce :
    (fuel : ℕ) (a : Arena) (cs : List Cell)
    → Stands a cs
    → length (pick false cs) < fuel
    → (b : Arena) × (merge_empty_spaces fuel a ≡ some b) × Holds b (coalesce cs) × Within a b
unfolding merge_empty_spaces
merge_empty_spaces-coalesce fuel a cs s f =
    let pos = a.zone.start + 80 in
    let (g, run, chain, same) =
      merge_run fuel a.hdr a.zone.empty_spaces (pick false cs) s.empties f in
    let kept = coalesce-Coalesced pos a.zone.end cs s.tiles in
    let eq = free-coalesce pos a.zone.end cs s.tiles s.top in
    let merged : Stands (record a { hdr = g }) (coalesce cs) = record {
      self = s.self;
      tiles = kept.tiles;
      top = s.top;
      blocks =
          rw (kept.used)
            (used-kept a.hdr g a.zone.blocks pos a.zone.end cs (omega arith) s.tiles same s.blocks);
      empties = rw eq chain;
      blocks_num = rw (kept.used) s.blocks_num;
      remaining_space = rw (kept.free) s.remaining_space;
    } in
    let (b, done, holds, within) =
      update_empty_stats-Holds fuel (record a { hdr = g }) (coalesce cs) merged
        (rw eq (omega (arith, length-merge_spans (pick false cs)))) in
    (
      b,
      rw run done,
      holds,
      record {
        self = within.self;
        start = within.start;
        end = within.end;
        type = within.type;
        total_space = within.total_space;
        prev = within.prev;
        next = within.next;
        bytes = within.bytes;
        outside = λ x p o.
            within.outside x p o
            ∙ same x p (
                Avoids-outside x pos a.zone.end (pick false cs)
                  (pick-Inside false pos a.zone.end cs s.tiles) o);
      },
    )

-- ===== src/Merge/Loop.antt =====
-- The loop of `merge_empty_spaces` merges the spans.
use ft_malloc.Base.{
  ℕ, zero, suc, ◌<◌, ◌≡◌, ◌≢◌, ◌⊎◌, inl, inr, refl, ◌∙◌, some, true, false, List, [], ◌∷◌, arith,
  length, Bool-cases,
}
use ft_malloc.Base.Words.{sub64, add64}
use ft_malloc.Heap.{Headers}
use ft_malloc.Heap.Dll.{Span, Dll}
use ft_malloc.Heap.Splice.{Dll-tail, next_above, SameOutside, Avoids-next, Avoids-below}
use ft_malloc.Merge.{absorb, merge_loop}
use ft_malloc.Merge.Spans.{join, is_near, merge_from}

module _ (h : Headers) (e t gap : ℕ) (l : e < t) (k : ((h t).next ≡ 0) ⊎ (t < (h t).next)) where
  absorb_elsewhere : (x : ℕ) → x ≢ e → x ≢ (h t).next → absorb h e t gap x ≡ h x
  unfolding absorb
  absorb_elsewhere x ne nn = ground arith

  absorb_next : (h t).next ≢ 0 → absorb h e t gap (h t).next ≡ record (h (h t).next) { prev = e }
  unfolding absorb
  absorb_next nn = ground arith

  absorb_at : absorb h e t gap e ≡ record {
    data_size = add64 (h e).data_size (add64 (add64 gap (h t).data_size) 32);
    end = (h t).end;
    prev = (h e).prev;
    next = (h t).next;
  }
  unfolding absorb
  absorb_at = ground arith

-- `absorb` writes the joined span, and besides it only the link of the header behind.
absorb_join :
    (h : Headers) (p e : ℕ) (s t : Span) (ss : List Span)
    → Dll h p e (s ∷ t ∷ ss)
    → Dll (absorb h s.addr t.addr (sub64 t.addr s.fin)) p e (join s t ∷ ss)
unfolding join
absorb_join h p e s t ss d = (
  ground (arith, at),
  rw at (
      Dll-tail h (absorb h s.addr t.addr gap) t.addr n s.addr ss d.1.1
        (omega (arith, k, d.1.0.above)) (absorb_next h s.addr t.addr gap d.1.0.above k)
        (λ x c l.
          absorb_elsewhere h s.addr t.addr gap d.1.0.above k x (omega (arith, k, d.1.0.above))
            (omega arith))),
)
  where
    gap : ℕ
    gap = sub64 t.addr s.fin

    n : ℕ
    n = (h t.addr).next

    k : (n ≡ 0) ⊎ (t.addr < n)
    k = next_above h t.addr n ss d.1.1

    at : absorb h s.addr t.addr gap s.addr ≡ record {
      data_size = add64 (h s.addr).data_size (add64 (add64 gap (h t.addr).data_size) 32);
      end = (h t.addr).end;
      prev = (h s.addr).prev;
      next = n;
    }
    at = absorb_at h s.addr t.addr gap d.1.0.above k

-- The loop returns, its list stands for the merged spans, and no other header has changed.
abbrev pub Merged : ℕ → Headers → (p e : ℕ) → Span → List Span → Type 0
Merged k h p e s ss =
    (g : Headers) × (merge_loop k h e ≡ some g)
    × Dll g p e (merge_from s ss)
    × SameOutside (s ∷ ss) h g

module _ (k : ℕ) (h : Headers) (p e : ℕ) (s t : Span) (ts : List Span)
    (d : Dll h p e (s ∷ t ∷ ts)) where
  Merged-near :
      is_near s t ≡ true
      → Merged k (absorb h s.addr t.addr (sub64 t.addr s.fin)) p e (join s t) ts
      → Merged (suc k) h p e s (t ∷ ts)
  unfolding merge_loop merge_from is_near
  Merged-near near (g, run, chain, same) = (
    g,
    ground (arith, d.0.here, d.0.above, d.0.end, d.1.0.here, d.1.0.above),
    rw near chain,
    λ x l v.
        same x l (v.0, v.1.1)
        ∙ absorb_elsewhere h s.addr t.addr (sub64 t.addr s.fin) d.1.0.above
            (next_above h t.addr (h t.addr).next ts d.1.1) x v.0
            (Avoids-next h t.addr (h t.addr).next x ts d.1.1 l v.1.1),
  )

  Merged-far :
      is_near s t ≡ false → Merged k h s.addr (h s.addr).next t ts → Merged (suc k) h p e s (t ∷ ts)
  unfolding merge_loop merge_from is_near
  Merged-far far (g, run, chain, same) = (
    g,
    ground (arith, d.0.here, d.0.above, d.0.end, d.1.0.here, d.1.0.above),
    rw far (ground (arith, kept), rw kept chain),
    λ x l v. same x l v.1,
  )
    where
      kept : g s.addr ≡ h s.addr
      kept =
          same s.addr (omega (arith, d.0.above))
            (Avoids-below h s.addr (h s.addr).next s.addr (t ∷ ts) d.1 (omega arith))

-- With fuel for each header the loop merges.
pub merge_loop-merge_from :
    (k : ℕ) (h : Headers) (p e : ℕ) (s : Span) (ss : List Span)
    → Dll h p e (s ∷ ss)
    → length ss < k
    → Merged k h p e s ss
unfolding merge_loop merge_from
merge_loop-merge_from zero h p e s ss d f = absurd (omega arith)
merge_loop-merge_from (suc k) h p e s [] d f = (h, ground (arith, d.0.here, d.1), d, λ x l v. refl)
merge_loop-merge_from (suc k) h p e s (t ∷ ts) d f = elim (Bool-cases (is_near s t)) [
  | inl near ↦ Merged-near k h p e s t ts d near (
      merge_loop-merge_from k (absorb h s.addr t.addr (sub64 t.addr s.fin)) p e (join s t) ts
        (absorb_join h p e s t ts d) (omega arith))
  | inr far ↦
      Merged-far k h p e s t ts d far
        (merge_loop-merge_from k h s.addr (h s.addr).next t ts d.1 (omega arith))
]

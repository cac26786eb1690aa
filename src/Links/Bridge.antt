-- ===== src/Links/Bridge.antt =====
-- The headers after two neighbours have been linked, as the last two `if`s of `remove_block` and
-- of `replace_block` do, and as the insertions do.
use ft_malloc.Base.{
  ℕ, ◌≤◌, ◌<◌, ◌≡◌, ◌≢◌, ◌⊎◌, inl, inr, ◌∙◌, List, ◌∷◌, ◌++◌, arith, ◌==◌, if◌then◌else◌,
}
use ft_malloc.Heap.{Headers, write, set_next, set_prev}
use ft_malloc.Heap.Dll.{Span, Dll}
use ft_malloc.Heap.Splice.{enter, last, le-last, splice, Dll-tail, Avoids, Avoids-last, Avoids-next}

-- `p->next = v` and `n->prev = q`, each unless the header is NULL.
unfoldable pub bridge : Headers → (p v n q : ℕ) → Headers
unfolding set_next set_prev
bridge h p v n q =
    let h1 = if p == 0 then h else set_next h p v in if n == 0 then h1 else set_prev h1 n q

module _ (h : Headers) (p v n q : ℕ) where
  pub bridge_elsewhere : (x : ℕ) → x ≢ p → x ≢ n → bridge h p v n q x ≡ h x
  unfolding bridge
  bridge_elsewhere x hp hn = ground arith

  pub bridge_at_pred : p ≢ 0 → n ≢ p → bridge h p v n q p ≡ record (h p) { next = v }
  unfolding bridge
  bridge_at_pred hp hn = ground arith

  pub bridge_at_succ : n ≢ 0 → n ≢ p → bridge h p v n q n ≡ record (h n) { prev = q }
  unfolding bridge
  bridge_at_succ hn hp = ground arith

  pub bridge_keeps_span :
      (x : ℕ)
      → ((bridge h p v n q x).data_size ≡ (h x).data_size) × ((bridge h p v n q x).end ≡ (h x).end)
  unfolding bridge
  bridge_keeps_span x = ground arith

-- The header of `new` between the neighbours `q` and `n`.
unfoldable pub mount : Headers → (q n new : ℕ) → Headers
unfolding bridge write
mount h q n new = bridge (write h new (record (h new) { prev = q; next = n })) q new n new

module _ (h : Headers) (q n new : ℕ) where
  pub mount_elsewhere : (x : ℕ) → x ≢ q → x ≢ n → x ≢ new → mount h q n new x ≡ h x
  unfolding mount
  mount_elsewhere x hq hn hx = ground arith

  pub mount_keeps_span :
      (x : ℕ)
      → ((mount h q n new x).data_size ≡ (h x).data_size) × ((mount h q n new x).end ≡ (h x).end)
  unfolding mount
  mount_keeps_span x = ground arith

  mount_at :
      q < new → (n ≡ 0) ⊎ (new < n) → mount h q n new new ≡ record (h new) { prev = q; next = n }
  unfolding mount
  mount_at l k = ground arith

  mount_at_pred :
      q ≢ 0 → q < new → (n ≡ 0) ⊎ (new < n) → mount h q n new q ≡ record (h q) { next = new }
  unfolding mount
  mount_at_pred c l k = ground arith

  mount_at_succ : n ≢ 0 → q < new → new < n → mount h q n new n ≡ record (h n) { prev = new }
  unfolding mount
  mount_at_succ c l k = ground arith

-- The stores agree on the two sides of the gap between `q` and `n`.
abbrev pub AgreeAround : Headers → Headers → (q n : ℕ) → Type 0
AgreeAround h h1 q n = (x : ℕ) → (x ≤ q) ⊎ ((n ≢ 0) × (n ≤ x)) → h1 x ≡ h x

-- `mount` puts the header of `t` between `xs` and `ys`, in the place of `zs` less `ys`. The list
-- is read in `h`, and `mount` works on `h1`, which has the new header's span.
pub Dll-mount :
    (h h1 : Headers) (p a r n : ℕ) (xs zs ys : List Span) (t : Span)
    → Dll h p a (xs ++ zs)
    → Dll h r n ys
    → AgreeAround h h1 (last p xs) n
    → last p xs < t.addr
    → (n ≡ 0) ⊎ (t.addr < n)
    → (h1 t.addr).data_size ≡ t.size
    → (h1 t.addr).end ≡ t.fin
    → Dll (mount h1 (last p xs) n t.addr) p (enter xs a t.addr) (xs ++ t ∷ ys)
Dll-mount h h1 p a r n xs zs ys t d back agree l k e f =
    let q = last p xs in
    let low : p ≤ last p xs = le-last h p a xs zs d in
    let mid = mount_at h1 q n t.addr l k in
    splice h (mount h1 q n t.addr) p a t.addr xs zs (t ∷ ys) d
      (λ x o u.
        mount_elsewhere h1 q n t.addr x (omega arith) (omega arith) (omega arith)
        ∙ agree x (omega arith))
      (λ ne.
        ground (arith, mount_at_pred h1 q n t.addr (omega arith) l k, agree q (inl (omega arith))))
      (
        ground (arith, mid),
        rw mid (
            Dll-tail h (mount h1 q n t.addr) r n t.addr ys back k
              (λ ne. ground (
                arith,
                mount_at_succ h1 q n t.addr ne l (omega arith),
                agree n (inr (ne, omega arith)),
              ))
              (λ x c u.
                mount_elsewhere h1 q n t.addr x (omega arith) (omega arith) (omega arith)
                ∙ agree x (inr (c, omega arith)))),
      )

-- An address off the two parts of the list, and not the new one, keeps its header.
pub mount_off :
    (h h1 : Headers) (p r n new x : ℕ) (xs ys : List Span)
    → Dll h r n ys
    → 0 < x
    → x ≢ p
    → Avoids x xs
    → Avoids x ys
    → x ≢ new
    → mount h1 (last p xs) n new x ≡ h1 x
mount_off h h1 p r n new x xs ys back pos np v w nn =
    mount_elsewhere h1 (last p xs) n new x (Avoids-last x p xs np v)
      (Avoids-next h r n x ys back pos w) nn

pub bridge_off :
    (h h1 : Headers) (p r v n q x : ℕ) (xs ys : List Span)
    → Dll h r n ys
    → 0 < x
    → x ≢ p
    → Avoids x xs
    → Avoids x ys
    → bridge h1 (last p xs) v n q x ≡ h1 x
bridge_off h h1 p r v n q x xs ys back pos np a w =
    bridge_elsewhere h1 (last p xs) v n q x (Avoids-last x p xs np a)
      (Avoids-next h r n x ys back pos w)

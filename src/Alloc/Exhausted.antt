-- ===== src/Alloc/Exhausted.antt =====
-- What `allocate_block` leaves in `max_free_space_size` where it takes the last empty space.
use ft_malloc.Base.{
  ℕ, ◌+◌, ◌%◌, ◌^◌, ◌≡◌, ◌||◌, inl, inr, refl, sym, ap, ◌∙◌, false, Option, none, some, arith, ◌==◌,
  if◌then◌else◌, Bool-cases, ◌>>=◌,
}
use mathlib.Core.Option.{some-injective, none-ne-some}
use ft_malloc.Base.Words.{add64, sub64}
use ft_malloc.Sizes.{header_size, empty, block}
use ft_malloc.Heap.{Block, Chain, Arena, chain, with_chain}
use ft_malloc.Links.{Ref, is_null, remove_block, replace_block, insert_ordered}
use ft_malloc.Merge.{update_empty_stats, max_loop}
use ft_malloc.Alloc.{
  find_empty_space, add_block_to_list, update_empty_spaces, allocate_from_empty, allocate_block,
}

-- The largest free space that the zone's header records.
abbrev recorded : Arena → ℕ
recorded a = a.zone.max_free_space_size

recorded-remove : (a : Arena) (old : Ref) → recorded (remove_block a old empty) ≡ recorded a
unfolding remove_block
recorded-remove a old = elim (Bool-cases ((a.self == 0) || is_null old)) [
  | inl e ↦ rw e refl
  | inr e ↦ rw e refl
]

recorded-replace :
    (a : Arena) (old : Ref) (new : ℕ) → recorded (replace_block a old new empty) ≡ recorded a
unfolding replace_block
recorded-replace a old new = elim (Bool-cases ((a.self == 0) || (is_null old || (new == 0)))) [
  | inl e ↦ rw e refl
  | inr e ↦ rw e refl
]

recorded-update_empty_spaces :
    (a : Arena) (old : Block) (new : ℕ) → recorded (update_empty_spaces a old new) ≡ recorded a
unfolding update_empty_spaces
recorded-update_empty_spaces a old new = elim (Bool-cases (old.data_size == 0)) [
  | inl e ↦ rw e (recorded-remove a _)
  | inr e ↦ rw e (recorded-replace _ _ _)
]

-- `update_empty_stats` leaves the size as it is where the list is empty.
recorded-update_empty_stats :
    (fuel : ℕ) (a b : Arena)
    → update_empty_stats fuel a ≡ some b
    → b.zone.empty_spaces ≡ 0
    → recorded b ≡ recorded a
unfolding update_empty_stats
recorded-update_empty_stats fuel a b e z =
    elim (Bool-cases ((a.self == 0) || (a.zone.empty_spaces == 0))) [
      | inl f ↦ ap recorded (some-injective b a (sym e ∙ rw f refl))
      | inr f ↦ absurd (
          scanned (max_loop fuel a.hdr a.zone.empty_spaces (a.hdr a.zone.empty_spaces).data_size)
            (sym (rw f refl) ∙ e) f)
    ]
  where
    scanned :
        (m : Option ℕ)
        → (m >>= λ best. some (record a { zone = record a.zone { max_free_space_size = best } }))
          ≡ some b
        → (a.self == 0) || (a.zone.empty_spaces == 0) ≡ false
        → ⊥
    scanned none g f = none-ne-some _ g
    scanned (some best) g f =
        let same : a.zone.empty_spaces ≡ b.zone.empty_spaces =
          ap (λ (x : Arena). x.zone.empty_spaces) (some-injective _ _ g) in
        absurd (ground (arith, same, z, f))

-- The zone with the new block counted.
abbrev counted : Arena → ℕ → Arena
counted a new = record a {
  zone = record a.zone {
    blocks_num = (a.zone.blocks_num + 1) % 2 ^ 32;
    remaining_space = sub64 a.zone.remaining_space (add64 (a.hdr new).data_size header_size);
  };
}

abbrev once_counted : ℕ → Option Arena → Option (Arena × ℕ)
once_counted new u = do done ← u; some (done, new)

-- What `allocate_from_empty` does once the block is listed.
abbrev once_listed : ℕ → ℕ → Option Arena → Option (Arena × ℕ)
once_listed fuel new l = do
  listed ← l
  done ← update_empty_stats fuel (counted listed new)
  some (done, new)

recorded-once_listed :
    (fuel e p m : ℕ) (l : Option Arena) (b : Arena)
    → ((x : Arena) → l ≡ some x → recorded x ≡ m)
    → once_listed fuel e l ≡ some (b, p)
    → b.zone.empty_spaces ≡ 0
    → recorded b ≡ m
recorded-once_listed fuel e p m none b same run z = absurd (none-ne-some _ run)
recorded-once_listed fuel e p m (some x) b same run z =
    done (update_empty_stats fuel (counted x e)) refl run
  where
    done :
        (u : Option Arena)
        → update_empty_stats fuel (counted x e) ≡ u
        → once_counted e u ≡ some (b, p)
        → recorded b ≡ m
    done none q g = absurd (none-ne-some _ g)
    done (some d) q g =
        let last : d ≡ b = ap (λ (w : Arena × ℕ). w.0) (some-injective _ _ g) in
        recorded-update_empty_stats fuel (counted x e) b (q ∙ ap some last) z ∙ same x refl

recorded-add_block_to_list :
    (fuel : ℕ) (a : Arena) (new m : ℕ)
    → recorded a ≡ m
    → (x : Arena) → add_block_to_list fuel a new ≡ some x
    → recorded x ≡ m
unfolding add_block_to_list
recorded-add_block_to_list fuel a new m same x run =
    linked (insert_ordered fuel (chain block a) new) run
  where
    linked : (c : Option Chain) → (c >>= λ c. some (with_chain block a c)) ≡ some x → recorded x ≡ m
    linked none g = absurd (none-ne-some _ g)
    linked (some c) g = ap recorded (sym (some-injective _ _ g)) ∙ same

recorded-allocate_from_empty :
    (fuel : ℕ) (a b : Arena) (e n p : ℕ)
    → allocate_from_empty fuel a e n ≡ some (b, p)
    → b.zone.empty_spaces ≡ 0
    → recorded b ≡ recorded a
unfolding allocate_from_empty
recorded-allocate_from_empty fuel a b e n p run z =
    recorded-once_listed fuel e p (recorded a) _ b
      (recorded-add_block_to_list fuel _ e (recorded a) (recorded-update_empty_spaces _ _ _)) run z

-- Where `allocate_block` leaves no empty space, the header records what it did before.
pub recorded-allocate_block :
    (fuel : ℕ) (a b : Arena) (n p : ℕ)
    → allocate_block fuel a n ≡ some (b, p)
    → b.zone.empty_spaces ≡ 0
    → b.zone.max_free_space_size ≡ a.zone.max_free_space_size
unfolding allocate_block
recorded-allocate_block fuel a b n p run z = searched (find_empty_space fuel a n) run
  where
    searched :
        (o : Option ℕ)
        → (o >>= λ s. if s == 0 then some (a, 0) else allocate_from_empty fuel a s n) ≡ some (b, p)
        → recorded b ≡ recorded a
    searched none g = absurd (none-ne-some _ g)
    searched (some s) g = elim (Bool-cases (s == 0)) [
      | inl e ↦ ap (λ (w : Arena × ℕ). recorded w.0) (sym (some-injective _ _ (rw e at g)))
      | inr e ↦ recorded-allocate_from_empty fuel a b s n p (rw e at g) z
    ]

-- ===== src/Links.antt =====
-- The pointer surgery on the two lists of a zone: `replace_block` and `remove_block` of
-- src/malloc_utils.c, and the ordered insertion of src/malloc_allocate_block.c, which
-- src/free_convert_block_to_empty.c and src/realloc_utils.c repeat on the other list.
pub mod Bridge
pub mod Insert
pub mod Remove
pub mod Replace
use ft_malloc.Base.{
  ℕ, zero, suc, Bool, ◌&&◌, ◌||◌, false, not, Option, none, some, ltb, ◌==◌, if◌then◌else◌, ◌>>=◌,
}
use ft_malloc.Sizes.{EType}
use ft_malloc.Heap.{Headers, Block, Chain, Arena, chain, with_chain, write, set_next, set_prev}

-- A `t_block *`: into the heap, or at a local variable.
pub data Ref : Type 0 where
  heap : ℕ → Ref
  stack : Block → Ref

abbrev pub is_null : Ref → Bool
is_null (heap a) = a == 0
is_null (stack b) = false

abbrev pub deref : Headers → Ref → Block
deref h (heap a) = h a
deref h (stack b) = b

-- `if (old->prev) old->prev->next = v; else head = v;`
unfoldable pub relink_next : Chain → Ref → ℕ → Chain
unfolding set_next
relink_next c old v =
    if (deref c.hdr old).prev == 0
    then record c { head = v }
    else record c { hdr = set_next c.hdr (deref c.hdr old).prev v }

-- `if (old->next) old->next->prev = v;`
unfoldable pub relink_prev : Chain → Ref → ℕ → Chain
unfolding set_prev
relink_prev c old v =
    if (deref c.hdr old).next == 0
    then c
    else record c { hdr = set_prev c.hdr (deref c.hdr old).next v }

unfoldable pub unlink : Chain → Ref → Chain
unfolding relink_next relink_prev
unlink c old =
    let c1 = relink_next c old (deref c.hdr old).next in relink_prev c1 old (deref c1.hdr old).prev

unfoldable pub remove_block : Arena → Ref → EType → Arena
unfolding unlink
remove_block a old type =
    if (a.self == 0) || is_null old then a else with_chain type a (unlink (chain type a) old)

unfoldable pub exchange : Chain → Ref → ℕ → Chain
unfolding relink_next relink_prev
exchange c old new =
    let h1 = set_prev c.hdr new (deref c.hdr old).prev in
    let h2 = set_next h1 new (deref h1 old).next in
    relink_prev (relink_next (record c { hdr = h2 }) old new) old new

unfoldable pub replace_block : Arena → Ref → ℕ → EType → Arena
unfolding exchange
replace_block a old new type =
    if (a.self == 0) || (is_null old || (new == 0))
    then a
    else with_chain type a (exchange (chain type a) old new)

-- `while (iter->next && iter->next < new) iter = iter->next;`, `none` when the fuel runs out.
unfoldable pub walk : ℕ → Headers → (iter new : ℕ) → Option ℕ
walk zero h iter new = none
walk (suc k) h iter new =
    let rest = walk k h (h iter).next new in
    if not ((h iter).next == 0) && ltb (h iter).next new then rest else some iter

unfoldable pub link_front : Chain → ℕ → Chain
unfolding set_next set_prev
link_front c new =
    let h1 = set_next (set_prev c.hdr new 0) new c.head in
    record { hdr = (if c.head == 0 then h1 else set_prev h1 c.head new); head = new }

unfoldable pub link_after : Headers → (iter new : ℕ) → Headers
unfolding set_next set_prev
link_after h iter new =
    let h1 = set_prev (set_next h new (h iter).next) new iter in
    let h2 = if (h1 iter).next == 0 then h1 else set_prev h1 (h1 iter).next new in
    set_next h2 iter new

-- Links the header `new` in before the first header at a higher address.
unfoldable pub insert_ordered : ℕ → Chain → ℕ → Option Chain
unfolding walk link_front link_after
insert_ordered fuel c new =
    if (c.head == 0) || ltb new c.head
    then some (link_front c new)
    else do iter ← walk fuel c.hdr c.head new; some (record c { hdr = link_after c.hdr iter new })

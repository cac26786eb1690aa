-- ===== src/Libft/Numbers/Digits.antt =====
-- The digits of a number in memory: how they are written and read.
use ft_malloc.Base.{
  ℕ, zero, suc, ◌+◌, ◌-◌, ◌*◌, ◌/◌, ◌%◌, ◌^◌, ◌<◌, ◌≤◌, ◌≡◌, ◌≢◌, ◌⊎◌, inl, inr, refl, sym, ap, ◌∙◌,
  true, false, some, ◌==◌, if◌then◌else◌, arith, Bool-cases,
}
use ft_malloc.Libft.Memory.{Bytes, set_byte}
use ft_malloc.Libft.Text.{ft_bzero, ft_memset, fill}
use ft_malloc.Libft.Numbers.{is_digit, read_digits, has_digits, count_digits, put_digits}

-- The `k` bytes at `x` are the decimal digits of `v`, leading zeros included.
abbrev pub Number : Bytes → (x k v : ℕ) → Type 0
Number m x zero v = v ≡ 0
Number m x (suc k) v = (m (x + k) ≡ v % 10 + 48) × Number m x k (v / 10)

-- The value of the `k` digits at `x`, behind those of `acc`.
abbrev value : Bytes → (x k acc : ℕ) → ℕ
value m x zero acc = acc
value m x (suc k) acc = value m (x + 1) k ((acc * 10 + (m x - 48)) % 4294967296)

value-last :
    (m : Bytes) (x k acc : ℕ)
    → value m x (suc k) acc ≡ (value m x k acc * 10 + (m (x + k) - 48)) % 4294967296
value-last m x zero acc = ap (λ (y : ℕ). (acc * 10 + (m y - 48)) % 4294967296) (omega arith)
value-last m x (suc k) acc =
    value-last m (x + 1) k ((acc * 10 + (m x - 48)) % 4294967296)
    ∙ ap
        (λ (y : ℕ).
          (value m (x + 1) k ((acc * 10 + (m x - 48)) % 4294967296) * 10 + (m y - 48)) % 4294967296)
        (omega arith)

-- Digits are read back as their number.
pub Number-value : (m : Bytes) (x k v : ℕ) → v < 2 ^ 32 → Number m x k v → value m x k 0 ≡ v
Number-value m x zero v l d = sym d
Number-value m x (suc k) v l d =
    value-last m x k 0
    ∙ rw (Number-value m x k (v / 10) (omega (arith, l)) d.1, d.0) (omega (arith, l))

abbrev pub Digits : Bytes → (x k : ℕ) → Type 0
Digits m x k = (j : ℕ) → j < k → is_digit (m (x + j)) ≡ true

pub Number-Digits : (m : Bytes) (x k v : ℕ) → Number m x k v → Digits m x k
unfolding is_digit
Number-Digits m x zero v d j l = absurd (omega (arith, l))
Number-Digits m x (suc k) v d j l = elim (Bool-cases (j == k)) [
  | inl e ↦ let same : j ≡ k = ground (arith, e) in rw same (ground (arith, d.0))
  | inr e ↦ Number-Digits m x k (v / 10) d.1 j (ground (arith, e, l))
]

-- The loop reads digits up to the first byte that is none.
read_digits-value :
    (fuel : ℕ) (m : Bytes) (x k acc : ℕ)
    → k < fuel
    → Digits m x k
    → is_digit (m (x + k)) ≡ false
    → read_digits 4294967296 fuel m x acc ≡ some (value m x k acc)
unfolding read_digits is_digit
read_digits-value zero m x k acc l d e = absurd (omega (arith, l))
read_digits-value (suc fuel) m x zero acc l d e =
    let here : is_digit (m x) ≡ false = ap (λ (y : ℕ). is_digit (m y)) (omega arith) ∙ e in
    rw here refl
read_digits-value (suc fuel) m x (suc k) acc l d e =
    let here : is_digit (m x) ≡ true =
      ap (λ (y : ℕ). is_digit (m y)) (omega arith) ∙ d 0 (omega arith) in
    rw here (
      read_digits-value fuel m (x + 1) k ((acc * 10 + (m x - 48)) % 4294967296) (omega (arith, l))
        (λ j l'. ap (λ (y : ℕ). is_digit (m y)) (omega arith) ∙ d (suc j) (omega (arith, l')))
        (ap (λ (y : ℕ). is_digit (m y)) (omega arith) ∙ e))

-- The loop reads the text of a number as that number.
pub read_digits-Number :
    (fuel : ℕ) (m : Bytes) (x k v : ℕ)
    → k < fuel
    → v < 2 ^ 32
    → Number m x k v
    → is_digit (m (x + k)) ≡ false
    → read_digits (2 ^ 32) fuel m x 0 ≡ some v
read_digits-Number fuel m x k v l b d e =
    read_digits-value fuel m x k 0 l (Number-Digits m x k v d) e
    ∙ ap some (Number-value m x k v b d)

-- The powers of ten.
abbrev pub pow10 : ℕ → ℕ
pow10 zero = 1
pow10 (suc k) = 10 * pow10 k

has_digits-zero : (v : ℕ) → has_digits v ≡ false → v ≡ 0
unfolding has_digits
has_digits-zero v e = ground (arith, e)

-- The number of digits, and the bytes that the loop writes.
abbrev pub digits : ℕ → ℕ → ℕ
digits zero v = 0
digits (suc k) v = if has_digits v then suc (digits k (v / 10)) else 0

pub count_digits-digits : (k v i : ℕ) → count_digits k v i ≡ digits k v + i
unfolding count_digits
count_digits-digits zero v i = omega arith
count_digits-digits (suc k) v i = elim (Bool-cases (has_digits v)) [
  | inl e ↦ rw e (omega (arith, count_digits-digits k (v / 10) (i + 1)))
  | inr e ↦ rw e (omega arith)
]

pub digits-le : (k v : ℕ) → digits k v ≤ k
digits-le zero v = omega arith
digits-le (suc k) v = elim (Bool-cases (has_digits v)) [
  | inl e ↦ rw e (omega (arith, digits-le k (v / 10)))
  | inr e ↦ rw e (omega arith)
]

pub set_byte-here : (m : Bytes) (a b : ℕ) → set_byte m a b a ≡ b
unfolding set_byte
set_byte-here m a b = ground arith

pub set_byte-off : (m : Bytes) (a b x : ℕ) → x ≢ a → set_byte m a b x ≡ m x
unfolding set_byte
set_byte-off m a b x ne = ground (arith, ne)

-- A number is written with as many bytes as it has digits, right in front of `end`, and no other
-- byte changes.
pub put_digits-Number :
    (k : ℕ) (m : Bytes) (x end v : ℕ)
    → v < pow10 k
    → x + digits k v ≡ end
    → Number (put_digits k m end v) x (digits k v) v
      × ((y : ℕ) → (y < x) ⊎ (end ≤ y) → put_digits k m end v y ≡ m y)
unfolding put_digits
put_digits-Number zero m x end v l e = (omega (arith, l), λ y o. refl)
put_digits-Number (suc k) m x end v l e = elim (Bool-cases (has_digits v)) [
  | inr none_left ↦ rw none_left (has_digits-zero v none_left, λ y o. refl)
  | inl left ↦
      let m' : Bytes = set_byte m (end - 1) (v % 10 + 48) in
      let count : x + suc (digits k (v / 10)) ≡ end = ap (λ (n : ℕ). x + n) (rw left refl) ∙ e in
      let at : x + digits k (v / 10) ≡ end - 1 = omega (arith, count) in
      let (written, kept) =
        put_digits-Number k m' x (end - 1) (v / 10) (omega (arith, l)) (omega (arith, count)) in
      rw left (
        (
          ap (put_digits k m' (end - 1) (v / 10)) at
              ∙ kept (end - 1) (inr (omega arith))
              ∙ set_byte-here m (end - 1) (v % 10 + 48),
          written,
        ),
        λ y o.
            kept y (omega (arith, o))
            ∙ set_byte-off m (end - 1) (v % 10 + 48) y (omega (arith, o, count)),
      )
]

fill-cleared :
    (k : ℕ) (m : Bytes) (dest i x : ℕ)
    → ((dest + i ≤ x) × (x < dest + i + k) ⊎ (m x ≡ 0))
    → fill k m dest 0 i x ≡ 0
unfolding fill
fill-cleared zero m dest i x (inl l) = absurd (omega (arith, l))
fill-cleared zero m dest i x (inr e) = e
fill-cleared (suc k) m dest i x l =
    fill-cleared k (set_byte m (dest + i) 0) dest (i + 1) x (elim (Bool-cases (x == (dest + i))) [
      | inl e ↦
          let at : x ≡ dest + i = ground (arith, e) in inr (rw at (set_byte-here m (dest + i) 0))
      | inr e ↦
          let ne : x ≢ dest + i = ground (arith, e) in
          elim l [
            | inl between ↦ inl (omega (arith, between, ne))
            | inr null ↦ inr (set_byte-off m (dest + i) 0 x ne ∙ null)
          ]
    ])

-- Bytes that are cleared are 0.
pub ft_bzero-cleared :
    (m : Bytes) (dest n x : ℕ) → dest ≤ x → x < dest + n → ft_bzero m dest n x ≡ 0
unfolding ft_bzero ft_memset
ft_bzero-cleared m dest n x lo hi = fill-cleared n m dest 0 x (inl (omega (arith, lo, hi)))

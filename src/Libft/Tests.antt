-- ===== src/Libft/Tests.antt =====
-- The theorems about characters, numbers and sorting, at one argument each.
use ft_malloc.Base.{◌-◌, ◌^◌, ◌≡◌, ◌⊎◌, true, false}
use ft_malloc.Base.{some, arith, ◌==◌, if◌then◌else◌}
use ft_malloc.Libft.Text.{pos, negsuc}
use ft_malloc.Libft.Numbers.{ft_atoi, ft_itoa}
use ft_malloc.Libft.Numbers.RoundTrip.{ft_atoi-ft_itoa}
use ft_malloc.Libft.Sorting.{Ints, merge_sort}
use ft_malloc.Libft.Sorting.Merge.{Sorts, merge_sort-Sorts}
use ft_malloc.Base.{ℕ, none, ◌+◌, [], ◌∷◌, refl}
use ft_malloc.Libft.Partition.{quick_sort}
use ft_malloc.Libft.Partition.Stuck.{quick_sort-stuck}
use ft_malloc.Libft.Lists.{Nodes, ft_lstadd_back, ft_lstsize, ft_lstiter, ft_lstclear}
use ft_malloc.Libft.Lists.Append.{Chained, releases, ft_lstadd_back-append, lists_walked}
use ft_malloc.Base.{◌≢◌, ◌≤◌, List, Bool, not, All, length}
use ft_malloc.Libft.Strings.{Text, Store, ft_strtrim}
use ft_malloc.Libft.Strings.Trim.{Trimmed, ft_strtrim-Trimmed}
use ft_malloc.Libft.Split.{ft_split}
use ft_malloc.Libft.Split.Words.{Splits, texts_blocks, ft_split-Splits, ft_split-held}
use ft_malloc.Libft.Lines.{Reads, Line, Temps, get_next_line}
use ft_malloc.Libft.Lines.Held.{blocks_of, get_next_line-held}
use ft_malloc.Libft.Lines.Stream.{IsChunk, FirstLine, pending, get_next_line-FirstLine}
use ft_malloc.Libft.Output.{Console, hex_digits, valid_base, ft_putnbr_base_n}
use ft_malloc.Libft.Output.Printf.{Args, ft_printf}
use ft_malloc.Libft.Output.Counts.{Counts, ft_printf-Counts}
use ft_malloc.Libft.Output.Expand.{Prints}
use ft_malloc.Libft.Output.Expand.Format.{ft_printf-Expands}
use ft_malloc.Libft.Output.Base.{Shows, ft_putnbr_base_n-Shows}

quick_sort-stuck_example : quick_sort 9 (λ x. pos 1) 0 2 ≡ none
quick_sort-stuck_example = quick_sort-stuck 9 (λ x. pos 1) 0 2 (omega arith) refl refl

-- A list of the nodes 1 and 2, and one of the node 3.
abbrev nodes : Nodes
nodes x = record { content = x + 10; next = (if x == 1 then 2 else 0) }

ft_lstadd_back-append_example :
    (new : Nodes) × (lst : ℕ) × (ft_lstadd_back 5 nodes 1 3 ≡ some (new, lst))
    × Chained new lst (1 ∷ 2 ∷ 3 ∷ [])
ft_lstadd_back-append_example =
    ft_lstadd_back-append 5 nodes 1 3 (1 ∷ 2 ∷ []) (3 ∷ []) (omega arith)
      ((omega arith, tt), (tt, tt)) ((omega arith, tt), ((omega arith, tt), tt))
      (refl, omega arith, (refl, omega arith, refl)) (refl, omega arith, refl)

lists_walked_example :
    (ft_lstsize 5 nodes 1 ≡ some 2)
    × (ft_lstiter 5 nodes 1 ≡ some (11 ∷ 12 ∷ []))
    × (ft_lstclear 5 nodes 1 ≡ some (releases nodes (1 ∷ 2 ∷ []), 0))
lists_walked_example =
    lists_walked 5 nodes 1 (1 ∷ 2 ∷ []) (omega arith) (refl, omega arith, (refl, omega arith, refl))

-- The word of - 1000.
ft_atoi-ft_itoa_example :
    ft_atoi 13 (ft_itoa (λ x. x) 100 4294966296).0 (ft_itoa (λ x. x) 100 4294966296).1
    ≡ some 4294966296
ft_atoi-ft_itoa_example =
    ft_atoi-ft_itoa 13 (λ x. x) 100 4294966296 (omega arith) (omega arith) (omega arith)

abbrev ints : Ints
ints x = if x == 1 then negsuc 4 else pos 7

merge_sort-Sorts_example : Sorts ints (merge_sort ints 3 (λ x. pos x)).0 0 3
merge_sort-Sorts_example = merge_sort-Sorts ints (λ x. pos x) 3

-- Two texts that a file gives in two reads, `ab\nc` in all, and the first call for it.
abbrev reads : Reads
reads = some (97 ∷ []) ∷ some (98 ∷ 10 ∷ 99 ∷ []) ∷ []

abbrev no_texts : Temps
no_texts x = none

abbrev idle : Store
idle = record { calls = 0; held = 0 }

get_next_line-FirstLine_example :
    (got : Line) × (new : Temps) × (get_next_line (λ x. true) 16 idle reads no_texts (pos 3)
      ≡ some (got, new))
    × FirstLine (pending (no_texts 3) reads) got.line (pending (new 3) got.reads)
    × All IsChunk got.reads
    × ((x : ℕ) → x ≢ 3 → new x ≡ none)
get_next_line-FirstLine_example =
    get_next_line-FirstLine (λ x. true) (λ n. refl) 16 idle reads no_texts 3 (omega arith)
      ((omega arith, tt), ((omega arith, (omega arith, (omega arith, tt))), tt))

-- The second call of `malloc` fails.
abbrev fails_once : ℕ → Bool
fails_once n = not (n == 1)

get_next_line-held_example :
    (got : Line) × (new : Temps) × (get_next_line fails_once 16 idle reads no_texts (pos 3)
      ≡ some (got, new))
    × (got.store.held + 0 ≡ 0 + blocks_of (new 3) + blocks_of got.line)
    × ((x : ℕ) → x ≢ 3 → new x ≡ none)
get_next_line-held_example =
    get_next_line-held fails_once 16 idle reads no_texts 3 (omega arith) (omega arith)

-- `,a,,bc`
abbrev listed : Text
listed = 44 ∷ 97 ∷ 44 ∷ 44 ∷ 98 ∷ 99 ∷ []

ft_split-Splits_example :
    (new : Store) × (ws : List Text) × (ft_split (λ x. true) idle listed 44 ≡ (new, some ws))
    × Splits 44 listed ws
    × (new.held ≡ 1 + length ws)
ft_split-Splits_example =
    ft_split-Splits (λ x. true) (λ n. refl) idle listed 44
      (omega arith, (omega arith, (omega arith, (omega arith, (omega arith, (omega arith, tt))))))

ft_split-held_example :
    (ft_split fails_once idle listed 44).0.held
    ≡ 0 + texts_blocks (ft_split fails_once idle listed 44).1
ft_split-held_example = ft_split-held fails_once idle listed 44

ft_strtrim-Trimmed_example :
    (new : Store) × (r : Text) × (ft_strtrim (λ x. true) idle (some listed) (some (44 ∷ 99 ∷ []))
      ≡ (new, some r))
    × Trimmed (44 ∷ 99 ∷ []) listed r
    × (new.held ≡ 0 + 1)
ft_strtrim-Trimmed_example = ft_strtrim-Trimmed (λ x. true) idle listed (44 ∷ 99 ∷ []) refl

abbrev blank : Console
blank = record { calls = 0; out = [] }

-- Each argument is 255, and a text `ab`.
abbrev args : Args
args = record { word = λ x. 255; text = λ x. some (97 ∷ 98 ∷ []) }

-- `%d: %s`, where every write but the fourth is whole, and that one fails.
ft_printf-Counts_example :
    Counts
      (λ n. if n == 3 then none else some 0)
      blank
      (ft_printf
        (λ n. if n == 3 then none else some 0)
        args
        blank
        (some (37 ∷ 100 ∷ 58 ∷ 32 ∷ 37 ∷ 115 ∷ [])))
ft_printf-Counts_example =
    ft_printf-Counts (λ n. if n == 3 then none else some 0) args blank
      (some (37 ∷ 100 ∷ 58 ∷ 32 ∷ 37 ∷ 115 ∷ []))

ft_putnbr_base_n-Shows_example :
    ((valid_base hex_digits ≡ true)
      × (2 ≤ length hex_digits)
      × Shows hex_digits blank 255 (ft_putnbr_base_n (λ n. some 0) blank 255 hex_digits))
    ⊎ ((valid_base hex_digits ≡ false) ⊎ (length hex_digits ≤ 1))
      × (ft_putnbr_base_n (λ n. some 0) blank 255 hex_digits ≡ (blank, some 0))
ft_putnbr_base_n-Shows_example =
    ft_putnbr_base_n-Shows (λ n. some 0) (λ n. refl) blank 255 hex_digits (omega arith)

-- `%d: %s%`, with - 1 for the number.
ft_printf-Expands_example :
    Prints
      (record { word = λ n. 2 ^ 32 - 1; text = λ n. none })
      (37 ∷ 100 ∷ 58 ∷ 32 ∷ 37 ∷ 115 ∷ 37 ∷ [])
      blank
      (ft_printf
        (λ n. some 0)
        (record { word = λ n. 2 ^ 32 - 1; text = λ n. none })
        blank
        (some (37 ∷ 100 ∷ 58 ∷ 32 ∷ 37 ∷ 115 ∷ 37 ∷ [])))
ft_printf-Expands_example =
    ft_printf-Expands (λ n. some 0) (λ n. refl)
      (record { word = λ n. 2 ^ 32 - 1; text = λ n. none }) blank
      (37 ∷ 100 ∷ 58 ∷ 32 ∷ 37 ∷ 115 ∷ 37 ∷ [])

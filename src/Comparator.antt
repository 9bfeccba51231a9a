-- ===== src/Comparator.antt =====
-- Enclave/leveldb/include/leveldb/comparator.h as an interface, and its bytewise implementation in
-- Enclave/leveldb/util/comparator.cpp over Slice::compare of include/leveldb/slice.h.
-- A C `int` that is only tested for its sign is an `Ordering`.
pub mod Lex
pub mod Order
pub mod Bytewise
use Prim.Native.Nat.{compare, Ordering, min}
use e_lsm_p.Base.{
  ℕ, zero, suc, ◌+◌, ◌<◌, ◌≡◌, ◌≢◌, Bool, List, [], ◌∷◌, ◌++◌, length, take, drop, get_or, ltb, leb,
  ◌==◌, ◌&&◌, if◌then◌else◌, ◌%◌, All,
}
use e_lsm_p.Coding.Fixed.{IsByte}

-- The key operations that a database is opened with.
pub record Comparator : Type 0 where
  pub compare : List ℕ → List ℕ → Ordering
  pub find_shortest_separator : List ℕ → List ℕ → List ℕ
  pub find_short_successor : List ℕ → List ℕ

-- r reversed: what the comparison gives with its arguments exchanged.
abbrev pub swapped : Ordering → Ordering
swapped Ordering.lt = Ordering.gt
swapped Ordering.eq = Ordering.eq
swapped Ordering.gt = Ordering.lt

-- A total order of keys.
pub record IsOrder (c : Comparator) : Type 0 where
  pub compare_refl : (a : List ℕ) → c.compare a a ≡ Ordering.eq
  pub compare_swap : (a b : List ℕ) → c.compare b a ≡ swapped (c.compare a b)
  pub compare_eq : (a b d : List ℕ) → c.compare a b ≡ Ordering.eq → c.compare a d ≡ c.compare b d
  pub compare_trans :
      (a b d : List ℕ)
      → c.compare a b ≡ Ordering.lt
      → c.compare b d ≡ Ordering.lt
      → c.compare a d ≡ Ordering.lt

-- What comparator.h promises: a total order; a separator of keys in order lies in [start, limit), and the
-- successor of a string of bytes is not below it.
pub record IsComparator (c : Comparator) : Type 0 where
  pub order : IsOrder c
  pub separator_lower :
      (start limit : List ℕ)
      → c.compare start limit ≡ Ordering.lt
      → c.compare start (c.find_shortest_separator start limit) ≢ Ordering.gt
  pub separator_upper :
      (start limit : List ℕ)
      → c.compare start limit ≡ Ordering.lt
      → c.compare (c.find_shortest_separator start limit) limit ≡ Ordering.lt
  pub successor_lower :
      (key : List ℕ) → All IsByte key → c.compare key (c.find_short_successor key) ≢ Ordering.gt

-- memcmp of the first n bytes.
unfoldable pub memcmp : ℕ → List ℕ → List ℕ → Ordering
memcmp zero a b = Ordering.eq
memcmp (suc n) a b =
    let rest = memcmp n (drop 1 a) (drop 1 b) in
    elim (compare (get_or a 0 0) (get_or b 0 0)) [
      | Ordering.lt ↦ Ordering.lt
      | Ordering.eq ↦ rest
      | Ordering.gt ↦ Ordering.gt
    ]

-- What Slice::compare makes of the sign `r` of memcmp: equal prefixes are ordered by size.
abbrev pub or_by_size : ℕ → ℕ → Ordering → Ordering
or_by_size m n Ordering.lt = Ordering.lt
or_by_size m n Ordering.eq =
    if ltb m n then Ordering.lt else if ltb n m then Ordering.gt else Ordering.eq
or_by_size m n Ordering.gt = Ordering.gt

-- Slice::compare
unfoldable pub slice_compare : List ℕ → List ℕ → Ordering
unfolding memcmp
slice_compare a b =
    let min_len = if ltb (length a) (length b) then length a else length b in
    or_by_size (length a) (length b) (memcmp min_len a b)

-- The loop that finds the length of the common prefix: it stops at the end of either string.
unfoldable pub diff_index : List ℕ → List ℕ → ℕ
diff_index [] limit = 0
diff_index (x ∷ start) [] = 0
diff_index (x ∷ start) (y ∷ limit) =
    let rest = suc (diff_index start limit) in if x == y then rest else 0

-- The incremented byte is stored in a char.
unfoldable pub find_shortest_separator : List ℕ → List ℕ → List ℕ
unfolding diff_index
find_shortest_separator start limit =
    let min_length = min (length start) (length limit) in
    let diff = diff_index start limit in
    let diff_byte = get_or start diff 0 in
    if leb min_length diff
    then start
    else if ltb diff_byte 255 && ltb (diff_byte + 1) (get_or limit diff 0)
    then take diff start ++ (((diff_byte + 1) % 256) ∷ [])
    else start

unfoldable pub find_short_successor : List ℕ → List ℕ
find_short_successor [] = []
find_short_successor (byte ∷ key) =
    let rest = byte ∷ find_short_successor key in
    if byte == 255 then rest else ((byte + 1) % 256) ∷ []

abbrev pub bytewise : Comparator
bytewise = record {
  compare = slice_compare;
  find_shortest_separator = find_shortest_separator;
  find_short_successor = find_short_successor;
}

-- ===== src/Version/Find.antt =====
-- FindFile of Enclave/leveldb/db/version_set.cpp finds the first file that does not end before a key.
use Prim.Native.Nat.{Ordering}
use e_lsm_p.Base.{
  ℕ, zero, suc, ◌+◌, ◌-◌, ◌/◌, ◌%◌, ◌^◌, ◌≤◌, ◌<◌, ◌≡◌, ◌≢◌, inl, inr, refl, ap, Bool, true, false,
  List, length, ltb, arith, Option, some, Bool-cases, ltb→lt,
}
use e_lsm_p.Comparator.{Comparator, IsComparator}
use e_lsm_p.Comparator.Order.{lt_of-le-lt}
use e_lsm_p.DbFormat.{internal_compare, is_lt, internal_key_comparator}
use e_lsm_p.DbFormat.Order.{internal_key_comparator-IsOrder}
use e_lsm_p.VersionEdit.{FileMetaData}
use e_lsm_p.Version.{file_at, find_loop, find_file, file_index}

pub lt_of-is_lt : (o : Ordering) → is_lt o ≡ true → o ≡ Ordering.lt
lt_of-is_lt Ordering.lt h = refl
lt_of-is_lt Ordering.eq h = cc
lt_of-is_lt Ordering.gt h = cc

-- The files of a level in the order of their last keys.
abbrev pub AreSorted : Comparator → List FileMetaData → Type 0
AreSorted user files =
    (i j : ℕ)
    → i ≤ j
    → j < length files
    → internal_compare user (file_at files i).largest (file_at files j).largest ≢ Ordering.gt

module _ (user : Comparator) (files : List FileMetaData) (key : List ℕ) where
  -- Does file i end before the key?
  abbrev pub ends_before : ℕ → Bool
  ends_before i = is_lt (internal_compare user (file_at files i).largest key)

  -- `r` parts the files into those that end before the key and the others.
  abbrev pub Parts : ℕ → Type 0
  Parts r =
      (r ≤ length files)
      × ((i : ℕ) → i < r → ends_before i ≡ true)
      × ((i : ℕ) → r ≤ i → i < length files → ends_before i ≡ false)

  abbrev Antitone : Type 0
  Antitone = (i j : ℕ) → i ≤ j → j < length files → ends_before j ≡ true → ends_before i ≡ true

  stays_after :
      Antitone
      → (mid : ℕ) → ends_before mid ≡ false
      → (i : ℕ) → mid ≤ i
      → i < length files
      → ends_before i ≡ false
  stays_after antitone mid after i h inside = elim (Bool-cases (ends_before i)) [
    | inr fine ↦ fine
    | inl before ↦
        let wrong : ends_before mid ≡ true = antitone mid i h inside before in
        absurd (let no_way : ⊥ = cc in no_way)
  ]

  -- The loop ends, with an index that parts the files.
  abbrev pub Finds : Option ℕ → Type 0
  Finds found = (r : ℕ) × (found ≡ some r) × Parts r

  find_loop-Finds :
      (small : length files < 2 ^ 31) (antitone : Antitone) (rounds left right : ℕ)
      → left ≤ right
      → right ≤ length files
      → right - left ≤ rounds
      → ((i : ℕ) → i < left → ends_before i ≡ true)
      → ((i : ℕ) → right ≤ i → i < length files → ends_before i ≡ false)
      → Finds (find_loop user files key rounds left right)
  unfolding find_loop
  find_loop-Finds small antitone zero left right order bound enough below above =
      let done : ltb left right ≡ false = ground (arith, order, enough) in
      rw done (right, refl, (bound, λ i h. below i (omega arith), above))
  find_loop-Finds small antitone (suc rounds) left right order bound enough below above =
      elim (Bool-cases (ltb left right)) [
        | inr done ↦ rw done (right, refl, (bound, λ i h. below i (ground arith), above))
        | inl more ↦
            let mid : ℕ = (left + right) % 2 ^ 32 / 2 in
            let inside = ltb→lt left right more in
            elim (Bool-cases (ends_before mid)) [
              | inl before ↦
                  rw (more, before)
                    (find_loop-Finds small antitone rounds (mid + 1) right (omega arith) bound
                      (omega arith) (λ i h. antitone i mid (omega arith) (omega arith) before)
                      above)
              | inr after ↦
                  rw (more, after)
                    (find_loop-Finds small antitone rounds left mid (omega arith) (omega arith)
                      (omega arith) below (stays_after antitone mid after))
            ]
      ]

-- A file that does not end after one that ends before the key ends before it as well.
sorted-Antitone :
    (user : Comparator) (files : List FileMetaData) (key : List ℕ)
    → IsComparator user
    → AreSorted user files
    → Antitone user files key
sorted-Antitone user files key lawful sorted i j h inside before =
    let less : internal_compare user (file_at files j).largest key ≡ Ordering.lt =
      lt_of-is_lt _ before in
    let earlier =
      lt_of-le-lt (internal_key_comparator user) (internal_key_comparator-IsOrder user lawful.order)
        (file_at files i).largest (file_at files j).largest key (sorted i j h inside) less in
    ap is_lt earlier

-- FindFile ends, in as many rounds as there are files, and gives the number of files that end before the
-- key: those are the first ones, and every file behind them does not. The files are in the order of their
-- last keys, and fewer than 2 ^ 31.
pub find_file-Finds :
    (user : Comparator) (files : List FileMetaData) (key : List ℕ)
    → IsComparator user
    → AreSorted user files
    → length files < 2 ^ 31
    → Finds user files key (find_file user files key)
unfolding find_file
find_file-Finds user files key lawful sorted small =
    let whole : length files % 2 ^ 32 ≡ length files = omega arith in
    rw whole (
      find_loop-Finds user files key small (sorted-Antitone user files key lawful sorted)
        (length files) 0 (length files) (omega arith) (omega arith) (omega arith)
        (λ i h. absurd (omega arith)) (λ i h k. absurd (omega arith)))

pub file_index-Parts :
    (user : Comparator) (files : List FileMetaData) (key : List ℕ)
    → IsComparator user
    → AreSorted user files
    → length files < 2 ^ 31
    → Parts user files key (file_index user files key)
unfolding file_index
file_index-Parts user files key lawful sorted small =
    let (r, found, parts) = find_file-Finds user files key lawful sorted small in rw found parts

-- ===== src/Version/Sample.antt =====
-- RecordReadSample and ForEachOverlapping of Enclave/leveldb/db/version_set.cpp: stopping at the second match gives
-- what a walk over all files would.
use e_lsm_p.Base.{
  ℕ, zero, suc, ◌+◌, ◌≡◌, inl, inr, refl, Bool, true, false, Option, none, some, List, [], ◌∷◌,
  ◌++◌, length, map, leb, ◌==◌, if◌then◌else◌, arith, Bool-cases,
}
use e_lsm_p.Comparator.{Comparator}
use e_lsm_p.DbFormat.{parse_internal_key, ParsedInternalKey}
use e_lsm_p.VersionEdit.{FileMetaData, num_levels}
use e_lsm_p.Version.{Files}
use e_lsm_p.Version.Search.{
  Read, Charged, update_stats, covering_file, level_files, each_file, each_level,
  for_each_overlapping, match, record_read_sample,
}

-- The files that may hold a key, from the newest of level 0 to the last level.
module _ (user : Comparator) (files : Files) (u ikey : List ℕ) where
  unfoldable pub visited : ℕ → ℕ → List Read
  unfolding level_files
  visited zero level = []
  visited (suc levels) level =
      map (λ f. (level, f)) (level_files user files u ikey level) ++ visited levels (level + 1)

module _ {S : Type 0} (func : S → ℕ → FileMetaData → Bool × S) where
  abbrev each_read : List Read → S → Bool × S
  each_read [] s = (true, s)
  each_read ((level, f) ∷ reads) s =
      let (more, after) = func s level f in
      let rest = each_read reads after in if more then rest else (false, after)

  continue : List Read → Bool × S → Bool × S
  continue reads (more, s) = if more then each_read reads s else (false, s)

  each_file-each_read :
      (level : ℕ) (fs : List FileMetaData) (reads : List Read) (s : S)
      → each_read (map (λ f. (level, f)) fs ++ reads) s ≡ continue reads (each_file func level fs s)
  unfolding each_file continue
  each_file-each_read level [] reads s = refl
  each_file-each_read level (f ∷ fs) reads s =
      let rest = each_file-each_read level fs reads (func s level f).1 in
      elim (Bool-cases (func s level f).0) [ inl more ↦ rw more rest | inr done ↦ rw done refl ]

  module _ (user : Comparator) (files : Files) (u ikey : List ℕ) where
    no_files : (level : ℕ) → files level ≡ [] → level_files user files u ikey level ≡ []
    unfolding level_files covering_file
    no_files zero h = rw h refl
    no_files (suc level) h = rw h refl

    empty : (fs : List FileMetaData) → length fs == 0 ≡ true → fs ≡ []
    empty [] h = refl
    empty (f ∷ fs) h =
        let wrong : suc (length fs) ≡ 0 = ground (arith, h) in absurd (omega (arith, wrong))

    each_level-each_read :
        (levels level : ℕ) (s : S)
        → each_level func user files u ikey levels level s
          ≡ (each_read (visited user files u ikey levels level) s).1
    unfolding each_level visited continue
    each_level-each_read zero level s = refl
    each_level-each_read (suc levels) level s =
        let fs = level_files user files u ikey level in
        let rest = each_level-each_read levels (level + 1) (each_file func level fs s).1 in
        let skip = each_level-each_read levels (level + 1) s in
        let whole = each_file-each_read level fs (visited user files u ikey levels (level + 1)) s in
        elim (Bool-cases (length (files level) == 0)) [
          | inl none_there ↦ rw (none_there, no_files level (empty (files level) none_there)) skip
          | inr some_there ↦ elim (Bool-cases (each_file func level fs s).0) [
            | inl more ↦ rw (some_there, more, whole) (rw more rest)
            | inr done ↦ rw (some_there, done, whole) (rw done refl)
          ]
        ]

    for_each_overlapping-each_read :
        (s : S)
        → for_each_overlapping func user files u ikey s
          ≡ (each_read (visited user files u ikey num_levels 0) s).1
    unfolding for_each_overlapping
    for_each_overlapping-each_read s = each_level-each_read num_levels 0 s

-- What a walk over all matches would make of them: two are needed, and the first is charged.
abbrev pub sampled : Option Read → List Read → Option Charged
sampled file_to_compact [] = none
sampled file_to_compact (r ∷ []) = none
sampled file_to_compact (r ∷ (r' ∷ reads)) = some (update_stats (some r) file_to_compact)

matched :
    (reads : List Read) (file_to_compact : Option Read)
    → (let (first, matches) = (each_read match reads (none, 0)).1 in
        if leb 2 matches then some (update_stats first file_to_compact) else none)
      ≡ sampled file_to_compact reads
matched [] c = refl
matched (r ∷ []) c = refl
matched (r ∷ (r' ∷ reads)) c = refl

-- RecordReadSample, which stops at the second file that may hold the key, does what a walk over all of these files
-- would: nothing if there are fewer than two, and else it charges a seek to the first of them, in the order of
-- the search. The key parses.
pub record_read_sample-visited :
    (user : Comparator) (files : Files) (file_to_compact : Option Read) (internal_key : List ℕ)
    (k : ParsedInternalKey)
    → parse_internal_key internal_key ≡ some k
    → record_read_sample user files file_to_compact internal_key
      ≡ sampled file_to_compact (visited user files k.user_key internal_key num_levels 0)
unfolding record_read_sample
record_read_sample-visited user files file_to_compact internal_key k parsed =
    rw (parsed, for_each_overlapping-each_read match user files k.user_key internal_key (none, 0))
      (matched (visited user files k.user_key internal_key num_levels 0) file_to_compact)

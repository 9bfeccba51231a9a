-- ===== src/Version/Search.antt =====
-- Version::Get, ForEachOverlapping and the statistics of seeks of Enclave/leveldb/db/version_set.cpp.
use Prim.Native.Nat.{Ordering}
use e_lsm_p.Base.{
  ℕ, zero, suc, ◌+◌, ◌-◌, Bool, true, false, not, ◌&&◌, Option, none, some, List, [], ◌∷◌, length,
  ltb, leb, ◌==◌, if◌then◌else◌, filter,
}
use e_lsm_p.Comparator.{Comparator}
use e_lsm_p.DbFormat.{
  ParsedInternalKey, ValueType, type_value, type_deletion, extract_user_key, is_lt,
  parse_internal_key,
}
use e_lsm_p.Status.{Status, ok, not_found, corruption, bytes}
use e_lsm_p.VersionEdit.{FileMetaData, num_levels}
use e_lsm_p.Version.{Files, is_gt, file_at, file_index}

-- kNotFound, kFound, kDeleted and kCorrupt.
pub data SaverState : Type 0 where
  k_not_found k_found k_deleted k_corrupt : SaverState

-- The fields of Saver that SaveValue writes.
pub record Saver : Type 0 where
  pub state : SaverState
  pub value : List ℕ

abbrev pub is_eq : Ordering → Bool
is_eq Ordering.lt = false
is_eq Ordering.eq = true
is_eq Ordering.gt = false

-- What SaveValue does with a key of its user key.
abbrev pub save_type : ValueType → List ℕ → Saver → Saver
save_type type_value v s = record { state = k_found; value = v }
save_type type_deletion v s = record s { state = k_deleted }

module _ (user : Comparator) (user_key : List ℕ) where
  abbrev pub save_parsed : Option ParsedInternalKey → List ℕ → Saver → Saver
  save_parsed none v s = record s { state = k_corrupt }
  save_parsed (some parsed_key) v s =
      if is_eq (user.compare parsed_key.user_key user_key) then save_type parsed_key.type v s else s

  unfoldable pub save_value : List ℕ → List ℕ → Saver → Saver
  unfolding parse_internal_key
  save_value ikey v s = save_parsed (parse_internal_key ikey) v s

-- NewestFirst, and std::sort by it.
abbrev pub newest_first : FileMetaData → FileMetaData → Bool
newest_first a b = ltb b.number a.number

abbrev pub insert_newest : FileMetaData → List FileMetaData → List FileMetaData
insert_newest f [] = f ∷ []
insert_newest f (g ∷ gs) = if newest_first g f then g ∷ insert_newest f gs else f ∷ (g ∷ gs)

abbrev pub sort_newest : List FileMetaData → List FileMetaData
sort_newest [] = []
sort_newest (f ∷ fs) = insert_newest f (sort_newest fs)

module _ (user : Comparator) (files : Files) (user_key ikey : List ℕ) where
  -- The test of the loop over level 0.
  abbrev pub covers : FileMetaData → Bool
  covers f =
      not (is_lt (user.compare user_key (extract_user_key f.smallest)))
      && not (is_gt (user.compare user_key (extract_user_key f.largest)))

  -- The files to search in a level above 0: one at most.
  unfoldable pub covering_file : List FileMetaData → List FileMetaData
  unfolding file_index
  covering_file fs =
      let index = file_index user fs ikey in
      let f = file_at fs index in
      if leb (length fs) index
      then []
      else if is_lt (user.compare user_key (extract_user_key f.smallest))
      then []
      else f ∷ []

  unfoldable pub level_files : ℕ → List FileMetaData
  unfolding covering_file
  level_files zero = sort_newest (filter covers (files 0))
  level_files (suc level) = covering_file (files (suc level))

-- A file that was read, with its level.
abbrev pub Read : Type 0
Read = ℕ × FileMetaData

-- The variables of Get: `seek` for the two fields of GetStats, and the status once it is decided.
pub record Search : Type 0 where
  pub seek : Option Read
  pub last_file_read : Option Read
  pub value : List ℕ
  pub decided : Option Status

-- More than one seek for this read charges the first file.
abbrev pub charge : Option Read → Option Read → Option Read
charge (some last) none = some last
charge none none = none
charge last (some seek) = some seek

-- The switch on the saver's state.
abbrev pub decide : List ℕ → SaverState → Option Status
decide user_key k_not_found = none
decide user_key k_found = some ok
decide user_key k_deleted = some (not_found [] [])
decide user_key k_corrupt = some (corruption (bytes "corrupted key for ") user_key)

module _ (user : Comparator) (user_key : List ℕ) where
  abbrev pub saved : Option (List ℕ × List ℕ) → Saver → Saver
  saved none s = s
  saved (some (k, v)) s = save_value user user_key k v s

  abbrev pub after_read : Status × Option (List ℕ × List ℕ) → Search → Search
  after_read (none, entry) s =
      let saver = saved entry (record { state = k_not_found; value = s.value }) in
      record s { value = saver.value; decided = decide user_key saver.state }
  after_read (some state, entry) s =
      let saver = saved entry (record { state = k_not_found; value = s.value }) in
      record s { value = saver.value; decided = some (some state) }

-- `table_get number size` is TableCache::Get at the internal key: its status, and the entry that
-- it hands to the saver, if any.
module _ (user : Comparator) (table_get : ℕ → ℕ → Status × Option (List ℕ × List ℕ))
    (user_key : List ℕ) where
  unfoldable pub read_file : ℕ → FileMetaData → Search → Search
  unfolding save_value
  read_file level f s =
      after_read user user_key (table_get f.number f.file_size)
        (record s { seek = charge s.last_file_read s.seek; last_file_read = some (level, f) })

  unfoldable pub search_files : ℕ → List FileMetaData → Search → Search
  unfolding read_file
  search_files level [] s = s
  search_files level (f ∷ fs) s =
      let after = read_file level f s in
      let rest = search_files level fs after in
      elim after.decided [ none ↦ rest | some status ↦ after ]

  -- The loop over the levels, with those that are left.
  unfoldable pub search_levels : Files → List ℕ → ℕ → ℕ → Search → Search
  unfolding search_files level_files
  search_levels files ikey zero level s = s
  search_levels files ikey (suc levels) level s =
      let after = search_files level (level_files user files user_key ikey level) s in
      let skip = search_levels files ikey levels (level + 1) s in
      let rest = search_levels files ikey levels (level + 1) after in
      if length (files level) == 0
      then skip
      else elim after.decided [ none ↦ rest | some status ↦ after ]

  abbrev pub or_not_found : Option Status → Status
  or_not_found none = not_found [] []
  or_not_found (some status) = status

  -- Version::Get: the status, `*value`, and the file to charge.
  unfoldable pub get : Files → List ℕ → List ℕ → Status × List ℕ × Option Read
  unfolding search_levels
  get files ikey value =
      let s =
        search_levels files ikey num_levels 0
          (record { seek = none; last_file_read = none; value = value; decided = none }) in
      (or_not_found s.decided, s.value, s.seek)

-- What UpdateStats leaves: `allowed_seeks` of the charged file, which the int may take below 0 and which
-- stops at 0 here, file_to_compact_ with its level, and the result.
pub record Charged : Type 0 where
  pub allowed_seeks : ℕ
  pub file_to_compact : Option Read
  pub used_up : Bool

unfoldable pub update_stats : Option Read → Option Read → Charged
update_stats none file_to_compact = record {
  allowed_seeks = 0;
  file_to_compact = file_to_compact;
  used_up = false;
}
update_stats (some (level, f)) none =
    let left = f.allowed_seeks - 1 in
    if left == 0
    then record { allowed_seeks = left; file_to_compact = some (level, f); used_up = true }
    else record { allowed_seeks = left; file_to_compact = none; used_up = false }
update_stats (some (level, f)) (some old) = record {
  allowed_seeks = f.allowed_seeks - 1;
  file_to_compact = some old;
  used_up = false;
}

-- ForEachOverlapping: `func` goes on while it gives true.
module _ {S : Type 0} (func : S → ℕ → FileMetaData → Bool × S) where
  unfoldable pub each_file : ℕ → List FileMetaData → S → Bool × S
  each_file level [] s = (true, s)
  each_file level (f ∷ fs) s =
      let (more, after) = func s level f in
      let rest = each_file level fs after in if more then rest else (false, after)

  unfoldable pub each_level : Comparator → Files → List ℕ → List ℕ → ℕ → ℕ → S → S
  unfolding each_file level_files
  each_level user files user_key ikey zero level s = s
  each_level user files user_key ikey (suc levels) level s =
      let (more, after) = each_file level (level_files user files user_key ikey level) s in
      let skip = each_level user files user_key ikey levels (level + 1) s in
      let rest = each_level user files user_key ikey levels (level + 1) after in
      if length (files level) == 0 then skip else if more then rest else after

  unfoldable pub for_each_overlapping : Comparator → Files → List ℕ → List ℕ → S → S
  unfolding each_level
  for_each_overlapping user files user_key ikey s =
      each_level user files user_key ikey num_levels 0 s

-- The State of RecordReadSample: the first match, and how many there are.
abbrev pub Matches : Type 0
Matches = Option Read × ℕ

abbrev pub match : Matches → ℕ → FileMetaData → Bool × Matches
match (first, matches) level f =
    let first' = if matches == 0 then some (level, f) else first in
    (ltb (suc matches) 2, (first', suc matches))

-- `none` stands for false with nothing changed.
abbrev pub sample :
    Comparator → Files → Option Read → List ℕ → Option ParsedInternalKey → Option Charged
sample user files file_to_compact internal_key none = none
sample user files file_to_compact internal_key (some ikey) =
    let (first, matches) =
      for_each_overlapping match user files ikey.user_key internal_key (none, 0) in
    if leb 2 matches then some (update_stats first file_to_compact) else none

unfoldable pub record_read_sample : Comparator → Files → Option Read → List ℕ → Option Charged
unfolding parse_internal_key for_each_overlapping update_stats
record_read_sample user files file_to_compact internal_key =
    sample user files file_to_compact internal_key (parse_internal_key internal_key)

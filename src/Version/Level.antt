-- ===== src/Version/Level.antt =====
-- Version::Get of Enclave/leveldb/db/version_set.cpp in a level above 0: the one file that it reads stands for the
-- whole level.
use Prim.Native.Nat.{Ordering}
use e_lsm_p.Base.{
  ℕ, zero, suc, ◌^◌, ◌≤◌, ◌<◌, ◌≡◌, ◌≢◌, inl, inr, refl, ap, ◌∙◌, true, false, Option, none, some,
  List, [], ◌∷◌, ◌++◌, length, leb, if◌then◌else◌, All, arith, Bool-cases, Option-cases, leb→le,
}
use e_lsm_p.Comparator.{Comparator, IsComparator}
use e_lsm_p.Comparator.Order.{lt_of-le-lt, lt_of-lt-le, flip_lt}
use e_lsm_p.DbFormat.{
  internal_compare, internal_key_comparator, is_lt, extract_user_key, parse_internal_key,
  ParsedInternalKey,
}
use e_lsm_p.DbFormat.Order.{internal_key_comparator-IsOrder}
use e_lsm_p.Status.{Status, ok}
use e_lsm_p.VersionEdit.{FileMetaData}
use e_lsm_p.Version.{Files, file_at, file_index}
use e_lsm_p.Version.Find.{file_index-Parts, lt_of-is_lt, ends_before}
use e_lsm_p.Version.Overlap.{AreDisjoint, files-AreSorted, user_order}
use e_lsm_p.Version.Search.{
  save_value, k_not_found, Saver, Search, covering_file, after_read, read_file, search_files, saved,
  is_eq,
}

-- An internal key with its value.
abbrev pub Entry : Type 0
Entry = List ℕ × List ℕ

module _ (user : Comparator) where
  -- The first entry that is not before the key: what a table seeks.
  abbrev pub seek_entry : List ℕ → List Entry → Option Entry
  seek_entry ikey [] = none
  seek_entry ikey (e ∷ es) =
      if is_lt (internal_compare user e.0 ikey) then seek_entry ikey es else some e

  -- The entries of a level, one file after the other.
  abbrev pub level_entries : (FileMetaData → List Entry) → List FileMetaData → List Entry
  level_entries entries [] = []
  level_entries entries (f ∷ fs) = entries f ++ level_entries entries fs

  -- A key that ParseInternalKey reads.
  abbrev pub Parses : List ℕ → Type 0
  Parses k =
      (p : ParsedInternalKey) × (parse_internal_key k ≡ some p) × (p.user_key ≡ extract_user_key k)

  -- The entries of a file lie between its first and last keys, its last key is one of theirs, and their keys
  -- parse.
  pub record Holds (f : FileMetaData) (es : List Entry) : Type 0 where
    pub low : All (λ (e : Entry). internal_compare user f.smallest e.0 ≢ Ordering.gt) es
    pub high : All (λ (e : Entry). internal_compare user e.0 f.largest ≢ Ordering.gt) es
    pub parses : All (λ (e : Entry). Parses e.0) es
    pub before : List Entry
    pub value : List ℕ
    pub behind : List Entry
    pub last : es ≡ before ++ ((f.largest, value) ∷ behind)

module _ (user : Comparator) (lawful : IsComparator user) (ikey : List ℕ) where
  seek_past :
      (bound : List ℕ) (xs ys : List Entry)
      → is_lt (internal_compare user bound ikey) ≡ true
      → All (λ (e : Entry). internal_compare user e.0 bound ≢ Ordering.gt) xs
      → seek_entry user ikey (xs ++ ys) ≡ seek_entry user ikey ys
  seek_past bound [] ys h all = refl
  seek_past bound (e ∷ xs) ys h all =
      let less =
        lt_of-le-lt (internal_key_comparator user)
          (internal_key_comparator-IsOrder user lawful.order) e.0 bound ikey all.0
          (lt_of-is_lt _ h) in
      rw less (seek_past bound xs ys h all.1)

  seek_stops :
      (xs : List Entry) (e : Entry) (ys zs : List Entry)
      → is_lt (internal_compare user e.0 ikey) ≡ false
      → seek_entry user ikey (xs ++ (e ∷ ys) ++ zs) ≡ seek_entry user ikey (xs ++ (e ∷ ys))
  seek_stops [] e ys zs h = rw h refl
  seek_stops (x ∷ xs) e ys zs h =
      let rest = seek_stops xs e ys zs h in
      elim (Bool-cases (is_lt (internal_compare user x.0 ikey))) [
        | inl before ↦ rw before rest
        | inr here ↦ rw here refl
      ]

  not_same : (u k : List ℕ) → user.compare u k ≡ Ordering.lt → is_eq (user.compare k u) ≡ false
  not_same u k h = ap is_eq (flip_lt user lawful.order u k h)

  saved_other :
      (u : List ℕ) (e : Entry) (s : Saver)
      → user.compare u (extract_user_key e.0) ≡ Ordering.lt
      → Parses user e.0
      → saved user u (some e) s ≡ s
  unfolding save_value
  saved_other u e s greater (p, parsed, whose) =
      rw (parsed, whose, not_same u (extract_user_key e.0) greater) refl

  -- Nothing is saved from entries of greater user keys.
  saved_nothing :
      (u : List ℕ) (es : List Entry) (s : Saver)
      → All (λ (e : Entry). user.compare u (extract_user_key e.0) ≡ Ordering.lt) es
      → All (λ (e : Entry). Parses user e.0) es
      → saved user u (seek_entry user ikey es) s ≡ s
  saved_nothing u [] s greater parses = refl
  saved_nothing u (e ∷ es) s greater parses =
      let rest = saved_nothing u es s greater.1 parses.1 in
      elim (Bool-cases (is_lt (internal_compare user e.0 ikey))) [
        | inl before ↦ rw before rest
        | inr here ↦ rw here (saved_other u e s greater.0 parses.0)
      ]

  all_greater :
      (u bound : List ℕ) (es : List Entry)
      → user.compare u (extract_user_key bound) ≡ Ordering.lt
      → All (λ (e : Entry). internal_compare user bound e.0 ≢ Ordering.gt) es
      → All (λ (e : Entry). user.compare u (extract_user_key e.0) ≡ Ordering.lt) es
  all_greater u bound [] h all = tt
  all_greater u bound (e ∷ es) h all = (
    lt_of-lt-le user lawful.order u (extract_user_key bound) (extract_user_key e.0) h
        (user_order user lawful bound e.0 all.0),
    all_greater u bound es h all.1,
  )

  module _ (entries : FileMetaData → List Entry) where
    -- The entries of the first file that does not end before the key.
    abbrev entries_at : List FileMetaData → ℕ → List Entry
    entries_at [] r = []
    entries_at (f ∷ fs) zero = entries f
    entries_at (f ∷ fs) (suc r) = entries_at fs r

    entries_at-inside :
        (fs : List FileMetaData) (r : ℕ) → r < length fs → entries_at fs r ≡ entries (file_at fs r)
    entries_at-inside [] r h = absurd (omega arith)
    entries_at-inside (f ∷ fs) zero h = refl
    entries_at-inside (f ∷ fs) (suc r) h = entries_at-inside fs r (omega arith)

    entries_at-beyond : (fs : List FileMetaData) (r : ℕ) → length fs ≤ r → entries_at fs r ≡ []
    entries_at-beyond [] r h = refl
    entries_at-beyond (f ∷ fs) zero h = absurd (omega arith)
    entries_at-beyond (f ∷ fs) (suc r) h = entries_at-beyond fs r (omega arith)

    seek_level :
        (fs : List FileMetaData) (r : ℕ)
        → ((i : ℕ) → i < length fs → Holds user (file_at fs i) (entries (file_at fs i)))
        → ((i : ℕ) → i < r → i < length fs → ends_before user fs ikey i ≡ true)
        → ((i : ℕ) → r ≤ i → i < length fs → ends_before user fs ikey i ≡ false)
        → seek_entry user ikey (level_entries user entries fs)
          ≡ seek_entry user ikey (entries_at fs r)
    seek_level [] r holds below above = refl
    seek_level (f ∷ fs) zero holds below above =
        let here = holds 0 (omega arith) in
        rw here.last (
          seek_stops here.before (f.largest, here.value) here.behind (level_entries user entries fs)
            (above 0 (omega arith) (omega arith)))
    seek_level (f ∷ fs) (suc r) holds below above =
        seek_past f.largest (entries f) (level_entries user entries fs)
          (below 0 (omega arith) (omega arith)) (holds 0 (omega arith)).high
        ∙ seek_level fs r (λ i h. holds (suc i) (omega arith))
            (λ i h k. below (suc i) (omega arith) (omega arith))
            (λ i h k. above (suc i) (omega arith) (omega arith))

-- Two searches have come to the same answer.
abbrev pub Agree : Search → Search → Type 0
Agree s t = (s.decided ≡ t.decided) × (s.value ≡ t.value)

module _ (user : Comparator) (lawful : IsComparator user)
    (table_get : ℕ → ℕ → Status × Option Entry) (u : List ℕ) where
  undecided_last :
      (level : ℕ) (f : FileMetaData) (s : Search)
      → search_files user table_get u level (f ∷ []) s ≡ read_file user table_get u level f s
  unfolding search_files
  undecided_last level f s = elim (Option-cases (read_file user table_get u level f s).decided) [
    | inl open_still ↦ rw (open_still, search_files) refl
    | inr (status, done) ↦ rw (done, search_files) refl
  ]

  no_entry : (s : Search) → s.decided ≡ none → Agree s (after_read user u (ok, none) s)
  no_entry s h = (h, refl)

  read-Agree :
      (level : ℕ) (f : FileMetaData) (s : Search) (e : Option Entry)
      → table_get f.number f.file_size ≡ (ok, e)
      → Agree (search_files user table_get u level (f ∷ []) s) (after_read user u (ok, e) s)
  unfolding read_file
  read-Agree level f s e h = rw (undecided_last level f s, h) (refl, refl)

  module _ (entries : FileMetaData → List Entry) (ikey : List ℕ) (files : Files) (level : ℕ) where
    -- In a level above 0 whose files are disjoint and sorted, a search of the file that Get picks answers as a
    -- search of all entries of the level, one after the other: the same status or none, and the same value. The
    -- files hold their entries within their bounds, the table cache seeks in the entries of a file, the search
    -- has not been decided before, and the level has fewer than 2 ^ 31 files.
    pub covering_file-Agree :
        AreDisjoint user (files level)
        → length (files level) < 2 ^ 31
        → ((i : ℕ)
            → i < length (files level)
            → Holds user (file_at (files level) i) (entries (file_at (files level) i)))
        → ((i : ℕ)
            → i < length (files level)
            → table_get (file_at (files level) i).number (file_at (files level) i).file_size
              ≡ (ok, seek_entry user ikey (entries (file_at (files level) i))))
        → (s : Search) → s.decided ≡ none
        → Agree
            (search_files user table_get u level (covering_file user files u ikey (files level)) s)
            (after_read user u
              (ok, seek_entry user ikey (level_entries user entries (files level)))
              s)
    unfolding covering_file search_files
    covering_file-Agree disjoint small holds reads s open_still =
        let fs = files level in
        let r = file_index user fs ikey in
        let (bound, below, above) =
          file_index-Parts user fs ikey lawful (files-AreSorted user lawful fs disjoint small)
            small in
        let whole = seek_level user lawful ikey entries fs r holds (λ i h k. below i h) above in
        elim (Bool-cases (leb (length fs) r)) [
          | inl beyond ↦
              rw
                (
                  beyond,
                  whole,
                  entries_at-beyond user lawful ikey entries fs r (leb→le (length fs) r beyond),
                )
                (no_entry s open_still)
          | inr within ↦
              let near : r < length fs = ground arith in
              let f = file_at fs r in
              let here =
                whole
                ∙ ap (seek_entry user ikey)
                    (entries_at-inside user lawful ikey entries fs r near) in
              elim (Bool-cases (is_lt (user.compare u (extract_user_key f.smallest)))) [
                | inl past ↦
                    let nothing =
                      saved_nothing user lawful ikey u (entries f)
                        (record { state = k_not_found; value = s.value })
                        (all_greater user lawful ikey u f.smallest (entries f) (lt_of-is_lt _ past)
                          (holds r near).low)
                        (holds r near).parses in
                    rw (within, past, here, nothing) (no_entry s open_still)
                | inr covered ↦ rw (within, covered, here) (read-Agree level f s _ (reads r near))
              ]
        ]

-- ===== src/Compaction/Inputs.antt =====
-- GetRange and SetupOtherInputs of Enclave/leveldb/db/version_set.cpp: the inputs of a compaction are complete.
pub mod Range
use e_lsm_p.Base.{
  ℕ, suc, ◌+◌, ◌≤◌, ◌<◌, ◌≡◌, ◌⊎◌, inl, inr, refl, ap, ◌∙◌, ◌&&◌, Option, some, List, ◌++◌, length,
  ltb, ◌==◌, filter, arith, Bool-cases, lt→ltb, ltb→lt, true, length-append,
}
use e_lsm_p.Comparator.{Comparator, IsComparator}
use e_lsm_p.DbFormat.{extract_user_key}
use e_lsm_p.VersionEdit.{FileMetaData, num_levels}
use e_lsm_p.Version.{Files, total_file_size}
use e_lsm_p.Version.Inputs.{get_overlapping_inputs-Gathered}
use e_lsm_p.Version.Ranges.{touches, Gathered, and_left, and_right}
use e_lsm_p.Compaction.{
  Compaction, get_range, get_range2, overlapping, Grown, if_as_many, if_small, grow,
  find_grandparents, with_inputs, after_grow, setup_other_inputs,
  expanded_compaction_byte_size_limit,
}
use e_lsm_p.Compaction.Inputs.Range.{IsRange, get_range-IsRange}

module _ (user : Comparator) (max_file_size : ℕ) (files : Files) where
  -- The files of a level that reach into the user keys of a range.
  abbrev pub reaching : ℕ → List ℕ × List ℕ → List FileMetaData
  reaching level (smallest, largest) =
      filter (touches user (some (extract_user_key smallest)) (some (extract_user_key largest)))
        (files level)

  -- The first inputs have been given, or they have grown from the given ones: they are the files of the level
  -- that are gathered in the range of all inputs, more than before; they take in no more files of the next
  -- level, and all stay below the limit on sizes.
  pub record HasGrown (level : ℕ) (given inputs0 inputs1 : List FileMetaData) : Type 0 where
    pub range : List ℕ × List ℕ
    pub range-IsRange : IsRange user given range
    pub all : List ℕ × List ℕ
    pub all-IsRange : IsRange user (given ++ reaching (level + 1) range) all
    pub gathered :
        Gathered user
          (level == 0)
          (files level)
          (some (extract_user_key (all.0)))
          (some (extract_user_key (all.1)))
          inputs0
    pub more : length given < length inputs0
    pub as_many : length inputs1 ≡ length (reaching (level + 1) range)
    pub is_small :
        total_file_size (reaching (level + 1) range) + total_file_size inputs0
        < expanded_compaction_byte_size_limit max_file_size

  -- What SetupOtherInputs leaves of a compaction with the first inputs `given`: the range of the first inputs, the
  -- inputs of the next level, which are all its files that reach into it, the last key of it, and the
  -- grandparents, which are the files of the level after it that reach into the range of all inputs.
  pub record SetUp (given : List FileMetaData) (c : Compaction) (largest : List ℕ) : Type 0 where
    pub range : List ℕ × List ℕ
    pub range-IsRange : IsRange user c.inputs0 range
    pub complete : c.inputs1 ≡ reaching (c.level + 1) range
    pub pointer : largest ≡ range.1
    pub all : List ℕ × List ℕ
    pub all-IsRange : IsRange user (c.inputs0 ++ c.inputs1) all
    pub behind : c.level + 2 < num_levels → c.grandparents ≡ reaching (c.level + 2) all
    pub from : (c.inputs0 ≡ given) ⊎ HasGrown c.level given c.inputs0 c.inputs1

  module _ (lawful : IsComparator user) where
    overlapping-exact :
        (level : ℕ) (range : List ℕ × List ℕ)
        → 0 < level
        → overlapping user max_file_size files level range ≡ some (reaching level range)
    overlapping-exact level (smallest, largest) deep =
        let (r, found, gathered) =
          get_overlapping_inputs-Gathered user lawful files level (some smallest) (some largest) in
        let (first, last) = gathered.exact (ground (arith, deep)) in
        found ∙ ap some (gathered.files ∙ (rw (first, last) refl))

    -- The second inputs are all files of the next level that reach into the range of the first ones.
    abbrev IsComplete : ℕ → List FileMetaData → Grown → Type 0
    IsComplete level given (inputs0, inputs1, largest) =
        (0 < length inputs0)
        × (inputs1 ≡ reaching (level + 1) (get_range user inputs0))
        × (largest ≡ (get_range user inputs0).1)
        × ((inputs0 ≡ given) ⊎ HasGrown level given inputs0 inputs1)

    abbrev Grows : ℕ → List FileMetaData → Option Grown → Type 0
    Grows level given found = (g : Grown) × (found ≡ some g) × IsComplete level given g

    module _ (level : ℕ) (given : List FileMetaData) (some_given : 0 < length given) where
      before : List FileMetaData
      before = reaching (level + 1) (get_range user given)

      as_given : Grown
      as_given = (given, before, (get_range user given).1)

      as_given-IsComplete : IsComplete level given as_given
      unfolding as_given before
      as_given-IsComplete = (some_given, refl, refl, inl refl)

      Expands : List FileMetaData → Type 0
      Expands expanded0 =
          Gathered user (level == 0) (files level)
            (some (extract_user_key (get_range2 user given before).0))
            (some (extract_user_key (get_range2 user given before).1)) expanded0

      if_as_many-IsComplete :
          (expanded0 : List FileMetaData)
          → Expands expanded0
          → length given < length expanded0
          → total_file_size before + total_file_size expanded0
            < expanded_compaction_byte_size_limit max_file_size
          → IsComplete level given
              (if_as_many user as_given expanded0 (reaching (level + 1) (get_range user expanded0)))
      unfolding as_given before Expands
      if_as_many-IsComplete expanded0 gathered more is_small =
          elim (Bool-cases
            (length (reaching (level + 1) (get_range user expanded0)) == length before)) [
              | inl same ↦ rw same (
                omega arith,
                refl,
                refl,
                inr (record {
                  range = get_range user given;
                  range-IsRange = get_range-IsRange user lawful.order given some_given;
                  all = get_range2 user given before;
                  all-IsRange =
                      get_range-IsRange user lawful.order (given ++ before)
                        (omega (arith, length-append given before));
                  gathered = gathered;
                  more = more;
                  as_many = ground (arith, same);
                  is_small = is_small;
                }),
              )
              | inr other ↦ rw other (some_given, refl, refl, inl refl)
            ]

      if_small-Grows :
          (expanded0 : List FileMetaData)
          → Expands expanded0
          → Grows level given (if_small user max_file_size files level as_given expanded0)
      unfolding as_given before
      if_small-Grows expanded0 gathered =
          let limit = expanded_compaction_byte_size_limit max_file_size in
          elim (Bool-cases (
            ltb (length given) (length expanded0)
            && ltb (total_file_size before + total_file_size expanded0) limit)) [
              | inl small ↦ (
                if_as_many user as_given expanded0
                    (reaching (level + 1) (get_range user expanded0)),
                (rw (small, overlapping-exact (level + 1) (get_range user expanded0) (omega arith))
                    refl),
                if_as_many-IsComplete expanded0 gathered (ltb→lt _ _ (and_left _ _ small))
                    (ltb→lt _ _ (and_right _ _ small)),
              )
              | inr large ↦ (as_given, (rw large refl), (some_given, refl, refl, inl refl))
            ]

      grow-Grows : Grows level given (grow user max_file_size files level as_given)
      unfolding grow as_given before Expands
      grow-Grows = elim (Bool-cases (length before == 0)) [
        | inl nothing ↦ (as_given, (rw nothing refl), as_given-IsComplete)
        | inr more ↦
            let (smallest, largest) = get_range2 user given before in
            let (expanded0, found, gathered) =
              get_overlapping_inputs-Gathered user lawful files level (some smallest)
                (some largest) in
            rw (more, found) (if_small-Grows expanded0 gathered)
      ]

    after_grow-SetUp :
        (c : Compaction) (given : List FileMetaData) (g : Grown)
        → IsComplete c.level given g
        → (r : Compaction × List ℕ) × (after_grow user max_file_size files c g ≡ some r)
          × SetUp given r.0 r.1
          × (r.0.level ≡ c.level)
    unfolding find_grandparents
    after_grow-SetUp c given (inputs0, inputs1, largest) (nonempty, whole, last, from) =
        let all = get_range2 user inputs0 inputs1 in
        let all-IsRange =
          get_range-IsRange user lawful.order (inputs0 ++ inputs1)
            (omega (arith, length-append inputs0 inputs1)) in
        let range-IsRange = get_range-IsRange user lawful.order inputs0 nonempty in
        elim (Bool-cases (ltb (c.level + 2) num_levels)) [
          | inl deep ↦
              let found = overlapping-exact (c.level + 2) all (omega arith) in
              (
                with_inputs c (inputs0, inputs1, largest) (reaching (c.level + 2) all),
                (rw (deep, found) refl),
                record {
                  range = get_range user inputs0;
                  range-IsRange = range-IsRange;
                  complete = whole;
                  pointer = last;
                  all = all;
                  all-IsRange = all-IsRange;
                  behind = λ h. refl;
                  from = from;
                },
                refl,
              )
          | inr bottom ↦ (
            with_inputs c (inputs0, inputs1, largest) c.grandparents,
            (rw bottom refl),
            record {
              range = get_range user inputs0;
              range-IsRange = range-IsRange;
              complete = whole;
              pointer = last;
              all = all;
              all-IsRange = all-IsRange;
              behind = λ h.
                  let wrong = lt→ltb (c.level + 2) num_levels h in
                  absurd (let no_way : ⊥ = cc in no_way);
              from = from;
            },
            refl,
          )
        ]

    -- SetupOtherInputs of a compaction that has first inputs ends and sets it up. The first inputs are as they were,
    -- or they have grown to more files of the level, gathered in the range of all inputs, that take in as many
    -- files of the next level as before, below the limit on sizes. Every file of the next level that
    -- reaches into the range of the first inputs, which spans from their least first key to their greatest last key,
    -- is among the second, and no other is; the new compact_pointer_ is the end of that range, and the grandparents
    -- are the files behind that reach into the range of all inputs.
    pub setup_other_inputs-SetUp :
        (c : Compaction)
        → 0 < length c.inputs0
        → (r : Compaction × List ℕ) × (setup_other_inputs user max_file_size files c ≡ some r)
          × SetUp c.inputs0 r.0 r.1
          × (r.0.level ≡ c.level)
    unfolding setup_other_inputs as_given before
    setup_other_inputs-SetUp c some_given =
        let (g, grown, complete) = grow-Grows c.level c.inputs0 some_given in
        let found = overlapping-exact (c.level + 1) (get_range user c.inputs0) (omega arith) in
        rw (found, grown) (after_grow-SetUp c c.inputs0 g complete)

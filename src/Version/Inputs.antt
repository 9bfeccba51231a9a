-- ===== src/Version/Inputs.antt =====
-- GetOverlappingInputs of Enclave/leveldb/db/version_set.cpp: the loop ends, and collects the files that
-- touch the range it has widened.
use e_lsm_p.Base.{
  filter, filter-append, count_bound, All-append, ℕ, zero, suc, ◌*◌, ◌≤◌, ◌<◌, ◌≡◌, inl, inr, refl,
  sym, ap, ◌∙◌, Bool, true, false, not, ◌&&◌, ◌||◌, Option, some, List, [], ◌∷◌, ◌++◌, length, ◌==◌,
  All, arith, Bool-cases, append_assoc, append-nil,
}
use e_lsm_p.Comparator.{Comparator, IsComparator}
use e_lsm_p.DbFormat.{extract_user_key}
use e_lsm_p.VersionEdit.{FileMetaData}
use e_lsm_p.Version.{
  Files, is_before, is_after, starts_earlier, ends_later, inputs_loop, get_overlapping_inputs,
  user_key_of,
}
use e_lsm_p.Version.Ranges.{
  touches, IsWithin, Gathered, restarts_needed, earlier_skips, later_skips, fewer_earlier,
  fewer_later, and_left, and_right, neither, stays,
}

module _ (user : Comparator) (lawful : IsComparator user) where
  module _ (level0 : Bool) (all : List FileMetaData) where
    abbrev Found : Option (List ℕ) → Option (List ℕ) → Option (List FileMetaData) → Type 0
    Found begin end found =
        (r : List FileMetaData) × (found ≡ some r) × Gathered user level0 all begin end r

    -- What is found for the wider range is found for the range itself.
    from_earlier :
        (begin end : Option (List ℕ)) (f : FileMetaData) (found : Option (List FileMetaData))
        → level0 ≡ true
        → starts_earlier user begin f ≡ true
        → Found (some (extract_user_key f.smallest)) end found
        → Found begin end found
    from_earlier begin end f found zeroth h (r, same, g) = (
      r,
      same,
      record {
        first = g.first;
        last = g.last;
        first_wider = λ x k. earlier_skips user lawful begin f h x (g.first_wider x k);
        last_wider = g.last_wider;
        files = g.files;
        within = g.within;
        exact = λ other. absurd (let wrong : ⊥ = cc in wrong);
      },
    )

    from_later :
        (begin end : Option (List ℕ)) (f : FileMetaData) (found : Option (List FileMetaData))
        → level0 ≡ true
        → ends_later user end f ≡ true
        → Found begin (some (extract_user_key f.largest)) found
        → Found begin end found
    from_later begin end f found zeroth h (r, same, g) = (
      r,
      same,
      record {
        first = g.first;
        last = g.last;
        first_wider = g.first_wider;
        last_wider = λ x k. later_skips user lawful end f h x (g.last_wider x k);
        files = g.files;
        within = g.within;
        exact = λ other. absurd (let wrong : ⊥ = cc in wrong);
      },
    )

    -- The files that are taken from `xs`.
    abbrev taken : Option (List ℕ) → Option (List ℕ) → List FileMetaData → List FileMetaData
    taken begin end xs = filter (touches user begin end) xs

    taken_last :
        (begin end : Option (List ℕ)) (xs : List FileMetaData) (f : FileMetaData)
        → touches user begin end f ≡ true
        → taken begin end (xs ++ (f ∷ [])) ≡ taken begin end xs ++ (f ∷ [])
    taken_last begin end xs f h = filter-append (touches user begin end) xs (f ∷ []) ∙ (rw h refl)

    skipped_last :
        (begin end : Option (List ℕ)) (xs : List FileMetaData) (f : FileMetaData)
        → touches user begin end f ≡ false
        → taken begin end (xs ++ (f ∷ [])) ≡ taken begin end xs
    skipped_last begin end xs f h =
        filter-append (touches user begin end) xs (f ∷ [])
        ∙ (rw h (append-nil (taken begin end xs)))

    moved :
        (begin end : Option (List ℕ)) (found found' : Option (List FileMetaData))
        → found ≡ found'
        → Found begin end found'
        → Found begin end found
    moved begin end found found' h (r, same, g) = (r, h ∙ same, g)

    -- The files that have been taken stay within the range when the next one is skipped or taken.
    abbrev TakenWithin : Option (List ℕ) → Option (List ℕ) → List FileMetaData → Type 0
    TakenWithin begin end xs = level0 ≡ true → All (IsWithin user begin end) (taken begin end xs)

    skip-TakenWithin :
        (begin end : Option (List ℕ)) (xs : List FileMetaData) (f : FileMetaData)
        → touches user begin end f ≡ false
        → TakenWithin begin end xs
        → TakenWithin begin end (xs ++ (f ∷ []))
    skip-TakenWithin begin end xs f h within zeroth =
        rw (skipped_last begin end xs f h) (within zeroth)

    take-TakenWithin :
        (begin end : Option (List ℕ)) (xs : List FileMetaData) (f : FileMetaData)
        → touches user begin end f ≡ true
        → (level0 ≡ true → IsWithin user begin end f)
        → TakenWithin begin end xs
        → TakenWithin begin end (xs ++ (f ∷ []))
    take-TakenWithin begin end xs f h fits within zeroth = rw (taken_last begin end xs f h) (
        All-append (IsWithin user begin end) (taken begin end xs) (f ∷ []) (within zeroth)
          (fits zeroth, tt))

    ended :
        (begin end : Option (List ℕ)) (xs : List FileMetaData)
        → all ≡ xs ++ []
        → TakenWithin begin end xs
        → Found begin end (some (taken begin end xs))
    ended begin end xs whole within = (
      taken begin end xs,
      refl,
      record {
        first = begin;
        last = end;
        first_wider = λ f h. h;
        last_wider = λ f h. h;
        files = ap (taken begin end) (sym (append-nil xs) ∙ sym whole);
        within = within;
        exact = λ other. (refl, refl);
      },
    )

    next_whole :
        (xs : List FileMetaData) (f : FileMetaData) (ys : List FileMetaData)
        → all ≡ xs ++ (f ∷ ys)
        → all ≡ (xs ++ (f ∷ [])) ++ ys
    next_whole xs f ys whole = whole ∙ sym (append_assoc xs (f ∷ []) ys)

    fewer_left_earlier :
        (xs : List FileMetaData) (f : FileMetaData) (ys : List FileMetaData)
        (begin end : Option (List ℕ))
        → all ≡ xs ++ (f ∷ ys)
        → starts_earlier user begin f ≡ true
        → restarts_needed user all (some (extract_user_key f.smallest)) end
          < restarts_needed user all begin end
    fewer_left_earlier xs f ys begin end whole h =
        rw whole (fewer_earlier user lawful xs f ys begin end h)

    fewer_left_later :
        (xs : List FileMetaData) (f : FileMetaData) (ys : List FileMetaData)
        (begin end : Option (List ℕ))
        → all ≡ xs ++ (f ∷ ys)
        → ends_later user end f ≡ true
        → restarts_needed user all begin (some (extract_user_key f.largest))
          < restarts_needed user all begin end
    fewer_left_later xs f ys begin end whole h =
        rw whole (fewer_later user lawful xs f ys begin end h)

    -- A file is skipped, starts the loop again from its first or last key, or is taken.
    data Round (begin end : Option (List ℕ)) (f : FileMetaData) : Type 0 where
      misses : is_before user begin f || is_after user end f ≡ true → Round begin end f
      earlier :
          is_before user begin f || is_after user end f ≡ false
          → level0 && starts_earlier user begin f ≡ true
          → Round begin end f
      later :
          is_before user begin f || is_after user end f ≡ false
          → level0 && starts_earlier user begin f ≡ false
          → level0 && ends_later user end f ≡ true
          → Round begin end f
      takes :
          is_before user begin f || is_after user end f ≡ false
          → level0 && starts_earlier user begin f ≡ false
          → level0 && ends_later user end f ≡ false
          → Round begin end f

    round : (begin end : Option (List ℕ)) (f : FileMetaData) → Round begin end f
    round begin end f = elim (Bool-cases (is_before user begin f || is_after user end f)) [
      | inl outside ↦ misses outside
      | inr inside ↦ elim (Bool-cases (level0 && starts_earlier user begin f)) [
        | inl early ↦ earlier inside early
        | inr not_early ↦ elim (Bool-cases (level0 && ends_later user end f)) [
          | inl late ↦ later inside not_early late
          | inr not_late ↦ takes inside not_early not_late
        ]
      ]
    ]

    inputs_loop-Found :
        (restarts : ℕ) (before rest : List FileMetaData) (begin end : Option (List ℕ))
        → all ≡ before ++ rest
        → restarts_needed user all begin end ≤ restarts
        → TakenWithin begin end before
        → Found begin end
            (inputs_loop user level0 all restarts rest begin end (taken begin end before))
    unfolding inputs_loop
    inputs_loop-Found zero before [] begin end whole enough within =
        ended begin end before whole within
    inputs_loop-Found (suc restarts) before [] begin end whole enough within =
        ended begin end before whole within
    inputs_loop-Found zero before (f ∷ rest) begin end whole enough within =
        elim (round begin end f) [
          | misses outside ↦
              let skip : touches user begin end f ≡ false = ap not outside in
              moved begin end _ _
                (rw outside (
                  ap (inputs_loop user level0 all 0 rest begin end)
                    (sym (skipped_last begin end before f skip))))
                (inputs_loop-Found zero (before ++ (f ∷ [])) rest begin end
                  (next_whole before f rest whole) enough
                  (skip-TakenWithin begin end before f skip within))
          | earlier inside early ↦
              let less =
                fewer_left_earlier before f rest begin end whole (and_right level0 _ early) in
              absurd (omega arith)
          | later inside not_early late ↦
              let less = fewer_left_later before f rest begin end whole (and_right level0 _ late) in
              absurd (omega arith)
          | takes inside not_early not_late ↦
              let take : touches user begin end f ≡ true = ap not inside in
              moved begin end _ _
                (rw (inside, neither level0 _ _ not_early not_late)
                  (ap (inputs_loop user level0 all 0 rest begin end)
                    (sym (taken_last begin end before f take))))
                (inputs_loop-Found zero (before ++ (f ∷ [])) rest begin end
                  (next_whole before f rest whole) enough
                  (take-TakenWithin begin end before f take (stays level0 _ _ not_early not_late)
                    within))
        ]
    inputs_loop-Found (suc restarts) before (f ∷ rest) begin end whole enough within =
        elim (round begin end f) [
          | misses outside ↦
              let skip : touches user begin end f ≡ false = ap not outside in
              moved begin end _ _
                (rw outside (
                  ap (inputs_loop user level0 all (suc restarts) rest begin end)
                    (sym (skipped_last begin end before f skip))))
                (inputs_loop-Found (suc restarts) (before ++ (f ∷ [])) rest begin end
                  (next_whole before f rest whole) enough
                  (skip-TakenWithin begin end before f skip within))
          | earlier inside early ↦
              let less =
                fewer_left_earlier before f rest begin end whole (and_right level0 _ early) in
              moved begin end _ _ (rw (inside, early) refl) (
                from_earlier begin end f _ (and_left level0 _ early) (and_right level0 _ early) (
                  inputs_loop-Found restarts [] all (some (extract_user_key f.smallest)) end refl
                    (omega arith) (λ h. tt)))
          | later inside not_early late ↦
              let less = fewer_left_later before f rest begin end whole (and_right level0 _ late) in
              moved begin end _ _ (rw (inside, not_early, late) refl) (
                from_later begin end f _ (and_left level0 _ late) (and_right level0 _ late) (
                  inputs_loop-Found restarts [] all begin (some (extract_user_key f.largest)) refl
                    (omega arith) (λ h. tt)))
          | takes inside not_early not_late ↦
              let take : touches user begin end f ≡ true = ap not inside in
              moved begin end _ _
                (rw (inside, not_early, not_late)
                  (ap (inputs_loop user level0 all (suc restarts) rest begin end)
                    (sym (taken_last begin end before f take))))
                (inputs_loop-Found (suc restarts) (before ++ (f ∷ [])) rest begin end
                  (next_whole before f rest whole) enough
                  (take-TakenWithin begin end before f take (stays level0 _ _ not_early not_late)
                    within))
        ]

  -- GetOverlappingInputs ends, with two restarts for each file as many as it needs. What it collects are
  -- the files of the level that reach into some range, which holds the range asked for and in a level above 0
  -- is that range; in level 0 none of them reaches beyond it.
  pub get_overlapping_inputs-Gathered :
      (files : Files) (level : ℕ) (begin end : Option (List ℕ))
      → (r : List FileMetaData) × (get_overlapping_inputs user files level begin end ≡ some r)
        × Gathered user (level == 0) (files level) (user_key_of begin) (user_key_of end) r
  unfolding get_overlapping_inputs
  get_overlapping_inputs-Gathered files level begin end =
      let starts = count_bound (starts_earlier user (user_key_of begin)) (files level) in
      let ends = count_bound (ends_later user (user_key_of end)) (files level) in
      inputs_loop-Found (level == 0) (files level) (2 * length (files level)) [] (files level)
        (user_key_of begin) (user_key_of end) refl (omega (arith, starts, ends)) (λ h. tt)

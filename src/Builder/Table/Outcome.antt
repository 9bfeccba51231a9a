-- ===== src/Builder/Table/Outcome.antt =====
-- The status, the metadata and the fate of the file, on every branch of BuildTable.
use e_lsm_p.Base.{
  ℕ, ◌+◌, ◌<◌, ◌≡◌, ◌≢◌, ◌↔◌, ◌⊎◌, inl, inr, refl, sym, ap, ◌∙◌, true, false, none, some, List, [],
  ◌∷◌, ◌++◌, length, take, take-append, map, All, Option-cases, ltb, ◌&&◌, not, if◌then◌else◌,
  arith,
}
use e_lsm_p.Status.{Status, ok, status_ok}
use e_lsm_p.VersionEdit.{FileMetaData}
use e_lsm_p.Builder.Tree.{Digest, Slots, Entry, build_tree, proof_loop, root}
use e_lsm_p.Builder.Table.Authentic.{build_table_parts}
use e_lsm_p.Builder.Table.{
  value_size, join, Answers, Built, add_loop, build_table, last_key, and_then, unless_failed,
}

-- The first of the statuses that is not OK.
abbrev pub first_failure : List Status → Status
first_failure [] = none
first_failure (none ∷ rest) = first_failure rest
first_failure (some state ∷ rest) = some state

-- The record without the proof behind its value.
abbrev pub without_proof : Entry → Entry
without_proof (key, value) = (key, take value_size value)

abbrev pub HasFullValue : Entry → Type 0
HasFullValue (key, value) = length value ≡ value_size

add_loop-without_proof :
    (records height ppos : ℕ) (merkle : Slots) (past : List ℕ) (entries : List Entry)
    → All HasFullValue entries
    → map without_proof (add_loop records height merkle past ppos entries) ≡ entries
unfolding add_loop
add_loop-without_proof records height ppos merkle past [] full = refl
add_loop-without_proof records height ppos merkle past ((key, value) ∷ rest) (here, full) =
    let proof = join (proof_loop records height ppos merkle) in
    let front : take value_size (value ++ past) ≡ value =
      ap (λ (n : ℕ). take n (value ++ past)) (sym here) ∙ take-append value past in
    let cut : take value_size (value ++ proof) ≡ value =
      ap (λ (n : ℕ). take n (value ++ proof)) (sym here) ∙ take-append value proof in
    ap
      (λ (v : List ℕ).
        (key, take value_size (v ++ proof))
        ∷ map without_proof (add_loop records height merkle past (ppos + 1) rest))
      front
    ∙ ap
        (λ (v : List ℕ).
          (key, v) ∷ map without_proof (add_loop records height merkle past (ppos + 1) rest))
        cut
    ∙ ap (λ (t : List Entry). (key, value) ∷ t)
        (add_loop-without_proof records height (ppos + 1) merkle past rest full)

module _ (cmac : List ℕ → Digest) (records height : ℕ) (fresh : Slots) (past : List ℕ)
    (answers : Answers) (meta : FileMetaData) where
  abbrev run : List Entry → Built
  run = build_table cmac records height fresh past answers meta

  -- With no records no file is written: the status is the iterator's, the file's name is deleted.
  pub build_table_empty :
      ((run []).status ≡ answers.iterated)
      × ((run []).added ≡ [])
      × ((run []).deleted ≡ true)
      × ((run []).meta ≡ record meta { file_size = 0 })
  unfolding build_table
  build_table_empty = ground arith

  not_created :
      (key value : List ℕ) (rest : List Entry) (state : List ℕ)
      → answers.created ≡ some state
      → (answers.created ≢ ok)
        × ((run ((key, value) ∷ rest)).status ≡ answers.created)
        × ((run ((key, value) ∷ rest)).added ≡ [])
        × ((run ((key, value) ∷ rest)).deleted ≡ false)
  unfolding build_table
  not_created key value rest state failed = ((λ h. cc), rw failed, rw failed, rw failed)

  finished_status :
      (i f s c u : Status)
      → unless_failed i (and_then (and_then (and_then f s) c) u)
        ≡ first_failure (i ∷ f ∷ s ∷ c ∷ u ∷ [])
  finished_status i f s c u = ground arith

  kept_iff :
      (i f s c u : Status) (n : ℕ)
      → (not (
            status_ok (unless_failed i (and_then (and_then (and_then f s) c) u))
            && ltb 0 (if status_ok f then n else 0))
          ≡ false)
        ↔ ((unless_failed i (and_then (and_then (and_then f s) c) u) ≡ ok) × (0 < n))
  kept_iff i f s c u n = (λ h. ground arith, λ h. ground arith)

  created :
      (key value : List ℕ) (rest : List Entry)
      → All HasFullValue ((key, value) ∷ rest)
      → answers.created ≡ ok
      → (answers.created ≡ ok)
        × ((run ((key, value) ∷ rest)).status
            ≡ first_failure (
                answers.iterated ∷ answers.finished ∷ answers.synced ∷ answers.closed
                ∷ answers.usable ∷ []))
        × (map without_proof (run ((key, value) ∷ rest)).added ≡ (key, value) ∷ rest)
        × ((run ((key, value) ∷ rest)).meta.smallest ≡ key)
        × ((run ((key, value) ∷ rest)).meta.largest ≡ last_key key rest)
        × ((run ((key, value) ∷ rest)).meta.rh
            ≡ some (root records (build_tree cmac records height fresh ((key, value) ∷ rest))))
        × (((run ((key, value) ∷ rest)).deleted ≡ false)
            ↔ (((run ((key, value) ∷ rest)).status ≡ ok) × (0 < answers.built_size)))
  created key value rest full made =
      let parts =
        build_table_parts cmac records height fresh past answers meta (key, value) rest made in
      let merkle = build_tree cmac records height fresh ((key, value) ∷ rest) in
      (
        made,
        (unfold build_table in
            rw made (
              finished_status answers.iterated answers.finished answers.synced answers.closed
                answers.usable)),
        rw (parts.0)
            (add_loop-without_proof records height 0 merkle past ((key, value) ∷ rest) full),
        (unfold build_table in rw made),
        (unfold build_table in rw made),
        parts.1,
        (unfold build_table in
            rw made (
              kept_iff answers.iterated answers.finished answers.synced answers.closed
                answers.usable answers.built_size)),
      )

  -- With records whose values have VSIZE bytes: the outcome of BuildTable. If the file cannot be created
  -- that status is returned at once, nothing is added and nothing deleted. Otherwise the records added,
  -- without the proofs behind their values, are those of the iterator in their order, the status is the iterator's failure, or else the first failure of Finish, Sync, Close and the check of the
  -- new table; the metadata has the first and the last key and the root of the tree; and the file
  -- is deleted unless the status is OK and the builder reported a size.
  pub build_table_outcome :
      (key value : List ℕ) (rest : List Entry)
      → All HasFullValue ((key, value) ∷ rest)
      → ((answers.created ≢ ok)
          × ((run ((key, value) ∷ rest)).status ≡ answers.created)
          × ((run ((key, value) ∷ rest)).added ≡ [])
          × ((run ((key, value) ∷ rest)).deleted ≡ false))
        ⊎ ((answers.created ≡ ok)
            × ((run ((key, value) ∷ rest)).status
                ≡ first_failure (
                    answers.iterated ∷ answers.finished ∷ answers.synced ∷ answers.closed
                    ∷ answers.usable ∷ []))
            × (map without_proof (run ((key, value) ∷ rest)).added ≡ (key, value) ∷ rest)
            × ((run ((key, value) ∷ rest)).meta.smallest ≡ key)
            × ((run ((key, value) ∷ rest)).meta.largest ≡ last_key key rest)
            × ((run ((key, value) ∷ rest)).meta.rh
                ≡ some (root records (build_tree cmac records height fresh ((key, value) ∷ rest))))
            × (((run ((key, value) ∷ rest)).deleted ≡ false)
                ↔ (((run ((key, value) ∷ rest)).status ≡ ok) × (0 < answers.built_size))))
  build_table_outcome key value rest full = elim (Option-cases answers.created) [
    | inl made ↦ inr (created key value rest full made)
    | inr (state, failed) ↦ inl (not_created key value rest state failed)
  ]

-- ===== src/Builder/Table/Authentic.antt =====
-- The records of a table that BuildTable finished carry proofs that lead to the root it kept.
use e_lsm_p.Base.{
  ℕ, ◌+◌, ◌*◌, ◌^◌, ◌<◌, ◌≡◌, sym, ap, ◌∙◌, some, List, [], ◌∷◌, ◌++◌, length, take, get_elem?,
  arith, take-append,
}
use e_lsm_p.Status.{ok}
use e_lsm_p.VersionEdit.{FileMetaData}
use e_lsm_p.Builder.Tree.{Digest, Slots, Entry, build_tree, proof_loop, root}
use e_lsm_p.Builder.Tree.Proofs.{climb, climb-build_tree}
use e_lsm_p.Builder.Table.{Answers, value_size, join, add_loop, build_table}

add_loop_at :
    (records height ppos : ℕ) (merkle : Slots) (past : List ℕ) (front back : List Entry)
    (key value : List ℕ)
    → length value ≡ value_size
    → get_elem?
        (add_loop records height merkle past ppos (front ++ ((key, value) ∷ back)))
        (length front)
      ≡ some (key, value ++ join (proof_loop records height (ppos + length front) merkle))
unfolding add_loop
add_loop_at records height ppos merkle past [] back key value full =
    ap (λ (v : List ℕ). some (key, v ++ join (proof_loop records height ppos merkle)))
      (ap (λ (n : ℕ). take n (value ++ past)) (sym full) ∙ take-append value past)
    ∙ ap (λ (n : ℕ). some (key, value ++ join (proof_loop records height n merkle))) (omega arith)
add_loop_at records height ppos merkle past ((k, v) ∷ front) back key value full =
    add_loop_at records height (ppos + 1) merkle past front back key value full
    ∙ ap (λ (n : ℕ). some (key, value ++ join (proof_loop records height n merkle))) (omega arith)

-- What is added and what root is kept, for the records of a valid iterator.
pub build_table_parts :
    (cmac : List ℕ → Digest) (records height : ℕ) (fresh : Slots) (past : List ℕ)
    (answers : Answers) (meta : FileMetaData) (first : Entry) (rest : List Entry)
    → answers.created ≡ ok
    → ((build_table cmac records height fresh past answers meta (first ∷ rest)).added
        ≡ add_loop records height
            (build_tree cmac records height fresh (first ∷ rest))
            past
            0
            (first ∷ rest))
      × ((build_table cmac records height fresh past answers meta (first ∷ rest)).meta.rh
          ≡ some (root records (build_tree cmac records height fresh (first ∷ rest))))
build_table_parts cmac records height fresh past answers meta (k, v) rest made =
    unfold build_table in (rw made, rw made)

add_loop_front :
    (records height : ℕ) (merkle : Slots) (past : List ℕ) (front back : List Entry)
    (key value : List ℕ)
    → length value ≡ value_size
    → get_elem?
        (add_loop records height merkle past 0 (front ++ ((key, value) ∷ back)))
        (length front)
      ≡ some (key, value ++ join (proof_loop records height (length front) merkle))
add_loop_front records height merkle past front back key value full =
    add_loop_at records height 0 merkle past front back key value full
    ∙ ap (λ (n : ℕ). some (key, value ++ join (proof_loop records height n merkle))) (omega arith)

-- If the file could be created, every record among the first 2 ^ height whose value has VSIZE bytes
-- is added in its place, under its key, as its value followed by a proof, and that proof leads from
-- the code of the record to the root that the metadata keeps.
pub build_table-authentic :
    (cmac : List ℕ → Digest) (height : ℕ) (fresh : Slots) (past : List ℕ) (answers : Answers)
    (meta : FileMetaData) (front back : List Entry) (key value : List ℕ)
    → answers.created ≡ ok
    → length fresh ≡ 2 * 2 ^ height
    → length front < 2 ^ height
    → length value ≡ value_size
    → let built =
        build_table cmac
          (2 ^ height)
          height
          fresh
          past
          answers
          meta
          (front ++ ((key, value) ∷ back)) in
      let proof =
        proof_loop
          (2 ^ height)
          height
          (length front)
          (build_tree cmac (2 ^ height) height fresh (front ++ ((key, value) ∷ back))) in
      (get_elem? built.added (length front) ≡ some (key, value ++ join proof))
      × (built.meta.rh ≡ some (climb cmac (2 ^ height) (length front) (cmac (key ++ value)) proof))
build_table-authentic cmac height fresh past answers meta [] back key value made size inside full =
    let (added, kept) =
      build_table_parts cmac (2 ^ height) height fresh past answers meta (key, value) back made in
    (
      rw added (add_loop_front (2 ^ height) height _ past [] back key value full),
      kept ∙ ap some (sym (climb-build_tree cmac height fresh [] back key value size inside)),
    )
build_table-authentic cmac height fresh past answers meta (e ∷ front) back key value made size
      inside full =
    let (added, kept) =
      build_table_parts cmac (2 ^ height) height fresh past answers meta e
        (front ++ ((key, value) ∷ back)) made in
    (
      rw added (add_loop_front (2 ^ height) height _ past (e ∷ front) back key value full),
      kept
          ∙ ap some
              (sym (climb-build_tree cmac height fresh (e ∷ front) back key value size inside)),
    )

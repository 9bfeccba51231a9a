-- ===== src/Version/Builder/Merge.antt =====
-- SaveTo of Enclave/leveldb/db/version_set.cpp: the merge of the base files with the added ones.
use e_lsm_p.Base.{
  ℕ, ◌+◌, ◌≡◌, inl, inr, refl, sym, ap, ◌∙◌, Bool, false, not, List, [], ◌∷◌, ◌++◌, map, filter,
  All, Bool-cases, append_assoc, append-nil,
}
use e_lsm_p.Comparator.{Comparator}
use e_lsm_p.VersionEdit.{FileMetaData}
use e_lsm_p.Version.Builder.{
  by_smallest_key, contains, maybe_add_file, maybe_add_files, upper_bound, save_loop,
}

module _ (user : Comparator) where
  -- The added files merged into the base files, and what SaveTo makes of a file.
  unfoldable pub merge : List FileMetaData → List FileMetaData → List FileMetaData
  merge [] base = base
  merge (a ∷ added) base =
      let (before, rest) = upper_bound user a base in before ++ (a ∷ merge added rest)

  -- `f` does not come behind `g`.
  abbrev pub IsBefore : FileMetaData → FileMetaData → Type 0
  IsBefore f g = by_smallest_key user g f ≡ false

  abbrev pub IsSorted : List FileMetaData → Type 0
  IsSorted [] = Unit {0}
  IsSorted (f ∷ fs) = All (IsBefore f) fs × IsSorted fs

abbrev pub kept : List ℕ → FileMetaData → Bool
kept deleted f = not (contains f.number deleted)

abbrev pub referred : FileMetaData → FileMetaData
referred f = record f { refs = f.refs + 1 }

-- The files of a list that are not deleted, with one more reference each.
abbrev pub saved_files : List ℕ → List FileMetaData → List FileMetaData
saved_files deleted fs = map referred (filter (kept deleted) fs)

saved_files-append :
    (deleted : List ℕ) (fs gs : List FileMetaData)
    → saved_files deleted (fs ++ gs) ≡ saved_files deleted fs ++ saved_files deleted gs
saved_files-append deleted [] gs = refl
saved_files-append deleted (f ∷ fs) gs =
    let rest = saved_files-append deleted fs gs in
    elim (Bool-cases (contains f.number deleted)) [
      | inl gone ↦ rw gone rest
      | inr here ↦ rw here (ap (λ t. referred f ∷ t) rest)
    ]

module _ (user : Comparator) (deleted : List ℕ) where
  add_one :
      (files : List FileMetaData) (f : FileMetaData)
      → maybe_add_file user deleted files f ≡ files ++ saved_files deleted (f ∷ [])
  add_one files f = elim (Bool-cases (contains f.number deleted)) [
    | inl gone ↦ rw gone (sym (append-nil files))
    | inr here ↦ rw here refl
  ]

  add_all :
      (fs files : List FileMetaData)
      → maybe_add_files user deleted files fs ≡ files ++ saved_files deleted fs
  add_all [] files = sym (append-nil files)
  add_all (f ∷ fs) files =
      add_all fs (maybe_add_file user deleted files f)
      ∙ ap (λ t. t ++ saved_files deleted fs) (add_one files f)
      ∙ append_assoc files (saved_files deleted (f ∷ [])) (saved_files deleted fs)
      ∙ ap (λ t. files ++ t) (sym (saved_files-append deleted (f ∷ []) fs))

  pub save_loop-merge :
      (added base files : List FileMetaData)
      → save_loop user deleted added base files
        ≡ files ++ saved_files deleted (merge user added base)
  unfolding save_loop merge
  save_loop-merge [] base files = add_all base files
  save_loop-merge (a ∷ added) base files =
      let before = (upper_bound user a base).0 in
      let rest = (upper_bound user a base).1 in
      let tail = saved_files deleted (merge user added rest) in
      save_loop-merge added rest
        (maybe_add_file user deleted (maybe_add_files user deleted files before) a)
      ∙ ap (λ t. t ++ tail)
          (add_one (maybe_add_files user deleted files before) a
            ∙ ap (λ t. t ++ saved_files deleted (a ∷ [])) (add_all before files))
      ∙ append_assoc (files ++ saved_files deleted before) (saved_files deleted (a ∷ [])) tail
      ∙ append_assoc files (saved_files deleted before) (saved_files deleted (a ∷ []) ++ tail)
      ∙ ap (λ t. files ++ (saved_files deleted before ++ t))
          (sym (saved_files-append deleted (a ∷ []) (merge user added rest)))
      ∙ ap (λ t. files ++ t) (sym (saved_files-append deleted before (a ∷ merge user added rest)))

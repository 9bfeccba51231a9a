-- ===== src/Compaction/Grandparents.antt =====
-- ShouldStopBefore, IsTrivialMove and AddInputDeletions of the class Compaction, Enclave/leveldb/db/version_set.cpp.
use e_lsm_p.Base.{
  ℕ, zero, suc, ◌+◌, ◌-◌, ◌≤◌, ◌<◌, ◌≡◌, inl, inr, refl, ap, ◌∙◌, Bool, true, false, ◌&&◌, List, [],
  ◌∷◌, length, drop, leb, ltb, ◌==◌, if◌then◌else◌, arith, Bool-cases, ltb→lt,
}
use e_lsm_p.Comparator.{Comparator}
use e_lsm_p.DbFormat.{internal_compare}
use e_lsm_p.VersionEdit.{FileMetaData, VersionEdit, delete_file}
use e_lsm_p.Version.{is_gt, file_at, total_file_size}
use e_lsm_p.Version.Pick.{max_grand_parent_overlap_bytes}
use e_lsm_p.Compaction.{Compaction}

module _ (user : Comparator) (internal_key : List ℕ) where
  -- The key is behind a grandparent.
  abbrev pub is_over : FileMetaData → Bool
  is_over f = is_gt (internal_compare user internal_key f.largest)

  -- The loop of ShouldStopBefore on grandparent_index_ and overlapped_bytes_, with the rounds that are left.
  unfoldable pub stop_loop : List FileMetaData → Bool → ℕ → ℕ → ℕ → ℕ × ℕ
  stop_loop gs seen_key zero index bytes = (index, bytes)
  stop_loop gs seen_key (suc rounds) index bytes =
      let more = if seen_key then bytes + (file_at gs index).file_size else bytes in
      let rest = stop_loop gs seen_key rounds (index + 1) more in
      if ltb index (length gs) && is_over (file_at gs index) then rest else (index, bytes)

  abbrev pub stop_at : ℕ → Compaction → ℕ × ℕ → Bool × Compaction
  stop_at max_file_size c (index, bytes) =
      if ltb (max_grand_parent_overlap_bytes max_file_size) bytes
      then (true, record c { grandparent_index = index; seen_key = true; overlapped_bytes = 0 })
      else (
        false,
        record c { grandparent_index = index; seen_key = true; overlapped_bytes = bytes },
      )

  unfoldable pub should_stop_before : ℕ → Compaction → Bool × Compaction
  unfolding stop_loop
  should_stop_before max_file_size c = stop_at max_file_size c (
      stop_loop c.grandparents c.seen_key (length c.grandparents - c.grandparent_index)
        c.grandparent_index c.overlapped_bytes)

  -- The grandparents at the front that the key is behind.
  abbrev pub passed_over : List FileMetaData → List FileMetaData
  passed_over [] = []
  passed_over (g ∷ gs) = if is_over g then g ∷ passed_over gs else []

  drop-suc :
      (gs : List FileMetaData) (index : ℕ)
      → index < length gs
      → drop index gs ≡ file_at gs index ∷ drop (suc index) gs
  drop-suc [] index h = absurd (omega arith)
  drop-suc (g ∷ gs) zero h = refl
  drop-suc (g ∷ gs) (suc index) h = drop-suc gs index (omega arith)

  drop_next :
      (gs : List FileMetaData) (index : ℕ)
      → index < length gs
      → drop index gs ≡ file_at gs index ∷ drop (index + 1) gs
  drop_next gs index h =
      let same : suc index ≡ index + 1 = omega arith in
      drop-suc gs index h ∙ ap (λ n. file_at gs index ∷ drop n gs) same

  drop_all : (gs : List FileMetaData) (index : ℕ) → length gs ≤ index → drop index gs ≡ []
  drop_all [] zero h = refl
  drop_all [] (suc index) h = refl
  drop_all (g ∷ gs) zero h = absurd (omega arith)
  drop_all (g ∷ gs) (suc index) h = drop_all gs index (omega arith)

  -- What the loop adds to the bytes.
  abbrev pub counted : Bool → List FileMetaData → ℕ
  counted seen_key gs = if seen_key then total_file_size gs else 0

  pair_of : (m m' n n' : ℕ) → m ≡ m' → n ≡ n' → ◌≡◌ {A = ℕ × ℕ} (m, n) (m', n')
  pair_of m m' n n' h k = rw (h, k) refl

  none_counted :
      (seen_key : Bool) (index bytes : ℕ)
      → ◌≡◌ {A = ℕ × ℕ} (index, bytes) (index + 0, bytes + counted seen_key [])
  unfolding total_file_size
  none_counted true index bytes =
      pair_of index (index + 0) bytes (bytes + 0) (omega arith) (omega arith)
  none_counted false index bytes =
      pair_of index (index + 0) bytes (bytes + 0) (omega arith) (omega arith)

  counted_next :
      (seen_key : Bool) (g : FileMetaData) (gs : List FileMetaData) (bytes : ℕ)
      → (if seen_key then bytes + g.file_size else bytes) + counted seen_key gs
        ≡ bytes + counted seen_key (g ∷ gs)
  unfolding total_file_size
  counted_next true g gs bytes = omega arith
  counted_next false g gs bytes = omega arith

  stop_loop-passed_over :
      (gs : List FileMetaData) (seen_key : Bool) (rounds index bytes : ℕ)
      → length gs ≤ index + rounds
      → let passed = passed_over (drop index gs) in
        stop_loop gs seen_key rounds index bytes
        ≡ (index + length passed, bytes + counted seen_key passed)
  unfolding stop_loop
  stop_loop-passed_over gs seen_key zero index bytes enough =
      rw (drop_all gs index (omega arith)) (none_counted seen_key index bytes)
  stop_loop-passed_over gs seen_key (suc rounds) index bytes enough =
      elim (Bool-cases (ltb index (length gs))) [
        | inr ended ↦
            rw (ended, drop_all gs index (ground (arith, ended)))
              (none_counted seen_key index bytes)
        | inl inside ↦
            let g = file_at gs index in
            let next = drop_next gs index (ltb→lt index (length gs) inside) in
            elim (Bool-cases (is_over g)) [
              | inr stops ↦ rw (inside, next, stops) (none_counted seen_key index bytes)
              | inl over ↦
                  let rest =
                    stop_loop-passed_over gs seen_key rounds (index + 1)
                      (if seen_key then bytes + g.file_size else bytes) (omega arith) in
                  rw (inside, next, over)
                    (rest
                      ∙ pair_of _ _ _ _ (omega arith)
                          (counted_next seen_key g (passed_over (drop (index + 1) gs)) bytes))
            ]
      ]

  -- ShouldStopBefore moves grandparent_index_ over the grandparents that the key is behind, adds their sizes to the
  -- overlapped bytes unless it is the first key, and stops, with the bytes reset, when they exceed the limit. The
  -- loop ends.
  pub should_stop_before-passed_over :
      (max_file_size : ℕ) (c : Compaction)
      → let passed = passed_over (drop c.grandparent_index c.grandparents) in
        should_stop_before max_file_size c
        ≡ stop_at max_file_size c
            (c.grandparent_index + length passed, c.overlapped_bytes + counted c.seen_key passed)
  unfolding should_stop_before
  should_stop_before-passed_over max_file_size c = ap (stop_at max_file_size c) (
      stop_loop-passed_over c.grandparents c.seen_key (length c.grandparents - c.grandparent_index)
        c.grandparent_index c.overlapped_bytes (omega arith))

unfoldable pub is_trivial_move : ℕ → Compaction → Bool
unfolding total_file_size
is_trivial_move max_file_size c =
    (length c.inputs0 == 1)
    && (length c.inputs1 == 0)
    && leb (total_file_size c.grandparents) (max_grand_parent_overlap_bytes max_file_size)

-- The loops of AddInputDeletions.
unfoldable pub delete_files : ℕ → List FileMetaData → VersionEdit → VersionEdit
unfolding delete_file
delete_files level [] edit = edit
delete_files level (f ∷ fs) edit = delete_files level fs (delete_file level f.number edit)

unfoldable pub add_input_deletions : Compaction → VersionEdit → VersionEdit
unfolding delete_files
add_input_deletions c edit =
    delete_files (c.level + 1) c.inputs1 (delete_files c.level c.inputs0 edit)

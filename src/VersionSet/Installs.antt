-- ===== src/VersionSet/Installs.antt =====
-- LogAndApply of Enclave/leveldb/db/version_set.cpp: the version that it installs, and what an error leaves.
use e_lsm_p.Base.{ℕ, ◌+◌, ◌≡◌, Bool, true, false, ◌&&◌, List, [], ◌∷◌, if◌then◌else◌, count}
use e_lsm_p.Comparator.{Comparator}
use e_lsm_p.Status.{Status}
use e_lsm_p.VersionEdit.{FileMetaData, VersionEdit}
use e_lsm_p.Version.Builder.{Builder}
use e_lsm_p.Version.Builder.Merge.{IsSorted, kept, referred}
use e_lsm_p.VersionSet.{VersionSet, LogAnswers}

-- The files of each level of the current version are in the order of BySmallestKey.
abbrev pub AreSorted : Comparator → VersionSet → Type 0
AreSorted user vs = (level : ℕ) → IsSorted user (vs.current level)

-- The answers of the calls that LogAndApply makes, in their order.
abbrev pub calls : LogAnswers → Bool → List Status
calls answers true = answers.recorded ∷ answers.synced ∷ []
calls answers false =
    answers.created ∷ answers.snapshot ∷ answers.recorded ∷ answers.synced ∷ answers.renamed ∷ []

-- An error has changed nothing of the set but compact_pointer_.
pub record Untouched (vs vs' : VersionSet) : Type 0 where
  pub current : vs'.current ≡ vs.current
  pub next_file_number : vs'.next_file_number ≡ vs.next_file_number
  pub last_sequence : vs'.last_sequence ≡ vs.last_sequence
  pub log_number : vs'.log_number ≡ vs.log_number
  pub prev_log_number : vs'.prev_log_number ≡ vs.prev_log_number
  pub has_descriptor_log : vs'.has_descriptor_log ≡ vs.has_descriptor_log

-- The set with the edit in it: each level has the files of the version before and those that the edit adds,
-- less those that it deletes, each with one more reference; the log numbers are those of the edit where it has them.
pub record HasEdit (edit : VersionEdit) (b : Builder) (vs vs' : VersionSet) : Type 0 where
  pub current :
      (level : ℕ) (p : FileMetaData → Bool)
      → let q = λ (f : FileMetaData). kept (b.deleted_files level) f && p (referred f) in
        count p (vs'.current level) ≡ count q (vs.current level) + count q (b.added_files level)
  pub next_file_number : vs'.next_file_number ≡ vs.next_file_number
  pub last_sequence : vs'.last_sequence ≡ vs.last_sequence
  pub log_number : vs'.log_number ≡ (if edit.has_log_number then edit.log_number else vs.log_number)
  pub prev_log_number :
      vs'.prev_log_number
      ≡ (if edit.has_prev_log_number then edit.prev_log_number else vs.prev_log_number)
  pub has_descriptor_log : vs'.has_descriptor_log ≡ true

-- The edit as it is to be recorded: the log numbers of the set where it has none, and in any case the set's next
-- file number and last sequence number.
abbrev pub recorded : VersionEdit → VersionSet → VersionEdit
recorded edit vs = record edit {
  log_number = if edit.has_log_number then edit.log_number else vs.log_number;
  has_log_number = true;
  prev_log_number = if edit.has_prev_log_number then edit.prev_log_number else vs.prev_log_number;
  has_prev_log_number = true;
  next_file_number = vs.next_file_number;
  has_next_file_number = true;
  last_sequence = vs.last_sequence;
  has_last_sequence = true;
}

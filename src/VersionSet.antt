-- ===== src/VersionSet.antt =====
-- The class VersionSet of Enclave/leveldb/db/version_set.cpp: how an edit becomes the current version. What the environment
-- and the log answer are parameters; Finalize, which sets scores that are doubles, is left out.
pub mod Installs
use e_lsm_p.Base.{ℕ, ◌+◌, Bool, true, false, Option, none, some, List, [], leb, if◌then◌else◌}
use e_lsm_p.Builder.Table.{and_then}
use e_lsm_p.Comparator.{Comparator}
use e_lsm_p.Status.{Status, ok, status_ok}
use e_lsm_p.VersionEdit.{
  VersionEdit, set_log_number, set_prev_log_number, set_next_file, set_last_sequence, encode_to,
}
use e_lsm_p.Version.{Files}
use e_lsm_p.Version.Builder.{Builder, new_builder, apply, save_to}

-- `has_descriptor_log` tells whether descriptor_log_ and descriptor_file_ are set.
pub record VersionSet : Type 0 where
  pub current : Files
  pub next_file_number : ℕ
  pub last_sequence : ℕ
  pub log_number : ℕ
  pub prev_log_number : ℕ
  pub compact_pointer : ℕ → List ℕ
  pub has_descriptor_log : Bool

-- What NewUnSecureWritableFile, WriteSnapshot, AddRecord, Sync and SetCurrentFile answer.
pub record LogAnswers : Type 0 where
  pub created : Status
  pub snapshot : Status
  pub recorded : Status
  pub synced : Status
  pub renamed : Status

-- The edit with the numbers of the set filled in.
abbrev pub filled_in : VersionEdit → VersionSet → VersionEdit
filled_in edit vs =
    let numbered = if edit.has_log_number then edit else set_log_number vs.log_number edit in
    let both =
      if numbered.has_prev_log_number
      then numbered
      else set_prev_log_number vs.prev_log_number numbered in
    set_last_sequence vs.last_sequence (set_next_file vs.next_file_number both)

-- The builder at the current version, with the edit applied.
abbrev pub built : Comparator → VersionEdit → VersionSet → Builder
built user edit vs = apply user edit (new_builder vs.compact_pointer)

-- The status after the calls, those for a new descriptor among them if there is none yet.
abbrev pub status_of : LogAnswers → Bool → Status
status_of answers true = and_then answers.recorded answers.synced
status_of answers false =
    and_then
      (and_then (and_then (and_then answers.created answers.snapshot) answers.recorded)
        answers.synced)
      answers.renamed

-- The set after LogAndApply: the version is installed, or left out. Apply has moved compact_pointer_ either way.
abbrev pub installed : Status → VersionEdit → Builder → Files → VersionSet → VersionSet
installed none edit b v vs = record vs {
  current = v;
  log_number = edit.log_number;
  prev_log_number = edit.prev_log_number;
  compact_pointer = b.compact_pointer;
  has_descriptor_log = true;
}
installed (some state) edit b v vs = record vs { compact_pointer = b.compact_pointer }

-- LogAndApply: the status, the record for the MANIFEST, and the set.
unfoldable pub log_and_apply :
    Comparator → LogAnswers → VersionEdit → VersionSet → Status × List ℕ × VersionSet
unfolding apply save_to encode_to set_log_number set_prev_log_number set_next_file set_last_sequence
log_and_apply user answers edit vs =
    let edit' = filled_in edit vs in
    let b = built user edit' vs in
    let status = status_of answers vs.has_descriptor_log in
    (status, encode_to edit' [], installed status edit' b (save_to user b vs.current) vs)

-- MarkFileNumberUsed.
unfoldable pub mark_file_number_used : ℕ → VersionSet → VersionSet
mark_file_number_used number vs =
    if leb vs.next_file_number number then record vs { next_file_number = number + 1 } else vs

-- ===== src/MemTable/Inserts.antt =====
-- WriteBatchInternal::InsertInto of Enclave/leveldb/db/write_batch.cpp.
use e_lsm_p.Base.{ℕ, suc, ◌+◌, ◌%◌, ◌^◌, ◌<◌, ◌≡◌, ap, ◌∙◌, some, List, [], ◌∷◌, length, arith, All}
use e_lsm_p.Coding.Fixed.{IsU32}
use e_lsm_p.DbFormat.{type_value, type_deletion}
use e_lsm_p.MemTable.{Table, add, inserter, insert_into}
use e_lsm_p.Status.{ok}
use e_lsm_p.WriteBatch.{WriteBatch, iterate}
use e_lsm_p.WriteBatch.Contents.{Update, put_update, delete_update, Fits, Holds, parts-Holds}
use e_lsm_p.WriteBatch.Walk.{handled, iterate-Holds}

module _ {M : Type 0} (table : Table M) where
  -- The updates added one by one under the sequence numbers from `s` on.
  abbrev pub added : ℕ → List Update → M → M
  added s [] mem = mem
  added s (put_update key value ∷ us) mem = added (s + 1) us (add table s type_value key value mem)
  added s (delete_update key ∷ us) mem = added (s + 1) us (add table s type_deletion key [] mem)

  handled-added :
      (us : List Update) (s : ℕ) (mem : M)
      → s + length us < 2 ^ 64
      → handled (inserter table) us (s, mem) ≡ (s + length us, added s us mem)
  handled-added [] s mem h = ap (λ (n : ℕ). (n, mem)) (omega arith)
  handled-added (put_update key value ∷ us) s mem h =
      let next : (s + 1) % 2 ^ 64 ≡ s + 1 = omega arith in
      let sum : s + 1 + length us ≡ s + suc (length us) = omega arith in
      let mem' = add table s type_value key value mem in
      ap (λ (n : ℕ). handled (inserter table) us (n, mem')) next
      ∙ (handled-added us (s + 1) mem' (omega arith)
          ∙ ap (λ (n : ℕ). (n, added (s + 1) us mem')) sum)
  handled-added (delete_update key ∷ us) s mem h =
      let next : (s + 1) % 2 ^ 64 ≡ s + 1 = omega arith in
      let sum : s + 1 + length us ≡ s + suc (length us) = omega arith in
      let mem' = add table s type_deletion key [] mem in
      ap (λ (n : ℕ). handled (inserter table) us (n, mem')) next
      ∙ (handled-added us (s + 1) mem' (omega arith)
          ∙ ap (λ (n : ℕ). (n, added (s + 1) us mem')) sum)

  -- Inserting a well-formed batch of fewer than 2 ^ 32 updates, whose sequence numbers do not run
  -- over, returns OK with every update added to the table in order, under consecutive sequence
  -- numbers from that of the batch on.
  pub insert_into-Holds :
      (rep : WriteBatch) (seq : ℕ) (us : List Update) (mem : M)
      → Holds rep seq us
      → All Fits us
      → IsU32 (length us)
      → seq + length us < 2 ^ 64
      → insert_into table rep mem ≡ some (ok, (seq + length us, added seq us mem))
  unfolding insert_into
  insert_into-Holds rep seq us mem holds fits count room =
      ap (λ (n : ℕ). iterate (inserter table) rep (n, mem)) (parts-Holds rep seq us holds).1
      ∙ (iterate-Holds (inserter table) rep seq us (seq, mem) holds fits count
          ∙ ap (λ s. some (ok, s)) (handled-added us seq mem room))

-- ===== src/Log/Replay.antt =====
-- A log that is written record by record (Enclave/leveldb/db/log_writer.cpp) and read back to its end
-- (Enclave/leveldb/db/log_reader.cpp), as VersionSet::Recover and DBImpl::RecoverLogFile read it.
use e_lsm_p.Base.{
  ℕ, zero, suc, ◌<◌, ◌≡◌, refl, sym, ap, ◌∙◌, Bool, true, false, List, [], ◌∷◌, ◌++◌, length, ltb,
  Option, none, some, arith, append_assoc, append-nil, length-append,
}
use e_lsm_p.Status.{Status}
use e_lsm_p.TableBuilder.{WritableFile, Crc}
use e_lsm_p.Log.{block_size, Writer, new_writer, add_record}
use e_lsm_p.Log.Reader.{SequentialFile, Reader, new_reader}
use e_lsm_p.Log.Records.{nothing_pending, read_loop, read_record}
use e_lsm_p.Log.Fragments.{Fragmented, whole, cut, IsWritable, add_record-Writes}
use e_lsm_p.Log.Physical.{IsReadable, At}
use e_lsm_p.Log.Parts.{IsCrc}
use e_lsm_p.Log.RoundTrip.{read_loop-Gives, read_loop_end}

module _ {F : Type 0} (out : WritableFile F) (crc : Crc) where
  abbrev pub add_next :
      (Writer F → Option (Writer F)) → Option (Status × Writer F) → Option (Writer F)
  add_next further none = none
  add_next further (some (status, w)) = further w

  -- One AddRecord after the other.
  unfoldable pub write_all : List (List ℕ) → Writer F → Option (Writer F)
  unfolding add_record
  write_all [] w = some w
  write_all (s ∷ records) w = add_next (write_all records) (add_record out crc s w)

module _ {F : Type 0} (input : SequentialFile F) (crc : Crc) (number : ℕ → List ℕ) where
  abbrev pub read_next :
      (Reader F → Option (List (List ℕ)))
      → Option (Option (List ℕ) × Reader F)
      → Option (List (List ℕ))
  read_next further none = none
  read_next further (some (none, r)) = some []
  read_next further (some (some s, r)) = elim (further r) [
    | none ↦ none
    | some records ↦ some (s ∷ records)
  ]

  -- `while (reader.ReadRecord(&record, &scratch))` with checksums and from the start, with the calls that are left and
  -- the rounds of each. `none` is out of either.
  unfoldable pub read_all : ℕ → ℕ → Reader F → Option (List (List ℕ))
  unfolding read_record
  read_all zero rounds r = none
  read_all (suc calls) rounds r =
      read_next (read_all calls rounds) (read_record input crc true 0 number rounds r)

module _ {F G : Type 0} (out : WritableFile F) (contents_of : F → List ℕ)
    (writable : IsWritable out contents_of) (input : SequentialFile G) (rest_of : G → List ℕ)
    (readable : IsReadable input rest_of) (crc : Crc) (lawful : IsCrc crc)
    (number : ℕ → List ℕ) where
  -- Whatever is written from a block's start may as well begin behind the block before it.
  from_start :
      {begin : Bool} {s : List ℕ} {o : ℕ} {written : List ℕ} {o' : ℕ}
      → Fragmented crc begin s o written o'
      → o ≡ 0
      → Fragmented crc begin s block_size written o'
  from_start (whole begin s o fits) h = rw h (whole begin s block_size (rw h at fits))
  from_start (cut begin s o written o' longer rest) h =
      rw h (cut begin s block_size written o' (rw h at longer) (rw h at rest))

  record_is :
      (rounds : ℕ) (r : Reader G)
      → read_record input crc true 0 number rounds r
        ≡ read_loop input crc true 0 number rounds nothing_pending r
  unfolding read_record
  record_is rounds r = let e : ltb r.last_record_offset 0 ≡ false = ground arith in rw e refl

  end_reads :
      (rounds : ℕ) (r : Reader G) (o : ℕ)
      → 0 < rounds
      → At rest_of r o []
      → read_all input crc number 1 rounds r ≡ some []
  unfolding read_all
  end_reads zero r o positive at = absurd (omega arith)
  end_reads (suc rounds) r o positive at =
      let (r', same) = read_loop_end input rest_of readable crc lawful number rounds r o at in
      rw (record_is (suc rounds) r, same) refl

  one_reads :
      (calls rounds : ℕ) (r r' : Reader G) (s : List ℕ) (records : List (List ℕ))
      → read_loop input crc true 0 number rounds nothing_pending r ≡ some (some s, r')
      → read_all input crc number calls rounds r' ≡ some records
      → read_all input crc number (suc calls) rounds r ≡ some (s ∷ records)
  unfolding read_all
  one_reads calls rounds r r' s records h k = rw (record_is rounds r, h) (rw k refl)

  -- The reader at `o` reads what the writer writes at its offset.
  abbrev Follows : ℕ → Writer F → Type 0
  Follows o w =
      (s written : List ℕ) (o' : ℕ)
      → Fragmented crc true s w.block_offset written o'
      → Fragmented crc true s o written o'

  write_all-reads :
      (records : List (List ℕ)) (w : Writer F)
      → (w' : Writer F) × (written : List ℕ) × (write_all out crc records w ≡ some w')
        × (contents_of w'.dest ≡ contents_of w.dest ++ written)
        × ((o rounds : ℕ) (r : Reader G)
            → Follows o w
            → length written < rounds
            → At rest_of r o written
            → read_all input crc number (suc (length records)) rounds r ≡ some records)
  unfolding write_all
  write_all-reads [] w = (
    w,
    [],
    refl,
    sym (append-nil (contents_of w.dest)),
    λ o rounds r follows enough at. end_reads rounds r o (omega arith) at,
  )
  write_all-reads (s ∷ records) w =
      let (w1, b1, added, fragments, contents) =
        add_record-Writes out crc contents_of writable s w in
      let (w', b2, rest, contents', back) = write_all-reads records w1 in
      (
        w',
        b1 ++ b2,
        (rw (added) rest),
        contents' ∙ (rw contents (append_assoc (contents_of w.dest) b1 b2)),
        λ o rounds r follows enough at.
            let sum = length-append b1 b2 in
            let (r', given, there) =
              read_loop-Gives input rest_of readable crc lawful number
                (follows s b1 w1.block_offset fragments) rounds nothing_pending [] r b2 (refl, refl)
                (omega (arith, sum, enough)) at in
            one_reads (suc (length records)) rounds r r' s records given (
              back w1.block_offset rounds r' (λ s' written o' h. h) (omega (arith, sum, enough))
                there),
      )

  -- Records that are written to an empty file, one after the other, are read back, all of them and in their order,
  -- until the reader comes to the end of the file. Neither side runs out of rounds, with more of them for a
  -- record than the file has bytes. The file keeps what is appended, the one that is read has those bytes, and the
  -- CRC extends by concatenation and fits into 32 bits.
  pub read_all-write_all :
      (records : List (List ℕ)) (f : F)
      → contents_of f ≡ []
      → (w' : Writer F) × (write_all out crc records (new_writer out crc f 0) ≡ some w')
        × ((g : G) (rounds : ℕ)
            → rest_of g ≡ contents_of w'.dest
            → length (contents_of w'.dest) < rounds
            → read_all input crc number (suc (length records)) rounds (new_reader 0 g)
              ≡ some records)
  unfolding new_writer new_reader
  read_all-write_all records f empty =
      let (w', written, done, contents, back) = write_all-reads records (new_writer out crc f 0) in
      let all : contents_of w'.dest ≡ written = contents ∙ ap (λ t. t ++ written) empty in
      (
        w',
        done,
        λ g rounds same enough.
            back block_size rounds (new_reader 0 g) (λ s b o' h. from_start h refl)
              (rw all at enough)
              (record {
                buffered = refl;
                unread = same ∙ all;
                at_end = (let e : false ≡ ltb (length written) 0 = ground arith in e);
                in_step = refl;
              }),
      )

-- ===== src/Log/RoundTrip.antt =====
-- ReadRecord of Enclave/leveldb/db/log_reader.cpp gives back what AddRecord of db/log_writer.cpp wrote.
use e_lsm_p.Base.{
  ℕ, zero, suc, ◌+◌, ◌-◌, ◌%◌, ◌^◌, ◌≤◌, ◌<◌, ◌≡◌, inl, inr, refl, ap, ◌∙◌, Bool, true, false, List,
  [], ◌++◌, length, take, drop, Option, none, some, arith, Bool-cases, append_assoc, length-append,
  length-take, take-append-drop,
}
use e_lsm_p.TableBuilder.{Crc}
use e_lsm_p.Log.{block_size, header_size, full_type, first_type, middle_type, last_type, header}
use e_lsm_p.Log.Reader.{SequentialFile, Reader, read_physical_record, physical_loop, eof_type}
use e_lsm_p.Log.Records.{
  Pending, nothing_pending, found, ended, again, turn, switch_type, next_turn, read_loop,
  physical_record_offset,
}
use e_lsm_p.Log.Fragments.{Fragmented, whole, cut, fragment_bytes, trailer, start, room, cut_fills}
use e_lsm_p.Log.Physical.{IsReadable, At, length-header, read_physical_record-Reads}
use e_lsm_p.Log.Parts.{IsCrc}

module _ {F : Type 0} (number : ℕ → List ℕ) (s : List ℕ) (p : Pending) (r : Reader F)
    (in_step : r.resyncing ≡ false) where
  turn_full :
      p.in_fragmented_record ≡ false
      → turn 0 number full_type s p r
        ≡ found s (record r { resyncing = false; last_record_offset = physical_record_offset r s })
  unfolding turn switch_type
  turn_full h = rw (in_step, h) refl

  turn_first :
      p.in_fragmented_record ≡ false
      → (turn 0 number first_type s p r
          ≡ again
              (record {
                scratch = s;
                in_fragmented_record = true;
                prospective_record_offset = physical_record_offset r s;
              })
              (record r { resyncing = false }))
  unfolding turn switch_type
  turn_first h = rw (in_step, h) refl

  turn_middle :
      p.in_fragmented_record ≡ true
      → turn 0 number middle_type s p r
        ≡ again (record p { scratch = p.scratch ++ s }) (record r { resyncing = false })
  unfolding turn switch_type
  turn_middle h = rw (in_step, h) refl

  turn_last :
      p.in_fragmented_record ≡ true
      → (turn 0 number last_type s p r
          ≡ found
              (p.scratch ++ s)
              (record r { resyncing = false; last_record_offset = p.prospective_record_offset }))
  unfolding turn switch_type
  turn_last h = rw (in_step, h) refl

-- What ReadRecord holds of a record of which `pre` has been read, if it has begun.
abbrev pub Holds : Bool → Pending → List ℕ → Type 0
Holds true p pre = (p.in_fragmented_record ≡ false) × (pre ≡ [])
Holds false p pre = (p.in_fragmented_record ≡ true) × (p.scratch ≡ pre)

module _ {F : Type 0} (input : SequentialFile F) (rest_of : F → List ℕ)
    (readable : IsReadable input rest_of) (crc : Crc) (lawful : IsCrc crc)
    (number : ℕ → List ℕ) where
  stays-At :
      (r : Reader F) (o : ℕ) (bytes : List ℕ) (x : ℕ)
      → At rest_of r o bytes
      → At rest_of (record r { resyncing = false; last_record_offset = x }) o bytes
  stays-At r o bytes x at = record {
    buffered = at.buffered;
    unread = at.unread;
    at_end = at.at_end;
    in_step = refl;
  }

  abbrev pub Gives : List ℕ → ℕ → List ℕ → Option (Option (List ℕ) × Reader F) → Type 0
  Gives s o more result = (r : Reader F) × (result ≡ some (some s, r)) × At rest_of r o more

  -- A turn of the loop reads a fragment.
  one_turn :
      (rounds : ℕ) (p : Pending) (r : Reader F) (o t : ℕ) (s more : List ℕ)
      → 0 < t
      → t < 128
      → length s ≤ room o
      → At rest_of r o (fragment_bytes crc o t s ++ more)
      → (r' : Reader F) × (read_loop input crc true 0 number (suc rounds) p r
          ≡ next_turn input crc true 0 number
              (read_loop input crc true 0 number rounds)
              (turn 0 number t s p r'))
        × At rest_of r' (start o + (header_size + length s)) more
  unfolding read_loop
  one_turn rounds p r o t s more positive small fits at =
      let (r', same, there) =
        read_physical_record-Reads input rest_of readable crc lawful r o t s more positive small
          fits at in
      (r', (rw same refl), there)

  moved-At :
      (r : Reader F) (o o' : ℕ) (bytes : List ℕ)
      → o ≡ o'
      → At rest_of r o bytes
      → At rest_of r o' bytes
  moved-At r o o' bytes h at = rw h at at

  split-At :
      (r : Reader F) (o : ℕ) (a b more : List ℕ)
      → At rest_of r o ((a ++ b) ++ more)
      → At rest_of r o (a ++ (b ++ more))
  split-At r o a b more at = rw (append_assoc a b more) at at

  shorter :
      (o t : ℕ) (s written : List ℕ) (rounds : ℕ)
      → length (fragment_bytes crc o t s ++ written) < suc rounds
      → length written < rounds
  shorter o t s written rounds h =
      let a = length-append (fragment_bytes crc o t s) written in
      let b = length-append (trailer o) (header crc t s ++ s) in
      let c = length-append (header crc t s) s in
      let d = length-header crc t s in omega (arith, a, b, c, d, h)

  cut_length : (o : ℕ) (s : List ℕ) → room o < length s → length (take (room o) s) ≡ room o
  cut_length o s h = let e = length-take (room o) s in omega (arith, e, h)

  filled :
      (o : ℕ) (s : List ℕ)
      → room o < length s
      → start o + (header_size + length (take (room o) s)) ≡ block_size
  filled o s h = rw (cut_length o s h) (cut_fills o)

  pub read_loop-Gives :
      {begin : Bool} {s : List ℕ} {o : ℕ} {written : List ℕ} {o' : ℕ}
      → Fragmented crc begin s o written o'
      → (rounds : ℕ) (p : Pending) (pre : List ℕ) (r : Reader F) (more : List ℕ) → Holds begin p pre
      → length written < rounds
      → At rest_of r o (written ++ more)
      → Gives (pre ++ s) o' more (read_loop input crc true 0 number rounds p r)
  read_loop-Gives (whole begin s o fits) zero p pre r more h enough at = absurd (omega arith)
  read_loop-Gives (whole true s o fits) (suc rounds) p pre r more (h, k) enough at =
      let (r', same, there) =
        one_turn rounds p r o full_type s more (omega arith) (omega arith) fits at in
      (
        record r' { resyncing = false; last_record_offset = physical_record_offset r' s },
        (rw (same, turn_full number s p r' there.in_step h, k) refl),
        stays-At r' _ more _ there,
      )
  read_loop-Gives (whole false s o fits) (suc rounds) p pre r more (h, k) enough at =
      let (r', same, there) =
        one_turn rounds p r o last_type s more (omega arith) (omega arith) fits at in
      (
        record r' { resyncing = false; last_record_offset = p.prospective_record_offset },
        (rw (same, turn_last number s p r' there.in_step h, k) refl),
        stays-At r' _ more _ there,
      )
  read_loop-Gives (cut begin s o written o' longer rest) zero p pre r more h enough at =
      absurd (omega arith)
  read_loop-Gives (cut true s o written o' longer rest) (suc rounds) p pre r more (h, k) enough at =
      let part = take (room o) s in
      let (r', same, there) =
        one_turn rounds p r o first_type part (written ++ more) (omega arith) (omega arith)
          (let e = cut_length o s longer in omega (arith, e))
          (split-At r o (fragment_bytes crc o first_type part) written more at) in
      let p' : Pending = record {
        scratch = part;
        in_fragmented_record = true;
        prospective_record_offset = physical_record_offset r' part;
      } in
      let (r'', given, behind) =
        read_loop-Gives rest rounds p' part (record r' { resyncing = false }) more (refl, refl)
          (shorter o first_type part written rounds enough)
          (moved-At _ _ block_size (written ++ more) (filled o s longer)
            (stays-At r' _ (written ++ more) r'.last_record_offset there)) in
      (
        r'',
        (rw
            (
              same,
              turn_first number part p r' there.in_step h,
              given,
              k,
              take-append-drop (room o) s,
            )
            refl),
        behind,
      )
  read_loop-Gives (cut false s o written o' longer rest) (suc rounds) p pre r more (h, k) enough
        at =
      let part = take (room o) s in
      let (r', same, there) =
        one_turn rounds p r o middle_type part (written ++ more) (omega arith) (omega arith)
          (let e = cut_length o s longer in omega (arith, e))
          (split-At r o (fragment_bytes crc o middle_type part) written more at) in
      let p' : Pending = record p { scratch = p.scratch ++ part } in
      let (r'', given, behind) =
        read_loop-Gives rest rounds p' (pre ++ part) (record r' { resyncing = false }) more
          (h, ap (λ t. t ++ part) k) (shorter o middle_type part written rounds enough)
          (moved-At _ _ block_size (written ++ more) (filled o s longer)
            (stays-At r' _ (written ++ more) r'.last_record_offset there)) in
      (
        r'',
        (rw
            (
              same,
              turn_middle number part p r' there.in_step h,
              given,
              append_assoc pre part (drop (room o) s),
              take-append-drop (room o) s,
            )
            refl),
        behind,
      )

  take_nil : (n : ℕ) → take {A = ℕ} n [] ≡ []
  take_nil zero = refl
  take_nil (suc n) = refl

  drop_nil : (n : ℕ) → drop {A = ℕ} n [] ≡ []
  drop_nil zero = refl
  drop_nil (suc n) = refl

  turn-ended :
      (p : Pending) (r : Reader F)
      → r.resyncing ≡ false
      → turn 0 number eof_type [] p r ≡ ended (record r { resyncing = false })
  unfolding turn switch_type
  turn-ended p r h = rw h refl

  -- Behind the last record, ReadPhysicalRecord comes to the end of the file.
  physical_end :
      (r : Reader F) (o : ℕ)
      → At rest_of r o []
      → (r' : Reader F) × (read_physical_record input crc true 0 r ≡ some (eof_type, [], r'))
        × (r'.resyncing ≡ false)
  unfolding read_physical_record physical_loop
  physical_end r o at =
      let none_there : r.buffer ≡ [] = at.buffered ∙ take_nil (block_size - o) in
      let (f', read, beyond) = readable.reads block_size r.file in
      let nothing : take block_size (rest_of r.file) ≡ [] =
        ap (take block_size) (at.unread ∙ drop_nil (block_size - o)) ∙ take_nil block_size in
      elim (Bool-cases r.eof) [
        | inl over ↦ (record r { buffer = [] }, (rw (none_there, over) refl), at.in_step)
        | inr not_over ↦ (
          record r {
            file = f';
            buffer = [];
            end_of_buffer_offset = (r.end_of_buffer_offset + 0) % 2 ^ 64;
            eof = true;
          },
          (rw (none_there, not_over, read, nothing) refl),
          at.in_step,
        )
      ]

  pub read_loop_end :
      (rounds : ℕ) (r : Reader F) (o : ℕ)
      → At rest_of r o []
      → (r' : Reader F) × (read_loop input crc true 0 number (suc rounds) nothing_pending r
          ≡ some (none, r'))
  unfolding read_loop
  read_loop_end rounds r o at =
      let (r', same, in_step) = physical_end r o at in
      (record r' { resyncing = false }, (rw (same, turn-ended nothing_pending r' in_step) refl))

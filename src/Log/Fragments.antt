-- ===== src/Log/Fragments.antt =====
-- AddRecord of Enclave/leveldb/db/log_writer.cpp: the bytes of a record, as a relation, and that the loop writes them.
use e_lsm_p.Base.{
  ℕ, zero, suc, ◌+◌, ◌-◌, ◌≤◌, ◌<◌, ◌≡◌, inl, inr, refl, sym, ap, ◌∙◌, Bool, true, false, List, [],
  ◌∷◌, ◌++◌, length, take, drop, replicate, ltb, ◌==◌, if◌then◌else◌, Option, some, arith,
  Bool-cases, ltb→lt, append_assoc, append-nil, length-drop, length-take,
}
use e_lsm_p.Status.{Status, ok}
use e_lsm_p.TableBuilder.{WritableFile, Crc}
use e_lsm_p.Log.{
  block_size, header_size, fragment_type, Writer, header, emit_physical_record, switch_block,
  add_loop, add_record, go_on, fragment_length,
}

-- The rest of a block that is too small for a header, and where a fragment starts.
abbrev pub trailer : ℕ → List ℕ
trailer o = if ltb (block_size - o) header_size then replicate (block_size - o) 0 else []

abbrev pub start : ℕ → ℕ
start o = if ltb (block_size - o) header_size then 0 else o

abbrev pub room : ℕ → ℕ
room o = block_size - start o - header_size

take_all : (s : List ℕ) → take (length s) s ≡ s
take_all [] = refl
take_all (x ∷ xs) = ap (λ t. x ∷ t) (take_all xs)

drop_all : (s : List ℕ) → drop (length s) s ≡ []
drop_all [] = refl
drop_all (x ∷ xs) = drop_all xs

regroup : (a t x y : List ℕ) → ((a ++ t) ++ x) ++ y ≡ a ++ ((t ++ x) ++ y)
regroup a t x y = ap (λ z. z ++ y) (append_assoc a t x) ∙ append_assoc a (t ++ x) y

-- A fragment that is cut off fills its block.
pub cut_fills : (o : ℕ) → start o + (header_size + room o) ≡ block_size
cut_fills o = ground arith

module _ (crc : Crc) where
  -- The bytes of one fragment at an offset of its block.
  abbrev pub fragment_bytes : ℕ → ℕ → List ℕ → List ℕ
  fragment_bytes o t s = trailer o ++ (header crc t s ++ s)

  -- The record `s`, or what is left of it, is written from offset `o` of a block as `written`, up to the
  -- offset `o'`.
  pub data Fragmented : Bool → List ℕ → ℕ → List ℕ → ℕ → Type 0 where
    whole :
        (begin : Bool) (s : List ℕ) (o : ℕ)
        → length s ≤ room o
        → Fragmented begin s o
            (fragment_bytes o (fragment_type begin true) s)
            (start o + (header_size + length s))
    cut :
        (begin : Bool) (s : List ℕ) (o : ℕ) (written : List ℕ) (o' : ℕ)
        → room o < length s
        → Fragmented false (drop (room o) s) block_size written o'
        → Fragmented begin s o
            (fragment_bytes o (fragment_type begin false) (take (room o) s) ++ written)
            o'

-- A file that takes what is appended.
pub record IsWritable {F : Type 0} (out : WritableFile F) (contents_of : F → List ℕ) : Type 0 where
  pub appends :
      (f : F) (s : List ℕ)
      → (f' : F) × (out.append f s ≡ (ok, f')) × (contents_of f' ≡ contents_of f ++ s)
  pub flushes : (f : F) → (f' : F) × (out.flush f ≡ (ok, f')) × (contents_of f' ≡ contents_of f)

module _ {F : Type 0} (out : WritableFile F) (crc : Crc) (contents_of : F → List ℕ)
    (writable : IsWritable out contents_of) where
  emit-adds :
      (t : ℕ) (s : List ℕ) (w : Writer F)
      → (w' : Writer F) × (emit_physical_record out crc t s w ≡ (ok, w'))
        × (contents_of w'.dest ≡ contents_of w.dest ++ (header crc t s ++ s))
        × (w'.block_offset ≡ w.block_offset + (header_size + length s))
  unfolding emit_physical_record
  emit-adds t s w =
      let (f1, first, c1) = writable.appends w.dest (header crc t s) in
      let (f2, second, c2) = writable.appends f1 s in
      let (f3, third, c3) = writable.flushes f2 in
      (
        record { dest = f3; block_offset = w.block_offset + (header_size + length s) },
        (rw (first, second, third) refl),
        c3 ∙ c2 ∙ (rw c1 (append_assoc (contents_of w.dest) (header crc t s) s)),
        refl,
      )

  switch-adds :
      (w : Writer F)
      → (contents_of (switch_block out crc w).dest ≡ contents_of w.dest ++ trailer w.block_offset)
        × ((switch_block out crc w).block_offset ≡ start w.block_offset)
  unfolding switch_block
  switch-adds w =
      let (f, filled, added) =
        writable.appends w.dest (replicate (block_size - w.block_offset) 0) in
      elim (Bool-cases (ltb (block_size - w.block_offset) header_size)) [
        | inr fits ↦ rw fits (sym (append-nil (contents_of w.dest)), refl)
        | inl full ↦ elim (Bool-cases (ltb 0 (block_size - w.block_offset))) [
          | inl some_left ↦ rw (full, some_left, filled) (added, refl)
          | inr none_left ↦
              let nothing : block_size - w.block_offset ≡ 0 = ground (arith, none_left) in
              rw (full, none_left, nothing) (sym (append-nil (contents_of w.dest)), refl)
        ]
      ]

  -- What a run of AddRecord is to come to.
  abbrev Writes : Bool → List ℕ → Writer F → Option (Status × Writer F) → Type 0
  Writes begin s w result =
      (w' : Writer F) × (written : List ℕ) × (result ≡ some (ok, w'))
      × Fragmented crc begin s w.block_offset written w'.block_offset
      × (contents_of w'.dest ≡ contents_of w.dest ++ written)

  round :
      (rounds : ℕ) (begin : Bool) (s : List ℕ) (w : Writer F) (n : ℕ)
      → fragment_length (length s) (room w.block_offset) ≡ n
      → add_loop out crc (suc rounds) begin s w
        ≡ go_on out crc (add_loop out crc rounds false (drop n s)) (drop n s) (
            emit_physical_record out crc
              (fragment_type begin (length s == n))
              (take n s)
              (switch_block out crc w))
  unfolding add_loop
  round rounds begin s w n h = rw ((switch-adds w).1, h) refl

  whole-Writes :
      (rounds : ℕ) (begin : Bool) (s : List ℕ) (w : Writer F)
      → length s ≤ room w.block_offset
      → Writes begin s w (add_loop out crc (suc rounds) begin s w)
  whole-Writes rounds begin s w fits =
      let all : fragment_length (length s) (room w.block_offset) ≡ length s =
        ground (arith, fits) in
      let ends : (length s == length s) ≡ true = ground arith in
      let (dest_adds, offset) = switch-adds w in
      let (w', emitted, adds, end) =
        emit-adds (fragment_type begin true) s (switch_block out crc w) in
      (
        w',
        fragment_bytes crc w.block_offset (fragment_type begin true) s,
        (rw (round rounds begin s w (length s) all, ends, take_all s, emitted, drop_all s) refl),
        (rw (end, offset) (whole begin s w.block_offset fits)),
        adds ∙ (rw dest_adds (append_assoc (contents_of w.dest) (trailer w.block_offset) _)),
      )

  cut-Writes :
      (rounds : ℕ) (begin : Bool) (s : List ℕ) (w : Writer F)
      → room w.block_offset < length s
      → ((w1 : Writer F)
          → w1.block_offset ≡ block_size
          → Writes false
              (drop (room w.block_offset) s)
              w1
              (add_loop out crc rounds false (drop (room w.block_offset) s) w1))
      → Writes begin s w (add_loop out crc (suc rounds) begin s w)
  cut-Writes rounds begin s w more further =
      let n = room w.block_offset in
      let part : fragment_length (length s) n ≡ n = ground (arith, more) in
      let goes_on : (length s == n) ≡ false = ground (arith, more) in
      let cut_length : length (take n s) ≡ n = omega (arith, length-take n s) in
      let left : ltb 0 (length (drop n s)) ≡ true = ground (arith, length-drop n s, more) in
      let (dest_adds, offset) = switch-adds w in
      let (w1, emitted, adds, end) =
        emit-adds (fragment_type begin false) (take n s) (switch_block out crc w) in
      let filled : w1.block_offset ≡ block_size =
        end ∙ (rw (offset, cut_length) (cut_fills w.block_offset)) in
      let (w', written, result, fragments, contents) = further w1 filled in
      (
        w',
        fragment_bytes crc w.block_offset (fragment_type begin false) (take n s) ++ written,
        (rw (round rounds begin s w n part, goes_on, emitted, left) result),
        cut begin s w.block_offset written w'.block_offset more (rw filled at fragments),
        contents
            ∙ (rw (adds, dest_adds) (regroup (contents_of w.dest) (trailer w.block_offset) _ _)),
      )

  -- Two rounds more than there are bytes are enough, and one more where the block has room.
  add_loop-Writes :
      (rounds : ℕ) (begin : Bool) (s : List ℕ) (w : Writer F)
      → length s + (1 + (1 - room w.block_offset)) ≤ rounds
      → Writes begin s w (add_loop out crc rounds begin s w)
  add_loop-Writes zero begin s w enough = absurd (omega arith)
  add_loop-Writes (suc rounds) begin s w enough =
      elim (Bool-cases (ltb (room w.block_offset) (length s))) [
        | inr fits ↦ whole-Writes rounds begin s w (ground (arith, fits))
        | inl more ↦
            cut-Writes rounds begin s w (ltb→lt (room w.block_offset) (length s) more) (λ w1 filled.
              add_loop-Writes rounds false (drop (room w.block_offset) s) w1 (
                let left = length-drop (room w.block_offset) s in
                let more_room : room w1.block_offset ≡ 32761 = rw filled refl in
                ground (arith, left, more_room, more, enough)))
      ]

  -- AddRecord ends, and writes the record as a sequence of fragments from its offset on, behind what the file has. The
  -- file takes what is appended.
  pub add_record-Writes :
      (s : List ℕ) (w : Writer F)
      → (w' : Writer F) × (written : List ℕ) × (add_record out crc s w ≡ some (ok, w'))
        × Fragmented crc true s w.block_offset written w'.block_offset
        × (contents_of w'.dest ≡ contents_of w.dest ++ written)
  unfolding add_record
  add_record-Writes s w = add_loop-Writes (2 + length s) true s w (omega arith)

-- ===== src/Log/Physical.antt =====
-- ReadPhysicalRecord of Enclave/leveldb/db/log_reader.cpp gives back one fragment that AddRecord wrote.
use e_lsm_p.Base.{
  ℕ, zero, suc, ◌+◌, ◌-◌, ◌%◌, ◌^◌, ◌≤◌, ◌<◌, ◌≡◌, inl, inr, refl, sym, ap, ◌∙◌, true, false, List,
  ◌++◌, length, take, drop, replicate, ltb, Option, some, arith, Bool-cases, append_assoc,
  length-append, length-take, lt→ltb, ltb→lt,
}
use Prim.Native.Nat.{min}
use e_lsm_p.Coding.Fixed.{encode_fixed32}
use e_lsm_p.Status.{ok}
use e_lsm_p.TableBuilder.{Crc}
use e_lsm_p.Log.{block_size, header_size, header}
use e_lsm_p.Log.Reader.{SequentialFile, Reader, Physical, physical_loop, read_physical_record}
use e_lsm_p.Log.Parts.{
  IsCrc, take_front, drop_front, take_exactly, drop_exactly, Parts, fragment-Parts, parse-Parts,
}
use e_lsm_p.Log.Fragments.{start, room, fragment_bytes}

-- A file that is read in order, and whose bytes behind the ones that were read are `rest_of`.
pub record IsReadable {F : Type 0} (input : SequentialFile F) (rest_of : F → List ℕ) : Type 0 where
  pub reads :
      (n : ℕ) (f : F)
      → (f' : F) × (input.read n f ≡ (ok, take n (rest_of f), f'))
        × (rest_of f' ≡ drop n (rest_of f))

module _ {F : Type 0} (rest_of : F → List ℕ) where
  -- The reader stands at an offset of its block, with these bytes before it.
  pub record At (r : Reader F) (o : ℕ) (bytes : List ℕ) : Type 0 where
    pub buffered : r.buffer ≡ take (block_size - o) bytes
    pub unread : rest_of r.file ≡ drop (block_size - o) bytes
    pub at_end : r.eof ≡ ltb (length bytes) (block_size - o)
    pub in_step : r.resyncing ≡ false

regrouped : (a h s more : List ℕ) → (a ++ (h ++ s)) ++ more ≡ a ++ (h ++ (s ++ more))
regrouped a h s more = append_assoc a (h ++ s) more ∙ ap (λ t. a ++ t) (append_assoc h s more)

not_below_sum : (n m k : ℕ) → k ≡ n + m → ltb k n ≡ false
not_below_sum n m k h = ground (arith, h)

below_least : (n m k : ℕ) → k ≡ min n m → ltb k n ≡ ltb m n
below_least n m k h = ground (arith, h)

-- Moving within a block: what is left of the bytes and of the block.
pub length-header : (crc : Crc) (t : ℕ) (s : List ℕ) → length (header crc t s) ≡ header_size
unfolding header encode_fixed32
length-header crc t s = refl

length-replicate : (n : ℕ) → length {A = ℕ} (replicate n 0) ≡ n
length-replicate zero = refl
length-replicate (suc n) = ap suc (length-replicate n)

module _ {F : Type 0} (input : SequentialFile F) (rest_of : F → List ℕ)
    (readable : IsReadable input rest_of) (crc : Crc) (lawful : IsCrc crc) where
  -- The reader behind the first `n` bytes of its buffer.
  advance-At :
      (r : Reader F) (o n : ℕ) (xs more : List ℕ)
      → n ≡ length xs
      → At rest_of r o (xs ++ more)
      → o + n ≤ block_size
      → (r.buffer ≡ xs ++ take (block_size - (o + n)) more)
        × At rest_of (record r { buffer = take (block_size - (o + n)) more }) (o + n) more
  advance-At r o n xs more whole at fits =
      let same : block_size - o - length xs ≡ block_size - (o + n) = omega arith in
      let sum = length-append xs more in
      (
        at.buffered
            ∙ take_front (block_size - o) xs more (omega arith)
            ∙ ap (λ k. xs ++ take k more) same,
        record {
          buffered = refl;
          unread =
              at.unread
              ∙ drop_front (block_size - o) xs more (omega arith)
              ∙ ap (λ k. drop k more) same;
          at_end =
              at.at_end
              ∙ (let e : ltb (length (xs ++ more)) (block_size - o)
                      ≡ ltb (length more) (block_size - (o + n)) =
                    ground (arith, sum, fits, whole) in
                  e);
          in_step = at.in_step;
        },
      )

  abbrev Reads : ℕ → List ℕ → ℕ → List ℕ → Option (Physical F) → Type 0
  Reads t s o more result = (r : Reader F) × (result ≡ some (t, s, r)) × At rest_of r o more

  parsed-Reads :
      (rounds : ℕ) (r : Reader F) (o t : ℕ) (s more : List ℕ)
      → 0 < t
      → t < 128
      → o + (header_size + length s) ≤ block_size
      → At rest_of r o (header crc t s ++ (s ++ more))
      → Reads t s
          (o + (header_size + length s))
          more
          (physical_loop input crc true 0 (suc rounds) r)
  unfolding physical_loop
  parsed-Reads rounds r o t s more positive small fits at =
      let xs = header crc t s ++ s in
      let n : ℕ = header_size + length s in
      let size : n ≡ length xs =
        sym (length-append (header crc t s) s ∙ (rw (length-header crc t s) refl)) in
      let at' : At rest_of r o (xs ++ more) = rw (append_assoc (header crc t s) s more) at in
      let (filled, there) = advance-At r o n xs more size at' fits in
      let tail = take (block_size - (o + n)) more in
      let shape : r.buffer ≡ header crc t s ++ (s ++ tail) =
        filled ∙ append_assoc (header crc t s) s tail in
      let parts : Parts crc lawful t s tail r.buffer =
        rw shape (fragment-Parts crc lawful t s tail small (omega arith)) in
      let has_header : ltb (length r.buffer) header_size ≡ false = ground (arith, parts.long) in
      (
        record r { buffer = tail },
        (rw (has_header, parse-Parts crc lawful r t s tail positive parts) refl),
        there,
      )

  -- A trailer makes the reader read the next block.
  refill-At :
      (rounds : ℕ) (r : Reader F) (o : ℕ) (rest : List ℕ)
      → block_size - o < header_size
      → At rest_of r o (replicate (block_size - o) 0 ++ rest)
      → (r' : Reader F) × (physical_loop input crc true 0 (suc rounds) r
          ≡ physical_loop input crc true 0 rounds r')
        × At rest_of r' 0 rest
  unfolding physical_loop
  refill-At rounds r o rest short at =
      let n : ℕ = block_size - o in
      let size = length-replicate n in
      let sum = length-append (replicate n 0) rest in
      let (f', read, beyond) = readable.reads block_size r.file in
      let ahead : rest_of r.file ≡ rest =
        at.unread ∙ drop_exactly n (replicate n 0) rest (sym size) in
      let none_there : ltb (length r.buffer) header_size ≡ true =
        rw at.buffered (
          rw (take_exactly n (replicate n 0) rest (sym size), size) (lt→ltb n header_size short)) in
      let not_ended : r.eof ≡ false =
        at.at_end ∙ not_below_sum n (length rest) _ (omega (arith, sum, size)) in
      let block = take block_size rest in
      let end = (r.end_of_buffer_offset + length block) % 2 ^ 64 in
      let taken = length-take block_size rest in
      (
        record r {
          file = f';
          buffer = block;
          end_of_buffer_offset = end;
          eof = ltb (length block) block_size;
        },
        (rw (none_there, not_ended, read, ahead) refl),
        record {
          buffered = refl;
          unread = beyond ∙ ap (drop block_size) ahead;
          at_end = below_least block_size (length rest) (length block) taken;
          in_step = at.in_step;
        },
      )

  -- A fragment behind a trailer, or not: ReadPhysicalRecord gives its type and its bytes, and stands behind it.
  pub read_physical_record-Reads :
      (r : Reader F) (o t : ℕ) (s more : List ℕ)
      → 0 < t
      → t < 128
      → length s ≤ room o
      → At rest_of r o (fragment_bytes crc o t s ++ more)
      → Reads t s
          (start o + (header_size + length s))
          more
          (read_physical_record input crc true 0 r)
  unfolding read_physical_record
  read_physical_record-Reads r o t s more positive small fits at =
      elim (Bool-cases (ltb (block_size - o) header_size)) [
        | inr enough ↦
            let here : At rest_of r o (header crc t s ++ (s ++ more)) =
              rw (append_assoc (header crc t s) s more) at (rw enough at at) in
            rw enough
              (parsed-Reads 2 r o t s more positive small (ground (arith, fits, enough)) here)
        | inl short ↦
            let part = ltb→lt (block_size - o) header_size short in
            let behind : At rest_of r o
                (replicate (block_size - o) 0 ++ (header crc t s ++ (s ++ more))) =
              rw (sym (regrouped (replicate (block_size - o) 0) (header crc t s) s more))
                (rw short at at) in
            let (r', same, there) = refill-At 2 r o (header crc t s ++ (s ++ more)) part behind in
            rw (short, same)
              (parsed-Reads 1 r' 0 t s more positive small (ground (arith, fits, short)) there)
      ]

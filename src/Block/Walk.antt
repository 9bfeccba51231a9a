-- ===== src/Block/Walk.antt =====
-- Walking a block that BlockBuilder wrote: Block::Iter of Enclave/leveldb/table/block.cpp.
use e_lsm_p.Base.{
  ℕ, ◌+◌, ◌-◌, ◌%◌, ◌^◌, ◌≤◌, ◌<◌, ◌≡◌, refl, sym, ap, ◌∙◌, true, false, some, List, [], ◌∷◌, ◌++◌,
  length, take, drop, ltb, ◌==◌, if◌then◌else◌, arith, append_assoc, length-append, take-append,
  drop-append, length-drop, Bool-cases, inl, inr, lt→ltb,
}
use e_lsm_p.Coding.Fixed.{IsU32}
use e_lsm_p.Coding.Varint.{encode_varint32, put_varint32}
use e_lsm_p.Block.{
  shared_length, decode_entry, BlockBuilder, add, BlockIter, value_of, next_entry_offset,
  take_entry, parse_next_key,
}
use e_lsm_p.Block.Entries.{encode_varint32_some, entry_bytes, decode_entry-entry_bytes}

-- The shared part is a prefix of both keys.
shared_length-prefix :
    (last key : List ℕ)
    → (take (shared_length last key) last ++ drop (shared_length last key) key ≡ key)
      × (shared_length last key ≤ length last)
      × (shared_length last key ≤ length key)
unfolding shared_length
shared_length-prefix [] key = (refl, omega arith, omega arith)
shared_length-prefix (x ∷ last) [] = (refl, omega arith, omega arith)
shared_length-prefix (x ∷ last) (y ∷ key) = elim (Bool-cases (x == y)) [
  | inl same ↦
      let (whole, l, r) = shared_length-prefix last key in
      let equal : x ≡ y = ground arith in
      rw same (rw equal (ap (λ t. y ∷ t) whole, omega arith, omega arith))
  | inr other ↦ rw other (refl, omega arith, omega arith)
]

-- What Add shares with the key before.
abbrev pub shared_of : ℕ → BlockBuilder → List ℕ → ℕ
shared_of interval b key = if ltb b.counter interval then shared_length b.last_key key else 0

shared_of-prefix :
    (interval : ℕ) (b : BlockBuilder) (key : List ℕ)
    → (take (shared_of interval b key) b.last_key ++ drop (shared_of interval b key) key ≡ key)
      × (shared_of interval b key ≤ length b.last_key)
      × (shared_of interval b key ≤ length key)
shared_of-prefix interval b key = elim (Bool-cases (ltb b.counter interval)) [
  | inl sharing ↦ rw sharing (shared_length-prefix b.last_key key)
  | inr fresh ↦ rw fresh (refl, omega arith, omega arith)
]

module _ (interval : ℕ) (b : BlockBuilder) (key value : List ℕ) (key_fits : IsU32 (length key))
    (value_fits : IsU32 (length value)) where
  add-buffer :
      (add interval b key value).buffer
      ≡ b.buffer ++ entry_bytes (shared_of interval b key) key value
  unfolding add put_varint32
  add-buffer =
      let shared = shared_of interval b key in
      let (_, _, bound) = shared_of-prefix interval b key in
      let one : shared % 2 ^ 32 ≡ shared = omega arith in
      let two : (length key - shared) % 2 ^ 32 ≡ length (drop shared key) =
        omega (arith, length-drop shared key) in
      let three : length value % 2 ^ 32 ≡ length value = omega arith in
      rw (one, two, three)
        (append_assoc
            (((b.buffer ++ encode_varint32 shared) ++ encode_varint32 (length (drop shared key)))
              ++ encode_varint32 (length value))
            (drop shared key) value
          ∙ (append_assoc
                ((b.buffer ++ encode_varint32 shared) ++ encode_varint32 (length (drop shared key)))
                (encode_varint32 (length value)) (drop shared key ++ value)
              ∙ (append_assoc (b.buffer ++ encode_varint32 shared)
                    (encode_varint32 (length (drop shared key)))
                    (encode_varint32 (length value) ++ (drop shared key ++ value))
                  ∙ append_assoc b.buffer (encode_varint32 shared) (
                      encode_varint32 (length (drop shared key))
                      ++ (encode_varint32 (length value) ++ (drop shared key ++ value))))))

  pub add-last_key : (add interval b key value).last_key ≡ key
  unfolding add
  add-last_key = (shared_of-prefix interval b key).0

  length-add_buffer :
      length (add interval b key value).buffer
      ≡ length b.buffer + length (entry_bytes (shared_of interval b key) key value)
  length-add_buffer =
      rw add-buffer (length-append b.buffer (entry_bytes (shared_of interval b key) key value))

-- An iterator over entries, more entries and the restarts behind them, which is about to parse at the
-- end of `entries` with `last_key` as the key before.
pub record IsBehind (entries more rest last_key : List ℕ) (it : BlockIter) : Type 0 where
  pub contents_is : it.contents ≡ (entries ++ more) ++ rest
  pub restarts_is : it.restarts ≡ length (entries ++ more)
  pub restarts_fits : IsU32 (length (entries ++ more))
  pub offset_is : next_entry_offset it ≡ length entries
  pub key_is : it.key ≡ last_key

module _ (interval : ℕ) (b : BlockBuilder) (key value more rest : List ℕ) (it : BlockIter)
    (key_fits : IsU32 (length key)) (value_fits : IsU32 (length value)) where
  shared : ℕ
  shared = shared_of interval b key

  delta : List ℕ
  delta = drop shared key

  sizes : List ℕ
  sizes =
      encode_varint32 shared ++ (encode_varint32 (length delta) ++ encode_varint32 (length value))

  entry_split : entry_bytes shared key value ≡ (sizes ++ delta) ++ value
  unfolding sizes delta
  entry_split = sym (
      append_assoc sizes delta value
      ∙ (append_assoc (encode_varint32 shared)
            (encode_varint32 (length delta) ++ encode_varint32 (length value)) (delta ++ value)
          ∙ ap (λ t. encode_varint32 shared ++ t)
              (append_assoc (encode_varint32 (length delta)) (encode_varint32 (length value))
                (delta ++ value))))

  -- Everything in front of the value.
  front : List ℕ
  front = b.buffer ++ (sizes ++ delta)

  whole : (add interval b key value).buffer ++ more ≡ front ++ (value ++ more)
  unfolding front shared
  whole =
      ap (λ t. t ++ more)
        (add-buffer interval b key value key_fits value_fits ∙ ap (λ t. b.buffer ++ t) entry_split)
      ∙ (ap (λ t. t ++ more) (sym (append_assoc b.buffer (sizes ++ delta) value))
          ∙ append_assoc (b.buffer ++ (sizes ++ delta)) value more)

  length-buffer : length (add interval b key value).buffer ≡ length front + length value
  unfolding front shared
  length-buffer = omega (
    arith,
    length-add_buffer interval b key value key_fits value_fits,
    ap (λ (t : List ℕ). length t) entry_split,
    length-append (sizes ++ delta) value,
    length-append b.buffer (sizes ++ delta),
  )

  module _
      (behind : IsBehind b.buffer
        (entry_bytes (shared_of interval b key) key value ++ more)
        rest
        b.last_key
        it) where
    joined : b.buffer ++ (entry_bytes shared key value ++ more) ≡ front ++ (value ++ more)
    unfolding shared
    joined =
        sym (append_assoc b.buffer (entry_bytes shared key value) more)
        ∙ (ap (λ t. t ++ more) (sym (add-buffer interval b key value key_fits value_fits)) ∙ whole)

    length-joined : it.restarts ≡ length front + length value + length more
    unfolding shared
    length-joined = omega (
      arith,
      behind.restarts_is,
      ap (λ (t : List ℕ). length t) joined,
      length-append front (value ++ more),
      length-append value more,
    )

    entry_at :
        drop (next_entry_offset it) (take it.restarts it.contents)
        ≡ entry_bytes shared key value ++ more
    unfolding shared
    entry_at =
        rw
          (
            behind.offset_is,
            behind.restarts_is,
            behind.contents_is,
            take-append (b.buffer ++ (entry_bytes (shared_of interval b key) key value ++ more))
                rest,
          )
          (drop-append b.buffer (entry_bytes (shared_of interval b key) key value ++ more))

    behind_size : length (delta ++ (value ++ more)) < 2 ^ 32
    unfolding shared front delta
    behind_size = omega (
      arith,
      behind.restarts_fits,
      behind.restarts_is,
      length-joined,
      length-append delta (value ++ more),
      length-append value more,
      length-append b.buffer (sizes ++ delta),
      length-append sizes delta,
    )

    decoded :
        decode_entry (drop (next_entry_offset it) (take it.restarts it.contents))
        ≡ some (shared, length delta, length value, delta ++ (value ++ more))
    unfolding shared delta
    decoded =
        let (_, _, small) = shared_of-prefix interval b key in
        ap decode_entry entry_at
        ∙ decode_entry-entry_bytes (shared_of interval b key) key value more (omega arith)
            behind_size

    value_place : it.restarts - length (delta ++ (value ++ more)) + length delta ≡ length front
    unfolding shared front delta
    value_place = omega (
      arith,
      length-joined,
      length-append delta (value ++ more),
      length-append value more,
      length-append b.buffer (sizes ++ delta),
      length-append sizes delta,
    )

    inside : ltb (next_entry_offset it) it.restarts ≡ true
    unfolding shared front delta sizes
    inside =
        let (_, _, small) = shared_of-prefix interval b key in
        let some_byte = encode_varint32_some (shared_of interval b key) (omega arith) in
        let a = length-append b.buffer (sizes ++ delta) in
        let c = length-append sizes delta in
        let d =
          length-append (encode_varint32 shared)
            (encode_varint32 (length delta) ++ encode_varint32 (length value)) in
        let e = behind.offset_is in
        let g = length-joined in lt→ltb (next_entry_offset it) it.restarts (omega arith)

    contents_now : it.contents ≡ front ++ (value ++ (more ++ rest))
    unfolding shared
    contents_now =
        behind.contents_is
        ∙ (ap (λ t. t ++ rest) joined
            ∙ (append_assoc front (value ++ more) rest
                ∙ ap (λ t. front ++ t) (append_assoc value more rest)))

    regroup :
        b.buffer ++ (entry_bytes shared key value ++ more)
        ≡ (add interval b key value).buffer ++ more
    regroup = joined ∙ sym whole

    value_read :
        take
          (length value)
          (drop (it.restarts - length (delta ++ (value ++ more)) + length delta) it.contents)
        ≡ value
    unfolding shared
    value_read =
        ap (λ (n : ℕ). take (length value) (drop n it.contents)) value_place
        ∙ (ap (λ (t : List ℕ). take (length value) (drop (length front) t)) contents_now
            ∙ (ap (λ (t : List ℕ). take (length value) t)
                  (drop-append front (value ++ (more ++ rest)))
                ∙ take-append value (more ++ rest)))

    -- ParseNextKey at an entry that Add wrote succeeds: the iterator then stands at the entry, with its
    -- key and its value, and the next entry starts behind what Add has written, with that key as the
    -- one before.
    pub parse_next_key-add :
        ((parse_next_key it).0 ≡ true)
        × ((parse_next_key it).1.key ≡ key)
        × (value_of (parse_next_key it).1 ≡ value)
        × ((parse_next_key it).1.current ≡ length b.buffer)
        × IsBehind
            (add interval b key value).buffer
            more
            rest
            (add interval b key value).last_key
            (parse_next_key it).1
    unfolding parse_next_key take_entry shared delta
    parse_next_key-add =
        let (together, bound, _) = shared_of-prefix interval b key in
        let enough : ltb (length b.last_key) shared ≡ false = ground arith in
        let key_now : take shared b.last_key ++ take (length delta) (delta ++ (value ++ more))
            ≡ key =
          ap (λ t. take shared b.last_key ++ t) (take-append delta (value ++ more)) ∙ together in
        rw (inside, decoded, behind.key_is, enough)
          (
            refl,
            key_now,
            value_read,
            behind.offset_is,
            record {
              contents_is = behind.contents_is ∙ ap (λ t. t ++ rest) regroup;
              restarts_is = behind.restarts_is ∙ ap (λ t. length t) regroup;
              restarts_fits =
                  omega (arith, behind.restarts_fits, ap (λ (t : List ℕ). length t) regroup);
              offset_is = omega (
                arith, value_place, length-buffer, length-joined, behind.restarts_is,
                behind.restarts_fits,
              );
              key_is = key_now ∙ sym (add-last_key interval b key value key_fits value_fits);
            },
          )

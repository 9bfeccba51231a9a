-- ===== src/WriteBatch/Walk.antt =====
-- Iterate hands the updates of a batch to its handler, and ends on every input.
use e_lsm_p.Base.{
  ℕ, zero, suc, ◌+◌, ◌%◌, ◌^◌, ◌<◌, ◌≤◌, ◌≡◌, ◌≢◌, refl, ap, ◌∙◌, Option, none, some, List, [], ◌∷◌,
  ◌++◌, length, drop, arith, All, append_assoc, length-append, inl, inr, ltb, ◌==◌, Bool-cases,
  true, false,
}
use e_lsm_p.Coding.Fixed.{IsU32}
use e_lsm_p.Coding.Varint.{get_length_prefixed_slice}
use e_lsm_p.Coding.Varint.Slices.{prefixed, get_length_prefixed_slice-prefixed}
use e_lsm_p.Coding.Varint.Reads.{get_length_prefixed_slice_shrinks}
use e_lsm_p.Status.{ok}
use e_lsm_p.WriteBatch.{
  WriteBatch, header, count, Handler, Read, put_record, delete_record, bad_record, read_record,
  read_put, read_value, read_delete, iterate_loop, iterate,
}
use e_lsm_p.WriteBatch.Contents.{Update, put_update, delete_update, Fits, body, Holds, parts-Holds}

-- What the handler's state should be after the updates in order.
abbrev pub handled : {S : Type 0} → Handler S → List Update → S → S
handled h [] s = s
handled h (put_update key value ∷ us) s = handled h us (h.on_put key value s)
handled h (delete_update key ∷ us) s = handled h us (h.on_delete key s)

read_put_update :
    (key value rest : List ℕ)
    → IsU32 (length key)
    → IsU32 (length value)
    → read_record 1 (prefixed key ++ (prefixed value ++ rest)) ≡ put_record key value rest
unfolding read_record
read_put_update key value rest hk hv =
    ap read_put (get_length_prefixed_slice-prefixed key (prefixed value ++ rest) hk)
    ∙ ap (read_value key) (get_length_prefixed_slice-prefixed value rest hv)

read_delete_update :
    (key rest : List ℕ)
    → IsU32 (length key)
    → read_record 0 (prefixed key ++ rest) ≡ delete_record key rest
unfolding read_record
read_delete_update key rest hk = ap read_delete (get_length_prefixed_slice-prefixed key rest hk)

-- A record that is read leaves less than the input.
abbrev LeavesLess : ℕ → Read → Type 0
LeavesLess n (put_record key value rest) = length rest < n
LeavesLess n (delete_record key rest) = length rest < n
LeavesLess n (bad_record status) = Unit

read_value_less :
    (n : ℕ) (key : List ℕ) (o : Option (List ℕ × List ℕ))
    → ((v r : List ℕ) → o ≡ some (v, r) → length r < n)
    → LeavesLess n (read_value key o)
unfolding read_value
read_value_less n key none h = tt
read_value_less n key (some (v, r)) h = h v r refl

read_put_less :
    (n : ℕ) (o : Option (List ℕ × List ℕ))
    → ((v r : List ℕ) → o ≡ some (v, r) → length r < n)
    → LeavesLess n (read_put o)
read_put_less n none h = unfold read_put in tt
read_put_less n (some (key, input)) h =
    unfold read_put in
    read_value_less n key (get_length_prefixed_slice input)
      (λ v r e. omega (arith, h key input refl, get_length_prefixed_slice_shrinks input v r e))

read_delete_less :
    (n : ℕ) (o : Option (List ℕ × List ℕ))
    → ((v r : List ℕ) → o ≡ some (v, r) → length r < n)
    → LeavesLess n (read_delete o)
unfolding read_delete
read_delete_less n none h = tt
read_delete_less n (some (key, input)) h = h key input refl

read_record_less : (tag : ℕ) (input : List ℕ) → LeavesLess (length input) (read_record tag input)
read_record_less tag input =
    let shrinks = get_length_prefixed_slice_shrinks input in
    let found = get_length_prefixed_slice input in
    unfold read_record in
    elim (Bool-cases (tag == 1)) [
      | inl put ↦ rw put (read_put_less (length input) found shrinks)
      | inr other ↦ rw other (elim (Bool-cases (tag == 0)) [
        | inl del ↦ rw del (read_delete_less (length input) found shrinks)
        | inr bad ↦ rw bad tt
      ])
    ]

module _ {S : Type 0} (handler : Handler S) where
  loop-ne-none :
      (rounds expected found : ℕ) (input : List ℕ) (s : S)
      → length input ≤ rounds
      → iterate_loop handler rounds expected found input s ≢ none
  unfolding iterate_loop
  loop-ne-none rounds expected found [] s h = λ e. cc
  loop-ne-none zero expected found (tag ∷ input) s h = absurd (omega arith)
  loop-ne-none (suc rounds) expected found (tag ∷ input) s h =
      go (read_record tag input) (read_record_less tag input)
        (λ f r s'. loop-ne-none rounds expected f r s')
    where
      go :
          (r : Read)
          → LeavesLess (length input) r
          → ((f : ℕ) (r : List ℕ) (s' : S)
              → length r ≤ rounds
              → iterate_loop handler rounds expected f r s' ≢ none)
          → elim r [
            | put_record key value rest ↦
                iterate_loop handler rounds expected (found + 1) rest (handler.on_put key value s)
            | delete_record key rest ↦
                iterate_loop handler rounds expected (found + 1) rest (handler.on_delete key s)
            | bad_record status ↦ some (status, s)
          ]
            ≢ none
      go (put_record key value rest) less again =
          again (found + 1) rest (handler.on_put key value s) (omega arith)
      go (delete_record key rest) less again =
          again (found + 1) rest (handler.on_delete key s) (omega arith)
      go (bad_record status) less again = λ e. cc

  round_put :
      (rounds expected found tag : ℕ) (input key value rest : List ℕ) (s : S)
      → read_record tag input ≡ put_record key value rest
      → iterate_loop handler (suc rounds) expected found (tag ∷ input) s
        ≡ iterate_loop handler rounds expected (found + 1) rest (handler.on_put key value s)
  unfolding iterate_loop
  round_put rounds expected found tag input key value rest s e = rw (e, iterate_loop)

  round_delete :
      (rounds expected found tag : ℕ) (input key rest : List ℕ) (s : S)
      → read_record tag input ≡ delete_record key rest
      → iterate_loop handler (suc rounds) expected found (tag ∷ input) s
        ≡ iterate_loop handler rounds expected (found + 1) rest (handler.on_delete key s)
  unfolding iterate_loop
  round_delete rounds expected found tag input key rest s e = rw (e, iterate_loop)

  loop-body :
      (rounds expected found : ℕ) (us : List Update) (s : S)
      → length (body us) ≤ rounds
      → All Fits us
      → found + length us ≡ expected
      → iterate_loop handler rounds expected found (body us) s ≡ some (ok, handled handler us s)
  unfolding iterate_loop
  loop-body rounds expected found [] s h fits e =
      let same : (found == expected) ≡ true = ground arith in rw same
  loop-body zero expected found (put_update key value ∷ us) s h fits e = absurd (omega arith)
  loop-body zero expected found (delete_update key ∷ us) s h fits e = absurd (omega arith)
  loop-body (suc rounds) expected found (put_update key value ∷ us) s h (fits, more) e =
      rw (append_assoc (prefixed key) (prefixed value) (body us)) (
        round_put rounds expected found 1 (prefixed key ++ (prefixed value ++ body us)) key value
          (body us) s (read_put_update key value (body us) fits.0 fits.1)
        ∙ loop-body rounds expected (found + 1) us (handler.on_put key value s)
            (omega (arith, length-append (prefixed key ++ prefixed value) (body us))) more
            (omega arith))
  loop-body (suc rounds) expected found (delete_update key ∷ us) s h (fits, more) e =
      round_delete rounds expected found 0 (prefixed key ++ body us) key (body us) s
        (read_delete_update key (body us) fits)
      ∙ loop-body rounds expected (found + 1) us (handler.on_delete key s)
          (omega (arith, length-append (prefixed key) (body us))) more (omega arith)

  -- Iterate ends on every string, well formed or not.
  pub iterate-ne-none : (rep : WriteBatch) (s : S) → iterate handler rep s ≢ none
  unfolding iterate
  iterate-ne-none rep s = elim (Bool-cases (ltb (length rep) header)) [
    | inl short ↦ rw short (λ e. cc)
    | inr long ↦
        rw long
          (loop-ne-none (length (drop header rep)) (count rep) 0 (drop header rep) s (omega arith))
  ]

  -- On a well-formed batch of fewer than 2 ^ 32 updates Iterate hands every update to the handler,
  -- in the order in which they were added, and returns OK.
  pub iterate-Holds :
      (rep : WriteBatch) (seq : ℕ) (us : List Update) (s : S)
      → Holds rep seq us
      → All Fits us
      → IsU32 (length us)
      → iterate handler rep s ≡ some (ok, handled handler us s)
  unfolding iterate
  iterate-Holds rep seq us s h fits few =
      let (counted, _, tail, size) = parts-Holds rep seq us h in
      let long : ltb (length rep) header ≡ false = ground arith in
      rw (long, tail, counted)
        (loop-body (length (body us)) (length us % 2 ^ 32) 0 us s (omega arith) fits (omega arith))

-- ===== src/WriteBatch/Contents.antt =====
-- What a batch holds: a sequence number, the count, and the updates in order.
use e_lsm_p.Base.{
  ℕ, ◌+◌, ◌%◌, ◌^◌, ◌≡◌, refl, sym, ap, ◌∙◌, List, [], ◌∷◌, ◌++◌, length, take, drop, arith,
  append_assoc, append-nil, length-append,
}
use e_lsm_p.Coding.Fixed.{
  IsU32, IsU64, encode_fixed32, encode_fixed64, decode_fixed32, decode_fixed64,
}
use e_lsm_p.Coding.Fixed.Laws.{
  length-encode_fixed32, length-encode_fixed64, decode_fixed32-encode, decode_fixed64-encode,
}
use e_lsm_p.Coding.Varint.Slices.{prefixed, put_length_prefixed_slice-prefixed}
use e_lsm_p.DbFormat.{type_code, type_value, type_deletion}
use e_lsm_p.WriteBatch.{
  WriteBatch, clear, count, set_count, sequence, set_sequence, put, delete, append, header,
}

pub data Update : Type 0 where
  put_update : List ℕ → List ℕ → Update
  delete_update : List ℕ → Update

-- Sizes that a varint32 can hold.
abbrev pub Fits : Update → Type 0
Fits (put_update key value) = IsU32 (length key) × IsU32 (length value)
Fits (delete_update key) = IsU32 (length key)

abbrev pub encoded : Update → List ℕ
encoded (put_update key value) = type_code type_value ∷ (prefixed key ++ prefixed value)
encoded (delete_update key) = type_code type_deletion ∷ prefixed key

abbrev pub body : List Update → List ℕ
body [] = []
body (u ∷ us) = encoded u ++ body us

-- A batch that holds the updates `us` under the sequence number `seq`.
pub record Holds (rep : WriteBatch) (seq : ℕ) (us : List Update) : Type 0 where
  pub layout : rep ≡ encode_fixed64 seq ++ (encode_fixed32 (length us % 2 ^ 32) ++ body us)
  pub seq_fits : IsU64 seq

-- The three parts of a batch.
abbrev laid_out : ℕ → ℕ → List ℕ → List ℕ
laid_out seq n rest = encode_fixed64 seq ++ (encode_fixed32 n ++ rest)

take_eight : (seq n : ℕ) (rest : List ℕ) → take 8 (laid_out seq n rest) ≡ encode_fixed64 seq
unfolding encode_fixed64
take_eight seq n rest = refl

drop_eight : (seq n : ℕ) (rest : List ℕ) → drop 8 (laid_out seq n rest) ≡ encode_fixed32 n ++ rest
unfolding encode_fixed64
drop_eight seq n rest = refl

drop_header : (seq n : ℕ) (rest : List ℕ) → drop 12 (laid_out seq n rest) ≡ rest
unfolding encode_fixed64 encode_fixed32
drop_header seq n rest = refl

count-laid_out : (seq n : ℕ) (rest : List ℕ) → IsU32 n → count (laid_out seq n rest) ≡ n
count-laid_out seq n rest h =
    unfold count in (ap decode_fixed32 (drop_eight seq n rest) ∙ decode_fixed32-encode n rest h)

set_count-laid_out :
    (seq n m : ℕ) (rest : List ℕ)
    → set_count (laid_out seq n rest) m ≡ laid_out seq (m % 2 ^ 32) rest
unfolding set_count encode_fixed64
set_count-laid_out seq n m rest = refl

body-append : (us vs : List Update) → body (us ++ vs) ≡ body us ++ body vs
body-append [] vs = refl
body-append (u ∷ us) vs =
    ap (λ (t : List ℕ). encoded u ++ t) (body-append us vs)
    ∙ sym (append_assoc (encoded u) (body us) (body vs))

laid_out-append :
    (seq n : ℕ) (rest tail : List ℕ) → laid_out seq n rest ++ tail ≡ laid_out seq n (rest ++ tail)
laid_out-append seq n rest tail =
    append_assoc (encode_fixed64 seq) (encode_fixed32 n ++ rest) tail
    ∙ ap (λ (t : List ℕ). encode_fixed64 seq ++ t) (append_assoc (encode_fixed32 n) rest tail)

-- Counting one more, or as many more as another batch holds.
bump_count :
    (rep : WriteBatch) (seq m : ℕ) (us : List Update)
    → Holds rep seq us
    → set_count rep (count rep + m) ≡ laid_out seq ((length us % 2 ^ 32 + m) % 2 ^ 32) (body us)
bump_count rep seq m us h =
    let n = length us % 2 ^ 32 in
    let counted : count rep ≡ n =
      ap count h.layout ∙ count-laid_out seq n (body us) (omega arith) in
    rw (counted, h.layout) (set_count-laid_out seq n (n + m) (body us))

count_more :
    (us vs : List Update) (m : ℕ)
    → m ≡ length vs % 2 ^ 32
    → (length us % 2 ^ 32 + m) % 2 ^ 32 ≡ length (us ++ vs) % 2 ^ 32
count_more us vs m h = omega (arith, length-append us vs)

-- A batch with one more update behind.
extended :
    (rep new : WriteBatch) (seq : ℕ) (us : List Update) (u : Update)
    → Holds rep seq us
    → new ≡ set_count rep (count rep + 1) ++ encoded u
    → Holds new seq (us ++ (u ∷ []))
extended rep new seq us u h e = record {
  layout =
      e
      ∙ ap (λ (t : List ℕ). t ++ encoded u) (bump_count rep seq 1 us h)
      ∙ laid_out-append seq ((length us % 2 ^ 32 + 1) % 2 ^ 32) (body us) (encoded u)
      ∙ ap (λ (n : ℕ). laid_out seq n (body us ++ encoded u))
          (count_more us (u ∷ []) 1 (omega arith))
      ∙ ap (λ (t : List ℕ). laid_out seq (length (us ++ (u ∷ [])) % 2 ^ 32) t)
          (ap (λ (t : List ℕ). body us ++ t) (sym (append-nil (encoded u)))
            ∙ sym (body-append us (u ∷ [])));
  seq_fits = h.seq_fits;
}

pub clear-Holds : Holds clear 0 []
unfolding clear encode_fixed64 encode_fixed32
clear-Holds = record { layout = refl; seq_fits = omega arith }

pub put-Holds :
    (rep : WriteBatch) (seq : ℕ) (us : List Update) (key value : List ℕ)
    → Holds rep seq us
    → IsU32 (length key)
    → IsU32 (length value)
    → Holds (put rep key value) seq (us ++ (put_update key value ∷ []))
put-Holds rep seq us key value h hk hv =
    extended rep (put rep key value) seq us (put_update key value) h (
      let base = set_count rep (count rep + 1) in
      unfold put in
      put_length_prefixed_slice-prefixed _ value hv
      ∙ ap (λ (t : List ℕ). t ++ prefixed value) (put_length_prefixed_slice-prefixed _ key hk)
      ∙ append_assoc (base ++ (1 ∷ [])) (prefixed key) (prefixed value)
      ∙ append_assoc base (1 ∷ []) (prefixed key ++ prefixed value))

pub delete-Holds :
    (rep : WriteBatch) (seq : ℕ) (us : List Update) (key : List ℕ)
    → Holds rep seq us
    → IsU32 (length key)
    → Holds (delete rep key) seq (us ++ (delete_update key ∷ []))
delete-Holds rep seq us key h hk = extended rep (delete rep key) seq us (delete_update key) h (
    let base = set_count rep (count rep + 1) in
    unfold delete in
    put_length_prefixed_slice-prefixed _ key hk ∙ append_assoc base (0 ∷ []) (prefixed key))

pub set_sequence-Holds :
    (rep : WriteBatch) (seq seq' : ℕ) (us : List Update)
    → Holds rep seq us
    → IsU64 seq'
    → Holds (set_sequence rep seq') seq' us
set_sequence-Holds rep seq seq' us h fits = record {
  layout =
      unfold set_sequence in
      rw h.layout (
        ap (λ (t : List ℕ). encode_fixed64 seq' ++ t)
          (drop_eight seq (length us % 2 ^ 32) (body us)));
  seq_fits = fits;
}

pub append-Holds :
    (dst src : WriteBatch) (seq seq' : ℕ) (us vs : List Update)
    → Holds dst seq us
    → Holds src seq' vs
    → Holds (append dst src) seq (us ++ vs)
append-Holds dst src seq seq' us vs h k =
    let m = length vs % 2 ^ 32 in
    let counted : count src ≡ m =
      ap count k.layout ∙ count-laid_out seq' m (body vs) (omega arith) in
    let tail : drop header src ≡ body vs =
      ap (λ (t : List ℕ). drop 12 t) k.layout ∙ drop_header seq' m (body vs) in
    record {
      layout =
          unfold append in
          rw (counted, tail)
            (ap (λ (t : List ℕ). t ++ body vs) (bump_count dst seq m us h)
              ∙ laid_out-append seq ((length us % 2 ^ 32 + m) % 2 ^ 32) (body us) (body vs)
              ∙ ap (λ (n : ℕ). laid_out seq n (body us ++ body vs)) (count_more us vs m refl)
              ∙ ap (λ (t : List ℕ). laid_out seq (length (us ++ vs) % 2 ^ 32) t)
                  (sym (body-append us vs)));
      seq_fits = h.seq_fits;
    }

-- Every operation keeps a batch well formed: a cleared batch holds nothing, Put and Delete add their
-- update at the end, SetSequence changes the number alone, and Append adds the updates of the
-- other batch and keeps its own number. Keys and values are shorter than 2 ^ 32.
pub operations-Holds :
    (rep src : WriteBatch) (seq seq' : ℕ) (us vs : List Update) (key value : List ℕ)
    → Holds rep seq us
    → Holds src seq' vs
    → IsU32 (length key)
    → IsU32 (length value)
    → Holds clear 0 []
      × Holds (put rep key value) seq (us ++ (put_update key value ∷ []))
      × Holds (delete rep key) seq (us ++ (delete_update key ∷ []))
      × Holds (set_sequence rep seq') seq' us
      × Holds (append rep src) seq (us ++ vs)
operations-Holds rep src seq seq' us vs key value h k hk hv = (
  clear-Holds,
  put-Holds rep seq us key value h hk hv,
  delete-Holds rep seq us key h hk,
  set_sequence-Holds rep seq seq' us h k.seq_fits,
  append-Holds rep src seq seq' us vs h k,
)

pub parts-Holds :
    (rep : WriteBatch) (seq : ℕ) (us : List Update)
    → Holds rep seq us
    → (count rep ≡ length us % 2 ^ 32)
      × (sequence rep ≡ seq)
      × (drop header rep ≡ body us)
      × (length rep ≡ header + length (body us))
parts-Holds rep seq us h =
    let n = length us % 2 ^ 32 in
    (
      ap count h.layout ∙ count-laid_out seq n (body us) (omega arith),
      (unfold sequence in
          ap decode_fixed64 h.layout
          ∙ decode_fixed64-encode seq (encode_fixed32 n ++ body us) h.seq_fits),
      ap (λ (t : List ℕ). drop 12 t) h.layout ∙ drop_header seq n (body us),
      ap length h.layout
          ∙ omega (
            arith,
            length-append (encode_fixed64 seq) (encode_fixed32 n ++ body us),
            length-append (encode_fixed32 n) (body us),
            length-encode_fixed64 seq,
            length-encode_fixed32 n,
          ),
    )

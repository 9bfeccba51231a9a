-- ===== src/Bloom/Complete.antt =====
-- The Bloom filter of Enclave/leveldb/util/bloom.cpp has no false negatives.
use e_lsm_p.Base.{
  ℕ, zero, suc, ◌+◌, ◌-◌, ◌*◌, ◌/◌, ◌%◌, ◌^◌, ◌<◌, ◌≤◌, ◌≡◌, refl, ap, ◌∙◌, Bool, true, false, List,
  [], ◌∷◌, ◌++◌, length, get_or, replicate, drop, All, ltb, if◌then◌else◌, arith, length-set,
  length-append, get_or-append_left, get_or-append_right, drop-append,
}
use e_lsm_p.Bloom.{
  set_bit, has_bit, add_probes, add_keys, filter_bytes, create_filter, check_probes, key_may_match,
  bloom_hash, delta_of, probes,
}
use e_lsm_p.Bloom.Bits.{Bytes, set_bit-Bytes, has_bit-set_bit, has_bit-set_bit_self}

-- An array of bytes that holds the given number of bits.
record IsArray (bits : ℕ) (array : List ℕ) : Type 0 where
  bytes_of : Bytes array
  holds : bits ≡ length array * 8
  some_bit : 0 < bits

-- What is set in the first array is set in the second.
abbrev Within : ℕ → List ℕ → List ℕ → Type 0
Within bits a b = (q : ℕ) → q < bits → has_bit a q ≡ true → has_bit b q ≡ true

length-set_bit : (array : List ℕ) (p : ℕ) → length (set_bit array p) ≡ length array
unfolding set_bit
length-set_bit array p = length-set array (p / 8) _

set_bit-IsArray :
    (bits : ℕ) (array : List ℕ) (p : ℕ)
    → IsArray bits array
    → p < bits
    → IsArray bits (set_bit array p)
set_bit-IsArray bits array p is_array under = record {
  bytes_of = set_bit-Bytes array is_array.bytes_of p (omega (arith, is_array.holds));
  holds = omega (arith, is_array.holds, length-set_bit array p);
  some_bit = is_array.some_bit;
}

add_probes-IsArray :
    (k h delta bits : ℕ) (array : List ℕ)
    → IsArray bits array
    → IsArray bits (add_probes k h delta bits array)
unfolding add_probes
add_probes-IsArray zero h delta bits array is_array = is_array
add_probes-IsArray (suc k) h delta bits array is_array =
    add_probes-IsArray k ((h + delta) % 2 ^ 32) delta bits (set_bit array (h % bits))
      (set_bit-IsArray bits array (h % bits) is_array (omega (arith, is_array.some_bit)))

add_probes_keep :
    (k h delta bits : ℕ) (array : List ℕ)
    → IsArray bits array
    → Within bits array (add_probes k h delta bits array)
unfolding add_probes
add_probes_keep zero h delta bits array is_array q under on = on
add_probes_keep (suc k) h delta bits array is_array q under on =
    let place : h % bits < bits = omega (arith, is_array.some_bit) in
    add_probes_keep k ((h + delta) % 2 ^ 32) delta bits (set_bit array (h % bits))
      (set_bit-IsArray bits array (h % bits) is_array place) q under
      (has_bit-set_bit array is_array.bytes_of (h % bits) (omega (arith, is_array.holds)) q on)

check_probes_keep :
    (k h delta bits : ℕ) (a b : List ℕ)
    → 0 < bits
    → Within bits a b
    → check_probes k h delta bits a ≡ true
    → check_probes k h delta bits b ≡ true
unfolding check_probes
check_probes_keep zero h delta bits a b pos within all = refl
check_probes_keep (suc k) h delta bits a b pos within all =
    let ih = check_probes_keep k ((h + delta) % 2 ^ 32) delta bits a b pos within in
    let here = within (h % bits) (omega arith) in ground (arith, ih, here, all)

check_probes-add_probes :
    (k h delta bits : ℕ) (array : List ℕ)
    → IsArray bits array
    → check_probes k h delta bits (add_probes k h delta bits array) ≡ true
unfolding check_probes add_probes
check_probes-add_probes zero h delta bits array is_array = refl
check_probes-add_probes (suc k) h delta bits array is_array =
    let place : h % bits < bits = omega (arith, is_array.some_bit) in
    let next = set_bit-IsArray bits array (h % bits) is_array place in
    let first =
      add_probes_keep k ((h + delta) % 2 ^ 32) delta bits (set_bit array (h % bits)) next (h % bits)
        place
        (has_bit-set_bit_self array is_array.bytes_of (h % bits) (omega (arith, is_array.holds))) in
    let rest =
      check_probes-add_probes k ((h + delta) % 2 ^ 32) delta bits (set_bit array (h % bits)) next in
    rw (first, rest) refl

add_keys-IsArray :
    (k bits : ℕ) (keys : List (List ℕ)) (array : List ℕ)
    → IsArray bits array
    → IsArray bits (add_keys k bits keys array)
unfolding add_keys
add_keys-IsArray k bits [] array is_array = is_array
add_keys-IsArray k bits (key ∷ keys) array is_array =
    add_keys-IsArray k bits keys _
      (add_probes-IsArray k (bloom_hash key) (delta_of (bloom_hash key)) bits array is_array)

add_keys_keep :
    (k bits : ℕ) (keys : List (List ℕ)) (array : List ℕ)
    → IsArray bits array
    → Within bits array (add_keys k bits keys array)
unfolding add_keys
add_keys_keep k bits [] array is_array q under on = on
add_keys_keep k bits (key ∷ keys) array is_array q under on =
    let h = bloom_hash key in
    add_keys_keep k bits keys (add_probes k h (delta_of h) bits array)
      (add_probes-IsArray k h (delta_of h) bits array is_array) q under
      (add_probes_keep k h (delta_of h) bits array is_array q under on)

-- The probes of a key are all found in an array.
Found : ℕ → ℕ → List ℕ → List ℕ → Type 0
Found k bits array key =
    check_probes k (bloom_hash key) (delta_of (bloom_hash key)) bits array ≡ true

add_keys-Found :
    (k bits : ℕ) (keys : List (List ℕ)) (array : List ℕ)
    → IsArray bits array
    → All (Found k bits (add_keys k bits keys array)) keys
unfolding add_keys Found
add_keys-Found k bits [] array is_array = tt
add_keys-Found k bits (key ∷ keys) array is_array =
    let h = bloom_hash key in
    let next = add_probes-IsArray k h (delta_of h) bits array is_array in
    (
      check_probes_keep k h (delta_of h) bits (add_probes k h (delta_of h) bits array)
          (add_keys k bits keys (add_probes k h (delta_of h) bits array)) is_array.some_bit
          (add_keys_keep k bits keys (add_probes k h (delta_of h) bits array) next)
          (check_probes-add_probes k h (delta_of h) bits array is_array),
      add_keys-Found k bits keys (add_probes k h (delta_of h) bits array) next,
    )

get_or-replicate : (n i : ℕ) → get_or (replicate {A = ℕ} n 0) i 0 ≡ 0
get_or-replicate zero i = refl
get_or-replicate (suc n) zero = refl
get_or-replicate (suc n) (suc i) = get_or-replicate n i

length-replicate : (n : ℕ) → length (replicate {A = ℕ} n 0) ≡ n
length-replicate zero = refl
length-replicate (suc n) = ap suc (length-replicate n)

empty-IsArray : (n : ℕ) → 0 < n → IsArray (n * 8) (replicate n 0)
empty-IsArray n pos = record {
  bytes_of = λ i. omega (arith, get_or-replicate n i);
  holds = omega (arith, length-replicate n);
  some_bit = omega arith;
}

probes_bound : (rounded : ℕ) → probes rounded ≤ 30
unfolding probes
probes_bound rounded = ground arith

filter_bytes_bound : (b n : ℕ) → n * b < 2 ^ 63 → 8 ≤ filter_bytes b n
unfolding filter_bytes
filter_bytes_bound b n h = ground (arith, h)

length-add_keys :
    (k n : ℕ) (keys : List (List ℕ)) → 0 < n → length (add_keys k (n * 8) keys (replicate n 0)) ≡ n
length-add_keys k n keys pos =
    omega (arith, (add_keys-IsArray k (n * 8) keys (replicate n 0) (empty-IsArray n pos)).holds)

has_bit-append :
    (array rest : List ℕ) (q : ℕ)
    → q < length array * 8
    → has_bit array q ≡ true
    → has_bit (array ++ rest) q ≡ true
unfolding has_bit
has_bit-append array rest q h on = rw (get_or-append_left array rest (q / 8) 0 (omega arith)) on

match_case :
    (n k : ℕ) (found : Bool)
    → k ≤ 30
    → 0 < n
    → found ≡ true
    → (if ltb (suc n) 2 then false else if ltb 30 k then true else found) ≡ true
match_case n k found small pos h = ground arith

key_may_match-Found :
    (k n : ℕ) (array : List ℕ) (key : List ℕ)
    → k ≤ 30
    → 0 < n
    → length array ≡ n
    → Found k (n * 8) array key
    → key_may_match key (array ++ (k ∷ [])) ≡ true
unfolding Found key_may_match
key_may_match-Found k n array key small pos len found =
    let size : length (array ++ (k ∷ [])) ≡ suc n =
      omega (arith, length-append array (k ∷ []), len) in
    let before : suc n - 1 ≡ n = omega arith in
    let last : get_or (array ++ (k ∷ [])) n 0 ≡ k =
      ap (λ t. get_or (array ++ (k ∷ [])) t 0) (omega (arith, len))
      ∙ get_or-append_right array (k ∷ []) 0 0 in
    let h = bloom_hash key in
    let all =
      check_probes_keep k h (delta_of h) (n * 8) array (array ++ (k ∷ [])) (omega arith)
        (λ q under on. has_bit-append array (k ∷ []) q (omega (arith, len)) on) found in
    rw (size, before, last) (match_case n k _ small pos all)

All-map {ℓ κ μ} :
    {A : Type ℓ}
    → (P : A → Type κ) (Q : A → Type μ) (xs : List A) → ((x : A) → P x → Q x)
    → All P xs
    → All Q xs
All-map P Q [] f h = tt
All-map P Q (x ∷ xs) f h = (f x h.0, All-map P Q xs f h.1)

-- A filter that CreateFilter appends to any string matches every one of its keys: there is no
-- false negative, for any bits_per_key and any number of probes that the policy's constructor
-- computes, when the number of bits asked for is below 2^63.
pub create_filter-key_may_match :
    (bits_per_key rounded : ℕ) (keys : List (List ℕ)) (dst : List ℕ)
    → length keys * bits_per_key < 2 ^ 63
    → All
        (λ key.
          key_may_match key
            (drop (length dst) (create_filter bits_per_key (probes rounded) keys dst))
          ≡ true)
        keys
unfolding create_filter
create_filter-key_may_match bits_per_key rounded keys dst small =
    let k = probes rounded in
    let n = filter_bytes bits_per_key (length keys) in
    let pos : 0 < n = omega (arith, filter_bytes_bound bits_per_key (length keys) small) in
    let array = add_keys k (n * 8) keys (replicate n 0) in
    rw (drop-append dst (array ++ (k ∷ []))) (
      All-map (Found k (n * 8) array) (λ key. key_may_match key (array ++ (k ∷ [])) ≡ true) keys
        (λ key found.
          key_may_match-Found k n array key (probes_bound rounded) pos
            (length-add_keys k n keys pos) found)
        (add_keys-Found k (n * 8) keys (replicate n 0) (empty-IsArray n pos)))

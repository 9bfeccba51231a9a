-- ===== src/Bloom.antt =====
-- Enclave/leveldb/util/hash.cpp and util/bloom.cpp: the hash of a key, and the Bloom filter of a
-- set of keys. A Slice is the list of its bytes.
pub mod Bits
pub mod Complete
use e_lsm_p.Base.{
  ℕ, zero, suc, ◌+◌, ◌-◌, ◌*◌, ◌/◌, ◌%◌, ◌^◌, bit_and, bit_or, bit_xor, Bool, true, false, List, [],
  ◌∷◌, ◌++◌, length, get_or, set, replicate, ltb, ◌==◌, if◌then◌else◌,
}
use e_lsm_p.Coding.Fixed.{memory_value}

abbrev pub hash_m : ℕ
hash_m = 0xc6a4a793

-- `h *= m; h ^= (h >> r)` on uint32_t.
abbrev pub mix : ℕ → ℕ → ℕ
mix r h = let product = h * hash_m % 2 ^ 32 in bit_xor product (product / 2 ^ r)

-- The words of four bytes, then the one, two or three bytes that remain.
unfoldable pub hash_loop : List ℕ → ℕ → ℕ
hash_loop (a ∷ b ∷ c ∷ d ∷ rest) h =
    hash_loop rest (mix 16 ((h + memory_value 4 (a ∷ b ∷ c ∷ d ∷ [])) % 2 ^ 32))
hash_loop (a ∷ b ∷ c ∷ []) h =
    mix 24 ((((h + c * 2 ^ 16) % 2 ^ 32 + b * 2 ^ 8) % 2 ^ 32 + a) % 2 ^ 32)
hash_loop (a ∷ b ∷ []) h = mix 24 (((h + b * 2 ^ 8) % 2 ^ 32 + a) % 2 ^ 32)
hash_loop (a ∷ []) h = mix 24 ((h + a) % 2 ^ 32)
hash_loop [] h = h

-- `n * m` is a size_t product, and the exclusive or is cut to 32 bits.
unfoldable pub hash : List ℕ → ℕ → ℕ
unfolding hash_loop
hash key seed = hash_loop key (bit_xor seed (length key * hash_m % 2 ^ 64) % 2 ^ 32)

unfoldable pub bloom_hash : List ℕ → ℕ
unfolding hash
bloom_hash key = hash key 0xbc9f1d34

-- The number of probes: `rounded` is the integer part of bits_per_key * 0.69.
unfoldable pub probes : ℕ → ℕ
probes rounded = if ltb rounded 1 then 1 else if ltb 30 rounded then 30 else rounded

-- Rotate right 17 bits.
abbrev pub delta_of : ℕ → ℕ
delta_of h = bit_or (h / 2 ^ 17) (h * 2 ^ 15 % 2 ^ 32)

-- `array[bitpos/8] |= (1 << (bitpos % 8))`
unfoldable pub set_bit : List ℕ → ℕ → List ℕ
set_bit array bitpos =
    set array (bitpos / 8) (bit_or (get_or array (bitpos / 8) 0) (2 ^ (bitpos % 8)))

-- `(array[bitpos/8] & (1 << (bitpos % 8))) != 0`
unfoldable pub has_bit : List ℕ → ℕ → Bool
has_bit array bitpos =
    if bit_and (get_or array (bitpos / 8) 0) (2 ^ (bitpos % 8)) == 0 then false else true

unfoldable pub add_probes : ℕ → ℕ → ℕ → ℕ → List ℕ → List ℕ
unfolding set_bit
add_probes zero h delta bits array = array
add_probes (suc k) h delta bits array =
    add_probes k ((h + delta) % 2 ^ 32) delta bits (set_bit array (h % bits))

unfoldable pub add_keys : ℕ → ℕ → List (List ℕ) → List ℕ → List ℕ
unfolding add_probes bloom_hash
add_keys k bits [] array = array
add_keys k bits (key ∷ keys) array =
    add_keys k bits keys (add_probes k (bloom_hash key) (delta_of (bloom_hash key)) bits array)

-- The size of the filter in bytes, for n keys.
unfoldable pub filter_bytes : ℕ → ℕ → ℕ
filter_bytes bits_per_key n =
    let bits = n * bits_per_key % 2 ^ 64 in ((if ltb bits 64 then 64 else bits) + 7) % 2 ^ 64 / 8

-- What CreateFilter appends: the array, and the number of probes behind it.
unfoldable pub create_filter : ℕ → ℕ → List (List ℕ) → List ℕ → List ℕ
unfolding filter_bytes add_keys
create_filter bits_per_key k keys dst =
    let bytes = filter_bytes bits_per_key (length keys) in
    dst ++ (add_keys k (bytes * 8) keys (replicate bytes 0) ++ (k ∷ []))

unfoldable pub check_probes : ℕ → ℕ → ℕ → ℕ → List ℕ → Bool
unfolding has_bit
check_probes zero h delta bits array = true
check_probes (suc k) h delta bits array =
    let rest = check_probes k ((h + delta) % 2 ^ 32) delta bits array in
    if has_bit array (h % bits) then rest else false

-- A number of probes above 30 is reserved, and counts as a match.
unfoldable pub key_may_match : List ℕ → List ℕ → Bool
unfolding check_probes bloom_hash
key_may_match key bloom_filter =
    let len = length bloom_filter in
    let k = get_or bloom_filter (len - 1) 0 in
    let h = bloom_hash key in
    let found = check_probes k h (delta_of h) ((len - 1) * 8) bloom_filter in
    if ltb len 2 then false else if ltb 30 k then true else found

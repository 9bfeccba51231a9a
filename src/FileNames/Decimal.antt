-- ===== src/FileNames/Decimal.antt =====
-- ConsumeDecimalNumber of Enclave/leveldb/util/logging.cpp reads the decimal digits of a number back.
use e_lsm_p.Base.{
  ℕ, zero, suc, ◌+◌, ◌-◌, ◌*◌, ◌/◌, ◌%◌, ◌^◌, ◌≤◌, ◌<◌, ◌≡◌, inl, inr, refl, ap, ◌∙◌, true, false,
  ◌&&◌, ◌||◌, some, List, [], ◌∷◌, ◌++◌, length, replicate, ltb, leb, ◌==◌, All, All-append, arith,
  Bool-cases, length-append,
}
use native.Mathlib.Nat.{pow-suc}
use e_lsm_p.FileNames.{
  digits, number_digits, padded, consume_loop, consume_decimal_number, max_uint64,
}

abbrev pub IsDigit : ℕ → Type 0
IsDigit c = (48 ≤ c) × (c ≤ 57)

-- The number that digits add to one that was read before them.
abbrev value : ℕ → List ℕ → ℕ
value v [] = v
value v (c ∷ cs) = value (v * 10 + (c - 48)) cs

value_grows : (v : ℕ) (cs : List ℕ) → v ≤ value v cs
value_grows v [] = omega arith
value_grows v (c ∷ cs) = let rest = value_grows (v * 10 + (c - 48)) cs in omega (arith, rest)

value-last : (v : ℕ) (cs : List ℕ) (d : ℕ) → value v (cs ++ (d ∷ [])) ≡ value v cs * 10 + (d - 48)
value-last v [] d = refl
value-last v (c ∷ cs) d = value-last (v * 10 + (c - 48)) cs d

value-zeros : (k : ℕ) (cs : List ℕ) → value 0 (replicate k 48 ++ cs) ≡ value 0 cs
value-zeros zero cs = refl
value-zeros (suc k) cs = value-zeros k cs

-- A number with that many digits is what its digits say, and it has one at least.
digits-value :
    (rounds n : ℕ)
    → n < 10 ^ rounds
    → 0 < rounds
    → (value 0 (digits rounds n) ≡ n)
      × All IsDigit (digits rounds n)
      × (0 < length (digits rounds n))
unfolding digits
digits-value zero n h k = absurd (omega arith)
digits-value (suc zero) n h k =
    let small : ltb n 10 ≡ true = ground (arith, h) in
    rw small (omega arith, ((omega arith, omega arith), tt), omega arith)
digits-value (suc (suc rounds)) n h k = elim (Bool-cases (ltb n 10)) [
  | inl small ↦ rw small (omega arith, ((omega arith, ground (arith, small)), tt), omega arith)
  | inr large ↦
      let less : n / 10 < 10 ^ suc rounds =
        let e = pow-suc 10 (suc rounds) in omega (arith, e, h) in
      let (same, are_digits, some_there) = digits-value (suc rounds) (n / 10) less (omega arith) in
      let front = digits (suc rounds) (n / 10) in
      let last = value-last 0 front (48 + n % 10) in
      let size = length-append front ((48 + n % 10) ∷ []) in
      rw large (
        omega (arith, last, same),
        All-append IsDigit front ((48 + n % 10) ∷ []) are_digits ((omega arith, omega arith), tt),
        omega (arith, size),
      )
]

-- The digits are read up to where they end, if their number fits into 64 bits.
consume_loop-digits :
    (v count : ℕ) (cs suffix : List ℕ)
    → All IsDigit cs
    → value v cs ≤ max_uint64
    → consume_loop v count (cs ++ suffix) ≡ consume_loop (value v cs) (count + length cs) suffix
unfolding consume_loop
consume_loop-digits v count [] suffix h fits =
    ap (λ n. consume_loop v n suffix) (let e : count ≡ count + 0 = omega arith in e)
consume_loop-digits v count (c ∷ cs) suffix ((low, high), h) fits =
    let grows = value_grows (v * 10 + (c - 48)) cs in
    let is_digit : leb 48 c && leb c 57 ≡ true = ground (arith, low, high) in
    let no_overflow : (ltb (max_uint64 / 10) v
          || ((v == max_uint64 / 10) && ltb (max_uint64 % 10) (c - 48)))
        ≡ false =
      ground (arith, grows, fits, low, high) in
    let rest = consume_loop-digits (v * 10 + (c - 48)) (suc count) cs suffix h fits in
    let more : suc count + length cs ≡ count + suc (length cs) = omega arith in
    rw (is_digit, no_overflow)
      (rest ∙ ap (λ n. consume_loop (value (v * 10 + (c - 48)) cs) n suffix) more)

zeros-IsDigit : (k : ℕ) → All IsDigit (replicate k 48)
zeros-IsDigit zero = tt
zeros-IsDigit (suc k) = ((omega arith, omega arith), zeros-IsDigit k)

-- The padded digits of a uint64_t: what they are worth, and that there is one.
pub padded-value :
    (n : ℕ)
    → n < 2 ^ 64
    → (value 0 (padded n) ≡ n) × All IsDigit (padded n) × (0 < length (padded n))
unfolding padded
padded-value n h =
    let (same, are_digits, some_there) = digits-value number_digits n (omega arith) (omega arith) in
    let k = 6 - length (digits number_digits n) in
    let size = length-append (replicate k 48) (digits number_digits n) in
    (
      value-zeros k (digits number_digits n) ∙ same,
      All-append IsDigit (replicate k 48) (digits number_digits n) (zeros-IsDigit k) are_digits,
      omega (arith, size, some_there),
    )

-- ConsumeDecimalNumber takes the padded digits of a uint64_t, and leaves what follows them, if that does not begin
-- with a digit.
pub consume_decimal_number-padded :
    (n : ℕ) (suffix : List ℕ)
    → n < 2 ^ 64
    → consume_loop n (length (padded n)) suffix ≡ some (n, length (padded n), suffix)
    → consume_decimal_number (padded n ++ suffix) ≡ some (n, suffix)
unfolding consume_decimal_number
consume_decimal_number-padded n suffix h stops =
    let (same, are_digits, some_there) = padded-value n h in
    let count : 0 + length (padded n) ≡ length (padded n) = omega arith in
    let positive : ltb 0 (length (padded n)) ≡ true = ground (arith, some_there) in
    let read = consume_loop-digits 0 0 (padded n) suffix are_digits (omega (arith, same, h)) in
    let all : consume_loop 0 0 (padded n ++ suffix) ≡ some (n, length (padded n), suffix) =
      read ∙ (rw (same, count) stops) in
    rw all (rw positive refl)

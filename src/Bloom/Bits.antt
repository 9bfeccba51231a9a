-- ===== src/Bloom/Bits.antt =====
-- Setting one bit of an array of bytes.
use e_lsm_p.Base.{
  ℕ, zero, suc, ◌/◌, ◌%◌, ◌^◌, ◌<◌, ◌≡◌, refl, sym, ap, ◌∙◌, bit_and, bit_or, Bool, true, false,
  List, length, get_or, ltb, ◌==◌, ◌&&◌, ◌||◌, not, if◌then◌else◌, arith, get_or-set_self,
  get_or-set_ne, ltb→lt,
}
use e_lsm_p.Base.Bits.{bit_or_bound}
use e_lsm_p.Bloom.{set_bit, has_bit}
use native.Mathlib.Decide.{ℕ_discrete}

-- Does a test hold for every number below a bound?
module _ (test : ℕ → Bool) where
  every_below : ℕ → Bool
  every_below zero = true
  every_below (suc bound) = every_below bound && test bound

  test_of-every_below : (bound i : ℕ) → i < bound → every_below bound ≡ true → test i ≡ true
  unfolding every_below
  test_of-every_below zero i inside all = absurd (omega arith)
  test_of-every_below (suc bound) i inside all = ground (arith, test_of-every_below bound i)

-- Is bit i of the byte b set?
abbrev bit_on : ℕ → ℕ → Bool
bit_on b i = if bit_and b (2 ^ i) == 0 then false else true

-- For every byte and every two places: the bit that is set is on, and a bit that was on stays on.
abbrev keeps : ℕ → ℕ → ℕ → Bool
keeps b i j = bit_on (bit_or b (2 ^ i)) i && (not (bit_on b j) || bit_on (bit_or b (2 ^ i)) j)

abbrev table : ℕ → Bool
table b = every_below (λ i. every_below (keeps b i) 8) 8

table_holds : every_below table 256 ≡ true
unfolding every_below
table_holds = refl

keeps_all : (b i j : ℕ) → b < 256 → i < 8 → j < 8 → keeps b i j ≡ true
keeps_all b i j hb hi hj = test_of-every_below (keeps b i) 8 j hj (
    test_of-every_below (λ t. every_below (keeps b t) 8) 8 i hi
      (test_of-every_below table 256 b hb table_holds))

abbrev pub Bytes : List ℕ → Type 0
Bytes array = (i : ℕ) → get_or array i 0 < 256

pow_table : every_below (λ i. ltb (2 ^ i) 256) 8 ≡ true
unfolding every_below
pow_table = refl

pow_small : (i : ℕ) → i < 8 → 2 ^ i < 256
pow_small i h = ltb→lt (2 ^ i) 256 (test_of-every_below (λ t. ltb (2 ^ t) 256) 8 i h pow_table)

module _ (array : List ℕ) (bytes : Bytes array) (p : ℕ) (inside : p / 8 < length array) where
  set_bit_same :
      (i : ℕ) → p / 8 ≡ i → get_or (set_bit array p) i 0 ≡ bit_or (get_or array i 0) (2 ^ (p % 8))
  unfolding set_bit
  set_bit_same i same =
      ap (λ t. get_or (set_bit array p) t 0) (sym same)
      ∙ (get_or-set_self array (p / 8) (bit_or (get_or array (p / 8) 0) (2 ^ (p % 8))) 0 inside
          ∙ ap (λ t. bit_or (get_or array t 0) (2 ^ (p % 8))) same)

  pub set_bit-Bytes : Bytes (set_bit array p)
  unfolding set_bit
  set_bit-Bytes i = elim (ℕ_discrete (p / 8) i) [
    | yes same ↦ omega (
      arith,
      set_bit_same i same,
      bit_or_bound 8 (get_or array i 0) (2 ^ (p % 8)) (bytes i) (pow_small (p % 8) (omega arith)),
    )
    | no other ↦
        rw (get_or-set_ne array (p / 8) i (bit_or (get_or array (p / 8) 0) (2 ^ (p % 8))) 0 other)
          (bytes i)
  ]

  pub has_bit-set_bit_self : has_bit (set_bit array p) p ≡ true
  unfolding has_bit
  has_bit-set_bit_self = rw (set_bit_same (p / 8) refl) (
      ground (
        arith,
        keeps_all (get_or array (p / 8) 0) (p % 8) (p % 8) (bytes (p / 8)) (omega arith)
            (omega arith),
      ))

  -- A bit that is set stays set.
  pub has_bit-set_bit : (q : ℕ) → has_bit array q ≡ true → has_bit (set_bit array p) q ≡ true
  unfolding set_bit has_bit
  has_bit-set_bit q on = elim (ℕ_discrete (p / 8) (q / 8)) [
    | yes same ↦ rw (set_bit_same (q / 8) same) (
        ground (
          arith,
          on,
          keeps_all (get_or array (q / 8) 0) (p % 8) (q % 8) (bytes (q / 8)) (omega arith)
              (omega arith),
        ))
    | no other ↦
        rw
          (get_or-set_ne array (p / 8) (q / 8) (bit_or (get_or array (p / 8) 0) (2 ^ (p % 8))) 0
            other)
          on
  ]

-- ===== src/Builder/Tree.antt =====
-- The loops of BuildTable (Enclave/leveldb/db/builder.cpp) that build the Merkle tree of a file
-- and cut a record's proof out of it. The buffer `merkle` is a list of 16-byte slots, and
-- `merkle + 16 * p` is slot `p`. `cmac` stands for sgx_rijndael128_cmac_msg under `cur_key`.
pub mod Levels
pub mod Proofs
pub mod Binding
use e_lsm_p.Base.{
  ℕ, zero, suc, ◌+◌, ◌-◌, ◌*◌, ◌/◌, ◌%◌, List, [], ◌∷◌, ◌++◌, get_or, set, ltb, ◌==◌, if◌then◌else◌,
}

abbrev pub file_records : ℕ
file_records = 32768

abbrev pub tree_height : ℕ
tree_height = 15

abbrev pub Digest : Type 0
Digest = List ℕ

abbrev pub Slots : Type 0
Slots = List Digest

abbrev pub slot : Slots → ℕ → Digest
slot merkle p = get_or merkle p []

-- A key and a value, as the iterator yields them.
abbrev pub Entry : Type 0
Entry = List ℕ × List ℕ

module _ (cmac : List ℕ → Digest) where
  -- The leaf level. `mp` and `thr` are one number in this loop.
  unfoldable pub leaf_loop : ℕ → List Entry → ℕ → Slots → Slots
  leaf_loop records [] thr merkle = merkle
  leaf_loop records ((key, value) ∷ rest) thr merkle =
      let more = leaf_loop records rest (thr + 1) (set merkle thr (cmac (key ++ value))) in
      if ltb thr records then more else merkle

  -- One level: the rounds that are left, and the loop's variables.
  unfoldable pub level_loop : ℕ → ℕ → ℕ → ℕ → Slots → ℕ × Slots
  level_loop zero previous j mp merkle = (mp, merkle)
  level_loop (suc rounds) previous j mp merkle =
      level_loop rounds previous (j + 2) (mp + 1)
        (set merkle mp (cmac (slot merkle (previous + j) ++ slot merkle (previous + j + 1))))

  -- `for (j = 0; j < stride; j = j + 2)` makes (stride + 1) / 2 rounds.
  unfoldable pub height_loop : ℕ → ℕ → ℕ → ℕ → Slots → Slots
  unfolding level_loop
  height_loop zero previous stride mp merkle = merkle
  height_loop (suc rounds) previous stride mp merkle =
      let (mp', merkle') = level_loop ((stride + 1) / 2) previous 0 mp merkle in
      height_loop rounds (previous + stride) (stride / 2) mp' merkle'

  -- `fresh` is what `new char[FILE_RECORDS*2*16]` holds before anything is written.
  unfoldable pub build_tree : ℕ → ℕ → Slots → List Entry → Slots
  unfolding leaf_loop height_loop
  build_tree records height fresh entries =
      height_loop height 0 records records (leaf_loop records entries 0 fresh)

-- `pointer = index%2 ? index-1 : index+1`
abbrev pub sibling : ℕ → ℕ
sibling index = if index % 2 == 0 then index + 1 else index - 1

-- `index = index/2 + FILE_RECORDS`
abbrev pub parent : ℕ → ℕ → ℕ
parent records index = index / 2 + records

unfoldable pub proof_loop : ℕ → ℕ → ℕ → Slots → List Digest
proof_loop records zero index merkle = []
proof_loop records (suc rounds) index merkle =
    slot merkle (sibling index) ∷ proof_loop records rounds (parent records index) merkle

-- `merkle[(2*FILE_RECORDS-2)*16]`
unfoldable pub root : ℕ → Slots → Digest
root records merkle = slot merkle (2 * records - 2)

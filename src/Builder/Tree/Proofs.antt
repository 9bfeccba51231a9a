-- ===== src/Builder/Tree/Proofs.antt =====
-- The proof that BuildTable cuts out for a record leads from the record to the root.
use e_lsm_p.Base.{
  ℕ, zero, suc, ◌+◌, ◌-◌, ◌*◌, ◌/◌, ◌%◌, ◌^◌, ◌<◌, ◌≤◌, ◌≡◌, refl, sym, ap, ◌∙◌, List, [], ◌∷◌,
  ◌++◌, length, arith, Bool-cases, inl, inr, ◌==◌, ==_iff, if◌then◌else◌, set,
}
use e_lsm_p.Builder.Tree.{
  Digest, Slots, slot, Entry, sibling, parent, proof_loop, root, build_tree, leaf_loop, height_loop,
  file_records, tree_height,
}
use e_lsm_p.Builder.Tree.Levels.{IsBuilt, build_tree-IsBuilt, build_tree_leaf, pow_two_pos}
use native.Mathlib.Nat.{pow-suc}

-- A check of a proof: from the code at `index` up, each step hashes the pair in its order.
unfoldable pub climb : (List ℕ → Digest) → ℕ → ℕ → Digest → List Digest → Digest
climb cmac records index code [] = code
climb cmac records index code (other ∷ proof) =
    climb cmac records (parent records index)
      (cmac (if index % 2 == 0 then code ++ other else other ++ code)) proof

module _ (cmac : List ℕ → Digest) (records : ℕ) (merkle : Slots) where
  join :
      (p : ℕ)
      → slot merkle (parent records p)
        ≡ cmac (slot merkle (2 * (p / 2)) ++ slot merkle (2 * (p / 2) + 1))
      → cmac (
          if p % 2 == 0
          then slot merkle p ++ slot merkle (sibling p)
          else slot merkle (sibling p) ++ slot merkle p)
        ≡ slot merkle (parent records p)
  join p node = elim (Bool-cases (p % 2 == 0)) [
    | inl even ↦
        let left : 2 * (p / 2) ≡ p = omega (arith, (==_iff (p % 2) 0).0 even) in
        let right : 2 * (p / 2) + 1 ≡ p + 1 = omega arith in rw (even, node, left)
    | inr odd ↦
        let one : p % 2 ≡ 1 = ground arith in
        let right : 2 * (p / 2) + 1 ≡ p = omega arith in
        let left : 2 * (p / 2) ≡ p - 1 = omega arith in rw (odd, node, right, left)
  ]

  climb-proof_loop :
      IsBuilt cmac records (2 * records - 1) merkle
      → (rounds p : ℕ) → 2 * records ≤ p + 2 * 2 ^ rounds
      → p + 2 ^ rounds < 2 * records
      → climb cmac records p (slot merkle p) (proof_loop records rounds p merkle)
        ≡ root records merkle
  unfolding climb proof_loop root
  climb-proof_loop built zero p low high = ap (λ (t : ℕ). slot merkle t) (omega arith)
  climb-proof_loop built (suc rounds) p low high =
      let above : parent records p ≡ records + p / 2 = omega arith in
      let two : 2 ^ suc rounds ≡ 2 * 2 ^ rounds = omega (arith, pow-suc 2 rounds) in
      let positive : 0 < 2 ^ rounds = pow_two_pos rounds in
      let node = ap (λ (t : ℕ). slot merkle t) above ∙ built.node (p / 2) (omega arith) in
      ap
        (λ (d : Digest).
          climb cmac records (parent records p) d
            (proof_loop records rounds (parent records p) merkle))
        (join p node)
      ∙ climb-proof_loop built rounds (parent records p) (omega arith) (omega arith)

-- For every record among the first 2 ^ height, the proof that BuildTable writes behind its value
-- leads from the code of the record to the root that BuildTable keeps, whatever the buffer held
-- before.
pub climb-build_tree :
    (cmac : List ℕ → Digest) (height : ℕ) (fresh : Slots) (front back : List Entry)
    (key value : List ℕ)
    → length fresh ≡ 2 * 2 ^ height
    → length front < 2 ^ height
    → climb cmac (2 ^ height) (length front) (cmac (key ++ value)) (
        proof_loop
          (2 ^ height)
          height
          (length front)
          (build_tree cmac (2 ^ height) height fresh (front ++ ((key, value) ∷ back))))
      ≡ root
          (2 ^ height)
          (build_tree cmac (2 ^ height) height fresh (front ++ ((key, value) ∷ back)))
climb-build_tree cmac height fresh front back key value size inside =
    let merkle = build_tree cmac (2 ^ height) height fresh (front ++ ((key, value) ∷ back)) in
    ap
      (λ (d : Digest).
        climb cmac (2 ^ height) (length front) d
          (proof_loop (2 ^ height) height (length front) merkle))
      (sym (build_tree_leaf cmac height fresh front back key value size inside))
    ∙ climb-proof_loop cmac (2 ^ height) merkle
        (build_tree-IsBuilt cmac height fresh (front ++ ((key, value) ∷ back)) size) height
        (length front) (omega arith) (omega arith)

-- The file's constants fit: a file has as many leaves as a tree of its height.
pub file_records-pow : file_records ≡ 2 ^ tree_height
file_records-pow = refl

pub length-proof_loop :
    (records rounds index : ℕ) (merkle : Slots)
    → length (proof_loop records rounds index merkle) ≡ rounds
unfolding proof_loop
length-proof_loop records zero index merkle = refl
length-proof_loop records (suc rounds) index merkle =
    ap suc (length-proof_loop records rounds (parent records index) merkle)

leaf_loop-append :
    (cmac : List ℕ → Digest) (records : ℕ) (entries more : List Entry) (thr : ℕ) (merkle : Slots)
    → records ≤ thr + length entries
    → leaf_loop cmac records (entries ++ more) thr merkle
      ≡ leaf_loop cmac records entries thr merkle
unfolding leaf_loop
leaf_loop-append cmac records [] [] thr merkle h = refl
leaf_loop-append cmac records [] ((key, value) ∷ more) thr merkle h = ground arith
leaf_loop-append cmac records ((key, value) ∷ rest) more thr merkle h = ground (
  arith,
  leaf_loop-append cmac records rest more (thr + 1) (set merkle thr (cmac (key ++ value)))
      (omega arith),
)

-- Records after the first `records` are not in the tree: with or without them the buffer, and so
-- the root that is kept for the file, is the same.
pub build_tree_ignores :
    (cmac : List ℕ → Digest) (records height : ℕ) (fresh : Slots) (entries more : List Entry)
    → records ≤ length entries
    → build_tree cmac records height fresh (entries ++ more)
      ≡ build_tree cmac records height fresh entries
build_tree_ignores cmac records height fresh entries more h =
    unfold build_tree in
    ap (λ (m : Slots). height_loop cmac height 0 records records m)
      (leaf_loop-append cmac records entries more 0 fresh (omega arith))

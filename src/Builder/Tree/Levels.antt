-- ===== src/Builder/Tree/Levels.antt =====
-- What the loops leave in the buffer: leaf `p` is the code of record `p`, and slot `records + k`
-- is the code of the slots `2 * k` and `2 * k + 1`.
use e_lsm_p.Base.{
  ℕ, zero, suc, ◌+◌, ◌-◌, ◌*◌, ◌/◌, ◌^◌, ◌<◌, ◌≤◌, ◌≡◌, ◌≢◌, ◌⊎◌, refl, sym, ap, ◌∙◌, List, [], ◌∷◌,
  ◌++◌, set, length, arith, length-set, get_or-set_self, get_or-set_ne, Bool-cases, inl, inr, ltb,
  lt→ltb,
}
use e_lsm_p.Builder.Tree.{
  Digest, Slots, slot, Entry, leaf_loop, level_loop, height_loop, build_tree,
}
use mathlib.Core.Path.{subst}
use native.Mathlib.Nat.{pow-suc}
use native.Mathlib.Decide.{ℕ_discrete}

-- The slots from `records` up to `mp` are codes of their two children.
pub record IsBuilt (cmac : List ℕ → Digest) (records mp : ℕ) (merkle : Slots) : Type 0 where
  pub size : length merkle ≡ 2 * records
  pub node :
      (k : ℕ)
      → records + k < mp
      → slot merkle (records + k) ≡ cmac (slot merkle (2 * k) ++ slot merkle (2 * k + 1))

-- Everything below `bound` is as it was.
abbrev pub SameBelow : ℕ → Slots → Slots → Type 0
SameBelow bound new old = (p : ℕ) → p < bound → slot new p ≡ slot old p

set_other :
    (merkle : Slots) (i : ℕ) (v : Digest) (p : ℕ) → p ≢ i → slot (set merkle i v) p ≡ slot merkle p
set_other merkle i v p h = get_or-set_ne merkle i p v [] (λ e. h (sym e))

pub pow_two_pos : (n : ℕ) → 0 < 2 ^ n
pow_two_pos zero = omega arith
pow_two_pos (suc n) = omega (arith, pow-suc 2 n, pow_two_pos n)

module _ (cmac : List ℕ → Digest) (records : ℕ) where
  -- The code of two children, and one write of it.
  code : Slots → ℕ → Digest
  code merkle k = cmac (slot merkle (2 * k) ++ slot merkle (2 * k + 1))

  code_same : (new old : Slots) (k : ℕ) → SameBelow (2 * k + 2) new old → code new k ≡ code old k
  unfolding code
  code_same new old k same =
      λ i. cmac (same (2 * k) (omega arith) i ++ same (2 * k + 1) (omega arith) i)

  write_node :
      (c : ℕ) (merkle : Slots)
      → suc c < records
      → IsBuilt cmac records (records + c) merkle
      → IsBuilt cmac records (suc (records + c)) (set merkle (records + c) (code merkle c))
  unfolding code
  write_node c merkle h built = record {
    size = length-set merkle (records + c) (code merkle c) ∙ built.size;
    node = λ k hk. elim (ℕ_discrete k c) [
      | yes e ↦
          ap (λ (t : ℕ). slot new (records + t)) e
          ∙ get_or-set_self merkle (records + c) (code merkle c) [] (omega (arith, built.size))
          ∙ ap (λ (t : ℕ). code merkle t) (sym e)
          ∙ sym (unchanged k (omega arith))
      | no ne ↦
          set_other merkle (records + c) (code merkle c) (records + k) (omega arith)
          ∙ built.node k (omega arith)
          ∙ sym (unchanged k (omega arith))
    ];
  }
    where
      new : Slots
      new = set merkle (records + c) (code merkle c)

      unchanged : (k : ℕ) → k ≤ c → code new k ≡ code merkle k
      unchanged k hk =
          code_same new merkle k
            (λ q hq. set_other merkle (records + c) (code merkle c) q (omega arith))

  -- What a run of a loop promises: `mp` has gone up to `end`, and all below the start is kept.
  record Advances (start end : ℕ) (old : Slots) (result : ℕ × Slots) : Type 0 where
    reached : result.0 ≡ end
    built : IsBuilt cmac records end result.1
    kept : SameBelow start result.1 old

  level_round :
      (rounds c previous j mp : ℕ) (merkle : Slots)
      → previous + j ≡ 2 * c
      → level_loop cmac (suc rounds) previous j mp merkle
        ≡ level_loop cmac rounds previous (j + 2) (suc mp) (set merkle mp (code merkle c))
  unfolding level_loop code
  level_round rounds c previous j mp merkle hj =
      let next : mp + 1 ≡ suc mp = omega arith in rw (next, hj)

  level_loop-Advances :
      (rounds c previous j mp : ℕ) (merkle : Slots)
      → previous + j ≡ 2 * c
      → mp ≡ records + c
      → c + rounds < records
      → IsBuilt cmac records mp merkle
      → Advances mp (mp + rounds) merkle (level_loop cmac rounds previous j mp merkle)
  level_loop-Advances zero c previous j mp merkle hj hm fits built =
      let stay : mp + 0 ≡ mp = omega arith in
      unfold level_loop in rw stay (record { reached = refl; built = built; kept = λ p hp. refl })
  level_loop-Advances (suc rounds) c previous j mp merkle hj hm fits built =
      let ahead : mp + suc rounds ≡ suc mp + rounds = omega arith in
      let wrote : IsBuilt cmac records (suc mp) (set merkle mp (code merkle c)) =
        subst (λ (t : ℕ). IsBuilt cmac records (suc t) (set merkle t (code merkle c))) (sym hm)
          (write_node c merkle (omega arith) (rw hm at built)) in
      let rest =
        level_loop-Advances rounds (suc c) previous (j + 2) (suc mp) (set merkle mp (code merkle c))
          (omega arith) (omega arith) (omega arith) wrote in
      rw (ahead, level_round rounds c previous j mp merkle hj)
        (record {
          reached = rest.reached;
          built = rest.built;
          kept = λ p hp.
              rest.kept p (omega arith) ∙ set_other merkle mp (code merkle c) p (omega arith);
        })

  -- The levels: `stride` halves down to 1, and ends at the root.
  height_loop-IsBuilt :
      (rounds c previous stride mp : ℕ) (merkle : Slots)
      → stride ≡ 2 ^ rounds
      → previous ≡ 2 * c
      → c + stride ≡ records
      → mp ≡ records + c
      → IsBuilt cmac records mp merkle
      → IsBuilt cmac records (2 * records - 1) (height_loop cmac rounds previous stride mp merkle)
        × SameBelow mp (height_loop cmac rounds previous stride mp merkle) merkle
  unfolding height_loop
  height_loop-IsBuilt zero c previous stride mp merkle hs hp hc hm built =
      let last : mp ≡ 2 * records - 1 = omega arith in (rw last at built, λ p h. refl)
  height_loop-IsBuilt (suc rounds) c previous stride mp merkle hs hp hc hm built =
      let half : stride ≡ 2 * 2 ^ rounds = omega (arith, pow-suc 2 rounds) in
      let positive : 0 < 2 ^ rounds = pow_two_pos rounds in
      let run = level_loop cmac ((stride + 1) / 2) previous 0 mp merkle in
      let level =
        level_loop-Advances ((stride + 1) / 2) c previous 0 mp merkle (omega arith) hm (omega arith)
          built in
      let (above, below) =
        height_loop-IsBuilt rounds (c + stride / 2) (previous + stride) (stride / 2) run.0 run.1
          (omega arith) (omega arith) (omega arith) (omega (arith, level.reached))
          (subst (λ (t : ℕ). IsBuilt cmac records t run.1) (sym level.reached) level.built) in
      (above, λ p h. below p (omega (arith, level.reached)) ∙ level.kept p h)

  -- The leaf loop writes the codes of the records in order, at most `records` of them.
  leaf_loop-size :
      (entries : List Entry) (thr : ℕ) (merkle : Slots)
      → length (leaf_loop cmac records entries thr merkle) ≡ length merkle
  unfolding leaf_loop
  leaf_loop-size [] thr merkle = refl
  leaf_loop-size ((key, value) ∷ rest) thr merkle = ground (
    arith,
    leaf_loop-size rest (thr + 1) (set merkle thr (cmac (key ++ value))),
    length-set merkle thr (cmac (key ++ value)),
  )

  leaf_loop_kept :
      (entries : List Entry) (thr p : ℕ) (merkle : Slots)
      → (p < thr) ⊎ (thr + length entries ≤ p)
      → slot (leaf_loop cmac records entries thr merkle) p ≡ slot merkle p
  unfolding leaf_loop
  leaf_loop_kept [] thr p merkle h = refl
  leaf_loop_kept ((key, value) ∷ rest) thr p merkle h = elim (Bool-cases (ltb thr records)) [
    | inl more ↦ rw more (
        leaf_loop_kept rest (thr + 1) p (set merkle thr (cmac (key ++ value))) (omega arith)
        ∙ set_other merkle thr (cmac (key ++ value)) p (omega arith))
    | inr stop ↦ rw stop
  ]

  leaf_loop_wrote :
      (front back : List Entry) (key value : List ℕ) (thr : ℕ) (merkle : Slots)
      → thr + length front < records
      → records ≤ length merkle
      → slot
          (leaf_loop cmac records (front ++ ((key, value) ∷ back)) thr merkle)
          (thr + length front)
        ≡ cmac (key ++ value)
  unfolding leaf_loop
  leaf_loop_wrote [] back key value thr merkle h size =
      let here : thr + 0 ≡ thr = omega arith in
      let new = set merkle thr (cmac (key ++ value)) in
      rw (here, lt→ltb thr records (omega arith))
        (leaf_loop_kept back (thr + 1) thr new (inl (omega arith))
          ∙ get_or-set_self merkle thr (cmac (key ++ value)) [] (omega arith))
  leaf_loop_wrote ((k, v) ∷ front) back key value thr merkle h size =
      let on : thr + suc (length front) ≡ thr + 1 + length front = omega arith in
      let new = set merkle thr (cmac (k ++ v)) in
      rw (on, lt→ltb thr records (omega arith))
        (leaf_loop_wrote front back key value (thr + 1) new (omega arith)
          (omega (arith, length-set merkle thr (cmac (k ++ v)))))

module _ (cmac : List ℕ → Digest) (height : ℕ) (fresh : Slots) (entries : List Entry) where
  abbrev tree : Slots
  tree = build_tree cmac (2 ^ height) height fresh entries

  tree-IsBuilt :
      length fresh ≡ 2 * 2 ^ height
      → IsBuilt cmac (2 ^ height) (2 * 2 ^ height - 1) tree
        × SameBelow (2 ^ height) tree (leaf_loop cmac (2 ^ height) entries 0 fresh)
  unfolding build_tree
  tree-IsBuilt size =
      height_loop-IsBuilt cmac (2 ^ height) height 0 0 (2 ^ height) (2 ^ height)
        (leaf_loop cmac (2 ^ height) entries 0 fresh) refl (omega arith) (omega arith) (omega arith)
        (record {
          size = leaf_loop-size cmac (2 ^ height) entries 0 fresh ∙ size;
          node = λ k h. absurd (omega arith);
        })

  -- In a buffer of twice 2 ^ height slots the loops of BuildTable leave at every slot above the
  -- leaves the code of its two children, up to the root.
  pub build_tree-IsBuilt :
      length fresh ≡ 2 * 2 ^ height → IsBuilt cmac (2 ^ height) (2 * 2 ^ height - 1) tree
  build_tree-IsBuilt size = (tree-IsBuilt size).0

  -- A leaf that no record reached keeps what the new buffer held.
  pub build_tree_fresh_leaf :
      (p : ℕ)
      → length fresh ≡ 2 * 2 ^ height
      → length entries ≤ p
      → p < 2 ^ height
      → slot tree p ≡ slot fresh p
  build_tree_fresh_leaf p size beyond inside =
      (tree-IsBuilt size).1 p inside
      ∙ leaf_loop_kept cmac (2 ^ height) entries 0 p fresh (inr (omega arith))

-- The leaf of a record within the first 2 ^ height is the code of its key and value.
pub build_tree_leaf :
    (cmac : List ℕ → Digest) (height : ℕ) (fresh : Slots) (front back : List Entry)
    (key value : List ℕ)
    → length fresh ≡ 2 * 2 ^ height
    → length front < 2 ^ height
    → slot
        (build_tree cmac (2 ^ height) height fresh (front ++ ((key, value) ∷ back)))
        (length front)
      ≡ cmac (key ++ value)
build_tree_leaf cmac height fresh front back key value size inside =
    (tree-IsBuilt cmac height fresh (front ++ ((key, value) ∷ back)) size).1 (length front) inside
    ∙ ap (λ (t : ℕ). slot (leaf_loop cmac (2 ^ height) (front ++ ((key, value) ∷ back)) 0 fresh) t)
        (omega arith)
    ∙ leaf_loop_wrote cmac (2 ^ height) front back key value 0 fresh (omega arith) (omega arith)

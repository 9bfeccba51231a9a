-- ===== src/Builder/Tree/Binding.antt =====
-- A root binds every record below it: whoever opens it in two ways has found a collision.
use e_lsm_p.Base.{
  ℕ, ◌%◌, ◌^◌, ◌*◌, ◌<◌, ◌≡◌, ◌≢◌, ◌⊎◌, inl, inr, refl, sym, ap, ◌∙◌, List, [], ◌∷◌, ◌++◌, length,
  take, drop, arith, Bool-cases, ◌==◌, if◌then◌else◌, length-append, take-append, drop-append,
}
use e_lsm_p.Builder.Tree.{Digest, Slots, Entry, parent, proof_loop, root, build_tree}
use e_lsm_p.Builder.Tree.Proofs.{climb, climb-build_tree, length-proof_loop}
use native.Mathlib.Decide.{ℕ_discrete}

-- Two messages with one code.
pub record Collision (cmac : List ℕ → Digest) : Type 0 where
  pub first : List ℕ
  pub second : List ℕ
  pub differ : first ≢ second
  pub same_code : cmac first ≡ cmac second

bytes_discrete : Discrete (List ℕ)
bytes_discrete = hlevel ℕ_discrete

append_parts : (a b c d : List ℕ) → length a ≡ length c → a ++ b ≡ c ++ d → (a ≡ c) × (b ≡ d)
append_parts a b c d h e = (
  sym (take-append a b) ∙ (λ i. take (h i) (e i)) ∙ take-append c d,
  sym (drop-append a b) ∙ (λ i. drop (h i) (e i)) ∙ drop-append c d,
)

append_parts_right : (a b c d : List ℕ) → length b ≡ length d → a ++ b ≡ c ++ d → (a ≡ c) × (b ≡ d)
append_parts_right a b c d h e =
    append_parts a b c d (omega (arith, ap length e, length-append a b, length-append c d)) e

module _ (cmac : List ℕ → Digest) (size : ℕ) (sized : (m : List ℕ) → length (cmac m) ≡ size) where
  -- Equal codes come from equal messages, or from a collision.
  code_binding : (m n : List ℕ) → cmac m ≡ cmac n → (m ≡ n) ⊎ Collision cmac
  code_binding m n e = elim (bytes_discrete m n) [
    | yes same ↦ inl same
    | no differ ↦ inr (record { first = m; second = n; differ = differ; same_code = e })
  ]

  pair_parts :
      (index : ℕ) (a b c d : List ℕ)
      → length a ≡ length c
      → (if index % 2 == 0 then a ++ b else b ++ a) ≡ (if index % 2 == 0 then c ++ d else d ++ c)
      → (a ≡ c) × (b ≡ d)
  pair_parts index a b c d h e = elim (Bool-cases (index % 2 == 0)) [
    | inl even ↦ append_parts a b c d h (rw even at e)
    | inr odd ↦ let (p, q) = append_parts_right b a d c h (rw odd at e) in (q, p)
  ]

  climb_binding :
      (records index : ℕ) (proof proof' : List Digest) (code code' : Digest)
      → length proof ≡ length proof'
      → length code ≡ length code'
      → climb cmac records index code proof ≡ climb cmac records index code' proof'
      → ((code ≡ code') × (proof ≡ proof')) ⊎ Collision cmac
  unfolding climb
  climb_binding records index [] [] code code' h k e = inl (e, refl)
  climb_binding records index [] (d ∷ ds) code code' h k e = absurd (omega arith)
  climb_binding records index (d ∷ ds) [] code code' h k e = absurd (omega arith)
  climb_binding records index (d ∷ ds) (d' ∷ ds') code code' h k e =
      let pair = if index % 2 == 0 then code ++ d else d ++ code in
      let pair' = if index % 2 == 0 then code' ++ d' else d' ++ code' in
      elim (climb_binding records (parent records index) ds ds' (cmac pair) (cmac pair')
        (omega arith) (sized pair ∙ sym (sized pair')) e) [
          | inr hit ↦ inr hit
          | inl (codes, rest) ↦ elim (code_binding pair pair' codes) [
            | inr hit ↦ inr hit
            | inl pairs ↦
                let (p, q) = pair_parts index code d code' d' k pairs in inl (p, λ i. q i ∷ rest i)
          ]
        ]

-- Nobody can pass off another record: a message that climbs, by a proof of full length, from the
-- place of a record to the root of the file is that record's key and value, and the proof is the
-- one that BuildTable wrote, or two messages with one code have been found.
pub build_tree_binding :
    (cmac : List ℕ → Digest) (size height : ℕ) (fresh : Slots) (front back : List Entry)
    (key value message : List ℕ) (proof : List Digest)
    → ((m : List ℕ) → length (cmac m) ≡ size)
    → length fresh ≡ 2 * 2 ^ height
    → length front < 2 ^ height
    → length proof ≡ height
    → climb cmac (2 ^ height) (length front) (cmac message) proof
      ≡ root
          (2 ^ height)
          (build_tree cmac (2 ^ height) height fresh (front ++ ((key, value) ∷ back)))
    → ((message ≡ key ++ value)
        × (proof
            ≡ proof_loop
                (2 ^ height)
                height
                (length front)
                (build_tree cmac (2 ^ height) height fresh (front ++ ((key, value) ∷ back)))))
      ⊎ Collision cmac
build_tree_binding cmac size height fresh front back key value message proof sized fits inside full
      e =
    let merkle = build_tree cmac (2 ^ height) height fresh (front ++ ((key, value) ∷ back)) in
    let honest = proof_loop (2 ^ height) height (length front) merkle in
    elim (climb_binding cmac size sized (2 ^ height) (length front) proof honest (cmac message)
      (cmac (key ++ value))
      (full ∙ sym (length-proof_loop (2 ^ height) height (length front) merkle))
      (sized message ∙ sym (sized (key ++ value)))
      (e ∙ sym (climb-build_tree cmac height fresh front back key value fits inside))) [
        | inr hit ↦ inr hit
        | inl (codes, proofs) ↦ elim (code_binding cmac size sized message (key ++ value) codes) [
          | inr hit ↦ inr hit
          | inl same ↦ inl (same, proofs)
        ]
      ]

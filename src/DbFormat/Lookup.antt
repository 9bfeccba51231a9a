-- ===== src/DbFormat/Lookup.antt =====
-- The three slices of a LookupKey.
use Prim.Native.Nat.{Ordering}
use e_lsm_p.Base.{
  ℕ, ◌+◌, ◌-◌, ◌*◌, ◌%◌, ◌^◌, ◌≤◌, ◌≡◌, ◌≢◌, ◌↔◌, sym, ap, ◌∙◌, List, [], ◌++◌, length, take, arith,
  drop-append,
}
use e_lsm_p.Coding.Fixed.{IsU32}
use e_lsm_p.Coding.Varint.{encode_varint32}
use e_lsm_p.Coding.Varint.Slices.{prefixed}
use e_lsm_p.Comparator.{Comparator, IsComparator}
use e_lsm_p.DbFormat.{
  ParsedInternalKey, ValueType, type_deletion, type_value, or_by_tag, type_code,
  append_internal_key, value_type_for_seek, lookup_key, memtable_key, internal_key, user_key,
  internal_compare, extract_user_key,
}
use e_lsm_p.DbFormat.Keys.{append_internal_key-encode, IsSequence, extract-append_internal_key}

abbrev pub target_key : List ℕ → ℕ → ParsedInternalKey
target_key u s = record { user_key = u; sequence = s; type = value_type_for_seek }

-- The internal key that is looked up.
abbrev pub target : List ℕ → ℕ → List ℕ
target u s = append_internal_key [] (target_key u s)

pub internal_key-lookup_key : (u : List ℕ) (s : ℕ) → internal_key (lookup_key u s) ≡ target u s
unfolding internal_key lookup_key
internal_key-lookup_key u s =
    drop-append (encode_varint32 ((length u + 8) % 2 ^ 32)) _
    ∙ sym (append_internal_key-encode [] (target_key u s))

memtable :
    (u : List ℕ) (s : ℕ)
    → IsU32 (length u + 8)
    → length (target u s) ≡ length u + 8
    → memtable_key (lookup_key u s) ≡ prefixed (target u s)
unfolding memtable_key lookup_key
memtable u s fits size =
    let low : (length u + 8) % 2 ^ 32 ≡ length u + 8 = omega arith in
    rw (low, size)
      (ap (λ (k : List ℕ). encode_varint32 (length u + 8) ++ k)
        (sym (append_internal_key-encode [] (target_key u s))))

-- The slices of the key that looks `u` up at sequence number `s`: the internal key of `u` at `s`
-- with the highest type, `u` itself, and, for a key that fits 32 bits, the internal key behind its
-- length.
pub lookup_key_slices :
    (u : List ℕ) (s : ℕ)
    → IsSequence s
    → IsU32 (length u + 8)
    → (internal_key (lookup_key u s) ≡ target u s)
      × (user_key (lookup_key u s) ≡ u)
      × (memtable_key (lookup_key u s) ≡ prefixed (target u s))
lookup_key_slices u s h fits =
    let (user, tag, size) = extract-append_internal_key (target_key u s) h in
    (
      internal_key-lookup_key u s,
      (unfold user_key in
          ap (λ (k : List ℕ). take (length k - 8) k) (internal_key-lookup_key u s)
          ∙ (unfold extract_user_key in user)),
      memtable u s fits size,
    )

-- A lookup at sequence number `s` is placed, among the versions of its user key, in front of exactly
-- those that `s` can see: it compares as greater with a version if and only if that one is newer.
pub lookup_sees :
    (user : Comparator) (u : List ℕ) (s : ℕ) (k : ParsedInternalKey)
    → IsComparator user
    → IsSequence s
    → IsSequence k.sequence
    → k.user_key ≡ u
    → (internal_compare user (internal_key (lookup_key u s)) (append_internal_key [] k)
        ≢ Ordering.gt)
      ↔ (k.sequence ≤ s)
lookup_sees user u s k lawful hs hk same =
    let (user_t, tag_t, _) = extract-append_internal_key (target_key u s) hs in
    let (user_k, tag_k, _) = extract-append_internal_key k hk in
    rw internal_key-lookup_key (
      unfold internal_compare in
      rw (user_t, user_k, tag_t, tag_k, same, lawful.order.compare_refl u)
        (sees s k.sequence (type_code k.type) (code_le_one k.type)))
  where
    code_le_one : (t : ValueType) → type_code t ≤ 1
    code_le_one type_deletion = omega arith
    code_le_one type_value = omega arith

    sees :
        (s q c : ℕ)
        → c ≤ 1
        → (or_by_tag (s * 256 + 1) (q * 256 + c) Ordering.eq ≢ Ordering.gt) ↔ (q ≤ s)
    sees s q c h = (λ x. ground arith, λ y. ground arith)

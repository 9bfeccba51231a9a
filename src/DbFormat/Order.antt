-- ===== src/DbFormat/Order.antt =====
-- InternalKeyComparator of Enclave/leveldb/db/dbformat.cpp: its order, its separators and its successors.
use Prim.Native.Nat.{Ordering}
use e_lsm_p.Base.{ℕ, ◌+◌, ◌*◌, ◌<◌, ◌≡◌, refl, sym, ap, ◌∙◌, List, [], length, arith, inl, inr, ◌⊎◌}
use e_lsm_p.Comparator.{Comparator, IsOrder, IsComparator, swapped}
use e_lsm_p.DbFormat.{
  ParsedInternalKey, type_code, append_internal_key, extract_user_key, extract_tag, or_by_tag,
  internal_compare, internal_key_comparator,
}
use e_lsm_p.DbFormat.Keys.{IsSequence, extract-append_internal_key}

or_by_tag_swap : (m n : ℕ) (o : Ordering) → or_by_tag n m (swapped o) ≡ swapped (or_by_tag m n o)
or_by_tag_swap m n Ordering.lt = refl
or_by_tag_swap m n Ordering.eq = ground arith
or_by_tag_swap m n Ordering.gt = refl

or_by_tag_eq :
    (m n : ℕ) (o : Ordering) → or_by_tag m n o ≡ Ordering.eq → (o ≡ Ordering.eq) × (m ≡ n)
or_by_tag_eq m n Ordering.lt h = cc
or_by_tag_eq m n Ordering.eq h = (refl, ground arith)
or_by_tag_eq m n Ordering.gt h = cc

or_by_tag_lt :
    (m n : ℕ) (o : Ordering)
    → or_by_tag m n o ≡ Ordering.lt
    → (o ≡ Ordering.lt) ⊎ ((o ≡ Ordering.eq) × (n < m))
or_by_tag_lt m n Ordering.lt h = inl refl
or_by_tag_lt m n Ordering.eq h = inr (refl, ground arith)
or_by_tag_lt m n Ordering.gt h = cc

module _ (user : Comparator) (lawful : IsOrder user) where
  internal_compare_refl : (a : List ℕ) → internal_compare user a a ≡ Ordering.eq
  unfolding internal_compare
  internal_compare_refl a = rw (lawful.compare_refl (extract_user_key a)) (ground arith)

  internal_compare_swap :
      (a b : List ℕ) → internal_compare user b a ≡ swapped (internal_compare user a b)
  unfolding internal_compare
  internal_compare_swap a b = rw (lawful.compare_swap (extract_user_key a) (extract_user_key b)) (
      or_by_tag_swap (extract_tag a) (extract_tag b)
        (user.compare (extract_user_key a) (extract_user_key b)))

  internal_compare_eq :
      (a b d : List ℕ)
      → internal_compare user a b ≡ Ordering.eq
      → internal_compare user a d ≡ internal_compare user b d
  unfolding internal_compare
  internal_compare_eq a b d h =
      let (users, tags) = or_by_tag_eq (extract_tag a) (extract_tag b) _ h in
      let other =
        lawful.compare_eq (extract_user_key a) (extract_user_key b) (extract_user_key d) users in
      rw (tags, other)

  compare_eq_right :
      (a b d : List ℕ) → user.compare b d ≡ Ordering.eq → user.compare a b ≡ user.compare a d
  compare_eq_right a b d h =
      lawful.compare_swap b a
      ∙ ap swapped (lawful.compare_eq b d a h)
      ∙ sym (lawful.compare_swap d a)

  internal_compare_trans :
      (a b d : List ℕ)
      → internal_compare user a b ≡ Ordering.lt
      → internal_compare user b d ≡ Ordering.lt
      → internal_compare user a d ≡ Ordering.lt
  unfolding internal_compare
  internal_compare_trans a b d h k =
      let ua = extract_user_key a in
      let ub = extract_user_key b in
      let ud = extract_user_key d in
      elim (or_by_tag_lt (extract_tag a) (extract_tag b) (user.compare ua ub) h) [
        | inl below ↦ elim (or_by_tag_lt (extract_tag b) (extract_tag d) (user.compare ub ud) k) [
          | inl below' ↦ rw (lawful.compare_trans ua ub ud below below')
          | inr (same, _) ↦ rw (sym (compare_eq_right ua ub ud same) ∙ below)
        ]
        | inr (same, more) ↦
            elim (or_by_tag_lt (extract_tag b) (extract_tag d) (user.compare ub ud) k) [
              | inl below' ↦ rw (lawful.compare_eq ua ub ud same ∙ below')
              | inr (same', more') ↦ rw (lawful.compare_eq ua ub ud same ∙ same') (ground arith)
            ]
      ]

-- The comparator of internal keys is a total order over one of user keys.
pub internal_key_comparator-IsOrder :
    (user : Comparator) → IsOrder user → IsOrder (internal_key_comparator user)
internal_key_comparator-IsOrder user lawful = record {
  compare_refl = internal_compare_refl user lawful;
  compare_swap = internal_compare_swap user lawful;
  compare_eq = internal_compare_eq user lawful;
  compare_trans = internal_compare_trans user lawful;
}

-- The key has moved up, and its user key is now `tmp`, shorter than before.
abbrev pub Raised : Comparator → List ℕ → List ℕ → List ℕ → Type 0
Raised user tmp key raised =
    (internal_compare user key raised ≡ Ordering.lt)
    × (extract_user_key raised ≡ tmp)
    × (length tmp < length (extract_user_key key))

-- Two versions of one user key: the one with the higher sequence number comes first, and under one
-- sequence number a value comes before a deletion.
pub internal_compare_versions :
    (user : Comparator) (u : List ℕ) (p q : ParsedInternalKey)
    → IsComparator user
    → p.user_key ≡ u
    → q.user_key ≡ u
    → IsSequence p.sequence
    → IsSequence q.sequence
    → q.sequence * 256 + type_code q.type < p.sequence * 256 + type_code p.type
    → internal_compare user (append_internal_key [] p) (append_internal_key [] q) ≡ Ordering.lt
unfolding internal_compare
internal_compare_versions user u p q lawful hp hq sp sq h =
    let (user_p, tag_p, _) = extract-append_internal_key p sp in
    let (user_q, tag_q, _) = extract-append_internal_key q sq in
    rw (user_p, user_q, tag_p, tag_q, hp, hq, lawful.order.compare_refl u) (ground arith)

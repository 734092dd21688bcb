-- ===== src/Ptp/Priority/Order.antt =====
-- `compare_priority_vectors` orders whole vectors totally.
use ziggo_caa_s_switch.Prelude.{
  ℕ, ◌≡◌, ◌↔◌, refl, sym, ◌∙◌, List, [], ◌∷◌, ◌++◌, arith, length, length-append,
}
use ziggo_caa_s_switch.Ptp.Priority.{
  PriorityVector, le16, bytes, PriorityComparison, same_priority, superior_priority,
  inferior_priority, compare_priority_vectors,
}
use ziggo_caa_s_switch.Ptp.Priority.Memcmp.{
  memcmp_refl, memcmp-eq, memcmp_swap, memcmp_trans, memcmp_cases,
}

-- Both identities are arrays of eight bytes.
pub record IsWhole (v : PriorityVector) : Type 0 where
  pub root_len : length v.root_system_identity.clock_identity ≡ 8
  pub source_len : length v.source_port_clock_identity ≡ 8

append-injective :
    (xs xs' ys ys' : List ℕ)
    → length xs ≡ length xs'
    → xs ++ ys ≡ xs' ++ ys'
    → (xs ≡ xs') × (ys ≡ ys')
append-injective [] [] ys ys' h e = (refl, e)
append-injective [] (x ∷ xs') ys ys' h e = absurd (omega arith)
append-injective (x ∷ xs) [] ys ys' h e = absurd (omega arith)
append-injective (x ∷ xs) (x' ∷ xs') ys ys' h e =
    ground (arith, append-injective xs xs' ys ys' (omega arith))

pub length-bytes : (v : PriorityVector) → IsWhole v → length (bytes v) ≡ 28
unfolding bytes
length-bytes v w =
    let root = v.root_system_identity in
    let source = v.source_port_clock_identity in
    let tail = le16 v.source_port_number ++ le16 v.port_number in
    omega (
      arith,
      w,
      length-append root.clock_identity (le16 v.steps_removed ++ (source ++ tail)),
      length-append source tail,
    )

le16-injective : (n m : ℕ) → le16 n ≡ le16 m → n ≡ m
le16-injective n m e = ground arith

pub bytes-injective : (a b : PriorityVector) → IsWhole a → IsWhole b → bytes a ≡ bytes b → a ≡ b
unfolding bytes
bytes-injective a b u v e =
    let ra = a.root_system_identity in
    let rb = b.root_system_identity in
    let sa = a.source_port_clock_identity in
    let sb = b.source_port_clock_identity in
    let ta = le16 a.source_port_number ++ le16 a.port_number in
    let tb = le16 b.source_port_number ++ le16 b.port_number in
    let one =
      append-injective ra.clock_identity rb.clock_identity (le16 a.steps_removed ++ (sa ++ ta))
        (le16 b.steps_removed ++ (sb ++ tb)) (omega (arith, u, v)) (cc) in
    let two = append-injective sa sb ta tb (omega (arith, u, v)) (cc (one.1)) in
    ground (
      arith,
      one,
      two,
      le16-injective ra.offset_scaled_log_variance rb.offset_scaled_log_variance,
      le16-injective a.steps_removed b.steps_removed,
      le16-injective a.source_port_number b.source_port_number,
      le16-injective a.port_number b.port_number,
    )

-- `compare_priority_vectors` answers "same" exactly on equal vectors.
pub compare_priority_vectors-eq_iff :
    (a b : PriorityVector)
    → IsWhole a
    → IsWhole b
    → (compare_priority_vectors a b ≡ same_priority) ↔ (a ≡ b)
unfolding compare_priority_vectors
compare_priority_vectors-eq_iff a b u v = (
  λ e. bytes-injective a b u v (
      memcmp-eq (bytes a) (bytes b) (length-bytes a u ∙ sym (length-bytes b v))
        (ground (arith, memcmp_cases (bytes a) (bytes b)))),
  λ e. rw e (rw (memcmp_refl (bytes b))),
)

-- The reverse of a comparison.
abbrev pub opposite : PriorityComparison → PriorityComparison
opposite same_priority = same_priority
opposite superior_priority = inferior_priority
opposite inferior_priority = superior_priority

-- Swapping the arguments of `compare_priority_vectors` turns superior and inferior round.
pub compare_priority_vectors_swap :
    (a b : PriorityVector)
    → IsWhole a
    → IsWhole b
    → compare_priority_vectors b a ≡ opposite (compare_priority_vectors a b)
unfolding compare_priority_vectors
compare_priority_vectors_swap a b u v = ground (
  arith,
  memcmp_swap (bytes a) (bytes b) (length-bytes a u ∙ sym (length-bytes b v)),
  memcmp_cases (bytes a) (bytes b),
)

-- A vector that is superior to one superior to a third is superior to the third.
pub compare_priority_vectors_trans :
    (a b c : PriorityVector)
    → IsWhole a
    → IsWhole b
    → IsWhole c
    → compare_priority_vectors a b ≡ superior_priority
    → compare_priority_vectors b c ≡ superior_priority
    → compare_priority_vectors a c ≡ superior_priority
unfolding compare_priority_vectors
compare_priority_vectors_trans a b c u v w p q = ground (
  arith,
  memcmp_trans (bytes a) (bytes b) (bytes c) (length-bytes a u ∙ sym (length-bytes b v))
      (length-bytes b v ∙ sym (length-bytes c w)),
  memcmp_cases (bytes a) (bytes b),
  memcmp_cases (bytes b) (bytes c),
)

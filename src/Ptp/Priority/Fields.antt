-- ===== src/Ptp/Priority/Fields.antt =====
-- How the byte order of `compare_priority_vectors` relates to the numeric order of the fields.
use ziggo_caa_s_switch.Prelude.{
  ℕ, zero, suc, ◌%◌, ◌/◌, ◌<◌, ◌≡◌, ◌↔◌, ◌⊎◌, refl, ◌∙◌, List, [], ◌∷◌, ◌++◌, arith, negsuc, pos,
  length, ℤ, negative, if◌then◌else◌,
}
use ziggo_caa_s_switch.Ptp.Priority.{
  PriorityVector, memcmp, le16, bytes, same_priority, superior_priority, inferior_priority,
  compare_priority_vectors, is_zero,
}
use ziggo_caa_s_switch.Ptp.Priority.Order.{IsWhole}
use ziggo_caa_s_switch.Ptp.Priority.Memcmp.{memcmp_refl}

-- The components of the standard's vector, the most significant first.
abbrev pub fields : PriorityVector → List ℕ
fields v =
    root.priority1
    ∷ root.clock_class
    ∷ root.clock_accuracy
    ∷ root.offset_scaled_log_variance
    ∷ root.priority2
    ∷ (root.clock_identity
        ++ v.steps_removed
          ∷ (v.source_port_clock_identity ++ v.source_port_number ∷ v.port_number ∷ []))
  where
    open v use {root_system_identity as root}

-- Every 16-bit field fits one byte.
pub record IsSmall (v : PriorityVector) : Type 0 where
  pub variance_lt : v.root_system_identity.offset_scaled_log_variance < 256
  pub steps_lt : v.steps_removed < 256
  pub source_lt : v.source_port_number < 256
  pub port_lt : v.port_number < 256

abbrev and_then : ℤ → ℤ → ℤ
and_then (pos zero) r = r
and_then (pos (suc n)) r = pos (suc n)
and_then (negsuc n) r = negsuc n

memcmp-append :
    (xs ys xs' ys' : List ℕ)
    → length xs ≡ length ys
    → memcmp (xs ++ xs') (ys ++ ys') ≡ and_then (memcmp xs ys) (memcmp xs' ys')
unfolding memcmp
memcmp-append [] [] xs' ys' h = refl
memcmp-append [] (y ∷ ys) xs' ys' h = absurd (omega arith)
memcmp-append (x ∷ xs) [] xs' ys' h = absurd (omega arith)
memcmp-append (x ∷ xs) (y ∷ ys) xs' ys' h =
    ground (arith, memcmp-append xs ys xs' ys' (omega arith))

and_then-zero : (x : ℤ) → and_then x (pos 0) ≡ x
and_then-zero (pos zero) = refl
and_then-zero (pos (suc n)) = refl
and_then-zero (negsuc n) = refl

-- A small 16-bit field compares as its one significant byte.
memcmp-le16 :
    (n m : ℕ) (xs ys : List ℕ)
    → n < 256
    → m < 256
    → memcmp (le16 n ++ xs) (le16 m ++ ys) ≡ memcmp (n ∷ xs) (m ∷ ys)
unfolding memcmp
memcmp-le16 n m xs ys h k = ground arith

memcmp-cons :
    (x y : ℕ) (xs ys xs' ys' : List ℕ)
    → memcmp xs ys ≡ memcmp xs' ys'
    → memcmp (x ∷ xs) (y ∷ ys) ≡ memcmp (x ∷ xs') (y ∷ ys')
unfolding memcmp
memcmp-cons x y xs ys xs' ys' e = ground arith

memcmp-prefix : (xs ys zs : List ℕ) → memcmp (xs ++ ys) (xs ++ zs) ≡ memcmp ys zs
memcmp-prefix xs ys zs = memcmp-append xs xs ys zs refl ∙ rw (memcmp_refl xs)

memcmp-append_cong :
    (xs ys us vs us' vs' : List ℕ)
    → length xs ≡ length ys
    → memcmp us vs ≡ memcmp us' vs'
    → memcmp (xs ++ us) (ys ++ vs) ≡ memcmp (xs ++ us') (ys ++ vs')
memcmp-append_cong xs ys us vs us' vs' h e =
    rw (memcmp-append xs ys us vs h, memcmp-append xs ys us' vs' h, e)

memcmp-bytes :
    (a b : PriorityVector)
    → IsWhole a
    → IsWhole b
    → IsSmall a
    → IsSmall b
    → memcmp (bytes a) (bytes b) ≡ memcmp (fields a) (fields b)
unfolding bytes
memcmp-bytes a b u v s t = memcmp-cons ra.priority1 rb.priority1 _ _ _ _ (
    memcmp-cons ra.clock_class rb.clock_class _ _ _ _ (
      memcmp-cons ra.clock_accuracy rb.clock_accuracy _ _ _ _ (
        memcmp-le16 ra.offset_scaled_log_variance rb.offset_scaled_log_variance _ _ s.variance_lt
          t.variance_lt
        ∙ memcmp-cons ra.offset_scaled_log_variance rb.offset_scaled_log_variance _ _ _ _
            (memcmp-cons ra.priority2 rb.priority2 _ _ _ _ identities))))
  where
    open a use {root_system_identity as ra}
    open b use {root_system_identity as rb}

    ports :
        memcmp
          (le16 a.source_port_number ++ le16 a.port_number)
          (le16 b.source_port_number ++ le16 b.port_number)
        ≡ memcmp
            (a.source_port_number ∷ a.port_number ∷ [])
            (b.source_port_number ∷ b.port_number ∷ [])
    ports =
        memcmp-le16 a.source_port_number b.source_port_number _ _ s.source_lt t.source_lt
        ∙ memcmp-cons a.source_port_number b.source_port_number _ _ _ _
            (memcmp-le16 a.port_number b.port_number [] [] s.port_lt t.port_lt)

    identities :
        memcmp
          (ra.clock_identity
            ++ (le16 a.steps_removed
                ++ (a.source_port_clock_identity
                    ++ (le16 a.source_port_number ++ le16 a.port_number))))
          (rb.clock_identity
            ++ (le16 b.steps_removed
                ++ (b.source_port_clock_identity
                    ++ (le16 b.source_port_number ++ le16 b.port_number))))
        ≡ memcmp
            (ra.clock_identity
              ++ a.steps_removed
                ∷ (a.source_port_clock_identity ++ a.source_port_number ∷ a.port_number ∷ []))
            (rb.clock_identity
              ++ b.steps_removed
                ∷ (b.source_port_clock_identity ++ b.source_port_number ∷ b.port_number ∷ []))
    identities =
        memcmp-append_cong ra.clock_identity rb.clock_identity _ _ _ _ (omega (arith, u, v)) (
          memcmp-le16 a.steps_removed b.steps_removed _ _ s.steps_lt t.steps_lt
          ∙ memcmp-cons a.steps_removed b.steps_removed _ _ _ _ (
              memcmp-append_cong a.source_port_clock_identity b.source_port_clock_identity _ _ _ _
                (omega (arith, u, v)) ports))

-- Whole vectors whose 16-bit fields are all below 256 compare as the standard says: the first
-- component that differs decides, and the smaller number is superior.
pub compare_priority_vectors-fields :
    (a b : PriorityVector)
    → IsWhole a
    → IsWhole b
    → IsSmall a
    → IsSmall b
    → compare_priority_vectors a b ≡ (
        if negative (memcmp (fields a) (fields b))
        then superior_priority
        else (if is_zero (memcmp (fields a) (fields b)) then same_priority else inferior_priority))
unfolding compare_priority_vectors
compare_priority_vectors-fields a b u v s t = rw (memcmp-bytes a b u v s t)

abbrev pub with_steps : PriorityVector → ℕ → PriorityVector
with_steps v n = record v { steps_removed = n }

memcmp-bytes_steps :
    (v : PriorityVector) (m n : ℕ)
    → memcmp (bytes (with_steps v m)) (bytes (with_steps v n)) ≡ memcmp (le16 m) (le16 n)
unfolding bytes
memcmp-bytes_steps v m n =
    let root = v.root_system_identity in
    let tail = v.source_port_clock_identity ++ (le16 v.source_port_number ++ le16 v.port_number) in
    let head =
      root.priority1
      ∷ root.clock_class
      ∷ root.clock_accuracy
      ∷ (le16 root.offset_scaled_log_variance ++ root.priority2 ∷ root.clock_identity) in
    memcmp-prefix head (le16 m ++ tail) (le16 n ++ tail)
    ∙ memcmp-append (le16 m) (le16 n) tail tail refl
    ∙ rw (memcmp_refl tail) (and_then-zero _)

-- Of two vectors that differ in `stepsRemoved` alone, the one with the smaller low byte is
-- superior, and the high bytes decide only where the low bytes agree.
pub compare_priority_vectors-steps :
    (v : PriorityVector) (m n : ℕ)
    → (compare_priority_vectors (with_steps v m) (with_steps v n) ≡ superior_priority)
      ↔ ((m % 256 < n % 256) ⊎ ((m % 256 ≡ n % 256) × (m / 256 < n / 256)))
unfolding compare_priority_vectors memcmp
compare_priority_vectors-steps v m n =
    (λ e. ground (arith, memcmp-bytes_steps v m n), λ e. ground (arith, memcmp-bytes_steps v m n))

-- ===== src/Ptp/Priority.antt =====
-- Priority vectors and their comparison (tsn_drivers/ptp_types.h, ptp_types.c). The structs are
-- packed and compared by `memcmp`; the processor is little-endian, so the low byte of a 16-bit
-- field comes first in memory.
pub mod Memcmp
pub mod Order
pub mod Fields
use ziggo_caa_s_switch.Prelude.{
  ℕ, ◌+◌, ◌/◌, ◌%◌, Bool, List, [], ◌∷◌, ◌++◌, ltb, ◌==◌, if◌then◌else◌, ℤ, pos, negsuc, negative,
}

-- An array of eight bytes is the list of them.
pub record SystemIdentity : Type 0 where
  pub priority1 : ℕ
  pub clock_class : ℕ
  pub clock_accuracy : ℕ
  pub offset_scaled_log_variance : ℕ  -- uint16_t
  pub priority2 : ℕ
  pub clock_identity : List ℕ

pub record PriorityVector : Type 0 where
  pub root_system_identity : SystemIdentity
  pub steps_removed : ℕ  -- uint16_t
  pub source_port_clock_identity : List ℕ
  pub source_port_number : ℕ  -- uint16_t
  pub port_number : ℕ  -- uint16_t

-- The sign of the first difference; the two arrays have the same length where the source calls it.
unfoldable pub memcmp : List ℕ → List ℕ → ℤ
memcmp [] ys = pos 0
memcmp (x ∷ xs) [] = pos 0
memcmp (x ∷ xs) (y ∷ ys) =
    let rest = memcmp xs ys in if ltb x y then negsuc 0 else (if ltb y x then pos 1 else rest)

abbrev pub is_zero : ℤ → Bool
is_zero (pos n) = n == 0
is_zero (negsuc n) = Bool.false

abbrev pub le16 : ℕ → List ℕ
le16 n = (n % 256) ∷ (n / 256) ∷ []

-- The 28 bytes of the packed struct.
unfoldable pub bytes : PriorityVector → List ℕ
bytes v =
    root.priority1
    ∷ root.clock_class
    ∷ root.clock_accuracy
    ∷ (le16 root.offset_scaled_log_variance
        ++ root.priority2
          ∷ (root.clock_identity
              ++ (le16 v.steps_removed
                  ++ (v.source_port_clock_identity
                      ++ (le16 v.source_port_number ++ le16 v.port_number)))))
  where
    open v use {root_system_identity as root}

pub data PriorityComparison : Type 0 where
  same_priority superior_priority inferior_priority : PriorityComparison

unfoldable pub compare_priority_vectors : PriorityVector → PriorityVector → PriorityComparison
compare_priority_vectors a b =
    let compare = memcmp (bytes a) (bytes b) in
    if negative compare
    then superior_priority
    else (if is_zero compare then same_priority else inferior_priority)

-- ===== src/Modbus/Registers.antt =====
-- What a register access means: the word of a register, writing and reading back, and where the
-- ladder of `WriteMultipleRegisters` agrees with that of `WriteRegister`.
use ziggo_caa_s_switch.Prelude.{
  get_elem?-set_self, get_elem?-none, get_elem?-lt, ℕ, ◌-◌, ◌/◌, ◌%◌, ◌≤◌, ◌<◌, ◌≡◌, ◌≢◌, inl, inr,
  refl, true, false, arith, Option, none, some, List, get_elem?, leb, if◌then◌else◌, length, ap,
  Bool-cases,
}
use ziggo_caa_s_switch.Modbus.Memory.{
  PlcMemory, Access, read_entry, in_bounds, map_access, write_wide, update_entry, ok,
  illegal_address, out_of_bounds, read_holding, write_holding, word_bytes, word_at, put_word,
  shift_of, shift_of_32, min_16b_range, min_32b_range, min_64b_range, buffer_size,
}

-- A table of 1024 entries, and a register that has a variable.
pub record HasSize (m : PlcMemory) : Type 0 where
  pub output_size : length m.int_output ≡ buffer_size
  pub memory_size : length m.int_memory ≡ buffer_size
  pub dint_size : length m.dint_memory ≡ buffer_size
  pub lint_size : length m.lint_memory ≡ buffer_size

-- The word that a mapped register holds.
abbrev pub holds : PlcMemory → ℕ → Option (Option ℕ)
holds m p =
    if leb p min_16b_range
    then get_elem? m.int_output p
    else (if leb p 2047
        then get_elem? m.int_memory (p - min_16b_range)
        else (if leb p 4095
            then get_elem? m.dint_memory ((p - min_32b_range) / 2)
            else (if leb p 8191 then get_elem? m.lint_memory ((p - min_64b_range) / 4) else none)))

word_at-put_word_0 : (v w : ℕ) → w < 65536 → word_at (put_word v 0 w) 0 ≡ w
word_at-put_word_0 v w h = omega arith

word_at-put_word_16 : (v w : ℕ) → w < 65536 → word_at (put_word v 16 w) 16 ≡ w
word_at-put_word_16 v w h = omega arith

word_at-put_word_32 : (v w : ℕ) → w < 65536 → word_at (put_word v 32 w) 32 ≡ w
word_at-put_word_32 v w h = omega arith

word_at-put_word_48 : (v w : ℕ) → w < 65536 → word_at (put_word v 48 w) 48 ≡ w
word_at-put_word_48 v w h = omega arith

word_at-put_word_32_range :
    (v w r : ℕ) → w < 65536 → word_at (put_word v (shift_of_32 r) w) (shift_of_32 r) ≡ w
word_at-put_word_32_range v w r h =
    ground (arith, word_at-put_word_0 v w h, word_at-put_word_16 v w h)

word_at-put_word_64_range :
    (v w r : ℕ) → w < 65536 → word_at (put_word v (shift_of r) w) (shift_of r) ≡ w
word_at-put_word_64_range v w r h = ground (
  arith,
  word_at-put_word_0 v w h,
  word_at-put_word_16 v w h,
  word_at-put_word_32 v w h,
  word_at-put_word_48 v w h,
)

-- The access has succeeded, and left tables in which the register reads as the word.
abbrev pub ReadsBack : ℕ → ℕ → Access PlcMemory → Type 0
ReadsBack p w (ok m) = read_holding m p ≡ ok (word_bytes w)
ReadsBack p w illegal_address = ⊥
ReadsBack p w out_of_bounds = ⊥

module _ (m : PlcMemory) (p w v : ℕ) (e : holds m p ≡ some (some v)) (h : w < 65536) where
  read_back_output : leb p 1024 ≡ true → ReadsBack p w (write_holding m p w)
  unfolding read_holding write_holding
  read_back_output r = ground (arith, get_elem?-set_self m.int_output p (some w) (some v))

  read_back_memory : leb p 1024 ≡ false → leb p 2047 ≡ true → ReadsBack p w (write_holding m p w)
  unfolding read_holding write_holding
  read_back_memory r r' =
      ground (arith, get_elem?-set_self m.int_memory (p - 1024) (some w) (some v))

  read_back_dint :
      leb p 1024 ≡ false
      → leb p 2047 ≡ false
      → leb p 4095 ≡ true
      → ReadsBack p w (write_holding m p w)
  unfolding read_holding write_holding
  read_back_dint r r' r'' =
      let i = (p - 2048) / 2 in
      let k = shift_of_32 ((p - 2048) % 2) in
      let at : get_elem? m.dint_memory i ≡ some (some v) = rw (r, r', r'') at e in
      rw (r, r', r'', write_wide, read_entry, at)
        (rw
          (
            read_holding,
            read_entry,
            r,
            r',
            r'',
            get_elem?-set_self m.dint_memory i (some (put_word v k w)) (some v) at,
          )
          (ap (λ u. ok (word_bytes u)) (word_at-put_word_32_range v w ((p - 2048) % 2) h)))

  read_back_lint :
      leb p 1024 ≡ false
      → leb p 2047 ≡ false
      → leb p 4095 ≡ false
      → leb p 8191 ≡ true
      → ReadsBack p w (write_holding m p w)
  unfolding read_holding write_holding
  read_back_lint r r' r'' q =
      let i = (p - 4096) / 4 in
      let k = shift_of ((p - 4096) % 4) in
      let at : get_elem? m.lint_memory i ≡ some (some v) = rw (r, r', r'', q) at e in
      rw (r, r', r'', q, write_wide, read_entry, at)
        (rw
          (
            read_holding,
            read_entry,
            r,
            r',
            r'',
            q,
            get_elem?-set_self m.lint_memory i (some (put_word v k w)) (some v) at,
          )
          (ap (λ u. ok (word_bytes u)) (word_at-put_word_64_range v w ((p - 4096) % 4) h)))

  -- A register that has a variable reads back as the 16-bit word that is written to it.
  pub write_holding-ReadsBack : ReadsBack p w (write_holding m p w)
  unfolding read_holding write_holding
  write_holding-ReadsBack = elim (Bool-cases (leb p 1024)) [
    | inl r ↦ read_back_output r
    | inr r ↦ elim (Bool-cases (leb p 2047)) [
      | inl r' ↦ read_back_memory r r'
      | inr r' ↦ elim (Bool-cases (leb p 4095)) [
        | inl r'' ↦ read_back_dint r r' r''
        | inr r'' ↦ elim (Bool-cases (leb p 8191)) [
          | inl q ↦ read_back_lint r r' r'' q
          | inr q ↦ ground arith
        ]
      ]
    ]
  ]

-- The last register of `int_output` by the ladders, 1024, is past the end of the table: reading and
-- writing it are out of bounds.
pub register_1024-out_of_bounds :
    (m : PlcMemory) (w : ℕ)
    → length m.int_output ≡ 1024
    → (read_holding m 1024 ≡ out_of_bounds) × (write_holding m 1024 w ≡ out_of_bounds)
unfolding read_holding write_holding
register_1024-out_of_bounds m w h =
    let at : get_elem? m.int_output 1024 ≡ none = get_elem?-none m.int_output 1024 (omega arith) in
    (rw (read_entry, at) refl, rw (update_entry, read_entry, at) refl)

-- A register is accessed within the tables, or its number is refused.
abbrev pub IsAnswered : {A : Type 0} → ℕ → Access A → Type 0
IsAnswered p (ok _) = p < 8192
IsAnswered p illegal_address = 8192 ≤ p
IsAnswered p out_of_bounds = ⊥

module _ {A : Type 0} (xs : List (Option ℕ)) (i : ℕ) (a : A) (f : ℕ → A) (p : ℕ)
    (k : p < 8192) where
  read_entry-IsAnswered : i < length xs → IsAnswered p (in_bounds (read_entry xs i a f))
  read_entry-IsAnswered h = ground (arith, get_elem?-lt xs i h)

  read_entry-map-IsAnswered :
      {B : Type 0} (g : A → B)
      → i < length xs
      → IsAnswered p (map_access g (in_bounds (read_entry xs i a f)))
  read_entry-map-IsAnswered g h = ground (arith, get_elem?-lt xs i h)

module _ (m : PlcMemory) (p w : ℕ) (s : HasSize m) (ne : p ≢ 1024) where
  wide_range-IsAnswered :
      leb p 1024 ≡ false
      → leb p 2047 ≡ false
      → IsAnswered p (read_holding m p) × IsAnswered p (write_holding m p w)
  unfolding read_holding write_holding
  wide_range-IsAnswered r r' = elim (Bool-cases (leb p 4095)) [
    | inl q ↦
        rw (r, r', q)
          (
            read_entry-IsAnswered m.dint_memory ((p - 2048) / 2) _ _ p (ground arith)
                (ground arith),
            read_entry-IsAnswered m.dint_memory ((p - 2048) / 2) _ _ p (ground arith)
                (ground arith),
          )
    | inr q ↦ elim (Bool-cases (leb p 8191)) [
      | inl u ↦
          rw (r, r', q, u)
            (
              read_entry-IsAnswered m.lint_memory ((p - 4096) / 4) _ _ p (ground arith)
                  (ground arith),
              read_entry-IsAnswered m.lint_memory ((p - 4096) / 4) _ _ p (ground arith)
                  (ground arith),
            )
      | inr u ↦ rw (r, r', q, u) (ground arith, ground arith)
    ]
  ]

  -- In tables of 1024 entries each, every register but 1024 is read and written within the tables
  -- when its number is below 8192, and refused otherwise.
  pub register-IsAnswered : IsAnswered p (read_holding m p) × IsAnswered p (write_holding m p w)
  unfolding read_holding write_holding
  register-IsAnswered = elim (Bool-cases (leb p 1024)) [
    | inl r ↦ rw (r) (
      read_entry-IsAnswered m.int_output p _ _ p (ground arith) (ground arith),
      read_entry-map-IsAnswered m.int_output p _ _ p (ground arith) _ (ground arith),
    )
    | inr r ↦ elim (Bool-cases (leb p 2047)) [
      | inl r' ↦
          rw (r, r')
            (
              read_entry-IsAnswered m.int_memory (p - 1024) _ _ p (ground arith) (ground arith),
              read_entry-map-IsAnswered m.int_memory (p - 1024) _ _ p (ground arith) _
                  (ground arith),
            )
      | inr r' ↦ wide_range-IsAnswered r r'
    ]
  ]

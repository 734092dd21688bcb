-- ===== src/Ptp/Priority/Memcmp.antt =====
-- `memcmp` on arrays of one length is a total order.
use ziggo_caa_s_switch.Prelude.{
  ℕ, zero, suc, ◌≡◌, refl, ◌⊎◌, inl, inr, List, [], ◌∷◌, arith, ℤ, pos, negsuc, length,
}
use ziggo_caa_s_switch.Ptp.Priority.{memcmp}

pub memcmp_refl : (xs : List ℕ) → memcmp xs xs ≡ pos 0
unfolding memcmp
memcmp_refl [] = refl
memcmp_refl (x ∷ xs) = ground (arith, memcmp_refl xs)

pub memcmp-eq : (xs ys : List ℕ) → length xs ≡ length ys → memcmp xs ys ≡ pos 0 → xs ≡ ys
unfolding memcmp
memcmp-eq [] [] h e = refl
memcmp-eq [] (y ∷ ys) h e = absurd (omega arith)
memcmp-eq (x ∷ xs) [] h e = absurd (omega arith)
memcmp-eq (x ∷ xs) (y ∷ ys) h e = ground (arith, memcmp-eq xs ys (omega arith))

-- The result is one of three numbers, and the other order of the arguments gives its negative.
abbrev neg : ℤ → ℤ
neg (pos zero) = pos 0
neg (pos (suc n)) = negsuc n
neg (negsuc n) = pos (suc n)

pub memcmp_swap : (xs ys : List ℕ) → length xs ≡ length ys → memcmp ys xs ≡ neg (memcmp xs ys)
unfolding memcmp
memcmp_swap [] [] h = refl
memcmp_swap [] (y ∷ ys) h = absurd (omega arith)
memcmp_swap (x ∷ xs) [] h = absurd (omega arith)
memcmp_swap (x ∷ xs) (y ∷ ys) h = ground (arith, memcmp_swap xs ys (omega arith))

pub memcmp_trans :
    (xs ys zs : List ℕ)
    → length xs ≡ length ys
    → length ys ≡ length zs
    → memcmp xs ys ≡ negsuc 0
    → memcmp ys zs ≡ negsuc 0
    → memcmp xs zs ≡ negsuc 0
unfolding memcmp
memcmp_trans [] ys zs h k p q = p
memcmp_trans (x ∷ xs) [] zs h k p q = absurd (omega arith)
memcmp_trans (x ∷ xs) (y ∷ ys) [] h k p q = absurd (omega arith)
memcmp_trans (x ∷ xs) (y ∷ ys) (z ∷ zs) h k p q = ground (
  arith,
  memcmp_trans xs ys zs (omega arith) (omega arith),
  memcmp-eq xs ys (omega arith),
  memcmp-eq ys zs (omega arith),
)

pub memcmp_cases :
    (xs ys : List ℕ) → (memcmp xs ys ≡ negsuc 0) ⊎ (memcmp xs ys ≡ pos 0) ⊎ (memcmp xs ys ≡ pos 1)
unfolding memcmp
memcmp_cases [] ys = inr (inl refl)
memcmp_cases (x ∷ xs) [] = inr (inl refl)
memcmp_cases (x ∷ xs) (y ∷ ys) = ground (arith, memcmp_cases xs ys)

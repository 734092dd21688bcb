-- ===== src/GateControl/Sorted.antt =====
-- Sorting the time points and taking the duplicates out (topo.cpp, `apply_gcl`).
use ziggo_caa_s_switch.Prelude.{
  ℕ, ◌≤◌, ◌<◌, ◌≡◌, inl, inr, refl, ap, ◌∙◌, ◌||◌, List, [], ◌∷◌, leb, ◌==◌, All, arith, Bool-cases,
}
use ziggo_caa_s_switch.GateControl.{elem, insert, sort, unique}

unfoldable pub Ascending : List ℕ → Type 0
Ascending [] = Unit
Ascending (x ∷ xs) = All (λ y. x ≤ y) xs × Ascending xs

unfoldable pub StrictlyAscending : List ℕ → Type 0
StrictlyAscending [] = Unit
StrictlyAscending (x ∷ xs) = All (λ y. x < y) xs × StrictlyAscending xs

All-impl : {P Q : ℕ → Type 0} (xs : List ℕ) → ((x : ℕ) → P x → Q x) → All P xs → All Q xs
All-impl [] f h = tt
All-impl (x ∷ xs) f h = (f x h.0, All-impl xs f h.1)

All-insert : (P : ℕ → Type 0) (x : ℕ) (xs : List ℕ) → P x → All P xs → All P (insert x xs)
unfolding insert
All-insert P x [] p h = (p, tt)
All-insert P x (y ∷ ys) p h = elim (Bool-cases (leb x y)) [
  | inl le ↦ rw le (p, h)
  | inr gt ↦ rw gt (h.0, All-insert P x ys p h.1)
]

insert-Ascending : (x : ℕ) (xs : List ℕ) → Ascending xs → Ascending (insert x xs)
unfolding insert Ascending
insert-Ascending x [] h = (tt, tt)
insert-Ascending x (y ∷ ys) h = elim (Bool-cases (leb x y)) [
  | inl le ↦ rw le ((ground arith, All-impl ys (λ z k. ground (arith, k)) h.0), h)
  | inr gt ↦ rw gt (All-insert _ x ys (ground arith) h.0, insert-Ascending x ys h.1)
]

sort-Ascending : (xs : List ℕ) → Ascending (sort xs)
unfolding sort Ascending
sort-Ascending [] = tt
sort-Ascending (x ∷ xs) = insert-Ascending x (sort xs) (sort-Ascending xs)

All-unique : (P : ℕ → Type 0) (xs : List ℕ) → All P xs → All P (unique xs)
unfolding unique
All-unique P [] h = tt
All-unique P (x ∷ []) h = h
All-unique P (x ∷ y ∷ ys) h = elim (Bool-cases (x == y)) [
  | inl same ↦ rw same (All-unique P (y ∷ ys) h.1)
  | inr other ↦ rw other (h.0, All-unique P (y ∷ ys) h.1)
]

unique-StrictlyAscending : (xs : List ℕ) → Ascending xs → StrictlyAscending (unique xs)
unfolding unique Ascending StrictlyAscending
unique-StrictlyAscending [] h = tt
unique-StrictlyAscending (x ∷ []) h = (tt, tt)
unique-StrictlyAscending (x ∷ y ∷ ys) h = elim (Bool-cases (x == y)) [
  | inl same ↦ rw same (unique-StrictlyAscending (y ∷ ys) h.1)
  | inr other ↦
      let lt : x < y = ground (arith, h) in
      rw other (
        All-unique _ (y ∷ ys) (lt, All-impl ys (λ z k. ground (arith, k, lt)) h.1.0),
        unique-StrictlyAscending (y ∷ ys) h.1,
      )
]

elem-insert : (q x : ℕ) (xs : List ℕ) → elem q (insert x xs) ≡ (q == x || elem q xs)
unfolding elem insert
elem-insert q x [] = refl
elem-insert q x (y ∷ ys) = ground (arith, elem-insert q x ys)

elem-sort : (q : ℕ) (xs : List ℕ) → elem q (sort xs) ≡ elem q xs
unfolding elem sort
elem-sort q [] = refl
elem-sort q (x ∷ xs) = elem-insert q x (sort xs) ∙ ap (λ b. q == x || b) (elem-sort q xs)

elem-unique : (q : ℕ) (xs : List ℕ) → elem q (unique xs) ≡ elem q xs
unfolding elem unique
elem-unique q [] = refl
elem-unique q (x ∷ []) = refl
elem-unique q (x ∷ y ∷ ys) = ground (arith, elem-unique q (y ∷ ys))

-- Sorting and `unique` give a strictly ascending list with the same members.
pub unique-sort-StrictlyAscending : (xs : List ℕ) → StrictlyAscending (unique (sort xs))
unique-sort-StrictlyAscending xs = unique-StrictlyAscending (sort xs) (sort-Ascending xs)

pub elem-unique-sort : (q : ℕ) (xs : List ℕ) → elem q (unique (sort xs)) ≡ elem q xs
elem-unique-sort q xs = elem-unique q (sort xs) ∙ elem-sort q xs

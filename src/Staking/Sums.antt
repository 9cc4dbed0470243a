-- ===== src/Staking/Sums.antt =====
-- Sums of a weight over keys of validators: over those of a list that pass a test, and over lists
-- that hold the same keys.
use truth_seeker.Common.{
  ℕ, ◌+◌, ◌≤◌, ◌≡◌, refl, Bool, true, false, List, [], ◌∷◌, ◌==◌, list_eq, nat_eq, list_beq_iff,
  ◌&&◌, ◌||◌, contains, push, if◌then◌else◌, arith, Bool-cases, inl, inr,
}
use truth_seeker.Sdk.Types.{Bytes}
use truth_seeker.Staking.Order.{insert_sorted, sort, Distinct}

module _ (w : Bytes → ℕ) where
  -- The weight of those that pass the test.
  unfoldable pub part : (Bytes → Bool) → List Bytes → ℕ
  part p [] = 0
  part p (v ∷ vs) = (if p v then w v else 0) + part p vs

  abbrev pub total : List Bytes → ℕ
  total vs = part (λ _. true) vs

  pub part-and :
      (p q : Bytes → Bool) (vs : List Bytes)
      → part p vs + part q vs ≤ total vs + part (λ v. p v && q v) vs
  unfolding part
  part-and p q [] = omega arith
  part-and p q (v ∷ vs) = ground (arith, part-and p q vs)

  pub total-insert_sorted :
      (x : Bytes) (vs : List Bytes) → total (insert_sorted x vs) ≡ w x + total vs
  unfolding part insert_sorted
  total-insert_sorted x [] = refl
  total-insert_sorted x (v ∷ vs) = ground (arith, total-insert_sorted x vs)

  pub total-sort : (vs : List Bytes) → total (sort vs) ≡ total vs
  unfolding part sort
  total-sort [] = refl
  total-sort (v ∷ vs) = ground (arith, total-insert_sorted v (sort vs), total-sort vs)

  pub total-push : (vs : List Bytes) (x : Bytes) → total (push vs x) ≡ total vs + w x
  unfolding part
  total-push [] x = omega arith
  total-push (v ∷ vs) x = omega (arith, total-push vs x)

  part_absent :
      (p : Bytes → Bool) (x : Bytes) (vs : List Bytes)
      → contains vs x ≡ false
      → part (λ v. x == v || p v) vs ≡ part p vs
  unfolding part
  part_absent p x [] h = refl
  part_absent p x (v ∷ vs) h =
      ground (arith, list_beq_iff x v, list_beq_iff v x, part_absent p x vs)

  part_present :
      (p : Bytes → Bool) (x : Bytes) (vs : List Bytes)
      → Distinct vs
      → contains vs x ≡ true
      → p x ≡ false
      → part (λ v. x == v || p v) vs ≡ w x + part p vs
  unfolding part
  part_present p x [] d h k = ground arith
  part_present p x (v ∷ vs) (new, d) h k = elim (Bool-cases (v == x)) [
    | inl here ↦
        let e : v ≡ x = (list_beq_iff v x).0 here in
        ground (arith, list_beq_iff x v, list_beq_iff v x, e, part_absent p x vs (rw (← e) new))
    | inr there ↦
        ground (arith, list_beq_iff x v, list_beq_iff v x, part_present p x vs d (ground arith) k)
  ]

  part_none : (vs : List Bytes) → 0 ≡ part (λ v. false) vs
  unfolding part
  part_none [] = refl
  part_none (v ∷ vs) = ground (arith, part_none vs)

  -- Distinct keys that are all in a list of distinct keys weigh as much as those of the list that
  -- are among them.
  pub total-part :
      (xs vs : List Bytes)
      → Distinct xs
      → Distinct vs
      → ((x : Bytes) → contains xs x ≡ true → contains vs x ≡ true)
      → total xs ≡ part (λ v. contains xs v) vs
  unfolding part
  total-part [] vs dx dv sub = part_none vs
  total-part (x ∷ xs) vs (new, dx) dv sub = ground (
    arith,
    part_present (λ v. contains xs v) x vs dv (sub x (ground (arith, list_beq_iff x x))) new,
    total-part xs vs dx dv (λ y m. sub y (ground arith)),
  )

  pub part-ext :
      (p q : Bytes → Bool) (vs : List Bytes) → ((v : Bytes) → p v ≡ q v) → part p vs ≡ part q vs
  unfolding part
  part-ext p q [] h = refl
  part-ext p q (v ∷ vs) h = rw (h v) (omega (arith, part-ext p q vs h))

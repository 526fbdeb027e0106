-- ===== src/Table/Rows.antt =====
-- What SELECT and UPDATE do to a property that every row has.
use smart_light.Prelude.{
  Bool, true, false, List, [], ◌∷◌, none, some, ◌≡◌, refl, inl, inr, arith, Bool-cases, ◌++◌, map,
}
use smart_light.Table.{find_first, find_many, update, affected, All}

module _ {ℓ} {R : Type ℓ} where
  pub find_first-holds : (p : R → Bool) (t : List R) {r : R} → find_first p t ≡ some r → p r ≡ true
  unfolding find_first
  find_first-holds p [] h = cc
  find_first-holds p (s ∷ t) h = elim (Bool-cases (p s)) [
    | inl e ↦ ground (arith, e)
    | inr e ↦ find_first-holds p t (ground (arith, e))
  ]

  pub All-find_first {κ} :
      (P : R → Type κ) (p : R → Bool) (t : List R) {r : R} → All P t → find_first p t ≡ some r → P r
  unfolding find_first
  All-find_first P p [] a h = cc
  All-find_first P p (s ∷ t) {r} a h = elim (Bool-cases (p s)) [
    | inl e ↦ rw (some_eq (rw (e) at h)) at a.0
    | inr e ↦ All-find_first P p t a.1 (rw (e) at h)
  ]
    where
      some_eq : some s ≡ some r → s ≡ r
      some_eq k = cc

  pub All-map {κ μ} :
      {P : R → Type κ} {Q : R → Type μ} (t : List R) → ((r : R) → P r → Q r) → All P t → All Q t
  All-map [] f a = tt
  All-map (r ∷ t) f a = (f r a.0, All-map t f a.1)

  pub All-zip {κ μ} :
      (P : R → Type κ) (Q : R → Type μ) (t : List R) → All P t → All Q t → All (λ r. P r × Q r) t
  All-zip P Q [] a b = tt
  All-zip P Q (r ∷ t) a b = ((a.0, b.0), All-zip P Q t a.1 b.1)

  -- An UPDATE keeps what its assignment brings about on the rows that it hits, and what stays true
  -- of the others.
  pub All-update {κ μ} :
      {P : R → Type κ} {Q : R → Type μ} (p : R → Bool) (f : R → R) (t : List R)
      → ((r : R) → p r ≡ true → P r → Q (f r))
      → ((r : R) → p r ≡ false → P r → Q r)
      → All P t
      → All Q (update p f t)
  unfolding update
  All-update p f [] hit miss a = tt
  All-update p f (r ∷ t) hit miss a = elim (Bool-cases (p r)) [
    | inl e ↦ rw e (hit r e a.0, All-update p f t hit miss a.1)
    | inr e ↦ rw e (miss r e a.0, All-update p f t hit miss a.1)
  ]

  -- An UPDATE that reports no row changed none.
  pub update_unaffected :
      (p : R → Bool) (f : R → R) (t : List R) → affected p t ≡ 0 → update p f t ≡ t
  unfolding update affected
  update_unaffected p f [] h = refl
  update_unaffected p f (r ∷ t) h = elim (Bool-cases (p r)) [
    | inl e ↦ absurd (ground (arith, e))
    | inr e ↦ rw (e, update_unaffected p f t (ground (arith, e)))
  ]

  pub unaffected-All : (p : R → Bool) (t : List R) → affected p t ≡ 0 → All (λ r. p r ≡ false) t
  unfolding affected
  unaffected-All p [] h = tt
  unaffected-All p (r ∷ t) h = (ground arith, unaffected-All p t (ground arith))

  pub find_first_unaffected :
      (p q : R → Bool) (t : List R)
      → ((r : R) → p r ≡ false → q r ≡ false)
      → affected p t ≡ 0
      → find_first q t ≡ none
  unfolding find_first affected
  find_first_unaffected p q [] only h = refl
  find_first_unaffected p q (r ∷ t) only h =
      ground (arith, only r, find_first_unaffected p q t only (ground arith))

  pub All-find_many {κ} :
      (P : R → Type κ) (p : R → Bool) (t : List R) → All P t → All P (find_many p t)
  unfolding find_many
  All-find_many P p [] a = tt
  All-find_many P p (r ∷ t) a = elim (Bool-cases (p r)) [
    | inl e ↦ rw e (a.0, All-find_many P p t a.1)
    | inr e ↦ rw e (All-find_many P p t a.1)
  ]

  pub All-append {κ} : (P : R → Type κ) (s t : List R) → All P s → All P t → All P (s ++ t)
  All-append P [] t a b = b
  All-append P (r ∷ s) t a b = (a.0, All-append P s t a.1 b)

  -- What the rows had, and what they have after an assignment, tells more of them.
  pub All-assigned {κ μ ν} :
      (P : R → Type κ) (Q : R → Type μ) (S : R → Type ν) (f : R → R) (t : List R)
      → ((r : R) → P r → Q (f r) → S (f r))
      → All P t
      → All Q (map f t)
      → All S (map f t)
  All-assigned P Q S f [] g a b = tt
  All-assigned P Q S f (r ∷ t) g a b = (g r a.0 b.0, All-assigned P Q S f t g a.1 b.1)

module _ {ℓ κ} {A : Type ℓ} {B : Type κ} where
  pub All-of_map {μ ν} :
      (P : A → Type μ) (Q : B → Type ν) (f : A → B) (t : List A)
      → ((x : A) → P x → Q (f x))
      → All P t
      → All Q (map f t)
  All-of_map P Q f [] g a = tt
  All-of_map P Q f (x ∷ t) g a = (g x a.0, All-of_map P Q f t g a.1)

-- A test that fits a row that was found finds a row.
pub find_first-fits {ℓ} :
    {R : Type ℓ} (q p : R → Bool) (t : List R) {r : R}
    → find_first q t ≡ some r
    → p r ≡ true
    → (s : R) × (find_first p t ≡ some s)
unfolding find_first
find_first-fits q p [] h fits = absurd (cc h)
find_first-fits q p (s ∷ t) {r} h fits = elim (Bool-cases (p s)) [
  | inl e ↦ (s, ground (arith, e))
  | inr e ↦ elim (Bool-cases (q s)) [
    | inl hit ↦ absurd (ground (arith, h, hit, e, fits))
    | inr miss ↦
        let rest = find_first-fits q p t (ground (arith, h, miss)) fits in
        (rest.0, ground (arith, e, rest.1))
  ]
]

-- A SELECT that fits none of the rows that an UPDATE hits.
pub find_first_missed {ℓ} :
    {R : Type ℓ} (q p : R → Bool) (f : R → R) (t : List R)
    → ((s : R) → p s ≡ true → (q s ≡ false) × (q (f s) ≡ false))
    → find_first q (update p f t) ≡ find_first q t
unfolding find_first update
find_first_missed q p f [] apart = refl
find_first_missed q p f (s ∷ t) apart = elim (Bool-cases (p s)) [
  | inl hit ↦ ground (arith, hit, apart s hit, find_first_missed q p f t apart)
  | inr miss ↦ ground (arith, miss, find_first_missed q p f t apart)
]

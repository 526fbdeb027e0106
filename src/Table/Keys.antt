-- ===== src/Table/Keys.antt =====
-- A row that was read, and an UPDATE by its key: exactly that row changes.
use smart_light.Prelude.{
  ℕ, Bool, true, List, [], ◌∷◌, some, ◌≡◌, ◌≢◌, refl, sym, inl, inr, arith, ◌==◌, ==_iff,
  Bool-cases, map, if◌then◌else◌,
}
use smart_light.Table.{find_first, update, affected, All, IsUnique}
use smart_light.Table.Rows.{All-find_first, All-map}

some_eq {ℓ} : {R : Type ℓ} {r s : R} → some s ≡ some r → s ≡ r
some_eq k = cc

module _ {ℓ} {R : Type ℓ} (key : R → ℕ) where
  -- Only the row that was read has its key.
  pub find_first_unique :
      (q : R → Bool) (t : List R) {r : R}
      → IsUnique key t
      → find_first q t ≡ some r
      → All (λ s. key s ≡ key r → s ≡ r) t
  unfolding find_first
  find_first_unique q [] u h = tt
  find_first_unique q (s ∷ t) {r} (u, v) h = elim (Bool-cases (q s)) [
    | inl e ↦ (
      λ _. some_eq (rw e at h),
      All-map t (λ x ne same. absurd (ne (rw (some_eq (rw e at h)) same))) u,
    )
    | inr e ↦ (
      λ same. absurd (All-find_first (λ x. key x ≢ key s) q t u (rw e at h) (sym same)),
      find_first_unique q t v (rw e at h),
    )
  ]

  -- UNIQUE columns stay unique under an UPDATE that does not assign to them.
  All-ne-update :
      (k : ℕ) (p : R → Bool) (f : R → R) (t : List R)
      → ((s : R) → key (f s) ≡ key s)
      → All (λ s. key s ≢ k) t
      → All (λ s. key s ≢ k) (update p f t)
  unfolding update
  All-ne-update k p f [] same a = tt
  All-ne-update k p f (s ∷ t) same a = (ground (arith, same s, a.0), All-ne-update k p f t same a.1)

  pub IsUnique-update :
      (p : R → Bool) (f : R → R) (t : List R)
      → ((s : R) → key (f s) ≡ key s)
      → IsUnique key t
      → IsUnique key (update p f t)
  unfolding update
  IsUnique-update p f [] same u = tt
  IsUnique-update p f (s ∷ t) same (u, v) = elim (Bool-cases (p s)) [
    | inl e ↦ rw (e, same s) (All-ne-update (key s) p f t same u, IsUnique-update p f t same v)
    | inr e ↦ rw e (All-ne-update (key s) p f t same u, IsUnique-update p f t same v)
  ]

  All-ne-map :
      (k : ℕ) (f : R → R) (t : List R)
      → ((s : R) → key (f s) ≡ key s)
      → All (λ s. key s ≢ k) t
      → All (λ s. key s ≢ k) (map f t)
  All-ne-map k f [] same a = tt
  All-ne-map k f (s ∷ t) same a = (rw (same s) a.0, All-ne-map k f t same a.1)

  pub IsUnique-map :
      (f : R → R) (t : List R)
      → ((s : R) → key (f s) ≡ key s)
      → IsUnique key t
      → IsUnique key (map f t)
  IsUnique-map f [] same u = tt
  IsUnique-map f (s ∷ t) same (u, v) =
      (rw (same s) (All-ne-map (key s) f t same u), IsUnique-map f t same v)

  -- Where no row has the key, an UPDATE by the key changes none.
  update_none :
      (p : R → Bool) (f : R → R) (k : ℕ) (t : List R)
      → ((s : R) → p s ≡ true → key s ≡ k)
      → All (λ s. key s ≢ k) t
      → (affected p t ≡ 0) × (update p f t ≡ t)
  unfolding affected update
  update_none p f k [] only a = (refl, refl)
  update_none p f k (s ∷ t) only a =
      let ih = update_none p f k t only a.1 in ground (arith, only s, a.0, ih.0, ih.1)

  -- SELECT by the key finds the row that another SELECT had found.
  pub find_at :
      (q : R → Bool) (t : List R) {r : R}
      → IsUnique key t
      → find_first q t ≡ some r
      → find_first (λ s. key s == key r) t ≡ some r
  unfolding find_first
  find_at q [] u h = cc
  find_at q (s ∷ t) {r} (u, v) h = elim (Bool-cases (q s)) [
    | inl e ↦ let same : s ≡ r = some_eq (rw e at h) in rw (same, (==_iff (key r) (key r)).1 refl)
    | inr e ↦
        let ne = All-find_first (λ x. key x ≢ key s) q t u (rw e at h) in
        ground (arith, ne, find_at q t v (rw e at h))
  ]

  -- An UPDATE that hits no other key changes the row once, if its test holds there.
  pub affected_at :
      (q p : R → Bool) (t : List R) {r : R}
      → IsUnique key t
      → find_first q t ≡ some r
      → ((s : R) → p s ≡ true → key s ≡ key r)
      → affected p t ≡ (if p r then 1 else 0)
  unfolding find_first affected
  affected_at q p [] u h only = cc
  affected_at q p (s ∷ t) {r} (u, v) h only = elim (Bool-cases (q s)) [
    | inl e ↦
        let same : s ≡ r = some_eq (rw e at h) in
        rw (same, (update_none p (λ x. x) (key r) t only (rw same at u)).0) (ground arith)
    | inr e ↦
        let ne = All-find_first (λ x. key x ≢ key s) q t u (rw e at h) in
        ground (arith, ne, only s, affected_at q p t v (rw e at h) only)
  ]

module _ {ℓ} {R : Type ℓ} where
  -- A SELECT after an UPDATE that leaves its columns alone finds the same row, as assigned.
  pub find_first-update :
      (q p : R → Bool) (f : R → R) (t : List R) {r : R}
      → ((s : R) → q (f s) ≡ q s)
      → find_first q t ≡ some r
      → find_first q (update p f t) ≡ some (if p r then f r else r)
  unfolding find_first update
  find_first-update q p f [] same h = cc
  find_first-update q p f (s ∷ t) {r} same h = elim (Bool-cases (q s)) [
    | inl e ↦ let eq : s ≡ r = some_eq (rw e at h) in ground (arith, same s, e, eq)
    | inr e ↦ ground (arith, same s, e, find_first-update q p f t same (rw e at h))
  ]

-- Another SELECT that fits no other key, and fits the row, finds it too.
pub find_other {ℓ} :
    {R : Type ℓ} (key : R → ℕ) (q p : R → Bool) (t : List R) {r : R}
    → IsUnique key t
    → find_first q t ≡ some r
    → ((s : R) → p s ≡ true → key s ≡ key r)
    → p r ≡ true
    → find_first p t ≡ some r
unfolding find_first
find_other key q p [] u h only holds = cc
find_other key q p (s ∷ t) {r} (u, v) h only holds = elim (Bool-cases (q s)) [
  | inl e ↦ let eq : s ≡ r = some_eq (rw e at h) in rw (eq, holds)
  | inr e ↦
      let ne = All-find_first (λ x. key x ≢ key s) q t u (rw e at h) in
      ground (arith, ne, only s, find_other key q p t v (rw e at h) only holds)
]

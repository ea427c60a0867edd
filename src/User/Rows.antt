-- ===== src/User/Rows.antt =====
-- What the SQL statements of services/user-service/internal/repository do with the rows of a table.
use aipx.Prelude.{
  Bool, true, false, Option, none, some, List, [], ◌∷◌, ◌++◌, if◌then◌else◌, ◌≡◌, refl, Bool-cases,
  inl, inr, sym,
}

module _ {A : Type 0} where
  -- `SELECT … WHERE`, with `QueryRow`: the first row.
  unfoldable pub find : (A → Bool) → List A → Option A
  find test [] = none
  find test (x ∷ xs) = let rest = find test xs in if test x then some x else rest

  -- `UPDATE … SET … WHERE`
  unfoldable pub update_where : (A → Bool) → (A → A) → List A → List A
  update_where test f [] = []
  update_where test f (x ∷ xs) =
      let rest = update_where test f xs in if test x then f x ∷ rest else x ∷ rest

  -- `DELETE … WHERE`
  unfoldable pub delete_where : (A → Bool) → List A → List A
  delete_where test [] = []
  delete_where test (x ∷ xs) = let rest = delete_where test xs in if test x then rest else x ∷ rest

  -- Whether a statement affects a row.
  abbrev pub is_some : Option A → Bool
  is_some none = false
  is_some (some x) = true

  -- Every row of the list has the property.
  abbrev pub All : (A → Type 0) → List A → Type 0
  All P [] = Unit
  All P (x ∷ xs) = P x × All P xs

  pub All-append : (P : A → Type 0) (xs ys : List A) → All P xs → All P ys → All P (xs ++ ys)
  All-append P [] ys a b = b
  All-append P (x ∷ xs) ys a b = (a.0, All-append P xs ys a.1 b)

  pub All-delete_where :
      (P : A → Type 0) (test : A → Bool) (xs : List A) → All P xs → All P (delete_where test xs)
  unfolding delete_where
  All-delete_where P test [] a = tt
  All-delete_where P test (x ∷ xs) a = elim (Bool-cases (test x)) [
    | inl e ↦ rw e (All-delete_where P test xs a.1)
    | inr e ↦ rw e (a.0, All-delete_where P test xs a.1)
  ]

  -- What an update makes of the rows that it takes and of the others.
  pub All-update_where :
      (P Q : A → Type 0) (test : A → Bool) (f : A → A)
      → ((x : A) → test x ≡ true → P x → Q (f x))
      → ((x : A) → test x ≡ false → P x → Q x)
      → (xs : List A) → All P xs
      → All Q (update_where test f xs)
  unfolding update_where
  All-update_where P Q test f taken left [] a = tt
  All-update_where P Q test f taken left (x ∷ xs) a = elim (Bool-cases (test x)) [
    | inl e ↦ rw e (taken x e a.0, All-update_where P Q test f taken left xs a.1)
    | inr e ↦ rw e (left x e a.0, All-update_where P Q test f taken left xs a.1)
  ]

  pub All-mono : (P Q : A → Type 0) → ((x : A) → P x → Q x) → (xs : List A) → All P xs → All Q xs
  All-mono P Q f [] a = tt
  All-mono P Q f (x ∷ xs) a = (f x a.0, All-mono P Q f xs a.1)

  -- No row passes a test that finds none.
  pub find-none :
      (test : A → Bool) (xs : List A) → find test xs ≡ none → All (λ x. test x ≡ false) xs
  unfolding find
  find-none test [] h = tt
  find-none test (x ∷ xs) h = elim (Bool-cases (test x)) [
    | inl e ↦ absurd (something (rw e at h))
    | inr e ↦ (e, find-none test xs (rw e at h))
  ]
    where
      something : {y : A} → ◌≡◌ {A = Option A} (some y) none → ⊥
      something h = cc

  -- A row that is put at the end is found where none was found before.
  pub find-append :
      (test : A → Bool) (xs : List A) (y : A)
      → find test xs ≡ none
      → test y ≡ true
      → find test (xs ++ y ∷ []) ≡ some y
  unfolding find
  find-append test [] y h e = rw e
  find-append test (x ∷ xs) y h e = elim (Bool-cases (test x)) [
    | inl t ↦ absurd (something (rw t at h))
    | inr t ↦ rw t (find-append test xs y (rw t at h) e)
  ]
    where
      something : {y : A} → ◌≡◌ {A = Option A} (some y) none → ⊥
      something h = cc

  pub All-find :
      (P : A → Type 0) (test : A → Bool) (xs : List A) (x : A)
      → All P xs
      → find test xs ≡ some x
      → P x × (test x ≡ true)
  unfolding find
  All-find P test [] x a h = absurd (nothing h)
    where
      nothing : ◌≡◌ {A = Option A} none (some x) → ⊥
      nothing h = cc
  All-find P test (y ∷ xs) x a h = elim (Bool-cases (test y)) [
    | inl e ↦ let same : y ≡ x = injected (rw e at h) in rw (sym same) (a.0, e)
    | inr e ↦ All-find P test xs x a.1 (rw e at h)
  ]
    where
      injected : ◌≡◌ {A = Option A} (some y) (some x) → y ≡ x
      injected h = cc

  -- Nothing is found where an update makes each row that it takes fail the test.
  pub find-update_where :
      (test : A → Bool) (f : A → A) (xs : List A)
      → ((x : A) → test x ≡ true → test (f x) ≡ false)
      → find test (update_where test f xs) ≡ none
  unfolding find update_where
  find-update_where test f [] off = refl
  find-update_where test f (x ∷ xs) off = elim (Bool-cases (test x)) [
    | inl e ↦ rw e (rw (off x e) (find-update_where test f xs off))
    | inr e ↦ rw e (rw e (find-update_where test f xs off))
  ]

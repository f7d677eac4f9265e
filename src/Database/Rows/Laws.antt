-- ===== src/Database/Rows/Laws.antt =====
-- The rows of a table after an update, an insert or a delete.
use nn_friends.Prelude.{
  ◌≡◌, refl, sym, ap, subst, inl, inr, some, List, [], ◌∷◌, ◌++◌, Bool, true, not, keep, All,
  Exists, arith, Bool-cases, if◌then◌else◌,
}
use nn_friends.Database.Rows.{alter, delete, first}

module _ {A : Type 0} (p : A → Bool) where
  pub first-true : (xs : List A) (a : A) → first p xs ≡ some a → p a ≡ true
  first-true [] a h = cc
  first-true (x ∷ xs) a h = ground (arith, first-true xs a)

  pub first-Exists : (xs : List A) (a : A) → first p xs ≡ some a → Exists (λ x. x ≡ a) xs
  first-Exists [] a h = cc
  first-Exists (x ∷ xs) a h = elim (Bool-cases (p x)) [
    | inl pass ↦ inl (ground (arith, h, pass))
    | inr skip ↦
        inr (first-Exists xs a (subst (λ b. (if b then some x else first p xs) ≡ some a) skip h))
  ]

  pub keep-append : (xs ys : List A) → keep p (xs ++ ys) ≡ keep p xs ++ keep p ys
  keep-append [] ys = refl
  keep-append (x ∷ xs) ys = ground (arith, keep-append xs ys)

  pub keep-delete : (xs : List A) → keep p (delete p xs) ≡ []
  keep-delete [] = refl
  keep-delete (x ∷ xs) = ground (arith, keep-delete xs)

  pub keep-not-delete :
      (xs : List A) → keep (λ x. not (p x)) (delete p xs) ≡ keep (λ x. not (p x)) xs
  keep-not-delete [] = refl
  keep-not-delete (x ∷ xs) = ground (arith, keep-not-delete xs)

  -- An update that keeps the condition true leaves the other rows as they are.
  pub keep-not-alter :
      (f : A → A)
      → ((x : A) → p (f x) ≡ p x)
      → (xs : List A) → keep (λ x. not (p x)) (alter p f xs) ≡ keep (λ x. not (p x)) xs
  keep-not-alter f same [] = refl
  keep-not-alter f same (x ∷ xs) = ground (arith, same x, keep-not-alter f same xs)

  pub All-alter :
      (f : A → A) (Q : A → Type 0)
      → ((x : A) → Q (f x))
      → (xs : List A) → All Q (keep p (alter p f xs))
  All-alter f Q made [] = tt
  All-alter f Q made (x ∷ xs) = elim (Bool-cases (p x)) [
    | inl pass ↦ simp (pass) (elim (Bool-cases (p (f x))) [
      | inl again ↦ simp (again) (made x, All-alter f Q made xs)
      | inr lost ↦ simp (lost) (All-alter f Q made xs)
    ])
    | inr skip ↦ simp (skip) (All-alter f Q made xs)
  ]

  pub Exists-alter :
      (f : A → A) (P Q : A → Type 0)
      → ((x : A) → P x → (p x ≡ true) × Q (f x))
      → (xs : List A) → Exists P xs
      → Exists Q (alter p f xs)
  Exists-alter f P Q made [] h = h
  Exists-alter f P Q made (x ∷ xs) (inl px) =
      inl (subst (λ b. Q (if b then f x else x)) (sym (made x px).0) (made x px).1)
  Exists-alter f P Q made (x ∷ xs) (inr h) = inr (Exists-alter f P Q made xs h)

pub Exists-append :
    {A : Type 0} (Q : A → Type 0) (xs : List A) (a : A) → Q a → Exists Q (xs ++ a ∷ [])
Exists-append Q [] a h = inl h
Exists-append Q (x ∷ xs) a h = inr (Exists-append Q xs a h)

pub append_nothing : {A : Type 0} (xs : List A) → xs ++ [] ≡ xs
append_nothing [] = refl
append_nothing (x ∷ xs) = ap (λ l. x ∷ l) (append_nothing xs)

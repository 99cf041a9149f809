-- ===== src/Base/Perm.antt =====
-- Rearrangements of lists as data, and what they do to predicates and filters.
use mathlib.Core.List.{List, [], ◌∷◌, ◌++◌, Permᴰ}
use mathlib.Core.List.Permᴰ
use mathlib.Core.Path.{◌≡◌, refl, sym, subst}
use mathlib.Core.Bool.{Bool, true}
use mathlib.Core.Logic.{inl, inr}
use net_gateway_api.Base.Tests.{Bool-cases}
use net_gateway_api.Base.Lists.{All, keep}

module _ {ℓ} {A : Type ℓ} where
  pub All-permᴰ {κ} : (P : A → Type κ) {l r : List A} → Permᴰ l r → All P l → All P r
  All-permᴰ P Permᴰ.nil h = h
  All-permᴰ P (Permᴰ.cons e p) (h, hs) = (subst P e h, All-permᴰ P p hs)
  All-permᴰ P (Permᴰ.swap e f) (h, (k, hs)) = (subst P f k, (subst P e h, hs))
  All-permᴰ P (Permᴰ.trans p q) h = All-permᴰ P q (All-permᴰ P p h)

  -- The first item may go to the end.
  pub snoc-permᴰ : (x : A) (xs : List A) → Permᴰ (x ∷ xs) (xs ++ x ∷ [])
  snoc-permᴰ x [] = Permᴰ.refl (x ∷ [])
  snoc-permᴰ x (y ∷ ys) = Permᴰ.trans (Permᴰ.swap refl refl) (Permᴰ.cons refl (snoc-permᴰ x ys))

  pub append_left-permᴰ : (f : List A) {l r : List A} → Permᴰ l r → Permᴰ (f ++ l) (f ++ r)
  append_left-permᴰ [] p = p
  append_left-permᴰ (x ∷ f) p = Permᴰ.cons refl (append_left-permᴰ f p)

  keep_cons :
      (p : A → Bool) (x : A) (l r : List A)
      → Permᴰ (keep p l) (keep p r)
      → Permᴰ (keep p (x ∷ l)) (keep p (x ∷ r))
  keep_cons p x l r h = elim (Bool-cases (p x)) [
    | inl e ↦ rw e (Permᴰ.cons refl h)
    | inr e ↦ rw e h
  ]

  keep_swap :
      (p : A → Bool) (x y : A) (l : List A) → Permᴰ (keep p (x ∷ y ∷ l)) (keep p (y ∷ x ∷ l))
  keep_swap p x y l = elim (Bool-cases (p x)) [
    | inl e ↦ elim (Bool-cases (p y)) [
      | inl f ↦ rw (e, f) (Permᴰ.swap refl refl)
      | inr f ↦ rw (e, f) (Permᴰ.refl _)
    ]
    | inr e ↦ rw e (Permᴰ.refl _)
  ]

  pub keep-permᴰ : (p : A → Bool) {l r : List A} → Permᴰ l r → Permᴰ (keep p l) (keep p r)
  keep-permᴰ p Permᴰ.nil = Permᴰ.nil
  keep-permᴰ p (Permᴰ.cons {b = b} {l₁ = l} {l₂ = r} e h) =
      subst (λ x. Permᴰ (keep p (x ∷ l)) (keep p (b ∷ r))) (sym e)
        (keep_cons p b l r (keep-permᴰ p h))
  keep-permᴰ p (Permᴰ.swap {a = a} {b = b} {a' = a'} {b' = b'} {l = l} e f) =
      subst (λ x. Permᴰ (keep p (a ∷ b ∷ l)) (keep p (x ∷ b' ∷ l))) f
        (subst (λ x. Permᴰ (keep p (a ∷ b ∷ l)) (keep p (b ∷ x ∷ l))) e (keep_swap p a b l))
  keep-permᴰ p (Permᴰ.trans h k) = Permᴰ.trans (keep-permᴰ p h) (keep-permᴰ p k)

  pub keep-append : (p : A → Bool) (xs ys : List A) → keep p (xs ++ ys) ≡ keep p xs ++ keep p ys
  keep-append p [] ys = refl
  keep-append p (x ∷ xs) ys = elim (Bool-cases (p x)) [
    | inl e ↦ rw (e, keep-append p xs ys)
    | inr e ↦ rw (e, keep-append p xs ys)
  ]

  pub keep-All : (p : A → Bool) (xs : List A) → All (λ x. p x ≡ true) xs → keep p xs ≡ xs
  keep-All p [] h = refl
  keep-All p (x ∷ xs) (h, hs) = rw (h, keep-All p xs hs)

  pub All-keep : (p : A → Bool) (xs : List A) → All (λ x. p x ≡ true) (keep p xs)
  All-keep p [] = tt
  All-keep p (x ∷ xs) = elim (Bool-cases (p x)) [
    | inl e ↦ rw e (e, All-keep p xs)
    | inr e ↦ rw e (All-keep p xs)
  ]

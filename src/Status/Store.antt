-- ===== src/Status/Store.antt =====
-- The lists and maps of the `Prober`: writes through a pointer, appended objects, deleted keys.
use net_gateway_api.Base.{
  ℕ, zero, suc, ◌<◌, ◌≡◌, ◌≢◌, refl, ap, ◌∙◌, true, false, Option, none, some, List, [], ◌∷◌, ◌++◌,
  length, get_elem?, ◌==◌, if◌then◌else◌, arith,
}
use net_gateway_api.Model.Names.{
  NamespacedName, NamespacedName-discrete, deep_equal, deep_equal_iff,
}
use net_gateway_api.Status.Prober.{modify, lookup, delete}

module _ {ℓ} {A : Type ℓ} where
  abbrev pub over : (A → A) → Option A → Option A
  over f none = none
  over f (some a) = some (f a)

  pub get_elem?-modify :
      (xs : List A) (i j : ℕ) (f : A → A)
      → get_elem? (modify xs i f) j ≡ (if i == j then over f (get_elem? xs j) else get_elem? xs j)
  unfolding modify
  get_elem?-modify [] i j f = ground arith
  get_elem?-modify (x ∷ xs) zero zero f = ground arith
  get_elem?-modify (x ∷ xs) zero (suc j) f = ground arith
  get_elem?-modify (x ∷ xs) (suc i) zero f = ground arith
  get_elem?-modify (x ∷ xs) (suc i) (suc j) f = ground (arith, get_elem?-modify xs i j f)

  pub get_elem?-modify_own :
      (xs : List A) (i : ℕ) (f : A → A) (x : A)
      → get_elem? xs i ≡ some x
      → get_elem? (modify xs i f) i ≡ some (f x)
  get_elem?-modify_own xs i f x h = get_elem?-modify xs i i f ∙ ground (arith, h)

  pub get_elem?-modify_other :
      (xs : List A) (i j : ℕ) (f : A → A)
      → (i == j) ≡ false
      → get_elem? (modify xs i f) j ≡ get_elem? xs j
  get_elem?-modify_other xs i j f h = get_elem?-modify xs i j f ∙ ground (arith, h)

  pub length-modify : (xs : List A) (i : ℕ) (f : A → A) → length (modify xs i f) ≡ length xs
  unfolding modify
  length-modify [] i f = refl
  length-modify (x ∷ xs) zero f = refl
  length-modify (x ∷ xs) (suc i) f = ap suc (length-modify xs i f)

  pub get_elem?-append_left :
      (xs ys : List A) (i : ℕ) → i < length xs → get_elem? (xs ++ ys) i ≡ get_elem? xs i
  get_elem?-append_left [] ys i h = absurd (omega (arith, h))
  get_elem?-append_left (x ∷ xs) ys zero h = refl
  get_elem?-append_left (x ∷ xs) ys (suc i) h = get_elem?-append_left xs ys i (omega (arith, h))

  pub get_elem?-snoc :
      (xs : List A) (x : A) (i : ℕ)
      → get_elem? (xs ++ x ∷ []) i ≡ (if length xs == i then some x else get_elem? xs i)
  get_elem?-snoc [] x zero = ground arith
  get_elem?-snoc [] x (suc i) = ground arith
  get_elem?-snoc (y ∷ xs) x zero = ground arith
  get_elem?-snoc (y ∷ xs) x (suc i) = ground (arith, get_elem?-snoc xs x i)

  pub get_elem?_end : (xs : List A) → get_elem? xs (length xs) ≡ none
  get_elem?_end [] = refl
  get_elem?_end (x ∷ xs) = get_elem?_end xs

  -- The object that is made last.
  pub get_elem?-last : (xs : List A) (x : A) → get_elem? (xs ++ x ∷ []) (length xs) ≡ some x
  get_elem?-last [] x = refl
  get_elem?-last (y ∷ xs) x = get_elem?-last xs x

module _ {ℓ} {V : Type ℓ} where
  pub lookup-delete :
      (k j : NamespacedName) (m : List (NamespacedName × V))
      → k ≢ j
      → lookup k (delete j m) ≡ lookup k m
  unfolding lookup delete
  lookup-delete k j [] h = refl
  lookup-delete k j ((i, v) ∷ m) h = ground (
    arith,
    lookup-delete k j m h,
    deep_equal_iff NamespacedName-discrete i k,
    deep_equal_iff NamespacedName-discrete i j,
  )

  pub lookup-cons :
      (k : NamespacedName) (v : V) (m : List (NamespacedName × V)) → lookup k ((k, v) ∷ m) ≡ some v
  unfolding lookup
  lookup-cons k v m = ground (arith, deep_equal_iff NamespacedName-discrete k k)

  pub lookup-nil : (k : NamespacedName) → ◌≡◌ {A = Option V} (lookup k []) none
  unfolding lookup
  lookup-nil k = refl

  pub lookup-head :
      (j k : NamespacedName) (v : V) (m : List (NamespacedName × V))
      → deep_equal NamespacedName-discrete j k ≡ true
      → lookup k ((j, v) ∷ m) ≡ some v
  unfolding lookup
  lookup-head j k v m e = rw e

  pub lookup-tail :
      (j k : NamespacedName) (v : V) (m : List (NamespacedName × V))
      → deep_equal NamespacedName-discrete j k ≡ false
      → lookup k ((j, v) ∷ m) ≡ lookup k m
  unfolding lookup
  lookup-tail j k v m e = rw e

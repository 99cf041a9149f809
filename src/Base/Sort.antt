-- ===== src/Base/Sort.antt =====
-- Go's `slices.Sort`, `slices.SortFunc` and `sort.Sort` over a Boolean "not after", by insertion.
-- Where no two items tie, the sorted list does not depend on the order of the input, so any
-- sorting algorithm gives this list.
use mathlib.Core.List.{List, [], ◌∷◌, map, Permᴰ}
use mathlib.Core.List.Permᴰ
use mathlib.Core.Path.{◌≡◌, refl, ap, ap₂, subst, ◌∙◌}
use mathlib.Core.Bool.{Bool, true, false, ◌||◌}
use mathlib.Core.Option.{some}
use native.Mathlib.Omega.{arith}
use net_gateway_api.Base.Tests.{if◌then◌else◌, Bool-cases}
use mathlib.Core.Logic.{inl, inr}
use net_gateway_api.Base.Perm.{All-permᴰ}
use net_gateway_api.Base.Lists.{All, last?, any}

-- A total preorder, as the comparison functions of the program are.
pub record IsOrder {ℓ} {A : Type ℓ} (le : A → A → Bool) : Type ℓ where
  pub total : (x y : A) → le x y ≡ false → le y x ≡ true
  pub trans : (x y z : A) → le x y ≡ true → le y z ≡ true → le x z ≡ true

module _ {ℓ} {A : Type ℓ} (le : A → A → Bool) where
  unfoldable pub insert_sorted : A → List A → List A
  insert_sorted x [] = x ∷ []
  insert_sorted x (y ∷ ys) = if le x y then x ∷ y ∷ ys else y ∷ insert_sorted x ys

  unfoldable pub sort : List A → List A
  unfolding insert_sorted
  sort [] = []
  sort (x ∷ xs) = insert_sorted x (sort xs)

  abbrev pub Ascending : List A → Type ℓ
  Ascending [] = Unit
  Ascending (x ∷ xs) = All (λ y. le x y ≡ true) xs × Ascending xs

  -- No two items tie.
  abbrev pub Untied : List A → Type ℓ
  Untied [] = Unit
  Untied (x ∷ xs) = All (λ y. le x y ≡ true → le y x ≡ true → ⊥) xs × Untied xs

module _ {ℓ} {A : Type ℓ} (le : A → A → Bool) (o : IsOrder le) where
  insert_sorted_comm :
      (x y : A) (l : List A)
      → (le x y ≡ true → le y x ≡ true → ⊥)
      → insert_sorted le x (insert_sorted le y l) ≡ insert_sorted le y (insert_sorted le x l)
  unfolding insert_sorted
  insert_sorted_comm x y [] h = ground (arith, o.total x y)
  insert_sorted_comm x y (z ∷ zs) h = ground (
    arith,
    insert_sorted_comm x y zs h,
    o.total x y,
    o.total x z,
    o.total y z,
    o.trans x z y,
    o.trans y z x,
    o.trans x y z,
    o.trans y x z,
  )

  All-insert_sorted {κ} :
      (P : A → Type κ) (x : A) (l : List A) → P x → All P l → All P (insert_sorted le x l)
  unfolding insert_sorted
  All-insert_sorted P x [] h hs = (h, tt)
  All-insert_sorted P x (y ∷ ys) h hs = elim (Bool-cases (le x y)) [
    | inl e ↦ rw e (h, hs)
    | inr e ↦ rw e (hs.0, All-insert_sorted P x ys h hs.1)
  ]

  pub All-sort {κ} : (P : A → Type κ) (l : List A) → All P l → All P (sort le l)
  unfolding sort
  All-sort P [] hs = tt
  All-sort P (x ∷ xs) (h, hs) = All-insert_sorted P x (sort le xs) h (All-sort P xs hs)

  le-All :
      (x y : A) (ys : List A)
      → le x y ≡ true
      → All (λ z. le y z ≡ true) ys
      → All (λ z. le x z ≡ true) ys
  le-All x y [] h hs = tt
  le-All x y (z ∷ zs) h (k, hs) = (o.trans x y z h k, le-All x y zs h hs)

  insert_sorted-Ascending :
      (x : A) (l : List A) → Ascending le l → Ascending le (insert_sorted le x l)
  unfolding insert_sorted
  insert_sorted-Ascending x [] s = (tt, tt)
  insert_sorted-Ascending x (y ∷ ys) (below, s) = elim (Bool-cases (le x y)) [
    | inl e ↦ rw e ((e, le-All x y ys e below), (below, s))
    | inr e ↦ rw e (
      All-insert_sorted (λ z. le y z ≡ true) x ys (o.total x y e) below,
      insert_sorted-Ascending x ys s,
    )
  ]

  pub sort-Ascending : (l : List A) → Ascending le (sort le l)
  unfolding sort
  sort-Ascending [] = tt
  sort-Ascending (x ∷ xs) = insert_sorted-Ascending x (sort le xs) (sort-Ascending xs)

last-cons {ℓ} : {A : Type ℓ} (x : A) (xs : List A) → (y : A) × (last? (x ∷ xs) ≡ some y)
last-cons x [] = (x, refl)
last-cons x (y ∷ ys) = last-cons y ys

module _ {ℓ} {A : Type ℓ} (le : A → A → Bool) where
  insert_sorted-permᴰ : (x : A) (l : List A) → Permᴰ (insert_sorted le x l) (x ∷ l)
  unfolding insert_sorted
  insert_sorted-permᴰ x [] = Permᴰ.refl (x ∷ [])
  insert_sorted-permᴰ x (y ∷ ys) = elim (Bool-cases (le x y)) [
    | inl e ↦ rw e (Permᴰ.refl (x ∷ y ∷ ys))
    | inr e ↦ rw e (Permᴰ.trans (Permᴰ.cons refl (insert_sorted-permᴰ x ys)) (Permᴰ.swap refl refl))
  ]

  sort-cons-insert :
      (x : A) (l : List A) → (y : A) × (ys : List A) × (insert_sorted le x l ≡ y ∷ ys)
  unfolding insert_sorted
  sort-cons-insert x [] = (x, [], refl)
  sort-cons-insert x (y ∷ ys) = elim (Bool-cases (le x y)) [
    | inl e ↦ (x, y ∷ ys, rw e)
    | inr e ↦ (y, insert_sorted le x ys, rw e)
  ]

  -- A list that is not empty has a last item when sorted.
  pub last-sort : (x : A) (xs : List A) → (y : A) × (last? (sort le (x ∷ xs)) ≡ some y)
  unfolding sort
  last-sort x xs =
      let (y, ys, e) = sort-cons-insert x (sort le xs) in let (z, f) = last-cons y ys in (z, rw e f)

  pub sort-permᴰ : (l : List A) → Permᴰ (sort le l) l
  unfolding sort
  sort-permᴰ [] = Permᴰ.nil
  sort-permᴰ (x ∷ xs) =
      Permᴰ.trans (insert_sorted-permᴰ x (sort le xs)) (Permᴰ.cons refl (sort-permᴰ xs))

  abbrev Apart : A → A → Type 0
  Apart x y = le x y ≡ true → le y x ≡ true → ⊥

  Untied-permᴰ : {l r : List A} → Permᴰ l r → Untied le l → Untied le r
  Untied-permᴰ Permᴰ.nil h = h
  Untied-permᴰ (Permᴰ.cons {l₂ = r} e p) (h, u) =
      (subst (λ x. All (Apart x) r) e (All-permᴰ _ p h), Untied-permᴰ p u)
  Untied-permᴰ (Permᴰ.swap {a = a} {a' = a'} {l = l} e f) ((hab, ha), (hb, u)) = (
    (
      subst (λ x. Apart a' x) e (subst (λ x. Apart x a) f (λ p q. hab q p)),
      subst (λ x. All (Apart x) l) f hb,
    ),
    (subst (λ x. All (Apart x) l) e ha, u),
  )
  Untied-permᴰ (Permᴰ.trans p q) u = Untied-permᴰ q (Untied-permᴰ p u)

  -- The sorted list is a function of the items alone, where none tie.
  pub sort-eq_of_permᴰ :
      {l r : List A} → IsOrder le → Permᴰ l r → Untied le l → sort le l ≡ sort le r
  unfolding sort
  sort-eq_of_permᴰ o Permᴰ.nil u = refl
  sort-eq_of_permᴰ o (Permᴰ.cons e p) (h, u) = ap₂ (insert_sorted le) e (sort-eq_of_permᴰ o p u)
  sort-eq_of_permᴰ o (Permᴰ.swap {a = a} {b = b} {l = l} e f) ((hab, ha), (hb, u)) =
      insert_sorted_comm le o a b (sort le l) hab
      ∙ ap₂ (λ x y. insert_sorted le x (insert_sorted le y (sort le l))) f e
  sort-eq_of_permᴰ o (Permᴰ.trans p q) u =
      sort-eq_of_permᴰ o p u ∙ sort-eq_of_permᴰ o q (Untied-permᴰ p u)

module _ {ℓ} {A : Type ℓ} (le : A → A → Bool) where
  insert_sorted-first :
      (x : A) (l : List A) → All (λ y. le x y ≡ true) l → insert_sorted le x l ≡ x ∷ l
  unfolding insert_sorted
  insert_sorted-first x [] h = refl
  insert_sorted-first x (y ∷ ys) (h, hs) = rw h refl

  -- A list in order stays as it is.
  pub sort_self : (l : List A) → Ascending le l → sort le l ≡ l
  unfolding sort
  sort_self [] s = refl
  sort_self (x ∷ xs) (h, s) = rw (sort_self xs s) (insert_sorted-first x xs h)

pub map-permᴰ {ℓ κ} :
    {A : Type ℓ} {B : Type κ} (f : A → B) {l r : List A} → Permᴰ l r → Permᴰ (map f l) (map f r)
map-permᴰ f Permᴰ.nil = Permᴰ.nil
map-permᴰ f (Permᴰ.cons e p) = Permᴰ.cons (ap f e) (map-permᴰ f p)
map-permᴰ f (Permᴰ.swap e g) = Permᴰ.swap (ap f e) (ap f g)
map-permᴰ f (Permᴰ.trans p q) = Permᴰ.trans (map-permᴰ f p) (map-permᴰ f q)

-- Every earlier item is related to every later one.
abbrev pub Pairs {ℓ} : {A : Type ℓ} → (A → A → Type 0) → List A → Type 0
Pairs R [] = Unit
Pairs R (x ∷ xs) = All (R x) xs × Pairs R xs

module _ {ℓ κ} {A : Type ℓ} {B : Type κ} (le : B → B → Bool) (f : A → B) (R : A → A → Type 0) where
  All-apart :
      ((x y : A) → R x y → le (f x) (f y) ≡ true → le (f y) (f x) ≡ true → ⊥)
      → (x : A) (l : List A) → All (R x) l
      → All (λ y. le (f x) y ≡ true → le y (f x) ≡ true → ⊥) (map f l)
  All-apart h x [] r = tt
  All-apart h x (y ∷ ys) (r, rs) = (h x y r, All-apart h x ys rs)

  pub Untied-map :
      ((x y : A) → R x y → le (f x) (f y) ≡ true → le (f y) (f x) ≡ true → ⊥)
      → (l : List A) → Pairs R l
      → Untied le (map f l)
  Untied-map h [] r = tt
  Untied-map h (x ∷ xs) (r, rs) = (All-apart h x xs r, Untied-map h xs rs)

module _ {ℓ} {A : Type ℓ} where
  -- The last item of an ascending list is not before any other.
  pub last-ge :
      (le : A → A → Bool) (l : List A) {x : A}
      → IsOrder le
      → Ascending le l
      → last? l ≡ some x
      → All (λ y. le y x ≡ true) l
  last-ge le [] o s e = tt
  last-ge le (y ∷ []) {x} o s e = (ground (arith, o.total y y), tt)
  last-ge le (y ∷ z ∷ zs) {x} o (below, s) e =
      let rest = last-ge le (z ∷ zs) o s e in (o.trans y z x below.0 rest.0, rest)

-- What is true of some item is true of some item after the sort.
any-insert_sorted {ℓ} :
    {A : Type ℓ} (le : A → A → Bool) (p : A → Bool) (x : A) (xs : List A)
    → any p (insert_sorted le x xs) ≡ (p x || any p xs)
unfolding insert_sorted
any-insert_sorted le p x [] = refl
any-insert_sorted le p x (y ∷ ys) = elim (Bool-cases (le x y)) [
  | inl e ↦ rw e refl
  | inr e ↦ rw e (ground (arith, any-insert_sorted le p x ys))
]

pub any-sort {ℓ} :
    {A : Type ℓ} (le : A → A → Bool) (p : A → Bool) (xs : List A) → any p (sort le xs) ≡ any p xs
unfolding sort
any-sort le p [] = refl
any-sort le p (x ∷ xs) =
    any-insert_sorted le p x (sort le xs) ∙ ap (λ b. p x || b) (any-sort le p xs)

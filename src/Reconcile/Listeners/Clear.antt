-- ===== src/Reconcile/Listeners/Clear.antt =====
-- `clearGatewayListeners` removes the listeners of one Ingress and no other.
use mathlib.Core.List.{Permᴰ, append_assoc, append-nil}
use mathlib.Core.List.Permᴰ
use Prim.Native.Nat.add
use mathlib.Core.Path.{subst}
use native.Mathlib.Nat.{zero-add}
use net_gateway_api.Base.{
  ℕ, zero, suc, ◌+◌, ◌-◌, String, ◌≡◌, refl, sym, ap, ◌∙◌, Bool, true, not, some, List, [], ◌∷◌,
  ◌++◌, length, get_elem?, set, take, last?, All, keep, Result, ok, arith, Bool-cases, inl, inr,
  length-append,
}
use net_gateway_api.Base.Perm.{
  All-permᴰ, snoc-permᴰ, append_left-permᴰ, keep-permᴰ, keep-append, keep-All, All-keep,
}
use net_gateway_api.Base.Text.{◌=s◌}
use net_gateway_api.Model.Gateway.{Listener}
use net_gateway_api.Reconcile.Listeners.{swap_remove, clear_loop, clear_listeners}

module _ {ℓ} {A : Type ℓ} where
  snoc_view :
      (n : ℕ) (xs : List A)
      → length xs ≡ suc n
      → (ys : List A) × (y : A) × (xs ≡ ys ++ y ∷ []) × (length ys ≡ n)
  snoc_view n [] h = absurd (omega arith)
  snoc_view zero (x ∷ []) h = ([], x, refl, refl)
  snoc_view zero (x ∷ y ∷ ys) h = absurd (omega arith)
  snoc_view (suc n) (x ∷ xs) h =
      let (ys, y, e, l) = snoc_view n xs (omega arith) in (x ∷ ys, y, ap (◌∷◌ x) e, ap suc l)

  get-append : (f : List A) (x : A) (b : List A) → get_elem? (f ++ x ∷ b) (length f) ≡ some x
  get-append [] x b = refl
  get-append (y ∷ f) x b = get-append f x b

  set-append : (f : List A) (x v : A) (b : List A) → set (f ++ x ∷ b) (length f) v ≡ f ++ v ∷ b
  set-append [] x v b = refl
  set-append (y ∷ f) x v b = ap (◌∷◌ y) (set-append f x v b)

  last-append : (f : List A) (x : A) (b : List A) → last? (f ++ x ∷ b) ≡ last? (x ∷ b)
  last-append [] x b = refl
  last-append (y ∷ []) x b = refl
  last-append (y ∷ z ∷ f) x b = last-append (z ∷ f) x b

  take-append : (f b : List A) (n : ℕ) → take (length f + n) (f ++ b) ≡ f ++ take n b
  take-append [] b n = rw zero-add
  take-append (x ∷ f) b n = rw add.suc (ap (◌∷◌ x) (take-append f b n))

  -- All but the last item, and the last.
  init_last :
      (y : A) (ys : List A)
      → (z : A) × (last? (y ∷ ys) ≡ some z) × (take (length ys) (y ∷ ys) ++ z ∷ [] ≡ y ∷ ys)
  init_last y [] = (y, refl, refl)
  init_last y (x ∷ xs) = let (z, l, e) = init_last x xs in (z, l, ap (◌∷◌ y) e)

  -- What the swap and the cut leave behind the place of the removed item.
  swap_remove-append_rest : A → List A → List A
  swap_remove-append_rest x [] = []
  swap_remove-append_rest x (y ∷ ys) = (init_last y ys).0 ∷ take (length ys) (y ∷ ys)

  rest-permᴰ : (x : A) (b : List A) → Permᴰ (swap_remove-append_rest x b) b
  unfolding swap_remove-append_rest
  rest-permᴰ x [] = Permᴰ.nil
  rest-permᴰ x (y ∷ ys) =
      let (z, l, e) = init_last y ys in
      subst (Permᴰ (z ∷ take (length ys) (y ∷ ys))) e (snoc-permᴰ z (take (length ys) (y ∷ ys)))

swap_remove_at :
    (f : List Listener) (x z : Listener) (b : List Listener)
    → last? (x ∷ b) ≡ some z
    → swap_remove (f ++ x ∷ b) (length f) ≡ ok (f ++ take (length b) (z ∷ b))
unfolding swap_remove
swap_remove_at f x z b e =
    let cut : length (f ++ x ∷ b) - 1 ≡ length f + length b =
      omega (arith, length-append f (x ∷ b)) in
    rw (last-append f x b ∙ e, swap_remove)
      (rw (cut, set-append f x z b) (ap ok (take-append f (z ∷ b) (length b))))

-- Removing the item at a place swaps the last one in: what stands before it stays, and what
-- stands behind it is rearranged.
swap_remove-append :
    (f : List Listener) (x : Listener) (b : List Listener)
    → swap_remove (f ++ x ∷ b) (length f) ≡ ok (f ++ swap_remove-append_rest x b)
unfolding swap_remove-append_rest
swap_remove-append f x [] = swap_remove_at f x x [] refl
swap_remove-append f x (y ∷ ys) = let (z, l, e) = init_last y ys in swap_remove_at f x z (y ∷ ys) l

-- The listeners that are to stay.
abbrev pub others : String → Listener → Bool
others name l = not (l.name =s name)

-- The outcome of the loop on a list that it has cleared from some place on.
abbrev Cleared : String → List Listener → Result (List Listener) → Type 0
Cleared name xs r = (ys : List Listener) × (r ≡ ok ys) × Permᴰ ys (keep (others name) xs)

keep-rest :
    (name : String) (f : List Listener) (x : Listener) (b : List Listener) {ys : List Listener}
    → (x.name =s name) ≡ true
    → Permᴰ ys (keep (others name) (f ++ swap_remove-append_rest x b))
    → Permᴰ ys (keep (others name) (f ++ x ∷ b))
keep-rest name f x b {ys} hit p =
    let moved = append_left-permᴰ f (rest-permᴰ x b) in
    let rest : keep (others name) (f ++ x ∷ b) ≡ keep (others name) (f ++ b) =
      rw (keep-append (others name) f (x ∷ b), keep-append (others name) f b, hit) in
    subst (Permᴰ ys) (sym rest) (Permᴰ.trans p (keep-permᴰ (others name) moved))

-- One round of the loop, before which the items behind place `length f` are cleared.
clear_round :
    (name : String) (f : List Listener) (x : Listener) (b : List Listener)
    → ((c : List Listener)
        → All (λ l. others name l ≡ true) c
        → Cleared name (f ++ c) (clear_loop (length f) name (f ++ c)))
    → All (λ l. others name l ≡ true) b
    → Cleared name (f ++ x ∷ b) (clear_loop (suc (length f)) name (f ++ x ∷ b))
unfolding clear_loop
clear_round name f x b next clean = elim (Bool-cases (x.name =s name)) [
  | inl hit ↦
      let (ys, e, p) =
        next (swap_remove-append_rest x b) (All-permᴰ _ (Permᴰ.symm (rest-permᴰ x b)) clean) in
      (
        ys,
        rw (get-append f x b, clear_loop) (rw hit (rw (swap_remove-append f x b) e)),
        keep-rest name f x b hit p,
      )
  | inr miss ↦
      let (ys, e, p) = next (x ∷ b) (rw miss refl, clean) in
      (ys, rw (get-append f x b, clear_loop) (rw miss e), p)
]

clear_loop-Cleared :
    (n : ℕ) (name : String) (f b : List Listener)
    → length f ≡ n
    → All (λ l. others name l ≡ true) b
    → Cleared name (f ++ b) (clear_loop n name (f ++ b))
clear_loop-Cleared zero name [] b h clean = (
  b,
  unfold clear_loop in refl,
  subst (Permᴰ b) (sym (keep-All (others name) b clean)) (Permᴰ.refl b),
)
clear_loop-Cleared zero name (x ∷ f) b h clean = absurd (omega arith)
clear_loop-Cleared (suc n) name xs b h clean =
    let (f, x, e, l) = snoc_view n xs h in
    let whole : xs ++ b ≡ f ++ x ∷ b = ap (λ l. l ++ b) e ∙ append_assoc f (x ∷ []) b in
    let next : (c : List Listener)
        → All (λ l. others name l ≡ true) c
        → Cleared name (f ++ c) (clear_loop (length f) name (f ++ c)) =
      λ c hc.
        subst (λ k. Cleared name (f ++ c) (clear_loop k name (f ++ c))) (sym l)
          (clear_loop-Cleared n name f c l hc) in
    subst (λ l. Cleared name l (clear_loop (suc n) name l)) (sym whole)
      (subst (λ k. Cleared name (f ++ x ∷ b) (clear_loop (suc k) name (f ++ x ∷ b))) l
        (clear_round name f x b next clean))

-- Clearing the listeners of a name never goes out of range. It leaves, in some order, exactly the
-- listeners of other names.
pub clear_listeners-perm :
    (name : String) (xs : List Listener)
    → (ys : List Listener) × (clear_listeners name xs ≡ ok ys)
      × Permᴰ ys (keep (others name) xs)
      × All (λ l. others name l ≡ true) ys
unfolding clear_listeners
clear_listeners-perm name xs =
    let all : xs ++ [] ≡ xs = append-nil xs in
    let (ys, e, p) =
      subst (λ l. Cleared name l (clear_loop (length xs) name l)) all
        (clear_loop-Cleared (length xs) name xs [] refl tt) in
    (ys, e, p, All-permᴰ _ (Permᴰ.symm p) (All-keep (others name) xs))

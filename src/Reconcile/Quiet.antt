-- ===== src/Reconcile/Quiet.antt =====
-- Actions of pkg/reconciler/ingress that do not mark a load balancer as ready.
use net_gateway_api.Base.{
  ℕ, ◌+◌, String, ◌≡◌, refl, ◌∙◌, Bool, true, false, List, [], ◌∷◌, ◌++◌, arith, if◌then◌else◌,
  Result, ok, err, panic,
}
use net_gateway_api.Reconcile.World.{
  World, Act, follow, ◌>>=◌, lift, mark, call, answer, Mark, initialize_conditions,
  network_configured, ingress_not_ready, load_balancer_ready, load_balancer_not_ready,
  load_balancer_failed,
}

abbrev pub readiness : Mark → ℕ
readiness initialize_conditions = 0
readiness network_configured = 0
readiness (ingress_not_ready reason message) = 0
readiness (load_balancer_ready external internal) = 1
readiness load_balancer_not_ready = 0
readiness (load_balancer_failed reason message) = 0

-- How often a load balancer was marked as ready.
abbrev pub readies : List Mark → ℕ
readies [] = 0
readies (k ∷ ks) = readiness k + readies ks

pub readies-append : (ks ls : List Mark) → readies (ks ++ ls) ≡ readies ks + readies ls
readies-append [] ls = omega arith
readies-append (k ∷ ks) ls = omega (arith, readies-append ks ls)

module _ {S P : Type 0} where
  abbrev pub Quiet : {A : Type 0} → Act S P A → Type 0
  Quiet m = (w : World S P) → readies (m w).0.marks ≡ readies w.marks

  pub follow-Quiet :
      {A B : Type 0} (k : A → Act S P B) (n : ℕ) (p : World S P × Result A)
      → ((a : A) → Quiet (k a))
      → readies p.0.marks ≡ n
      → readies (follow p k).0.marks ≡ n
  follow-Quiet k n (w, ok a) q h = q a w ∙ h
  follow-Quiet k n (w, err e) q h = h
  follow-Quiet k n (w, panic m) q h = h

  pub >>=-Quiet :
      {A B : Type 0} (m : Act S P A) (k : A → Act S P B)
      → Quiet m
      → ((a : A) → Quiet (k a))
      → Quiet (m >>= k)
  >>=-Quiet m k h q w = follow-Quiet k (readies w.marks) (m w) q (h w)

  pub mark-Quiet : (k : Mark) → readiness k ≡ 0 → Quiet (mark k)
  mark-Quiet k h w = omega (arith, readies-append w.marks (k ∷ []), h)

  answer-Quiet :
      {A : Type 0} (reason message : String) (w : World S P) (p : S × Result A)
      → readies (answer reason message w p).0.marks ≡ readies w.marks
  answer-Quiet reason message w (s, ok a) = refl
  answer-Quiet reason message w (s, err e) = refl
  answer-Quiet reason message w (s, panic m) = refl

  pub call-Quiet :
      {A : Type 0} (f : S → S × Result A) (reason message : String) → Quiet (call f reason message)
  call-Quiet f reason message w = answer-Quiet reason message w (f w.cluster)

  pub if-Quiet :
      {A : Type 0} (b : Bool) (m n : Act S P A) → Quiet m → Quiet n → Quiet (if b then m else n)
  if-Quiet true m n h k = h
  if-Quiet false m n h k = k

  pub lift-Quiet :
      {A B : Type 0} (r : Result A) (k : A → Act S P B)
      → ((a : A) → Quiet (k a))
      → Quiet (lift r >>= k)
  lift-Quiet r k q = >>=-Quiet (lift r) k (λ w. refl) q

  pub call-then-Quiet :
      {A B : Type 0} (f : S → S × Result A) (reason message : String) (k : A → Act S P B)
      → ((a : A) → Quiet (k a))
      → Quiet (call f reason message >>= k)
  call-then-Quiet f reason message k q =
      >>=-Quiet (call f reason message) k (call-Quiet f reason message) q

-- ===== src/Status/Counters.antt =====
-- The counters of pkg/status/status.go: a route state counts its pods, a pod state its work items,
-- and the callback is called when the first count reaches 0.
pub mod Pods
pub mod Steps
pub mod Runs
use mathlib.Core.Option.{some-injective}
use mathlib.Core.Path.{subst}
use net_gateway_api.Base.{
  ℕ, zero, suc, ◌+◌, ◌≤◌, String, ◌≡◌, ◌≢◌, refl, sym, ap, ◌∙◌, Bool, true, false, ◌&&◌, Option,
  none, some, List, [], ◌∷◌, ◌++◌, length, get_elem?, ◌==◌, if◌then◌else◌, arith, ◌⊎◌, inl, inr,
  Bool-cases, Option-cases, Result, ok, err, panic,
}
use net_gateway_api.Base.Int.{ℤ, pos, negsuc, decrement, is_zero, is_positive}
use net_gateway_api.Model.Names.{NamespacedName}
use net_gateway_api.Status.Prober.{RouteState, PodState, Prober, modify}
use net_gateway_api.Status.Events.{finish_pod}
use net_gateway_api.Status.Store.{
  over, get_elem?-modify, get_elem?-modify_own, get_elem?-modify_other,
}

-- Whether a pod state counts for a route state.
abbrev pub weight : ℕ → PodState → ℕ
weight id p = if p.route == id && is_positive p.pending_count then 1 else 0

-- The pods of a route state that are still probed.
abbrev pub active : ℕ → List PodState → ℕ
active id [] = 0
active id (p ∷ ps) = weight id p + active id ps

-- How often a route state was called back for.
abbrev pub calls : ℕ → List (ℕ × NamespacedName) → ℕ
calls id [] = 0
calls id ((i, k) ∷ cs) = (if i == id then 1 else 0) + calls id cs

abbrev pub sign : ℕ → ℕ
sign zero = 0
sign (suc n) = 1

pub sign_le : (n : ℕ) → sign n ≤ 1
sign_le zero = omega arith
sign_le (suc n) = omega arith

-- A route state counts the pods that are still probed; one whose pods are still probed was not
-- called back for, and none was called back for twice.
abbrev pub Counted : Option RouteState → ℕ → ℕ → Type 0
Counted none a c = (a ≡ 0) × (c ≡ 0)
Counted (some r) a c = (r.pending_count ≡ pos a) × (c + sign a ≤ 1)

abbrev pub CountsOf : Prober → ℕ → Type 0
CountsOf m id = Counted (get_elem? m.routes id) (active id m.pods) (calls id m.callbacks)

abbrev pub IsCounted : Prober → Type 0
IsCounted m = (id : ℕ) → CountsOf m id

abbrev pub one_more : Bool → ℕ → ℕ
one_more true n = suc n
one_more false n = n

-- One pod of route state `j` is done, and is not yet taken from its count.
abbrev pub Owes : ℕ → Prober → Type 0
Owes j m =
    (id : ℕ)
    → Counted (get_elem? m.routes id) (one_more (j == id) (active id m.pods)) (calls id m.callbacks)

pub active-modify :
    (id p : ℕ) (f : PodState → PodState) (pods : List PodState) (pod : PodState)
    → get_elem? pods p ≡ some pod
    → active id (modify pods p f) + weight id pod ≡ active id pods + weight id (f pod)
unfolding modify
active-modify id p f [] pod h = cc
active-modify id zero f (x ∷ pods) pod h = rw (some-injective x pod h) (omega arith)
active-modify id (suc p) f (x ∷ pods) pod h = omega (arith, active-modify id p f pods pod h)

calls-snoc :
    (id i : ℕ) (k : NamespacedName) (cs : List (ℕ × NamespacedName))
    → calls id (cs ++ (i, k) ∷ []) ≡ calls id cs + (if i == id then 1 else 0)
calls-snoc id i k [] = omega arith
calls-snoc id i k ((j, l) ∷ cs) = omega (arith, calls-snoc id i k cs)

pub over-Counted :
    (f : RouteState → RouteState)
    → ((r : RouteState) → (f r).pending_count ≡ r.pending_count)
    → (o : Option RouteState) (a c : ℕ) → Counted o a c
    → Counted (over f o) a c
over-Counted f e none a c h = h
over-Counted f e (some r) a c (p, h) = (e r ∙ p, h)

-- A write to a route state that leaves its count.
pub modify-IsCounted :
    (m : Prober) (i : ℕ) (f : RouteState → RouteState)
    → ((r : RouteState) → (f r).pending_count ≡ r.pending_count)
    → IsCounted m
    → IsCounted (record m { routes = modify m.routes i f })
modify-IsCounted m i f e h id = rw (get_elem?-modify m.routes i id f) (
    ground (
      arith,
      h id,
      over-Counted f e (get_elem? m.routes id) (active id m.pods) (calls id m.callbacks),
    ))

abbrev none_left : ℕ → Bool
none_left zero = true
none_left (suc n) = false

-- The calls once a count has come to `a`.
abbrev called : ℕ → ℕ → NamespacedName → List (ℕ × NamespacedName) → List (ℕ × NamespacedName)
called a j k cs = if none_left a then cs ++ ((j, k) ∷ []) else cs

called_own :
    (a j : ℕ) (k : NamespacedName) (cs : List (ℕ × NamespacedName))
    → calls j cs ≡ 0
    → calls j (called a j k cs) + sign a ≤ 1
called_own zero j k cs h = ground (arith, calls-snoc j j k cs, h)
called_own (suc a) j k cs h = omega (arith, h)

called_other :
    (id a j : ℕ) (k : NamespacedName) (cs : List (ℕ × NamespacedName))
    → (j == id) ≡ false
    → calls id (called a j k cs) ≡ calls id cs
called_other id zero j k cs h = ground (arith, calls-snoc id j k cs, h)
called_other id (suc a) j k cs h = refl

-- `finish_pod` for a route state that counts `a + 1` pods.
unfoldable pub finished : ℕ → ℕ → RouteState → Prober → Prober
finished j a r m = record m {
  routes = modify m.routes j (λ r. record r { pending_count = pos a });
  callbacks = called a j r.callback_key m.callbacks;
}

pub finish_pod-finished :
    (j a : ℕ) (r : RouteState) (m : Prober)
    → get_elem? m.routes j ≡ some r
    → r.pending_count ≡ pos (suc a)
    → finish_pod j m ≡ finished j a r m
unfolding finish_pod finished
finish_pod-finished j zero r m g e = rw (g, finish_pod, e) refl
finish_pod-finished j (suc a) r m g e = rw (g, finish_pod, e) refl

some-Counted :
    (o : Option RouteState) (r : RouteState) (a c : ℕ)
    → o ≡ some r
    → Counted o a c
    → (r.pending_count ≡ pos a) × (c + sign a ≤ 1)
some-Counted none r a c e h = cc
some-Counted (some s) r a c e h = rw (sym (some-injective s r e)) h

pub none-Counted : (o : Option RouteState) (a c : ℕ) → o ≡ none → Counted o a c → (a ≡ 0) × (c ≡ 0)
none-Counted none a c e h = h
none-Counted (some s) a c e h = cc

pub itself : (j : ℕ) → (j == j) ≡ true
itself j = ground arith

-- What is owed for the route state itself.
pub owed :
    (j : ℕ) (r : RouteState) (m : Prober)
    → get_elem? m.routes j ≡ some r
    → Owes j m
    → (r.pending_count ≡ pos (suc (active j m.pods))) × (calls j m.callbacks ≡ 0)
owed j r m g h =
    let owes : Counted (get_elem? m.routes j) (suc (active j m.pods)) (calls j m.callbacks) =
      subst
        (λ b. Counted (get_elem? m.routes j) (one_more b (active j m.pods)) (calls j m.callbacks))
        (itself j) (h j) in
    let (p, c) =
      some-Counted (get_elem? m.routes j) r (suc (active j m.pods)) (calls j m.callbacks) g owes in
    (p, omega (arith, c))

finished_own :
    (j : ℕ) (r : RouteState) (m : Prober)
    → get_elem? m.routes j ≡ some r
    → calls j m.callbacks ≡ 0
    → CountsOf (finished j (active j m.pods) r m) j
unfolding finished
finished_own j r m g c =
    rw
      (get_elem?-modify_own m.routes j (λ r. record r { pending_count = pos (active j m.pods) }) r
        g)
      (refl, called_own (active j m.pods) j r.callback_key m.callbacks c)

finished_other :
    (id j a : ℕ) (r : RouteState) (m : Prober)
    → (j == id) ≡ false
    → Owes j m
    → CountsOf (finished j a r m) id
unfolding finished
finished_other id j a r m e h =
    rw (get_elem?-modify_other m.routes j id (λ r. record r { pending_count = pos a }) e) (
      rw (called_other id a j r.callback_key m.callbacks e) (
        subst
          (λ b.
            Counted (get_elem? m.routes id) (one_more b (active id m.pods)) (calls id m.callbacks))
          e (h id)))

finished-IsCounted :
    (j : ℕ) (r : RouteState) (m : Prober)
    → get_elem? m.routes j ≡ some r
    → calls j m.callbacks ≡ 0
    → Owes j m
    → IsCounted (finished j (active j m.pods) r m)
finished-IsCounted j r m g c h id = elim (Bool-cases (j == id)) [
  | inl e ↦
      subst (λ i. CountsOf (finished j (active j m.pods) r m) i) (ground (arith, e))
        (finished_own j r m g c)
  | inr e ↦ finished_other id j (active j m.pods) r m e h
]

never : {n : ℕ} → suc n ≢ 0
never h = omega (arith, h)

-- The route state of a pod that is done counts it no more, and calls back at the last one.
pub finish_pod-IsCounted : (j : ℕ) (m : Prober) → Owes j m → IsCounted (finish_pod j m)
finish_pod-IsCounted j m h = elim (Option-cases (get_elem? m.routes j)) [
  | inl e ↦
      let (z, c) = none-Counted (get_elem? m.routes j) _ (calls j m.callbacks) e (h j) in
      absurd (never (subst (λ b. one_more b (active j m.pods) ≡ 0) (itself j) z))
  | inr (r, e) ↦
      let (p, c) = owed j r m e h in
      subst IsCounted (sym (finish_pod-finished j (active j m.pods) r m e p))
        (finished-IsCounted j r m e c h)
]

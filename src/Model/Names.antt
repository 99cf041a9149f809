-- ===== src/Model/Names.antt =====
-- types.NamespacedName, maps with text keys, and the third-party equality of values.
use mathlib.Core.Bool.{Bool-discrete}
use mathlib.Core.Logic.{ite, dite}
use net_gateway_api.Base.{◌≡◌, ◌↔◌, String, Bool, true, false, List, arith}
use net_gateway_api.Base.Text.{◌=s◌, =s_iff}

pub record NamespacedName : Type 0 where
  pub namespace : String
  pub name : String

-- Shut in proofs, where a split yields the equation or its negation.
unfoldable pub String-discrete : Discrete String
unfolding ◌=s◌
String-discrete s t =
    dite (Bool-discrete (s =s t) true) (λ same. yes ((=s_iff s t).0 same))
      (λ differ. no (λ p. differ ((=s_iff s t).1 p)))

unfoldable pub NamespacedName-discrete : Discrete NamespacedName
unfolding String-discrete
NamespacedName-discrete = hlevel String-discrete

-- `equality.Semantic.DeepEqual`, and `==` on structs: the model has one form of an absent value.
abbrev pub deep_equal {ℓ} : {A : Type ℓ} → Discrete A → A → A → Bool
deep_equal d a b = ite (d a b) true false

pub deep_equal_iff {ℓ} :
    {A : Type ℓ} (d : Discrete A) (a b : A) → (deep_equal d a b ≡ true) ↔ (a ≡ b)
deep_equal_iff d a b = ground arith

-- A Go map with text keys, in the order in which one iteration meets its entries.
abbrev pub StringMap : Type 0
StringMap = List (String × String)

-- ===== src/Base/Text.antt =====
-- Go's strings as native texts: `==`, `strings.Compare`, `HasPrefix` and `TrimPrefix`, and the
-- laws of the order.
use Prim.Native.Nat.{ℕ, Ordering, compare as compare_ℕ}
use Prim.Native.Char.{code}
use Prim.Native.String.compare
use Prim.Native.String.{String, ◌++◌, compare, slice, len, then as and_then}
use mathlib.Core.Path.{◌≡◌, refl}
use mathlib.Core.Logic.{◌↔◌, ◌≢◌}
use mathlib.Core.Bool.{Bool, true, false}
use native.Mathlib.Omega.{arith}
use text.Mathlib.Text.{is_le, is_eq}
use text.Mathlib.Text
use text.Mathlib.TextEquality.{path_by_compare}
use text.Mathlib.TextEquality
use text.Mathlib.TextPositions.{compare_refl, slice-append_right, starts_with-append, len-append}
use net_gateway_api.Base.Tests.{if◌then◌else◌}

infix 50 ◌=s◌ ◌≤s◌
-- `s == t`
unfoldable pub ◌=s◌ : String → String → Bool
s =s t = Text.◌==◌ s t

-- `strings.Compare(s, t) <= 0`
unfoldable pub ◌≤s◌ : String → String → Bool
s ≤s t = is_le (compare s t)

-- `strings.HasPrefix(s, p)`
unfoldable pub has_prefix : String → String → Bool
has_prefix s p = Text.starts_with s p

-- `strings.TrimPrefix(s, p)`
unfoldable pub trim_prefix : String → String → String
unfolding has_prefix
trim_prefix s p = if has_prefix s p then slice s (len p) (len s) else s

pub =s_iff : (s t : String) → ((s =s t) ≡ true) ↔ (s ≡ t)
unfolding ◌=s◌
=s_iff = TextEquality.eq_iff

pub =s_refl : (s : String) → (s =s s) ≡ true
=s_refl s = (=s_iff s s).1 refl

-- Two texts that compare unequal.
pub =s-apart : (s t : String) → (s =s t) ≡ false → s ≢ t
=s-apart s t h e = ground (arith, (=s_iff s t).1 e, h)

abbrev flip : Ordering → Ordering
flip Ordering.lt = Ordering.gt
flip Ordering.eq = Ordering.eq
flip Ordering.gt = Ordering.lt

flip-and_then : (o r : Ordering) → and_then (flip o) (flip r) ≡ flip (and_then o r)
flip-and_then Ordering.lt r = refl
flip-and_then Ordering.eq r = refl
flip-and_then Ordering.gt r = refl

compare_ℕ-flip : (m n : ℕ) → compare_ℕ n m ≡ flip (compare_ℕ m n)
compare_ℕ-flip m n = ground arith

compare-flip : (s t : String) → compare t s ≡ flip (compare s t)
compare-flip String.[] String.[] = rw compare.nil-nil
compare-flip String.[] (String.◌∷◌ d t) = rw (compare.cons-nil, compare.nil-cons)
compare-flip (String.◌∷◌ c s) String.[] = rw (compare.cons-nil, compare.nil-cons)
compare-flip (String.◌∷◌ c s) (String.◌∷◌ d t) =
    simp (compare.cons-cons, compare-flip s t, compare_ℕ-flip (code c) (code d))
      (flip-and_then (compare_ℕ (code c) (code d)) (compare s t))

and_then_trans :
    (a b c : ℕ) (o r q : Ordering)
    → (is_le o ≡ true → is_le r ≡ true → is_le q ≡ true)
    → is_le (and_then (compare_ℕ a b) o) ≡ true
    → is_le (and_then (compare_ℕ b c) r) ≡ true
    → is_le (and_then (compare_ℕ a c) q) ≡ true
and_then_trans a b c o r q h p s = ground arith

compare_trans :
    (s t u : String)
    → is_le (compare s t) ≡ true
    → is_le (compare t u) ≡ true
    → is_le (compare s u) ≡ true
compare_trans String.[] t String.[] p q = refl
compare_trans String.[] t (String.◌∷◌ e u) p q = rw compare.nil-cons
compare_trans (String.◌∷◌ c s) String.[] u p q = cc (compare.cons-nil c s)
compare_trans (String.◌∷◌ c s) (String.◌∷◌ d t) String.[] p q = cc (compare.cons-nil d t)
compare_trans (String.◌∷◌ c s) (String.◌∷◌ d t) (String.◌∷◌ e u) p q = rw compare.cons-cons (
    and_then_trans (code c) (code d) (code e) (compare s t) (compare t u) (compare s u)
      (compare_trans s t u) (rw compare.cons-cons at p) (rw compare.cons-cons at q))

pub ≤s_refl : (s : String) → (s ≤s s) ≡ true
unfolding ◌≤s◌
≤s_refl s = rw (compare_refl s)

pub ≤s_trans : (s t u : String) → (s ≤s t) ≡ true → (t ≤s u) ≡ true → (s ≤s u) ≡ true
unfolding ◌≤s◌
≤s_trans = compare_trans

pub ≤s_total : (s t : String) → (s ≤s t) ≡ false → (t ≤s s) ≡ true
unfolding ◌≤s◌
≤s_total s t h = ground (arith, compare-flip s t)

pub ≤s_antisymm : (s t : String) → (s ≤s t) ≡ true → (t ≤s s) ≡ true → s ≡ t
unfolding ◌≤s◌
≤s_antisymm s t p q = path_by_compare s t (ground (arith, compare-flip s t))

pub has_prefix-append : (p s : String) → has_prefix (p ++ s) p ≡ true
unfolding has_prefix
has_prefix-append = starts_with-append

pub trim_prefix-append : (p s : String) → trim_prefix (p ++ s) p ≡ s
unfolding trim_prefix has_prefix
trim_prefix-append p s = rw (starts_with-append p s, len-append p s) (slice-append_right p s)

pub trim_prefix_none : (s p : String) → has_prefix s p ≡ false → trim_prefix s p ≡ s
unfolding trim_prefix
trim_prefix_none s p h = rw h

-- ===== src/Prelude/Outcome.antt =====
-- What a Go call comes back with: its values, an error, or a run-time panic (an index or a slice
-- bound out of range).
use Prim.Native.Nat.{ℕ, ◌+◌, ◌-◌, ◌≤◌, ◌<◌}
use native.Mathlib.Omega.{arith}
use native.Mathlib.Nat.{add-sub_cancel_left}
use mathlib.Core.Logic.{◌⊎◌, inl, inr}
use mathlib.Core.Path.{◌≡◌, refl, ap, ◌∙◌, subst}
use mathlib.Core.Bool.{Bool, true, false, ◌&&◌}
use mathlib.Core.Option.{Option, none, some}
use mathlib.Core.List.{List, ◌∷◌, ◌++◌, [], append_assoc, append-nil}
use sshush.Prelude.Tests.{leb, if◌then◌else◌}
use sshush.Prelude.Lists.{
  length, get_elem?, take, drop, get_elem?-append, get_elem?-lt, get_elem?-ge, drop-append,
  take-append, length-append, length-take, length-drop,
}

pub data Outcome {ℓ} (E A : Type ℓ) : Type ℓ where
  ok : A → Outcome E A
  err : E → Outcome E A
  panic : Outcome E A

-- To split on a computed outcome and keep the equation.
pub Outcome-cases :
    {E A : Type 0} (r : Outcome E A)
    → ((a : A) × (r ≡ ok a)) ⊎ ((e : E) × (r ≡ err e)) ⊎ (r ≡ panic)
Outcome-cases (ok a) = inl (a, refl)
Outcome-cases (err e) = inr (inl (e, refl))
Outcome-cases panic = inr (inr refl)

infixl 5 ◌>>=◌
abbrev pub ◌>>=◌ {ℓ} : {E A B : Type ℓ} → Outcome E A → (A → Outcome E B) → Outcome E B
panic >>= next = panic
err failure >>= next = err failure
ok value >>= next = next value

-- `if !test { return err }`
abbrev pub require : {E : Type 0} → Bool → E → Outcome E (Unit {0})
require false e = err e
require true e = ok tt

infixl 5 ◌>>◌
abbrev pub ◌>>◌ {ℓ} : {E A B : Type ℓ} → Outcome E A → Outcome E B → Outcome E B
first >> second = first >>= λ u. second

abbrev pub or_panic {ℓ} : {E A : Type ℓ} → Option A → Outcome E A
or_panic none = panic
or_panic (some a) = ok a

module _ {ℓ} {A : Type ℓ} where
  take-drop-append :
      (xs ys zs : List A)
      → take (length xs + length ys - length xs) (drop (length xs) (xs ++ ys ++ zs)) ≡ ys
  take-drop-append xs ys zs =
      rw
        (
          append_assoc xs ys zs,
          drop-append xs (ys ++ zs),
          add-sub_cancel_left (length xs) (length ys),
        )
        (take-append ys zs)

module _ {E A : Type 0} where
  -- `xs[i]`
  unfoldable pub index : List A → ℕ → Outcome E A
  index xs i = or_panic (get_elem? xs i)

  -- `xs[i:j]`
  unfoldable pub slice : List A → ℕ → ℕ → Outcome E (List A)
  slice xs i j = if leb i j && leb j (length xs) then ok (take (j - i) (drop i xs)) else panic

module _ {E A : Type 0} where
  pub index-append :
      (xs : List A) (y : A) (ys : List A) (n : ℕ)
      → n ≡ length xs
      → index {E = E} (xs ++ y ∷ ys) n ≡ ok y
  unfolding index
  index-append xs y ys n h = rw (h, get_elem?-append xs y ys)

  pub slice-eq-ok :
      (xs : List A) (i j : ℕ)
      → i ≤ j
      → j ≤ length xs
      → slice {E = E} xs i j ≡ ok (take (j - i) (drop i xs))
  unfolding slice
  slice-eq-ok xs i j h k = ground arith

  pub slice-append :
      (xs ys zs : List A) (i j : ℕ)
      → i ≡ length xs
      → j ≡ length xs + length ys
      → slice {E = E} (xs ++ ys ++ zs) i j ≡ ok ys
  slice-append xs ys zs i j hi hj =
      slice-eq-ok (xs ++ ys ++ zs) i j (omega arith)
        (omega (arith, length-append {0} (xs ++ ys) zs, length-append {0} xs ys))
      ∙ ap ok (rw (hi, hj) (take-drop-append xs ys zs))

  -- Within the bounds there is no panic.
  pub index-eq-ok :
      (xs : List A) (i : ℕ)
      → i < length xs
      → (x : A) × (index {E = E} xs i ≡ ok x) × (get_elem? xs i ≡ some x)
  unfolding index
  index-eq-ok xs i h = let (x, e) = get_elem?-lt i xs h in (x, rw e, e)

  pub slice-append_end :
      (xs ys : List A) (i j : ℕ)
      → i ≡ length xs
      → j ≡ length xs + length ys
      → slice {E = E} (xs ++ ys) i j ≡ ok ys
  slice-append_end xs ys i j hi hj =
      subst (λ zs. slice {E = E} zs i j ≡ ok ys) (append-nil (xs ++ ys))
        (slice-append xs ys [] i j hi hj)

  pub index-eq-panic : (xs : List A) (i : ℕ) → length xs ≤ i → index {E = E} xs i ≡ panic
  unfolding index
  index-eq-panic xs i h = rw (get_elem?-ge i xs h)

  pub length-slice :
      (xs : List A) (i j : ℕ) {ys : List A}
      → i ≤ j
      → j ≤ length xs
      → slice {E = E} xs i j ≡ ok ys
      → length ys ≡ j - i
  length-slice xs i j {ys} h k e =
      ground
        (arith, slice-eq-ok xs i j h k, length-take {0} (j - i) (drop i xs), length-drop {0} i xs)

-- The same facts about a list that is known by an equation.
module _ {E A : Type 0} {c : List A} where
  pub slice_of :
      (xs ys zs : List A) (i j : ℕ)
      → c ≡ xs ++ ys ++ zs
      → i ≡ length xs
      → j ≡ length xs + length ys
      → slice {E = E} c i j ≡ ok ys
  slice_of xs ys zs i j e hi hj = rw e (slice-append xs ys zs i j hi hj)

  pub index_of :
      (xs : List A) (y : A) (ys : List A) (i : ℕ)
      → c ≡ xs ++ y ∷ ys
      → i ≡ length xs
      → index {E = E} c i ≡ ok y
  index_of xs y ys i e hi = rw e (index-append xs y ys i hi)

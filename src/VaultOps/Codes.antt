-- ===== src/VaultOps/Codes.antt =====
-- internal/vaultops/errors.go: what describe makes of an error.
use sshush.Prelude.{◌≡◌, ◌≢◌, ◌⊎◌, refl, some, Bytes, arith, Option-cases, inl, inr}
use sshush.VaultOps.Errors.{
  unknown, Sentinel, Failure, nil, sentinel, other, wrapped, op_error, is_error, as_op_error,
  code_of, describe, described, gate_error,
}

-- The first OpError of a chain has the sentinels of the chain behind it.
is_error-as_op_error :
    (t : Sentinel) (e : Failure) {a : Failure}
    → as_op_error e ≡ some a
    → is_error t a ≡ is_error t e
unfolding is_error as_op_error
is_error-as_op_error t nil h = cc
is_error-as_op_error t (sentinel s) h = cc
is_error-as_op_error t (other text) h = cc
is_error-as_op_error t (wrapped prefix cause) h = is_error-as_op_error t cause h
is_error-as_op_error t (op_error code msg hint cause) h = ground arith

is_error-described :
    (t : Sentinel) (verb selector : Bytes) (e : Failure)
    → is_error t (described verb selector e) ≡ is_error t e
unfolding is_error gate_error
is_error-described t verb selector e = ground arith

wrapped-first :
    (prefix : Bytes) (cause : Failure) {a : Failure}
    → as_op_error cause ≡ some a
    → as_op_error (wrapped prefix cause) ≡ some a
unfolding as_op_error
wrapped-first prefix cause h = h

is_error-describe :
    (t : Sentinel) (verb selector : Bytes) (e : Failure)
    → is_error t (describe e verb selector) ≡ is_error t e
unfolding describe
is_error-describe t verb selector nil = refl
is_error-describe t verb selector (sentinel s) = is_error-described t verb selector (sentinel s)
is_error-describe t verb selector (other text) = is_error-described t verb selector (other text)
is_error-describe t verb selector (wrapped prefix cause) = elim (Option-cases (as_op_error cause)) [
  | inl no_op ↦ rw no_op (is_error-described t verb selector (wrapped prefix cause))
  | inr (a, first) ↦
      rw first (is_error-as_op_error t (wrapped prefix cause) (wrapped-first prefix cause first))
]
is_error-describe t verb selector (op_error code msg hint cause) = refl

described-op_error :
    (verb selector v s : Bytes) (e : Failure)
    → describe (described verb selector e) v s ≡ described verb selector e
unfolding describe gate_error
described-op_error verb selector v s e = ground arith

-- The OpError that a chain starts with is one.
describe-first :
    (v s : Bytes) (e : Failure) {a : Failure} → as_op_error e ≡ some a → describe a v s ≡ a
unfolding describe as_op_error
describe-first v s nil h = cc
describe-first v s (sentinel t) h = cc
describe-first v s (other text) h = cc
describe-first v s (wrapped prefix cause) h = describe-first v s cause h
describe-first v s (op_error code msg hint cause) h = ground arith

describe-describe :
    (verb selector v s : Bytes) (e : Failure)
    → describe (describe e verb selector) v s ≡ describe e verb selector
unfolding describe
describe-describe verb selector v s nil = refl
describe-describe verb selector v s (sentinel t) = described-op_error verb selector v s (sentinel t)
describe-describe verb selector v s (other text) = described-op_error verb selector v s (other text)
describe-describe verb selector v s (wrapped prefix cause) =
    elim (Option-cases (as_op_error cause)) [
      | inl no_op ↦ rw no_op (described-op_error verb selector v s (wrapped prefix cause))
      | inr (a, first) ↦ rw first (describe-first v s cause first)
    ]
describe-describe verb selector v s (op_error code msg hint cause) = refl

known_code-described :
    (verb selector : Bytes) (e : Failure) → code_of (described verb selector e) ≢ unknown
unfolding code_of gate_error as_op_error
known_code-described verb selector e h = ground arith

known_code :
    (verb selector : Bytes) (e : Failure)
    → (code_of (describe e verb selector) ≢ unknown)
      ⊎ (e ≡ nil)
      ⊎ ((a : Failure) × (as_op_error e ≡ some a))
unfolding describe as_op_error
known_code verb selector nil = inr (inl refl)
known_code verb selector (sentinel t) = inl (known_code-described verb selector (sentinel t))
known_code verb selector (other text) = inl (known_code-described verb selector (other text))
known_code verb selector (wrapped prefix cause) = elim (Option-cases (as_op_error cause)) [
  | inl no_op ↦ inl (rw no_op (known_code-described verb selector (wrapped prefix cause)))
  | inr (a, first) ↦ inr (inr (a, first))
]
known_code verb selector (op_error code msg hint cause) =
    inr (inr (op_error code msg hint cause, refl))

-- What describe makes of an error matches just the sentinels that the error matches, describing it
-- again changes nothing, and its code is CodeUnknown only where there was no error, or an OpError in
-- its chain already.
pub describe-keeps :
    (verb selector v s : Bytes) (e : Failure)
    → ((t : Sentinel) → is_error t (describe e verb selector) ≡ is_error t e)
      × (describe (describe e verb selector) v s ≡ describe e verb selector)
      × ((code_of (describe e verb selector) ≢ unknown)
          ⊎ (e ≡ nil)
          ⊎ ((a : Failure) × (as_op_error e ≡ some a)))
describe-keeps verb selector v s e = (
  λ t. is_error-describe t verb selector e,
  describe-describe verb selector v s e,
  known_code verb selector e,
)

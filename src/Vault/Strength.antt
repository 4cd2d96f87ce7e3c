-- ===== src/Vault/Strength.antt =====
-- internal/vault/passphrase_policy.go: the passphrases that ValidateNew accepts.
use sshush.Prelude.{
  ℕ, ◌≡◌, ◌↔◌, Bool, true, false, not, ◌&&◌, ◌||◌, none, List, [], ◌∷◌, Bytes, length, leb,
  is_empty, arith,
}
use sshush.Prelude.Text.{trim_space}
use sshush.Prelude.Utf8.{runes}
use sshush.External.{Unicode}
use sshush.Vault.Policy.{
  PassphrasePolicy, Classes, classify, classes_of, no_classes, validate_new, is_ascii_special,
}

-- Some rune passes a test.
unfoldable pub any : (ℕ → Bool) → List ℕ → Bool
any p [] = false
any p (r ∷ rs) = p r || any p rs

-- A rule that a policy may have: it holds where it is not required.
abbrev pub meets : Bool → Bool → Bool
meets required present = not required || present

abbrev pub has_upper : Unicode → ℕ → Bool
has_upper u r = u.is_upper r && u.is_letter r

abbrev pub has_lower : Unicode → ℕ → Bool
has_lower u r = not (has_upper u r) && (u.is_lower r && u.is_letter r)

abbrev pub has_digit : Unicode → ℕ → Bool
has_digit u r = not (has_upper u r) && not (has_lower u r) && u.is_digit r

abbrev pub has_special : Unicode → ℕ → Bool
has_special u r =
    not (has_upper u r) && not (has_lower u r) && not (has_digit u r) && is_ascii_special u r

-- What the loop has found is what it had found before or one of the runes.
classes_of-any :
    (u : Unicode) (rs : List ℕ) (c : Classes)
    → ((classes_of u rs c).upper ≡ (c.upper || any (has_upper u) rs))
      × ((classes_of u rs c).lower ≡ (c.lower || any (has_lower u) rs))
      × ((classes_of u rs c).digit ≡ (c.digit || any (has_digit u) rs))
      × ((classes_of u rs c).special ≡ (c.special || any (has_special u) rs))
unfolding classes_of classify any
classes_of-any u [] c = ground arith
classes_of-any u (r ∷ rs) c = ground (arith, classes_of-any u rs (classify u r c))

-- The rules of a policy, each by itself.
unfoldable pub acceptable : Unicode → PassphrasePolicy → Bytes → Bool
acceptable u p passphrase =
    not (is_empty (trim_space passphrase))
    && leb p.min_len (length (runes passphrase))
    && meets p.require_upper (any (has_upper u) (runes passphrase))
    && meets p.require_lower (any (has_lower u) (runes passphrase))
    && meets p.require_digit (any (has_digit u) (runes passphrase))
    && meets p.require_special (any (has_special u) (runes passphrase))

-- ValidateNew accepts a passphrase exactly if it is not blank, has as many runes as the policy
-- asks for, and has a rune of every class that the policy requires. A rune counts for the first
-- class of upper case, lower case, digit and ASCII special that it is in.
pub validate_new_iff :
    (u : Unicode) (p : PassphrasePolicy) (passphrase : Bytes)
    → (validate_new u p passphrase ≡ none) ↔ (acceptable u p passphrase ≡ true)
unfolding validate_new acceptable
validate_new_iff u p passphrase = (
  λ h. ground (arith, classes_of-any u (runes passphrase) no_classes),
  λ h. ground (arith, classes_of-any u (runes passphrase) no_classes),
)

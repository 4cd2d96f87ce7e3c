-- ===== src/Vault/Policy.antt =====
-- internal/vault/passphrase_policy.go: what a new vault's passphrase must look like.
use sshush.Prelude.{
  ℕ, Bool, true, false, not, ◌&&◌, ◌||◌, Option, none, some, List, [], ◌∷◌, Bytes, length, ltb, leb,
  if◌then◌else◌, is_empty,
}
use sshush.Prelude.Text.{trim_space}
use sshush.Prelude.Utf8.{runes}
use sshush.External.{Unicode}

pub record PassphrasePolicy : Type 0 where
  pub min_len : ℕ
  pub require_upper : Bool
  pub require_lower : Bool
  pub require_digit : Bool
  pub require_special : Bool

unfoldable pub default_passphrase_policy : PassphrasePolicy
default_passphrase_policy = record {
  min_len = 8;
  require_upper = false;
  require_lower = false;
  require_digit = false;
  require_special = false;
}

pub data PolicyError : Type 0 where
  passphrase_empty too_few_characters no_upper no_lower no_digit no_special : PolicyError

unfoldable pub is_ascii_special : Unicode → ℕ → Bool
is_ascii_special u r =
    if leb 128 r
    then false
    else if u.is_letter r || u.is_digit r || u.is_space r
    then false
    else true

pub record Classes : Type 0 where
  pub upper : Bool
  pub lower : Bool
  pub digit : Bool
  pub special : Bool

-- The switch on one code point.
unfoldable pub classify : Unicode → ℕ → Classes → Classes
unfolding is_ascii_special
classify u r c =
    if u.is_upper r && u.is_letter r
    then record c { upper = true }
    else if u.is_lower r && u.is_letter r
    then record c { lower = true }
    else if u.is_digit r
    then record c { digit = true }
    else if is_ascii_special u r
    then record c { special = true }
    else c

unfoldable pub classes_of : Unicode → List ℕ → Classes → Classes
classes_of u [] c = c
classes_of u (r ∷ rs) c = classes_of u rs (classify u r c)

abbrev pub no_classes : Classes
no_classes = record { upper = false; lower = false; digit = false; special = false }

-- The tests in their order; `none` accepts.
abbrev pub check_classes : PassphrasePolicy → Classes → Option PolicyError
check_classes p c =
    if p.require_upper && not c.upper
    then some no_upper
    else if p.require_lower && not c.lower
    then some no_lower
    else if p.require_digit && not c.digit
    then some no_digit
    else if p.require_special && not c.special
    then some no_special
    else none

unfoldable pub validate_new : Unicode → PassphrasePolicy → Bytes → Option PolicyError
validate_new u p passphrase =
    if is_empty (trim_space passphrase)
    then some passphrase_empty
    else if ltb (length (runes passphrase)) p.min_len
    then some too_few_characters
    else check_classes p (classes_of u (runes passphrase) no_classes)

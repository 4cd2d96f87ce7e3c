-- ===== src/Examples/Wire.antt =====
-- The bodies of requests and responses.
use sshush.Prelude.{◌≡◌, ◌↔◌, true, [], ◌∷◌, Bytes, length, ◌≤◌, arith, codes}
use sshush.Prelude.Outcome.{ok, panic, index}
use sshush.Vault.Payload.{PayloadError, build_add_key_opts, split_add_key_opts}
use sshush.Vault.Payload.AddKey.{split-build_add_key_opts}
use sshush.Vault.Payload.Panics.{PemFillsBody, split_add_key_opts-panic_iff}
use sshush.Examples.Toy.{seed}

split-build_add_key_opts_example :
    split_add_key_opts (build_add_key_opts seed (codes "/k") true) ≡ ok (seed, true, codes "/k")
split-build_add_key_opts_example =
    split-build_add_key_opts seed (codes "/k") true (omega arith) (omega arith)

-- A version byte, a PEM length of five, and just the five bytes.
abbrev crashing : Bytes
crashing = 1 ∷ 0 ∷ 0 ∷ 0 ∷ 5 ∷ 65 ∷ 66 ∷ 67 ∷ 68 ∷ 69 ∷ []

split_add_key_opts-panic_iff_example : (split_add_key_opts crashing ≡ panic) ↔ (
    (index {E = PayloadError} crashing 0 ≡ ok 1) × (10 ≤ length crashing) × PemFillsBody crashing)
split_add_key_opts-panic_iff_example = split_add_key_opts-panic_iff crashing

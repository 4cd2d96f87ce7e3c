-- ===== src/Kdf.antt =====
-- internal/kdf: the key derivation and its parameters.
use sshush.Prelude.{ℕ, Bool, Option, Bytes, bytes_eq}
use sshush.External.{External}

-- AES-256.
abbrev pub key_len : ℕ
key_len = 32

abbrev argon2_time : ℕ
argon2_time = 3

-- 64 MiB, in KiB.
abbrev argon2_memory : ℕ
argon2_memory = 65536

abbrev argon2_threads : ℕ
argon2_threads = 1

unfoldable pub derive_key : External → Bytes → Bytes → Bytes
derive_key x passphrase salt =
    x.argon2_id_key passphrase salt argon2_time argon2_memory argon2_threads key_len

-- `rand.Read` fills the 16 bytes, or fails: `none`.
unfoldable pub generate_salt : Option Bytes → Option Bytes
generate_salt random = random

unfoldable pub constant_time_compare : Bytes → Bytes → Bool
constant_time_compare a b = bytes_eq a b

-- ===== src/Vault/Payload/AddKey.antt =====
-- BuildAddKeyOptsPayload of internal/vault/payload.go against splitAddKeyOptsPayload of
-- internal/vault/op.go, and the body on which the latter panics.
use sshush.Prelude.{
  ℕ, ◌+◌, ◌≤◌, ◌<◌, ◌≡◌, refl, ap, ◌∙◌, sym, Bool, true, [], ◌∷◌, ◌++◌, Bytes, length,
  length-append, append_assoc, append-nil, ◌==◌, arith,
}
use sshush.Prelude.Outcome.{ok, index, slice, slice_of, index_of}
use sshush.Prelude.BigEndian.{put_uint32, uint32, uint32_size, length-put_uint32, uint32-put_uint32}
use sshush.Vault.Payload.{
  PayloadError, flag_byte, build_add_key_opts, is_flag, split_add_key_opts, split_versioned,
  read_filepath,
}
use sshush.Vault.Payload.RoundTrip.{is_flag-flag_byte, flag_byte_test}

module _ (c : Bytes) where
  read_filepath_of :
      {header path : Bytes} {m : ℕ} (o : ℕ)
      → slice {E = PayloadError} c o (o + 4) ≡ ok header
      → uint32 {E = PayloadError} header ≡ ok m
      → length c ≡ o + 4 + m
      → slice {E = PayloadError} c (o + 4) (o + 4 + m) ≡ ok path
      → read_filepath c o ≡ ok path
  unfolding read_filepath
  read_filepath_of o a b len d = ground arith

  split_versioned_of :
      {header pem path : Bytes} {n flag : ℕ}
      → slice {E = PayloadError} c 1 5 ≡ ok header
      → uint32 {E = PayloadError} header ≡ ok n
      → 5 + n ≤ length c
      → slice {E = PayloadError} c 5 (5 + n) ≡ ok pem
      → index {E = PayloadError} c (5 + n) ≡ ok flag
      → is_flag flag ≡ true
      → read_filepath c (5 + n + 1) ≡ ok path
      → split_versioned c ≡ ok (pem, flag == 1, path)
  unfolding split_versioned
  split_versioned_of a b len d e f g = ground arith

  -- A body of ten bytes or more that starts with the version byte is read in the versioned layout.
  split_dispatch :
      index {E = PayloadError} c 0 ≡ ok 1 → 10 ≤ length c → split_add_key_opts c ≡ split_versioned c
  unfolding split_add_key_opts
  split_dispatch a len = ground arith

ruleset lengths = (length-append, length-put_uint32)

module _ (pem path : Bytes) (autoload : Bool) where
  abbrev n : ℕ
  n = length pem

  abbrev m : ℕ
  m = length path

  abbrev flag : ℕ
  flag = flag_byte autoload

  abbrev head : Bytes
  head = 1 ∷ put_uint32 n

  length-body : length (build_add_key_opts pem path autoload) ≡ 10 + n + m
  unfolding build_add_key_opts
  length-body =
      simp (length-append, length-put_uint32)
        (omega (arith, length-put_uint32 n, length-put_uint32 m))

  -- A versioned body, built of a key file and a path of fewer than 2 ^ 32 bytes each and either flag,
  -- splits into what it was built from.
  pub split-build_add_key_opts :
      length pem < uint32_size
      → length path < uint32_size
      → split_add_key_opts (build_add_key_opts pem path autoload) ≡ ok (pem, autoload, path)
  unfolding build_add_key_opts
  split-build_add_key_opts h k =
      split_dispatch _ (index_of [] 1 _ 0 refl refl) (omega (arith, length-body))
      ∙ split_versioned_of _
          (slice_of (1 ∷ []) (put_uint32 n) (pem ++ flag ∷ put_uint32 m ++ path) 1 5
            (simp append_assoc) refl (simp lengths (omega arith)))
          (uint32-put_uint32 n h) (omega (arith, length-body))
          (slice_of head pem (flag ∷ put_uint32 m ++ path) 5 (5 + n) (simp append_assoc)
            (simp lengths (omega arith)) (simp lengths (omega arith)))
          (index_of (head ++ pem) flag (put_uint32 m ++ path) (5 + n) (simp append_assoc)
            (simp lengths (omega arith)))
          (is_flag-flag_byte autoload)
          (read_filepath_of _ (5 + n + 1)
            (slice_of (head ++ pem ++ flag ∷ []) (put_uint32 m) path (5 + n + 1) (5 + n + 1 + 4)
              (simp append_assoc) (simp lengths (omega arith)) (simp lengths (omega arith)))
            (uint32-put_uint32 m k) (omega (arith, length-body))
            (slice_of (head ++ pem ++ flag ∷ put_uint32 m) path [] (5 + n + 1 + 4)
              (5 + n + 1 + 4 + m) (sym (append-nil _)) (simp lengths (omega arith))
              (simp lengths (omega arith))))
      ∙ ap (λ b. ok (pem, b, path)) (flag_byte_test autoload)

-- ===== src/Vault/Payload/Panics.antt =====
-- On which bodies the parsers of internal/vault/op.go index out of range.
use native.Mathlib.Decide.{dec_lt, ℕ_discrete}
use sshush.Prelude.{
  ℕ, ◌+◌, ◌-◌, ◌≤◌, ◌<◌, ◌≡◌, ◌≢◌, refl, ap, ◌∙◌, sym, ◌↔◌, ◌⊎◌, inl, inr, Bytes, length, arith,
}
use sshush.Prelude.Outcome.{ok, err, panic, index, slice, slice-eq-ok, index-eq-ok, index-eq-panic}
use sshush.Prelude.BigEndian.{uint32, uint32_at}
use sshush.Vault.Payload.{
  PayloadError, parse_set_autoload, parse_set_comment, split_add_key_opts, split_versioned,
  split_legacy, read_filepath, too_short,
}

abbrev E : Type 0
E = PayloadError

parse_set_autoload-ne-panic : (c : Bytes) → parse_set_autoload c ≢ panic
unfolding parse_set_autoload
parse_set_autoload-ne-panic c h = elim (dec_lt (length c) 5) [
  | yes p ↦ ground arith
  | no p ↦
      let (b, n, s, r) = uint32_at {E = E} c 0 4 refl (omega arith) in
      elim (ℕ_discrete (n + 5) (length c)) [
        | yes q ↦
            let (x, e, _) = index-eq-ok {E = E} c (4 + n) (omega arith) in
            ground (arith, slice-eq-ok {E = E} c 4 (4 + n) (omega arith) (omega arith))
        | no q ↦ ground arith
      ]
]

parse_set_comment-ne-panic : (c : Bytes) → parse_set_comment c ≢ panic
unfolding parse_set_comment
parse_set_comment-ne-panic c h = elim (dec_lt (length c) 8) [
  | yes p ↦ ground arith
  | no p ↦
      let (b, n, s, r) = uint32_at {E = E} c 0 4 refl (omega arith) in
      elim (dec_lt (length c) (8 + n)) [
        | yes q ↦ ground arith
        | no q ↦
            let (b', m, s', r') = uint32_at {E = E} c (4 + n) (4 + n + 4) refl (omega arith) in
            let fp = slice-eq-ok {E = E} c 4 (4 + n) (omega arith) (omega arith) in
            elim (ℕ_discrete (4 + n + 4 + m) (length c)) [
              | yes t ↦ ground (
                arith,
                slice-eq-ok {E = E} c (4 + n + 4) (4 + n + 4 + m) (omega arith) (omega arith),
              )
              | no t ↦ ground arith
            ]
      ]
]

-- Neither the set-autoload parser nor the set-comment parser indexes or slices out of range,
-- whatever the body.
pub parsers-ne-panic : (c : Bytes) → (parse_set_autoload c ≢ panic) × (parse_set_comment c ≢ panic)
parsers-ne-panic c = (parse_set_autoload-ne-panic c, parse_set_comment-ne-panic c)

read_filepath-ne-panic : (c : Bytes) (o : ℕ) → read_filepath c o ≢ panic
unfolding read_filepath
read_filepath-ne-panic c o h = elim (dec_lt (length c) (o + 4)) [
  | yes p ↦ ground arith
  | no p ↦
      let (b, n, s, r) = uint32_at {E = E} c o (o + 4) refl (omega arith) in
      elim (dec_lt (length c) (o + 4 + n)) [
        | yes q ↦ ground arith
        | no q ↦
            ground (arith, slice-eq-ok {E = E} c (o + 4) (o + 4 + n) (omega arith) (omega arith))
      ]
]

split_legacy-ne-panic : (c : Bytes) → 5 ≤ length c → split_legacy c ≢ panic
unfolding split_legacy
split_legacy-ne-panic c len h =
    let (b, n, s, r) = uint32_at {E = E} c 0 4 refl (omega arith) in
    elim (dec_lt (length c - 5) n) [
      | yes p ↦ ground arith
      | no p ↦
          let (x, e, _) = index-eq-ok {E = E} c (4 + n) (omega arith) in
          ground (arith, slice-eq-ok {E = E} c 4 (4 + n) (omega arith) (omega arith))
    ]

-- The header of the versioned layout announces a PEM section that ends where the body ends, so
-- that there is no room for the autoload byte.
abbrev pub PemFillsBody : Bytes → Type 0
PemFillsBody c =
    (header : Bytes) × (n : ℕ) × (slice {E = E} c 1 5 ≡ ok header)
    × (uint32 {E = E} header ≡ ok n)
    × (length c ≡ 5 + n)

split_versioned_panics : (c : Bytes) → 10 ≤ length c → PemFillsBody c → split_versioned c ≡ panic
unfolding split_versioned
split_versioned_panics c len (header, n, s, r, e) = ground (
  arith,
  slice-eq-ok {E = E} c 5 (5 + n) (omega arith) (omega arith),
  index-eq-panic {E = E} c (5 + n) (omega arith),
)

split_versioned-eq-panic : (c : Bytes) → 10 ≤ length c → split_versioned c ≡ panic → PemFillsBody c
unfolding split_versioned
split_versioned-eq-panic c len h =
    let (b, n, s, r) = uint32_at {E = E} c 1 5 refl (omega arith) in
    elim (dec_lt (length c) (5 + n)) [
      | yes p ↦ ground arith
      | no p ↦
          let pem = slice-eq-ok {E = E} c 5 (5 + n) (omega arith) (omega arith) in
          elim (ℕ_discrete (length c) (5 + n)) [
            | yes q ↦ (b, n, s, r, q)
            | no q ↦
                let (x, e, _) = index-eq-ok {E = E} c (5 + n) (omega arith) in
                absurd (ground (arith, read_filepath-ne-panic c (5 + n + 1)))
          ]
    ]

-- Which layout a body of five bytes or more is read in.
split_dispatch :
    (c : Bytes)
    → 5 ≤ length c
    → ((index {E = E} c 0 ≡ ok 1) × (10 ≤ length c) × (split_add_key_opts c ≡ split_versioned c))
      ⊎ (split_add_key_opts c ≡ split_legacy c)
unfolding split_add_key_opts
split_dispatch c len =
    let (x, e, _) = index-eq-ok {E = E} c 0 (omega arith) in
    elim (ℕ_discrete x 1) [
      | yes p ↦ elim (dec_lt (length c) 10) [
        | yes q ↦ inr (ground arith)
        | no q ↦ inl (e ∙ ap ok p, omega arith, ground arith)
      ]
      | no p ↦ inr (ground arith)
    ]

split_short : (c : Bytes) → length c < 5 → split_add_key_opts c ≡ err too_short
unfolding split_add_key_opts
split_short c h = ground arith

versioned_dispatch :
    (c : Bytes)
    → index {E = E} c 0 ≡ ok 1
    → 10 ≤ length c
    → split_add_key_opts c ≡ split_versioned c
unfolding split_add_key_opts
versioned_dispatch c e len = ground arith

split-eq-panic :
    (c : Bytes)
    → split_add_key_opts c ≡ panic
    → (index {E = E} c 0 ≡ ok 1) × (10 ≤ length c) × PemFillsBody c
split-eq-panic c h = elim (dec_lt (length c) 5) [
  | yes p ↦ cc (split_short c p)
  | no p ↦ elim (split_dispatch c (omega arith)) [
    | inl (e, len, d) ↦ (e, len, split_versioned-eq-panic c len (sym d ∙ h))
    | inr d ↦ absurd (split_legacy-ne-panic c (omega arith) (sym d ∙ h))
  ]
]

-- splitAddKeyOptsPayload panics on a body exactly when the body starts with the version byte, has
-- ten bytes or more, and announces a PEM section that ends where the body ends.
pub split_add_key_opts-panic_iff :
    (c : Bytes)
    → (split_add_key_opts c ≡ panic)
      ↔ ((index {E = E} c 0 ≡ ok 1) × (10 ≤ length c) × PemFillsBody c)
split_add_key_opts-panic_iff c =
    (split-eq-panic c, λ h. versioned_dispatch c h.0 h.1 ∙ split_versioned_panics c h.1 h.2)

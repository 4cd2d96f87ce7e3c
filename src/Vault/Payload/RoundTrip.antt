-- ===== src/Vault/Payload/RoundTrip.antt =====
-- internal/vault/payload.go against the parsers of internal/vault/op.go.
use sshush.Prelude.{
  ℕ, ◌+◌, ◌<◌, ◌≡◌, refl, ap, ◌∙◌, sym, Bool, true, false, [], ◌∷◌, ◌++◌, Bytes, length,
  length-append, append_assoc, append-nil, ◌==◌, arith,
}
use sshush.Prelude.Outcome.{ok, index, slice, slice_of, index_of}
use sshush.Prelude.BigEndian.{put_uint32, uint32, uint32_size, length-put_uint32, uint32-put_uint32}
use sshush.Vault.Payload.{
  PayloadError, flag_byte, build_set_autoload, build_set_comment, parse_set_autoload,
  parse_set_comment, is_flag,
}

pub is_flag-flag_byte : (b : Bool) → is_flag (flag_byte b) ≡ true
unfolding is_flag flag_byte
is_flag-flag_byte true = refl
is_flag-flag_byte false = refl

pub flag_byte_test : (b : Bool) → (flag_byte b == 1) ≡ b
unfolding flag_byte
flag_byte_test true = refl
flag_byte_test false = refl

-- What the parser does with a body whose sections are known.
parse_set_autoload_of :
    (c : Bytes) {header fp : Bytes} {n flag : ℕ}
    → slice {E = PayloadError} c 0 4 ≡ ok header
    → uint32 {E = PayloadError} header ≡ ok n
    → length c ≡ n + 5
    → index {E = PayloadError} c (4 + n) ≡ ok flag
    → is_flag flag ≡ true
    → slice {E = PayloadError} c 4 (4 + n) ≡ ok fp
    → parse_set_autoload c ≡ ok (fp, flag == 1)
unfolding parse_set_autoload
parse_set_autoload_of c a b len d e f = ground arith

-- A set-autoload body whose fingerprint length fits the wire parses to what it was built from.
pub parse-build_set_autoload :
    (fp : Bytes) (on : Bool)
    → length fp < uint32_size
    → parse_set_autoload (build_set_autoload fp on) ≡ ok (fp, on)
unfolding build_set_autoload
parse-build_set_autoload fp on h =
    parse_set_autoload_of _
      (slice_of [] (put_uint32 n) (fp ++ flag ∷ []) 0 4 (append_assoc _ fp _) refl
        (omega (arith, length-put_uint32 n)))
      (uint32-put_uint32 n h)
      (omega (
        arith,
        length-append {0} (put_uint32 n ++ fp) (flag ∷ []),
        length-append {0} (put_uint32 n) fp,
        length-put_uint32 n,
      ))
      (index_of (put_uint32 n ++ fp) flag [] (4 + n) refl
        (omega (arith, length-append {0} (put_uint32 n) fp, length-put_uint32 n)))
      (is_flag-flag_byte on)
      (slice_of (put_uint32 n) fp (flag ∷ []) 4 (4 + n) refl (omega (arith, length-put_uint32 n))
        (omega (arith, length-put_uint32 n)))
    ∙ ap (λ b. ok (fp, b)) (flag_byte_test on)
  where
    n : ℕ
    n = length fp

    flag : ℕ
    flag = flag_byte on

parse_set_comment_of :
    (c : Bytes) {header fp comment_header comment : Bytes} {n m : ℕ}
    → slice {E = PayloadError} c 0 4 ≡ ok header
    → uint32 {E = PayloadError} header ≡ ok n
    → length c ≡ n + m + 8
    → slice {E = PayloadError} c 4 (4 + n) ≡ ok fp
    → slice {E = PayloadError} c (4 + n) (4 + n + 4) ≡ ok comment_header
    → uint32 {E = PayloadError} comment_header ≡ ok m
    → slice {E = PayloadError} c (4 + n + 4) (4 + n + 4 + m) ≡ ok comment
    → parse_set_comment c ≡ ok (fp, comment)
unfolding parse_set_comment
parse_set_comment_of c a b len d e f g = ground arith

-- A set-comment body parses to the fingerprint and the comment that it was built from.
pub parse-build_set_comment :
    (fp comment : Bytes)
    → length fp < uint32_size
    → length comment < uint32_size
    → parse_set_comment (build_set_comment fp comment) ≡ ok (fp, comment)
unfolding build_set_comment
parse-build_set_comment fp comment h k =
    parse_set_comment_of _
      (slice_of [] (put_uint32 n) (fp ++ put_uint32 m ++ comment) 0 4 (simp append_assoc) refl
        (omega (arith, length-put_uint32 n)))
      (uint32-put_uint32 n h)
      (omega (arith, len3, len2, len1, length-put_uint32 n, length-put_uint32 m))
      (slice_of (put_uint32 n) fp (put_uint32 m ++ comment) 4 (4 + n)
        (append_assoc (put_uint32 n ++ fp) (put_uint32 m) comment)
        (omega (arith, length-put_uint32 n)) (omega (arith, length-put_uint32 n)))
      (slice_of (put_uint32 n ++ fp) (put_uint32 m) comment (4 + n) (4 + n + 4) refl
        (omega (arith, len1, length-put_uint32 n))
        (omega (arith, len1, length-put_uint32 n, length-put_uint32 m)))
      (uint32-put_uint32 m k)
      (slice_of (put_uint32 n ++ fp ++ put_uint32 m) comment [] (4 + n + 4) (4 + n + 4 + m)
        (sym (append-nil _)) (omega (arith, len2, len1, length-put_uint32 n, length-put_uint32 m))
        (omega (arith, len2, len1, length-put_uint32 n, length-put_uint32 m)))
  where
    n : ℕ
    n = length fp

    m : ℕ
    m = length comment

    len1 : length (put_uint32 n ++ fp) ≡ length (put_uint32 n) + n
    len1 = length-append (put_uint32 n) fp

    len2 :
        length (put_uint32 n ++ fp ++ put_uint32 m)
        ≡ length (put_uint32 n ++ fp) + length (put_uint32 m)
    len2 = length-append (put_uint32 n ++ fp) (put_uint32 m)

    len3 :
        length (put_uint32 n ++ fp ++ put_uint32 m ++ comment)
        ≡ length (put_uint32 n ++ fp ++ put_uint32 m) + m
    len3 = length-append (put_uint32 n ++ fp ++ put_uint32 m) comment

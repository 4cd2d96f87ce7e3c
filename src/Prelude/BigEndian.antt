-- ===== src/Prelude/BigEndian.antt =====
-- `binary.BigEndian.PutUint32` and `Uint32`: four bytes, the highest first.
use Prim.Native.Nat.{◌-◌, ◌≤◌, ℕ, ◌+◌, ◌*◌, ◌/◌, ◌%◌, ◌<◌}
use mathlib.Core.Path.{◌≡◌, refl, ap, ◌∙◌}
use mathlib.Core.List.{[], ◌∷◌}
use native.Mathlib.Omega.{arith}
use sshush.Prelude.ByteStrings.{Bytes}
use sshush.Prelude.Lists.{length, take, drop}
use sshush.Prelude.Outcome.{Outcome, ok, panic, slice, slice-eq-ok, length-slice}

-- Lengths are `int`, 64 bits wide, in the source; a length on the wire has 32 bits.
abbrev pub uint32_size : ℕ
uint32_size = 4294967296

unfoldable pub put_uint32 : ℕ → Bytes
put_uint32 n = (n / 16777216 % 256) ∷ (n / 65536 % 256) ∷ (n / 256 % 256) ∷ (n % 256) ∷ []

-- Reading fewer than four bytes is an index out of range.
unfoldable pub uint32 : {E : Type 0} → Bytes → Outcome E ℕ
uint32 (a ∷ b ∷ c ∷ d ∷ rest) = ok (a * 16777216 + b * 65536 + c * 256 + d)
uint32 _ = panic

pub length-put_uint32 : (n : ℕ) → length (put_uint32 n) ≡ 4
unfolding put_uint32
length-put_uint32 n = refl

pub uint32-put_uint32 :
    {E : Type 0} (n : ℕ) → n < uint32_size → uint32 {E = E} (put_uint32 n) ≡ ok n
unfolding uint32 put_uint32
uint32-put_uint32 n h = ap ok (omega arith)

uint32_total : {E : Type 0} (b : Bytes) → length b ≡ 4 → (n : ℕ) × (uint32 {E = E} b ≡ ok n)
unfolding uint32
uint32_total [] h = absurd (omega arith)
uint32_total (a ∷ []) h = absurd (omega arith)
uint32_total (a ∷ b ∷ []) h = absurd (omega arith)
uint32_total (a ∷ b ∷ c ∷ []) h = absurd (omega arith)
uint32_total (a ∷ b ∷ c ∷ d ∷ rest) h = (_, refl)

-- Every element is a byte.
abbrev pub IsBytes : Bytes → Type 0
IsBytes [] = Unit {0}
IsBytes (b ∷ bs) = (b < 256) × IsBytes bs

pub put_uint32-uint32 :
    {E : Type 0} (b : Bytes) (n : ℕ)
    → IsBytes b
    → length b ≡ 4
    → uint32 {E = E} b ≡ ok n
    → put_uint32 n ≡ b
unfolding uint32 put_uint32
put_uint32-uint32 [] n h len e = cc
put_uint32-uint32 (a ∷ []) n h len e = cc
put_uint32-uint32 (a ∷ b ∷ []) n h len e = cc
put_uint32-uint32 (a ∷ b ∷ c ∷ []) n h len e = cc
put_uint32-uint32 (a ∷ b ∷ c ∷ d ∷ []) n h len e = ground arith
put_uint32-uint32 (a ∷ b ∷ c ∷ d ∷ x ∷ xs) n h len e = absurd (omega arith)

-- Four bytes within the bounds always read as a number.
pub uint32_at :
    {E : Type 0} (xs : Bytes) (i j : ℕ)
    → j ≡ i + 4
    → j ≤ length xs
    → (b : Bytes) × (n : ℕ) × (slice {E = E} xs i j ≡ ok b) × (uint32 {E = E} b ≡ ok n)
uint32_at {E} xs i j e h =
    let s : slice {E = E} xs i j ≡ ok (take (j - i) (drop i xs)) =
      slice-eq-ok xs i j (omega arith) h in
    let len : length (take (j - i) (drop i xs)) ≡ 4 =
      length-slice {E = E} xs i j (omega arith) h s ∙ omega arith in
    let (n, r) = uint32_total {E = E} (take (j - i) (drop i xs)) len in (_, n, s, r)

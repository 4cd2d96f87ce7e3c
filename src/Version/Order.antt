-- ===== src/Version/Order.antt =====
-- compareSemver of internal/version/check.go as an order on versions.
use sshush.Prelude.{
  ℕ, zero, suc, ◌<◌, replicate, ◌≡◌, refl, ap, ◌≢◌, List, [], ◌∷◌, ◌++◌, Bytes, arith,
}
use sshush.Prelude.Text.{before, split_on}
use sshush.Version.{
  Comparison, less, equal, greater, compare_parts, parts_of, compare_semver, numbers,
}

abbrev pub flip : Comparison → Comparison
flip less = greater
flip equal = equal
flip greater = less

-- How two steps compose: as the first, or as the second where the first is none.
abbrev pub chain : Comparison → Comparison → Comparison
chain equal c = c
chain less c = less
chain greater c = greater

flip-compare_parts : (xs ys : List ℕ) → compare_parts ys xs ≡ flip (compare_parts xs ys)
unfolding compare_parts
flip-compare_parts [] [] = refl
flip-compare_parts [] (y ∷ ys) = ground (arith, flip-compare_parts [] ys)
flip-compare_parts (x ∷ xs) [] = ground (arith, flip-compare_parts xs [])
flip-compare_parts (x ∷ xs) (y ∷ ys) = ground (arith, flip-compare_parts xs ys)

-- `a` is not after `b`.
unfoldable pub NotAfter : List ℕ → List ℕ → Type 0
NotAfter a b = compare_parts a b ≢ greater

trans-compare_parts :
    (xs ys zs : List ℕ)
    → compare_parts xs ys ≢ greater
    → compare_parts ys zs ≢ greater
    → compare_parts xs zs ≢ greater
unfolding compare_parts
trans-compare_parts [] [] [] h k = ground arith
trans-compare_parts [] [] (z ∷ zs) h k = ground (arith, trans-compare_parts [] [] zs)
trans-compare_parts [] (y ∷ ys) [] h k = ground (arith, trans-compare_parts [] ys [])
trans-compare_parts [] (y ∷ ys) (z ∷ zs) h k = ground (arith, trans-compare_parts [] ys zs)
trans-compare_parts (x ∷ xs) [] [] h k = ground (arith, trans-compare_parts xs [] [])
trans-compare_parts (x ∷ xs) [] (z ∷ zs) h k = ground (arith, trans-compare_parts xs [] zs)
trans-compare_parts (x ∷ xs) (y ∷ ys) [] h k = ground (arith, trans-compare_parts xs ys [])
trans-compare_parts (x ∷ xs) (y ∷ ys) (z ∷ zs) h k = ground (arith, trans-compare_parts xs ys zs)

before-append : (sep : ℕ) (s t : Bytes) → before sep (s ++ sep ∷ t) ≡ before sep s
unfolding before
before-append sep [] t = ground arith
before-append sep (c ∷ s) t = ground (arith, before-append sep s t)

parts_of-suffix : (a suffix : Bytes) → parts_of (a ++ 45 ∷ suffix) ≡ parts_of a
unfolding parts_of
parts_of-suffix a suffix = ap (λ v. numbers (split_on 46 v)) (before-append 45 a suffix)

-- The first parts that differ decide.
first-compare_parts :
    (xs as' bs : List ℕ) (m n : ℕ) → m < n → compare_parts (xs ++ m ∷ as') (xs ++ n ∷ bs) ≡ less
unfolding compare_parts
first-compare_parts [] as' bs m n h = ground arith
first-compare_parts (x ∷ xs) as' bs m n h = ground (arith, first-compare_parts xs as' bs m n h)

zeros-compare_parts : (k : ℕ) → compare_parts [] (replicate k 0) ≡ equal
unfolding compare_parts
zeros-compare_parts zero = refl
zeros-compare_parts (suc k) = ground (arith, zeros-compare_parts k)

padded-compare_parts : (xs : List ℕ) (k : ℕ) → compare_parts xs (xs ++ replicate k 0) ≡ equal
unfolding compare_parts
padded-compare_parts [] k = zeros-compare_parts k
padded-compare_parts (x ∷ xs) k = ground (arith, padded-compare_parts xs k)

-- compareSemver is a total preorder on versions: exchanging its arguments turns its result round,
-- and what is not after a second version is not after any that the second is not after. A version is
-- before another where the number in the first place in which they differ is smaller, and equal to it
-- where the other only has further zeros. What follows a `-`, which is 45, does not count.
pub compare_semver_order :
    ((a b : Bytes) → compare_semver b a ≡ flip (compare_semver a b))
    × ((a b c : Bytes)
        → compare_semver a b ≢ greater
        → compare_semver b c ≢ greater
        → compare_semver a c ≢ greater)
    × ((a b : Bytes) (xs as' bs : List ℕ) (m n : ℕ)
        → parts_of a ≡ xs ++ m ∷ as'
        → parts_of b ≡ xs ++ n ∷ bs
        → m < n
        → compare_semver a b ≡ less)
    × ((a b : Bytes) (k : ℕ)
        → parts_of b ≡ parts_of a ++ replicate k 0
        → compare_semver a b ≡ equal)
    × ((a b suffix : Bytes) → compare_semver (a ++ 45 ∷ suffix) b ≡ compare_semver a b)
unfolding compare_semver
compare_semver_order = (
  λ a b. flip-compare_parts (parts_of a) (parts_of b),
  λ a b c. trans-compare_parts (parts_of a) (parts_of b) (parts_of c),
  λ a b xs as' bs m n h k smaller. rw (h, k) (first-compare_parts xs as' bs m n smaller),
  λ a b k h. rw h (padded-compare_parts (parts_of a) k),
  λ a b suffix. ap (λ xs. compare_parts xs (parts_of b)) (parts_of-suffix a suffix),
)

-- ===== src/Paths/Index.antt =====
-- The index from real paths to places that DiscoverKeyPaths of internal/utils/path.go keeps.
use sshush.Prelude.{
  ℕ, zero, suc, ◌≡◌, refl, Bool, true, none, some, List, [], ◌∷◌, ◌++◌, Bytes, bytes_eq,
  bytes_eq_iff, if◌then◌else◌, length, get_elem?, arith, Bool-cases, inl, inr, ◌⊎◌, ap, subst, ◌≢◌,
  get_elem?-append,
}
use native.Mathlib.Decide.{ℕ_discrete}
use sshush.Paths.{KeyPath, Discovered, set_at, index_of_real}

-- The index finds just the places of the paths.
unfoldable pub HasPlaces : Discovered → Type 0
HasPlaces d =
    (real : Bytes) (i : ℕ)
    → index_of_real real d.seen_real ≡ some i
    → (k : KeyPath) × (get_elem? d.paths i ≡ some k) × (k.real_path ≡ real)

unfoldable pub HasIndices : Discovered → Type 0
HasIndices d =
    (i : ℕ) (k : KeyPath)
    → get_elem? d.paths i ≡ some k
    → index_of_real k.real_path d.seen_real ≡ some i

get_elem?-set_at :
    (i j : ℕ) (k : KeyPath) (xs : List KeyPath) {l : KeyPath}
    → get_elem? (set_at i k xs) j ≡ some l
    → ((i ≡ j) × (l ≡ k)) ⊎ (get_elem? xs j ≡ some l)
unfolding set_at
get_elem?-set_at i j k [] h = inr (ground arith)
get_elem?-set_at zero zero k (x ∷ xs) h = inl (refl, ground arith)
get_elem?-set_at zero (suc j) k (x ∷ xs) h = inr h
get_elem?-set_at (suc i) zero k (x ∷ xs) h = inr h
get_elem?-set_at (suc i) (suc j) k (x ∷ xs) h = elim (get_elem?-set_at i j k xs h) [
  | inl (e, f) ↦ inl (ap suc e, f)
  | inr e ↦ inr e
]

get_elem?-set_at_same :
    (i : ℕ) (k : KeyPath) (xs : List KeyPath) {l : KeyPath}
    → get_elem? xs i ≡ some l
    → get_elem? (set_at i k xs) i ≡ some k
unfolding set_at
get_elem?-set_at_same i k [] h = cc
get_elem?-set_at_same zero k (x ∷ xs) h = refl
get_elem?-set_at_same (suc i) k (x ∷ xs) h = get_elem?-set_at_same i k xs h

get_elem?-set_at_other :
    (i j : ℕ) (k : KeyPath) (xs : List KeyPath) {l : KeyPath}
    → get_elem? xs j ≡ some l
    → i ≢ j
    → get_elem? (set_at i k xs) j ≡ some l
unfolding set_at
get_elem?-set_at_other i j k [] h n = cc
get_elem?-set_at_other zero zero k (x ∷ xs) h n = absurd (n refl)
get_elem?-set_at_other zero (suc j) k (x ∷ xs) h n = h
get_elem?-set_at_other (suc i) zero k (x ∷ xs) h n = h
get_elem?-set_at_other (suc i) (suc j) k (x ∷ xs) h n =
    get_elem?-set_at_other i j k xs h (λ e. n (ap suc e))

get_elem?-append_one :
    (j : ℕ) (k : KeyPath) (xs : List KeyPath) {l : KeyPath}
    → get_elem? (xs ++ k ∷ []) j ≡ some l
    → ((j ≡ length xs) × (l ≡ k)) ⊎ (get_elem? xs j ≡ some l)
get_elem?-append_one zero k [] h = inl (refl, ground arith)
get_elem?-append_one (suc j) k [] h = cc
get_elem?-append_one zero k (x ∷ xs) h = inr h
get_elem?-append_one (suc j) k (x ∷ xs) h = elim (get_elem?-append_one j k xs h) [
  | inl (e, f) ↦ inl (ap suc e, f)
  | inr e ↦ inr e
]

get_elem?-append_old :
    (j : ℕ) (k : KeyPath) (xs : List KeyPath) {l : KeyPath}
    → get_elem? xs j ≡ some l
    → get_elem? (xs ++ k ∷ []) j ≡ some l
get_elem?-append_old j k [] h = cc
get_elem?-append_old zero k (x ∷ xs) h = h
get_elem?-append_old (suc j) k (x ∷ xs) h = get_elem?-append_old j k xs h

unfoldable pub IsIndexed : Discovered → Type 0
IsIndexed d = HasPlaces d × HasIndices d

-- The name that a path is known by changes, or a path with a new real path is added.
pub IsIndexed-replaced :
    (d : Discovered) (i : ℕ) (abs real : Bytes) (k : KeyPath)
    → IsIndexed d
    → get_elem? d.paths i ≡ some k
    → k.real_path ≡ real
    → IsIndexed (record {
      seen = d.seen;
      seen_real = d.seen_real;
      paths = set_at i (record { path = abs; real_path = real; is_link = true }) d.paths;
    })
unfolding IsIndexed HasPlaces HasIndices
IsIndexed-replaced d i abs real k (places, indices) at e = (places_after, indices_after)
  where
    new : KeyPath
    new = record { path = abs; real_path = real; is_link = true }

    places_after :
        (r : Bytes) (j : ℕ)
        → index_of_real r d.seen_real ≡ some j
        → (l : KeyPath) × (get_elem? (set_at i new d.paths) j ≡ some l) × (l.real_path ≡ r)
    places_after r j h = elim (ℕ_discrete i j) [
      | yes same ↦
          let (l, at_j, f) = places r j h in
          (
            new,
            subst (λ n. get_elem? (set_at i new d.paths) n ≡ some new) same
                (get_elem?-set_at_same i new d.paths at),
            ground arith,
          )
      | no other ↦
          let (l, at_j, f) = places r j h in
          (l, get_elem?-set_at_other i j new d.paths at_j other, f)
    ]

    indices_after :
        (j : ℕ) (l : KeyPath)
        → get_elem? (set_at i new d.paths) j ≡ some l
        → index_of_real l.real_path d.seen_real ≡ some j
    indices_after j l h = elim (get_elem?-set_at i j new d.paths h) [
      | inl (same, is_new) ↦ ground (arith, indices i k at)
      | inr old ↦ indices j l old
    ]

pub IsIndexed-appended :
    (d : Discovered) (abs real : Bytes) (link : Bool)
    → IsIndexed d
    → index_of_real real d.seen_real ≡ none
    → IsIndexed (record {
      seen = d.seen;
      seen_real = (real, length d.paths) ∷ d.seen_real;
      paths = d.paths ++ record { path = abs; real_path = real; is_link = link } ∷ [];
    })
unfolding IsIndexed HasPlaces HasIndices index_of_real
IsIndexed-appended d abs real link (places, indices) fresh = (places_after, indices_after)
  where
    new : KeyPath
    new = record { path = abs; real_path = real; is_link = link }

    places_after :
        (r : Bytes) (j : ℕ)
        → (if bytes_eq real r then some (length d.paths) else index_of_real r d.seen_real) ≡ some j
        → (l : KeyPath) × (get_elem? (d.paths ++ new ∷ []) j ≡ some l) × (l.real_path ≡ r)
    places_after r j h = elim (Bool-cases (bytes_eq real r)) [
      | inl same ↦ (
        new,
        ground (arith, get_elem?-append d.paths new []),
        ground (arith, bytes_eq_iff real r),
      )
      | inr other ↦
          let (l, at_j, f) = places r j (ground arith) in
          (l, get_elem?-append_old j new d.paths at_j, f)
    ]

    indices_after :
        (j : ℕ) (l : KeyPath)
        → get_elem? (d.paths ++ new ∷ []) j ≡ some l
        → (if bytes_eq real l.real_path
            then some (length d.paths)
            else index_of_real l.real_path d.seen_real)
          ≡ some j
    indices_after j l h = elim (get_elem?-append_one j new d.paths h) [
      | inl (at_end, is_new) ↦ ground (arith, bytes_eq_iff real real)
      | inr old ↦ ground (arith, indices j l old, bytes_eq_iff real l.real_path)
    ]

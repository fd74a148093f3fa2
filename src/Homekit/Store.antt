-- ===== src/Homekit/Store.antt =====
-- raop/types.rs: `MemoryPairingStore`, the keys of the paired controllers and the accessory's own seed.
-- No call of it panics while it holds a lock, so that the locks are always taken.
use mathlib.Core.Bool.{false≢true}
use shairplay_rust.Base.{
  ℕ, Bool, true, false, Option, none, some, List, [], ◌∷◌, if◌then◌else◌, bytes_eq, ◌≡◌, refl,
  bytes_eq_refl, Bool-cases, inl, inr, bytes_eq→≡, sym, ◌∙◌, ap,
}

pub record PairingStore : Type 0 where
  pub keys : List (List ℕ × List ℕ)
  pub identity_seed : Option (List ℕ)

abbrev pub default_store : PairingStore
default_store = record { keys = []; identity_seed = none }

if_twice {ℓ} :
    {A : Type ℓ} (b : Bool) (x y z : A)
    → (if b then x else (if b then y else z)) ≡ (if b then x else z)
if_twice true x y z = refl
if_twice false x y z = refl

other_test :
    (i id other : List ℕ)
    → bytes_eq i id ≡ false
    → bytes_eq i other ≡ true
    → bytes_eq id other ≡ false
other_test i id other e f = elim (Bool-cases (bytes_eq id other)) [
  | inl g ↦ absurd (
      false≢true (
        sym e
        ∙ ap (bytes_eq i) (bytes_eq→≡ id other g ∙ sym (bytes_eq→≡ i other f))
        ∙ bytes_eq_refl i))
  | inr g ↦ g
]

unfoldable pub find_key : List ℕ → List (List ℕ × List ℕ) → Option (List ℕ)
find_key device_id [] = none
find_key device_id ((id, key) ∷ rest) =
    if bytes_eq id device_id then some key else find_key device_id rest

unfoldable pub remove_key : List ℕ → List (List ℕ × List ℕ) → List (List ℕ × List ℕ)
remove_key device_id [] = []
remove_key device_id ((id, key) ∷ rest) =
    let kept = remove_key device_id rest in if bytes_eq id device_id then kept else (id, key) ∷ kept

unfoldable pub store_get : PairingStore → List ℕ → Option (List ℕ)
unfolding find_key
store_get s device_id = find_key device_id s.keys

unfoldable pub store_put : List ℕ → List ℕ → PairingStore → PairingStore
unfolding remove_key
store_put device_id public_key s = record s {
  keys = (device_id, public_key) ∷ remove_key device_id s.keys;
}

unfoldable pub store_remove : List ℕ → PairingStore → PairingStore
unfolding remove_key
store_remove device_id s = record s { keys = remove_key device_id s.keys }

unfoldable pub has_any_pairing : PairingStore → Bool
has_any_pairing s = elim s.keys [ [] ↦ false | k ∷ ks ↦ true ]

unfoldable pub load_identity : PairingStore → Option (List ℕ)
load_identity s = s.identity_seed

unfoldable pub save_identity : List ℕ → PairingStore → PairingStore
save_identity seed s = record s { identity_seed = some seed }

-- A removed id is not found, and every other id is found as before.
find_key-remove_key :
    (id other : List ℕ) (keys : List (List ℕ × List ℕ))
    → find_key other (remove_key id keys)
      ≡ (if bytes_eq id other then none else find_key other keys)
unfolding find_key remove_key
find_key-remove_key id other [] = elim (Bool-cases (bytes_eq id other)) [
  | inl e ↦ rw e refl
  | inr e ↦ rw e refl
]
find_key-remove_key id other ((i, key) ∷ rest) = elim (Bool-cases (bytes_eq i id)) [
  | inl e ↦
      rw (e, find_key-remove_key id other rest)
        (rw (bytes_eq→≡ i id e)
          (sym (if_twice (bytes_eq id other) none (some key) (find_key other rest))))
  | inr e ↦ elim (Bool-cases (bytes_eq i other)) [
    | inl f ↦ rw (e, f) (rw (other_test i id other e f) refl)
    | inr f ↦ rw (e, f) (find_key-remove_key id other rest)
  ]
]

-- What is put under an id is found there, and every other id keeps its key.
pub store_get-store_put :
    (id key other : List ℕ) (s : PairingStore)
    → store_get (store_put id key s) other
      ≡ (if bytes_eq id other then some key else store_get s other)
unfolding store_get store_put find_key
store_get-store_put id key other s =
    ap (λ found. (if bytes_eq id other then some key else found))
      (find_key-remove_key id other s.keys)
    ∙ if_twice (bytes_eq id other) (some key) none (find_key other s.keys)

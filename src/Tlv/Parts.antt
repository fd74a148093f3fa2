-- ===== src/Tlv/Parts.antt =====
-- crypto/tlv.rs: the getters of `TlvValues` against one another.
use shairplay_rust.Base.{
  ℕ, some, List, [], ◌∷◌, ◌++◌, ◌==◌, ◌≡◌, refl, sym, arith, if◌then◌else◌, Bool-cases, inl, inr,
  append-nil,
}
use mathlib.Core.List.{reverse, head?, reverse-append, reverse-cons}
use shairplay_rust.Tlv.{TlvValues, add, get, get_last, get_all}

-- `get` is the first element of `get_all`.
pub get-eq-head : (tag : ℕ) (es : TlvValues) → get tag es ≡ head? (get_all tag es)
unfolding get get_all
get-eq-head tag [] = refl
get-eq-head tag ((t, v) ∷ es) = ground (arith, get-eq-head tag es)

pub get_all-append :
    (tag : ℕ) (xs ys : TlvValues) → get_all tag (xs ++ ys) ≡ get_all tag xs ++ get_all tag ys
unfolding get_all
get_all-append tag [] ys = refl
get_all-append tag ((t, v) ∷ xs) ys = elim (Bool-cases (t == tag)) [
  | inl e ↦ rw (e, get_all-append tag xs ys)
  | inr e ↦ rw (e, get_all-append tag xs ys)
]

get_all_step :
    (tag t : ℕ) (v : List ℕ) (es : TlvValues)
    → reverse (get_all tag es) ++ get_all tag ((t, v) ∷ []) ≡ reverse (get_all tag ((t, v) ∷ es))
unfolding get_all
get_all_step tag t v es = elim (Bool-cases (t == tag)) [
  | inl e ↦ rw e (sym (reverse-cons v (get_all tag es)))
  | inr e ↦ rw e (append-nil (reverse (get_all tag es)))
]

get_all-reverse : (tag : ℕ) (es : TlvValues) → get_all tag (reverse es) ≡ reverse (get_all tag es)
get_all-reverse tag [] = unfold get_all in refl
get_all-reverse tag ((t, v) ∷ es) =
    rw (reverse-cons, get_all-append tag (reverse es) ((t, v) ∷ []), get_all-reverse tag es)
      (get_all_step tag t v es)

-- `get_last` is the last element of `get_all`.
pub get_last-eq-last :
    (tag : ℕ) (es : TlvValues) → get_last tag es ≡ head? (reverse (get_all tag es))
unfolding get_last
get_last-eq-last tag es = rw (get-eq-head tag (reverse es), get_all-reverse tag es)

-- What `add` added last is what `get_last` finds, and the other tags keep what they had.
pub get_last-add :
    (tag : ℕ) (value : List ℕ) (es : TlvValues) (other : ℕ)
    → get_last other (add tag value es) ≡ (if tag == other then some value else get_last other es)
unfolding add get_last get
get_last-add tag value es other = rw (reverse-append es ((tag, value) ∷ [])) refl

-- ===== src/BufferedAudio/Candidates.antt =====
-- raop/buffered_audio.rs: what `collect_aac_payload_candidates` returns.
use mathlib.Core.Bool.{false≢true}
use shairplay_rust.Base.{
  ℕ, ◌≤◌, Bool, true, false, ◌||◌, List, [], ◌∷◌, ◌++◌, length, ltb, ◌≡◌, refl, sym, ap, ◌∙◌,
  Bool-cases, inl, inr, bytes_eq, bytes_eq→≡, bytes_eq_refl, ltb→ge,
}
use shairplay_rust.BufferedAudio.{Candidate, has_seen, unique_loop, collect_aac_payload_candidates}

-- Slices of eight bytes at least, each of them there only once.
abbrev pub IsUnique : List Candidate → Type 0
IsUnique [] = Unit {0}
IsUnique (c ∷ rest) = (8 ≤ length c.0) × (has_seen rest c.0 ≡ false) × IsUnique rest

bytes_eq_sym : (s t : List ℕ) → bytes_eq s t ≡ false → bytes_eq t s ≡ false
bytes_eq_sym s t h = elim (Bool-cases (bytes_eq t s)) [
  | inl e ↦ absurd (false≢true (sym h ∙ ap (bytes_eq s) (bytes_eq→≡ t s e) ∙ bytes_eq_refl s))
  | inr e ↦ e
]

or_false : (a b : Bool) → (a || b) ≡ false → (a ≡ false) × (b ≡ false)
or_false false b h = (refl, h)
or_false true b h = absurd (false≢true (sym h))

has_seen_last :
    (unique : List Candidate) (c : Candidate) (slice : List ℕ)
    → has_seen unique slice ≡ false
    → bytes_eq c.0 slice ≡ false
    → has_seen (unique ++ (c ∷ [])) slice ≡ false
unfolding has_seen
has_seen_last [] c slice h e = rw e refl
has_seen_last (u ∷ rest) c slice h e =
    let (first, later) = or_false (bytes_eq u.0 slice) (has_seen rest slice) h in
    rw (first, has_seen_last rest c slice later e) refl

pushed-IsUnique :
    (unique : List Candidate) (c : Candidate)
    → 8 ≤ length c.0
    → has_seen unique c.0 ≡ false
    → IsUnique unique
    → IsUnique (unique ++ (c ∷ []))
unfolding has_seen
pushed-IsUnique [] c long h v = (long, refl, tt)
pushed-IsUnique (u ∷ rest) c long h (long', fresh, v) =
    let (first, later) = or_false (bytes_eq u.0 c.0) (has_seen rest c.0) h in
    (
      long',
      has_seen_last rest c u.0 fresh (bytes_eq_sym u.0 c.0 first),
      pushed-IsUnique rest c long later v,
    )

unique_loop-IsUnique :
    (unique candidates : List Candidate)
    → IsUnique unique
    → IsUnique (unique_loop unique candidates)
unfolding unique_loop
unique_loop-IsUnique unique [] v = v
unique_loop-IsUnique unique (c ∷ rest) v = elim (Bool-cases (ltb (length c.0) 8)) [
  | inl e ↦ rw (e, unique_loop) (unique_loop-IsUnique unique rest v)
  | inr e ↦ elim (Bool-cases (has_seen unique c.0)) [
    | inl f ↦ rw (e, f, unique_loop) (unique_loop-IsUnique unique rest v)
    | inr f ↦
        rw (e, f, unique_loop)
          (unique_loop-IsUnique (unique ++ (c ∷ [])) rest
            (pushed-IsUnique unique c (ltb→ge (length c.0) 8 e) f v))
  ]
]

-- The decoder is never asked twice about the same bytes, nor about fewer than eight.
pub collect_aac_payload_candidates-IsUnique :
    (payload : List ℕ) → IsUnique (collect_aac_payload_candidates payload)
unfolding collect_aac_payload_candidates
collect_aac_payload_candidates-IsUnique payload = unique_loop-IsUnique [] _ tt

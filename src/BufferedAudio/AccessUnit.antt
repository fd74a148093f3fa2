-- ===== src/BufferedAudio/AccessUnit.antt =====
-- raop/buffered_audio.rs: a payload whose header gives the size of its access unit.
use shairplay_rust.Base.{
  ℕ, suc, ◌+◌, ◌-◌, ◌*◌, ◌/◌, ◌%◌, ◌≤◌, ◌<◌, true, false, some, List, ◌∷◌, ◌++◌, length, leb, ◌==◌,
  ◌≡◌, refl, arith, length-append, take-append_exact,
}
use shairplay_rust.BufferedAudio.{extract_aac_access_unit}

-- A header of 16 bits, with the size of the unit in bits and three bits of an index.
abbrev pub au_header : ℕ → ℕ → ℕ
au_header size index = size * 8 * 8 + index

abbrev pub with_au_header : List ℕ → ℕ → List ℕ → List ℕ
with_au_header au index rest =
    0 ∷ 16 ∷ au_header (length au) index / 256 ∷ au_header (length au) index % 256 ∷ (au ++ rest)

size_in_bits :
    (n index : ℕ)
    → index < 8
    → (au_header n index / 256 * 256 + au_header n index % 256) / 8 ≡ n * 8
size_in_bits n index h = omega arith

size_in_bytes : (n : ℕ) → (n * 8 + 7) / 8 ≡ n
size_in_bytes n = omega arith

not_empty : (n : ℕ) → 1 ≤ n → (n * 8 == 0) ≡ false
not_empty n h = ground arith

at_most : (a b : ℕ) → a ≤ b → leb a b ≡ true
at_most a b h = ground arith

more_than : (a b : ℕ) → b < a → leb a b ≡ false
more_than a b h = ground arith

-- An access unit behind a header of its size is found, whatever follows it.
pub extract_aac_access_unit-with_au_header :
    (au : List ℕ) (index : ℕ) (rest : List ℕ)
    → 1 ≤ length au
    → index < 8
    → extract_aac_access_unit (with_au_header au index rest) ≡ some au
unfolding extract_aac_access_unit
extract_aac_access_unit-with_au_header au index rest some_bytes small =
    let n = length au in
    let whole = length (au ++ rest) in
    rw
      (
        more_than (suc (suc (suc (suc whole)))) 4 (omega (arith, length-append au rest)),
        size_in_bits n index small,
        not_empty n some_bytes,
        size_in_bytes n,
        at_most n (suc (suc (suc (suc whole))) - 4) (omega (arith, length-append au rest)),
        take-append_exact n au rest refl,
      )
      refl

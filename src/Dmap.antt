-- ===== src/Dmap.antt =====
-- proto/dmap.rs: the metadata of a track. The decoding of UTF-8 is the standard library's.
pub mod Items
mod Tests
use shairplay_rust.Base.{
  ℕ, zero, suc, ◌+◌, ◌-◌, min, Bool, true, false, not, ◌||◌, Option, none, some, List, [], ◌∷◌,
  ◌++◌, length, take, drop, ltb, ◌==◌, if◌then◌else◌, bytes_eq,
}
use shairplay_rust.Base.Text.{codes}
use shairplay_rust.Base.Words.{from_be_bytes}

pub record TrackMetadata : Type 0 where
  pub title : Option (List ℕ)
  pub artist : Option (List ℕ)
  pub album : Option (List ℕ)
  pub genre : Option (List ℕ)
  pub duration_ms : Option ℕ
  pub track_number : Option ℕ
  pub disc_number : Option ℕ

abbrev pub no_metadata : TrackMetadata
no_metadata = record {
  title = none;
  artist = none;
  album = none;
  genre = none;
  duration_ms = none;
  track_number = none;
  disc_number = none;
}

-- `from_utf8`, whose error is dropped.
abbrev pub Utf8 : Type 0
Utf8 = List ℕ → Option (List ℕ)

-- `chunk.try_into()` of so many bytes, and their number.
as_number : ℕ → List ℕ → Option ℕ
unfolding from_be_bytes
as_number size chunk = if length chunk == size then some (from_be_bytes chunk) else none

-- `if let Some(v) = found`
abbrev put_found {ℓ} : {A : Type ℓ} → Option A → (A → TrackMetadata) → TrackMetadata → TrackMetadata
put_found none put meta = meta
put_found (some v) put meta = put v

-- The arms of the match on the tag.
pub put_item : Utf8 → List ℕ → List ℕ → TrackMetadata → TrackMetadata
unfolding as_number
put_item utf8 tag chunk meta =
    if bytes_eq tag (codes "minm")
    then put_found (utf8 chunk) (λ v. record meta { title = some v }) meta
    else if bytes_eq tag (codes "asar")
    then put_found (utf8 chunk) (λ v. record meta { artist = some v }) meta
    else if bytes_eq tag (codes "asal")
    then put_found (utf8 chunk) (λ v. record meta { album = some v }) meta
    else if bytes_eq tag (codes "asgn")
    then put_found (utf8 chunk) (λ v. record meta { genre = some v }) meta
    else if bytes_eq tag (codes "astm")
    then put_found (as_number 4 chunk) (λ v. record meta { duration_ms = some v }) meta
    else if bytes_eq tag (codes "astn")
    then put_found (as_number 2 chunk) (λ v. record meta { track_number = some v }) meta
    else if bytes_eq tag (codes "asdk")
    then put_found (as_number 2 chunk) (λ v. record meta { disc_number = some v }) meta
    else meta

-- The loop over what is left of the payload; a round takes eight bytes at least.
pub items_loop : ℕ → Utf8 → List ℕ → TrackMetadata → TrackMetadata
unfolding put_item from_be_bytes
items_loop zero utf8 payload meta = meta
items_loop (suc fuel) utf8 payload meta = elim (ltb (length payload) 8) [
  | true ↦ meta
  | false ↦
      let len = from_be_bytes (take 4 (drop 4 payload)) in
      let rest = drop 8 payload in
      elim (ltb (length rest) len) [
        | true ↦ meta
        | false ↦
            items_loop fuel utf8 (drop len rest)
              (put_item utf8 (take 4 payload) (take len rest) meta)
      ]
]

-- The declared payload, or as much of it as there is.
pub from_dmap : Utf8 → List ℕ → TrackMetadata
unfolding items_loop from_be_bytes
from_dmap utf8 bytes =
    let declared_end = 8 + from_be_bytes (take 4 (drop 4 bytes)) in
    let end = min declared_end (length bytes) in
    if ltb (length bytes) 8 || not (bytes_eq (take 4 bytes) (codes "mlit"))
    then no_metadata
    else items_loop (length bytes) utf8 (take (end - 8) (drop 8 bytes)) no_metadata

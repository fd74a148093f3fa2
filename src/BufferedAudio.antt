-- ===== src/BufferedAudio.antt =====
-- raop/buffered_audio.rs: the parts of a buffered packet's payload that may be an AAC access unit.
pub mod Candidates
pub mod AccessUnit
mod Tests
use shairplay_rust.Base.{
  ℕ, zero, suc, ◌+◌, ◌-◌, ◌*◌, ◌/◌, ◌%◌, Bool, true, false, not, ◌&&◌, ◌||◌, Option, none, some,
  List, [], ◌∷◌, ◌++◌, length, take, drop, min, ltb, leb, ◌==◌, if◌then◌else◌, bytes_eq,
}

unfoldable pub extract_aac_access_unit : List ℕ → Option (List ℕ)
extract_aac_access_unit (a ∷ b ∷ c ∷ d ∷ rest) =
    let payload = a ∷ b ∷ c ∷ d ∷ rest in
    let au_headers_bits = a * 256 + b in
    let data_start = 2 + au_headers_bits / 8 in
    let au_size_bits = (c * 256 + d) / 8 in
    let au_size_bytes = (au_size_bits + 7) / 8 in
    let au = drop data_start payload in
    if au_headers_bits == 0 || not (au_headers_bits % 8 == 0) || ltb 128 au_headers_bits
    then none
    else if leb (length payload) data_start
    then none
    else if leb 16 au_headers_bits
    then if au_size_bits == 0
      then none
      else if leb au_size_bytes (length payload - data_start)
      then some (take au_size_bytes au)
      else none
    else if leb 8 (length au)
    then some au
    else none
extract_aac_access_unit payload = none

unfoldable pub extract_aac_access_unit_direct_header : List ℕ → Option (List ℕ)
extract_aac_access_unit_direct_header (a ∷ b ∷ c ∷ rest) =
    let au_size_bits = (a * 256 + b) / 8 in
    let au_size_bytes = (au_size_bits + 7) / 8 in
    let au = take au_size_bytes (c ∷ rest) in
    if au_size_bits == 0
    then none
    else if ltb (length (c ∷ rest)) au_size_bytes
    then none
    else if leb 8 (length au)
    then some au
    else none
extract_aac_access_unit_direct_header payload = none

unfoldable pub starts_with_adts_sync : List ℕ → Bool
starts_with_adts_sync (a ∷ b ∷ rest) = a == 0xFF && b / 16 % 16 == 15
starts_with_adts_sync payload = false

-- The labels, with the offset that they name.
pub data Label : Type 0 where
  aac_adts aac_adts_4 : Label
  aac_au aac_au_direct aac : ℕ → Label

abbrev pub Candidate : Type 0
Candidate = List ℕ × Label

abbrev labelled : Option (List ℕ) → Label → List Candidate
labelled none label = []
labelled (some slice) label = (slice, label) ∷ []

-- What the loop over so many offsets pushes.
unfoldable pub for_offsets : (ℕ → List Candidate) → ℕ → ℕ → List Candidate
for_offsets pushed zero offset = []
for_offsets pushed (suc n) offset = pushed offset ++ for_offsets pushed n (suc offset)

unfoldable pub adts_candidates : List ℕ → List Candidate
adts_candidates payload =
    (if starts_with_adts_sync payload && ltb 7 (length payload)
      then (drop 7 payload, aac_adts) ∷ []
      else [])
    ++ (if ltb 11 (length payload) && starts_with_adts_sync (drop 4 payload)
        then (drop 11 payload, aac_adts_4) ∷ []
        else [])

unfoldable pub au_candidates : List ℕ → ℕ → List Candidate
au_candidates payload offset =
    let view = drop offset payload in
    if ltb (length payload) (offset + 4)
    then []
    else labelled (extract_aac_access_unit view) (aac_au (min offset 16))
      ++ labelled (extract_aac_access_unit_direct_header view) (aac_au_direct (min offset 16))

unfoldable pub raw_candidates : List ℕ → ℕ → List Candidate
raw_candidates payload offset =
    if leb (length payload) (offset + 8)
    then []
    else (drop offset payload, aac (min offset 32)) ∷ []

unfoldable pub has_seen : List Candidate → List ℕ → Bool
has_seen [] slice = false
has_seen ((seen, label) ∷ rest) slice = bytes_eq seen slice || has_seen rest slice

-- The loop that drops what is short or was seen.
unfoldable pub unique_loop : List Candidate → List Candidate → List Candidate
unique_loop unique [] = unique
unique_loop unique ((slice, label) ∷ rest) =
    let kept = unique_loop unique rest in
    let pushed = unique_loop (unique ++ ((slice, label) ∷ [])) rest in
    if ltb (length slice) 8 then kept else if has_seen unique slice then kept else pushed

unfoldable pub collect_aac_payload_candidates : List ℕ → List Candidate
collect_aac_payload_candidates payload = unique_loop [] (
    adts_candidates payload
    ++ (for_offsets (au_candidates payload) 17 0 ++ for_offsets (raw_candidates payload) 33 0))

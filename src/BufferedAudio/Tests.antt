-- ===== src/BufferedAudio/Tests.antt =====
-- raop/buffered_audio.rs, examples: a unit of eight bytes behind a header, and the candidates of its payload.
use shairplay_rust.Base.{ℕ, some, List, [], ◌∷◌, length, ◌≡◌, refl, arith}
use shairplay_rust.BufferedAudio.{
  extract_aac_access_unit, collect_aac_payload_candidates, unique_loop, adts_candidates,
  for_offsets, au_candidates, raw_candidates, starts_with_adts_sync,
  extract_aac_access_unit_direct_header, has_seen,
}
use shairplay_rust.BufferedAudio.AccessUnit.{with_au_header, extract_aac_access_unit-with_au_header}
use shairplay_rust.BufferedAudio.Candidates.{IsUnique, collect_aac_payload_candidates-IsUnique}

abbrev unit : List ℕ
unit = 1 ∷ 2 ∷ 3 ∷ 4 ∷ 5 ∷ 6 ∷ 7 ∷ 8 ∷ []

abbrev payload : List ℕ
payload = with_au_header unit 0 (9 ∷ [])

extract_aac_access_unit-with_au_header_example : extract_aac_access_unit payload ≡ some unit
extract_aac_access_unit-with_au_header_example =
    extract_aac_access_unit-with_au_header unit 0 (9 ∷ []) (omega arith) (omega arith)

collect_aac_payload_candidates-IsUnique_example : IsUnique (collect_aac_payload_candidates payload)
collect_aac_payload_candidates-IsUnique_example = collect_aac_payload_candidates-IsUnique payload

-- The unit, and the payload from each of its first five bytes on.
candidates_of_payload : length (collect_aac_payload_candidates payload) ≡ 6
unfolding collect_aac_payload_candidates unique_loop adts_candidates for_offsets au_candidates
    raw_candidates starts_with_adts_sync extract_aac_access_unit
    extract_aac_access_unit_direct_header has_seen
candidates_of_payload = refl

-- ===== src/Digest/Tests.antt =====
-- proto/digest.rs, examples: a checksum of one byte in the place of MD5.
use shairplay_rust.Base.{ℕ, ◌+◌, ◌%◌, ◌<◌, true, some, List, [], ◌∷◌, All, ◌≡◌, refl, arith}
use shairplay_rust.Base.Words.{IsByte}
use shairplay_rust.Base.Text.{codes, as_bytes}
use shairplay_rust.Digest.{
  Md5, get_response, is_valid, digest_params, values, take_parts, no_fields, split_quoted_csv,
}
use shairplay_rust.Digest.Sound.{is_valid-get_response}
use shairplay_rust.Digest.Complete.{digest_header, is_valid-digest_header}

abbrev sum_of : List ℕ → ℕ
sum_of [] = 0
sum_of (b ∷ bs) = b + sum_of bs

abbrev checksum : Md5
checksum s = sum_of s % 256 ∷ []

checksum-IsByte : (s : List ℕ) → All IsByte (checksum s)
checksum-IsByte s = (below (sum_of s), tt)
  where
    below : (n : ℕ) → n % 256 < 256
    below n = omega arith

abbrev response : List ℕ
response =
    get_response checksum (codes "me") (codes "airplay") (codes "secret") (codes "0011")
      (codes "GET") (codes "/info")

abbrev authorization : List ℕ
authorization = digest_header (codes "me") (codes "airplay") (codes "0011") (codes "/info") response

is_valid-digest_header_example :
    is_valid checksum
      (codes "airplay")
      (codes "secret")
      (codes "0011")
      (codes "GET")
      (codes "/info")
      (some authorization)
    ≡ true
is_valid-digest_header_example =
    is_valid-digest_header checksum checksum-IsByte (codes "me") (codes "airplay") (codes "secret")
      (codes "0011") (codes "GET") (codes "/info") (refl, (refl, tt))
      (refl, (refl, (refl, (refl, (refl, (refl, (refl, tt))))))) (refl, (refl, (refl, (refl, tt))))
      (refl, (refl, (refl, (refl, (refl, tt)))))

is_valid-get_response_example :
    (params : List ℕ) × (username : List ℕ) × (found : List ℕ) × (digest_params authorization
      ≡ some params)
    × (values (take_parts no_fields (split_quoted_csv params))
        ≡ some (username, codes "airplay", codes "0011", codes "/info", found))
    × (as_bytes found
        ≡ get_response checksum username
            (codes "airplay")
            (codes "secret")
            (codes "0011")
            (codes "GET")
            (codes "/info"))
is_valid-get_response_example =
    is_valid-get_response checksum (codes "airplay") (codes "secret") (codes "0011") (codes "GET")
      (codes "/info") authorization is_valid-digest_header_example

-- The response is what the digits of the checksums of the three texts are.
response-digits : response ≡ codes "98"
unfolding get_response as_bytes
response-digits = refl

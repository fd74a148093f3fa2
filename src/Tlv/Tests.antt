-- ===== src/Tlv/Tests.antt =====
-- crypto/tlv.rs: examples.
use shairplay_rust.Base.{[], ◌∷◌, ◌++◌, replicate, refl, ◌≡◌, ◌≢◌}
use shairplay_rust.Tlv.{TlvValues, encode, decode, ok, stuck}
use shairplay_rust.Tlv.Decode.{decode-ne-stuck}
use shairplay_rust.Tlv.RoundTrip.{joined, joined_to, decode-encode_merged}

-- A value that ends with a full chunk, one of its tag that goes on with it, and one that stays apart.
abbrev three_values : TlvValues
three_values = (6, replicate 255 1) ∷ (6, 2 ∷ []) ∷ (6, 3 ∷ []) ∷ []

joined-three_values : joined three_values ≡ (6, replicate 255 1 ++ (2 ∷ [])) ∷ (6, 3 ∷ []) ∷ []
unfolding joined joined_to
joined-three_values = refl

decode-encode_merged_example : decode (encode three_values) ≡ ok (joined three_values)
decode-encode_merged_example = decode-encode_merged three_values

decode-ne-stuck_example : decode (6 ∷ 2 ∷ 1 ∷ []) ≢ stuck
decode-ne-stuck_example = decode-ne-stuck (6 ∷ 2 ∷ 1 ∷ [])

-- ===== src/Homekit/Tests.antt =====
-- crypto/pairing_homekit.rs and raop/types.rs, examples: primitives that keep the laws and nothing secret,
-- a small group, and a client that pairs.
use shairplay_rust.Base.{
  ℕ, ◌%◌, ◌^◌, true, false, Option, some, List, [], ◌∷◌, length, replicate, ◌≡◌, refl, ap, arith,
  ◌⊎◌,
}
use shairplay_rust.Base.Text.{codes}
use shairplay_rust.Tlv.{encode, decode}
use shairplay_rust.Crypto.Toy.{toy}
use shairplay_rust.Crypto.{ok, err, PairingError}
use shairplay_rust.Homekit.{g_3072}
use shairplay_rust.Homekit.Srp.{SrpServer, process_m3, expected_m}
use shairplay_rust.Homekit.Identity.{process_m5}
use shairplay_rust.Homekit.Verify.{PairVerifyServer, process_m3_build_m4, new_verify, agree}
use shairplay_rust.Homekit.Store.{PairingStore, default_store, store_get, store_put}
use shairplay_rust.Homekit.Agreement.{IsBigNum}
use shairplay_rust.Homekit.Accepts.{
  client_m3, client_proof, client_key, started, honest_secret, proved, accepted,
  process_m3-new_in_group,
}
use shairplay_rust.Homekit.Gates.{IsM3, process_m3-IsM3}
use shairplay_rust.Homekit.Signatures.{
  IsController, process_m5-IsController, IsPairedClient, process_m3_build_m4-IsPairedClient, m4,
}

toy-IsBigNum : IsBigNum toy
toy-IsBigNum = record { modpow_lem = λ a e n. refl; reads_back = λ n. refl }

toy-digest : (bytes : List ℕ) → length (toy.hash bytes) ≡ 64
toy-digest bytes = refl

abbrev pin : Option (List ℕ)
pin = some (codes "1234")

abbrev server : SrpServer
server = started toy 23 pin (7 ∷ []) (6 ∷ []) false

abbrev proof : List ℕ
proof = client_proof toy server (g_3072 ^ 4 % 23) (honest_secret toy 23 pin (7 ∷ []) 4 server.big_b)

process_m3-new_in_group_example :
    process_m3 toy (encode (client_m3 (toy.big_to_bytes_be (g_3072 ^ 4 % 23)) proof)) server ≡ (
      ok true,
      proved toy server
          (g_3072 ^ 4 % 23)
          proof
          (client_key toy (honest_secret toy 23 pin (7 ∷ []) 4 server.big_b)),
    )
process_m3-new_in_group_example =
    process_m3-new_in_group toy toy-IsBigNum 23 pin (7 ∷ []) (6 ∷ []) false 4 toy-digest
      (omega arith) (omega arith)

abbrev m3 : List ℕ
m3 = encode (client_m3 (toy.big_to_bytes_be (g_3072 ^ 4 % 23)) proof)

m3_accepted : (process_m3 toy m3 server).0 ≡ ok true
m3_accepted =
    ap (λ p. p.0)
      (process_m3-new_in_group toy toy-IsBigNum 23 pin (7 ∷ []) (6 ∷ []) false 4 toy-digest
        (omega arith) (omega arith))

process_m3-IsM3_example :
    (big_a : ℕ) × IsM3 toy server m3 big_a (expected_m toy server big_a)
    × ((process_m3 toy m3 server).1 ≡ accepted toy server big_a)
process_m3-IsM3_example = process_m3-IsM3 toy m3 server m3_accepted

abbrev verified_server : SrpServer
verified_server = record server { session_key = replicate 64 9; verified = true }

-- A controller `c` with a key of nines, and a signature that the toy accepts.
abbrev m5 : List ℕ
m5 = encode (
    (6, 5 ∷ []) ∷ (5, encode ((1, 99 ∷ []) ∷ (10, replicate 64 9) ∷ (3, replicate 32 9) ∷ [])) ∷ [])

m5_accepted : process_m5 toy m5 verified_server ≡ ok (99 ∷ [], replicate 32 9)
unfolding process_m5 encode decode
m5_accepted = refl

process_m5-IsController_example :
    (verified_server.verified ≡ true)
    × (verified_server.is_transient ≡ false)
    × (toy.is_utf8 (99 ∷ []) ≡ true)
    × IsController toy verified_server.session_key (99 ∷ []) (replicate 32 9)
process_m5-IsController_example =
    process_m5-IsController toy m5 verified_server (99 ∷ []) (replicate 32 9) m5_accepted

abbrev store : PairingStore
store = store_put (99 ∷ []) (replicate 32 9) default_store

abbrev agreed : PairVerifyServer
agreed = agree toy (replicate 32 4) (new_verify toy (codes "id") (replicate 32 1) (replicate 32 2))

-- M3 of the paired controller.
abbrev signed_m3 : List ℕ
signed_m3 = encode ((6, 3 ∷ []) ∷ (5, encode ((1, 99 ∷ []) ∷ (10, replicate 64 9) ∷ [])) ∷ [])

verify_m3_accepted :
    process_m3_build_m4 toy signed_m3 (some (store_get store)) agreed
    ≡ (ok (6 ∷ 1 ∷ 4 ∷ []), record agreed { completed = true })
unfolding process_m3_build_m4 encode decode store_get store_put agree new_verify
verify_m3_accepted = refl

process_m3_build_m4-IsPairedClient_example :
    ((e : PairingError) × (process_m3_build_m4 toy signed_m3 (some (store_get store)) agreed
        ≡ (err e, agreed)))
    ⊎ ((agreed.m1_processed ≡ true)
        × IsPairedClient toy (store_get store) agreed
        × (process_m3_build_m4 toy signed_m3 (some (store_get store)) agreed
            ≡ (ok m4, record agreed { completed = true })))
process_m3_build_m4-IsPairedClient_example =
    process_m3_build_m4-IsPairedClient toy signed_m3 (store_get store) agreed

-- ===== src/PairHandlers/Tests.antt =====
-- raop/handlers_ap2.rs, examples: a paired controller verifies itself on a connection that wants a PIN;
-- the primitives keep nothing secret.
use shairplay_rust.Base.{ℕ, false, some, none, List, [], ◌∷◌, replicate, ◌≡◌, refl}
use shairplay_rust.Base.Text.{codes}
use shairplay_rust.Tlv.{encode, decode, get}
use shairplay_rust.Crypto.Toy.{toy}
use shairplay_rust.Pairing.{create_session}
use shairplay_rust.Homekit.Srp.{new_server, process_m1}
use shairplay_rust.Homekit.Verify.{
  new_verify, process_m1_build_m2, process_m3_build_m4, verified_secret,
}
use shairplay_rust.Homekit.Store.{PairingStore, default_store, store_put, store_get}
use shairplay_rust.PairHandlers.{
  Shared, RaopConnection, Random, handle_pair_setup, handle_pair_verify, kind_of, kind_of_state,
  verify_in_state, verify_m1, verify_m3, setup_in_state, setup_m1,
}
use shairplay_rust.PairHandlers.Guarded.{Holds}
use shairplay_rust.PairHandlers.Reachable.{
  done, verify, new_connection, Reach, IsSigned, reach-IsSigned,
}

abbrev shared : Shared
shared = record {
  pin = some (codes "1234");
  device_id = codes "id";
  identity_seed = replicate 32 1;
  pairing_seed = replicate 32 1;
}

abbrev random : Random
random = record { salt_bytes = 7 ∷ []; b_bytes = 6 ∷ []; secret_bytes = replicate 32 2 }

abbrev store : PairingStore
store = store_put (99 ∷ []) (replicate 32 9) default_store

abbrev m1 : List ℕ
m1 = encode ((6, 1 ∷ []) ∷ (3, replicate 32 4) ∷ [])

abbrev m3 : List ℕ
m3 = encode ((6, 3 ∷ []) ∷ (5, encode ((1, 99 ∷ []) ∷ (10, replicate 64 9) ∷ [])) ∷ [])

abbrev first : RaopConnection
first = (handle_pair_verify toy shared random (some m1) (new_connection shared store)).1

abbrev second : RaopConnection
second = (handle_pair_verify toy shared random (some m3) first).1

second_secret : second.ap2_shared_secret ≡ some (replicate 32 4)
unfolding handle_pair_verify kind_of kind_of_state decode get encode verify_in_state verify_m1
    verify_m3 new_verify process_m1_build_m2 process_m3_build_m4 verified_secret store_get store_put
    new_connection create_session
second_secret = refl

second_reach : Reach toy shared second
unfolding Reach
second_reach = (store, verify random (some m3) (verify random (some m1) done))

reach-IsSigned_example :
    Holds (λ srp. srp.is_transient ≡ false) second.srp_server
    × Holds (IsSigned toy shared second) second.ap2_shared_secret
reach-IsSigned_example = reach-IsSigned toy shared (codes "1234") refl second second_reach

-- A transient pairing is refused when there is a PIN, and no server is kept.
transient_refused :
    (handle_pair_setup toy shared random
      (some (encode ((6, 1 ∷ []) ∷ (0, 0 ∷ []) ∷ (19, 0x10 ∷ []) ∷ [])))
      (new_connection shared store)).1.srp_server
    ≡ none
unfolding handle_pair_setup kind_of kind_of_state decode get encode setup_in_state setup_m1
    new_server process_m1 new_connection
transient_refused = refl

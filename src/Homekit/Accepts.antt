-- ===== src/Homekit/Accepts.antt =====
-- crypto/pairing_homekit.rs: `process_m3` on the message of a client that follows SRP-6a.
use mathlib.Core.Path.{ap₂}
use native.Mathlib.Nat.{mod-mod}
use shairplay_rust.Base.{
  ℕ, ◌%◌, ◌^◌, ◌<◌, ◌==◌, Bool, true, false, Option, List, [], ◌∷◌, length, ◌≡◌, ◌≢◌, refl, sym, ap,
  ◌∙◌, arith, bytes_eq_refl,
}
use shairplay_rust.Tlv.{TlvValues, encode, get_type}
use shairplay_rust.Tlv.RoundTrip.{IsSeparate, decode-encode}
use shairplay_rust.Crypto.{Crypto, ok}
use shairplay_rust.Homekit.{username, h_nn_pad, g_3072, n_3072_len, decode_tlv, to_bytes_be, sha512}
use shairplay_rust.Homekit.Srp.{
  SrpServer, new_in_group, calculate_m, calculate_h_amk, read_m3, process_m3, expected_m,
  derived_session_key,
}
use shairplay_rust.Homekit.Agreement.{
  IsBigNum, client_secret, private_key, server_secret-new_in_group,
}

pub decode_tlv-encode : (es : TlvValues) → IsSeparate es → decode_tlv (encode es) ≡ ok es
unfolding decode_tlv
decode_tlv-encode es h = rw (decode-encode es h, decode_tlv) refl

test_true : (a b : ℕ) → a ≡ b → (a == b) ≡ true
test_true a b h = ground arith

test_false : (a : ℕ) → a ≢ 0 → (a == 0) ≡ false
test_false a h = ground arith

-- M3: the state, the client's public value and its proof.
abbrev pub client_m3 : List ℕ → List ℕ → TlvValues
client_m3 pk_bytes proof = (6, 3 ∷ []) ∷ (3, pk_bytes) ∷ (4, proof) ∷ []

module _ (k : Crypto) where
  -- The server once it has accepted the public value.
  abbrev pub accepted : SrpServer → ℕ → SrpServer
  accepted s big_a = record s {
    session_key = derived_session_key k s big_a;
    m2 = calculate_h_amk k big_a (expected_m k s big_a) (derived_session_key k s big_a);
    verified = true;
  }

  read_m3-client_m3 :
      (s : SrpServer) (pk_bytes proof : List ℕ)
      → length proof ≡ 64
      → k.big_from_bytes_be pk_bytes % s.n ≢ 0
      → read_m3 k s (encode (client_m3 pk_bytes proof)) ≡ ok (k.big_from_bytes_be pk_bytes, proof)
  unfolding read_m3 get_type
  read_m3-client_m3 s pk_bytes proof len nonzero =
      rw
        (
          decode_tlv-encode (client_m3 pk_bytes proof) (refl, (refl, tt)),
          test_true (length proof) 64 len,
          test_false (k.big_from_bytes_be pk_bytes % s.n) nonzero,
        )
        refl

  -- Any server: the right proof for a public value that is not zero is accepted.
  pub process_m3-client_m3 :
      (s : SrpServer) (pk_bytes : List ℕ)
      → length (expected_m k s (k.big_from_bytes_be pk_bytes)) ≡ 64
      → k.big_from_bytes_be pk_bytes % s.n ≢ 0
      → process_m3 k (encode (client_m3 pk_bytes (expected_m k s (k.big_from_bytes_be pk_bytes)))) s
        ≡ (ok true, accepted s (k.big_from_bytes_be pk_bytes))
  unfolding process_m3
  process_m3-client_m3 s pk_bytes len nonzero =
      let m = expected_m k s (k.big_from_bytes_be pk_bytes) in
      rw (read_m3-client_m3 s pk_bytes m len nonzero, process_m3) (rw (bytes_eq_refl m) refl)

  -- The key and the proof of a client, from its own secret.
  abbrev pub client_key : ℕ → List ℕ
  client_key secret = k.hash (to_bytes_be k secret)

  abbrev pub client_proof : SrpServer → ℕ → ℕ → List ℕ
  client_proof s big_a secret =
      calculate_m k s.n g_3072 username (k.big_from_bytes_be s.salt) big_a s.big_b
        (client_key secret)

  -- A server behind M1.
  abbrev pub started : ℕ → Option (List ℕ) → List ℕ → List ℕ → Bool → SrpServer
  started n pin salt_bytes b_bytes transient = record (new_in_group k n pin salt_bytes b_bytes) {
    is_transient = transient;
  }

  -- The secret of the client with that PIN and that secret number.
  abbrev pub honest_secret : ℕ → Option (List ℕ) → List ℕ → ℕ → ℕ → ℕ
  honest_secret n pin salt_bytes a big_b =
      client_secret n g_3072 (h_nn_pad k n g_3072 n_3072_len) (private_key k pin salt_bytes) a
        (h_nn_pad k (g_3072 ^ a % n) big_b n_3072_len) big_b

  -- What the server stores of a proof that it accepted.
  abbrev pub proved : SrpServer → ℕ → List ℕ → List ℕ → SrpServer
  proved s big_a m key = record s {
    session_key = key;
    m2 = calculate_h_amk k big_a m key;
    verified = true;
  }

  module _ (big : IsBigNum k) where
    derived_key-started :
        (n : ℕ) (pin : Option (List ℕ)) (salt_bytes b_bytes : List ℕ) (transient : Bool) (a : ℕ)
        → 0 < n
        → derived_session_key k (started n pin salt_bytes b_bytes transient) (g_3072 ^ a % n)
          ≡ client_key
              (honest_secret n pin salt_bytes a (new_in_group k n pin salt_bytes b_bytes).big_b)
    unfolding derived_session_key sha512
    derived_key-started n pin salt_bytes b_bytes transient a pos =
        ap client_key (server_secret-new_in_group k big n pin salt_bytes b_bytes a pos)

    expected_m-started :
        (n : ℕ) (pin : Option (List ℕ)) (salt_bytes b_bytes : List ℕ) (transient : Bool) (a : ℕ)
        → 0 < n
        → expected_m k (started n pin salt_bytes b_bytes transient) (g_3072 ^ a % n)
          ≡ client_proof
              (started n pin salt_bytes b_bytes transient)
              (g_3072 ^ a % n)
              (honest_secret n pin salt_bytes a (new_in_group k n pin salt_bytes b_bytes).big_b)
    unfolding expected_m new_in_group
    expected_m-started n pin salt_bytes b_bytes transient a pos =
        ap
          (λ key.
            calculate_m k n g_3072 username (k.big_from_bytes_be salt_bytes) (g_3072 ^ a % n)
              (new_in_group k n pin salt_bytes b_bytes).big_b key)
          (derived_key-started n pin salt_bytes b_bytes transient a pos)

    -- A client that has the PIN is accepted whatever its secret number is, as long as its public value
    -- is not zero: the proof of its own secret is the expected one, and its key is the server's.
    pub process_m3-new_in_group :
        (n : ℕ) (pin : Option (List ℕ)) (salt_bytes b_bytes : List ℕ) (transient : Bool) (a : ℕ)
        → ((bytes : List ℕ) → length (k.hash bytes) ≡ 64)
        → 0 < n
        → g_3072 ^ a % n ≢ 0
        → let s = started n pin salt_bytes b_bytes transient in
          let big_a = g_3072 ^ a % n in
          let secret = honest_secret n pin salt_bytes a s.big_b in
          process_m3 k
            (encode (client_m3 (k.big_to_bytes_be big_a) (client_proof s big_a secret)))
            s
          ≡ (ok true, proved s big_a (client_proof s big_a secret) (client_key secret))
    unfolding calculate_m sha512 new_in_group
    process_m3-new_in_group n pin salt_bytes b_bytes transient a full pos nonzero =
        let s = started n pin salt_bytes b_bytes transient in
        let big_a = g_3072 ^ a % n in
        let pk = big.reads_back big_a in
        let m = expected_m-started n pin salt_bytes b_bytes transient a pos in
        let m' = ap (expected_m k s) pk ∙ m in
        ap (λ p. process_m3 k (encode (client_m3 (k.big_to_bytes_be big_a) p)) s) (sym m')
        ∙ process_m3-client_m3 s (k.big_to_bytes_be big_a) (ap length m' ∙ full _)
            (λ z. nonzero (sym (mod-mod (g_3072 ^ a) n) ∙ ap (λ x. x % n) (sym pk) ∙ z))
        ∙ ap (λ x. (ok true, accepted s x)) pk
        ∙ ap₂ (λ p key. (ok true, proved s big_a p key)) m
            (derived_key-started n pin salt_bytes b_bytes transient a pos)

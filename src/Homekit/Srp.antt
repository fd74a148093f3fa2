-- ===== src/Homekit/Srp.antt =====
-- crypto/pairing_homekit.rs: `SrpServer`, the accessory's side of SRP-6a in pair-setup, M1 to M4.
use shairplay_rust.Base.{
  ℕ, ◌+◌, ◌*◌, ◌%◌, Bool, true, false, not, ◌&&◌, Option, none, some, List, [], ◌∷◌, ◌++◌, length,
  ◌==◌, if◌then◌else◌, bytes_eq,
}
use shairplay_rust.Base.Text.{codes}
use shairplay_rust.Tlv.{TlvType, get_type, add, encode, tag_of}
use shairplay_rust.Aes.{xor_bytes}
use shairplay_rust.Crypto.{
  Crypto, Result, ok, err, ◌>>=◌, ◌>>◌, ok_or, guard, no_group, missing_method, unexpected_method,
  transient_disabled, missing_public_key, missing_proof, invalid_proof_length, a_mod_n_zero,
}
use shairplay_rust.Homekit.{
  decode_tlv, username, transient_pin, pairing_method_pair_setup, pairing_flags_transient,
  pairing_error_response, n_3072_len, n_3072_hex, g_3072, sha512, to_bytes_be, to_bytes_be_padded,
  h_nn_pad,
}

pub record SrpServer : Type 0 where
  pub n : ℕ
  pub g : ℕ
  pub salt : List ℕ
  pub v : ℕ
  pub b : ℕ
  pub big_b : ℕ
  pub session_key : List ℕ
  pub m2 : List ℕ
  pub is_transient : Bool
  pub allow_transient : Bool
  pub verified : Bool

abbrev pub is_none {ℓ} : {A : Type ℓ} → Option A → Bool
is_none none = true
is_none (some a) = false

abbrev pub pin_or_transient : Option (List ℕ) → List ℕ
pin_or_transient none = transient_pin
pin_or_transient (some pin) = pin

-- Whether the flags ask for a transient pairing: exactly the one byte.
unfoldable pub asks_transient : Option (List ℕ) → Bool
asks_transient none = false
asks_transient (some f) = bytes_eq f (pairing_flags_transient ∷ [])

-- What `process_m1` reads: whether M1 asks for a transient pairing.
unfoldable pub read_m1 : List ℕ → Result Bool
unfolding decode_tlv get_type asks_transient
read_m1 data_bytes = do
  tlv ← decode_tlv data_bytes
  method ← ok_or (get_type TlvType.method tlv) missing_method
  guard (bytes_eq method (pairing_method_pair_setup ∷ [])) unexpected_method
  ok (asks_transient (get_type TlvType.flags tlv))

-- The flag is written before it is refused.
unfoldable pub process_m1 : List ℕ → SrpServer → Result (Unit {0}) × SrpServer
unfolding read_m1
process_m1 data_bytes s = elim (read_m1 data_bytes) [
  | err e ↦ (err e, s)
  | ok transient ↦
      if transient && not s.allow_transient
      then (err transient_disabled, record s { is_transient = transient })
      else (ok tt, record s { is_transient = transient })
]

-- What `process_m3` reads before it writes anything: the client's public value and its proof.
unfoldable pub read_m3 : Crypto → SrpServer → List ℕ → Result (ℕ × List ℕ)
unfolding decode_tlv get_type
read_m3 k s data_bytes = do
  tlv ← decode_tlv data_bytes
  pk_bytes ← ok_or (get_type TlvType.public_key tlv) missing_public_key
  proof ← ok_or (get_type TlvType.proof tlv) missing_proof
  guard (length proof == 64) invalid_proof_length
  guard (not (k.big_from_bytes_be pk_bytes % s.n == 0)) a_mod_n_zero
  ok (k.big_from_bytes_be pk_bytes, proof)

module _ (k : Crypto) where
  -- x = H(salt || H("username:password"))
  unfoldable pub calculate_x : ℕ → List ℕ → List ℕ → ℕ
  unfolding sha512 to_bytes_be
  calculate_x salt name password =
      k.big_from_bytes_be
        (sha512 k (to_bytes_be k salt ++ sha512 k (name ++ (codes ":" ++ password))))

  -- M = H(H(N) XOR H(g) || H(username) || salt || A || B || K)
  unfoldable pub calculate_m : ℕ → ℕ → List ℕ → ℕ → ℕ → ℕ → List ℕ → List ℕ
  unfolding sha512 to_bytes_be
  calculate_m n g name salt big_a big_b session_key =
      let h_n = sha512 k (to_bytes_be k n) in
      let h_g = sha512 k (to_bytes_be k g) in
      sha512 k (
        xor_bytes h_n h_g
        ++ (sha512 k name
            ++ (to_bytes_be k salt
                ++ (to_bytes_be k big_a ++ (to_bytes_be k big_b ++ session_key)))))

  -- H_AMK = H(A || M || K)
  unfoldable pub calculate_h_amk : ℕ → List ℕ → List ℕ → List ℕ
  unfolding sha512 to_bytes_be
  calculate_h_amk big_a m session_key = sha512 k (to_bytes_be k big_a ++ (m ++ session_key))

  -- The server of a group, with the random bytes of the salt and of `b`.
  unfoldable pub new_in_group : ℕ → Option (List ℕ) → List ℕ → List ℕ → SrpServer
  unfolding calculate_x h_nn_pad
  new_in_group n pin salt_bytes b_bytes =
      let x = calculate_x (k.big_from_bytes_be salt_bytes) username (pin_or_transient pin) in
      let v = k.modpow g_3072 x n in
      let mult = h_nn_pad k n g_3072 n_3072_len in
      let b = k.big_from_bytes_be b_bytes in
      record {
        n = n;
        g = g_3072;
        salt = salt_bytes;
        v = v;
        b = b;
        big_b = (mult * v % n + k.modpow g_3072 b n) % n;
        session_key = [];
        m2 = [];
        is_transient = false;
        allow_transient = is_none pin;
        verified = false;
      }

  unfoldable pub new_server : Option (List ℕ) → List ℕ → List ℕ → Result SrpServer
  unfolding new_in_group n_3072_hex
  new_server pin salt_bytes b_bytes = do
    n ← ok_or (k.parse_hex n_3072_hex) no_group
    ok (new_in_group n pin salt_bytes b_bytes)

  -- S = (A * v^u)^b mod N
  unfoldable pub server_secret : SrpServer → ℕ → ℕ
  unfolding h_nn_pad
  server_secret s big_a =
      let u = h_nn_pad k big_a s.big_b n_3072_len in
      let vu = k.modpow s.v u s.n in k.modpow (big_a * vu % s.n) s.b s.n

  -- The key that `process_m3` derives, and the proof that it expects.
  unfoldable pub derived_session_key : SrpServer → ℕ → List ℕ
  unfolding sha512 to_bytes_be server_secret
  derived_session_key s big_a = sha512 k (to_bytes_be k (server_secret s big_a))

  unfoldable pub expected_m : SrpServer → ℕ → List ℕ
  unfolding calculate_m derived_session_key
  expected_m s big_a =
      calculate_m s.n s.g username (k.big_from_bytes_be s.salt) big_a s.big_b
        (derived_session_key s big_a)

  unfoldable pub process_m3 : List ℕ → SrpServer → Result Bool × SrpServer
  unfolding read_m3 derived_session_key expected_m calculate_h_amk
  process_m3 data_bytes s = elim (read_m3 k s data_bytes) [
    | err e ↦ (err e, s)
    | ok (big_a, proof) ↦
        let key = derived_session_key s big_a in
        let m = expected_m s big_a in
        if bytes_eq proof m
        then (
          ok true,
          record s { session_key = key; m2 = calculate_h_amk big_a m key; verified = true },
        )
        else (ok false, record s { session_key = key; verified = false })
  ]

  -- Build M2 response: State=2, Salt, PublicKey(B).
  unfoldable pub build_m2 : SrpServer → List ℕ
  unfolding add encode tag_of to_bytes_be_padded
  build_m2 s = encode (
      add (tag_of TlvType.public_key) (to_bytes_be_padded k s.big_b n_3072_len)
        (add (tag_of TlvType.salt) s.salt (add (tag_of TlvType.state) (2 ∷ []) [])))

unfoldable pub build_m4 : SrpServer → List ℕ
unfolding add encode tag_of
build_m4 s =
    if s.verified
    then encode (add (tag_of TlvType.proof) s.m2 (add (tag_of TlvType.state) (4 ∷ []) []))
    else pairing_error_response 4

unfoldable pub shared_secret : SrpServer → Option (List ℕ)
shared_secret s = if s.verified && s.is_transient then some s.session_key else none

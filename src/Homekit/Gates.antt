-- ===== src/Homekit/Gates.antt =====
-- crypto/pairing_homekit.rs: what a message has shown when the server accepts it.
use mathlib.Core.Path.{subst}
use shairplay_rust.Base.{
  ℕ, ◌%◌, ◌==◌, List, true, false, not, some, length, ◌≡◌, ◌≢◌, refl, sym, ap, ◌∙◌, arith, bytes_eq,
  bytes_eq→≡, Bool-cases, inl, inr, ◌⊎◌,
}
use shairplay_rust.Tlv.{TlvType, TlvValues, get_type}
use shairplay_rust.Crypto.{
  ok_or, missing_public_key, missing_proof, invalid_proof_length, a_mod_n_zero, Crypto, Result, ok,
  err, PairingError, bind_ok, then_ok, ok_or-ok,
}
use shairplay_rust.Homekit.{decode_tlv}
use shairplay_rust.Homekit.Srp.{SrpServer, read_m3, process_m3, expected_m}
use shairplay_rust.Homekit.Accepts.{accepted}

pub Result-cases {ℓ} :
    {A : Type ℓ} (r : Result A) → ((e : PairingError) × (r ≡ err e)) ⊎ ((a : A) × (r ≡ ok a))
Result-cases (err e) = inl (e, refl)
Result-cases (ok a) = inr (a, refl)

test_eq : (a b : ℕ) → (a == b) ≡ true → a ≡ b
test_eq a b h = ground arith

test_ne : (a : ℕ) → not (a == 0) ≡ true → a ≢ 0
test_ne a h = ground arith

module _ (k : Crypto) where
  process_m3_with :
      (bytes : List ℕ) (s : SrpServer) (big_a : ℕ) (proof : List ℕ)
      → read_m3 k s bytes ≡ ok (big_a, proof)
      → (process_m3 k bytes s).0 ≡ ok true
      → (proof ≡ expected_m k s big_a) × ((process_m3 k bytes s).1 ≡ accepted k s big_a)
  unfolding process_m3
  process_m3_with bytes s big_a proof read h =
      elim (Bool-cases (bytes_eq proof (expected_m k s big_a))) [
        | inl e ↦ (bytes_eq→≡ proof (expected_m k s big_a) e, rw (read, process_m3) (rw e refl))
        | inr e ↦
            let refused : (process_m3 k bytes s).0 ≡ ok false = rw (read, process_m3) (rw e refl) in
            absurd cc
      ]

  -- What M3 holds when its reading succeeds.
  pub IsM3 : SrpServer → List ℕ → ℕ → List ℕ → Type 0
  unfolding read_m3
  IsM3 s bytes big_a proof =
      (tlv : TlvValues) × (pk_bytes : List ℕ) × (decode_tlv bytes ≡ ok tlv)
      × (get_type TlvType.public_key tlv ≡ some pk_bytes)
      × (get_type TlvType.proof tlv ≡ some proof)
      × (length proof ≡ 64)
      × (big_a ≡ k.big_from_bytes_be pk_bytes)
      × (big_a % s.n ≢ 0)

  read_m3-IsM3 :
      (s : SrpServer) (bytes : List ℕ) (big_a : ℕ) (proof : List ℕ)
      → read_m3 k s bytes ≡ ok (big_a, proof)
      → IsM3 s bytes big_a proof
  unfolding read_m3 IsM3
  read_m3-IsM3 s bytes big_a proof h =
      let (tlv, decoded, h) = bind_ok (decode_tlv bytes) _ (big_a, proof) h in
      let pk = get_type TlvType.public_key tlv in
      let (pk_bytes, found_pk, h) = bind_ok (ok_or pk missing_public_key) _ (big_a, proof) h in
      let pr = get_type TlvType.proof tlv in
      let (m, found_m, h) = bind_ok (ok_or pr missing_proof) _ (big_a, proof) h in
      let (len, h) = then_ok (length m == 64) invalid_proof_length _ (big_a, proof) h in
      let zero_test = k.big_from_bytes_be pk_bytes % s.n == 0 in
      let (nonzero, h) = then_ok (not zero_test) a_mod_n_zero _ (big_a, proof) h in
      let value : k.big_from_bytes_be pk_bytes ≡ big_a = cc in
      let same : m ≡ proof = cc in
      (
        tlv,
        pk_bytes,
        decoded,
        ok_or-ok pk missing_public_key pk_bytes found_pk,
        ok_or-ok pr missing_proof m found_m ∙ ap some same,
        subst (λ p. length p ≡ 64) same (test_eq (length m) 64 len),
        sym value,
        subst (λ a. a % s.n ≢ 0) value (test_ne (k.big_from_bytes_be pk_bytes % s.n) nonzero),
      )

  process_m3_failed :
      (bytes : List ℕ) (s : SrpServer) (e : PairingError)
      → read_m3 k s bytes ≡ err e
      → process_m3 k bytes s ≡ (err e, s)
  unfolding process_m3
  process_m3_failed bytes s e read = rw (read, process_m3) refl

  -- An accepted M3 holds a public value that is not zero modulo N and, as its proof, the 64 bytes that
  -- the server computes for that value; the server then has the key of that value and is verified.
  pub process_m3-IsM3 :
      (bytes : List ℕ) (s : SrpServer)
      → (process_m3 k bytes s).0 ≡ ok true
      → (big_a : ℕ) × IsM3 s bytes big_a (expected_m k s big_a)
        × ((process_m3 k bytes s).1 ≡ accepted k s big_a)
  process_m3-IsM3 bytes s h = elim (Result-cases (read_m3 k s bytes)) [
    | inl (e, read) ↦ let failed = ap (λ p. p.0) (process_m3_failed bytes s e read) in absurd cc
    | inr (r, read) ↦
        let (same, after) = process_m3_with bytes s r.0 r.1 read h in
        (r.0, subst (λ p. IsM3 s bytes r.0 p) same (read_m3-IsM3 s bytes r.0 r.1 read), after)
  ]

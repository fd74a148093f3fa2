-- ===== src/Pairing/Handshake.antt =====
-- crypto/pairing.rs: a client that shares the AES stream with the accessory, from the handshake on.
use shairplay_rust.Base.{
  ℕ, List, [], ◌∷◌, ◌++◌, true, length, take, replicate, ◌≡◌, refl, sym, ap, ◌∙◌, arith, All,
}
use shairplay_rust.Base.Words.{IsByte}
use shairplay_rust.Aes.{AesCtr, encrypt, BlockCipher, new_ctr}
use shairplay_rust.Aes.Stream.{
  IsBlockCipher, IsSound, new_ctr-IsSound, after_bytes, after_bytes-IsSound, stream_next,
  encrypt-by_bytes, encrypt_twice,
}
use shairplay_rust.Crypto.{Crypto, ok}
use shairplay_rust.Pairing.{
  PairingSession, handshake, finished, open_signature, check_finish, finish, salt_key, salt_iv,
}

module _ (cipher : BlockCipher) where
  -- How far the stream is taken depends on the number of bytes alone.
  after_bytes-length :
      (c : AesCtr) (xs ys : List ℕ)
      → length xs ≡ length ys
      → after_bytes cipher c xs ≡ after_bytes cipher c ys
  unfolding after_bytes
  after_bytes-length c [] [] h = refl
  after_bytes-length c [] (y ∷ ys) h = absurd (omega arith)
  after_bytes-length c (x ∷ xs) [] h = absurd (omega arith)
  after_bytes-length c (x ∷ xs) (y ∷ ys) h =
      after_bytes-length (stream_next cipher c) xs ys (omega arith)

module _ (k : Crypto) (full : IsBlockCipher k.encrypt_block) where
  -- What a client sends: its signature, encrypted behind the 64 bytes of the accessory's.
  abbrev pub client_message : AesCtr → List ℕ → List ℕ → List ℕ
  client_message aes theirs signature =
      (encrypt k.encrypt_block (encrypt k.encrypt_block aes theirs).1 signature).0

  open_signature-client :
      (aes : AesCtr) (theirs signature : List ℕ)
      → IsSound aes
      → length theirs ≡ 64
      → All IsByte signature
      → open_signature k aes (client_message aes theirs signature) ≡ signature
  unfolding open_signature
  open_signature-client aes theirs signature sound len bytes =
      let at_theirs = ap (λ p. p.1) (encrypt-by_bytes k.encrypt_block full aes theirs sound) in
      let at_dummy =
        ap (λ p. p.1) (encrypt-by_bytes k.encrypt_block full aes (replicate 64 0) sound) in
      let same =
        at_dummy
        ∙ after_bytes-length k.encrypt_block aes (replicate 64 0) theirs (sym len)
        ∙ sym at_theirs in
      let ahead = after_bytes-IsSound k.encrypt_block full aes theirs sound in
      ap (λ c. (encrypt k.encrypt_block c (client_message aes theirs signature)).0)
        (same ∙ at_theirs)
      ∙ ap
          (λ c.
            (encrypt k.encrypt_block (after_bytes k.encrypt_block aes theirs)
              (encrypt k.encrypt_block c signature).0).0)
          at_theirs
      ∙ ap (λ p. p.0)
          (encrypt_twice k.encrypt_block full (after_bytes k.encrypt_block aes theirs) signature
            ahead bytes)

  -- The AES context that both sides derive of the shared secret.
  abbrev pub session_aes : List ℕ → AesCtr
  session_aes secret =
      new_ctr (take 16 (k.hash (salt_key ++ secret))) (take 16 (k.hash (salt_iv ++ secret)))

  check_finish-client_message :
      (s : PairingSession) (theirs signature : List ℕ)
      → s.status ≡ handshake
      → length theirs ≡ 64
      → All IsByte signature
      → k.is_key s.ed_theirs ≡ true
      → k.verify s.ed_theirs (s.ecdh_theirs ++ s.ecdh_ours) signature ≡ true
      → check_finish k s (client_message (session_aes s.ecdh_secret) theirs signature) ≡ ok tt
  unfolding check_finish
  check_finish-client_message s theirs signature at len bytes is_key signed =
      let aes = session_aes s.ecdh_secret in
      rw
        (
          at,
          is_key,
          open_signature-client aes theirs signature
              (new_ctr-IsSound (take 16 (k.hash (salt_key ++ s.ecdh_secret)))
                (take 16 (k.hash (salt_iv ++ s.ecdh_secret))))
              len bytes,
          signed,
        )
        refl

  -- A client finishes the handshake that sends, behind the 64 bytes of the accessory's signature on the
  -- same AES stream, a signature of both keys that verifies under the key it gave: the dummy round of
  -- `finish` takes the stream exactly as far.
  pub finish-client_message :
      (s : PairingSession) (theirs signature : List ℕ)
      → s.status ≡ handshake
      → length theirs ≡ 64
      → All IsByte signature
      → k.is_key s.ed_theirs ≡ true
      → k.verify s.ed_theirs (s.ecdh_theirs ++ s.ecdh_ours) signature ≡ true
      → finish k (client_message (session_aes s.ecdh_secret) theirs signature) s
        ≡ (ok tt, record s { status = finished })
  unfolding finish
  finish-client_message s theirs signature at len bytes is_key signed =
      rw (check_finish-client_message s theirs signature at len bytes is_key signed, finish) refl

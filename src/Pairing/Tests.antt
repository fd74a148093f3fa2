-- ===== src/Pairing/Tests.antt =====
-- crypto/pairing.rs, examples: a session whose client signs as the accessory expects, with primitives
-- that keep the laws and nothing secret.
use shairplay_rust.Base.{ℕ, List, replicate, ◌≡◌, refl, arith}
use shairplay_rust.Aes.{encrypt}
use shairplay_rust.Aes.Stream.{IsBlockCipher}
use shairplay_rust.Crypto.Toy.{toy}
use shairplay_rust.Crypto.{ok}
use shairplay_rust.Pairing.{
  PairingSession, finished, create_session, start_handshake, agree, finish,
}
use shairplay_rust.Pairing.Handshake.{client_message, session_aes, finish-client_message}
use shairplay_rust.Pairing.Session.{fresh, shaken, closed, IsConfirmed, reach-IsConfirmed}

toy-IsBlockCipher : IsBlockCipher toy.encrypt_block
toy-IsBlockCipher key block = refl

abbrev seed : List ℕ
seed = replicate 32 1

abbrev session : PairingSession
session = agree toy (replicate 32 2) (replicate 32 4) (replicate 32 9) (create_session seed)

abbrev message : List ℕ
message =
    client_message toy toy-IsBlockCipher (session_aes toy toy-IsBlockCipher session.ecdh_secret)
      (replicate 64 3) (replicate 64 9)

finish-client_message_example :
    finish toy message session ≡ (ok tt, record session { status = finished })
unfolding agree
finish-client_message_example =
    finish-client_message toy toy-IsBlockCipher session (replicate 64 3) (replicate 64 9) refl refl
      (omega arith) refl refl

-- A fresh session behind the handshake, and behind the client's signature.
abbrev shaken_session : PairingSession
shaken_session =
    (start_handshake toy (replicate 32 2) (replicate 32 4) (replicate 32 9) (create_session seed)).1

abbrev closed_session : PairingSession
closed_session = (finish toy message shaken_session).1

closed_session-status : closed_session.status ≡ finished
unfolding finish start_handshake create_session agree encrypt
closed_session-status = refl

reach-IsConfirmed_example : IsConfirmed toy closed_session
reach-IsConfirmed_example =
    reach-IsConfirmed toy seed closed_session
      (closed message (shaken (replicate 32 2) (replicate 32 4) (replicate 32 9) fresh))
      closed_session-status

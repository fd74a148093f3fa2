-- ===== src/ChachaTransport/Tests.antt =====
-- crypto/chacha_transport.rs: examples, with a stand-in for the cipher that adds sixteen zeros and
-- takes them off.
use shairplay_rust.Base.{
  ℕ, ◌+◌, ◌-◌, ◌≤◌, ◌<◌, List, [], ◌∷◌, ◌++◌, ◌≡◌, refl, arith, replicate, length, take, drop, some,
  ◌⊎◌, length-append, take-append_exact, sym, ap, ◌∙◌,
}
use shairplay_rust.Base.Words.{u16_to_le_bytes, from_le_bytes}
use shairplay_rust.ChachaTransport.{
  Aead, CipherContext, ok, err, encrypt, encrypt_loop, seal_chunk, decrypt, decrypt_loop,
  open_frame, u64_max, exhausted_before_encryption,
}
use shairplay_rust.ChachaTransport.Stream.{prepend, decrypt_pieces}
use shairplay_rust.ChachaTransport.RoundTrip.{IsAead, decrypt-encrypt, blocks}
use shairplay_rust.ChachaTransport.Nonces.{encrypt-exhausted}

abbrev open_toy : List ℕ → List ℕ
open_toy ct = take (length ct - 16) ct

abbrev toy : Aead
toy = record {
  encrypt = λ key n ad m. some (m ++ replicate 16 0);
  decrypt = λ key n ad ct. some (open_toy ct);
}

inside : (m ct : List ℕ) → some (m ++ replicate 16 0) ≡ some ct → m ++ replicate 16 0 ≡ ct
inside m ct e = cc

open_toy_lem : (m ct : List ℕ) → some (m ++ replicate 16 0) ≡ some ct → some (open_toy ct) ≡ some m
open_toy_lem m ct e =
    ap (λ x. some (open_toy x)) (sym (inside m ct e))
    ∙ ap some (take-append_exact (length (m ++ replicate 16 0) - 16) m (replicate 16 0) long)
  where
    long : length m ≡ length (m ++ replicate 16 0) - 16
    long = omega (arith, length-append m (replicate 16 0))

toy-IsAead : IsAead toy
toy-IsAead = record {
  opens = λ key n ad m ct e. open_toy_lem m ct e;
  overhead = λ key n ad m ct e. ap length (sym (inside m ct e)) ∙ length-append m (replicate 16 0);
}

abbrev start : CipherContext
start = record { key = []; counter = 0 }

abbrev next : CipherContext
next = record { key = []; counter = 1 }

abbrev wire : List ℕ
wire = 2 ∷ 0 ∷ 5 ∷ 6 ∷ replicate 16 0

encrypted : encrypt toy start (5 ∷ 6 ∷ []) ≡ (ok wire, next)
unfolding encrypt encrypt_loop seal_chunk u16_to_le_bytes
encrypted = refl

decrypt-encrypt_example :
    decrypt toy start (wire ++ 1 ∷ []) ≡ prepend (5 ∷ 6 ∷ []) 20 (decrypt toy next (1 ∷ []))
decrypt-encrypt_example =
    decrypt-encrypt toy start (5 ∷ 6 ∷ []) wire (1 ∷ []) next toy-IsAead encrypted

-- The first piece ends inside the second frame.
abbrev first_piece : List ℕ
first_piece = wire ++ 1 ∷ []

first_read : decrypt toy start first_piece ≡ (ok (5 ∷ 6 ∷ [], 20), next)
unfolding decrypt decrypt_loop open_frame from_le_bytes
first_read = refl

decrypt_pieces_example :
    (20 ≤ 21)
    × (decrypt toy start (first_piece ++ 0 ∷ [])
        ≡ prepend (5 ∷ 6 ∷ []) 20 (decrypt toy next (drop 20 first_piece ++ 0 ∷ [])))
decrypt_pieces_example =
    decrypt_pieces toy start first_piece (0 ∷ []) (5 ∷ 6 ∷ []) 20 next first_read

abbrev last : CipherContext
last = record { key = []; counter = u64_max }

encrypt-exhausted_example :
    ((u64_max + blocks 1 ≤ u64_max)
      × ((w : List ℕ) × (d : CipherContext) × (encrypt toy last (5 ∷ []) ≡ (ok w, d))))
    ⊎ ((u64_max < u64_max + blocks 1)
        × (encrypt toy last (5 ∷ [])
            ≡ (err exhausted_before_encryption, record last { counter = u64_max })))
encrypt-exhausted_example = encrypt-exhausted toy last (5 ∷ []) (λ key n ad m e. cc) (omega arith)

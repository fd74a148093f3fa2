-- ===== src/ChachaTransport/RoundTrip.antt =====
-- crypto/chacha_transport.rs: `decrypt` after `encrypt`, and what `encrypt` writes.
use mathlib.Core.Path.{ap₂}
use shairplay_rust.Base.{
  ℕ, zero, suc, ◌+◌, ◌*◌, ◌/◌, ◌%◌, ◌^◌, ◌≤◌, none, some, List, [], ◌∷◌, ◌++◌, length, take, drop,
  ◌≡◌, ◌≢◌, refl, sym, ap, ◌∙◌, arith, Option-cases, inl, inr, ◌⊎◌, min, length-drop, length-take,
  length-append, append_assoc, append-nil, take-append-drop, drop-append_exact,
}
use shairplay_rust.Base.Words.{u16_to_le_bytes, from_le_bytes, from_le-u16_to_le}
use shairplay_rust.ChachaTransport.{
  Aead, CipherContext, Result, ok, err, nonce, advance, u64_max, encrypt_loop, encrypt, decrypt,
  TransportError, Sealed, unsealed, sealed, seal_chunk,
}
use shairplay_rust.ChachaTransport.Stream.{prepend, run_prepend}
use shairplay_rust.ChachaTransport.Frames.{run, run_opened, open_frame-opened}

-- `plaintext.len().div_ceil(MAX_BLOCK_LEN)`
abbrev pub blocks : ℕ → ℕ
blocks n = (n + 1023) / 1024

-- What ChaCha20-Poly1305 promises: what was sealed opens under the same key, nonce and associated
-- data, and a sealed message is a tag longer than the message.
pub record IsAead (a : Aead) : Type 0 where
  pub opens :
      (key n ad m ct : List ℕ) → a.encrypt key n ad m ≡ some ct → a.decrypt key n ad ct ≡ some m
  pub overhead :
      (key n ad m ct : List ℕ) → a.encrypt key n ad m ≡ some ct → length ct ≡ length m + 16

pub Sealed-cases :
    (s : Sealed)
    → ((e : TransportError) × (s ≡ unsealed e)) ⊎ ((frame : List ℕ) × (s ≡ sealed frame))
Sealed-cases (unsealed e) = inl (e, refl)
Sealed-cases (sealed frame) = inr (frame, refl)

module _ (a : Aead) where
  pub encrypt_unsealed :
      (fuel : ℕ) (c : CipherContext) (b : ℕ) (bs out : List ℕ) (e : TransportError)
      → seal_chunk a c (take 1024 (b ∷ bs)) ≡ unsealed e
      → encrypt_loop a (suc fuel) c (b ∷ bs) out ≡ (err e, c)
  unfolding encrypt_loop
  encrypt_unsealed fuel c b bs out e h = rw (h, encrypt_loop)

  pub encrypt_sealed :
      (fuel : ℕ) (c : CipherContext) (b : ℕ) (bs out frame : List ℕ)
      → seal_chunk a c (take 1024 (b ∷ bs)) ≡ sealed frame
      → encrypt_loop a (suc fuel) c (b ∷ bs) out
        ≡ encrypt_loop a fuel (advance c) (drop 1024 (b ∷ bs)) (out ++ frame)
  unfolding encrypt_loop
  encrypt_sealed fuel c b bs out frame h = rw (h, encrypt_loop)

  -- A sealed chunk is its header and its ciphertext, and the counter was not exhausted.
  abbrev pub IsFrame : CipherContext → List ℕ → List ℕ → Type 0
  IsFrame c chunk frame =
      (ct : List ℕ) × (c.counter ≢ u64_max)
      × (a.encrypt c.key (nonce c) (u16_to_le_bytes (length chunk % 2 ^ 16)) chunk ≡ some ct)
      × (frame ≡ u16_to_le_bytes (length chunk % 2 ^ 16) ++ ct)

  sealed_frame_with :
      (c : CipherContext) (chunk frame ct : List ℕ)
      → seal_chunk a c chunk ≡ sealed frame
      → a.encrypt c.key (nonce c) (u16_to_le_bytes (length chunk % 2 ^ 16)) chunk ≡ some ct
      → (c.counter ≢ u64_max) × (frame ≡ u16_to_le_bytes (length chunk % 2 ^ 16) ++ ct)
  unfolding seal_chunk
  sealed_frame_with c chunk frame ct h e = (ground arith, ground arith)

  unsealed_without :
      (c : CipherContext) (chunk frame : List ℕ)
      → seal_chunk a c chunk ≡ sealed frame
      → a.encrypt c.key (nonce c) (u16_to_le_bytes (length chunk % 2 ^ 16)) chunk ≢ none
  unfolding seal_chunk
  unsealed_without c chunk frame h e = ground arith

  pub sealed-IsFrame :
      (c : CipherContext) (chunk frame : List ℕ)
      → seal_chunk a c chunk ≡ sealed frame
      → IsFrame c chunk frame
  sealed-IsFrame c chunk frame h =
      elim (Option-cases
        (a.encrypt c.key (nonce c) (u16_to_le_bytes (length chunk % 2 ^ 16)) chunk)) [
          | inl e ↦ absurd (unsealed_without c chunk frame h e)
          | inr (ct, e) ↦
              let (live, same) = sealed_frame_with c chunk frame ct h e in (ct, live, e, same)
        ]

  -- `wire` carries `pt`: the receiver, from context `c`, reads it and goes on as from context `d`.
  abbrev pub Carries : CipherContext → List ℕ → List ℕ → CipherContext → Type 0
  Carries c pt wire d =
      (rest plain : List ℕ) (pos : ℕ)
      → run a c (wire ++ rest) plain pos ≡ run a d rest (plain ++ pt) (pos + length wire)

  frame-Carries :
      (c : CipherContext) (lo hi : ℕ) (chunk ct : List ℕ)
      → IsAead a
      → from_le_bytes (lo ∷ hi ∷ []) ≡ length chunk
      → length chunk ≢ 0
      → c.counter ≢ u64_max
      → a.encrypt c.key (nonce c) (lo ∷ hi ∷ []) chunk ≡ some ct
      → Carries c chunk (lo ∷ hi ∷ ct) (advance c)
  frame-Carries c lo hi chunk ct laws len nonzero live e rest plain pos =
      run_opened a c lo hi (ct ++ rest) plain chunk pos (
        open_frame-opened a c lo hi ct rest chunk long (λ z. nonzero (sym len ∙ z)) live
          (laws.opens c.key (nonce c) (lo ∷ hi ∷ []) chunk ct e))
      ∙ ap₂ (λ left n. run a (advance c) left (plain ++ chunk) n)
          (drop-append_exact (from_le_bytes (lo ∷ hi ∷ []) + 16) ct rest long) (omega (arith, long))
    where
      long : length ct ≡ from_le_bytes (lo ∷ hi ∷ []) + 16
      long = laws.overhead c.key (nonce c) (lo ∷ hi ∷ []) chunk ct e ∙ ap (λ k. k + 16) (sym len)

  IsFrame-Carries :
      (c : CipherContext) (chunk frame : List ℕ)
      → IsAead a
      → length chunk ≢ 0
      → length chunk ≤ 1024
      → IsFrame c chunk frame
      → Carries c chunk frame (advance c)
  unfolding u16_to_le_bytes
  IsFrame-Carries c chunk frame laws nonzero short (ct, live, e, same) = rw same (
      frame-Carries c (length chunk % 2 ^ 16 % 256) (length chunk % 2 ^ 16 / 256 % 256) chunk ct
        laws (from_le-u16_to_le (length chunk % 2 ^ 16) (omega arith) ∙ wraps) nonzero live e)
    where
      wraps : length chunk % 2 ^ 16 ≡ length chunk
      wraps = omega arith

  Carries-append :
      (c d e : CipherContext) (pt more wire tail : List ℕ)
      → Carries c pt wire d
      → Carries d more tail e
      → Carries c (pt ++ more) (wire ++ tail) e
  Carries-append c d e pt more wire tail h k rest plain pos =
      ap (λ bytes. run a c bytes plain pos) (append_assoc wire tail rest)
      ∙ h (tail ++ rest) plain pos
      ∙ k rest (plain ++ pt) (pos + length wire)
      ∙ ap₂ (λ p n. run a e rest p n) (append_assoc plain pt more)
          (omega (arith, length-append wire tail))

  -- What a call of `encrypt` that succeeds has done.
  abbrev pub Sent : CipherContext → List ℕ → List ℕ → CipherContext → Type 0
  Sent c pt wire d =
      Carries c pt wire d
      × (d.key ≡ c.key)
      × (d.counter ≡ c.counter + blocks (length pt))
      × (length wire ≡ length pt + 18 * blocks (length pt))

  IsFrame-length :
      (c : CipherContext) (chunk frame : List ℕ)
      → IsAead a
      → IsFrame c chunk frame
      → length frame ≡ 18 + length chunk
  unfolding u16_to_le_bytes
  IsFrame-length c chunk frame laws (ct, live, e, same) =
      ap length same
      ∙ omega (
        arith,
        laws.overhead c.key (nonce c) (u16_to_le_bytes (length chunk % 2 ^ 16)) chunk ct e,
      )

  Sent-next :
      (c d : CipherContext) (pt chunk rest frame wire : List ℕ)
      → IsAead a
      → pt ≡ chunk ++ rest
      → length chunk ≢ 0
      → length chunk ≤ 1024
      → length chunk ≡ min 1024 (length pt)
      → IsFrame c chunk frame
      → Sent (advance c) rest wire d
      → Sent c pt (frame ++ wire) d
  Sent-next c d pt chunk rest frame wire laws whole nonzero short full f
        (carries, key, counter, long) =
      (
        rw whole (
            Carries-append c (advance c) d chunk rest frame wire
              (IsFrame-Carries c chunk frame laws nonzero short f) carries),
        key,
        omega (arith, sizes, counter),
        omega (
          arith,
          sizes,
          counter,
          long,
          length-append frame wire,
          IsFrame-length c chunk frame laws f,
        ),
      )
    where
      sizes : length pt ≡ length chunk + length rest
      sizes = ap length whole ∙ length-append chunk rest

  nothing-Sent :
      (c : CipherContext) (out wire : List ℕ) (d : CipherContext)
      → out ≡ wire
      → c ≡ d
      → (w : List ℕ) × (wire ≡ out ++ w) × Sent c [] w d
  nothing-Sent c out wire d e1 e2 =
      rw (← e1, ← e2)
        (
          [],
          sym (append-nil out),
          (
            (λ rest plain pos.
                ap₂ (λ p n. run a c rest p n) (sym (append-nil plain)) (omega arith)),
            refl,
            omega arith,
            refl,
          ),
        )

  nothing_left :
      (c : CipherContext) (out wire : List ℕ) (d : CipherContext)
      → ◌≡◌ {A = Result (List ℕ) × CipherContext} (ok out, c) (ok wire, d)
      → (w : List ℕ) × (wire ≡ out ++ w) × Sent c [] w d
  nothing_left c out wire d h = nothing-Sent c out wire d (cc) (cc)

  encrypt_loop-Sent :
      (fuel : ℕ) (c : CipherContext) (pt out wire : List ℕ) (d : CipherContext)
      → IsAead a
      → length pt ≤ fuel
      → encrypt_loop a fuel c pt out ≡ (ok wire, d)
      → (w : List ℕ) × (wire ≡ out ++ w) × Sent c pt w d
  encrypt_loop-Sent fuel c [] out wire d laws hf h =
      nothing_left c out wire d (unfold encrypt_loop in h)
  encrypt_loop-Sent zero c (b ∷ bs) out wire d laws hf h = absurd (omega arith)
  encrypt_loop-Sent (suc fuel) c (b ∷ bs) out wire d laws hf h =
      elim (Sealed-cases (seal_chunk a c (take 1024 (b ∷ bs)))) [
        | inl (x, e) ↦ absurd (no_error x (sym (encrypt_unsealed fuel c b bs out x e) ∙ h))
        | inr (frame, e) ↦
            let (w, same, sent) =
              encrypt_loop-Sent fuel (advance c) (drop 1024 (b ∷ bs)) (out ++ frame) wire d laws
                (omega (arith, length-drop 1024 (b ∷ bs)))
                (sym (encrypt_sealed fuel c b bs out frame e) ∙ h) in
            (
              frame ++ w,
              same ∙ append_assoc out frame w,
              Sent-next c d (b ∷ bs) (take 1024 (b ∷ bs)) (drop 1024 (b ∷ bs)) frame w laws
                  (sym (take-append-drop 1024 (b ∷ bs)))
                  (λ z. absurd (omega (arith, length-take 1024 (b ∷ bs))))
                  (omega (arith, length-take 1024 (b ∷ bs))) (length-take 1024 (b ∷ bs))
                  (sealed-IsFrame c (take 1024 (b ∷ bs)) frame e) sent,
            )
      ]
    where
      no_error :
          (x : TransportError) → ◌≢◌ {A = Result (List ℕ) × CipherContext} (err x, c) (ok wire, d)
      no_error x q = cc

  -- With a cipher that keeps its laws, and when `encrypt` succeeded: the receiver's context in the sender's state reads what `encrypt` wrote, whatever arrives behind
  -- it: it gets the plaintext back, goes past all that was written, and is then in the state that the
  -- sender is in.
  pub decrypt-encrypt :
      (c : CipherContext) (pt wire rest : List ℕ) (d : CipherContext)
      → IsAead a
      → encrypt a c pt ≡ (ok wire, d)
      → decrypt a c (wire ++ rest) ≡ prepend pt (length wire) (decrypt a d rest)
  unfolding encrypt decrypt
  decrypt-encrypt c pt wire rest d laws h =
      let (w, same, (carries, key, counter, long)) =
        encrypt_loop-Sent (length pt) c pt [] wire d laws (omega arith) h in
      ap (λ bytes. run a c (bytes ++ rest) [] 0) same
      ∙ carries rest [] 0
      ∙ ap₂ (λ p n. run a d rest p n) (sym (append-nil pt)) (omega (arith, ap length same))
      ∙ run_prepend a (length rest) d rest pt [] (length wire) 0

  -- With a cipher that keeps its laws, a call of `encrypt` that succeeds has used one value of the counter for each 1024 bytes or part
  -- of them, has kept the key, and has written 18 bytes more for each.
  pub encrypt-counter :
      (c : CipherContext) (pt wire : List ℕ) (d : CipherContext)
      → IsAead a
      → encrypt a c pt ≡ (ok wire, d)
      → (d.key ≡ c.key)
        × (d.counter ≡ c.counter + blocks (length pt))
        × (length wire ≡ length pt + 18 * blocks (length pt))
  unfolding encrypt
  encrypt-counter c pt wire d laws h =
      let (w, same, (carries, key, counter, long)) =
        encrypt_loop-Sent (length pt) c pt [] wire d laws (omega arith) h in
      (key, counter, ap length same ∙ long)

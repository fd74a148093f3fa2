-- ===== src/ChachaTransport/Nonces.antt =====
-- crypto/chacha_transport.rs: when `encrypt` and `decrypt` fail, and the nonces.
use mathlib.Core.Path.{ap₂}
use shairplay_rust.Base.{
  ℕ, zero, suc, ◌+◌, ◌%◌, ◌^◌, ◌≤◌, ◌<◌, none, List, [], ◌∷◌, ◌++◌, length, take, drop, ◌≡◌, ◌≢◌,
  refl, sym, ap, ◌∙◌, arith, inl, inr, ◌⊎◌, length-drop,
}
use shairplay_rust.Base.Words.{u16_to_le_bytes, IsU64, from_le_bytes, from_le-u64_to_le}
use shairplay_rust.ChachaTransport.{
  Aead, CipherContext, Result, ok, err, stuck, nonce, advance, u64_max, encrypt_loop, encrypt,
  decrypt_loop, decrypt, TransportError, unsealed, sealed, seal_chunk, open_frame,
  exhausted_before_encryption,
}
use shairplay_rust.ChachaTransport.Frames.{Step-cases, run, run_incomplete, run_refused, run_opened}
use shairplay_rust.ChachaTransport.RoundTrip.{
  Sealed-cases, encrypt_unsealed, encrypt_sealed, blocks, sealed-IsFrame,
}

-- Two contexts with counters of 64 bits and one nonce have one counter.
pub nonce_lem :
    (c d : CipherContext)
    → IsU64 c.counter
    → IsU64 d.counter
    → nonce c ≡ nonce d
    → c.counter ≡ d.counter
unfolding nonce
nonce_lem c d hc hd h =
    sym (from_le-u64_to_le c.counter hc)
    ∙ ap (λ bytes. from_le_bytes (drop 4 bytes)) h
    ∙ from_le-u64_to_le d.counter hd

abbrev Answer : Type 0
Answer = Result (List ℕ × ℕ) × CipherContext

not_ok :
    (c : CipherContext) {d : CipherContext} {x : List ℕ × ℕ} → ◌≢◌ {A = Answer} (ok x, c) (stuck, d)
not_ok c q = cc

not_err :
    (c : CipherContext) {d : CipherContext} {e : TransportError}
    → ◌≢◌ {A = Answer} (err e, c) (stuck, d)
not_err c q = cc

module _ (a : Aead) where
  -- The cipher refuses no message.
  abbrev pub NeverFails : Type 0
  NeverFails = (key n ad m : List ℕ) → a.encrypt key n ad m ≢ none

  seal_chunk-failed :
      (c : CipherContext) (chunk : List ℕ)
      → a.encrypt c.key (nonce c) (u16_to_le_bytes (length chunk % 2 ^ 16)) chunk ≢ none
      → (e : TransportError) → seal_chunk a c chunk ≡ unsealed e
      → (c.counter ≡ u64_max) × (e ≡ exhausted_before_encryption)
  unfolding seal_chunk
  seal_chunk-failed c chunk works e h = (ground arith, ground arith)

  -- What `encrypt` can come to with a cipher that does not fail.
  abbrev Outcomes : CipherContext → List ℕ → Result (List ℕ) × CipherContext → Type 0
  Outcomes c pt answer =
      ((c.counter + blocks (length pt) ≤ u64_max)
        × ((wire : List ℕ) × (d : CipherContext) × (answer ≡ (ok wire, d))))
      ⊎ ((u64_max < c.counter + blocks (length pt))
          × (answer ≡ (err exhausted_before_encryption, record c { counter = u64_max })))

  at_the_end : (c : CipherContext) → c.counter ≡ u64_max → c ≡ record c { counter = u64_max }
  at_the_end c h = ap (λ n. record c { counter = n }) h

  next_block :
      (fuel : ℕ) (c : CipherContext) (b : ℕ) (bs out frame : List ℕ)
      → seal_chunk a c (take 1024 (b ∷ bs)) ≡ sealed frame
      → Outcomes
          (advance c)
          (drop 1024 (b ∷ bs))
          (encrypt_loop a fuel (advance c) (drop 1024 (b ∷ bs)) (out ++ frame))
      → Outcomes c (b ∷ bs) (encrypt_loop a (suc fuel) c (b ∷ bs) out)
  next_block fuel c b bs out frame e (inl (room, (wire, d, same))) = inl (
    omega (arith, length-drop 1024 (b ∷ bs)),
    (wire, d, encrypt_sealed a fuel c b bs out frame e ∙ same),
  )
  next_block fuel c b bs out frame e (inr (over, same)) =
      inr
        (omega (arith, length-drop 1024 (b ∷ bs)), encrypt_sealed a fuel c b bs out frame e ∙ same)

  encrypt_loop-Outcomes :
      (fuel : ℕ) (c : CipherContext) (pt out : List ℕ)
      → NeverFails
      → length pt ≤ fuel
      → c.counter ≤ u64_max
      → Outcomes c pt (encrypt_loop a fuel c pt out)
  unfolding encrypt_loop
  encrypt_loop-Outcomes fuel c [] out works hf live = inl (omega arith, (out, c, refl))
  encrypt_loop-Outcomes zero c (b ∷ bs) out works hf live = absurd (omega arith)
  encrypt_loop-Outcomes (suc fuel) c (b ∷ bs) out works hf live =
      elim (Sealed-cases (seal_chunk a c (take 1024 (b ∷ bs)))) [
        | inl (x, e) ↦
            let (last, why) = seal_chunk-failed c (take 1024 (b ∷ bs)) (works _ _ _ _) x e in
            inr (
              omega arith,
              encrypt_unsealed a fuel c b bs out x e
                  ∙ ap₂ (λ y d. (err y, d)) why (at_the_end c last),
            )
        | inr (frame, e) ↦
            let (ct, not_last, opens, same) = sealed-IsFrame a c (take 1024 (b ∷ bs)) frame e in
            next_block fuel c b bs out frame e (
              encrypt_loop-Outcomes fuel (advance c) (drop 1024 (b ∷ bs)) (out ++ frame) works
                (omega (arith, length-drop 1024 (b ∷ bs))) (omega (arith, live, not_last)))
      ]

  -- With a cipher that does not fail, `encrypt` succeeds if the counter has room for one value for
  -- each 1024 bytes or part of them, and otherwise reports that the counter is exhausted, which is
  -- the counter that it leaves: it never goes round to a value that was used.
  pub encrypt-exhausted :
      (c : CipherContext) (pt : List ℕ)
      → NeverFails
      → c.counter ≤ u64_max
      → Outcomes c pt (encrypt a c pt)
  unfolding encrypt
  encrypt-exhausted c pt works live =
      encrypt_loop-Outcomes (length pt) c pt [] works (omega arith) live

  decrypt_loop-ne-stuck :
      (fuel : ℕ) (c : CipherContext) (bytes plain : List ℕ) (pos : ℕ) (d : CipherContext)
      → length bytes ≤ fuel
      → run a c bytes plain pos ≢ (stuck, d)
  decrypt_loop-ne-stuck fuel c [] plain pos d hf h =
      not_ok c {d = d} {x = (plain, pos)} (unfold decrypt_loop in h)
  decrypt_loop-ne-stuck fuel c (lo ∷ []) plain pos d hf h =
      not_ok c {d = d} {x = (plain, pos)} (unfold decrypt_loop in h)
  decrypt_loop-ne-stuck zero c (lo ∷ hi ∷ body) plain pos d hf h = absurd (omega arith)
  decrypt_loop-ne-stuck (suc fuel) c (lo ∷ hi ∷ body) plain pos d hf h =
      elim (Step-cases (open_frame a c lo hi body)) [
        | inl e ↦ not_ok c (sym (run_incomplete a c lo hi body plain pos e) ∙ h)
        | inr (inl (x, e)) ↦ not_err c (sym (run_refused a c lo hi body plain pos x e) ∙ h)
        | inr (inr (pt, e)) ↦
            decrypt_loop-ne-stuck fuel (advance c) (drop (from_le_bytes (lo ∷ hi ∷ []) + 16) body)
              (plain ++ pt) (pos + (2 + from_le_bytes (lo ∷ hi ∷ []) + 16)) d
              (omega (arith, length-drop (from_le_bytes (lo ∷ hi ∷ []) + 16) body))
              (sym (run_opened a c lo hi body plain pt pos e) ∙ h)
      ]

  -- `decrypt` ends on every input: the fuel of its loop is never used up.
  pub decrypt-ne-stuck :
      (c : CipherContext) (bytes : List ℕ) (d : CipherContext) → decrypt a c bytes ≢ (stuck, d)
  unfolding decrypt
  decrypt-ne-stuck c bytes d = decrypt_loop-ne-stuck (length bytes) c bytes [] 0 d (omega arith)

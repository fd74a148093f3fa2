-- ===== src/ChachaTransport/Frames.antt =====
-- crypto/chacha_transport.rs: the loop of `decrypt`, one frame at a time.
use shairplay_rust.Base.{
  ℕ, zero, suc, ◌+◌, ◌≤◌, some, List, [], ◌∷◌, ◌++◌, length, drop, ◌≡◌, ◌≢◌, refl, ◌∙◌, arith, inl,
  inr, ◌⊎◌, length-drop, length-append, take-append_exact, take-append_left,
}
use shairplay_rust.Base.Words.{from_le_bytes}
use shairplay_rust.ChachaTransport.{
  Aead, CipherContext, Result, ok, err, nonce, advance, u64_max, decrypt_loop, open_frame,
  TransportError, Step, incomplete, refused, opened,
}

pub Step-cases :
    (s : Step)
    → (s ≡ incomplete)
      ⊎ ((e : TransportError) × (s ≡ refused e))
      ⊎ ((pt : List ℕ) × (s ≡ opened pt))
Step-cases incomplete = inl refl
Step-cases (refused e) = inr (inl (e, refl))
Step-cases (opened pt) = inr (inr (pt, refl))

module _ (a : Aead) where
  -- More fuel than bytes changes nothing.
  decrypt_loop_fuel :
      (f g : ℕ) (c : CipherContext) (bytes plain : List ℕ) (pos : ℕ)
      → length bytes ≤ f
      → length bytes ≤ g
      → decrypt_loop a f c bytes plain pos ≡ decrypt_loop a g c bytes plain pos
  unfolding decrypt_loop
  decrypt_loop_fuel f g c [] plain pos hf hg = refl
  decrypt_loop_fuel f g c (lo ∷ []) plain pos hf hg = refl
  decrypt_loop_fuel zero g c (lo ∷ hi ∷ body) plain pos hf hg = absurd (omega arith)
  decrypt_loop_fuel (suc f) zero c (lo ∷ hi ∷ body) plain pos hf hg = absurd (omega arith)
  decrypt_loop_fuel (suc f) (suc g) c (lo ∷ hi ∷ body) plain pos hf hg =
      elim (Step-cases (open_frame a c lo hi body)) [
        | inl e ↦ rw (e, decrypt_loop)
        | inr (inl (x, e)) ↦ rw (e, decrypt_loop)
        | inr (inr (pt, e)) ↦
            rw (e, decrypt_loop)
              (decrypt_loop_fuel f g (advance c) (drop (from_le_bytes (lo ∷ hi ∷ []) + 16) body)
                (plain ++ pt) (pos + (2 + from_le_bytes (lo ∷ hi ∷ []) + 16))
                (omega (arith, length-drop (from_le_bytes (lo ∷ hi ∷ []) + 16) body))
                (omega (arith, length-drop (from_le_bytes (lo ∷ hi ∷ []) + 16) body)))
      ]

  -- The loop with just enough fuel.
  abbrev pub run : CipherContext → List ℕ → List ℕ → ℕ → Result (List ℕ × ℕ) × CipherContext
  run c bytes plain pos = decrypt_loop a (length bytes) c bytes plain pos

  -- The rounds of the loop.
  pub run_incomplete :
      (c : CipherContext) (lo hi : ℕ) (body plain : List ℕ) (pos : ℕ)
      → open_frame a c lo hi body ≡ incomplete
      → run c (lo ∷ hi ∷ body) plain pos ≡ (ok (plain, pos), c)
  unfolding decrypt_loop
  run_incomplete c lo hi body plain pos h = rw (h, decrypt_loop)

  pub run_refused :
      (c : CipherContext) (lo hi : ℕ) (body plain : List ℕ) (pos : ℕ) (e : TransportError)
      → open_frame a c lo hi body ≡ refused e
      → run c (lo ∷ hi ∷ body) plain pos ≡ (err e, c)
  unfolding decrypt_loop
  run_refused c lo hi body plain pos e h = rw (h, decrypt_loop)

  decrypt_step :
      (fuel : ℕ) (c : CipherContext) (lo hi : ℕ) (body plain pt : List ℕ) (pos : ℕ)
      → open_frame a c lo hi body ≡ opened pt
      → let block_len = from_le_bytes (lo ∷ hi ∷ []) in
        decrypt_loop a (suc fuel) c (lo ∷ hi ∷ body) plain pos
        ≡ decrypt_loop a fuel
            (advance c)
            (drop (block_len + 16) body)
            (plain ++ pt)
            (pos + (2 + block_len + 16))
  unfolding decrypt_loop
  decrypt_step fuel c lo hi body plain pt pos h = rw (h, decrypt_loop)

  pub run_opened :
      (c : CipherContext) (lo hi : ℕ) (body plain pt : List ℕ) (pos : ℕ)
      → open_frame a c lo hi body ≡ opened pt
      → let block_len = from_le_bytes (lo ∷ hi ∷ []) in
        run c (lo ∷ hi ∷ body) plain pos
        ≡ run (advance c) (drop (block_len + 16) body) (plain ++ pt) (pos + (2 + block_len + 16))
  run_opened c lo hi body plain pt pos h =
      decrypt_step (suc (length body)) c lo hi body plain pt pos h
      ∙ decrypt_loop_fuel (suc (length body)) (length rest) (advance c) rest (plain ++ pt)
          (pos + (2 + from_le_bytes (lo ∷ hi ∷ []) + 16))
          (omega (arith, length-drop (from_le_bytes (lo ∷ hi ∷ []) + 16) body)) (omega arith)
    where
      rest : List ℕ
      rest = drop (from_le_bytes (lo ∷ hi ∷ []) + 16) body

  -- A whole frame that the cipher opens is opened.
  pub open_frame-opened :
      (c : CipherContext) (lo hi : ℕ) (ct rest pt : List ℕ)
      → length ct ≡ from_le_bytes (lo ∷ hi ∷ []) + 16
      → from_le_bytes (lo ∷ hi ∷ []) ≢ 0
      → c.counter ≢ u64_max
      → a.decrypt c.key (nonce c) (lo ∷ hi ∷ []) ct ≡ some pt
      → open_frame a c lo hi (ct ++ rest) ≡ opened pt
  unfolding open_frame
  open_frame-opened c lo hi ct rest pt len nonzero live opens = ground (
    arith,
    length-append ct rest,
    take-append_exact (from_le_bytes (lo ∷ hi ∷ []) + 16) ct rest len,
  )

  -- Bytes behind a whole frame do not matter.
  pub open_frame-append :
      (c : CipherContext) (lo hi : ℕ) (body more : List ℕ)
      → open_frame a c lo hi body ≢ incomplete
      → open_frame a c lo hi (body ++ more) ≡ open_frame a c lo hi body
  unfolding open_frame
  open_frame-append c lo hi body more h = ground (
    arith,
    length-append body more,
    take-append_left (from_le_bytes (lo ∷ hi ∷ []) + 16) body more,
  )

  pub opened_fits :
      (c : CipherContext) (lo hi : ℕ) (body pt : List ℕ)
      → open_frame a c lo hi body ≡ opened pt
      → from_le_bytes (lo ∷ hi ∷ []) + 16 ≤ length body
  unfolding open_frame
  opened_fits c lo hi body pt e = ground arith

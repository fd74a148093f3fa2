-- ===== src/ChachaTransport/Stream.antt =====
-- crypto/chacha_transport.rs: `decrypt` on a stream that arrives in pieces.
use shairplay_rust.Base.{
  ℕ, zero, suc, ◌+◌, ◌-◌, ◌≤◌, List, [], ◌∷◌, ◌++◌, length, drop, ◌≡◌, ◌≢◌, refl, sym, ap, ◌∙◌,
  arith, inl, inr, length-drop, drop-append_left, append_assoc, append-nil, drop-drop,
}
use native.Mathlib.Nat.{add_assoc}
use mathlib.Core.Path.{ap₂}
use shairplay_rust.Base.Words.{from_le_bytes}
use shairplay_rust.ChachaTransport.{
  Aead, CipherContext, Result, ok, err, stuck, advance, decrypt_loop, decrypt, open_frame,
  TransportError, opened,
}
use shairplay_rust.ChachaTransport.Frames.{
  Step-cases, run, run_incomplete, run_refused, run_opened, open_frame-append, opened_fits,
}

drop_two : (k lo hi : ℕ) (body : List ℕ) → drop k body ≡ drop (2 + k) (lo ∷ hi ∷ body)
drop_two k lo hi body = ap (λ m. drop m (lo ∷ hi ∷ body)) (two_plus k)
  where
    two_plus : (k : ℕ) → suc (suc k) ≡ 2 + k
    two_plus k = omega arith

count :
    (len pos n : ℕ)
    → pos + (2 + len + 16) ≤ n
    → 2 + (len + 16 + (n - (pos + (2 + len + 16)))) ≡ n - pos
count len pos n h = omega arith

-- An answer behind a piece that was taken before.
abbrev pub prepend :
    List ℕ → ℕ → Result (List ℕ × ℕ) × CipherContext → Result (List ℕ × ℕ) × CipherContext
prepend p n (ok (plain, pos), c) = (ok (p ++ plain, n + pos), c)
prepend p n (err e, c) = (err e, c)
prepend p n (stuck, c) = (stuck, c)

module _ (a : Aead) where
  pub run_prepend :
      (fuel : ℕ) (c : CipherContext) (bytes p plain : List ℕ) (n pos : ℕ)
      → decrypt_loop a fuel c bytes (p ++ plain) (n + pos)
        ≡ prepend p n (decrypt_loop a fuel c bytes plain pos)
  unfolding decrypt_loop
  run_prepend fuel c [] p plain n pos = refl
  run_prepend fuel c (lo ∷ []) p plain n pos = refl
  run_prepend zero c (lo ∷ hi ∷ body) p plain n pos = refl
  run_prepend (suc fuel) c (lo ∷ hi ∷ body) p plain n pos =
      elim (Step-cases (open_frame a c lo hi body)) [
        | inl e ↦ rw (e, decrypt_loop)
        | inr (inl (x, e)) ↦ rw (e, decrypt_loop)
        | inr (inr (pt, e)) ↦
            rw (e, decrypt_loop, append_assoc p plain pt, add_assoc n pos)
              (run_prepend fuel (advance c) (drop (from_le_bytes (lo ∷ hi ∷ []) + 16) body) p
                (plain ++ pt) n (pos + (2 + from_le_bytes (lo ∷ hi ∷ []) + 16)))
      ]

  -- How the loop comes to a stop in good order: inside the input, and as if the rest of the input
  -- had been handed to the context that it leaves.
  abbrev pub Piece : CipherContext → List ℕ → List ℕ → ℕ → List ℕ → ℕ → CipherContext → Type 0
  Piece c bytes plain pos p n c1 =
      (pos ≤ n)
      × (n ≤ pos + length bytes)
      × ((more : List ℕ)
          → run a c (bytes ++ more) plain pos ≡ run a c1 (drop (n - pos) bytes ++ more) p n)

  stays :
      (c : CipherContext) (bytes plain : List ℕ) (pos : ℕ) (p : List ℕ) (n : ℕ) (c1 : CipherContext)
      → plain ≡ p
      → pos ≡ n
      → c ≡ c1
      → Piece c bytes plain pos p n c1
  stays c bytes plain pos p n c1 e1 e2 e3 =
      rw (← e1, ← e2, ← e3)
        (omega arith, omega arith, λ more. ap (λ k. run a c (drop k bytes ++ more) plain pos) same)
    where
      same : 0 ≡ pos - pos
      same = omega arith

  stops_here :
      (c : CipherContext) (bytes plain : List ℕ) (pos : ℕ) (p : List ℕ) (n : ℕ) (c1 : CipherContext)
      → ◌≡◌ {A = Result (List ℕ × ℕ) × CipherContext} (ok (plain, pos), c) (ok (p, n), c1)
      → Piece c bytes plain pos p n c1
  stops_here c bytes plain pos p n c1 h = stays c bytes plain pos p n c1 (cc) (cc) (cc)

  goes_on :
      (c : CipherContext) (lo hi : ℕ) (body plain pt : List ℕ) (pos : ℕ) (p : List ℕ) (n : ℕ)
      (c1 : CipherContext)
      → open_frame a c lo hi body ≡ opened pt
      → let len = from_le_bytes (lo ∷ hi ∷ []) in
        len + 16 ≤ length body
        → Piece (advance c) (drop (len + 16) body) (plain ++ pt) (pos + (2 + len + 16)) p n c1
        → Piece c (lo ∷ hi ∷ body) plain pos p n c1
  goes_on c lo hi body plain pt pos p n c1 e fits (after, within, continues) = (
    omega arith,
    omega (arith, length-drop (from_le_bytes (lo ∷ hi ∷ []) + 16) body),
    λ more.
        run_opened a c lo hi (body ++ more) plain pt pos
          (open_frame-append a c lo hi body more (λ i. cc) ∙ e)
        ∙ ap
            (λ rest.
              run a (advance c) rest (plain ++ pt) (pos + (2 + from_le_bytes (lo ∷ hi ∷ []) + 16)))
            (drop-append_left (from_le_bytes (lo ∷ hi ∷ []) + 16) body more fits)
        ∙ continues more
        ∙ ap (λ rest. run a c1 (rest ++ more) p n) (rest_of more),
  )
    where
      rest_of :
          (more : List ℕ)
          → drop
              (n - (pos + (2 + from_le_bytes (lo ∷ hi ∷ []) + 16)))
              (drop (from_le_bytes (lo ∷ hi ∷ []) + 16) body)
            ≡ drop (n - pos) (lo ∷ hi ∷ body)
      rest_of more =
          drop-drop (n - (pos + (2 + from_le_bytes (lo ∷ hi ∷ []) + 16)))
            (from_le_bytes (lo ∷ hi ∷ []) + 16) body
          ∙ drop_two
              (from_le_bytes (lo ∷ hi ∷ [])
                + 16
                + (n - (pos + (2 + from_le_bytes (lo ∷ hi ∷ []) + 16))))
              lo hi body
          ∙ ap (λ k. drop k (lo ∷ hi ∷ body)) (count (from_le_bytes (lo ∷ hi ∷ [])) pos n after)

  run-Piece :
      (fuel : ℕ) (c : CipherContext) (bytes plain : List ℕ) (pos : ℕ) (p : List ℕ) (n : ℕ)
      (c1 : CipherContext)
      → length bytes ≤ fuel
      → run a c bytes plain pos ≡ (ok (p, n), c1)
      → Piece c bytes plain pos p n c1
  run-Piece fuel c [] plain pos p n c1 hf h =
      stops_here c [] plain pos p n c1 (unfold decrypt_loop in h)
  run-Piece fuel c (lo ∷ []) plain pos p n c1 hf h =
      stops_here c (lo ∷ []) plain pos p n c1 (unfold decrypt_loop in h)
  run-Piece zero c (lo ∷ hi ∷ body) plain pos p n c1 hf h = absurd (omega arith)
  run-Piece (suc fuel) c (lo ∷ hi ∷ body) plain pos p n c1 hf h =
      elim (Step-cases (open_frame a c lo hi body)) [
        | inl e ↦
            stops_here c (lo ∷ hi ∷ body) plain pos p n c1
              (sym (run_incomplete a c lo hi body plain pos e) ∙ h)
        | inr (inl (x, e)) ↦
            absurd (no_error x (sym (run_refused a c lo hi body plain pos x e) ∙ h))
        | inr (inr (pt, e)) ↦
            goes_on c lo hi body plain pt pos p n c1 e (opened_fits a c lo hi body pt e) (
              run-Piece fuel (advance c) (drop (from_le_bytes (lo ∷ hi ∷ []) + 16) body)
                (plain ++ pt) (pos + (2 + from_le_bytes (lo ∷ hi ∷ []) + 16)) p n c1
                (omega (arith, length-drop (from_le_bytes (lo ∷ hi ∷ []) + 16) body))
                (sym (run_opened a c lo hi body plain pt pos e) ∙ h))
      ]
    where
      no_error :
          (x : TransportError)
          → ◌≢◌ {A = Result (List ℕ × ℕ) × CipherContext} (err x, c) (ok (p, n), c1)
      no_error x q = cc

  -- A stream in two pieces: if `decrypt` takes the first piece without an error, it does with both
  -- pieces together what it does with the bytes that it left over and the second piece, the
  -- plaintext and the count of the first piece put in front.
  pub decrypt_pieces :
      (c : CipherContext) (first second p : List ℕ) (n : ℕ) (c1 : CipherContext)
      → decrypt a c first ≡ (ok (p, n), c1)
      → (n ≤ length first)
        × (decrypt a c (first ++ second) ≡ prepend p n (decrypt a c1 (drop n first ++ second)))
  unfolding decrypt
  decrypt_pieces c first second p n c1 h =
      let (after, within, continues) =
        run-Piece (length first) c first [] 0 p n c1 (omega arith) h in
      let rest = drop n first ++ second in
      (
        omega arith,
        continues second
            ∙ ap (λ k. run a c1 (drop k first ++ second) p n) same
            ∙ ap₂ (λ q m. run a c1 rest q m) (sym (append-nil p)) plus
            ∙ run_prepend (length rest) c1 rest p [] n 0,
      )
    where
      same : n - 0 ≡ n
      same = omega arith

      plus : n ≡ n + 0
      plus = omega arith

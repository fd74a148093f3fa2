-- ===== src/Aes/Stream.antt =====
-- crypto/aes.rs: `AesCtr::encrypt`, block by block, against a cipher that takes one byte at a time.
use mathlib.Core.Path.{ap₂}
use shairplay_rust.Base.{
  ℕ, zero, suc, ◌-◌, ◌≤◌, ◌<◌, ◌==◌, List, [], ◌∷◌, ◌++◌, length, take, drop, get_or, min, ◌≡◌,
  refl, sym, ap, ◌∙◌, arith, All, false, take-append-drop, length-take, length-drop, Bool-cases,
  inl, inr,
}
use shairplay_rust.Base.Words.{xor8, xor8_twice, IsByte}
use shairplay_rust.Aes.{BlockCipher, AesCtr, new_ctr, refill, xor_bytes, encrypt_loop, encrypt}

-- Every block of the cipher has sixteen bytes.
abbrev pub IsBlockCipher : BlockCipher → Type 0
IsBlockCipher cipher = (key block : List ℕ) → length (cipher key block) ≡ 16

pub record IsSound (c : AesCtr) : Type 0 where
  pub state_full : length c.state ≡ 16
  pub available_within : c.available ≤ 16

pub new_ctr-IsSound : (key nonce : List ℕ) → IsSound (new_ctr key nonce)
unfolding new_ctr
new_ctr-IsSound key nonce = record { state_full = refl; available_within = omega arith }

abbrev with_available : AesCtr → ℕ → AesCtr
with_available c a = record c { available = a }

-- A context that has used up so much more of its block.
abbrev used : AesCtr → ℕ → AesCtr
used c n = with_available c (c.available - n)

module _ (cipher : BlockCipher) where
  -- The byte of the key stream that a context is at, and the context behind it.
  unfoldable pub stream_byte : AesCtr → ℕ
  unfolding refill
  stream_byte c = let r = refill cipher c in get_or r.state (16 - r.available) 0

  unfoldable pub stream_next : AesCtr → AesCtr
  unfolding refill
  stream_next c = used (refill cipher c) 1

  -- The cipher that takes one byte at a time.
  unfoldable pub by_bytes : AesCtr → List ℕ → List ℕ
  unfolding stream_byte stream_next
  by_bytes c [] = []
  by_bytes c (b ∷ bs) = xor8 b (stream_byte c) ∷ by_bytes (stream_next c) bs

  unfoldable pub after_bytes : AesCtr → List ℕ → AesCtr
  unfolding stream_next
  after_bytes c [] = c
  after_bytes c (b ∷ bs) = after_bytes (stream_next c) bs

  test_nonzero : (a : ℕ) → 1 ≤ a → (a == 0) ≡ false
  test_nonzero a h = ground arith

  refill_idle : (c : AesCtr) → 1 ≤ c.available → refill cipher c ≡ c
  unfolding refill
  refill_idle c h = rw (test_nonzero c.available h)

  module _ (full : IsBlockCipher cipher) where
    refill-IsSound :
        (c : AesCtr) → IsSound c → IsSound (refill cipher c) × (1 ≤ (refill cipher c).available)
    unfolding refill
    refill-IsSound c s = elim (Bool-cases (c.available == 0)) [
      | inl e ↦ rw e (
          (
            record { state_full = full c.key c.counter; available_within = omega arith },
            omega arith,
          ))
      | inr e ↦ rw e ((s, ground arith))
    ]

    next-IsSound : (c : AesCtr) → IsSound c → IsSound (stream_next c)
    unfolding stream_next
    next-IsSound c s =
        let r = refill-IsSound c s in
        record {
          state_full = (r.0).state_full;
          available_within = omega (arith, (r.0).available_within);
        }

    pub after_bytes-IsSound : (c : AesCtr) (bs : List ℕ) → IsSound c → IsSound (after_bytes c bs)
    unfolding after_bytes
    after_bytes-IsSound c [] s = s
    after_bytes-IsSound c (b ∷ bs) s = after_bytes-IsSound (stream_next c) bs (next-IsSound c s)

  pub by_bytes-append :
      (c : AesCtr) (xs ys : List ℕ)
      → by_bytes c (xs ++ ys) ≡ by_bytes c xs ++ by_bytes (after_bytes c xs) ys
  unfolding by_bytes after_bytes
  by_bytes-append c [] ys = refl
  by_bytes-append c (x ∷ xs) ys =
      ap (λ bs. xor8 x (stream_byte c) ∷ bs) (by_bytes-append (stream_next c) xs ys)

  pub after_bytes-append :
      (c : AesCtr) (xs ys : List ℕ) → after_bytes c (xs ++ ys) ≡ after_bytes (after_bytes c xs) ys
  unfolding after_bytes
  after_bytes-append c [] ys = refl
  after_bytes-append c (x ∷ xs) ys = after_bytes-append (stream_next c) xs ys

  pub by_bytes_twice : (c : AesCtr) (bs : List ℕ) → All IsByte bs → by_bytes c (by_bytes c bs) ≡ bs
  unfolding by_bytes
  by_bytes_twice c [] h = refl
  by_bytes_twice c (b ∷ bs) h =
      ap₂ (λ x xs. x ∷ xs) (xor8_twice b (stream_byte c) h.0)
        (by_bytes_twice (stream_next c) bs h.1)

  -- The context behind depends on how many bytes were taken only.
  pub after_bytes-by_bytes :
      (c d : AesCtr) (bs : List ℕ) → after_bytes c (by_bytes d bs) ≡ after_bytes c bs
  unfolding by_bytes after_bytes
  after_bytes-by_bytes c d [] = refl
  after_bytes-by_bytes c d (b ∷ bs) = after_bytes-by_bytes (stream_next c) (stream_next d) bs

  drop_at : (i : ℕ) (xs : List ℕ) → i < length xs → drop i xs ≡ get_or xs i 0 ∷ drop (suc i) xs
  drop_at i [] h = absurd (omega arith)
  drop_at zero (x ∷ xs) h = refl
  drop_at (suc i) (x ∷ xs) h = drop_at i xs (omega arith)

  next_within : (c : AesCtr) → 1 ≤ c.available → stream_next c ≡ used c 1
  unfolding stream_next
  next_within c h = ap (λ r. used r 1) (refill_idle c h)

  byte_within : (c : AesCtr) → 1 ≤ c.available → stream_byte c ≡ get_or c.state (16 - c.available) 0
  unfolding stream_byte
  byte_within c h = ap (λ r. get_or r.state (16 - r.available) 0) (refill_idle c h)

  -- Bytes that the block in use covers.
  by_bytes_within :
      (c : AesCtr) (bs : List ℕ)
      → IsSound c
      → length bs ≤ c.available
      → by_bytes c bs ≡ xor_bytes bs (drop (16 - c.available) c.state)
  unfolding by_bytes
  by_bytes_within c [] s h = refl
  by_bytes_within c (b ∷ bs) s h =
      ap₂ (λ x xs. xor8 b x ∷ xs) (byte_within c (omega arith))
        (ap (λ d. by_bytes d bs) (next_within c (omega arith))
          ∙ by_bytes_within (used c 1) bs
              (record {
                state_full = s.state_full;
                available_within = omega (arith, s.available_within);
              })
              (omega arith)
          ∙ ap (λ i. xor_bytes bs (drop i c.state)) {y = suc (16 - c.available)}
              (omega (arith, s.available_within)))
      ∙ ap (xor_bytes (b ∷ bs))
          (sym (drop_at (16 - c.available) c.state (omega (arith, s.state_full))))

  after_bytes_within :
      (c : AesCtr) (bs : List ℕ) → length bs ≤ c.available → after_bytes c bs ≡ used c (length bs)
  unfolding after_bytes
  after_bytes_within c [] h = ap (with_available c) {x = c.available} (omega arith)
  after_bytes_within c (b ∷ bs) h =
      ap (λ d. after_bytes d bs) (next_within c (omega arith))
      ∙ after_bytes_within (used c 1) bs (omega arith)
      ∙ ap (with_available c) {y = c.available - suc (length bs)} (omega arith)

  refill_once : (c : AesCtr) → refill cipher (refill cipher c) ≡ refill cipher c
  unfolding refill
  refill_once c = elim (Bool-cases (c.available == 0)) [
    | inl e ↦ rw e refl
    | inr e ↦ rw e (rw e refl)
  ]

  -- Refilling early changes nothing when a byte is to come.
  by_bytes-refill :
      (c : AesCtr) (b : ℕ) (bs : List ℕ) → by_bytes (refill cipher c) (b ∷ bs) ≡ by_bytes c (b ∷ bs)
  unfolding by_bytes stream_byte stream_next
  by_bytes-refill c b bs =
      ap (λ r. xor8 b (get_or r.state (16 - r.available) 0) ∷ by_bytes (used r 1) bs)
        (refill_once c)

  after_bytes-refill :
      (c : AesCtr) (b : ℕ) (bs : List ℕ)
      → after_bytes (refill cipher c) (b ∷ bs) ≡ after_bytes c (b ∷ bs)
  unfolding after_bytes stream_next
  after_bytes-refill c b bs = ap (λ r. after_bytes (used r 1) bs) (refill_once c)

  -- What `by_bytes` and `after_bytes` make of data whose first bytes the block in use covers.
  split_within :
      (c : AesCtr) (n : ℕ) (bs : List ℕ)
      → IsSound c
      → n ≤ c.available
      → n ≤ length bs
      → (by_bytes c bs
          ≡ xor_bytes (take n bs) (drop (16 - c.available) c.state)
            ++ by_bytes (used c n) (drop n bs))
        × (after_bytes c bs ≡ after_bytes (used c n) (drop n bs))
  split_within c n bs s h k =
      let len : length (take n bs) ≡ n = omega (arith, length-take n bs) in
      let whole = sym (take-append-drop n bs) in
      let behind = after_bytes_within c (take n bs) (omega arith) ∙ ap (used c) len in
      (
        ap (by_bytes c) whole
            ∙ by_bytes-append c (take n bs) (drop n bs)
            ∙ ap₂ (λ x d. x ++ by_bytes d (drop n bs))
                (by_bytes_within c (take n bs) s (omega arith)) behind,
        ap (after_bytes c) whole
            ∙ after_bytes-append c (take n bs) (drop n bs)
            ∙ ap (λ d. after_bytes d (drop n bs)) behind,
      )

  encrypt_loop-by_bytes :
      IsBlockCipher cipher
      → (fuel : ℕ) (c : AesCtr) (bs : List ℕ) → IsSound c
      → length bs ≤ fuel
      → encrypt_loop cipher fuel c bs ≡ (by_bytes c bs, after_bytes c bs)
  unfolding encrypt_loop by_bytes after_bytes
  encrypt_loop-by_bytes full fuel c [] s h = refl
  encrypt_loop-by_bytes full zero c (b ∷ bs) s h = absurd (omega arith)
  encrypt_loop-by_bytes full (suc fuel) c (b ∷ bs) s h =
      let r = refill cipher c in
      let n = min r.available (length (b ∷ bs)) in
      let (sound, some_left) = refill-IsSound full c s in
      let parts = split_within r n (b ∷ bs) sound (omega arith) (omega arith) in
      ap (λ p. (xor_bytes (take n (b ∷ bs)) (drop (16 - r.available) r.state) ++ p.0, p.1))
        (encrypt_loop-by_bytes full fuel (used r n) (drop n (b ∷ bs))
          (record {
            state_full = sound.state_full;
            available_within = omega (arith, sound.available_within);
          })
          (omega (arith, length-drop n (b ∷ bs))))
      ∙ ap₂ (λ x y. (x, y)) (sym parts.0 ∙ by_bytes-refill c b bs)
          (sym parts.1 ∙ after_bytes-refill c b bs)

  -- The loop over blocks of the key stream is the cipher that takes one byte at a time.
  pub encrypt-by_bytes :
      IsBlockCipher cipher
      → (c : AesCtr) (bs : List ℕ) → IsSound c
      → encrypt cipher c bs ≡ (by_bytes c bs, after_bytes c bs)
  unfolding encrypt
  encrypt-by_bytes full c bs s = encrypt_loop-by_bytes full (length bs) c bs s (omega arith)

  -- Data handed over in two calls comes out as in one, and leaves the same context behind.
  pub encrypt-append :
      IsBlockCipher cipher
      → (c : AesCtr) (xs ys : List ℕ) → IsSound c
      → encrypt cipher c (xs ++ ys) ≡ (
        (encrypt cipher c xs).0 ++ (encrypt cipher (encrypt cipher c xs).1 ys).0,
        (encrypt cipher (encrypt cipher c xs).1 ys).1,
      )
  encrypt-append full c xs ys s =
      let first = encrypt-by_bytes full c xs s in
      let second =
        ap (λ d. encrypt cipher d ys) (ap (λ p. p.1) first)
        ∙ encrypt-by_bytes full (after_bytes c xs) ys (after_bytes-IsSound full c xs s) in
      encrypt-by_bytes full c (xs ++ ys) s
      ∙ ap₂ (λ x y. (x, y))
          (by_bytes-append c xs ys
            ∙ sym (ap₂ (λ x y. x ++ y) (ap (λ p. p.0) first) (ap (λ p. p.0) second)))
          (after_bytes-append c xs ys ∙ sym (ap (λ p. p.1) second))

  -- The same context turns what it has encrypted back into the data, and ends where it ended.
  pub encrypt_twice :
      IsBlockCipher cipher
      → (c : AesCtr) (bs : List ℕ) → IsSound c
      → All IsByte bs
      → encrypt cipher c (encrypt cipher c bs).0 ≡ (bs, (encrypt cipher c bs).1)
  encrypt_twice full c bs s bytes =
      let first = encrypt-by_bytes full c bs s in
      ap (λ p. encrypt cipher c p.0) first
      ∙ encrypt-by_bytes full c (by_bytes c bs) s
      ∙ ap₂ (λ x y. (x, y)) (by_bytes_twice c bs bytes)
          (after_bytes-by_bytes c c bs ∙ sym (ap (λ p. p.1) first))

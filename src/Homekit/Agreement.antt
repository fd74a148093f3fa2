-- ===== src/Homekit/Agreement.antt =====
-- crypto/pairing_homekit.rs: the secret of `process_m3` against that of a client of SRP-6a (RFC 5054).
use native.Mathlib.Nat.{mod-mod, mod-lt, mul_comm, add-mod_right, mod-add-mod}
use mathlib.Core.Path.{ap₂}
use shairplay_rust.Base.{
  ℕ, ◌+◌, ◌-◌, ◌*◌, ◌%◌, ◌^◌, ◌<◌, Option, List, ◌≡◌, refl, sym, ap, ◌∙◌, arith,
}
use shairplay_rust.Base.Powers.{pow_add, pow_mul, mod-mul, mul-mod, pow-mod}
use shairplay_rust.Crypto.{Crypto}
use shairplay_rust.Homekit.{username, h_nn_pad, g_3072, n_3072_len}
use shairplay_rust.Homekit.Srp.{new_in_group, calculate_x, pin_or_transient, server_secret}

-- What num-bigint promises: a power modulo a number is that power's remainder, and the bytes of a
-- number are read back as it.
pub record IsBigNum (k : Crypto) : Type 0 where
  pub modpow_lem : (a e n : ℕ) → k.modpow a e n ≡ a ^ e % n
  pub reads_back : (n : ℕ) → k.big_from_bytes_be (k.big_to_bytes_be n) ≡ n

-- The premaster secret of a client: (B - k * g^x) ^ (a + u * x) mod N.
abbrev pub client_secret : ℕ → ℕ → ℕ → ℕ → ℕ → ℕ → ℕ → ℕ
client_secret n g mult x a u big_b = ((big_b + (n - mult * g ^ x % n)) % n) ^ (a + u * x) % n

-- A number less another one, modulo a number, when it was added.
cancel_mod : (m p n : ℕ) → 0 < n → m < n → ((m + p) % n + (n - m)) % n ≡ p % n
cancel_mod m p n pos h =
    mod-add-mod (m + p) n (n - m) ∙ ap (λ x. x % n) {y = p + n} (omega arith) ∙ add-mod_right p n

-- The client finds g^b again.
unmask :
    (n g mult x b : ℕ)
    → 0 < n
    → ((mult * (g ^ x % n) % n + g ^ b % n) % n + (n - mult * g ^ x % n)) % n ≡ g ^ b % n
unmask n g mult x b pos =
    ap (λ m. ((m + g ^ b % n) % n + (n - mult * g ^ x % n)) % n) (mul-mod mult (g ^ x) n)
    ∙ cancel_mod (mult * g ^ x % n) (g ^ b % n) n pos (mod-lt (mult * g ^ x) pos)
    ∙ mod-mod (g ^ b) n

-- (g^a * (g^x)^u)^b is (g^b)^(a + u * x).
exponents : (g a x u b : ℕ) → (g ^ a * (g ^ x) ^ u) ^ b ≡ (g ^ b) ^ (a + u * x)
exponents g a x u b =
    ap (λ p. (g ^ a * p) ^ b) (sym (pow_mul g x u))
    ∙ ap (λ p. p ^ b) (sym (pow_add g a (x * u)))
    ∙ sym (pow_mul g (a + x * u) b)
    ∙ ap (λ e. g ^ e) (ap (λ w. (a + w) * b) (mul_comm x u) ∙ mul_comm (a + u * x) b)
    ∙ pow_mul g b (a + u * x)

-- The number x of the salt and the PIN.
abbrev pub private_key : Crypto → Option (List ℕ) → List ℕ → ℕ
private_key k pin salt_bytes =
    calculate_x k (k.big_from_bytes_be salt_bytes) username (pin_or_transient pin)

module _ (k : Crypto) (big : IsBigNum k) where
  secret_of_powers :
      (n g a x u b : ℕ)
      → k.modpow (g ^ a % n * k.modpow (g ^ x % n) u n % n) b n ≡ (g ^ b) ^ (a + u * x) % n
  secret_of_powers n g a x u b =
      big.modpow_lem (g ^ a % n * k.modpow (g ^ x % n) u n % n) b n
      ∙ pow-mod (g ^ a % n * k.modpow (g ^ x % n) u n) b n
      ∙ sym (pow-mod (g ^ a % n * k.modpow (g ^ x % n) u n) b n)
      ∙ ap (λ w. w ^ b % n)
          (ap (λ w. (g ^ a % n * w) % n) (big.modpow_lem (g ^ x % n) u n ∙ pow-mod (g ^ x) u n)
            ∙ mod-mul (g ^ a) ((g ^ x) ^ u % n) n
            ∙ mul-mod (g ^ a) ((g ^ x) ^ u) n)
      ∙ pow-mod (g ^ a * (g ^ x) ^ u) b n
      ∙ ap (λ w. w % n) (exponents g a x u b)

  -- What the server publishes, with every power as a remainder.
  big_b_lem :
      (n x b mult : ℕ)
      → (mult * k.modpow g_3072 x n % n + k.modpow g_3072 b n) % n
        ≡ (mult * (g_3072 ^ x % n) % n + g_3072 ^ b % n) % n
  big_b_lem n x b mult =
      ap₂ (λ v w. (mult * v % n + w) % n) (big.modpow_lem g_3072 x n) (big.modpow_lem g_3072 b n)

  new_big_b :
      (n : ℕ) (pin : Option (List ℕ)) (salt_bytes b_bytes : List ℕ)
      → (new_in_group k n pin salt_bytes b_bytes).big_b
        ≡ (h_nn_pad k n g_3072 n_3072_len * k.modpow g_3072 (private_key k pin salt_bytes) n % n
            + k.modpow g_3072 (k.big_from_bytes_be b_bytes) n)
          % n
  unfolding new_in_group
  new_big_b n pin salt_bytes b_bytes = refl

  new_secret :
      (n : ℕ) (pin : Option (List ℕ)) (salt_bytes b_bytes : List ℕ) (big_a : ℕ)
      → server_secret k (new_in_group k n pin salt_bytes b_bytes) big_a
        ≡ k.modpow
            (big_a
              * k.modpow
                  (k.modpow g_3072 (private_key k pin salt_bytes) n)
                  (h_nn_pad k big_a (new_in_group k n pin salt_bytes b_bytes).big_b n_3072_len)
                  n
              % n)
            (k.big_from_bytes_be b_bytes)
            n
  unfolding server_secret new_in_group
  new_secret n pin salt_bytes b_bytes big_a = refl

  -- A client that has the server's salt and public value and the same PIN, and any secret number of
  -- its own, has the server's secret: both computations of SRP-6a agree in every group.
  pub server_secret-new_in_group :
      (n : ℕ) (pin : Option (List ℕ)) (salt_bytes b_bytes : List ℕ) (a : ℕ)
      → 0 < n
      → server_secret k (new_in_group k n pin salt_bytes b_bytes) (g_3072 ^ a % n)
        ≡ client_secret n g_3072
            (h_nn_pad k n g_3072 n_3072_len)
            (private_key k pin salt_bytes)
            a
            (h_nn_pad k (g_3072 ^ a % n) (new_in_group k n pin salt_bytes b_bytes).big_b n_3072_len)
            (new_in_group k n pin salt_bytes b_bytes).big_b
  server_secret-new_in_group n pin salt_bytes b_bytes a pos =
      let x = private_key k pin salt_bytes in
      let b = k.big_from_bytes_be b_bytes in
      let mult = h_nn_pad k n g_3072 n_3072_len in
      let big_b = (new_in_group k n pin salt_bytes b_bytes).big_b in
      let u = h_nn_pad k (g_3072 ^ a % n) big_b n_3072_len in
      new_secret n pin salt_bytes b_bytes (g_3072 ^ a % n)
      ∙ ap (λ v. k.modpow (g_3072 ^ a % n * k.modpow v u n % n) b n) (big.modpow_lem g_3072 x n)
      ∙ secret_of_powers n g_3072 a x u b
      ∙ sym (pow-mod (g_3072 ^ b) (a + u * x) n)
      ∙ ap (λ w. w ^ (a + u * x) % n)
          (sym (unmask n g_3072 mult x b pos)
            ∙ ap (λ w. (w + (n - mult * g_3072 ^ x % n)) % n)
                (sym (new_big_b n pin salt_bytes b_bytes ∙ big_b_lem n x b mult)))

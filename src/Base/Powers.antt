-- ===== src/Base/Powers.antt =====
-- Powers of native numbers, and powers modulo a number.
use native.Mathlib.Nat.{mul_comm, mul_assoc, pow-suc, pow-zero, add-mul-mod_self_left, mod-add-div}
use Prim.Native.Nat.{ℕ, zero, suc, ◌+◌, ◌*◌, ◌/◌, ◌%◌, ◌^◌}
use mathlib.Core.Path.{◌≡◌, sym, ap, ◌∙◌}
use native.Mathlib.Omega.{arith}

pub pow_add : (a m n : ℕ) → a ^ (m + n) ≡ a ^ m * a ^ n
pow_add a m zero =
    ap (λ k. a ^ k) {y = m} (omega arith) ∙ sym (ap (λ p. a ^ m * p) (pow-zero a) ∙ omega arith)
pow_add a m (suc n) =
    ap (λ k. a ^ k) {y = suc (m + n)} (omega arith)
    ∙ pow-suc a (m + n)
    ∙ ap (λ p. p * a) (pow_add a m n)
    ∙ mul_assoc (a ^ m) (a ^ n) a
    ∙ ap (λ p. a ^ m * p) (sym (pow-suc a n))

pub pow_mul : (a m n : ℕ) → a ^ (m * n) ≡ (a ^ m) ^ n
pow_mul a m zero =
    ap (λ k. a ^ k) {y = 0} (omega arith) ∙ omega (arith, pow-zero a, pow-zero (a ^ m))
pow_mul a m (suc n) =
    ap (λ k. a ^ k) {y = m * n + m} (omega arith)
    ∙ pow_add a (m * n) m
    ∙ ap (λ p. p * a ^ m) (pow_mul a m n)
    ∙ sym (pow-suc (a ^ m) n)

pub mod-mul : (a b n : ℕ) → (a % n * b) % n ≡ (a * b) % n
mod-mul a b n =
    sym (add-mul-mod_self_left (a % n * b) n (a / n * b))
    ∙ ap (λ x. x % n)
        (ap (λ x. a % n * b + x) (sym (mul_assoc n (a / n) b))
          ∙ sym (grind arith)
          ∙ ap (λ x. x * b) (mod-add-div a n))

pub mul-mod : (a b n : ℕ) → (a * (b % n)) % n ≡ (a * b) % n
mul-mod a b n =
    ap (λ x. x % n) (mul_comm a (b % n)) ∙ mod-mul b a n ∙ ap (λ x. x % n) (mul_comm b a)

pub pow-mod : (a e n : ℕ) → (a % n) ^ e % n ≡ a ^ e % n
pow-mod a zero n = ap (λ x. x % n) (omega (arith, pow-zero a, pow-zero (a % n)))
pow-mod a (suc e) n =
    ap (λ x. x % n) (pow-suc (a % n) e)
    ∙ sym (mod-mul ((a % n) ^ e) (a % n) n)
    ∙ ap (λ x. (x * (a % n)) % n) (pow-mod a e n)
    ∙ mod-mul (a ^ e) (a % n) n
    ∙ mul-mod (a ^ e) a n
    ∙ ap (λ x. x % n) (sym (pow-suc a e))

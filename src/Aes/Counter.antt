-- ===== src/Aes/Counter.antt =====
-- crypto/aes.rs: `AesCtr::inc_counter` on the number that the block is.
use native.Mathlib.Nat.{
  add-mul-mod_self_left, mod-eq_of_lt, mod-lt, mod-add-div, one-le-pow, pow-succ', mul_assoc,
}
use mathlib.Core.List.{reverse, reverse-reverse, reverse-cons}
use shairplay_rust.Base.{
  ℕ, suc, ◌+◌, ◌*◌, ◌/◌, ◌%◌, ◌^◌, ◌<◌, List, [], ◌∷◌, ◌++◌, length, ◌≡◌, refl, sym, ap, ◌∙◌, arith,
  length-append,
}
use shairplay_rust.Base.Words.{from_be_bytes, from_le_bytes, be_acc}
use shairplay_rust.Aes.{add_carry, inc_counter}

digit_and_rest :
    (x y m : ℕ) → 0 < m → x % 256 + 256 * ((x / 256 + y) % m) ≡ (x + 256 * y) % (256 * m)
digit_and_rest x y m h =
    let q = x / 256 + y in
    let small : x % 256 + 256 * (q % m) < 256 * m = omega (arith, mod-lt q h) in
    let whole : x % 256 + 256 * (q % m) + 256 * m * (q / m) ≡ x + 256 * y =
      omega (arith, mod-add-div q m, mul_assoc 256 m (q / m)) in
    sym (mod-eq_of_lt small)
    ∙ sym (add-mul-mod_self_left (x % 256 + 256 * (q % m)) (256 * m) (q / m))
    ∙ ap (λ n. n % (256 * m)) whole

from_le_bytes-add_carry :
    (carry : ℕ) (bs : List ℕ)
    → from_le_bytes (add_carry carry bs) ≡ (carry + from_le_bytes bs) % 256 ^ length bs
unfolding add_carry from_le_bytes
from_le_bytes-add_carry carry [] = omega arith
from_le_bytes-add_carry carry (b ∷ bs) =
    ap (λ x. (carry + b) % 256 + 256 * x) (from_le_bytes-add_carry ((carry + b) / 256) bs)
    ∙ digit_and_rest (carry + b) (from_le_bytes bs) (256 ^ length bs)
        (omega (arith, one-le-pow (length bs) 256 (omega arith)))
    ∙ ap (λ m. (carry + b + 256 * from_le_bytes bs) % m) (sym (pow-succ' 256 (length bs)))
    ∙ ap (λ n. n % 256 ^ suc (length bs)) (omega arith)

be_acc_last :
    (acc : ℕ) (xs : List ℕ) (b : ℕ) → be_acc acc (xs ++ (b ∷ [])) ≡ be_acc acc xs * 256 + b
unfolding be_acc
be_acc_last acc [] b = refl
be_acc_last acc (x ∷ xs) b = be_acc_last (acc * 256 + x) xs b

from_be-reverse : (bs : List ℕ) → from_be_bytes (reverse bs) ≡ from_le_bytes bs
unfolding from_be_bytes from_le_bytes be_acc
from_be-reverse [] = refl
from_be-reverse (b ∷ bs) =
    ap (be_acc 0) (reverse-cons b bs)
    ∙ be_acc_last 0 (reverse bs) b
    ∙ omega (arith, from_be-reverse bs)

length-reverse_native : (bs : List ℕ) → length (reverse bs) ≡ length bs
length-reverse_native [] = refl
length-reverse_native (b ∷ bs) =
    ap length (reverse-cons b bs)
    ∙ length-append (reverse bs) (b ∷ [])
    ∙ omega (arith, length-reverse_native bs)

-- The block is incremented as one big-endian number, and the one after the greatest is zero.
pub inc_counter_lem :
    (counter : List ℕ)
    → from_be_bytes (inc_counter counter) ≡ (1 + from_be_bytes counter) % 256 ^ length counter
unfolding inc_counter
inc_counter_lem counter =
    let digits = reverse counter in
    from_be-reverse (add_carry 1 digits)
    ∙ from_le_bytes-add_carry 1 digits
    ∙ ap (λ n. (1 + from_le_bytes digits) % 256 ^ n) (length-reverse_native counter)
    ∙ ap (λ v. (1 + v) % 256 ^ length counter)
        (sym (from_be-reverse digits) ∙ ap from_be_bytes (reverse-reverse counter))

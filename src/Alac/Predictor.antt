-- ===== src/Alac/Predictor.antt =====
-- codec/alac.rs: the adaptive predictor.
pub mod Delta
use shairplay_rust.Base.{
  ℕ, zero, suc, ◌+◌, ◌-◌, ◌*◌, ◌/◌, ◌%◌, ◌^◌, Bool, true, false, not, ◌&&◌, ◌||◌, Option, none,
  some, List, [], ◌∷◌, ◌++◌, length, take, drop, set, get_or, ◌>>=◌, ltb, leb, ◌==◌, if◌then◌else◌,
}
use shairplay_rust.Base.Words.{
  add32, sub32, mul32, shl32, sar32, is_neg32, is_pos32, i32_as_i64, i16_as_i64, add64, mul64,
  sar64,
}
use shairplay_rust.Alac.Reader.{sign_extend_32}
use shairplay_rust.Alac.Rice.{write_at}

unfoldable pub sign_only : ℕ → ℕ
sign_only v = if is_neg32 v then 2 ^ 32 - 1 else if ltb 0 v then 1 else 0

-- `out[start..end].copy_from_slice(&from[start..end])`
copy_range : List ℕ → List ℕ → ℕ → ℕ → Option (List ℕ)
copy_range from out start end =
    if leb start end && (leb end (length from) && leb end (length out))
    then some (take start out ++ take (end - start) (drop start from) ++ drop end out)
    else none

-- `count` samples from `i` on, each its predecessor plus the error.
unfoldable pub add_errors : ℕ → ℕ → ℕ → List ℕ → List ℕ → Option (List ℕ)
unfolding add32 sign_extend_32
add_errors zero i readsamplesize error out = some out
add_errors (suc count) i readsamplesize error out = elim (ltb (i + 1) (length error)) [
  | false ↦ none
  | true ↦
      write_at out (i + 1)
        (sign_extend_32 (add32 (get_or out i 0) (get_or error (i + 1) 0)) readsamplesize)
      >>= λ out1. add_errors count (i + 1) readsamplesize error out1
]

-- The sum over the coefficients from `j` on, `count` of them.
weighted_sum : ℕ → ℕ → List ℕ → List ℕ → ℕ → ℕ → ℕ
unfolding sub32 add64 mul64 i32_as_i64 i16_as_i64
weighted_sum zero j out table off num = 0
weighted_sum (suc count) j out table off num =
    add64
      (mul64 (i32_as_i64 (sub32 (get_or out (off + num - j) 0) (get_or out off 0)))
        (i16_as_i64 (get_or table j 0)))
      (weighted_sum count (suc j) out table off num)

-- The sample that the coefficients predict, with the error.
predicted : List ℕ → List ℕ → ℕ → ℕ → ℕ → ℕ → ℕ → ℕ
unfolding weighted_sum add64 sar64 i32_as_i64 sign_extend_32
predicted out table off num quantitization readsamplesize error_val =
    let sum = weighted_sum num 0 out table off num in
    let pq = if is_neg32 quantitization then 0 else quantitization in
    let rounding = if pq == 0 then 0 else 2 ^ ((pq - 1) % 64) in
    let outval = sar64 (add64 rounding sum) pq in
    sign_extend_32
      (add64 outval (add64 (i32_as_i64 (get_or out off 0)) (i32_as_i64 error_val)) % 2 ^ 32)
      readsamplesize

-- The loop over the coefficients, from the last: while the error keeps its sign, each moves by one.
adapt : Bool → ℕ → List ℕ → ℕ → ℕ → ℕ → ℕ → List ℕ → List ℕ
unfolding sub32 mul32 sar32 sign_only
adapt positive zero out off num quantitization ev table = table
adapt positive (suc pn) out off num quantitization ev table =
    let val = sub32 (get_or out off 0) (get_or out (off + num - pn) 0) in
    let sign = if positive then sign_only val else sub32 0 (sign_only val) in
    let moved = (get_or table pn 0 + (2 ^ 16 - sign % 2 ^ 16)) % 2 ^ 16 in
    let step = mul32 (sar32 (mul32 val sign) quantitization) (num - pn) in
    let rest = adapt positive pn out off num quantitization (sub32 ev step) (set table pn moved) in
    if (if positive then is_pos32 ev else is_neg32 ev) then rest else table

adapt_coefficients : ℕ → List ℕ → ℕ → ℕ → ℕ → List ℕ → List ℕ
unfolding adapt
adapt_coefficients error_val out off num quantitization table =
    if is_pos32 error_val
    then adapt true num out off num quantitization error_val table
    else if is_neg32 error_val
    then adapt false num out off num quantitization error_val table
    else table

-- The loop over the errors behind the warm-up.
general : ℕ → List ℕ → List ℕ → List ℕ → ℕ → ℕ → ℕ → Option (List ℕ × List ℕ)
unfolding predicted adapt_coefficients
general off [] out table num quantitization readsamplesize = some (out, table)
general off (error_val ∷ errors) out table num quantitization readsamplesize =
    write_at out (off + num + 1)
      (predicted out table off num quantitization readsamplesize error_val)
    >>= λ out1.
        general (suc off) errors out1
          (adapt_coefficients error_val out1 off num quantitization table) num quantitization
          readsamplesize

-- The samples behind the first, by the number of coefficients.
unfoldable pub predict_rest : List ℕ → List ℕ → ℕ → ℕ → List ℕ → ℕ → ℕ → Option (List ℕ × List ℕ)
unfolding copy_range add_errors general
predict_rest error out output_size readsamplesize table num quantitization =
    if num == 0
    then (if leb output_size 1
        then some (out, table)
        else (copy_range error out 1 output_size >>= λ out1. some (out1, table)))
    else if num == 0x1f
    then (if leb output_size 1
        then some (out, table)
        else (add_errors (output_size - 1) 0 readsamplesize error out >>= λ out1.
            some (out1, table)))
    else (add_errors num 0 readsamplesize error out >>= λ out1.
        if leb (num + 1) output_size && leb output_size (length error)
        then general 0 (take (output_size - (num + 1)) (drop (num + 1) error)) out1 table num
            quantitization readsamplesize
        else none)

unfoldable pub predictor_decompress_fir_adapt :
    List ℕ → List ℕ → ℕ → ℕ → List ℕ → ℕ → ℕ → Option (List ℕ × List ℕ)
unfolding predict_rest
predictor_decompress_fir_adapt error out output_size readsamplesize table num quantitization =
    if output_size == 0 || (length error == 0 || length out == 0)
    then some (out, table)
    else predict_rest error (set out 0 (get_or error 0 0)) output_size readsamplesize table num
        quantitization

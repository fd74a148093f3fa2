-- ===== src/Alac/Predictor/Delta.antt =====
-- codec/alac.rs: the predictor that adds each error to the sample before it.
use shairplay_rust.Base.{
  ℕ, zero, suc, ◌+◌, ◌-◌, ◌^◌, ◌≤◌, ◌<◌, true, false, some, List, [], ◌∷◌, ◌++◌, length, drop, set,
  get_or, ltb, leb, ◌==◌, ◌≡◌, refl, sym, ap, ◌∙◌, arith, All, lt→ltb, length-append, append_assoc,
}
use shairplay_rust.Base.Words.{add32, sub32}
use shairplay_rust.Alac.Reader.{sign_extend_32}
use shairplay_rust.Alac.Rice.{write_at}
use shairplay_rust.Alac.Predictor.{add_errors, predict_rest, predictor_decompress_fir_adapt}

-- A word that is a sample of so many bits.
abbrev pub IsSample : ℕ → ℕ → Type 0
IsSample bits v = (v < 2 ^ 32) × (sign_extend_32 v bits ≡ v)

-- The differences of the samples, each to the one before it.
unfoldable pub differences : ℕ → List ℕ → List ℕ
unfolding sub32
differences p [] = []
differences p (x ∷ xs) = sub32 x p ∷ differences x xs

get_or-append : (pre rest : List ℕ) (x i : ℕ) → i ≡ length pre → get_or (pre ++ x ∷ rest) i 0 ≡ x
get_or-append [] rest x zero h = refl
get_or-append [] rest x (suc i) h = absurd (omega arith)
get_or-append (y ∷ pre) rest x zero h = absurd (omega arith)
get_or-append (y ∷ pre) rest x (suc i) h = get_or-append pre rest x i (omega arith)

set-append :
    (pre rest : List ℕ) (x v i : ℕ) → i ≡ length pre → set (pre ++ x ∷ rest) i v ≡ pre ++ v ∷ rest
set-append [] rest x v zero h = refl
set-append [] rest x v (suc i) h = absurd (omega arith)
set-append (y ∷ pre) rest x v zero h = absurd (omega arith)
set-append (y ∷ pre) rest x v (suc i) h = ap (λ l. y ∷ l) (set-append pre rest x v i (omega arith))

add32-sub32 : (x p : ℕ) → x < 2 ^ 32 → p < 2 ^ 32 → add32 p (sub32 x p) ≡ x
unfolding add32 sub32
add32-sub32 x p hx hp = omega arith

write_at-append :
    (pre rest : List ℕ) (x v i : ℕ)
    → i ≡ length pre
    → write_at (pre ++ x ∷ rest) i v ≡ some (pre ++ v ∷ rest)
write_at-append pre rest x v i h = rw (within, write_at) (ap some (set-append pre rest x v i h))
  where
    within : ltb i (length (pre ++ x ∷ rest)) ≡ true
    within = lt→ltb i (length (pre ++ x ∷ rest)) (omega (arith, length-append pre (x ∷ rest)))

suc_ne_zero : (n : ℕ) → (suc n == 0) ≡ false
suc_ne_zero n = ground arith

add_errors-step :
    (count i bits v : ℕ) (error out out1 : List ℕ)
    → ltb (i + 1) (length error) ≡ true
    → sign_extend_32 (add32 (get_or out i 0) (get_or error (i + 1) 0)) bits ≡ v
    → write_at out (i + 1) v ≡ some out1
    → add_errors (suc count) i bits error out ≡ add_errors count (i + 1) bits error out1
unfolding add_errors
add_errors-step count i bits v error out out1 within value written =
    rw (within, value, written, add_errors) refl

module _ (bits : ℕ) where
  next_sample :
      (x p i : ℕ) (done errors_done rest errors_rest : List ℕ)
      → IsSample bits p
      → IsSample bits x
      → i ≡ length done
      → suc i ≡ length errors_done
      → sign_extend_32
          (add32
            (get_or (done ++ p ∷ rest) i 0)
            (get_or (errors_done ++ sub32 x p ∷ errors_rest) (i + 1) 0))
          bits
        ≡ x
  next_sample x p i done errors_done rest errors_rest (bp, sp) (bx, sx) hi he =
      rw
        (
          get_or-append done rest p i hi,
          get_or-append errors_done errors_rest (sub32 x p) (i + 1) (omega arith),
          add32-sub32 x p bx bp,
        )
        sx

  add_errors-differences :
      (xs : List ℕ) (p i : ℕ) (done errors_done rest errors_rest : List ℕ)
      → IsSample bits p
      → All (IsSample bits) xs
      → i ≡ length done
      → suc i ≡ length errors_done
      → length xs ≤ length rest
      → add_errors
          (length xs)
          i
          bits
          (errors_done ++ (differences p xs ++ errors_rest))
          (done ++ p ∷ rest)
        ≡ some (done ++ p ∷ (xs ++ drop (length xs) rest))
  unfolding add_errors differences
  add_errors-differences [] p i done errors_done rest errors_rest hp h hi he hr = refl
  add_errors-differences (x ∷ xs) p i done errors_done [] errors_rest hp h hi he hr =
      absurd (omega arith)
  add_errors-differences (x ∷ xs) p i done errors_done (o ∷ rest) errors_rest hp (hx, hxs) hi he
        hr =
      add_errors-step (length xs) i bits x (errors_done ++ d ∷ more_errors) (done ++ p ∷ o ∷ rest)
        (done ++ p ∷ x ∷ rest) within
        (next_sample x p i done errors_done (o ∷ rest) more_errors hp hx hi he) written
      ∙ ap (λ e. add_errors (length xs) (i + 1) bits e (done ++ p ∷ x ∷ rest))
          (sym (append_assoc errors_done (d ∷ []) more_errors))
      ∙ ap (λ l. add_errors (length xs) (i + 1) bits ((errors_done ++ d ∷ []) ++ more_errors) l)
          (sym (append_assoc done (p ∷ []) (x ∷ rest)))
      ∙ add_errors-differences xs x (i + 1) (done ++ p ∷ []) (errors_done ++ d ∷ []) rest
          errors_rest hx hxs (omega (arith, length-append done (p ∷ [])))
          (omega (arith, length-append errors_done (d ∷ []))) (omega arith)
      ∙ ap some (append_assoc done (p ∷ []) (x ∷ (xs ++ drop (length xs) rest)))
    where
      d : ℕ
      d = sub32 x p

      more_errors : List ℕ
      more_errors = differences x xs ++ errors_rest

      within : ltb (i + 1) (length (errors_done ++ d ∷ more_errors)) ≡ true
      within =
          lt→ltb (i + 1) (length (errors_done ++ d ∷ more_errors))
            (omega (arith, length-append errors_done (d ∷ more_errors)))

      written : write_at (done ++ p ∷ o ∷ rest) (i + 1) x ≡ some (done ++ p ∷ x ∷ rest)
      written =
          ap (λ l. write_at l (i + 1) x) (sym (append_assoc done (p ∷ []) (o ∷ rest)))
          ∙ write_at-append (done ++ p ∷ []) rest o x (i + 1)
              (omega (arith, length-append done (p ∷ [])))
          ∙ ap some (append_assoc done (p ∷ []) (x ∷ rest))

  predict_rest-differences :
      (x : ℕ) (xs : List ℕ) (rest errors_rest table : List ℕ) (quantitization : ℕ)
      → IsSample bits x
      → All (IsSample bits) xs
      → length xs ≤ length rest
      → predict_rest
          (x ∷ (differences x xs ++ errors_rest))
          (x ∷ rest)
          (suc (length xs))
          bits
          table
          31
          quantitization
        ≡ some (x ∷ (xs ++ drop (length xs) rest), table)
  unfolding predict_rest
  predict_rest-differences x [] rest errors_rest table quantitization hx h hr = refl
  predict_rest-differences x (y ∷ ys) rest errors_rest table quantitization hx h hr =
      rw
        (
          several,
          one_less,
          add_errors-differences (y ∷ ys) x 0 [] (x ∷ []) rest errors_rest hx h (omega arith)
              (omega arith) hr,
        )
        refl
    where
      several : leb (suc (length (y ∷ ys))) 1 ≡ false
      several = ground arith

      one_less : suc (length (y ∷ ys)) - 1 ≡ length (y ∷ ys)
      one_less = omega arith

  -- Samples of the width are given back from their differences by the predictor of number 31, which
  -- keeps the rest of the buffer and the coefficients.
  pub predictor_decompress_fir_adapt-differences :
      (x : ℕ) (xs : List ℕ) (o : ℕ) (rest errors_rest table : List ℕ) (quantitization : ℕ)
      → IsSample bits x
      → All (IsSample bits) xs
      → length xs ≤ length rest
      → predictor_decompress_fir_adapt
          (x ∷ (differences x xs ++ errors_rest))
          (o ∷ rest)
          (suc (length xs))
          bits
          table
          31
          quantitization
        ≡ some (x ∷ (xs ++ drop (length xs) rest), table)
  unfolding predictor_decompress_fir_adapt
  predictor_decompress_fir_adapt-differences x xs o rest errors_rest table quantitization hx h hr =
      rw
        (
          suc_ne_zero (length xs),
          suc_ne_zero (length (differences x xs ++ errors_rest)),
          suc_ne_zero (length rest),
        )
        (predict_rest-differences x xs rest errors_rest table quantitization hx h hr)

-- ===== src/Tlv/Decode.antt =====
-- crypto/tlv.rs: the loop of `decode`, its fuel and one step of it.
use shairplay_rust.Base.{
  ℕ, zero, suc, ◌≤◌, List, [], ◌∷◌, ◌++◌, length, take, drop, ◌≡◌, ◌≢◌, refl, arith, length-drop,
  ge→ltb, length-append, take-append_exact, drop-append_exact,
}
use shairplay_rust.Tlv.{TlvValues, Decoded, stuck, push_chunk, decode_loop, decode}

-- More fuel than bytes changes nothing.
decode_loop_fuel :
    (f g : ℕ) (bytes : List ℕ) (acc : TlvValues)
    → length bytes ≤ f
    → length bytes ≤ g
    → decode_loop f bytes acc ≡ decode_loop g bytes acc
unfolding decode_loop
decode_loop_fuel f g [] acc hf hg = refl
decode_loop_fuel f g (tag ∷ []) acc hf hg = refl
decode_loop_fuel zero g (tag ∷ len ∷ rest) acc hf hg = absurd (omega arith)
decode_loop_fuel (suc f) zero (tag ∷ len ∷ rest) acc hf hg = absurd (omega arith)
decode_loop_fuel (suc f) (suc g) (tag ∷ len ∷ rest) acc hf hg = rw (
    decode_loop_fuel f g (drop len rest) (push_chunk tag (take len rest) acc)
      (omega (arith, length-drop len rest)) (omega (arith, length-drop len rest)))

-- The loop with just enough fuel.
abbrev pub run : List ℕ → TlvValues → Decoded
run bytes acc = decode_loop (length bytes) bytes acc

-- A whole chunk at the front is taken, and the loop goes on behind it.
pub run_chunk :
    (tag len : ℕ) (chunk rest : List ℕ) (acc : TlvValues)
    → length chunk ≡ len
    → run (tag ∷ len ∷ (chunk ++ rest)) acc ≡ run rest (push_chunk tag chunk acc)
unfolding decode_loop
run_chunk tag len chunk rest acc h =
    rw
      (
        take-append_exact len chunk rest h,
        drop-append_exact len chunk rest h,
        ge→ltb (length (chunk ++ rest)) len (omega (arith, length-append chunk rest)),
      )
      (decode_loop_fuel (suc (length (chunk ++ rest))) (length rest) rest (push_chunk tag chunk acc)
        (omega (arith, length-append chunk rest)) (omega arith))

decode_loop-ne-stuck :
    (fuel : ℕ) (bytes : List ℕ) (acc : TlvValues)
    → length bytes ≤ fuel
    → decode_loop fuel bytes acc ≢ stuck
unfolding decode_loop
decode_loop-ne-stuck fuel [] acc h = λ e. cc
decode_loop-ne-stuck fuel (tag ∷ []) acc h = λ e. cc
decode_loop-ne-stuck zero (tag ∷ len ∷ rest) acc h = absurd (omega arith)
decode_loop-ne-stuck (suc fuel) (tag ∷ len ∷ rest) acc h = ground (
  arith,
  decode_loop-ne-stuck fuel (drop len rest) (push_chunk tag (take len rest) acc),
  length-drop len rest,
)

-- `decode` answers with entries or with `Truncated` on every input: its loop ends.
pub decode-ne-stuck : (bytes : List ℕ) → decode bytes ≢ stuck
unfolding decode
decode-ne-stuck bytes = decode_loop-ne-stuck (length bytes) bytes [] (omega arith)

-- ===== src/Alac/Frame/Bounds.antt =====
-- codec/alac.rs: the output of a frame.
use shairplay_rust.Base.{
  ℕ, zero, suc, ◌+◌, ◌*◌, ◌/◌, ◌≤◌, Bool, true, false, Option, none, some, List, ◌++◌, length, take,
  drop, ◌≡◌, refl, sym, ◌∙◌, arith, inl, inr, Bool-cases, ltb, leb, ◌==◌, leb→le, ltb→ge,
  length-append, length-take, length-drop, not, ◌||◌, ◌>>=◌, if◌then◌else◌,
}
use mathlib.Core.Bool.{false≢true}
use shairplay_rust.Alac.{AlacDecoder}
use shairplay_rust.Alac.Reader.{BitReader, new_reader, readbits}
use shairplay_rust.Alac.Subframe.{SubframeHeader, parse_subframe_header}
use shairplay_rust.Alac.Output.{Read, emit, write_bytes, mono_bytes, stereo_bytes}
use shairplay_rust.Alac.Frame.{
  DecodedFrame, decode_element, decode_frame, mono_samples, stereo_samples,
}

-- An output of as many bytes, if there is one.
abbrev KeptLength : List ℕ → Option (List ℕ) → Type 0
KeptLength out none = Unit
KeptLength out (some out1) = length out1 ≡ length out

write_bytes-KeptLength :
    (out : List ℕ) (off : ℕ) (bytes : List ℕ) → KeptLength out (write_bytes out off bytes)
unfolding write_bytes
write_bytes-KeptLength out off bytes = elim (Bool-cases (leb (off + length bytes) (length out))) [
  | inr e ↦ rw (e, KeptLength) tt
  | inl e ↦ rw (e, KeptLength) (same (leb→le (off + length bytes) (length out) e))
]
  where
    same :
        off + length bytes ≤ length out
        → length (take off out ++ bytes ++ drop (off + length bytes) out) ≡ length out
    same h = omega (
      arith,
      length-append (take off out ++ bytes) (drop (off + length bytes) out),
      length-append (take off out) bytes,
      length-take off out,
      length-drop (off + length bytes) out,
    )

-- The frame's size is within the output, whose length is kept.
unfoldable pub IsBounded : List ℕ → Option DecodedFrame → Type 0
IsBounded output none = Unit
IsBounded output (some x) = (length x.output ≡ length output) × (x.size ≤ length output)

-- A chain keeps the length if what follows its first computation does.
bind-KeptLength :
    {A : Type 0} (out : List ℕ) (o : Option A) (f : A → Option (List ℕ))
    → ((a : A) → KeptLength out (f a))
    → KeptLength out (o >>= f)
bind-KeptLength out none f h = tt
bind-KeptLength out (some a) f h = h a

then-KeptLength :
    (out : List ℕ) (o : Option (List ℕ)) (f : List ℕ → Option (List ℕ))
    → KeptLength out o
    → ((out1 : List ℕ) → KeptLength out1 (f out1))
    → KeptLength out (o >>= f)
then-KeptLength out none f kept h = tt
then-KeptLength out (some out1) f kept h = moved (f out1) (h out1)
  where
    moved : (o : Option (List ℕ)) → KeptLength out1 o → KeptLength out o
    moved none k = tt
    moved (some out2) k = k ∙ kept

emit-KeptLength :
    (count i stride : ℕ) (bytes_of : ℕ → Option (List ℕ)) (out : List ℕ)
    → KeptLength out (emit count i stride bytes_of out)
unfolding emit
emit-KeptLength zero i stride bytes_of out = refl
emit-KeptLength (suc count) i stride bytes_of out =
    bind-KeptLength out (bytes_of i)
      (λ bytes.
        write_bytes out (i * stride) bytes >>= λ out1. emit count (suc i) stride bytes_of out1)
      (λ bytes.
        then-KeptLength out (write_bytes out (i * stride) bytes)
          (λ out1. emit count (suc i) stride bytes_of out1)
          (write_bytes-KeptLength out (i * stride) bytes)
          (λ out1. emit-KeptLength count (suc i) stride bytes_of out1))

refused-IsBounded :
    (d : AlacDecoder) (output : List ℕ)
    → IsBounded output (some (record { size = 0; output = output; decoder = d }))
unfolding IsBounded
refused-IsBounded d output = (refl, omega arith)

if-IsBounded :
    (output : List ℕ) (test : Bool) (x y : Option DecodedFrame)
    → (test ≡ true → IsBounded output x)
    → (test ≡ false → IsBounded output y)
    → IsBounded output (if test then x else y)
if-IsBounded output true x y h k = h refl
if-IsBounded output false x y h k = k refl

bind-IsBounded :
    {A : Type 0} (output : List ℕ) (o : Option A) (f : A → Option DecodedFrame)
    → ((a : A) → IsBounded output (f a))
    → IsBounded output (o >>= f)
unfolding IsBounded
bind-IsBounded output none f h = tt
bind-IsBounded output (some a) f h = h a

or-right_false : (a b : Bool) → (a || b) ≡ false → b ≡ false
or-right_false true b h = absurd (false≢true (sym h))
or-right_false false b h = h

-- The output of the samples, with a size that fits it.
emitted-IsBounded :
    (output : List ℕ) (o : Option (List ℕ)) (size : ℕ) (d : AlacDecoder)
    → KeptLength output o
    → size ≤ length output
    → IsBounded output
        (o >>= λ output1. some (record { size = size; output = output1; decoder = d }))
unfolding IsBounded
emitted-IsBounded output none size d kept h = tt
emitted-IsBounded output (some output1) size d kept h = (kept, h)

module _ (samples : SubframeHeader → AlacDecoder → BitReader → Option Read)
    (bytes_of : Read → SubframeHeader → ℕ → Option (List ℕ)) where
  decode_element-IsBounded :
      (h : SubframeHeader) (d : AlacDecoder) (r : BitReader) (output : List ℕ)
      → IsBounded output (decode_element samples bytes_of h d r output)
  unfolding decode_element
  decode_element-IsBounded h d r output =
      let too_long =
        ltb d.max_samples_per_frame h.output_samples || ltb (length output) h.output_size in
      let too_deep = ltb d.sample_size_config (h.uncompressed_bytes * 8) in
      let in_profile = d.sample_size_config == 16 || d.sample_size_config == 24 in
      let stride = d.num_channels * (d.sample_size_config / 8) in
      if-IsBounded output too_long _ _ (λ e. refused-IsBounded d output)
        (λ fits.
          if-IsBounded output (h.output_samples == 0) _ _ (λ e. refused-IsBounded d output)
            (λ e.
              if-IsBounded output too_deep _ _ (λ e. refused-IsBounded d output)
                (λ e. bind-IsBounded output (samples h d r) _ (λ c.
                  if-IsBounded output in_profile _ _
                    (λ e.
                      emitted-IsBounded output
                        (emit h.output_samples 0 stride (bytes_of c h) output) h.output_size
                        c.decoder (emit-KeptLength h.output_samples 0 stride (bytes_of c h) output)
                        (ltb→ge (length output) h.output_size
                          (or-right_false (ltb d.max_samples_per_frame h.output_samples) _ fits)))
                    (λ e. refused-IsBounded c.decoder output)))))

-- A frame is written within the output that was passed, whose length is kept, and the size that is
-- reported is within it, whatever the decoder's state and the frame's bytes.
pub decode_frame-IsBounded :
    (d : AlacDecoder) (input output : List ℕ) → IsBounded output (decode_frame d input output)
unfolding decode_frame
decode_frame-IsBounded d input output =
    let disabled = d.max_samples_per_frame == 0 || d.bytes_per_sample == 0 in
    let too_short = ltb (length output) (d.max_samples_per_frame * d.bytes_per_sample) in
    let (channels, r) = readbits (new_reader input) 3 in
    let (h, r1) =
      parse_subframe_header r d.max_samples_per_frame (d.max_samples_per_frame * d.bytes_per_sample)
        d.bytes_per_sample in
    if-IsBounded output disabled _ _ (λ e. refused-IsBounded d output)
      (λ e.
        if-IsBounded output too_short _ _ (λ e. refused-IsBounded d output)
          (λ e.
            if-IsBounded output (channels == 0) _ _
              (λ e.
                if-IsBounded output (not (d.num_channels == 1)) _ _
                  (λ e. refused-IsBounded d output)
                  (λ e. decode_element-IsBounded mono_samples mono_bytes h d r1 output))
              (λ e.
                if-IsBounded output (channels == 1) _ _
                  (λ e.
                    if-IsBounded output (not (d.num_channels == 2)) _ _
                      (λ e. refused-IsBounded d output)
                      (λ e. decode_element-IsBounded stereo_samples stereo_bytes h d r1 output))
                  (λ e. refused-IsBounded d output))))

-- ===== src/RaopBuffer/Fresh.antt =====
-- raop/buffer.rs: what `new` and `new_unencrypted` make.
use shairplay_rust.Base.{
  ℕ, zero, suc, true, Option, none, some, List, get_or, replicate, ◌≡◌, refl, arith,
  length-replicate,
}
use mathlib.Core.Option
use mathlib.Core.Path.{subst}
use shairplay_rust.RaopBuffer.{RaopBuffer, BufferEntry, blank}
use shairplay_rust.RaopBuffer.Format.{AlacConfig, CodecConfig, parse_codec, parse_fmtp}
use shairplay_rust.RaopBuffer.Decode.{AesSession, Codec, Backend}
use shairplay_rust.RaopBuffer.Build.{fresh, build_alac, build_pcm, build}
use shairplay_rust.RaopBuffer.Invariant.{Frame, IsGoodEntry, IsWellFormed, frame_of}

get_or-replicate : (n i : ℕ) (e : BufferEntry) → get_or (replicate n e) i e ≡ e
get_or-replicate zero i e = refl
get_or-replicate (suc n) zero e = refl
get_or-replicate (suc n) (suc i) e = get_or-replicate n i e

blank-IsGoodEntry : (f : Frame) (i : ℕ) → IsGoodEntry f i (blank f.capacity)
blank-IsGoodEntry f i = record {
  sized = length-replicate f.capacity _;
  len_le = omega arith;
  in_window = λ e. absurd (cc);
}

inside : {A : Type 0} {x y : A} → some x ≡ some y → x ≡ y
inside h = cc

module _ {D : Type 0} where
  pub fresh-IsWellFormed :
      (aes : Option AesSession) (codec : Codec D) (capacity silence : ℕ)
      → IsWellFormed (fresh aes codec capacity silence)
  unfolding fresh
  fresh-IsWellFormed aes codec capacity silence = record {
    slots = length-replicate 32 (blank capacity);
    first_u16 = omega arith;
    last_u16 = omega arith;
    window = omega arith;
    good = λ i h.
        rw (get_or-replicate 32 i (blank capacity))
          (blank-IsGoodEntry (frame_of (fresh aes codec capacity silence)) i);
  }

  module _ (k : Backend D) where
    abbrev IsFresh : Option AesSession → RaopBuffer D → Type 0
    IsFresh aes b =
        (codec : Codec D) × (capacity : ℕ) × (silence : ℕ) × (fresh aes codec capacity silence ≡ b)

    build_cases :
        (c : Option CodecConfig) (config : Option AlacConfig) (aes : Option AesSession)
        (b : RaopBuffer D)
        → (elim c [
          | none ↦ none
          | some CodecConfig.alac ↦ Option.map (build_alac k aes) config
          | some (CodecConfig.pcm pcm_config) ↦ some (build_pcm k aes pcm_config)
        ])
          ≡ some b
        → IsFresh aes b
    unfolding build_alac build_pcm
    build_cases none config aes b h = absurd (cc)
    build_cases (some CodecConfig.alac) none aes b h = absurd (cc)
    build_cases (some CodecConfig.alac) (some config) aes b h = (_, _, _, inside h)
    build_cases (some (CodecConfig.pcm config)) f aes b h = (_, _, _, inside h)

    -- Every buffer that `new` or `new_unencrypted` makes is empty and well formed.
    pub build-IsWellFormed :
        (rtpmap fmtp : List ℕ) (aes : Option AesSession) (b : RaopBuffer D)
        → build k rtpmap fmtp aes ≡ some b
        → IsWellFormed b × (b.is_empty ≡ true)
    build-IsWellFormed rtpmap fmtp aes b h =
        let (codec, capacity, silence, e) =
          build_cases (parse_codec rtpmap) (parse_fmtp fmtp) aes b (unfold build in h) in
        subst (λ x. IsWellFormed x × (x.is_empty ≡ true)) e
          (fresh-IsWellFormed aes codec capacity silence, unfold fresh in refl)

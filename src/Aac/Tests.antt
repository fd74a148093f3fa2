-- ===== src/Aac/Tests.antt =====
-- codec/aac.rs, examples: a packet of two bytes at 44100 Hz in stereo.
use shairplay_rust.Base.{ℕ, some, List, [], ◌∷◌, ◌++◌, ◌≡◌, refl, arith}
use shairplay_rust.Aac.{header_bytes, freq_idx}
use shairplay_rust.Aac.Header.{IsFrameOf, wrap_adts-IsFrameOf, wrap_adts-ok}

abbrev packet : List ℕ
packet = 1 ∷ 2 ∷ []

index : freq_idx 44100 ≡ some 4
unfolding freq_idx
index = refl

wrap_adts-IsFrameOf_example : IsFrameOf packet 44100 2 (header_bytes 9 4 2 ++ packet)
wrap_adts-IsFrameOf_example =
    wrap_adts-IsFrameOf packet 44100 2 (header_bytes 9 4 2 ++ packet)
      (wrap_adts-ok packet 4 44100 2 (omega arith) (omega arith) index)

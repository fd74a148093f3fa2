-- ===== src/RaopBuffer/Widen.antt =====
-- raop/buffer.rs: storing a decoded packet in a well-formed buffer.
use shairplay_rust.Base.{
  ℕ, zero, suc, ◌+◌, ◌*◌, ◌%◌, ◌^◌, ◌≤◌, ◌<◌, min, max, Bool, true, false, ◌||◌, none, some, List,
  [], ◌∷◌, length, get_or, take, ltb, ◌≡◌, refl, ap, arith, if◌then◌else◌, ◌⊎◌, length-set, All,
}
use shairplay_rust.Base.Words.{ℤ, IsByte}
use shairplay_rust.RaopBuffer.{
  RaopBuffer, BufferEntry, clear_entry, wrapping_sub, entry_at, put_entry, filled, seqnum_cmp,
  widen, store,
}
use shairplay_rust.RaopBuffer.Decode.{
  Codec, Backend, Outcome, failed, decoded, decode_payload, write_samples, alac_outcome,
  pcm_outcome, alac, pcm, sample_le, sample_be,
}
use shairplay_rust.RaopBuffer.Invariant.{
  IsWellFormed, IsGoodSlots, IsGoodEntry, Frame, held, offset, frame_of, set-IsGoodSlots,
  clear_entry-IsGoodEntry, slot,
}
use shairplay_rust.RaopBuffer.Format.{AlacConfig, PcmConfig}

-- The samples keep their room, and no more are counted than there is room for.
pub write_samples_room :
    (sample : ℕ → ℕ → ℤ) (bytes : List ℕ) (out : List ℤ)
    → (length (write_samples sample bytes out).0 ≡ length out)
      × ((write_samples sample bytes out).1 ≤ length out)
unfolding write_samples
write_samples_room sample [] out = (refl, omega arith)
write_samples_room sample (a ∷ []) out = (refl, omega arith)
write_samples_room sample (a ∷ b ∷ bytes) [] = (refl, omega arith)
write_samples_room sample (a ∷ b ∷ bytes) (o ∷ out) =
    let (h, l) = write_samples_room sample bytes out in (omega arith, omega arith)

pub get_or-IsByte : (bytes : List ℕ) (i : ℕ) → All IsByte bytes → get_or bytes i 0 < 256
get_or-IsByte [] i h = omega arith
get_or-IsByte (b ∷ bytes) zero h = h.0
get_or-IsByte (b ∷ bytes) (suc i) h = get_or-IsByte bytes i h.1

-- A length that `queue` refuses.
abbrev pub bad_length : List ℕ → Bool
bad_length bytes = ltb (length bytes) 12 || ltb 32768 (length bytes)

-- What a decoded outcome may be, over a slot with `capacity` samples.
abbrev pub Fits : {D : Type 0} → ℕ → Outcome D → Type 0
Fits capacity (failed code codec) = Unit {0}
Fits capacity (decoded samples n codec silence) = (length samples ≡ capacity) × (n ≤ capacity)

module _ {D : Type 0} (k : Backend D) where
  alac-Fits :
      (config : AlacConfig) (size : ℕ) (s16_buf : List ℕ) (decoder : D) (capacity : ℕ)
      (out : List ℤ)
      → Fits (length out) (alac_outcome k config (size, s16_buf, decoder) capacity out)
  unfolding alac_outcome
  alac-Fits config size s16_buf decoder capacity out =
      ground (arith, write_samples_room sample_le (take (min size (capacity * 2)) s16_buf) out)

  pcm-Fits :
      (config : PcmConfig) (packet : List ℕ) (out : List ℤ)
      → Fits (length out) (pcm_outcome k config packet out)
  unfolding pcm_outcome
  pcm-Fits config packet out = ground (arith, write_samples_room sample_be packet out)

  -- Both codecs write inside the slot.
  pub decode_payload-Fits :
      (codec : Codec D) (packet : List ℕ) (capacity : ℕ) (out : List ℤ)
      → Fits (length out) (decode_payload k codec packet capacity out)
  unfolding decode_payload
  decode_payload-Fits (alac config decoder) packet capacity out =
      let r = k.decode_frame decoder packet (capacity * 2) in
      alac-Fits config r.0 r.1 r.2 capacity out
  decode_payload-Fits (pcm config) packet capacity out = pcm-Fits config packet out

-- A packet that may be stored: the buffer is empty, or it lies in the 32 numbers from the first on.
abbrev pub IsNear : {D : Type 0} → RaopBuffer D → ℕ → Type 0
IsNear b seqnum = (b.is_empty ≡ true) ⊎ (offset b seqnum < 32)

module _ {D : Type 0} where
  -- What `widen` makes of the window.
  pub widen_window :
      (seqnum : ℕ) (b : RaopBuffer D)
      → b.first_seqnum < 2 ^ 16
      → b.last_seqnum < 2 ^ 16
      → seqnum < 2 ^ 16
      → held b ≤ 32
      → IsNear b seqnum
      → let b' = widen seqnum b in
        (b'.first_seqnum ≡ (if b.is_empty then seqnum else b.first_seqnum))
        × (b'.last_seqnum < 2 ^ 16)
        × (held b' ≡ (if b.is_empty then 1 else max (held b) (offset b seqnum + 1)))
  unfolding widen seqnum_cmp
  widen_window seqnum b hf hl hs hh near = ground arith

  pub widen_keeps :
      (seqnum : ℕ) (b : RaopBuffer D)
      → let b' = widen seqnum b in
        (b'.entries ≡ b.entries)
        × (b'.frame_capacity ≡ b.frame_capacity)
        × (b'.is_empty ≡ false)
        × (b'.codec ≡ b.codec)
        × (b'.silence_samples ≡ b.silence_samples)
  unfolding widen
  widen_keeps seqnum b = ground arith

IsGoodSlots-of_eq :
    (g f : Frame) (es' es : List BufferEntry)
    → es' ≡ es
    → g ≡ f
    → IsGoodSlots f es
    → IsGoodSlots g es'
IsGoodSlots-of_eq g f es' es p q good = rw (p, q) good

abbrev pub widened_frame : Frame → ℕ → Frame
widened_frame f seqnum = record {
  capacity = f.capacity;
  empty = false;
  first = (if f.empty then seqnum else f.first);
  held = (if f.empty then 1 else max f.held (wrapping_sub seqnum f.first + 1));
}

-- A slot of the old window suits the widened one.
widened-IsGoodEntry :
    (f : Frame) (seqnum i : ℕ) (e : BufferEntry)
    → f.held ≤ 32
    → IsGoodEntry f i e
    → IsGoodEntry (widened_frame f seqnum) i e
widened-IsGoodEntry f seqnum i e hh v = ground arith

stored-IsGoodEntry :
    (f : Frame) (e : BufferEntry) (bytes : List ℕ) (seqnum : ℕ) (samples : List ℤ) (n : ℕ)
    → seqnum < 2 ^ 16
    → length samples ≡ f.capacity
    → n ≤ f.capacity
    → IsGoodEntry (widened_frame f seqnum) (seqnum % 32) (filled e bytes seqnum samples n)
stored-IsGoodEntry f e bytes seqnum samples n hs len fits = ground arith

module _ {D : Type 0} where
  pub frame-widen :
      (seqnum : ℕ) (b : RaopBuffer D)
      → b.first_seqnum < 2 ^ 16
      → b.last_seqnum < 2 ^ 16
      → seqnum < 2 ^ 16
      → held b ≤ 32
      → IsNear b seqnum
      → frame_of (widen seqnum b) ≡ widened_frame (frame_of b) seqnum
  frame-widen seqnum b hf hl hs hh near =
      ground (arith, widen_window seqnum b hf hl hs hh near, widen_keeps seqnum b)

  -- Storing a frame in a well-formed buffer and widening the window.
  pub stored-IsWellFormed :
      (b : RaopBuffer D) (e : BufferEntry) (bytes : List ℕ) (seqnum : ℕ) (samples : List ℤ) (n : ℕ)
      → IsWellFormed b
      → seqnum < 2 ^ 16
      → IsNear b seqnum
      → length samples ≡ b.frame_capacity
      → n ≤ b.frame_capacity
      → IsWellFormed (widen seqnum (put_entry b (seqnum % 32) (filled e bytes seqnum samples n)))
  stored-IsWellFormed b e bytes seqnum samples n v hs near len fits = record {
    slots = omega (arith, ap length keeps.0, length-set b.entries (seqnum % 32) here);
    first_u16 = ground (arith, view);
    last_u16 = view.1;
    window = ground (arith, view);
    good =
        IsGoodSlots-of_eq (frame_of (widen seqnum b1)) (widened_frame (frame_of b) seqnum)
          (widen seqnum b1).entries b1.entries keeps.0
          (frame-widen seqnum b1 v.first_u16 v.last_u16 hs v.window near)
          (set-IsGoodSlots (widened_frame (frame_of b) seqnum) b.entries (seqnum % 32) here v.slots
            (omega arith)
            (λ i lt _.
              widened-IsGoodEntry (frame_of b) seqnum i (slot (frame_of b) b.entries i) v.window
                (v.good i lt))
            (stored-IsGoodEntry (frame_of b) e bytes seqnum samples n hs len fits));
  }
    where
      here : BufferEntry
      here = filled e bytes seqnum samples n

      b1 : RaopBuffer D
      b1 = put_entry b (seqnum % 32) here

      keeps :
          ((widen seqnum b1).entries ≡ b1.entries)
          × ((widen seqnum b1).frame_capacity ≡ b1.frame_capacity)
          × ((widen seqnum b1).is_empty ≡ false)
          × ((widen seqnum b1).codec ≡ b1.codec)
          × ((widen seqnum b1).silence_samples ≡ b1.silence_samples)
      keeps = widen_keeps seqnum b1

      view :
          ((widen seqnum b1).first_seqnum ≡ (if b.is_empty then seqnum else b.first_seqnum))
          × ((widen seqnum b1).last_seqnum < 2 ^ 16)
          × (held (widen seqnum b1)
              ≡ (if b.is_empty then 1 else max (held b) (offset b seqnum + 1)))
      view = widen_window seqnum b1 v.first_u16 v.last_u16 hs v.window near

  pub put_clear-IsWellFormed :
      (b : RaopBuffer D) (idx : ℕ)
      → idx < 32
      → IsWellFormed b
      → IsWellFormed (put_entry b idx (clear_entry (entry_at b idx)))
  put_clear-IsWellFormed b idx h v = record {
    slots = omega (arith, length-set b.entries idx (clear_entry (entry_at b idx)));
    first_u16 = v.first_u16;
    last_u16 = v.last_u16;
    window = v.window;
    good =
        set-IsGoodSlots (frame_of b) b.entries idx (clear_entry (entry_at b idx)) v.slots h
          (λ i lt _. v.good i lt)
          (clear_entry-IsGoodEntry (frame_of b) (frame_of b) idx (entry_at b idx) refl
            (v.good idx h));
  }

  -- The codec and the length of silence do not matter.
  set_codec-IsWellFormed :
      (b : RaopBuffer D) (codec : Codec D) (silence : ℕ)
      → IsWellFormed b
      → IsWellFormed (record b { codec = codec; silence_samples = silence })
  set_codec-IsWellFormed b codec silence v = record {
    slots = v.slots;
    first_u16 = v.first_u16;
    last_u16 = v.last_u16;
    window = v.window;
    good = v.good;
  }

  pub store-IsWellFormed :
      (bytes : List ℕ) (seqnum : ℕ) (outcome : Outcome D) (b : RaopBuffer D)
      → IsWellFormed b
      → seqnum < 2 ^ 16
      → IsNear b seqnum
      → Fits b.frame_capacity outcome
      → IsWellFormed (store bytes seqnum outcome b).1
  unfolding store
  store-IsWellFormed bytes seqnum (failed code codec) b v hs near fits =
      set_codec-IsWellFormed b codec b.silence_samples v
  store-IsWellFormed bytes seqnum (decoded samples n codec none) b v hs near fits =
      stored-IsWellFormed (record b { codec = codec }) (entry_at b (seqnum % 32)) bytes seqnum
        samples n (set_codec-IsWellFormed b codec b.silence_samples v) hs near fits.0 fits.1
  store-IsWellFormed bytes seqnum (decoded samples n codec (some silence)) b v hs near fits =
      stored-IsWellFormed (record b { codec = codec; silence_samples = silence })
        (entry_at b (seqnum % 32)) bytes seqnum samples n (set_codec-IsWellFormed b codec silence v)
        hs near fits.0 fits.1

-- ===== src/RaopBuffer.antt =====
-- raop/buffer.rs: the circular buffer of decoded RTP packets. Children: what the SDP attributes
-- become, the decoding of a payload, and the proofs.
pub mod Format
pub mod Decode
pub mod Build
pub mod Fresh
pub mod Invariant
pub mod Flush
pub mod Dequeue
pub mod Widen
pub mod Queue
pub mod Contents
pub mod Pop
pub mod Stored
pub mod Answer
pub mod Restart
pub mod Offer
mod Tests
use shairplay_rust.Base.{
  ℕ, zero, suc, ◌+◌, ◌-◌, ◌*◌, ◌/◌, ◌%◌, ◌^◌, min, Bool, true, false, not, ◌&&◌, ◌||◌, Option, none,
  some, List, [], ◌∷◌, ◌++◌, length, take, drop, set, get_or, replicate, map, ltb, leb, ◌==◌,
  if◌then◌else◌,
}
use mathlib.Core.Option
use shairplay_rust.Base.Words.{ℤ, pos, negsuc, i16, from_be_bytes}
use shairplay_rust.RaopBuffer.Format.{AlacConfig, PcmConfig, StreamFormat, CodecConfig, parse_codec}
use shairplay_rust.RaopBuffer.Format.{parse_fmtp, build_decoder_info}
use shairplay_rust.RaopBuffer.Decode.{
  AesSession, Codec, alac, pcm, Backend, Outcome, failed, decoded, decrypt_payload, decode_payload,
}

abbrev pub raop_packet_len : ℕ
raop_packet_len = 32768

abbrev pub raop_buffer_length : ℕ
raop_buffer_length = 32

abbrev pub pcm_default_frame_samples : ℕ
pcm_default_frame_samples = 352

pub record BufferEntry : Type 0 where
  pub available : Bool
  pub flags : ℕ
  pub entry_type : ℕ
  pub seqnum : ℕ
  pub timestamp : ℕ
  pub ssrc : ℕ
  pub audio_buffer : List ℤ
  pub audio_buffer_len : ℕ

pub record RaopBuffer (D : Type 0) : Type 0 where
  pub aes : Option AesSession
  pub codec : Codec D
  pub is_empty : Bool
  pub first_seqnum : ℕ
  pub last_seqnum : ℕ
  pub entries : List BufferEntry
  pub frame_capacity : ℕ
  pub silence_samples : ℕ

-- `u16::wrapping_sub` and `wrapping_add`.
abbrev pub wrapping_sub : ℕ → ℕ → ℕ
wrapping_sub a b = (a + 2 ^ 16 - b) % 2 ^ 16

abbrev pub wrapping_add : ℕ → ℕ → ℕ
wrapping_add a b = (a + b) % 2 ^ 16

pub seqnum_cmp : ℕ → ℕ → ℤ
seqnum_cmp s1 s2 = i16 (wrapping_sub s1 s2)

abbrev pub is_negative : ℤ → Bool
is_negative (pos n) = false
is_negative (negsuc n) = true

abbrev pub is_positive : ℤ → Bool
is_positive (pos n) = ltb 0 n
is_positive (negsuc n) = false

abbrev pub is_zero : ℤ → Bool
is_zero (pos n) = n == 0
is_zero (negsuc n) = false

-- A slot as `build` makes it; also what a read outside the 32 slots stands for, which the
-- well-formedness of the buffer rules out.
abbrev pub blank : ℕ → BufferEntry
blank frame_capacity = record {
  available = false;
  flags = 0;
  entry_type = 0;
  seqnum = 0;
  timestamp = 0;
  ssrc = 0;
  audio_buffer = replicate frame_capacity (pos 0);
  audio_buffer_len = 0;
}

abbrev pub clear_entry : BufferEntry → BufferEntry
clear_entry e = record e { available = false; audio_buffer_len = 0 }

abbrev pub filled : BufferEntry → List ℕ → ℕ → List ℤ → ℕ → BufferEntry
filled e bytes seqnum samples n = record e {
  available = true;
  flags = get_or bytes 0 0;
  entry_type = get_or bytes 1 0;
  seqnum = seqnum;
  timestamp = from_be_bytes (take 4 (drop 4 bytes));
  ssrc = from_be_bytes (take 4 (drop 8 bytes));
  audio_buffer = samples;
  audio_buffer_len = n;
}

-- `audio_buffer[..size].fill(0.0)`
pub fill_zero : ℕ → List ℤ → List ℤ
fill_zero size out = replicate (min size (length out)) (pos 0) ++ drop size out

module _ {D : Type 0} where
  abbrev pub entry_at : RaopBuffer D → ℕ → BufferEntry
  entry_at b idx = get_or b.entries idx (blank b.frame_capacity)

  abbrev pub put_entry : RaopBuffer D → ℕ → BufferEntry → RaopBuffer D
  put_entry b idx e = record b { entries = set b.entries idx e }

  -- The argument is an `i32`: a 16-bit value restarts the window there, any other empties it.
  unfoldable pub flush : ℤ → RaopBuffer D → RaopBuffer D
  flush (negsuc n) b = record b { entries = map clear_entry b.entries; is_empty = true }
  flush (pos n) b =
      let cleared = map clear_entry b.entries in
      if ltb n (2 ^ 16)
      then record b { entries = cleared; first_seqnum = n; last_seqnum = wrapping_sub n 1 }
      else record b { entries = cleared; is_empty = true }

  -- The sequence number that `queue` gives a packet.
  pub packet_seqnum : RaopBuffer D → List ℕ → Bool → ℕ
  packet_seqnum b bytes true = get_or bytes 2 0 * 256 + get_or bytes 3 0
  packet_seqnum b bytes false = if b.is_empty then b.first_seqnum else wrapping_add b.last_seqnum 1

  -- The window after a packet was stored.
  pub widen : ℕ → RaopBuffer D → RaopBuffer D
  unfolding seqnum_cmp
  widen seqnum b =
      let b1 : RaopBuffer D =
        (if b.is_empty
          then record b { first_seqnum = seqnum; last_seqnum = seqnum; is_empty = false }
          else b) in
      if is_positive (seqnum_cmp seqnum b1.last_seqnum)
      then record b1 { last_seqnum = seqnum }
      else b1

  abbrev pub set_silence : Option ℕ → RaopBuffer D → RaopBuffer D
  set_silence none b = b
  set_silence (some n) b = record b { silence_samples = n }

  -- What follows the decoding, in a buffer whose slot was cleared.
  pub store : List ℕ → ℕ → Outcome D → RaopBuffer D → ℤ × RaopBuffer D
  unfolding widen
  store bytes seqnum (failed code codec) b = (code, record b { codec = codec })
  store bytes seqnum (decoded samples n codec silence) b =
      let idx = seqnum % raop_buffer_length in
      let b1 = set_silence silence (record b { codec = codec }) in
      (pos 1, widen seqnum (put_entry b1 idx (filled (entry_at b1 idx) bytes seqnum samples n)))

  module _ (k : Backend D) where
    -- `queue` behind the checks of the window: the duplicate check, and the rest.
    pub queue_in_window : List ℕ → ℕ → RaopBuffer D → ℤ × RaopBuffer D
    queue_in_window bytes seqnum b =
        let idx = seqnum % raop_buffer_length in
        let entry = entry_at b idx in
        if entry.available && is_zero (seqnum_cmp entry.seqnum seqnum)
        then (pos 0, b)
        else (let cleared = put_entry b idx (clear_entry entry) in
            let packet = decrypt_payload k b.aes (drop 12 bytes) in
            store bytes seqnum (decode_payload k b.codec packet b.frame_capacity entry.audio_buffer)
              cleared)

    -- 1 if the packet was stored, 0 if it is stale or a duplicate, -1 if it is malformed.
    unfoldable pub queue : List ℕ → Bool → RaopBuffer D → ℤ × RaopBuffer D
    queue bytes use_seqnum b =
        let seqnum = packet_seqnum b bytes use_seqnum in
        let window_end = wrapping_add b.first_seqnum raop_buffer_length in
        if ltb (length bytes) 12 || ltb raop_packet_len (length bytes)
        then (negsuc 0, b)
        else if not b.is_empty && is_negative (seqnum_cmp seqnum b.first_seqnum)
        then (pos 0, b)
        else if is_negative (seqnum_cmp seqnum window_end)
        then queue_in_window bytes seqnum b
        else queue_in_window bytes seqnum (flush (pos seqnum) b)

abbrev pub add_one : ℤ → ℤ
add_one (pos n) = pos (n + 1)
add_one (negsuc zero) = pos 0
add_one (negsuc (suc n)) = negsuc n

abbrev pub magnitude : ℤ → ℕ
magnitude (pos n) = n
magnitude (negsuc n) = suc n

module _ {D : Type 0} where
  -- The slot that `dequeue` reads: silence is written into a missing one.
  pub delivered : RaopBuffer D → BufferEntry → BufferEntry
  unfolding fill_zero
  delivered b e =
      let size = min b.silence_samples b.frame_capacity in
      if e.available
      then e
      else (record e { audio_buffer = fill_zero size e.audio_buffer; audio_buffer_len = size })

  -- The frame, if one is due, and the buffer behind it.
  unfoldable pub dequeue : Bool → RaopBuffer D → Option (List ℤ) × RaopBuffer D
  unfolding seqnum_cmp delivered
  dequeue no_resend b =
      let buflen = add_one (seqnum_cmp b.last_seqnum b.first_seqnum) in
      let idx = b.first_seqnum % raop_buffer_length in
      let entry = entry_at b idx in
      let out = delivered b entry in
      if b.is_empty || not (is_positive buflen)
      then (none, b)
      else if not no_resend && not entry.available && ltb (magnitude buflen) raop_buffer_length
      then (none, b)
      else (
        some (take out.audio_buffer_len out.audio_buffer),
        record b {
          first_seqnum = wrapping_add b.first_seqnum 1;
          entries = set b.entries idx (clear_entry out);
        },
      )

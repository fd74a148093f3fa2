-- ===== src/RaopBuffer/Queue.antt =====
-- raop/buffer.rs: `queue` and the well-formedness of the buffer.
use shairplay_rust.Base.{
  ℕ, ◌%◌, ◌^◌, ◌<◌, Bool, true, false, not, ◌&&◌, List, drop, ◌≡◌, refl, arith, Bool-cases, inl,
  inr, if◌then◌else◌, All,
}
use mathlib.Core.Path.{subst}
use shairplay_rust.Base.Words.{pos, IsByte}
use shairplay_rust.RaopBuffer.{
  RaopBuffer, clear_entry, wrapping_add, entry_at, put_entry, seqnum_cmp, is_negative, is_zero,
  store, queue_in_window, queue, packet_seqnum, flush,
}
use shairplay_rust.RaopBuffer.Decode.{Backend, Outcome, decode_payload, decrypt_payload}
use shairplay_rust.RaopBuffer.Invariant.{IsWellFormed}
use shairplay_rust.RaopBuffer.Flush.{flush-IsWellFormed}
use shairplay_rust.RaopBuffer.Widen.{
  Fits, bad_length, IsNear, decode_payload-Fits, get_or-IsByte, put_clear-IsWellFormed,
  store-IsWellFormed,
}

module _ {D : Type 0} where
  -- The packet is already in its slot.
  abbrev pub is_duplicate : RaopBuffer D → ℕ → Bool
  is_duplicate b seqnum =
      let entry = entry_at b (seqnum % 32) in
      entry.available && is_zero (seqnum_cmp entry.seqnum seqnum)

  abbrev pub cleared : RaopBuffer D → ℕ → RaopBuffer D
  cleared b seqnum = put_entry b (seqnum % 32) (clear_entry (entry_at b (seqnum % 32)))

  -- A number behind the window.
  abbrev pub is_stale : RaopBuffer D → ℕ → Bool
  is_stale b seqnum = not b.is_empty && is_negative (seqnum_cmp seqnum b.first_seqnum)

  -- A 16-bit number lies behind the window, in it, or too far ahead.
  pub IsNear-of_tests :
      (b : RaopBuffer D) (seqnum : ℕ)
      → b.first_seqnum < 2 ^ 16
      → seqnum < 2 ^ 16
      → (not b.is_empty && is_negative (seqnum_cmp seqnum b.first_seqnum)) ≡ false
      → is_negative (seqnum_cmp seqnum (wrapping_add b.first_seqnum 32)) ≡ true
      → IsNear b seqnum
  unfolding seqnum_cmp
  IsNear-of_tests b seqnum hf hs early late = ground arith

  IsNear-after_flush :
      (b : RaopBuffer D) (seqnum : ℕ) → seqnum < 2 ^ 16 → IsNear (flush (pos seqnum) b) seqnum
  unfolding flush
  IsNear-after_flush b seqnum hs = ground arith

  pub packet_seqnum-lt :
      (b : RaopBuffer D) (bytes : List ℕ) (use_seqnum : Bool)
      → IsWellFormed b
      → All IsByte bytes
      → packet_seqnum b bytes use_seqnum < 2 ^ 16
  unfolding packet_seqnum
  packet_seqnum-lt b bytes true v hb =
      omega (arith, get_or-IsByte bytes 2 hb, get_or-IsByte bytes 3 hb)
  packet_seqnum-lt b bytes false v hb = ground arith

  module _ (k : Backend D) where
    abbrev pub outcome_of : RaopBuffer D → List ℕ → ℕ → Outcome D
    outcome_of b bytes seqnum =
        decode_payload k b.codec (decrypt_payload k b.aes (drop 12 bytes)) b.frame_capacity
          (entry_at b (seqnum % 32)).audio_buffer

    pub queue_in_window_tests :
        (bytes : List ℕ) (seqnum : ℕ) (b : RaopBuffer D)
        → queue_in_window k bytes seqnum b ≡ (
            if is_duplicate b seqnum
            then (pos 0, b)
            else store bytes seqnum (outcome_of b bytes seqnum) (cleared b seqnum))
    unfolding queue_in_window
    queue_in_window_tests bytes seqnum b = refl

    outcome_of-Fits :
        (b : RaopBuffer D) (bytes : List ℕ) (seqnum : ℕ)
        → IsWellFormed b
        → Fits b.frame_capacity (outcome_of b bytes seqnum)
    outcome_of-Fits b bytes seqnum v =
        subst (λ c. Fits c (outcome_of b bytes seqnum)) (v.good (seqnum % 32) (omega arith)).sized
          (decode_payload-Fits k b.codec (decrypt_payload k b.aes (drop 12 bytes)) b.frame_capacity
            (entry_at b (seqnum % 32)).audio_buffer)

    pub queue_in_window-IsWellFormed :
        (bytes : List ℕ) (seqnum : ℕ) (b : RaopBuffer D)
        → IsWellFormed b
        → seqnum < 2 ^ 16
        → IsNear b seqnum
        → IsWellFormed (queue_in_window k bytes seqnum b).1
    queue_in_window-IsWellFormed bytes seqnum b v hs near =
        elim (Bool-cases (is_duplicate b seqnum)) [
          | inl e ↦ rw (queue_in_window_tests bytes seqnum b, e) v
          | inr e ↦
              rw (queue_in_window_tests bytes seqnum b, e)
                (store-IsWellFormed bytes seqnum (outcome_of b bytes seqnum) (cleared b seqnum)
                  (put_clear-IsWellFormed b (seqnum % 32) (omega arith) v) hs near
                  (outcome_of-Fits b bytes seqnum v))
        ]

    -- `queue` keeps the buffer well formed on every branch, for any packet of bytes.
    pub queue-IsWellFormed :
        (bytes : List ℕ) (use_seqnum : Bool) (b : RaopBuffer D)
        → All IsByte bytes
        → IsWellFormed b
        → IsWellFormed (queue k bytes use_seqnum b).1
    unfolding queue
    queue-IsWellFormed bytes use_seqnum b hb v = elim (Bool-cases (bad_length bytes)) [
      | inl bad ↦ rw bad v
      | inr long ↦ elim (Bool-cases (is_stale b seqnum)) [
        | inl stale ↦ rw (long, stale) v
        | inr due ↦
            elim (Bool-cases (is_negative (seqnum_cmp seqnum (wrapping_add b.first_seqnum 32)))) [
              | inl near ↦
                  rw (long, due, near)
                    (queue_in_window-IsWellFormed bytes seqnum b v lt
                      (IsNear-of_tests b seqnum v.first_u16 lt due near))
              | inr far ↦
                  rw (long, due, far)
                    (queue_in_window-IsWellFormed bytes seqnum (flush (pos seqnum) b)
                      (flush-IsWellFormed (pos seqnum) b v) lt (IsNear-after_flush b seqnum lt))
            ]
      ]
    ]
      where
        seqnum : ℕ
        seqnum = packet_seqnum b bytes use_seqnum

        lt : seqnum < 2 ^ 16
        lt = packet_seqnum-lt b bytes use_seqnum v hb

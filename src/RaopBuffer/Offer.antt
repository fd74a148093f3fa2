-- ===== src/RaopBuffer/Offer.antt =====
-- raop/buffer.rs: `queue` and the contents of the buffer.
use shairplay_rust.Base.{
  ℕ, ◌%◌, ◌^◌, ◌<◌, Bool, true, false, Option, none, some, List, [], drop, ◌≡◌, refl, ap, sym, ◌∙◌,
  arith, Bool-cases, inl, inr, if◌then◌else◌, All,
}
use shairplay_rust.Base.Words.{ℤ, pos, IsByte}
use shairplay_rust.RaopBuffer.{
  RaopBuffer, BufferEntry, wrapping_sub, wrapping_add, queue_in_window, queue, packet_seqnum,
  seqnum_cmp, is_negative,
}
use shairplay_rust.RaopBuffer.Decode.{Backend, decode_payload, decrypt_payload}
use shairplay_rust.RaopBuffer.Invariant.{IsWellFormed, offset, frame_of, slot-map_clear}
use shairplay_rust.RaopBuffer.Widen.{bad_length}
use shairplay_rust.RaopBuffer.Queue.{is_duplicate, is_stale, outcome_of, queue_in_window_tests}
use shairplay_rust.RaopBuffer.Contents.{
  Samples, Frames, place, place_if, only, offer, offer_empty, offer_stale, offer_far, offer_near,
  is_some_at, contents,
}
use shairplay_rust.RaopBuffer.Stored.{duplicate}
use shairplay_rust.RaopBuffer.Queue.{packet_seqnum-lt}
use shairplay_rust.RaopBuffer.Answer.{answer, seen, store_empty, store_full, no_duplicate_empty}
use shairplay_rust.RaopBuffer.Restart.{
  restarted, flush-restarted, restarted-IsWellFormed, restarted-contents, stale_full,
  stale_distance, near_distance, far_distance,
}

module _ {D : Type 0} where
  module _ (k : Backend D) where
    seen_window_empty :
        (bytes : List ℕ) (seqnum : ℕ) (b : RaopBuffer D)
        → IsWellFormed b
        → seqnum < 2 ^ 16
        → b.is_empty ≡ true
        → seen (queue_in_window k bytes seqnum b) ≡ (
          (answer (outcome_of k b bytes seqnum)).0,
          only (answer (outcome_of k b bytes seqnum)).1,
        )
    seen_window_empty bytes seqnum b v hs e =
        rw (queue_in_window_tests k bytes seqnum b, fresh)
          (store_empty bytes seqnum (outcome_of k b bytes seqnum) b v hs e fresh)
      where
        fresh : is_duplicate b seqnum ≡ false
        fresh = no_duplicate_empty b seqnum v e

    seen_window :
        (bytes : List ℕ) (seqnum : ℕ) (b : RaopBuffer D)
        → IsWellFormed b
        → seqnum < 2 ^ 16
        → b.is_empty ≡ false
        → offset b seqnum < 32
        → seen (queue_in_window k bytes seqnum b) ≡ (
            let (code, f) = answer (outcome_of k b bytes seqnum) in
            if is_some_at (offset b seqnum) (contents b)
            then (pos 0, contents b)
            else (code, place_if f (offset b seqnum) (contents b)))
    seen_window bytes seqnum b v hs full near = elim (Bool-cases (is_duplicate b seqnum)) [
      | inl dup ↦
          rw (queue_in_window_tests k bytes seqnum b, duplicate b seqnum v hs full near, dup)
      | inr new ↦
          rw (queue_in_window_tests k bytes seqnum b, duplicate b seqnum v hs full near, new)
            (store_full bytes seqnum (outcome_of k b bytes seqnum) b v hs full near new)
    ]

    outcome_of-restarted :
        (b : RaopBuffer D) (bytes : List ℕ) (seqnum : ℕ)
        → outcome_of k (restarted b seqnum) bytes seqnum ≡ outcome_of k b bytes seqnum
    outcome_of-restarted b bytes seqnum =
        ap
          (λ (e : BufferEntry).
            decode_payload k b.codec (decrypt_payload k b.aes (drop 12 bytes)) b.frame_capacity
              e.audio_buffer)
          (slot-map_clear (frame_of b) b.entries (seqnum % 32))

    seen_far :
        (bytes : List ℕ) (seqnum : ℕ) (b : RaopBuffer D)
        → IsWellFormed b
        → seqnum < 2 ^ 16
        → seen (queue_in_window k bytes seqnum (restarted b seqnum)) ≡ (
          (answer (outcome_of k b bytes seqnum)).0,
          only (answer (outcome_of k b bytes seqnum)).1,
        )
    seen_far bytes seqnum b v hs = elim (Bool-cases b.is_empty) [
      | inl e ↦
          seen_window_empty bytes seqnum (restarted b seqnum) (restarted-IsWellFormed b seqnum v hs)
            hs e
          ∙ rw (outcome_of-restarted b bytes seqnum)
      | inr full ↦
          seen_window bytes seqnum (restarted b seqnum) (restarted-IsWellFormed b seqnum v hs) hs
            full (omega arith)
          ∙ rw (restarted-contents b seqnum hs, outcome_of-restarted b bytes seqnum, distance)
              (ap (λ f. ((answer (outcome_of k b bytes seqnum)).0, f))
                (placed_first (answer (outcome_of k b bytes seqnum)).1))
    ]
      where
        distance : wrapping_sub seqnum seqnum ≡ 0
        distance = omega arith

        placed_first : (f : Option Samples) → place_if f 0 [] ≡ only f
        placed_first none = refl
        placed_first (some f) = unfold place in refl

    -- `queue` of a packet of a good length answers what `offer` answers on the contents of a
    -- well-formed buffer, and leaves the contents that `offer` leaves.
    pub queue_refines :
        (bytes : List ℕ) (use_seqnum : Bool) (b : RaopBuffer D)
        → All IsByte bytes
        → IsWellFormed b
        → bad_length bytes ≡ false
        → let seqnum = packet_seqnum b bytes use_seqnum in
          seen (queue k bytes use_seqnum b)
          ≡ offer b.is_empty (offset b seqnum) (answer (outcome_of k b bytes seqnum)) (contents b)
    unfolding queue
    queue_refines bytes use_seqnum b hb v long = elim (Bool-cases (is_stale b seqnum)) [
      | inl stale ↦
          rw (long, stale)
            (sym (
              offer_stale b.is_empty d p (contents b) (stale_full b seqnum stale)
                (stale_distance b seqnum v.first_u16 lt stale)))
      | inr due ↦
          elim (Bool-cases (is_negative (seqnum_cmp seqnum (wrapping_add b.first_seqnum 32)))) [
            | inl near ↦ rw (long, due, near) (in_window due near)
            | inr far ↦
                rw (long, due, far)
                  (ap (λ c. seen (queue_in_window k bytes seqnum c)) (flush-restarted b seqnum lt)
                    ∙ seen_far bytes seqnum b v lt
                    ∙ too_far due far)
          ]
    ]
      where
        seqnum : ℕ
        seqnum = packet_seqnum b bytes use_seqnum

        lt : seqnum < 2 ^ 16
        lt = packet_seqnum-lt b bytes use_seqnum v hb

        d : ℕ
        d = offset b seqnum

        p : ℤ × Option Samples
        p = answer (outcome_of k b bytes seqnum)

        in_window :
            is_stale b seqnum ≡ false
            → is_negative (seqnum_cmp seqnum (wrapping_add b.first_seqnum 32)) ≡ true
            → seen (queue_in_window k bytes seqnum b) ≡ offer b.is_empty d p (contents b)
        in_window due near = elim (Bool-cases b.is_empty) [
          | inl e ↦
              seen_window_empty bytes seqnum b v lt e
              ∙ sym (offer_empty b.is_empty d p (contents b) e)
          | inr full ↦
              seen_window bytes seqnum b v lt full
                (near_distance b seqnum v.first_u16 lt due near full)
              ∙ sym (
                  offer_near b.is_empty d p (contents b) full
                    (near_distance b seqnum v.first_u16 lt due near full))
        ]

        too_far :
            is_stale b seqnum ≡ false
            → is_negative (seqnum_cmp seqnum (wrapping_add b.first_seqnum 32)) ≡ false
            → ◌≡◌ {A = ℤ × Frames} (p.0, only p.1) (offer b.is_empty d p (contents b))
        too_far due far = elim (Bool-cases b.is_empty) [
          | inl e ↦ sym (offer_empty b.is_empty d p (contents b) e)
          | inr full ↦ sym (
              offer_far b.is_empty d p (contents b) full
                (far_distance b seqnum v.first_u16 lt due far full).0
                (far_distance b seqnum v.first_u16 lt due far full).1)
        ]

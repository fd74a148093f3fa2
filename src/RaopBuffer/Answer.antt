-- ===== src/RaopBuffer/Answer.antt =====
-- raop/buffer.rs: the answer of `queue` and the contents behind it, for a packet that belongs in the window.
use shairplay_rust.Base.{
  ℕ, suc, ◌%◌, ◌^◌, ◌<◌, max, true, false, Option, none, some, List, [], ◌∷◌, take, ◌≡◌, ap, sym,
  ◌∙◌, arith, inr, length-set, ==_refl,
}
use shairplay_rust.Base.Words.{ℤ, pos}
use shairplay_rust.RaopBuffer.{
  RaopBuffer, BufferEntry, clear_entry, entry_at, put_entry, filled, widen, store,
}
use shairplay_rust.RaopBuffer.Decode.{Codec, Outcome, failed, decoded}
use shairplay_rust.RaopBuffer.Invariant.{IsWellFormed, held, offset}
use shairplay_rust.RaopBuffer.Queue.{is_duplicate, cleared}
use shairplay_rust.RaopBuffer.Contents.{
  Samples, Frames, tabulate_ext, place, placed, place-tabulate, place_if, only, frame_at, contents,
}
use shairplay_rust.RaopBuffer.Pop.{contents_nonempty}
use shairplay_rust.RaopBuffer.Stored.{
  frame-stored, frame-put_self, contents_empty, contents-cleared, widen-contents,
  widen-contents_empty,
}
use shairplay_rust.RaopBuffer.Widen.{put_clear-IsWellFormed}

module _ {D : Type 0} where
  -- The code and the frame of an outcome.
  abbrev pub answer : Outcome D → ℤ × Option Samples
  answer (failed code codec) = (code, none)
  answer (decoded samples n codec silence) = (pos 1, some (take n samples))

  -- The code that a call returns, and the contents behind it.
  abbrev pub seen : ℤ × RaopBuffer D → ℤ × Frames
  seen r = (r.0, contents r.1)

  refilled : RaopBuffer D → List ℕ → ℕ → Codec D → ℕ → List ℤ → ℕ → RaopBuffer D
  refilled b bytes seqnum codec silence samples n =
      let b1 : RaopBuffer D = record (cleared b seqnum) {
        codec = codec;
        silence_samples = silence;
      } in
      put_entry b1 (seqnum % 32) (filled (entry_at b1 (seqnum % 32)) bytes seqnum samples n)

  refilled_empty :
      (b : RaopBuffer D) (bytes : List ℕ) (seqnum : ℕ) (codec : Codec D) (silence : ℕ)
      (samples : List ℤ) (n : ℕ)
      → IsWellFormed b
      → seqnum < 2 ^ 16
      → b.is_empty ≡ true
      → contents (widen seqnum (refilled b bytes seqnum codec silence samples n))
        ≡ some (take n samples) ∷ []
  unfolding refilled
  refilled_empty b bytes seqnum codec silence samples n v hs e =
      widen-contents_empty (refilled b bytes seqnum codec silence samples n) seqnum v.first_u16
        v.last_u16 hs v.window e
      ∙ ap (λ f. f ∷ [])
          (frame-put_self b1 entry seqnum (
              omega (
                arith,
                v.slots,
                length-set b.entries (seqnum % 32) (clear_entry (entry_at b (seqnum % 32))),
              ))
            ∙ ground (arith, ==_refl seqnum))
    where
      b1 : RaopBuffer D
      b1 = record (cleared b seqnum) { codec = codec; silence_samples = silence }

      entry : BufferEntry
      entry = filled (entry_at b1 (seqnum % 32)) bytes seqnum samples n

  refilled_full :
      (b : RaopBuffer D) (bytes : List ℕ) (seqnum : ℕ) (codec : Codec D) (silence : ℕ)
      (samples : List ℤ) (n : ℕ)
      → IsWellFormed b
      → seqnum < 2 ^ 16
      → b.is_empty ≡ false
      → offset b seqnum < 32
      → is_duplicate b seqnum ≡ false
      → contents (widen seqnum (refilled b bytes seqnum codec silence samples n))
        ≡ place (offset b seqnum) (take n samples) (contents b)
  unfolding refilled
  refilled_full b bytes seqnum codec silence samples n v hs full near h =
      widen-contents (refilled b bytes seqnum codec silence samples n) seqnum v.first_u16 v.last_u16
        hs v.window full near
      ∙ tabulate_ext count (frame_at (refilled b bytes seqnum codec silence samples n))
          (placed d f (held b) (frame_at c))
          (λ i lt.
            frame-stored c (entry_at c (seqnum % 32)) bytes seqnum samples n i
              (put_clear-IsWellFormed b (seqnum % 32) (omega arith) v) hs full near lt)
      ∙ sym (place-tabulate d f (held b) (frame_at c))
      ∙ ap (place d f)
          (sym (contents_nonempty c full) ∙ contents-cleared b seqnum b.codec v hs (inr near) h)
    where
      c : RaopBuffer D
      c = cleared b seqnum

      d : ℕ
      d = offset b seqnum

      f : Samples
      f = take n samples

      count : ℕ
      count = max (held b) (suc d)

  -- `store` in the cleared slot, for a first packet and for one of the window.
  pub store_empty :
      (bytes : List ℕ) (seqnum : ℕ) (outcome : Outcome D) (b : RaopBuffer D)
      → IsWellFormed b
      → seqnum < 2 ^ 16
      → b.is_empty ≡ true
      → is_duplicate b seqnum ≡ false
      → seen (store bytes seqnum outcome (cleared b seqnum))
        ≡ ((answer outcome).0, only (answer outcome).1)
  unfolding store refilled
  store_empty bytes seqnum (failed code codec) b v hs e h =
      ap (λ r. (code, r)) (contents_empty (record (cleared b seqnum) { codec = codec }) e)
  store_empty bytes seqnum (decoded samples n codec none) b v hs e h =
      ap (λ r. (pos 1, r)) (refilled_empty b bytes seqnum codec b.silence_samples samples n v hs e)
  store_empty bytes seqnum (decoded samples n codec (some silence)) b v hs e h =
      ap (λ r. (pos 1, r)) (refilled_empty b bytes seqnum codec silence samples n v hs e)

  pub store_full :
      (bytes : List ℕ) (seqnum : ℕ) (outcome : Outcome D) (b : RaopBuffer D)
      → IsWellFormed b
      → seqnum < 2 ^ 16
      → b.is_empty ≡ false
      → offset b seqnum < 32
      → is_duplicate b seqnum ≡ false
      → seen (store bytes seqnum outcome (cleared b seqnum))
        ≡ ((answer outcome).0, place_if (answer outcome).1 (offset b seqnum) (contents b))
  unfolding store refilled
  store_full bytes seqnum (failed code codec) b v hs full near h =
      ap (λ r. (code, r)) (contents-cleared b seqnum codec v hs (inr near) h)
  store_full bytes seqnum (decoded samples n codec none) b v hs full near h =
      ap (λ r. (pos 1, r))
        (refilled_full b bytes seqnum codec b.silence_samples samples n v hs full near h)
  store_full bytes seqnum (decoded samples n codec (some silence)) b v hs full near h =
      ap (λ r. (pos 1, r)) (refilled_full b bytes seqnum codec silence samples n v hs full near h)

  pub no_duplicate_empty :
      (b : RaopBuffer D) (seqnum : ℕ)
      → IsWellFormed b
      → b.is_empty ≡ true
      → is_duplicate b seqnum ≡ false
  no_duplicate_empty b seqnum v e = ground (arith, v.good (seqnum % 32) (omega arith))

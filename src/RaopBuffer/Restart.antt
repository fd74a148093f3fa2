-- ===== src/RaopBuffer/Restart.antt =====
-- raop/buffer.rs: the window after a restart by `flush`, and the tests of `queue` as distances.
use shairplay_rust.Base.{
  ℕ, ◌%◌, ◌^◌, ◌≤◌, ◌<◌, true, false, [], map, ◌≡◌, ap, ◌∙◌, arith, Bool-cases, inl, inr, lt→ltb,
}
use mathlib.Core.Path.{subst}
use shairplay_rust.Base.Words.{pos}
use shairplay_rust.RaopBuffer.{
  RaopBuffer, clear_entry, wrapping_sub, wrapping_add, flush, seqnum_cmp, is_negative,
}
use shairplay_rust.RaopBuffer.Invariant.{IsWellFormed, offset, frame_of, slot-map_clear}
use shairplay_rust.RaopBuffer.Queue.{is_duplicate, is_stale}
use shairplay_rust.RaopBuffer.Contents.{tabulate, frame_at, contents}
use shairplay_rust.RaopBuffer.Pop.{contents_nonempty}
use shairplay_rust.RaopBuffer.Stored.{contents_empty}
use shairplay_rust.RaopBuffer.Flush.{flush-IsWellFormed, held_restart}

module _ {D : Type 0} where
  -- A flush to a sequence number.
  abbrev pub restarted : RaopBuffer D → ℕ → RaopBuffer D
  restarted b seqnum = record b {
    entries = map clear_entry b.entries;
    first_seqnum = seqnum;
    last_seqnum = wrapping_sub seqnum 1;
  }

  pub flush-restarted :
      (b : RaopBuffer D) (seqnum : ℕ) → seqnum < 2 ^ 16 → flush (pos seqnum) b ≡ restarted b seqnum
  unfolding flush
  flush-restarted b seqnum hs = rw (lt→ltb seqnum (2 ^ 16) hs)

  pub restarted-IsWellFormed :
      (b : RaopBuffer D) (seqnum : ℕ)
      → IsWellFormed b
      → seqnum < 2 ^ 16
      → IsWellFormed (restarted b seqnum)
  restarted-IsWellFormed b seqnum v hs =
      subst IsWellFormed (flush-restarted b seqnum hs) (flush-IsWellFormed (pos seqnum) b v)

  pub restarted-contents :
      (b : RaopBuffer D) (seqnum : ℕ) → seqnum < 2 ^ 16 → contents (restarted b seqnum) ≡ []
  unfolding tabulate
  restarted-contents b seqnum hs = elim (Bool-cases b.is_empty) [
    | inl e ↦ contents_empty (restarted b seqnum) e
    | inr full ↦
        contents_nonempty (restarted b seqnum) full
        ∙ ap (λ n. tabulate n (frame_at (restarted b seqnum))) (held_restart seqnum hs)
  ]

  -- The tests of `queue` as distances.
  pub stale_full : (b : RaopBuffer D) (seqnum : ℕ) → is_stale b seqnum ≡ true → b.is_empty ≡ false
  stale_full b seqnum h = ground arith

  pub stale_distance :
      (b : RaopBuffer D) (seqnum : ℕ)
      → b.first_seqnum < 2 ^ 16
      → seqnum < 2 ^ 16
      → is_stale b seqnum ≡ true
      → 32768 ≤ offset b seqnum
  unfolding seqnum_cmp
  stale_distance b seqnum hf hs h = ground arith

  pub near_distance :
      (b : RaopBuffer D) (seqnum : ℕ)
      → b.first_seqnum < 2 ^ 16
      → seqnum < 2 ^ 16
      → is_stale b seqnum ≡ false
      → is_negative (seqnum_cmp seqnum (wrapping_add b.first_seqnum 32)) ≡ true
      → b.is_empty ≡ false
      → offset b seqnum < 32
  unfolding seqnum_cmp
  near_distance b seqnum hf hs due near full = ground arith

  pub far_distance :
      (b : RaopBuffer D) (seqnum : ℕ)
      → b.first_seqnum < 2 ^ 16
      → seqnum < 2 ^ 16
      → is_stale b seqnum ≡ false
      → is_negative (seqnum_cmp seqnum (wrapping_add b.first_seqnum 32)) ≡ false
      → b.is_empty ≡ false
      → (offset b seqnum < 32768) × (32 ≤ offset b seqnum)
  unfolding seqnum_cmp
  far_distance b seqnum hf hs due far full = ground arith

  pub restarted-no_duplicate :
      (b : RaopBuffer D) (seqnum : ℕ) → is_duplicate (restarted b seqnum) seqnum ≡ false
  restarted-no_duplicate b seqnum = rw (slot-map_clear (frame_of b) b.entries (seqnum % 32))

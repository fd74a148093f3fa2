-- ===== src/RaopBuffer/Dequeue.antt =====
-- raop/buffer.rs: `dequeue` and the well-formedness of the buffer.
use shairplay_rust.Base.{
  ℕ, ◌-◌, ◌%◌, ◌^◌, ◌≤◌, ◌<◌, min, Bool, true, not, ◌&&◌, none, some, List, length, set, take, drop,
  replicate, ltb, ◌≡◌, ◌≢◌, refl, arith, Bool-cases, inl, inr, if◌then◌else◌, length-set,
  length-append, length-replicate, length-drop,
}
use shairplay_rust.Base.Words.{ℤ, pos}
use shairplay_rust.RaopBuffer.{
  RaopBuffer, BufferEntry, clear_entry, wrapping_sub, wrapping_add, dequeue, delivered, fill_zero,
  entry_at, seqnum_cmp, add_one, is_positive, magnitude,
}
use shairplay_rust.RaopBuffer.Invariant.{
  IsWellFormed, IsGoodEntry, Frame, held, frame_of, set-IsGoodSlots, clear_entry-IsGoodEntry, slot,
}

pub length-fill_zero : (size : ℕ) (out : List ℤ) → length (fill_zero size out) ≡ length out
unfolding fill_zero
length-fill_zero size out = omega (
  arith,
  length-append (replicate (min size (length out)) (pos 0)) (drop size out),
  length-replicate (min size (length out)) (pos 0),
  length-drop size out,
)

-- A positive length is the number of sequence numbers that are due.
pub due :
    (first last : ℕ)
    → first < 2 ^ 16
    → last < 2 ^ 16
    → is_positive (add_one (seqnum_cmp last first)) ≡ true
    → magnitude (add_one (seqnum_cmp last first)) ≡ wrapping_sub (wrapping_add last 1) first
unfolding seqnum_cmp
due first last hf hl h = ground arith

pub due_pos :
    (first last : ℕ)
    → first < 2 ^ 16
    → last < 2 ^ 16
    → is_positive (add_one (seqnum_cmp last first)) ≡ true
    → 1 ≤ wrapping_sub (wrapping_add last 1) first
unfolding seqnum_cmp
due_pos first last hf hl h = ground arith

-- The window loses its first number; only the slot of that number held it.
advance-IsGoodEntry :
    (f : Frame) (held' i : ℕ) (e : BufferEntry)
    → f.first < 2 ^ 16
    → f.first % 32 ≢ i
    → 1 ≤ f.held
    → held' ≡ f.held - 1
    → IsGoodEntry f i e
    → IsGoodEntry
        (record {
          capacity = f.capacity;
          empty = f.empty;
          first = wrapping_add f.first 1;
          held = held';
        })
        i
        e
advance-IsGoodEntry f held' i e hf ne h eq v = ground arith

pub held_advance :
    (first last : ℕ)
    → first < 2 ^ 16
    → last < 2 ^ 16
    → 1 ≤ wrapping_sub (wrapping_add last 1) first
    → wrapping_sub (wrapping_add last 1) (wrapping_add first 1)
      ≡ wrapping_sub (wrapping_add last 1) first - 1
held_advance first last hf hl h = omega arith

module _ {D : Type 0} where
  abbrev pub first_slot : RaopBuffer D → ℕ
  first_slot b = b.first_seqnum % 32

  abbrev pub out_entry : RaopBuffer D → BufferEntry
  out_entry b = delivered b (entry_at b (first_slot b))

  -- What `dequeue` leaves behind when it hands out a frame.
  abbrev pub advanced : RaopBuffer D → RaopBuffer D
  advanced b = record b {
    first_seqnum = wrapping_add b.first_seqnum 1;
    entries = set b.entries (first_slot b) (clear_entry (out_entry b));
  }

  -- The tests of `dequeue`: something is due, and its frame is there or not waited for.
  unfoldable pub is_due : RaopBuffer D → Bool
  is_due b = not b.is_empty && is_positive (add_one (seqnum_cmp b.last_seqnum b.first_seqnum))

  unfoldable pub must_wait : Bool → RaopBuffer D → Bool
  must_wait no_resend b =
      not no_resend
      && not (entry_at b (first_slot b)).available
      && ltb (magnitude (add_one (seqnum_cmp b.last_seqnum b.first_seqnum))) 32

  pub dequeue_tests :
      (no_resend : Bool) (b : RaopBuffer D)
      → dequeue no_resend b ≡ (
          if is_due b && not (must_wait no_resend b)
          then (some (take (out_entry b).audio_buffer_len (out_entry b).audio_buffer), advanced b)
          else (none, b))
  unfolding dequeue is_due must_wait
  dequeue_tests no_resend b = ground arith

  delivered-IsGoodEntry :
      (b : RaopBuffer D) (f : Frame) (i : ℕ) (e : BufferEntry)
      → f.capacity ≡ b.frame_capacity
      → IsGoodEntry f i e
      → IsGoodEntry f i (delivered b e)
  unfolding delivered
  delivered-IsGoodEntry b f i e h v =
      ground (arith, length-fill_zero (min b.silence_samples b.frame_capacity) e.audio_buffer)

  pub advanced-IsWellFormed :
      (b : RaopBuffer D) → IsWellFormed b → 1 ≤ held b → IsWellFormed (advanced b)
  advanced-IsWellFormed b v h = record {
    slots = omega (arith, length-set b.entries (first_slot b) (clear_entry (out_entry b)));
    first_u16 = omega arith;
    last_u16 = v.last_u16;
    window = omega (arith, shorter);
    good =
        set-IsGoodSlots (frame_of (advanced b)) b.entries (first_slot b) (clear_entry (out_entry b))
          v.slots (omega arith) others here;
  }
    where
      shorter : held (advanced b) ≡ held b - 1
      shorter = held_advance b.first_seqnum b.last_seqnum v.first_u16 v.last_u16 h

      others :
          (i : ℕ)
          → i < 32
          → first_slot b ≢ i
          → IsGoodEntry (frame_of (advanced b)) i (slot (frame_of b) b.entries i)
      others i lt ne =
          advance-IsGoodEntry (frame_of b) (held (advanced b)) i (slot (frame_of b) b.entries i)
            v.first_u16 ne h shorter (v.good i lt)

      here : IsGoodEntry (frame_of (advanced b)) (first_slot b) (clear_entry (out_entry b))
      here =
          clear_entry-IsGoodEntry (frame_of b) (frame_of (advanced b)) (first_slot b) (out_entry b)
            refl
            (delivered-IsGoodEntry b (frame_of b) (first_slot b) (entry_at b (first_slot b)) refl
              (v.good (first_slot b) (omega arith)))

  pub is_due-held : (b : RaopBuffer D) → IsWellFormed b → is_due b ≡ true → 1 ≤ held b
  unfolding is_due
  is_due-held b v h = due_pos b.first_seqnum b.last_seqnum v.first_u16 v.last_u16 (ground arith)

  -- `dequeue` keeps the buffer well formed on every branch.
  pub dequeue-IsWellFormed :
      (no_resend : Bool) (b : RaopBuffer D) → IsWellFormed b → IsWellFormed (dequeue no_resend b).1
  dequeue-IsWellFormed no_resend b v = elim (Bool-cases (is_due b && not (must_wait no_resend b))) [
    | inl e ↦
        rw (dequeue_tests no_resend b, e)
          (advanced-IsWellFormed b v (is_due-held b v (ground arith)))
    | inr e ↦ rw (dequeue_tests no_resend b, e) v
  ]

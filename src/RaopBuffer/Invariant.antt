-- ===== src/RaopBuffer/Invariant.antt =====
-- raop/buffer.rs: the well-formedness of the circular buffer. `offset` and `held` read the window off the two
-- 16-bit sequence numbers: how far a number lies behind `first_seqnum`, and how many are due.
use native.Mathlib.Decide.{ℕ_discrete}
use shairplay_rust.Base.{
  ℕ, zero, suc, ◌%◌, ◌^◌, ◌≤◌, ◌<◌, Bool, true, false, List, [], ◌∷◌, length, get_or, set, map, ◌≡◌,
  ◌≢◌, refl, arith, get_or-set_self, get_or-set_ne,
}
use shairplay_rust.RaopBuffer.{
  BufferEntry, RaopBuffer, blank, clear_entry, wrapping_sub, wrapping_add,
}

-- What the slots are judged by: the samples that one holds, and the window.
pub record Frame : Type 0 where
  pub capacity : ℕ
  pub empty : Bool
  pub first : ℕ
  pub held : ℕ

-- A slot holds `capacity` samples, and if it is available, a packet of the window that belongs to
-- this slot.
pub record IsGoodEntry (f : Frame) (i : ℕ) (e : BufferEntry) : Type 0 where
  pub sized : length e.audio_buffer ≡ f.capacity
  pub len_le : e.audio_buffer_len ≤ f.capacity
  pub in_window :
      e.available ≡ true
      → (e.seqnum < 2 ^ 16)
        × (e.seqnum % 32 ≡ i)
        × (f.empty ≡ false)
        × (wrapping_sub e.seqnum f.first < f.held)

abbrev pub slot : Frame → List BufferEntry → ℕ → BufferEntry
slot f es i = get_or es i (blank f.capacity)

abbrev pub IsGoodSlots : Frame → List BufferEntry → Type 0
IsGoodSlots f es = (i : ℕ) → i < 32 → IsGoodEntry f i (slot f es i)

pub set-IsGoodSlots :
    (f : Frame) (es : List BufferEntry) (idx : ℕ) (e : BufferEntry)
    → length es ≡ 32
    → idx < 32
    → ((i : ℕ) → i < 32 → idx ≢ i → IsGoodEntry f i (slot f es i))
    → IsGoodEntry f idx e
    → IsGoodSlots f (set es idx e)
set-IsGoodSlots f es idx e len lt good here i h = elim (ℕ_discrete idx i) [
  | yes p ↦ rw (← p, get_or-set_self es idx e (blank f.capacity) (omega arith)) here
  | no p ↦ rw (get_or-set_ne es idx i e (blank f.capacity) p) (good i h p)
]

pub clear_entry-IsGoodEntry :
    (f g : Frame) (i : ℕ) (e : BufferEntry)
    → f.capacity ≡ g.capacity
    → IsGoodEntry f i e
    → IsGoodEntry g i (clear_entry e)
clear_entry-IsGoodEntry f g i e h v = ground arith

pub slot-map_clear :
    (f : Frame) (es : List BufferEntry) (i : ℕ)
    → slot f (map clear_entry es) i ≡ clear_entry (slot f es i)
slot-map_clear f [] i = refl
slot-map_clear f (e ∷ es) zero = refl
slot-map_clear f (e ∷ es) (suc i) = slot-map_clear f es i

-- Slots that are all cleared suit any window.
pub map_clear-IsGoodSlots :
    (f : Frame) (empty : Bool) (first held : ℕ) (es : List BufferEntry)
    → IsGoodSlots f es
    → IsGoodSlots
        (record { capacity = f.capacity; empty = empty; first = first; held = held })
        (map clear_entry es)
map_clear-IsGoodSlots f empty first held es good i h =
    rw (slot-map_clear f es i) (clear_entry-IsGoodEntry f _ i (slot f es i) refl (good i h))

module _ {D : Type 0} where
  abbrev pub offset : RaopBuffer D → ℕ → ℕ
  offset b s = wrapping_sub s b.first_seqnum

  abbrev pub held : RaopBuffer D → ℕ
  held b = wrapping_sub (wrapping_add b.last_seqnum 1) b.first_seqnum

  abbrev pub frame_of : RaopBuffer D → Frame
  frame_of b = record {
    capacity = b.frame_capacity;
    empty = b.is_empty;
    first = b.first_seqnum;
    held = held b;
  }

  pub record IsWellFormed (b : RaopBuffer D) : Type 0 where
    pub slots : length b.entries ≡ 32
    pub first_u16 : b.first_seqnum < 2 ^ 16
    pub last_u16 : b.last_seqnum < 2 ^ 16
    pub window : held b ≤ 32
    pub good : IsGoodSlots (frame_of b) b.entries

-- ===== src/RaopBuffer/Flush.antt =====
-- raop/buffer.rs: `flush` and the well-formedness of the buffer.
use shairplay_rust.Base.{
  ℕ, suc, ◌^◌, ◌<◌, true, List, [], ◌∷◌, length, map, ltb, ◌≡◌, refl, ap, arith, Bool-cases, inl,
  inr,
}
use shairplay_rust.Base.Words.{ℤ, pos, negsuc}
use shairplay_rust.RaopBuffer.{
  RaopBuffer, BufferEntry, clear_entry, wrapping_sub, wrapping_add, flush,
}
use shairplay_rust.RaopBuffer.Invariant.{IsWellFormed, held, frame_of, map_clear-IsGoodSlots}

length-map_clear : (es : List BufferEntry) → length (map clear_entry es) ≡ length es
length-map_clear [] = refl
length-map_clear (e ∷ es) = ap suc (length-map_clear es)

pub held_restart : (n : ℕ) → n < 2 ^ 16 → wrapping_sub (wrapping_add (wrapping_sub n 1) 1) n ≡ 0
held_restart n h = omega arith

module _ {D : Type 0} where
  emptied :
      (b : RaopBuffer D)
      → IsWellFormed b
      → IsWellFormed (record b { entries = map clear_entry b.entries; is_empty = true })
  emptied b v = record {
    slots = omega (arith, length-map_clear b.entries);
    first_u16 = v.first_u16;
    last_u16 = v.last_u16;
    window = v.window;
    good = map_clear-IsGoodSlots (frame_of b) true b.first_seqnum (held b) b.entries v.good;
  }

  restarted :
      (n : ℕ) (b : RaopBuffer D)
      → n < 2 ^ 16
      → IsWellFormed b
      → IsWellFormed (record b {
        entries = map clear_entry b.entries;
        first_seqnum = n;
        last_seqnum = wrapping_sub n 1;
      })
  restarted n b h v = record {
    slots = omega (arith, length-map_clear b.entries);
    first_u16 = h;
    last_u16 = omega arith;
    window = omega (arith, held_restart n h);
    good =
        map_clear-IsGoodSlots (frame_of b) b.is_empty n
          (wrapping_sub (wrapping_add (wrapping_sub n 1) 1) n) b.entries v.good;
  }

  -- `flush` keeps the buffer well formed, for every `i32`.
  pub flush-IsWellFormed :
      (next_seq : ℤ) (b : RaopBuffer D) → IsWellFormed b → IsWellFormed (flush next_seq b)
  unfolding flush
  flush-IsWellFormed (negsuc n) b v = emptied b v
  flush-IsWellFormed (pos n) b v = elim (Bool-cases (ltb n (2 ^ 16))) [
    | inl h ↦ rw h (restarted n b (ground arith) v)
    | inr h ↦ rw h (emptied b v)
  ]

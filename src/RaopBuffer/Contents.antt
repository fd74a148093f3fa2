-- ===== src/RaopBuffer/Contents.antt =====
-- raop/buffer.rs: what the buffer means: the frames that are due, oldest first, with a gap for each one that has
-- not come. `pop` and `offer` are `dequeue` and `queue` on such a list.
use shairplay_rust.Base.{
  ℕ, zero, suc, ◌-◌, ◌%◌, ◌≤◌, ◌<◌, max, Bool, true, false, not, ◌&&◌, Option, none, some, List, [],
  ◌∷◌, length, take, ltb, leb, ◌==◌, ◌≡◌, refl, ap, ◌∙◌, arith, if◌then◌else◌,
}
use mathlib.Core.Path.{ap₂}
use shairplay_rust.Base.Words.{ℤ, pos}
use shairplay_rust.RaopBuffer.{RaopBuffer, BufferEntry, entry_at, wrapping_add}
use shairplay_rust.RaopBuffer.Invariant.{held}

abbrev pub Samples : Type 0
Samples = List ℤ

abbrev pub Frames : Type 0
Frames = List (Option Samples)

-- The list of the first `n` values of a function.
unfoldable pub tabulate : {A : Type 0} → ℕ → (ℕ → A) → List A
tabulate zero g = []
tabulate (suc n) g = g 0 ∷ tabulate n (λ i. g (suc i))

pub tabulate_ext :
    {A : Type 0} (n : ℕ) (g h : ℕ → A) → ((i : ℕ) → i < n → g i ≡ h i) → tabulate n g ≡ tabulate n h
unfolding tabulate
tabulate_ext zero g h e = refl
tabulate_ext (suc n) g h e =
    ap₂ ◌∷◌ (e 0 (omega arith))
      (tabulate_ext n (λ i. g (suc i)) (λ i. h (suc i)) (λ i lt. e (suc i) (omega arith)))

pub tabulate_cons :
    {A : Type 0} (n : ℕ) (g : ℕ → A)
    → 1 ≤ n
    → tabulate n g ≡ g 0 ∷ tabulate (n - 1) (λ i. g (suc i))
unfolding tabulate
tabulate_cons zero g h = absurd (omega arith)
tabulate_cons (suc n) g h = ap (λ m. g 0 ∷ tabulate m (λ i. g (suc i))) (omega arith)

abbrev pub is_some : {A : Type 0} → Option A → Bool
is_some none = false
is_some (some a) = true

pub length-tabulate : {A : Type 0} (n : ℕ) (g : ℕ → A) → length (tabulate n g) ≡ n
unfolding tabulate
length-tabulate zero g = refl
length-tabulate (suc n) g = ap suc (length-tabulate n (λ i. g (suc i)))

-- A frame at a distance from the oldest; the places between are gaps.
unfoldable pub place : ℕ → Samples → Frames → Frames
place zero f [] = some f ∷ []
place zero f (x ∷ xs) = some f ∷ xs
place (suc d) f [] = none ∷ place d f []
place (suc d) f (x ∷ xs) = x ∷ place d f xs

abbrev pub placed : ℕ → Samples → ℕ → (ℕ → Option Samples) → ℕ → Option Samples
placed d f n g i = if i == d then some f else if ltb i n then g i else none

placed-suc :
    (d : ℕ) (f : Samples) (n : ℕ) (g : ℕ → Option Samples) (i : ℕ)
    → placed d f n (λ j. g (suc j)) i ≡ placed (suc d) f (suc n) g (suc i)
placed-suc d f n g i = ground arith

placed_nil :
    (d : ℕ) (f : Samples) (g : ℕ → Option Samples) (i : ℕ)
    → placed d f 0 g i ≡ placed (suc d) f 0 g (suc i)
placed_nil d f g i = ground arith

at_zero :
    (d : ℕ) (f : Samples) (n : ℕ) (g : ℕ → Option Samples)
    → (if ltb 0 n then g 0 else none) ≡ placed (suc d) f n g 0
at_zero d f n g = ground arith

at_zero_suc :
    (d : ℕ) (f : Samples) (n : ℕ) (g : ℕ → Option Samples) → g 0 ≡ placed (suc d) f (suc n) g 0
at_zero_suc d f n g = ground arith

pub place-tabulate :
    (d : ℕ) (f : Samples) (n : ℕ) (g : ℕ → Option Samples)
    → place d f (tabulate n g) ≡ tabulate (max n (suc d)) (placed d f n g)
unfolding place tabulate
place-tabulate zero f zero g = refl
place-tabulate zero f (suc n) g = rw (ends n) (
    ap (λ r. some f ∷ r)
      (tabulate_ext n (λ i. g (suc i)) (λ i. placed 0 f (suc n) g (suc i)) (λ i lt. ground arith)))
  where
    ends : (n : ℕ) → max (suc n) 1 ≡ suc n
    ends n = omega arith
place-tabulate (suc d) f zero g = rw (ends d) (
    ap₂ ◌∷◌ (at_zero d f 0 g) (
      place-tabulate d f 0 g
      ∙ tabulate_ext (max 0 (suc d)) (placed d f 0 g) (λ i. placed (suc d) f 0 g (suc i))
          (λ i lt. placed_nil d f g i)))
  where
    ends : (d : ℕ) → max 0 (suc (suc d)) ≡ suc (max 0 (suc d))
    ends d = omega arith
place-tabulate (suc d) f (suc n) g = rw (ends d n) (
    ap₂ ◌∷◌ (at_zero_suc d f n g) (
      place-tabulate d f n (λ i. g (suc i))
      ∙ tabulate_ext (max n (suc d)) (placed d f n (λ i. g (suc i)))
          (λ i. placed (suc d) f (suc n) g (suc i)) (λ i lt. placed-suc d f n g i)))
  where
    ends : (d n : ℕ) → max (suc n) (suc (suc d)) ≡ suc (max n (suc d))
    ends d n = omega arith

-- `dequeue` on the list: nothing is due, or the oldest is a gap that may still be filled, or it goes
-- out, with silence for a gap.
unfoldable pub pop : Bool → Samples → Frames → Option Samples × Frames
pop no_resend silence [] = (none, [])
pop no_resend silence (some f ∷ rest) = (some f, rest)
pop no_resend silence (none ∷ rest) =
    if not no_resend && ltb (length rest) 31 then (none, none ∷ rest) else (some silence, rest)

abbrev pub is_some_at : ℕ → Frames → Bool
is_some_at d [] = false
is_some_at zero (none ∷ rest) = false
is_some_at zero (some f ∷ rest) = true
is_some_at (suc d) (x ∷ rest) = is_some_at d rest

pub is_some_at-tabulate :
    (d n : ℕ) (g : ℕ → Option Samples) → is_some_at d (tabulate n g) ≡ (ltb d n && is_some (g d))
unfolding tabulate
is_some_at-tabulate d zero g = ground arith
is_some_at-tabulate zero (suc n) g = ground arith
is_some_at-tabulate (suc d) (suc n) g =
    ground (arith, is_some_at-tabulate d n (λ (i : ℕ). g (suc i)))

abbrev pub only : Option Samples → Frames
only none = []
only (some f) = some f ∷ []

abbrev pub place_if : Option Samples → ℕ → Frames → Frames
place_if none d frames = frames
place_if (some f) d frames = place d f frames

-- `queue` on the list, for a packet at a distance `d` from the oldest number, modulo 2 ^ 16, that
-- decodes to a code and, if it does decode, a frame: any first packet starts the list; one from
-- behind is dropped; one from 32 on starts the list anew; one that is there already is dropped.
unfoldable pub offer : Bool → ℕ → ℤ × Option Samples → Frames → ℤ × Frames
offer true d (code, f) frames = (code, only f)
offer false d (code, f) frames =
    if leb 32768 d
    then (pos 0, frames)
    else if leb 32 d
    then (code, only f)
    else if is_some_at d frames
    then (pos 0, frames)
    else (code, place_if f d frames)

-- The branches of `offer`.
module _ (empty : Bool) (d : ℕ) (p : ℤ × Option Samples) (frames : Frames) where
  pub offer_empty : empty ≡ true → offer empty d p frames ≡ (p.0, only p.1)
  unfolding offer
  offer_empty e = rw e

  pub offer_stale : empty ≡ false → 32768 ≤ d → offer empty d p frames ≡ (pos 0, frames)
  unfolding offer
  offer_stale e h = rw e (ground arith)

  pub offer_far : empty ≡ false → d < 32768 → 32 ≤ d → offer empty d p frames ≡ (p.0, only p.1)
  unfolding offer
  offer_far e h l = rw e (ground arith)

  pub offer_near :
      empty ≡ false
      → d < 32
      → offer empty d p frames
        ≡ (if is_some_at d frames then (pos 0, frames) else (p.0, place_if p.1 d frames))
  unfolding offer
  offer_near e h = rw e (ground arith)

-- The frame of a sequence number, if its slot holds it.
abbrev pub frame_in : BufferEntry → ℕ → Option Samples
frame_in e s =
    if e.available && e.seqnum == s then some (take e.audio_buffer_len e.audio_buffer) else none

module _ {D : Type 0} where
  abbrev pub frame_of_seq : RaopBuffer D → ℕ → Option Samples
  frame_of_seq b s = frame_in (entry_at b (s % 32)) s

  abbrev pub frame_at : RaopBuffer D → ℕ → Option Samples
  frame_at b i = frame_of_seq b (wrapping_add b.first_seqnum i)

  unfoldable pub contents : RaopBuffer D → Frames
  contents b = if b.is_empty then [] else tabulate (held b) (frame_at b)

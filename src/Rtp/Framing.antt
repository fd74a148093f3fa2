-- ===== src/Rtp/Framing.antt =====
-- raop/rtp.rs: the frames of a TCP connection, however its bytes arrive.
use mathlib.Core.Path.{ap₂}
use shairplay_rust.Base.{
  ℕ, zero, suc, ◌+◌, ◌*◌, ◌/◌, ◌%◌, ◌≤◌, Bool, true, false, not, ◌||◌, List, [], ◌∷◌, ◌++◌, length,
  take, drop, ltb, ◌==◌, ◌≡◌, refl, sym, ap, ◌∙◌, arith, Bool-cases, inl, inr, length-drop,
  length-append, append_assoc, ltb→ge, ge→ltb, drop-append_exact, take-append_exact,
  take-append_left, drop-append_left, All,
}
use shairplay_rust.RaopBuffer.{raop_packet_len}
use shairplay_rust.Rtp.{TcpRead, more, closed, stuck, tcp_loop, read_frames}

-- The tests of a round.
abbrev bad_start : ℕ → ℕ → Bool
bad_start a b = not (a == 36) || not (b == 0)

-- A frame as a sender writes it, and several of them.
abbrev pub frame : List ℕ → List ℕ
frame packet = 36 ∷ 0 ∷ length packet / 256 ∷ length packet % 256 ∷ packet

abbrev pub frames : List (List ℕ) → List ℕ
frames [] = []
frames (p ∷ ps) = frame p ++ frames ps

module _ {S : Type 0} (serve : List ℕ → S → S) where
  -- What follows when more bytes come.
  abbrev pub continue : TcpRead S → List ℕ → TcpRead S
  continue (more left s) chunk = read_frames serve (left ++ chunk) s
  continue (closed s) chunk = closed s
  continue stuck chunk = stuck

  -- More fuel than bytes changes nothing.
  tcp_loop_fuel :
      (fuel more_fuel : ℕ) (bytes : List ℕ) (s : S)
      → length bytes ≤ fuel
      → length bytes ≤ more_fuel
      → tcp_loop serve fuel bytes s ≡ tcp_loop serve more_fuel bytes s
  unfolding tcp_loop
  tcp_loop_fuel fuel more_fuel [] s h h' = refl
  tcp_loop_fuel fuel more_fuel (a ∷ []) s h h' = refl
  tcp_loop_fuel fuel more_fuel (a ∷ b ∷ []) s h h' = refl
  tcp_loop_fuel fuel more_fuel (a ∷ b ∷ hi ∷ []) s h h' = refl
  tcp_loop_fuel zero more_fuel (a ∷ b ∷ hi ∷ lo ∷ rest) s h h' = absurd (omega arith)
  tcp_loop_fuel (suc fuel) zero (a ∷ b ∷ hi ∷ lo ∷ rest) s h h' = absurd (omega arith)
  tcp_loop_fuel (suc fuel) (suc more_fuel) (a ∷ b ∷ hi ∷ lo ∷ rest) s h h' =
      let n = hi * 256 + lo in
      let resync =
        tcp_loop_fuel fuel more_fuel (b ∷ hi ∷ lo ∷ rest) s (omega arith) (omega arith) in
      let next =
        tcp_loop_fuel fuel more_fuel (drop n rest) (serve (take n rest) s)
          (omega (arith, length-drop n rest)) (omega (arith, length-drop n rest)) in
      rw (resync, next) refl

  -- The rounds, without the fuel.
  read_resync :
      (a b hi lo : ℕ) (rest : List ℕ) (s : S)
      → bad_start a b ≡ true
      → read_frames serve (a ∷ b ∷ hi ∷ lo ∷ rest) s ≡ read_frames serve (b ∷ hi ∷ lo ∷ rest) s
  unfolding read_frames tcp_loop
  read_resync a b hi lo rest s h = rw h refl

  read_closed :
      (a b hi lo : ℕ) (rest : List ℕ) (s : S)
      → bad_start a b ≡ false
      → ltb raop_packet_len (hi * 256 + lo) ≡ true
      → read_frames serve (a ∷ b ∷ hi ∷ lo ∷ rest) s ≡ closed s
  unfolding read_frames tcp_loop
  read_closed a b hi lo rest s h h' = rw (h, h') refl

  read_more :
      (a b hi lo : ℕ) (rest : List ℕ) (s : S)
      → bad_start a b ≡ false
      → ltb raop_packet_len (hi * 256 + lo) ≡ false
      → ltb (length rest) (hi * 256 + lo) ≡ true
      → read_frames serve (a ∷ b ∷ hi ∷ lo ∷ rest) s ≡ more (a ∷ b ∷ hi ∷ lo ∷ rest) s
  unfolding read_frames tcp_loop
  read_more a b hi lo rest s h h' h'' = rw (h, h', h'') refl

  read_next :
      (a b hi lo : ℕ) (rest : List ℕ) (s : S)
      → bad_start a b ≡ false
      → ltb raop_packet_len (hi * 256 + lo) ≡ false
      → ltb (length rest) (hi * 256 + lo) ≡ false
      → read_frames serve (a ∷ b ∷ hi ∷ lo ∷ rest) s
        ≡ read_frames serve (drop (hi * 256 + lo) rest) (serve (take (hi * 256 + lo) rest) s)
  unfolding read_frames tcp_loop
  read_next a b hi lo rest s h h' h'' =
      let n = hi * 256 + lo in
      rw (h, h', h'')
        (tcp_loop_fuel (suc (suc (suc (length rest)))) (length (drop n rest)) (drop n rest)
          (serve (take n rest) s) (omega (arith, length-drop n rest)) (omega arith))

  chunk_fuel :
      (fuel : ℕ) (bytes chunk : List ℕ) (s : S)
      → length bytes ≤ fuel
      → read_frames serve (bytes ++ chunk) s ≡ continue (read_frames serve bytes s) chunk
  unfolding read_frames tcp_loop
  chunk_fuel fuel [] chunk s h = refl
  chunk_fuel fuel (a ∷ []) chunk s h = refl
  chunk_fuel fuel (a ∷ b ∷ []) chunk s h = refl
  chunk_fuel fuel (a ∷ b ∷ hi ∷ []) chunk s h = refl
  chunk_fuel zero (a ∷ b ∷ hi ∷ lo ∷ rest) chunk s h = absurd (omega arith)
  chunk_fuel (suc fuel) (a ∷ b ∷ hi ∷ lo ∷ rest) chunk s h =
      let n = hi * 256 + lo in
      let more_rest = rest ++ chunk in
      elim (Bool-cases (bad_start a b)) [
        | inl e ↦
            read_resync a b hi lo more_rest s e
            ∙ chunk_fuel fuel (b ∷ hi ∷ lo ∷ rest) chunk s (omega arith)
            ∙ ap (λ r. continue r chunk) (sym (read_resync a b hi lo rest s e))
        | inr e ↦ elim (Bool-cases (ltb raop_packet_len n)) [
          | inl f ↦
              read_closed a b hi lo more_rest s e f
              ∙ ap (λ r. continue r chunk) (sym (read_closed a b hi lo rest s e f))
          | inr f ↦ elim (Bool-cases (ltb (length rest) n)) [
            | inl g ↦ ap (λ r. continue r chunk) (sym (read_more a b hi lo rest s e f g))
            | inr g ↦
                let fits = ltb→ge (length rest) n g in
                read_next a b hi lo more_rest s e f
                  (ge→ltb (length more_rest) n (omega (arith, length-append rest chunk)))
                ∙ ap₂ (λ l p. read_frames serve l (serve p s)) (drop-append_left n rest chunk fits)
                    (take-append_left n rest chunk fits)
                ∙ chunk_fuel fuel (drop n rest) chunk (serve (take n rest) s)
                    (omega (arith, length-drop n rest))
                ∙ ap (λ r. continue r chunk) (sym (read_next a b hi lo rest s e f g))
          ]
        ]
      ]

  -- The bytes of a connection may be cut anywhere: reading the first of them, and then what was left
  -- with the rest behind it, serves the same frames and leaves the same as reading all at once.
  pub read_frames-append :
      (bytes chunk : List ℕ) (s : S)
      → read_frames serve (bytes ++ chunk) s ≡ continue (read_frames serve bytes s) chunk
  read_frames-append bytes chunk s = chunk_fuel (length bytes) bytes chunk s (omega arith)

  -- What serving several packets does.
  abbrev pub serve_all : List (List ℕ) → S → S
  serve_all [] s = s
  serve_all (p ∷ ps) s = serve_all ps (serve p s)

  -- Frames of packets within the limit are served one after the other, and what is behind them is read
  -- next.
  pub read_frames-frames :
      (packets : List (List ℕ)) (rest : List ℕ) (s : S)
      → All (λ p. length p ≤ raop_packet_len) packets
      → read_frames serve (frames packets ++ rest) s ≡ read_frames serve rest (serve_all packets s)
  read_frames-frames [] rest s h = refl
  read_frames-frames (p ∷ ps) rest s h =
      let n = length p / 256 * 256 + length p % 256 in
      let whole : n ≡ length p = omega arith in
      let behind = frames ps ++ rest in
      ap (λ l. read_frames serve l s) (append_assoc (frame p) (frames ps) rest)
      ∙ read_next 36 0 (length p / 256) (length p % 256) (p ++ behind) s refl
          (ge→ltb raop_packet_len n (omega (arith, h.0)))
          (ge→ltb (length (p ++ behind)) n (omega (arith, length-append p behind)))
      ∙ ap₂ (λ l q. read_frames serve l (serve q s)) (drop-append_exact n p behind (sym whole))
          (take-append_exact n p behind (sym whole))
      ∙ read_frames-frames ps rest (serve p s) h.1

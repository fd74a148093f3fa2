-- ===== src/Tlv/RoundTrip.antt =====
-- crypto/tlv.rs: `decode` after `encode`.
use shairplay_rust.Base.{
  ℕ, zero, suc, ◌%◌, ◌≤◌, Bool, true, false, not, ◌&&◌, List, [], ◌∷◌, ◌++◌, length, take, drop,
  ◌==◌, ◌≡◌, ◌≢◌, refl, ap, ◌∙◌, arith, length-drop, length-append, length-take, append_assoc,
  append-nil, take-append-drop, if◌then◌else◌, Bool-cases, inl, inr,
}
use mathlib.Core.List.{reverse, reverse-cons}
use shairplay_rust.Tlv.{
  TlvValues, ok, push_chunk, decode_loop, decode, encode_chunks, encode_entry, encode,
}
use shairplay_rust.Tlv.Decode.{run, run_chunk}

-- Two chunks of one tag in a row are one longer chunk, if the first is full.
push_chunk_twice :
    (tag : ℕ) (full more : List ℕ) (acc : TlvValues)
    → length full ≡ 255
    → push_chunk tag more (push_chunk tag full acc) ≡ push_chunk tag (full ++ more) acc
unfolding push_chunk
push_chunk_twice tag full more [] h = ground arith
push_chunk_twice tag full more ((t, v) ∷ older) h =
    ground (arith, length-append v full, append_assoc v full more)

-- What is left of a value after its first chunk: nothing, or the chunk was full.
rest_of_value :
    (fuel tag : ℕ) (chunk tail rest : List ℕ) (acc : TlvValues)
    → (tail ≢ [] → length chunk ≡ 255)
    → ((c : ℕ) (cs : List ℕ) (acc' : TlvValues)
        → tail ≡ c ∷ cs
        → run (encode_chunks fuel tag (c ∷ cs) ++ rest) acc'
          ≡ run rest (push_chunk tag (c ∷ cs) acc'))
    → run (encode_chunks fuel tag tail ++ rest) (push_chunk tag chunk acc)
      ≡ run rest (push_chunk tag (chunk ++ tail) acc)
unfolding encode_chunks
rest_of_value fuel tag chunk [] rest acc full ih = rw (append-nil chunk)
rest_of_value fuel tag chunk (c ∷ cs) rest acc full ih =
    ih c cs (push_chunk tag chunk acc) refl
    ∙ ap (run rest) (push_chunk_twice tag chunk (c ∷ cs) acc (full (λ e. cc)))

drop-ne-nil : (n : ℕ) (xs : List ℕ) → drop n xs ≢ [] → length (take n xs) ≡ n
drop-ne-nil zero xs h = refl
drop-ne-nil (suc n) [] h = absurd (h refl)
drop-ne-nil (suc n) (x ∷ xs) h = ap suc (drop-ne-nil n xs h)

-- The header that `encode` writes for a chunk holds the chunk's length: no wrap at 256.
chunk_len : (v : List ℕ) → length (take 255 v) ≡ length (take 255 v) % 256
chunk_len v = omega (arith, length-take 255 v)

encode_chunks_step :
    (fuel tag b : ℕ) (bs : List ℕ)
    → let chunk = take 255 (b ∷ bs) in
      encode_chunks (suc fuel) tag (b ∷ bs)
      ≡ tag ∷ length chunk % 256 ∷ (chunk ++ encode_chunks fuel tag (drop 255 (b ∷ bs)))
unfolding encode_chunks
encode_chunks_step fuel tag b bs = refl

-- A value that was cut into chunks is pushed whole.
run-encode_chunks :
    (fuel tag b : ℕ) (bs rest : List ℕ) (acc : TlvValues)
    → length (b ∷ bs) ≤ fuel
    → run (encode_chunks fuel tag (b ∷ bs) ++ rest) acc ≡ run rest (push_chunk tag (b ∷ bs) acc)
run-encode_chunks zero tag b bs rest acc h = absurd (omega arith)
run-encode_chunks (suc fuel) tag b bs rest acc h =
    first
    ∙ run_chunk tag _ chunk (encode_chunks fuel tag tail ++ rest) acc (chunk_len (b ∷ bs))
    ∙ rest_of_value fuel tag chunk tail rest acc (drop-ne-nil 255 (b ∷ bs))
        (λ c cs acc' e. run-encode_chunks fuel tag c cs rest acc' (shorter c cs e))
    ∙ ap (λ v. run rest (push_chunk tag v acc)) (take-append-drop 255 (b ∷ bs))
  where
    chunk : List ℕ
    chunk = take 255 (b ∷ bs)

    tail : List ℕ
    tail = drop 255 (b ∷ bs)

    first :
        run (encode_chunks (suc fuel) tag (b ∷ bs) ++ rest) acc
        ≡ run (tag ∷ length chunk % 256 ∷ (chunk ++ (encode_chunks fuel tag tail ++ rest))) acc
    first =
        ap (λ bytes. run (bytes ++ rest) acc) (encode_chunks_step fuel tag b bs)
        ∙ ap (λ bytes. run (tag ∷ length chunk % 256 ∷ bytes) acc)
            (append_assoc chunk (encode_chunks fuel tag tail) rest)

    shorter : (c : ℕ) (cs : List ℕ) → tail ≡ c ∷ cs → length (c ∷ cs) ≤ fuel
    shorter c cs e = omega (arith, ap length e, length-drop 255 (b ∷ bs))

run-encode_entry :
    (tag : ℕ) (value rest : List ℕ) (acc : TlvValues)
    → run (encode_entry tag value ++ rest) acc ≡ run rest (push_chunk tag value acc)
unfolding encode_entry
run-encode_entry tag [] rest acc = run_chunk tag 0 [] rest acc refl
run-encode_entry tag (b ∷ bs) rest acc =
    run-encode_chunks (length (b ∷ bs)) tag b bs rest acc (omega arith)

-- The entries pushed one after the other on those already there, newest first.
unfoldable push_all : TlvValues → TlvValues → TlvValues
push_all [] acc = acc
push_all ((tag, value) ∷ rest) acc = push_all rest (push_chunk tag value acc)

run_nil : (acc : TlvValues) → run [] acc ≡ ok (reverse acc)
unfolding decode_loop
run_nil acc = refl

run-encode : (es acc : TlvValues) → run (encode es) acc ≡ ok (reverse (push_all es acc))
unfolding encode push_all
run-encode [] acc = run_nil acc
run-encode ((tag, value) ∷ rest) acc =
    run-encode_entry tag value (encode rest) acc ∙ run-encode rest (push_chunk tag value acc)

-- Whether an entry of a tag goes on with the value before it: that one has the same tag, is not empty
-- and ends with a chunk of 255 bytes.
abbrev pub joins : ℕ → List ℕ → ℕ → Bool
joins t v tag = t == tag && length v % 255 == 0 && not (length v == 0)

-- What is meant by some entries, from the first to the last: each entry takes in the ones behind it
-- for as long as they go on with its value.
unfoldable pub joined_to : ℕ → List ℕ → TlvValues → TlvValues
joined_to t v [] = (t, v) ∷ []
joined_to t v ((tag, w) ∷ rest) =
    let longer = joined_to t (v ++ w) rest in
    let apart = joined_to tag w rest in if joins t v tag then longer else (t, v) ∷ apart

unfoldable pub joined : TlvValues → TlvValues
unfolding joined_to
joined [] = []
joined ((t, v) ∷ rest) = joined_to t v rest

push_chunk-joins :
    (t : ℕ) (v : List ℕ) (tag : ℕ) (w : List ℕ) (acc : TlvValues)
    → joins t v tag ≡ true
    → push_chunk tag w ((t, v) ∷ acc) ≡ (t, v ++ w) ∷ acc
unfolding push_chunk
push_chunk-joins t v tag w acc h = rw h

push_chunk-apart :
    (t : ℕ) (v : List ℕ) (tag : ℕ) (w : List ℕ) (acc : TlvValues)
    → joins t v tag ≡ false
    → push_chunk tag w ((t, v) ∷ acc) ≡ (tag, w) ∷ (t, v) ∷ acc
unfolding push_chunk
push_chunk-apart t v tag w acc h = rw h

push_all-joined_to :
    (t : ℕ) (v : List ℕ) (rest acc : TlvValues)
    → reverse (push_all rest ((t, v) ∷ acc)) ≡ reverse acc ++ joined_to t v rest
unfolding push_all joined_to
push_all-joined_to t v [] acc = reverse-cons (t, v) acc
push_all-joined_to t v ((tag, w) ∷ rest) acc = elim (Bool-cases (joins t v tag)) [
  | inl e ↦ rw e (
      ap (λ es. reverse (push_all rest es)) (push_chunk-joins t v tag w acc e)
      ∙ push_all-joined_to t (v ++ w) rest acc)
  | inr e ↦ rw e (
      ap (λ es. reverse (push_all rest es)) (push_chunk-apart t v tag w acc e)
      ∙ push_all-joined_to tag w rest ((t, v) ∷ acc)
      ∙ ap (λ es. es ++ joined_to tag w rest) (reverse-cons (t, v) acc)
      ∙ append_assoc (reverse acc) ((t, v) ∷ []) (joined_to tag w rest))
]

push_all-joined : (es : TlvValues) → reverse (push_all es []) ≡ joined es
unfolding push_all push_chunk joined
push_all-joined [] = refl
push_all-joined ((t, v) ∷ rest) = push_all-joined_to t v rest []

-- The bytes that `encode` writes for any entries decode, to the entries with each one that follows
-- a non-empty value of its own tag whose length is a multiple of 255 joined to it.
pub decode-encode_merged : (es : TlvValues) → decode (encode es) ≡ ok (joined es)
unfolding decode
decode-encode_merged es = run-encode es [] ∙ ap ok (push_all-joined es)

-- No two neighbours that `decode` would join.
abbrev pub IsSeparate : TlvValues → Type 0
IsSeparate [] = Unit {0}
IsSeparate ((t, v) ∷ []) = Unit {0}
IsSeparate ((t, v) ∷ (tag, w) ∷ rest) = (joins t v tag ≡ false) × IsSeparate ((tag, w) ∷ rest)

joined_to-IsSeparate :
    (t : ℕ) (v : List ℕ) (rest : TlvValues)
    → IsSeparate ((t, v) ∷ rest)
    → joined_to t v rest ≡ (t, v) ∷ rest
unfolding joined_to
joined_to-IsSeparate t v [] h = refl
joined_to-IsSeparate t v ((tag, w) ∷ rest) h =
    rw h.0 (ap (λ es. (t, v) ∷ es) (joined_to-IsSeparate tag w rest h.1))

-- Entries of which no two neighbours join are read back as they were.
pub decode-encode : (es : TlvValues) → IsSeparate es → decode (encode es) ≡ ok es
unfolding joined
decode-encode [] h = decode-encode_merged []
decode-encode ((t, v) ∷ rest) h =
    decode-encode_merged ((t, v) ∷ rest) ∙ ap ok (joined_to-IsSeparate t v rest h)

-- ===== src/Tlv.antt =====
-- crypto/tlv.rs: the type-length-value codec of the HomeKit pairing messages.
pub mod Parts
pub mod Decode
pub mod RoundTrip
mod Tests
use shairplay_rust.Base.{
  ℕ, zero, suc, ◌+◌, ◌%◌, Bool, true, false, not, ◌&&◌, Option, none, some, List, [], ◌∷◌, ◌++◌,
  length, take, drop, ltb, ◌==◌, if◌then◌else◌,
}
use mathlib.Core.List.{reverse}

-- `TlvType`, with its discriminants.
pub data TlvType : Type 0 where
  method identifier salt public_key proof encrypted_data state error retry_delay certificate :
      TlvType
  signature permissions fragment_data fragment_last flags separator : TlvType

unfoldable pub tag_of : TlvType → ℕ
tag_of method = 0
tag_of identifier = 1
tag_of salt = 2
tag_of public_key = 3
tag_of proof = 4
tag_of encrypted_data = 5
tag_of state = 6
tag_of error = 7
tag_of retry_delay = 8
tag_of certificate = 9
tag_of signature = 10
tag_of permissions = 11
tag_of fragment_data = 13
tag_of fragment_last = 14
tag_of flags = 19
tag_of separator = 0xff

-- `TlvValues`: the entries in insertion order.
abbrev pub TlvValues : Type 0
TlvValues = List (ℕ × List ℕ)

unfoldable pub add : ℕ → List ℕ → TlvValues → TlvValues
add tag value entries = entries ++ ((tag, value) ∷ [])

unfoldable pub get : ℕ → TlvValues → Option (List ℕ)
get tag [] = none
get tag ((t, v) ∷ rest) = if t == tag then some v else get tag rest

unfoldable pub get_last : ℕ → TlvValues → Option (List ℕ)
unfolding get
get_last tag entries = get tag (reverse entries)

unfoldable pub get_all : ℕ → TlvValues → List (List ℕ)
get_all tag [] = []
get_all tag ((t, v) ∷ rest) = let found = get_all tag rest in if t == tag then v ∷ found else found

unfoldable pub get_type : TlvType → TlvValues → Option (List ℕ)
unfolding get tag_of
get_type t entries = get (tag_of t) entries

-- `value.chunks(255)` with a header before each chunk. The first argument is fuel: the value's own
-- length is enough, as each round takes at least one byte.
unfoldable pub encode_chunks : ℕ → ℕ → List ℕ → List ℕ
encode_chunks fuel tag [] = []
encode_chunks zero tag (b ∷ bs) = []
encode_chunks (suc fuel) tag (b ∷ bs) =
    let chunk = take 255 (b ∷ bs) in
    tag ∷ length chunk % 256 ∷ (chunk ++ encode_chunks fuel tag (drop 255 (b ∷ bs)))

unfoldable pub encode_entry : ℕ → List ℕ → List ℕ
unfolding encode_chunks
encode_entry tag [] = tag ∷ 0 ∷ []
encode_entry tag (b ∷ bs) = encode_chunks (length (b ∷ bs)) tag (b ∷ bs)

unfoldable pub encode : TlvValues → List ℕ
unfolding encode_entry
encode [] = []
encode ((tag, value) ∷ rest) = encode_entry tag value ++ encode rest

pub data Decoded : Type 0 where
  ok : TlvValues → Decoded
  truncated : Decoded
  -- no value of the code: the fuel ran out
  stuck : Decoded

-- The entries are kept newest first while the loop runs: `last_mut` is the head.
unfoldable pub push_chunk : ℕ → List ℕ → TlvValues → TlvValues
push_chunk tag chunk [] = (tag, chunk) ∷ []
push_chunk tag chunk ((last_tag, last_val) ∷ older) =
    if last_tag == tag && length last_val % 255 == 0 && not (length last_val == 0)
    then (last_tag, last_val ++ chunk) ∷ older
    else (tag, chunk) ∷ (last_tag, last_val) ∷ older

-- The list is `data[i..]`; each round takes two bytes at least.
unfoldable pub decode_loop : ℕ → List ℕ → TlvValues → Decoded
unfolding push_chunk
decode_loop fuel [] acc = ok (reverse acc)
decode_loop fuel (tag ∷ []) acc = truncated
decode_loop zero (tag ∷ len ∷ rest) acc = stuck
decode_loop (suc fuel) (tag ∷ len ∷ rest) acc =
    let more = decode_loop fuel (drop len rest) (push_chunk tag (take len rest) acc) in
    if ltb (length rest) len then truncated else more

unfoldable pub decode : List ℕ → Decoded
unfolding decode_loop
decode bytes = decode_loop (length bytes) bytes []

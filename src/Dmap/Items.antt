-- ===== src/Dmap/Items.antt =====
-- proto/dmap.rs: a payload of items.
use shairplay_rust.Base.{
  ℕ, zero, suc, ◌+◌, ◌-◌, ◌≤◌, ◌<◌, min, false, List, [], ◌∷◌, ◌++◌, length, take, drop, ltb, ◌≡◌,
  refl, ◌∙◌, arith, All, ge→ltb, lt→ltb, ◌⊎◌, inl, inr, Bool-cases, length-append, append_assoc,
  take-append_exact, drop-append_exact, take_all,
}
use shairplay_rust.Base.Text.{codes}
use shairplay_rust.Base.Words.{IsU32, from_be_bytes, u32_to_be_bytes, from_be-u32_to_be}
use shairplay_rust.Dmap.{TrackMetadata, no_metadata, Utf8, put_item, items_loop, from_dmap}

-- An item: the four characters of its tag, and its value.
pub record Item : Type 0 where
  pub a : ℕ
  pub b : ℕ
  pub c : ℕ
  pub d : ℕ
  pub value : List ℕ

abbrev pub tag_of_item : Item → List ℕ
tag_of_item i = i.a ∷ i.b ∷ i.c ∷ i.d ∷ []

unfoldable pub encode_items : List Item → List ℕ
unfolding u32_to_be_bytes
encode_items [] = []
encode_items (i ∷ is) =
    tag_of_item i ++ (u32_to_be_bytes (length i.value) ++ (i.value ++ encode_items is))

-- The items put in order.
unfoldable pub put_items : Utf8 → List Item → TrackMetadata → TrackMetadata
unfolding put_item
put_items utf8 [] meta = meta
put_items utf8 (i ∷ is) meta = put_items utf8 is (put_item utf8 (tag_of_item i) i.value meta)

-- What is left is no item: its header or its value is cut off.
abbrev pub IsCut : List ℕ → Type 0
IsCut s = (length s < 8) ⊎ (length (drop 8 s) < from_be_bytes (take 4 (drop 4 s)))

items_loop-cut :
    (fuel : ℕ) (utf8 : Utf8) (s : List ℕ) (meta : TrackMetadata)
    → IsCut s
    → items_loop fuel utf8 s meta ≡ meta
unfolding items_loop
items_loop-cut zero utf8 s meta h = refl
items_loop-cut (suc fuel) utf8 s meta (inl h) = rw (lt→ltb (length s) 8 h, items_loop) refl
items_loop-cut (suc fuel) utf8 s meta (inr h) = elim (Bool-cases (ltb (length s) 8)) [
  | inl e ↦ rw (e, items_loop) refl
  | inr e ↦
      rw (e, lt→ltb (length (drop 8 s)) (from_be_bytes (take 4 (drop 4 s))) h, items_loop) refl
]

-- A round, by the number of the length field and what follows the header.
items_loop-round :
    (fuel : ℕ) (utf8 : Utf8) (s value rest : List ℕ) (meta : TrackMetadata)
    → ltb (length s) 8 ≡ false
    → from_be_bytes (take 4 (drop 4 s)) ≡ length value
    → drop 8 s ≡ value ++ rest
    → items_loop (suc fuel) utf8 s meta
      ≡ items_loop fuel utf8 rest (put_item utf8 (take 4 s) value meta)
unfolding items_loop
items_loop-round fuel utf8 s value rest meta whole len after =
    rw
      (
        whole,
        len,
        after,
        ge→ltb (length (value ++ rest)) (length value) (omega (arith, length-append value rest)),
        len,
        after,
        drop-append_exact (length value) value rest refl,
        take-append_exact (length value) value rest refl,
        items_loop,
      )
      refl

items_loop-items :
    (fuel : ℕ) (utf8 : Utf8) (is : List Item) (cut : List ℕ) (meta : TrackMetadata)
    → All (λ i. IsU32 (length i.value)) is
    → IsCut cut
    → length (encode_items is) < fuel
    → items_loop fuel utf8 (encode_items is ++ cut) meta ≡ put_items utf8 is meta
unfolding encode_items put_items u32_to_be_bytes
items_loop-items zero utf8 is cut meta sizes hc hf = absurd (omega arith)
items_loop-items (suc fuel) utf8 [] cut meta sizes hc hf =
    items_loop-cut (suc fuel) utf8 cut meta hc
items_loop-items (suc fuel) utf8 (i ∷ is) cut meta (size, sizes) hc hf =
    items_loop-round fuel utf8 _ i.value (encode_items is ++ cut) meta (ground arith)
      (from_be-u32_to_be (length i.value) size) (append_assoc i.value (encode_items is) cut)
    ∙ items_loop-items fuel utf8 is cut (put_item utf8 (tag_of_item i) i.value meta) sizes hc
        (omega (arith, length-append i.value (encode_items is)))

-- The frame that declares a payload of so many bytes.
unfoldable pub mlit_frame : ℕ → List ℕ → List ℕ
unfolding u32_to_be_bytes
mlit_frame declared payload = codes "mlit" ++ (u32_to_be_bytes declared ++ payload)

from_dmap-mlit_frame :
    (utf8 : Utf8) (declared : ℕ) (payload : List ℕ)
    → IsU32 declared
    → length payload ≤ declared
    → from_dmap utf8 (mlit_frame declared payload)
      ≡ items_loop (8 + length payload) utf8 payload no_metadata
unfolding from_dmap mlit_frame u32_to_be_bytes
from_dmap-mlit_frame utf8 declared payload hn h =
    rw
      (
        long,
        from_be-u32_to_be declared hn,
        least,
        take_all (8 + length payload - 8) payload (omega arith),
        whole,
      )
      refl
  where
    whole : suc (suc (suc (suc (suc (suc (suc (suc (length payload)))))))) ≡ 8 + length payload
    whole = omega arith

    least :
        min (8 + declared) (suc (suc (suc (suc (suc (suc (suc (suc (length payload)))))))))
        ≡ 8 + length payload
    least = omega arith

    long : ltb (suc (suc (suc (suc (suc (suc (suc (suc (length payload))))))))) 8 ≡ false
    long = ground arith

-- A frame whose payload is items, each of a size that fits its length field, is parsed as the items put
-- in order; the payload may be cut off, and then all whole items before the cut are put.
pub from_dmap-items :
    (utf8 : Utf8) (is : List Item) (cut : List ℕ) (declared : ℕ)
    → All (λ i. IsU32 (length i.value)) is
    → IsCut cut
    → IsU32 declared
    → length (encode_items is ++ cut) ≤ declared
    → from_dmap utf8 (mlit_frame declared (encode_items is ++ cut)) ≡ put_items utf8 is no_metadata
from_dmap-items utf8 is cut declared sizes hc hn h =
    from_dmap-mlit_frame utf8 declared (encode_items is ++ cut) hn h
    ∙ items_loop-items (8 + length (encode_items is ++ cut)) utf8 is cut no_metadata sizes hc
        (omega (arith, length-append (encode_items is) cut))

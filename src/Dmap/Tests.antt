-- ===== src/Dmap/Tests.antt =====
-- proto/dmap.rs, examples: a title, and a track number that is cut off.
use shairplay_rust.Base.{ℕ, some, List, [], ◌∷◌, ◌++◌, ◌≡◌, refl, inl, arith}
use shairplay_rust.Base.Text.{codes}
use shairplay_rust.Dmap.{Utf8, no_metadata, from_dmap}
use shairplay_rust.Dmap.Items.{Item, encode_items, put_items, mlit_frame, from_dmap-items}

-- ASCII alone.
abbrev ascii : Utf8
ascii bytes = some bytes

abbrev title : Item
title = record { a = b'm'; b = b'i'; c = b'n'; d = b'm'; value = codes "Blue" }

-- The header of a track number, without its value.
abbrev track_header : List ℕ
track_header = codes "astn" ++ (0 ∷ 0 ∷ 0 ∷ [])

from_dmap-items_example :
    from_dmap ascii (mlit_frame 22 (encode_items (title ∷ []) ++ track_header))
    ≡ put_items ascii (title ∷ []) no_metadata
unfolding encode_items
from_dmap-items_example =
    from_dmap-items ascii (title ∷ []) track_header 22 (omega arith, tt) (inl (omega arith))
      (omega arith) (omega arith)

title_put :
    put_items ascii (title ∷ []) no_metadata ≡ record no_metadata { title = some (codes "Blue") }
unfolding put_items
title_put = refl

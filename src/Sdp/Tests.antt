-- ===== src/Sdp/Tests.antt =====
-- proto/sdp.rs, examples: a description with two formats.
use shairplay_rust.Base.{ℕ, some, List, [], ◌∷◌, ◌++◌, ◌≡◌, refl}
use shairplay_rust.Base.Text.{codes, split, split_once, trim}
use shairplay_rust.Sdp.{Key, field, lines, parse}
use shairplay_rust.Sdp.First.{first_entry, field-parse}

abbrev line_feed : List ℕ
line_feed = 13 ∷ 10 ∷ []

abbrev description : List ℕ
description = codes "v=0" ++ line_feed ++ codes "a=fmtp: 96 352" ++ line_feed ++ codes "a=fmtp:97"

field-parse_example :
    field Key.key_fmtp (parse description) ≡ first_entry Key.key_fmtp (lines description)
field-parse_example = field-parse Key.key_fmtp description

-- The first of the two formats is kept.
first_fmtp : field Key.key_fmtp (parse description) ≡ some (codes "96 352")
unfolding field parse split trim split_once
first_fmtp = refl

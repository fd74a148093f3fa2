-- ===== src/Sdp.antt =====
-- proto/sdp.rs: the session description.
pub mod First
mod Tests
use shairplay_rust.Base.{
  ℕ, ◌+◌, Bool, true, false, not, ◌&&◌, Option, none, some, List, [], ◌∷◌, ◌++◌, ltb, ◌==◌,
  if◌then◌else◌, bytes_eq,
}
use mathlib.Core.List.{reverse}
use shairplay_rust.Base.Text.{codes, is_empty, trim, split, split_once}

pub record Sdp : Type 0 where
  pub version : Option (List ℕ)
  pub connection : Option (List ℕ)
  pub rtpmap : Option (List ℕ)
  pub fmtp : Option (List ℕ)
  pub rsaaeskey : Option (List ℕ)
  pub fpaeskey : Option (List ℕ)
  pub aesiv : Option (List ℕ)
  pub min_latency : Option (List ℕ)

abbrev pub no_sdp : Sdp
no_sdp = record {
  version = none;
  connection = none;
  rtpmap = none;
  fmtp = none;
  rsaaeskey = none;
  fpaeskey = none;
  aesiv = none;
  min_latency = none;
}

-- The arms of the two matches that set a field.
pub data Key : Type 0 where
  key_version key_connection key_rtpmap key_fmtp key_rsaaeskey key_fpaeskey key_aesiv
        key_min_latency :
      Key

-- The getters.
unfoldable pub field : Key → Sdp → Option (List ℕ)
field key_version s = s.version
field key_connection s = s.connection
field key_rtpmap s = s.rtpmap
field key_fmtp s = s.fmtp
field key_rsaaeskey s = s.rsaaeskey
field key_fpaeskey s = s.fpaeskey
field key_aesiv s = s.aesiv
field key_min_latency s = s.min_latency

-- A field is set where it is none: an arm whose guard fails leaves everything.
abbrev pub or_first : Option (List ℕ) → List ℕ → Option (List ℕ)
or_first none v = some v
or_first (some w) v = some w

pub put : Key → List ℕ → Sdp → Sdp
put key_version v s = record s { version = or_first s.version v }
put key_connection v s = record s { connection = or_first s.connection v }
put key_rtpmap v s = record s { rtpmap = or_first s.rtpmap v }
put key_fmtp v s = record s { fmtp = or_first s.fmtp v }
put key_rsaaeskey v s = record s { rsaaeskey = or_first s.rsaaeskey v }
put key_fpaeskey v s = record s { fpaeskey = or_first s.fpaeskey v }
put key_aesiv v s = record s { aesiv = or_first s.aesiv v }
put key_min_latency v s = record s { min_latency = or_first s.min_latency v }

-- The match on the name of an attribute.
attribute_key : List ℕ → Option Key
attribute_key name =
    if bytes_eq name (codes "rtpmap")
    then some key_rtpmap
    else if bytes_eq name (codes "fmtp")
    then some key_fmtp
    else if bytes_eq name (codes "rsaaeskey")
    then some key_rsaaeskey
    else if bytes_eq name (codes "fpaeskey")
    then some key_fpaeskey
    else if bytes_eq name (codes "aesiv")
    then some key_aesiv
    else if bytes_eq name (codes "min-latency")
    then some key_min_latency
    else none

abbrev with_value : Option Key → List ℕ → Option (Key × List ℕ)
with_value none v = none
with_value (some k) v = if is_empty v then none else some (k, v)

attribute : List ℕ → Option (Key × List ℕ)
unfolding attribute_key
attribute value = elim (split_once (λ c. c == b':') value) [
  | none ↦ none
  | some (name, v) ↦ with_value (attribute_key (trim name)) (trim v)
]

-- What a trimmed line says. The second byte is `=` only behind a character of one byte.
pub line_entry : List ℕ → Option (Key × List ℕ)
unfolding attribute
line_entry [] = none
line_entry (c ∷ []) = none
line_entry (c ∷ d ∷ rest) =
    if not (ltb c 128 && d == b'=')
    then none
    else if c == b'v'
    then with_value (some key_version) (trim rest)
    else if c == b'c'
    then with_value (some key_connection) (trim rest)
    else if c == b'a'
    then attribute (trim rest)
    else none

-- `lines()`: the pieces between the line feeds, without a last one that is empty.
without_last_empty : List (List ℕ) → List (List ℕ)
without_last_empty [] = []
without_last_empty ([] ∷ []) = []
without_last_empty ((c ∷ cs) ∷ []) = (c ∷ cs) ∷ []
without_last_empty (l ∷ m ∷ ls) = l ∷ without_last_empty (m ∷ ls)

pub lines : List ℕ → List (List ℕ)
unfolding without_last_empty
lines input = without_last_empty (split 10 input)

abbrev drop_returns : List ℕ → List ℕ
drop_returns [] = []
drop_returns (c ∷ cs) = if c == 13 then drop_returns cs else c ∷ cs

-- `trim_end_matches('\r').trim()`; a carriage return that ends a line goes with it.
abbrev pub trimmed : List ℕ → List ℕ
trimmed line = trim (reverse (drop_returns (reverse line)))

abbrev pub put_line : Option (Key × List ℕ) → Sdp → Sdp
put_line none s = s
put_line (some (k, v)) s = put k v s

pub take_lines : Sdp → List (List ℕ) → Sdp
unfolding put line_entry
take_lines s [] = s
take_lines s (line ∷ rest) = take_lines (put_line (line_entry (trimmed line)) s) rest

unfoldable pub parse : List ℕ → Sdp
unfolding lines take_lines
parse input = take_lines no_sdp (lines input)

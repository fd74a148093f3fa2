-- ===== src/Http.antt =====
-- proto/http.rs: the incremental parser of RTSP and HTTP requests. A string is its code points.
pub mod Scanning
pub mod Chunks
mod Tests
use shairplay_rust.Base.{
  ℕ, zero, suc, ◌+◌, ◌-◌, ◌*◌, ◌^◌, min, Bool, true, false, not, ◌&&◌, ◌||◌, Option, none, some,
  List, [], ◌∷◌, ◌++◌, length, take, drop, map, ltb, leb, ◌==◌, if◌then◌else◌, bytes_eq, ◌⊎◌, inl,
  inr,
}
use shairplay_rust.Base.Text.{codes, is_ascii_digit, to_ascii_lowercase, parse_unsigned}

abbrev pub max_header_bytes : ℕ
max_header_bytes = 64 * 1024

abbrev pub max_body_bytes : ℕ
max_body_bytes = 32 * 1024 * 1024

-- The messages of `ProtocolError::InvalidRtsp`; `refused` holds one of httparse or of the policy.
pub data HttpError : Type 0 where
  headers_too_long body_exceeds_policy transfer_framing duplicate_metadata : HttpError
  invalid_content_length content_length_overflow body_too_long : HttpError
  refused : List ℕ → HttpError

-- What `httparse::Request::parse` says of the bytes so far: the method, the path and the headers
-- (at most 64) of a whole head, that there is more to come, or its error.
pub data Status : Type 0 where
  whole : Option (List ℕ) → Option (List ℕ) → List (List ℕ × List ℕ) → Status
  partial : Status
  malformed : List ℕ → Status

-- The code that the parser calls: httparse, and the decoding of a header's value as lossy UTF-8.
pub record Library : Type 0 where
  pub parse : List ℕ → Status
  pub from_utf8_lossy : List ℕ → List ℕ

abbrev pub Headers : Type 0
Headers = List (List ℕ × List ℕ)

pub record HttpRequest : Type 0 where
  pub buffer : List ℕ
  pub request_line_start : Option ℕ
  pub method : Option (List ℕ)
  pub url : Option (List ℕ)
  pub headers : Headers
  pub body : Option (List ℕ)
  pub content_length : Option ℕ
  pub headers_complete : Bool
  pub complete : Bool
  pub error : Option HttpError

pub new : HttpRequest
new = record {
  buffer = [];
  request_line_start = none;
  method = none;
  url = none;
  headers = [];
  body = none;
  content_length = none;
  headers_complete = false;
  complete = false;
  error = none;
}

-- The `HashMap` of the headers, by the name in lower case.
unfoldable pub lookup : List ℕ → Headers → Option (List ℕ)
lookup name [] = none
lookup name ((n, v) ∷ hs) = if bytes_eq n name then some v else lookup name hs

pub insert : List ℕ → List ℕ → Headers → Headers
insert name value [] = (name, value) ∷ []
insert name value ((n, v) ∷ hs) =
    let rest = insert name value hs in if bytes_eq n name then (n, value) ∷ hs else (n, v) ∷ rest

unfoldable pub header : List ℕ → HttpRequest → Option (List ℕ)
unfolding lookup
header name r = lookup (map to_ascii_lowercase name) r.headers

abbrev pub ends_with : List ℕ → List ℕ → Bool
ends_with suffix xs =
    leb (length suffix) (length xs) && bytes_eq (drop (length xs - length suffix) xs) suffix

abbrev is_some : {A : Type 0} → Option A → Bool
is_some none = false
is_some (some a) = true

abbrev pub unwrap_or_zero : Option ℕ → ℕ
unwrap_or_zero none = 0
unwrap_or_zero (some n) = n

-- A line up to its first line feed, and what is left from there on.
abbrev first_line : List ℕ → List ℕ × List ℕ
first_line [] = ([], [])
first_line (b ∷ bs) =
    let (line, rest) = first_line bs in if b == 10 then ([], b ∷ bs) else (b ∷ line, rest)

-- `RTSP` becomes `HTTP` in a version that ends the line, up to a carriage return.
normalize_line : List ℕ → List ℕ
normalize_line line =
    let end = length line - (if ends_with (13 ∷ []) line then 1 else 0) in
    let text = take end line in
    if ends_with (codes " RTSP/1.0") text
    then take (end - 8) text ++ codes "HTTP" ++ drop (end - 4) line
    else line

normalize_from : List ℕ → List ℕ
unfolding normalize_line
normalize_from bytes = let (line, rest) = first_line bytes in normalize_line line ++ rest

pub normalize_request_version : HttpRequest → HttpRequest
unfolding normalize_from
normalize_request_version r = elim r.request_line_start [
  | none ↦ r
  | some start ↦ record r { buffer = take start r.buffer ++ normalize_from (drop start r.buffer) }
]

abbrev is_metadata : List ℕ → Bool
is_metadata name = bytes_eq name (codes "content-length") || bytes_eq name (codes "content-type")

-- The headers of a head into the map: the first error, and the map that it leaves.
pub insert_headers : Library → List (List ℕ × List ℕ) → Headers → Option HttpError × Headers
unfolding lookup insert
insert_headers lib [] kept = (none, kept)
insert_headers lib ((n, v) ∷ hs) kept =
    let name = map to_ascii_lowercase n in
    let rest = insert_headers lib hs (insert name (lib.from_utf8_lossy v) kept) in
    if bytes_eq name (codes "transfer-encoding")
    then (some transfer_framing, kept)
    else if is_metadata name && is_some (lookup name kept)
    then (some duplicate_metadata, kept)
    else rest

abbrev all_digits : List ℕ → Bool
all_digits [] = true
all_digits (b ∷ bs) = is_ascii_digit b && all_digits bs

pub data Length : Type 0 where
  given : Option ℕ → Length
  bad : HttpError → Length

-- The number that a value is, in a `usize` of 64 bits.
length_of_value : List ℕ → Length
length_of_value value =
    if length value == 0 || not (all_digits value)
    then bad invalid_content_length
    else elim (parse_unsigned (2 ^ 64) value) [
      | none ↦ bad content_length_overflow
      | some n ↦ if ltb max_body_bytes n then bad body_too_long else given (some n)
    ]

pub parse_content_length : Headers → Length
unfolding lookup length_of_value
parse_content_length headers = elim (lookup (codes "content-length") headers) [
  | none ↦ given none
  | some value ↦ length_of_value value
]

-- What trying to parse the head, or taking a byte of it, comes to.
pub data Tried : Type 0 where
  more : HttpRequest → Tried
  ready : HttpRequest → Tried
  failed : HttpError → HttpRequest → Tried

-- What follows once the headers are in the map.
abbrev pub with_length : HttpRequest → Length → Tried
with_length r (bad e) = failed e r
with_length r (given n) =
    ready (record r { content_length = n; headers_complete = true; buffer = [] })

-- The head that httparse found in the normalized buffer.
pub take_head : Library → HttpRequest → Status → Tried
unfolding insert_headers parse_content_length
take_head lib r partial = more r
take_head lib r (malformed e) = failed (refused e) r
take_head lib r (whole method url hs) =
    let (e, kept) = insert_headers lib hs r.headers in
    let r1 : HttpRequest = record r { method = method; url = url; headers = kept } in
    elim e [ some x ↦ failed x r1 | none ↦ with_length r1 (parse_content_length kept) ]

pub try_parse_headers : Library → HttpRequest → Tried
unfolding normalize_request_version take_head
try_parse_headers lib r =
    let r1 = normalize_request_version r in take_head lib r1 (lib.parse r1.buffer)

-- The limit of the body, from the connection; the error is one that the connection made up.
abbrev pub Policy : Type 0
Policy = HttpRequest → HttpError ⊎ ℕ

abbrev pub within_limit : HttpRequest → HttpError ⊎ ℕ → Tried
within_limit r (inl e) = failed e r
within_limit r (inr limit) =
    if ltb (min limit max_body_bytes) (unwrap_or_zero r.content_length)
    then failed body_exceeds_policy r
    else ready r

abbrev pub checked : Policy → Tried → Tried
checked on_headers (more r) = more r
checked on_headers (failed e r) = failed e r
checked on_headers (ready r) = within_limit r (on_headers r)

-- The request with one more byte of its head.
pub pushed : HttpRequest → ℕ → HttpRequest
pushed r byte =
    let start = length r.buffer in
    let begins = not (is_some r.request_line_start) && not (byte == 13 || byte == 10) in
    record r {
      buffer = r.buffer ++ (byte ∷ []);
      request_line_start = if begins then some start else r.request_line_start;
    }

abbrev pub at_end : HttpRequest → Bool
at_end r =
    is_some r.request_line_start
    && (ends_with (10 ∷ 13 ∷ 10 ∷ []) r.buffer || ends_with (10 ∷ 10 ∷ []) r.buffer)

-- The body of the loop over the bytes of the head.
pub take_byte : Library → Policy → HttpRequest → ℕ → Tried
unfolding try_parse_headers pushed
take_byte lib on_headers r byte =
    let r1 = pushed r byte in
    if length r.buffer == max_header_bytes
    then failed headers_too_long r
    else if at_end r1
    then checked on_headers (try_parse_headers lib r1)
    else more r1

-- Where the loop over the head stops: with the data used up, with an error, or behind the head.
pub data Scan : Type 0 where
  pending : HttpRequest → Scan
  stopped : HttpError → HttpRequest → Scan
  found : HttpRequest → List ℕ → Scan

pub scan : Library → Policy → HttpRequest → List ℕ → Scan
unfolding take_byte
scan lib on_headers r [] = pending r
scan lib on_headers r (byte ∷ rest) = elim (take_byte lib on_headers r byte) [
  | more r1 ↦ scan lib on_headers r1 rest
  | failed e r1 ↦ stopped e r1
  | ready r1 ↦ found r1 rest
]

pub buffer_body_and_leftover : HttpRequest → List ℕ → HttpRequest
buffer_body_and_leftover r input =
    let needed = unwrap_or_zero r.content_length in
    let accepted = min (length input) (needed - length r.buffer) in
    let buffer = r.buffer ++ take accepted input in
    if length buffer == needed
    then record r {
      body = if needed == 0 then r.body else some buffer;
      complete = true;
      buffer = (if needed == 0 then buffer else []) ++ drop accepted input;
    }
    else record r { buffer = buffer }

abbrev pub after_scan : Scan → Option HttpError × HttpRequest
after_scan (pending r) = (none, r)
after_scan (stopped e r) = (some e, r)
after_scan (found r rest) = (none, buffer_body_and_leftover r rest)

pub ingest : Library → Policy → HttpRequest → List ℕ → Option HttpError × HttpRequest
unfolding scan buffer_body_and_leftover
ingest lib on_headers r input =
    if r.complete
    then (none, record r { buffer = r.buffer ++ input })
    else if r.headers_complete
    then (none, buffer_body_and_leftover r input)
    else after_scan (scan lib on_headers r input)

abbrev pub keep_error : Option HttpError × HttpRequest → Option HttpError × HttpRequest
keep_error (none, r) = (none, r)
keep_error (some e, r) = (some e, record r { error = some e })

-- `add_data` is this with the policy that allows `max_body_bytes`.
pub add_data_with_body_limit :
    Library → Policy → HttpRequest → List ℕ → Option HttpError × HttpRequest
unfolding ingest
add_data_with_body_limit lib on_headers r input = elim r.error [
  | some e ↦ (some e, r)
  | none ↦ keep_error (ingest lib on_headers r input)
]

pub add_data : Library → HttpRequest → List ℕ → Option HttpError × HttpRequest
unfolding add_data_with_body_limit
add_data lib r input = add_data_with_body_limit lib (λ r1. inr max_body_bytes) r input

-- The bytes behind the request, and the request without them.
pub take_leftover : HttpRequest → List ℕ × HttpRequest
take_leftover r = if r.complete then (r.buffer, record r { buffer = [] }) else ([], r)

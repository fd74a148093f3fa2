-- ===== src/Rtsp.antt =====
-- raop/rtsp.rs: the dispatch of requests, with the response builder of proto/http.rs.
pub mod Routing
pub mod Password
mod Tests
use shairplay_rust.Base.{
  ℕ, zero, suc, ◌+◌, ◌-◌, ◌*◌, ◌/◌, ◌%◌, ◌^◌, Bool, true, false, not, ◌&&◌, ◌||◌, Option, none,
  some, List, [], ◌∷◌, ◌++◌, length, take, ltb, ◌==◌, if◌then◌else◌, bytes_eq,
}
use shairplay_rust.Base.Text.{
  codes, trim, eq_ignore_ascii_case, parse_digits, parse_unsigned, split_once,
}
use shairplay_rust.Http.{HttpRequest, header}
use shairplay_rust.Digest.{Md5, is_valid}
use Prim.Native.String.{String}

-- The features of the build that the route table depends on.
pub record Features : Type 0 where
  pub ap2 : Bool
  pub hls : Bool

-- The handlers, by their module and name.
pub data Handler : Type 0 where
  ap2_pair_setup ap1_pair_setup ap2_pair_verify ap2_pair_pin_start : Handler
  ap1_pair_verify ap1_fp_setup ap2_feedback ap2_command : Handler
  ap2_audio_mode ap1_options ap1_announce ap1_get_parameter : Handler
  ap1_set_parameter ap2_set_rate_anchor_time ap2_set_peers ap2_flush_buffered : Handler
  ap2_info hls_server_info hls_play hls_playback_info : Handler
  hls_stop hls_scrub hls_rate : Handler
  ap1_setup ap2_setup ap1_record ap2_record teardown auth_setup : Handler

pub record Route : Type 0 where
  pub method : List ℕ
  pub path : List ℕ
  pub handler : Handler

abbrev when : Bool → String → String → Handler → List Route
when true method path handler =
    record { method = codes method; path = codes path; handler = handler } ∷ []
when false method path handler = []

-- The route table, in its order.
pub routes : Features → List Route
routes f =
    (when f.ap2 "POST" "/pair-setup" ap2_pair_setup)
    ++ (when (not f.ap2) "POST" "/pair-setup" ap1_pair_setup)
    ++ (when f.ap2 "POST" "/pair-verify" ap2_pair_verify)
    ++ (when f.ap2 "POST" "/pair-pin-start" ap2_pair_pin_start)
    ++ (when (not f.ap2) "POST" "/pair-verify" ap1_pair_verify)
    ++ (when true "POST" "/fp-setup" ap1_fp_setup)
    ++ (when f.ap2 "POST" "/feedback" ap2_feedback)
    ++ (when f.ap2 "POST" "/command" ap2_command)
    ++ (when f.ap2 "POST" "/audioMode" ap2_audio_mode)
    ++ (when true "OPTIONS" "*" ap1_options)
    ++ (when true "ANNOUNCE" "*" ap1_announce)
    ++ (when true "GET_PARAMETER" "*" ap1_get_parameter)
    ++ (when true "SET_PARAMETER" "*" ap1_set_parameter)
    ++ (when f.ap2 "SETRATEANCHORTIME" "*" ap2_set_rate_anchor_time)
    ++ (when f.ap2 "SETPEERS" "*" ap2_set_peers)
    ++ (when f.ap2 "SETPEERSX" "*" ap2_set_peers)
    ++ (when f.ap2 "FLUSHBUFFERED" "*" ap2_flush_buffered)
    ++ (when f.ap2 "GET" "/info" ap2_info)
    ++ (when f.hls "GET" "/server-info" hls_server_info)
    ++ (when f.hls "POST" "/play" hls_play)
    ++ (when f.hls "GET" "/playback-info" hls_playback_info)
    ++ (when f.hls "POST" "/stop" hls_stop)
    ++ (when f.hls "POST" "/scrub" hls_scrub)
    ++ (when f.hls "POST" "/rate" hls_rate)

-- `url.split('?').next()`
pub path_of : List ℕ → List ℕ
path_of [] = []
path_of (c ∷ cs) = let rest = path_of cs in if c == b'?' then [] else c ∷ rest

pub find_route : List Route → List ℕ → List ℕ → Option Handler
unfolding path_of
find_route [] method url = none
find_route (r ∷ rs) method url =
    let rest = find_route rs method url in
    if bytes_eq r.method method && (bytes_eq r.path (codes "*") || bytes_eq r.path (path_of url))
    then some r.handler
    else rest

pub data RouteResolution : Type 0 where
  no_body : RouteResolution
  handled : Handler → RouteResolution

-- A response as it is built: the bytes so far, and the flags.
pub record HttpResponse : Type 0 where
  pub bytes : List ℕ
  pub complete : Bool
  pub disconnect : Bool
  pub code : ℕ

abbrev crlf : List ℕ
crlf = 13 ∷ 10 ∷ []

-- The decimal digits of a number; its number of digits is at most the number plus one.
decimal_from : ℕ → ℕ → List ℕ → List ℕ
decimal_from zero n digits = digits
decimal_from (suc fuel) n digits =
    let rest = decimal_from fuel (n / 10) ((b'0' + n % 10) ∷ digits) in
    if ltb n 10 then (b'0' + n) ∷ digits else rest

pub decimal : ℕ → List ℕ
unfolding decimal_from
decimal n = decimal_from (suc n) n []

pub start_response : List ℕ → ℕ → List ℕ → HttpResponse
unfolding decimal
start_response protocol code message = record {
  bytes = protocol ++ (b' ' ∷ decimal code) ++ (b' ' ∷ message) ++ crlf;
  complete = false;
  disconnect = false;
  code = code;
}

pub add_header : List ℕ → List ℕ → HttpResponse → HttpResponse
add_header name value r = record r { bytes = r.bytes ++ name ++ codes ": " ++ value ++ crlf }

abbrev body_of : Option (List ℕ) → List ℕ
body_of none = []
body_of (some body) = body

pub finish : Option (List ℕ) → HttpResponse → HttpResponse
unfolding decimal
finish body r =
    let b = body_of body in
    let tail =
      if length b == 0
      then crlf
      else codes "Content-Length: " ++ decimal (length b) ++ crlf ++ crlf ++ b in
    record r { bytes = r.bytes ++ tail; complete = true }

pub set_disconnect : Bool → HttpResponse → HttpResponse
set_disconnect flag r = record r { disconnect = flag }

pub new_response : ℕ → List ℕ → List ℕ → HttpResponse
unfolding start_response add_header
new_response status message cseq =
    add_header (codes "Server") (codes "AirTunes/105.1")
      (add_header (codes "CSeq") cseq (start_response (codes "RTSP/1.0") status message))

abbrev pub digest_realm : List ℕ
digest_realm = codes "airplay"

-- What the dispatch uses of the connection, whose state is `S`, and of its other parts: the settings,
-- the MD5 hash, the RSA signature of a challenge, the
-- handlers of the other modules, and the audio streams.
pub record Connection (S : Type 0) : Type 0 where
  pub is_ap2 : S → Bool
  pub auth_setup_compat : S → Bool
  pub password : S → List ℕ
  pub nonce : S → List ℕ
  pub md5 : Md5
  pub sign_challenge : S → List ℕ → Option (List ℕ)
  pub run : Handler → HttpRequest → S → HttpResponse → Option (List ℕ) × S × HttpResponse
  pub flush_rtp : ℕ → S → S
  pub stop_streams : S → S

-- The piece before a `,` or a `;`, and what is behind it.
next_token : List ℕ → List ℕ × Option (List ℕ)
next_token [] = ([], none)
next_token (c ∷ cs) =
    let (token, rest) = next_token cs in
    if c == b',' || c == b';' then ([], some cs) else (c ∷ token, rest)

-- `parse::<i32>()` of a number that is not negative; `-0` is one.
parse_seq : List ℕ → Option ℕ
parse_seq [] = none
parse_seq (c ∷ []) = parse_unsigned (2 ^ 31) (c ∷ [])
parse_seq (c ∷ d ∷ cs) =
    if c == b'-' then parse_digits 1 0 (d ∷ cs) else parse_unsigned (2 ^ 31) (c ∷ d ∷ cs)

abbrev or_else : Option (Option ℕ) → Option ℕ → Option ℕ
or_else none next = next
or_else (some answer) next = answer

-- What a token says, if its key is `seq`.
token_seq : List ℕ → Option (Option ℕ)
unfolding parse_seq
token_seq token = elim (split_once (λ c. c == b'=') (trim token)) [
  | none ↦ none
  | some (key, value) ↦
      if eq_ignore_ascii_case key (codes "seq") then some (parse_seq (trim value)) else none
]

-- The loop over the tokens; each takes a character at least, or is the last.
rtp_info_loop : ℕ → List ℕ → Option ℕ
unfolding next_token token_seq
rtp_info_loop zero info = none
rtp_info_loop (suc fuel) info =
    let (token, rest) = next_token info in
    or_else (token_seq token) (elim rest [ none ↦ none | some more ↦ rtp_info_loop fuel more ])

pub parse_rtp_info_seq : List ℕ → Option ℕ
unfolding rtp_info_loop
parse_rtp_info_seq info = rtp_info_loop (suc (length info)) info

abbrev pub or_empty : Option (List ℕ) → List ℕ → List ℕ
or_empty none default = default
or_empty (some s) default = s

abbrev is_text : Option (List ℕ) → List ℕ → Bool
is_text none s = false
is_text (some t) s = bytes_eq t s

-- `d.starts_with(b"bplist")` of the body, if there is one.
abbrev is_plist : Option (List ℕ) → Bool
is_plist none = false
is_plist (some body) = bytes_eq (take 6 body) (codes "bplist")

module _ {S : Type 0} (f : Features) (k : Connection S) where
  resolve_setup : S → HttpRequest → Handler
  resolve_setup s request =
      if f.ap2 && (k.is_ap2 s || is_plist request.body) then ap2_setup else ap1_setup

  resolve_record : S → Handler
  resolve_record s = if f.ap2 && k.is_ap2 s then ap2_record else ap1_record

  handle_flush_inline : HttpRequest → S → S
  unfolding parse_rtp_info_seq
  handle_flush_inline request s = elim (header (codes "RTP-Info") request) [
    | none ↦ s
    | some info ↦ elim (parse_rtp_info_seq info) [ none ↦ s | some seq ↦ k.flush_rtp seq s ]
  ]

  is_auth_setup : S → HttpRequest → Bool
  is_auth_setup s request =
      k.auth_setup_compat s
      && not (f.ap2 && k.is_ap2 s)
      && is_text request.method (codes "POST")
      && is_text request.url (codes "/auth-setup")

  -- The methods with a routing of their own.
  resolve_special : HttpRequest → List ℕ → S → Option RouteResolution × S
  unfolding resolve_setup resolve_record handle_flush_inline
  resolve_special request method s =
      if bytes_eq method (codes "SETUP")
      then (some (handled (resolve_setup s request)), s)
      else if bytes_eq method (codes "RECORD")
      then (some (handled (resolve_record s)), s)
      else if bytes_eq method (codes "FLUSH")
      then (some no_body, handle_flush_inline request s)
      else if bytes_eq method (codes "TEARDOWN")
      then (some (handled teardown), s)
      else (none, s)

  pub resolve_handler : HttpRequest → List ℕ → List ℕ → S → Option RouteResolution × S
  unfolding is_auth_setup routes find_route resolve_special
  resolve_handler request method url s =
      if is_auth_setup s request
      then (some (handled auth_setup), s)
      else elim (find_route (routes f) method url) [
        | some h ↦ (some (handled h), s)
        | none ↦ resolve_special request method s
      ]

  -- A handler: that of TEARDOWN is here, the others are the connection's.
  pub handle : Handler → HttpRequest → S → HttpResponse → Option (List ℕ) × S × HttpResponse
  unfolding add_header set_disconnect
  handle teardown request s r = (
    none,
    k.stop_streams s,
    set_disconnect true (add_header (codes "Connection") (codes "close") r),
  )
  handle h request s r = k.run h request s r

  add_challenge : HttpRequest → S → HttpResponse → HttpResponse
  unfolding add_header
  add_challenge request s r = elim (header (codes "Apple-Challenge") request) [
    | none ↦ r
    | some challenge ↦ elim (k.sign_challenge s challenge) [
      | none ↦ r
      | some sig ↦ add_header (codes "Apple-Response") sig r
    ]
  ]

  pub is_authorized : HttpRequest → List ℕ → List ℕ → S → Bool
  is_authorized request method url s =
      bytes_eq method (codes "OPTIONS")
      || length (k.password s) == 0
      || is_valid k.md5 digest_realm (k.password s) (k.nonce s) method url
          (header (codes "Authorization") request)

  pub unauthorized : List ℕ → S → HttpResponse
  unfolding new_response add_header finish
  unauthorized cseq s = finish none (
      add_header (codes "WWW-Authenticate")
        (codes "Digest realm=\"" ++ digest_realm ++ codes "\", nonce=\"" ++ k.nonce s ++ codes "\"")
        (new_response 401 (codes "Unauthorized") cseq))

  pub not_found : List ℕ → HttpResponse
  unfolding new_response finish
  not_found cseq = finish none (new_response 404 (codes "Not Found") cseq)

  pub answer_with :
      HttpRequest → List ℕ → HttpResponse → Option RouteResolution × S → HttpResponse × S
  unfolding handle finish not_found
  answer_with request cseq r (none, s) = (not_found cseq, s)
  answer_with request cseq r (some no_body, s) = (finish none r, s)
  answer_with request cseq r (some (handled h), s) =
      let (body, s1, r1) = handle h request s r in (finish body r1, s1)

  pub dispatch : HttpRequest → S → HttpResponse × S
  unfolding new_response add_challenge is_authorized unauthorized resolve_handler answer_with
  dispatch request s =
      let method = or_empty request.method [] in
      let url = or_empty request.url [] in
      let cseq = or_empty (header (codes "CSeq") request) (codes "0") in
      let response =
        add_header (codes "Apple-Jack-Status") (codes "connected; type=analog")
          (new_response 200 (codes "OK") cseq) in
      if not (is_authorized request method url s)
      then (unauthorized cseq s, s)
      else answer_with request cseq (add_challenge request s response)
          (resolve_handler request method url s)

-- ===== src/Rtsp/Tests.antt =====
-- raop/rtsp.rs, examples: a connection with a password whose state is a number, and a request for `/info`.
use shairplay_rust.Base.{
  ℕ, ◌+◌, ◌%◌, ◌<◌, true, false, none, some, List, [], ◌∷◌, All, ◌≡◌, ◌⊎◌, refl, arith,
}
use shairplay_rust.Base.Words.{IsByte}
use shairplay_rust.Digest.{Md5, get_response}
use shairplay_rust.Digest.Complete.{digest_header}
use shairplay_rust.Base.Text.{codes, to_ascii_lowercase}
use shairplay_rust.Http.{HttpRequest, header, lookup}
use shairplay_rust.Rtsp.{Features, Connection, dispatch}
use shairplay_rust.Rtsp.Password.{
  without_password, Responds, dispatch-get_response, dispatch-digest_header,
}

abbrev all_features : Features
all_features = record { ap2 = true; hls = true }

abbrev sum_of : List ℕ → ℕ
sum_of [] = 0
sum_of (b ∷ bs) = b + sum_of bs

-- A checksum of one byte in the place of MD5.
abbrev checksum : Md5
checksum s = sum_of s % 256 ∷ []

checksum-IsByte : (s : List ℕ) → All IsByte (checksum s)
checksum-IsByte s = (below (sum_of s), tt)
  where
    below : (n : ℕ) → n % 256 < 256
    below n = omega arith

abbrev toy : Connection ℕ
toy = record {
  is_ap2 = λ s. false;
  auth_setup_compat = λ s. false;
  password = λ s. codes "secret";
  nonce = λ s. codes "0011";
  md5 = checksum;
  sign_challenge = λ s challenge. none;
  run = λ h request s r. (none, s, r);
  flush_rtp = λ seq s. seq;
  stop_streams = λ s. 0;
}

abbrev info_request : HttpRequest
info_request = record {
  buffer = [];
  request_line_start = some 0;
  method = some (codes "GET");
  url = some (codes "/info?txt");
  headers = [];
  body = none;
  content_length = none;
  headers_complete = true;
  complete = true;
  error = none;
}

abbrev authorized_request : HttpRequest
authorized_request = record info_request {
  headers =
      (
        codes "authorization",
        digest_header (codes "me") (codes "airplay") (codes "0011") (codes "/info?txt") (
            get_response checksum (codes "me") (codes "airplay") (codes "secret") (codes "0011")
              (codes "GET") (codes "/info?txt")),
      )
      ∷ [];
}

dispatch-get_response_example :
    (Responds all_features toy authorized_request 3
      × (dispatch all_features toy authorized_request 3
          ≡ dispatch all_features (without_password toy) authorized_request 3))
    ⊎ (((dispatch all_features toy authorized_request 3).1 ≡ 3)
        × ((dispatch all_features toy authorized_request 3).0.code ≡ 401)
        × ((dispatch all_features toy authorized_request 3).0.disconnect ≡ false))
dispatch-get_response_example =
    dispatch-get_response all_features toy authorized_request 3 refl refl

found :
    header (codes "Authorization") authorized_request
    ≡ some (
        digest_header (codes "me") (codes "airplay") (codes "0011") (codes "/info?txt") (
          get_response checksum
            (codes "me")
            (codes "airplay")
            (codes "secret")
            (codes "0011")
            (codes "GET")
            (codes "/info?txt")))
unfolding header lookup to_ascii_lowercase
found = refl

dispatch-digest_header_example :
    dispatch all_features toy authorized_request 3
    ≡ dispatch all_features (without_password toy) authorized_request 3
dispatch-digest_header_example =
    dispatch-digest_header all_features toy authorized_request 3 (codes "me") checksum-IsByte
      (refl, (refl, tt)) (refl, (refl, (refl, (refl, tt))))
      (refl, (refl, (refl, (refl, (refl, (refl, (refl, (refl, (refl, tt))))))))) found

-- ===== src/Http/Tests.antt =====
-- proto/http.rs: examples, with a stand-in for httparse that finds a head with a body of two bytes
-- in anything.
use shairplay_rust.Base.{ℕ, some, List, [], ◌∷◌, ◌++◌, ◌≡◌, refl, inr}
use shairplay_rust.Base.Text.{codes}
use shairplay_rust.Http.{Library, Policy, new, whole, add_data_with_body_limit}
use shairplay_rust.Http.Chunks.{IsRequest, add_data-append, add_data-IsRequest}

abbrev toy : Library
toy = record {
  parse = λ bytes.
      whole (some (codes "POST")) (some (codes "/feedback"))
        ((codes "Content-Length", codes "2") ∷ []);
  from_utf8_lossy = λ bytes. bytes;
}

abbrev allow_ten : Policy
allow_ten r = inr 10

new-IsRequest : IsRequest new
unfolding new
new-IsRequest e = record { flags = λ h. refl; fits = λ h k. absurd (cc) }

-- The head and one byte of the body, and then the rest and a byte of the next request.
abbrev first_piece : List ℕ
first_piece = codes "POST /feedback RTSP/1.0" ++ (10 ∷ 10 ∷ 5 ∷ [])

abbrev second_piece : List ℕ
second_piece = 6 ∷ 7 ∷ []

add_data-append_example :
    add_data_with_body_limit toy allow_ten new (first_piece ++ second_piece)
    ≡ add_data_with_body_limit toy allow_ten
        (add_data_with_body_limit toy allow_ten new first_piece).1
        second_piece
add_data-append_example = add_data-append toy allow_ten new first_piece second_piece new-IsRequest

add_data-IsRequest_example : IsRequest (add_data_with_body_limit toy allow_ten new first_piece).1
add_data-IsRequest_example = add_data-IsRequest toy allow_ten new first_piece new-IsRequest

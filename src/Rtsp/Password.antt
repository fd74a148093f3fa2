-- ===== src/Rtsp/Password.antt =====
-- raop/rtsp.rs with proto/digest.rs: the dispatch on a connection that has a password.
use shairplay_rust.Base.{
  ℕ, Bool, true, false, Option, none, some, List, [], ◌==◌, ◌≡◌, refl, sym, ◌∙◌, ap, ◌||◌, length,
  All, Bool-cases, inl, inr, ◌⊎◌, bytes_eq,
}
use mathlib.Core.Bool.{false≢true}
use shairplay_rust.Base.Text.{codes, as_bytes}
use shairplay_rust.Base.Words.{IsByte}
use shairplay_rust.Http.{HttpRequest, header}
use shairplay_rust.Digest.{
  get_response, is_valid, digest_params, values, take_parts, no_fields, split_quoted_csv,
}
use shairplay_rust.Digest.Sound.{is_valid-none, is_valid-get_response}
use shairplay_rust.Digest.Complete.{NoQuote, digest_header, is_valid-digest_header}
use shairplay_rust.Rtsp.{
  Features, HttpResponse, Connection, digest_realm, new_response, add_header, add_challenge,
  answer_with, handle, resolve_handler, resolve_special, resolve_setup, resolve_record,
  handle_flush_inline, is_auth_setup, is_authorized, dispatch, or_empty,
}
use shairplay_rust.Rtsp.Routing.{dispatch-is_authorized}

module _ {S : Type 0} (f : Features) (k : Connection S) where
  -- The `Authorization` header of the request, taken apart, holds the realm, the nonce, the URL and the
  -- response that the password gives for the user name that stands in it.
  abbrev pub Responds : HttpRequest → S → Type 0
  Responds request s =
      (authorization : List ℕ) × (header (codes "Authorization") request ≡ some authorization)
      × ((params : List ℕ) × (username : List ℕ) × (response : List ℕ) × (digest_params
              authorization
            ≡ some params)
          × (values (take_parts no_fields (split_quoted_csv params))
              ≡ some (username, digest_realm, k.nonce s, or_empty request.url [], response))
          × (as_bytes response
              ≡ get_response k.md5 username digest_realm (k.password s) (k.nonce s)
                  (or_empty request.method []) (or_empty request.url [])))

  found-Responds :
      (request : HttpRequest) (s : S) (o : Option (List ℕ))
      → header (codes "Authorization") request ≡ o
      → is_valid k.md5 digest_realm
          (k.password s)
          (k.nonce s)
          (or_empty request.method [])
          (or_empty request.url [])
          o
        ≡ true
      → Responds request s
  found-Responds request s none e h = absurd (
      false≢true (
        sym (
          is_valid-none k.md5 digest_realm (k.password s) (k.nonce s) (or_empty request.method [])
            (or_empty request.url []))
        ∙ h))
  found-Responds request s (some authorization) e h = (
    authorization,
    e,
    is_valid-get_response k.md5 digest_realm (k.password s) (k.nonce s) (or_empty request.method [])
        (or_empty request.url []) authorization h,
  )

  is_authorized-is_valid :
      (request : HttpRequest) (method url : List ℕ) (s : S)
      → bytes_eq method (codes "OPTIONS") ≡ false
      → (length (k.password s) == 0) ≡ false
      → is_authorized f k request method url s
        ≡ is_valid k.md5 digest_realm
            (k.password s)
            (k.nonce s)
            method
            url
            (header (codes "Authorization") request)
  unfolding is_authorized
  is_authorized-is_valid request method url s hm hp = rw (hm, hp, is_authorized) refl

  -- The answer to a request that is authorized.
  served : HttpRequest → S → HttpResponse × S
  served request s =
      let cseq = or_empty (header (codes "CSeq") request) (codes "0") in
      answer_with f k request cseq
        (add_challenge f k request s (
          add_header (codes "Apple-Jack-Status") (codes "connected; type=analog")
            (new_response 200 (codes "OK") cseq)))
        (resolve_handler f k request (or_empty request.method []) (or_empty request.url []) s)

  dispatch-served :
      (request : HttpRequest) (s : S)
      → is_authorized f k request (or_empty request.method []) (or_empty request.url []) s ≡ true
      → dispatch f k request s ≡ served request s
  unfolding dispatch served
  dispatch-served request s h = rw h refl

or-last : (a b c : Bool) → c ≡ true → (a || b || c) ≡ true
or-last true b c h = refl
or-last false true c h = refl
or-last false false c h = h

airplay-NoQuote : NoQuote digest_realm
airplay-NoQuote = (refl, (refl, (refl, (refl, (refl, (refl, (refl, tt)))))))

abbrev pub without_password : {S : Type 0} → Connection S → Connection S
without_password k = record k { password = λ t. [] }

module _ {S : Type 0} (f : Features) (k : Connection S) where
  served-without_password :
      (request : HttpRequest) (s : S)
      → served f (without_password k) request s ≡ served f k request s
  unfolding served answer_with handle add_challenge resolve_handler is_auth_setup resolve_special
      resolve_setup resolve_record handle_flush_inline
  served-without_password request s = refl

  authorized-is_valid :
      (request : HttpRequest) (method url : List ℕ) (s : S)
      → is_valid k.md5 digest_realm
          (k.password s)
          (k.nonce s)
          method
          url
          (header (codes "Authorization") request)
        ≡ true
      → is_authorized f k request method url s ≡ true
  unfolding is_authorized
  authorized-is_valid request method url s h =
      or-last (bytes_eq method (codes "OPTIONS")) (length (k.password s) == 0) _ h

  is_authorized-without_password :
      (request : HttpRequest) (method url : List ℕ) (s : S)
      → is_authorized f (without_password k) request method url s ≡ true
  unfolding is_authorized
  is_authorized-without_password request method url s =
      elim (Bool-cases (bytes_eq method (codes "OPTIONS"))) [
        | inl e ↦ rw (e, is_authorized) refl
        | inr e ↦ rw (e, is_authorized) refl
      ]

  dispatch-authorized :
      (request : HttpRequest) (s : S)
      → is_authorized f k request (or_empty request.method []) (or_empty request.url []) s ≡ true
      → dispatch f k request s ≡ dispatch f (without_password k) request s
  dispatch-authorized request s h =
      dispatch-served f k request s h
      ∙ sym (served-without_password request s)
      ∙ sym (
          dispatch-served f (without_password k) request s (
            is_authorized-without_password request (or_empty request.method [])
              (or_empty request.url []) s))

  -- A connection with a password answers a request other than OPTIONS in one of two ways: with a 401 that
  -- changes nothing and does not close it, or as it would without a password, and then the
  -- `Authorization` header of the request, taken apart, has the realm, the connection's nonce, the URL of
  -- the request, and the response that the password gives for the user name, the method and the URL.
  pub dispatch-get_response :
      (request : HttpRequest) (s : S)
      → bytes_eq (or_empty request.method []) (codes "OPTIONS") ≡ false
      → (length (k.password s) == 0) ≡ false
      → let (response, s1) = dispatch f k request s in
        (Responds f k request s
          × (dispatch f k request s ≡ dispatch f (without_password k) request s))
        ⊎ ((s1 ≡ s) × (response.code ≡ 401) × (response.disconnect ≡ false))
  dispatch-get_response request s hm hp = elim (dispatch-is_authorized f k request s) [
    | inl e ↦ inl (
      found-Responds f k request s (header (codes "Authorization") request) refl (
          sym (
            is_authorized-is_valid f k request (or_empty request.method [])
              (or_empty request.url []) s hm hp)
          ∙ e),
      dispatch-authorized request s e,
    )
    | inr e ↦ inr e
  ]

  -- The hash is a list of bytes, and the user name, the nonce and the URL are free of quotation marks. A
  -- request with the header that carries them and the response computed from the password is dispatched as
  -- on a connection without a password.
  pub dispatch-digest_header :
      (request : HttpRequest) (s : S) (username : List ℕ)
      → ((input : List ℕ) → All IsByte (k.md5 input))
      → NoQuote username
      → NoQuote (k.nonce s)
      → NoQuote (or_empty request.url [])
      → header (codes "Authorization") request
        ≡ some (
            digest_header username digest_realm (k.nonce s) (or_empty request.url []) (
              get_response k.md5 username digest_realm
                (k.password s)
                (k.nonce s)
                (or_empty request.method [])
                (or_empty request.url [])))
      → dispatch f k request s ≡ dispatch f (without_password k) request s
  dispatch-digest_header request s username bytes hu hn hi e =
      dispatch-authorized request s authorized
    where
      method : List ℕ
      method = or_empty request.method []

      url : List ℕ
      url = or_empty request.url []

      authorized : is_authorized f k request method url s ≡ true
      authorized = authorized-is_valid request method url s (
          ap (is_valid k.md5 digest_realm (k.password s) (k.nonce s) method url) e
          ∙ is_valid-digest_header k.md5 bytes username digest_realm (k.password s) (k.nonce s)
              method url hu airplay-NoQuote hn hi)

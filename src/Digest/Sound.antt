-- ===== src/Digest/Sound.antt =====
-- proto/digest.rs: what an accepted `Authorization` header holds.
use shairplay_rust.Base.{
  ℕ, true, false, Option, none, some, List, ◌&&◌, ◌≡◌, refl, &&-cases, bytes_eq, bytes_eq→≡,
}
use mathlib.Core.Bool.{false≢true}
use shairplay_rust.Base.Text.{as_bytes}
use shairplay_rust.Digest.{
  Md5, get_response, is_valid, digest_params, check_values, check_params, values, take_parts,
  no_fields, split_quoted_csv,
}

pub is_valid-none :
    (md5 : Md5) (realm password nonce method uri : List ℕ)
    → is_valid md5 realm password nonce method uri none ≡ false
unfolding is_valid
is_valid-none md5 realm password nonce method uri = refl

-- The values that pass the checks.
check_values-get_response :
    (md5 : Md5) (realm password nonce method uri u r n i p : List ℕ)
    → check_values md5 realm password nonce method uri (some (u, r, n, i, p)) ≡ true
    → (r ≡ realm)
      × (n ≡ nonce)
      × (i ≡ uri)
      × (as_bytes p ≡ get_response md5 u realm password nonce method uri)
unfolding check_values
check_values-get_response md5 realm password nonce method uri u r n i p h =
    let answer = bytes_eq (as_bytes p) (get_response md5 u realm password nonce method uri) in
    let c1 = &&-cases (bytes_eq r realm) (bytes_eq n nonce && (bytes_eq i uri && answer)) h in
    let c2 = &&-cases (bytes_eq n nonce) (bytes_eq i uri && answer) c1.1 in
    let c3 = &&-cases (bytes_eq i uri) answer c2.1 in
    (
      bytes_eq→≡ r realm c1.0,
      bytes_eq→≡ n nonce c2.0,
      bytes_eq→≡ i uri c3.0,
      bytes_eq→≡ (as_bytes p) (get_response md5 u realm password nonce method uri) c3.1,
    )

check_values-Accepted :
    (md5 : Md5) (realm password nonce method uri : List ℕ)
    (found : Option (List ℕ × List ℕ × List ℕ × List ℕ × List ℕ))
    → check_values md5 realm password nonce method uri found ≡ true
    → (username : List ℕ) × (response : List ℕ) × (found
        ≡ some (username, realm, nonce, uri, response))
      × (as_bytes response ≡ get_response md5 username realm password nonce method uri)
unfolding check_values
check_values-Accepted md5 realm password nonce method uri none h = absurd (false≢true h)
check_values-Accepted md5 realm password nonce method uri (some (u, r, n, i, p)) h =
    let c = check_values-get_response md5 realm password nonce method uri u r n i p h in
    let (e1, e2, e3, e4) = c in (u, p, cc, e4)

check_params-Accepted :
    (md5 : Md5) (realm password nonce method uri : List ℕ) (found : Option (List ℕ))
    → check_params md5 realm password nonce method uri found ≡ true
    → (params : List ℕ) × (username : List ℕ) × (response : List ℕ) × (found ≡ some params)
      × (values (take_parts no_fields (split_quoted_csv params))
          ≡ some (username, realm, nonce, uri, response))
      × (as_bytes response ≡ get_response md5 username realm password nonce method uri)
unfolding check_params
check_params-Accepted md5 realm password nonce method uri none h = absurd (false≢true h)
check_params-Accepted md5 realm password nonce method uri (some params) h =
    let c =
      check_values-Accepted md5 realm password nonce method uri
        (values (take_parts no_fields (split_quoted_csv params))) h in
    (params, c.0, c.1, refl, c.2, c.3)

-- A header that is accepted has the `Digest` scheme; its parameters hold a user name and a response, and the
-- realm, nonce and URI that are checked against; and the response is the one that the password gives.
pub is_valid-get_response :
    (md5 : Md5) (realm password nonce method uri authorization : List ℕ)
    → is_valid md5 realm password nonce method uri (some authorization) ≡ true
    → (params : List ℕ) × (username : List ℕ) × (response : List ℕ) × (digest_params authorization
        ≡ some params)
      × (values (take_parts no_fields (split_quoted_csv params))
          ≡ some (username, realm, nonce, uri, response))
      × (as_bytes response ≡ get_response md5 username realm password nonce method uri)
unfolding is_valid
is_valid-get_response md5 realm password nonce method uri authorization h =
    check_params-Accepted md5 realm password nonce method uri (digest_params authorization) h

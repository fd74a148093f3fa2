-- ===== src/Digest.antt =====
-- proto/digest.rs: the digest authentication of a request. MD5 is the `md5` crate's.
pub mod Sound
pub mod Complete
mod Tests
use shairplay_rust.Base.{
  ℕ, zero, suc, ◌+◌, ◌-◌, ◌/◌, ◌%◌, min, Bool, true, false, not, ◌&&◌, Option, none, some, List, [],
  ◌∷◌, ◌++◌, length, take, ltb, ◌==◌, if◌then◌else◌, bytes_eq,
}
use mathlib.Core.List.{reverse}
use shairplay_rust.Base.Text.{
  codes, is_empty, is_whitespace, trim, trim_start, eq_ignore_ascii_case, split_once, as_bytes,
}

-- The 16 bytes of a hash.
abbrev pub Md5 : Type 0
Md5 = List ℕ → List ℕ

abbrev hex_digit : ℕ → ℕ
hex_digit n = if ltb n 10 then b'0' + n else b'a' + (n - 10)

-- `{b:02x}` of each byte.
pub md5_to_hex : List ℕ → List ℕ
md5_to_hex [] = []
md5_to_hex (b ∷ bs) = hex_digit (b / 16) ∷ hex_digit (b % 16) ∷ md5_to_hex bs

abbrev colon : List ℕ
colon = b':' ∷ []

pub get_response : Md5 → List ℕ → List ℕ → List ℕ → List ℕ → List ℕ → List ℕ → List ℕ
unfolding md5_to_hex
get_response md5 username realm password nonce method uri =
    let ha1 =
      md5_to_hex
        (md5 (as_bytes username ++ colon ++ as_bytes realm ++ colon ++ as_bytes password)) in
    let ha2 = md5_to_hex (md5 (as_bytes method ++ colon ++ as_bytes uri)) in
    md5_to_hex (md5 (ha1 ++ colon ++ as_bytes nonce ++ colon ++ ha2))

-- The sixteen bytes are the random generator's.
pub generate_nonce : Md5 → List ℕ → ℕ → List ℕ
unfolding md5_to_hex
generate_nonce md5 random len = take (min len 32) (md5_to_hex (md5 random))

-- The rest of a value behind its opening quote, without the closing one.
close_quote : List ℕ → Option (List ℕ)
close_quote [] = none
close_quote (d ∷ ds) = if d == b'"' then some (reverse ds) else none

unquote : List ℕ → Option (List ℕ)
unfolding close_quote
unquote [] = none
unquote (c ∷ cs) = if c == b'"' then close_quote (reverse cs) else none

pub extract_quoted : List ℕ → List ℕ → Option (List ℕ)
unfolding unquote
extract_quoted part key = elim (split_once (λ c. c == b'=') part) [
  | none ↦ none
  | some (lhs, rhs) ↦ if eq_ignore_ascii_case (trim lhs) key then unquote (trim rhs) else none
]

pub csv_from : Bool → List ℕ → List ℕ → List (List ℕ)
csv_from in_quotes piece [] = piece ∷ []
csv_from in_quotes piece (c ∷ cs) = elim (c == b',' && not in_quotes) [
  | true ↦ piece ∷ csv_from in_quotes [] cs
  | false ↦ csv_from (if c == b'"' then not in_quotes else in_quotes) (piece ++ (c ∷ [])) cs
]

pub split_quoted_csv : List ℕ → List (List ℕ)
unfolding csv_from
split_quoted_csv input = csv_from false [] input

-- The variables of the loop over the parts.
pub record Fields : Type 0 where
  pub username : Option (List ℕ)
  pub realm : Option (List ℕ)
  pub nonce : Option (List ℕ)
  pub uri : Option (List ℕ)
  pub response : Option (List ℕ)

abbrev pub no_fields : Fields
no_fields = record { username = none; realm = none; nonce = none; uri = none; response = none }

-- `if let Some(val) = found { .. } else { .. }`
abbrev pub if_some : Option (List ℕ) → (List ℕ → Fields) → Fields → Fields
if_some (some v) then_do or_else = then_do v
if_some none then_do or_else = or_else

-- The first key that the part has a value for.
pub take_part : Fields → List ℕ → Fields
unfolding extract_quoted
take_part f part =
    if_some (extract_quoted part (codes "username")) (λ v. record f { username = some v })
      (if_some (extract_quoted part (codes "realm")) (λ v. record f { realm = some v })
        (if_some (extract_quoted part (codes "nonce")) (λ v. record f { nonce = some v })
          (if_some (extract_quoted part (codes "uri")) (λ v. record f { uri = some v })
            (if_some (extract_quoted part (codes "response")) (λ v. record f { response = some v })
              f))))

pub take_parts : Fields → List (List ℕ) → Fields
unfolding take_part
take_parts f [] = f
take_parts f (part ∷ parts) = take_parts (take_part f (trim part)) parts

-- The values, if all five are there.
abbrev pub all_fields :
    Option (List ℕ)
    → Option (List ℕ)
    → Option (List ℕ)
    → Option (List ℕ)
    → Option (List ℕ)
    → Option (List ℕ × List ℕ × List ℕ × List ℕ × List ℕ)
all_fields (some u) (some r) (some n) (some i) (some p) = some (u, r, n, i, p)
all_fields (some u) (some r) (some n) (some i) none = none
all_fields (some u) (some r) (some n) none p = none
all_fields (some u) (some r) none i p = none
all_fields (some u) none n i p = none
all_fields none r n i p = none

abbrev pub values : Fields → Option (List ℕ × List ℕ × List ℕ × List ℕ × List ℕ)
values f = all_fields f.username f.realm f.nonce f.uri f.response

-- The parameters behind the `Digest` scheme.
pub scheme_params : Option (List ℕ × List ℕ) → Option (List ℕ)
scheme_params none = none
scheme_params (some (scheme, params)) =
    if eq_ignore_ascii_case scheme (codes "Digest") && not (is_empty (trim_start params))
    then some (trim_start params)
    else none

pub digest_params : List ℕ → Option (List ℕ)
unfolding scheme_params
digest_params authorization = scheme_params (split_once is_whitespace (trim authorization))

-- What follows the parsing of the parameters.
pub check_values :
    Md5
    → List ℕ
    → List ℕ
    → List ℕ
    → List ℕ
    → List ℕ
    → Option (List ℕ × List ℕ × List ℕ × List ℕ × List ℕ)
    → Bool
unfolding get_response
check_values md5 realm password nonce method uri none = false
check_values md5 realm password nonce method uri (some (u, r, n, i, p)) =
    bytes_eq r realm
    && (bytes_eq n nonce
        && (bytes_eq i uri
            && bytes_eq (as_bytes p) (get_response md5 u realm password nonce method uri)))

-- What follows the parsing of the scheme.
pub check_params : Md5 → List ℕ → List ℕ → List ℕ → List ℕ → List ℕ → Option (List ℕ) → Bool
unfolding split_quoted_csv take_parts check_values
check_params md5 realm password nonce method uri none = false
check_params md5 realm password nonce method uri (some params) =
    check_values md5 realm password nonce method uri
      (values (take_parts no_fields (split_quoted_csv params)))

pub is_valid : Md5 → List ℕ → List ℕ → List ℕ → List ℕ → List ℕ → Option (List ℕ) → Bool
unfolding digest_params check_params
is_valid md5 realm password nonce method uri none = false
is_valid md5 realm password nonce method uri (some authorization) =
    check_params md5 realm password nonce method uri (digest_params authorization)

-- ===== src/Digest/Complete.antt =====
-- proto/digest.rs: the header that a client sends, and how its parameters are parsed.
use mathlib.Core.List.{reverse, reverse-append, reverse-reverse}
use shairplay_rust.Base.{
  ℕ, ◌/◌, ◌%◌, ◌<◌, true, false, Option, some, List, [], ◌∷◌, ◌++◌, ◌≡◌, refl, sym, ◌∙◌, ap, ◌==◌,
  All, arith, bytes_eq_refl, append_assoc, Bool-cases, lt→ltb, inl, inr,
}
use shairplay_rust.Base.Words.{IsByte}
use shairplay_rust.Base.Text.{
  codes, as_bytes, utf8_of, trim, trim_start, is_whitespace, split_once, eq_ignore_ascii_case,
}
use shairplay_rust.Digest.{
  Md5, hex_digit, md5_to_hex, get_response, is_valid, scheme_params, digest_params, check_params,
  check_values, values, if_some, take_part, take_parts, no_fields, split_quoted_csv, csv_from,
  extract_quoted, unquote, close_quote, Fields,
}

abbrev quote : List ℕ
quote = b'"' ∷ []

-- No character is a quotation mark.
abbrev pub NoQuote : List ℕ → Type 0
NoQuote v = All (λ c. (c == b'"') ≡ false) v

-- The header of RFC 2617 with the five parameters.
unfoldable pub digest_header : List ℕ → List ℕ → List ℕ → List ℕ → List ℕ → List ℕ
digest_header u r n i p =
    codes "Digest username=\""
    ++ (u
        ++ (codes "\", realm=\""
            ++ (r
                ++ (codes "\", nonce=\""
                    ++ (n
                        ++ (codes "\", uri=\""
                            ++ (i ++ (codes "\", response=\"" ++ (p ++ quote)))))))))

-- A text that ends with a quotation mark.
abbrev IsClosed : List ℕ → Type 0
IsClosed s = (x : List ℕ) × (s ≡ x ++ quote)

append-IsClosed : (a s : List ℕ) → IsClosed s → IsClosed (a ++ s)
append-IsClosed a s (x, e) = (a ++ x, ap (λ l. a ++ l) e ∙ sym (append_assoc a x quote))

trim_end-IsClosed : (s : List ℕ) → IsClosed s → reverse (trim_start (reverse s)) ≡ s
unfolding trim_start is_whitespace
trim_end-IsClosed s (x, e) =
    ap (λ l. reverse (trim_start (reverse l))) e
    ∙ ap (λ l. reverse (trim_start l)) (reverse-append x quote)
    ∙ sym (ap reverse (reverse-append x quote))
    ∙ reverse-reverse (x ++ quote)
    ∙ sym e

trim-IsClosed : (s : List ℕ) → trim_start s ≡ s → IsClosed s → trim s ≡ s
unfolding trim
trim-IsClosed s h closed = ap (λ l. reverse (trim_start (reverse l))) h ∙ trim_end-IsClosed s closed

csv_from-other :
    (c : ℕ) (piece cs : List ℕ)
    → (c == b'"') ≡ false
    → csv_from true piece (c ∷ cs) ≡ csv_from true (piece ++ (c ∷ [])) cs
unfolding csv_from
csv_from-other c piece cs h = elim (Bool-cases (c == b',')) [
  | inl e ↦ rw (e, h, csv_from) refl
  | inr e ↦ rw (e, h, csv_from) refl
]

csv_from-quoted :
    (v piece rest : List ℕ)
    → NoQuote v
    → csv_from true piece (v ++ b'"' ∷ rest) ≡ csv_from false (piece ++ (v ++ quote)) rest
unfolding csv_from
csv_from-quoted [] piece rest h = refl
csv_from-quoted (c ∷ v) piece rest (hc, hv) =
    csv_from-other c piece (v ++ b'"' ∷ rest) hc
    ∙ csv_from-quoted v (piece ++ (c ∷ [])) rest hv
    ∙ ap (λ l. csv_from false l rest) (append_assoc piece (c ∷ []) (v ++ quote))

-- A quoted value is taken, whatever it holds.
unquote-quoted : (v : List ℕ) → unquote (trim (b'"' ∷ v ++ quote)) ≡ some v
unfolding unquote close_quote trim trim_start is_whitespace
unquote-quoted v =
    ap unquote (trim_end-IsClosed (b'"' ∷ v ++ quote) (b'"' ∷ v, refl))
    ∙ ap close_quote (reverse-append v quote)
    ∙ ap some (reverse-reverse v)

abbrev part : List ℕ → List ℕ → List ℕ
part key v = key ++ (b'=' ∷ b'"' ∷ (v ++ quote))

trim-part : (key v : List ℕ) → trim_start (part key v) ≡ part key v → trim (part key v) ≡ part key v
unfolding trim
trim-part key v h =
    trim-IsClosed (part key v) h
      (append-IsClosed key (b'=' ∷ b'"' ∷ (v ++ quote)) (b'=' ∷ b'"' ∷ v, refl))

trim-space : (s : List ℕ) → trim (b' ' ∷ s) ≡ trim s
unfolding trim trim_start is_whitespace
trim-space s = refl

if_some-found :
    (o : Option (List ℕ)) {v : List ℕ} (rest : Fields) (put : List ℕ → Fields)
    → o ≡ some v
    → if_some o put rest ≡ put v
if_some-found o rest put e = ap (λ found. if_some found put rest) e

take_part-username :
    (f : Fields) (v : List ℕ)
    → take_part f (part (codes "username") v) ≡ record f { username = some v }
unfolding take_part extract_quoted split_once eq_ignore_ascii_case trim
take_part-username f v =
    if_some-found (unquote (trim (b'"' ∷ v ++ quote))) _ (λ w. record f { username = some w })
      (unquote-quoted v)

take_part-realm :
    (f : Fields) (v : List ℕ) → take_part f (part (codes "realm") v) ≡ record f { realm = some v }
unfolding take_part extract_quoted split_once eq_ignore_ascii_case trim
take_part-realm f v =
    if_some-found (unquote (trim (b'"' ∷ v ++ quote))) _ (λ w. record f { realm = some w })
      (unquote-quoted v)

take_part-nonce :
    (f : Fields) (v : List ℕ) → take_part f (part (codes "nonce") v) ≡ record f { nonce = some v }
unfolding take_part extract_quoted split_once eq_ignore_ascii_case trim
take_part-nonce f v =
    if_some-found (unquote (trim (b'"' ∷ v ++ quote))) _ (λ w. record f { nonce = some w })
      (unquote-quoted v)

take_part-uri :
    (f : Fields) (v : List ℕ) → take_part f (part (codes "uri") v) ≡ record f { uri = some v }
unfolding take_part extract_quoted split_once eq_ignore_ascii_case trim
take_part-uri f v =
    if_some-found (unquote (trim (b'"' ∷ v ++ quote))) _ (λ w. record f { uri = some w })
      (unquote-quoted v)

take_part-response :
    (f : Fields) (v : List ℕ)
    → take_part f (part (codes "response") v) ≡ record f { response = some v }
unfolding take_part extract_quoted split_once eq_ignore_ascii_case trim
take_part-response f v =
    if_some-found (unquote (trim (b'"' ∷ v ++ quote))) _ (λ w. record f { response = some w })
      (unquote-quoted v)

trim-spaced :
    (key v : List ℕ) → trim_start (part key v) ≡ part key v → trim (b' ' ∷ part key v) ≡ part key v
trim-spaced key v h = trim-space (part key v) ∙ trim-part key v h

abbrev params : List ℕ → List ℕ → List ℕ → List ℕ → List ℕ → List ℕ
params u r n i p =
    codes "username=\""
    ++ (u
        ++ (codes "\", realm=\""
            ++ (r
                ++ (codes "\", nonce=\""
                    ++ (n
                        ++ (codes "\", uri=\""
                            ++ (i ++ (codes "\", response=\"" ++ (p ++ quote)))))))))

taken :
    (f : Fields) (q : List ℕ) (qs : List (List ℕ)) {g : Fields} {t : List ℕ}
    → trim q ≡ t
    → take_part f t ≡ g
    → take_parts f (q ∷ qs) ≡ take_parts g qs
unfolding take_parts
taken f q qs e h = ap (λ s. take_parts (take_part f s) qs) e ∙ ap (λ g. take_parts g qs) h

module _ (u r n i p : List ℕ) where
  abbrev from_response : List (List ℕ)
  from_response = (b' ' ∷ part (codes "response") p) ∷ []

  abbrev from_uri : List (List ℕ)
  from_uri = (b' ' ∷ part (codes "uri") i) ∷ from_response

  abbrev from_nonce : List (List ℕ)
  from_nonce = (b' ' ∷ part (codes "nonce") n) ∷ from_uri

  abbrev from_realm : List (List ℕ)
  from_realm = (b' ' ∷ part (codes "realm") r) ∷ from_nonce

  abbrev parts : List (List ℕ)
  parts = part (codes "username") u ∷ from_realm

  split_quoted_csv-params :
      NoQuote u
      → NoQuote r
      → NoQuote n
      → NoQuote i
      → NoQuote p
      → split_quoted_csv (params u r n i p) ≡ parts
  unfolding split_quoted_csv csv_from
  split_quoted_csv-params hu hr hn hi hp =
      csv_from-quoted u (codes "username=\"") _ hu
      ∙ ap (λ l. part (codes "username") u ∷ l)
          (csv_from-quoted r (codes " realm=\"") _ hr
            ∙ ap (λ l. (b' ' ∷ part (codes "realm") r) ∷ l)
                (csv_from-quoted n (codes " nonce=\"") _ hn
                  ∙ ap (λ l. (b' ' ∷ part (codes "nonce") n) ∷ l)
                      (csv_from-quoted i (codes " uri=\"") _ hi
                        ∙ ap (λ l. (b' ' ∷ part (codes "uri") i) ∷ l)
                            (csv_from-quoted p (codes " response=\"") [] hp))))

  take_parts-parts : take_parts no_fields parts ≡ record {
    username = some u;
    realm = some r;
    nonce = some n;
    uri = some i;
    response = some p;
  }
  unfolding take_parts trim_start is_whitespace
  take_parts-parts =
      let f1 = record no_fields { username = some u } in
      let f2 = record f1 { realm = some r } in
      let f3 = record f2 { nonce = some n } in
      let f4 = record f3 { uri = some i } in
      taken no_fields (part (codes "username") u) from_realm (trim-part (codes "username") u refl)
        (take_part-username no_fields u)
      ∙ taken f1 (b' ' ∷ part (codes "realm") r) from_nonce (trim-spaced (codes "realm") r refl)
          (take_part-realm f1 r)
      ∙ taken f2 (b' ' ∷ part (codes "nonce") n) from_uri (trim-spaced (codes "nonce") n refl)
          (take_part-nonce f2 n)
      ∙ taken f3 (b' ' ∷ part (codes "uri") i) from_response (trim-spaced (codes "uri") i refl)
          (take_part-uri f3 i)
      ∙ taken f4 (b' ' ∷ part (codes "response") p) [] (trim-spaced (codes "response") p refl)
          (take_part-response f4 p)

  digest_header-IsClosed : IsClosed (digest_header u r n i p)
  unfolding digest_header
  digest_header-IsClosed = append-IsClosed (codes "Digest username=\"") _ (
      append-IsClosed u _ (
        append-IsClosed (codes "\", realm=\"") _ (
          append-IsClosed r _ (
            append-IsClosed (codes "\", nonce=\"") _ (
              append-IsClosed n _ (
                append-IsClosed (codes "\", uri=\"") _ (
                  append-IsClosed i _ (
                    append-IsClosed (codes "\", response=\"") _
                      (append-IsClosed p quote ([], refl))))))))))

  digest_params-digest_header : digest_params (digest_header u r n i p) ≡ some (params u r n i p)
  unfolding digest_params scheme_params digest_header trim_start is_whitespace split_once
      eq_ignore_ascii_case
  digest_params-digest_header =
      ap (λ l. scheme_params (split_once is_whitespace l))
        (trim-IsClosed (digest_header u r n i p) refl digest_header-IsClosed)

-- The digits of a hash.
hex_digit-plain : (n : ℕ) → n < 16 → ((hex_digit n == b'"') ≡ false) × (hex_digit n < 128)
hex_digit-plain n h = (ground arith, ground arith)

abbrev AreBytes : Md5 → Type 0
AreBytes md5 = (s : List ℕ) → All IsByte (md5 s)

md5_to_hex-NoQuote : (bs : List ℕ) → All IsByte bs → NoQuote (md5_to_hex bs)
unfolding md5_to_hex
md5_to_hex-NoQuote [] h = tt
md5_to_hex-NoQuote (b ∷ bs) (hb, h) = (
  (hex_digit-plain (b / 16) (omega arith)).0,
  ((hex_digit-plain (b % 16) (omega arith)).0, md5_to_hex-NoQuote bs h),
)

as_bytes-ascii : (c : ℕ) (cs : List ℕ) → c < 128 → as_bytes cs ≡ cs → as_bytes (c ∷ cs) ≡ c ∷ cs
unfolding as_bytes utf8_of
as_bytes-ascii c cs h e = rw (lt→ltb c 128 h, e) refl

as_bytes-md5_to_hex : (bs : List ℕ) → All IsByte bs → as_bytes (md5_to_hex bs) ≡ md5_to_hex bs
unfolding as_bytes md5_to_hex
as_bytes-md5_to_hex [] h = refl
as_bytes-md5_to_hex (b ∷ bs) (hb, h) =
    as_bytes-ascii (hex_digit (b / 16)) _ ((hex_digit-plain (b / 16) (omega arith)).1) (
      as_bytes-ascii (hex_digit (b % 16)) (md5_to_hex bs)
        ((hex_digit-plain (b % 16) (omega arith)).1) (as_bytes-md5_to_hex bs h))

module _ (md5 : Md5) (are_bytes : AreBytes md5) (u realm password nonce method uri : List ℕ) where
  get_response-NoQuote : NoQuote (get_response md5 u realm password nonce method uri)
  unfolding get_response
  get_response-NoQuote = md5_to_hex-NoQuote _ (are_bytes _)

  as_bytes-get_response :
      as_bytes (get_response md5 u realm password nonce method uri)
      ≡ get_response md5 u realm password nonce method uri
  unfolding get_response
  as_bytes-get_response = as_bytes-md5_to_hex _ (are_bytes _)

  -- A hash is a list of bytes. For a user name, realm, nonce and URI without quotation marks, the header
  -- that carries them and the response computed from the password is accepted.
  pub is_valid-digest_header :
      NoQuote u
      → NoQuote realm
      → NoQuote nonce
      → NoQuote uri
      → is_valid md5 realm password nonce method uri (
          some
            (digest_header u realm nonce uri (get_response md5 u realm password nonce method uri)))
        ≡ true
  unfolding is_valid
  is_valid-digest_header hu hr hn hi =
      let p = get_response md5 u realm password nonce method uri in
      ap (check_params md5 realm password nonce method uri)
        (digest_params-digest_header u realm nonce uri p)
      ∙ ap
          (λ parts.
            check_values md5 realm password nonce method uri (values (take_parts no_fields parts)))
          (split_quoted_csv-params u realm nonce uri p hu hr hn hi get_response-NoQuote)
      ∙ ap (λ fields. check_values md5 realm password nonce method uri (values fields))
          (take_parts-parts u realm nonce uri p)
      ∙ rw (
        bytes_eq_refl realm,
        bytes_eq_refl nonce,
        bytes_eq_refl uri,
        as_bytes-get_response,
        bytes_eq_refl p,
      )

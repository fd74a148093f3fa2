-- ===== src/Http/Chunks.antt =====
-- proto/http.rs: the parser on input that arrives in pieces.
use mathlib.Core.Path.{subst, ap₂}
use shairplay_rust.Base.{
  ℕ, suc, ◌+◌, ◌-◌, ◌≤◌, ◌<◌, min, true, false, Option, none, some, List, [], ◌∷◌, ◌++◌, length,
  take, drop, ◌==◌, if◌then◌else◌, ◌≡◌, refl, sym, ap, ◌∙◌, arith, Bool-cases, Option-cases, inl,
  inr, length-append, length-take, append_assoc, take-append_left, drop-append_left, take_all,
}
use native.Mathlib.Decide.{dec_lt}
use shairplay_rust.Http.{
  Library, Policy, HttpRequest, HttpError, unwrap_or_zero, buffer_body_and_leftover, Scan, pending,
  stopped, found, scan, after_scan, ingest, keep_error, add_data_with_body_limit,
}
use shairplay_rust.Http.Scanning.{KeptScan, scan-KeptScan, then_scan, scan-append}

take-append_plus : (a b : List ℕ) (k : ℕ) → take (length a + k) (a ++ b) ≡ a ++ take k b
take-append_plus [] b k = ap (λ n. take n b) (omega arith)
take-append_plus (x ∷ a) b k =
    ap (λ n. take n (x ∷ a ++ b)) more ∙ ap (λ l. x ∷ l) (take-append_plus a b k)
  where
    more : suc (length a) + k ≡ suc (length a + k)
    more = omega arith

drop-append_plus : (a b : List ℕ) (k : ℕ) → drop (length a + k) (a ++ b) ≡ drop k b
drop-append_plus [] b k = ap (λ n. drop n b) (omega arith)
drop-append_plus (x ∷ a) b k = ap (λ n. drop n (x ∷ a ++ b)) more ∙ drop-append_plus a b k
  where
    more : suc (length a) + k ≡ suc (length a + k)
    more = omega arith

abbrev needed : HttpRequest → ℕ
needed r = unwrap_or_zero r.content_length

-- A request whose body is still read, if its head was: what was read of the body is not too long.
abbrev pub BodyFits : HttpRequest → Type 0
BodyFits r = length r.buffer ≤ needed r

-- The request with the body `body` and what follows it.
abbrev finished : HttpRequest → List ℕ → List ℕ → HttpRequest
finished r bytes rest = record r {
  body = if needed r == 0 then r.body else some bytes;
  complete = true;
  buffer = (if needed r == 0 then bytes else []) ++ rest;
}

body_more :
    (r : HttpRequest) (input : List ℕ)
    → length r.buffer + length input < needed r
    → buffer_body_and_leftover r input ≡ record r { buffer = r.buffer ++ input }
unfolding buffer_body_and_leftover
body_more r input h = rw (least, take_all (length input) input (omega arith), differs) refl
  where
    least : min (length input) (needed r - length r.buffer) ≡ length input
    least = omega arith

    differs : (length (r.buffer ++ input) == needed r) ≡ false
    differs = ground (arith, length-append r.buffer input)

body_done :
    (r : HttpRequest) (input : List ℕ)
    → BodyFits r
    → needed r ≤ length r.buffer + length input
    → let k = needed r - length r.buffer in
      buffer_body_and_leftover r input ≡ finished r (r.buffer ++ take k input) (drop k input)
unfolding buffer_body_and_leftover
body_done r input fits h = rw (least, whole) refl
  where
    least : min (length input) (needed r - length r.buffer) ≡ needed r - length r.buffer
    least = omega arith

    whole : (length (r.buffer ++ take (needed r - length r.buffer) input) == needed r) ≡ true
    whole = ground (
      arith,
      length-append r.buffer (take (needed r - length r.buffer) input),
      length-take (needed r - length r.buffer) input,
    )

abbrev with_more : HttpRequest → List ℕ → HttpRequest
with_more r more = record r { buffer = r.buffer ++ more }

body-append_done :
    (r : HttpRequest) (a b : List ℕ)
    → BodyFits r
    → needed r ≤ length r.buffer + length a
    → buffer_body_and_leftover r (a ++ b) ≡ with_more (buffer_body_and_leftover r a) b
body-append_done r a b fits h =
    body_done r (a ++ b) fits (omega (arith, length-append a b))
    ∙ ap₂ (finished r) (ap (λ t. r.buffer ++ t) (take-append_left k a b (omega arith)))
        (drop-append_left k a b (omega arith))
    ∙ ap (λ buffer. record (finished r (r.buffer ++ take k a) (drop k a)) { buffer = buffer })
        (sym (append_assoc (if needed r == 0 then r.buffer ++ take k a else []) (drop k a) b))
    ∙ sym (ap (λ s. with_more s b) (body_done r a fits h))
  where
    k : ℕ
    k = needed r - length r.buffer

body-append_more :
    (r : HttpRequest) (a b : List ℕ)
    → length r.buffer + length a < needed r
    → buffer_body_and_leftover r (a ++ b) ≡ buffer_body_and_leftover (with_more r a) b
body-append_more r a b h = elim (dec_lt (length r.buffer + (length a + length b)) (needed r)) [
  | yes lt ↦
      body_more r (a ++ b) (omega (arith, length-append a b))
      ∙ ap (λ buffer. record r { buffer = buffer }) (sym (append_assoc r.buffer a b))
      ∙ sym (body_more (with_more r a) b (omega (arith, length-append r.buffer a)))
  | no ge ↦
      body_done r (a ++ b) (omega arith) (omega (arith, length-append a b))
      ∙ ap₂ (finished r)
          (ap (λ n. r.buffer ++ take n (a ++ b)) k_split
            ∙ ap (λ t. r.buffer ++ t) (take-append_plus a b k)
            ∙ sym (append_assoc r.buffer a (take k b)))
          (ap (λ n. drop n (a ++ b)) k_split ∙ drop-append_plus a b k)
      ∙ sym (
          body_done (with_more r a) b (omega (arith, length-append r.buffer a))
            (omega (arith, length-append r.buffer a)))
]
  where
    k : ℕ
    k = needed r - length (r.buffer ++ a)

    k_split : needed r - length r.buffer ≡ length a + (needed r - length (r.buffer ++ a))
    k_split = omega (arith, length-append r.buffer a)

-- The flags of a request agree with one another, and a body that is still read is not too long.
pub record IsRunning (r : HttpRequest) : Type 0 where
  pub flags : r.headers_complete ≡ false → r.complete ≡ false
  pub fits : r.headers_complete ≡ true → r.complete ≡ false → BodyFits r

-- The same of a request that has met no error.
abbrev pub IsRequest : HttpRequest → Type 0
IsRequest r = r.error ≡ none → IsRunning r

complete-IsRunning : (r : HttpRequest) → r.headers_complete ≡ true → r.complete ≡ true → IsRunning r
complete-IsRunning r h k = record { flags = λ e. absurd (cc); fits = λ e f. absurd (cc) }

body-IsRunning :
    (r : HttpRequest) (input : List ℕ)
    → r.headers_complete ≡ true
    → r.complete ≡ false
    → BodyFits r
    → IsRunning (buffer_body_and_leftover r input)
body-IsRunning r input h k fits = elim (dec_lt (length r.buffer + length input) (needed r)) [
  | yes lt ↦
      subst IsRunning (sym (body_more r input lt))
        (record { flags = λ e. k; fits = λ e f. omega (arith, length-append r.buffer input) })
  | no ge ↦ subst IsRunning (sym (body_done r input fits (omega arith))) (
      complete-IsRunning
        (finished r (r.buffer ++ take (needed r - length r.buffer) input)
          (drop (needed r - length r.buffer) input))
        h refl)
]

body-error :
    (r : HttpRequest) (input : List ℕ)
    → BodyFits r
    → (buffer_body_and_leftover r input).error ≡ r.error
body-error r input fits = elim (dec_lt (length r.buffer + length input) (needed r)) [
  | yes lt ↦ ap (λ s. s.error) (body_more r input lt)
  | no ge ↦ ap (λ s. s.error) (body_done r input fits (omega arith))
]

module _ (lib : Library) (on_headers : Policy) where
  abbrev take_in : HttpRequest → List ℕ → Option HttpError × HttpRequest
  take_in r input = ingest lib on_headers r input

  ingest_complete :
      (r : HttpRequest) (input : List ℕ)
      → r.complete ≡ true
      → take_in r input ≡ (none, record r { buffer = r.buffer ++ input })
  unfolding ingest
  ingest_complete r input h = rw h refl

  ingest_body :
      (r : HttpRequest) (input : List ℕ)
      → r.complete ≡ false
      → r.headers_complete ≡ true
      → take_in r input ≡ (none, buffer_body_and_leftover r input)
  unfolding ingest
  ingest_body r input h k = rw (h, k) refl

  ingest_head :
      (r : HttpRequest) (input : List ℕ)
      → r.complete ≡ false
      → r.headers_complete ≡ false
      → take_in r input ≡ after_scan (scan lib on_headers r input)
  unfolding ingest
  ingest_head r input h k = rw (h, k) refl

  abbrev then_ingest : Option HttpError × HttpRequest → List ℕ → Option HttpError × HttpRequest
  then_ingest (none, r) more = take_in r more
  then_ingest (some e, r) more = (some e, r)

  body-ingest :
      (r : HttpRequest) (a b : List ℕ)
      → r.complete ≡ false
      → r.headers_complete ≡ true
      → BodyFits r
      → ◌≡◌ {A = Option HttpError × HttpRequest}
          (none, buffer_body_and_leftover r (a ++ b))
          (take_in (buffer_body_and_leftover r a) b)
  body-ingest r a b h k fits = elim (dec_lt (length r.buffer + length a) (needed r)) [
    | yes lt ↦
        ap (λ s. (none, s)) (body-append_more r a b lt)
        ∙ sym (ingest_body (with_more r a) b h k)
        ∙ ap (λ s. take_in s b) (sym (body_more r a lt))
    | no ge ↦
        ap (λ s. (none, s))
          (body-append_done r a b fits (omega arith)
            ∙ ap (λ s. with_more s b) (body_done r a fits (omega arith)))
        ∙ sym (
            ingest_complete
              (finished r (r.buffer ++ take (needed r - length r.buffer) a)
                (drop (needed r - length r.buffer) a))
              b refl)
        ∙ ap (λ s. take_in s b) (sym (body_done r a fits (omega arith)))
  ]

  head_next :
      (r : HttpRequest) (s : Scan) (b : List ℕ)
      → KeptScan lib on_headers r s
      → r.complete ≡ false
      → r.headers_complete ≡ false
      → after_scan (then_scan lib on_headers s b) ≡ then_ingest (after_scan s) b
  head_next r (pending s) b (h1, h2, h3) hc hh = sym (ingest_head s b (h3 ∙ hc) (h2 ∙ hh))
  head_next r (stopped e s) b h hc hh = refl
  head_next r (found s rest) b (h1, h2, h3, h4) hc hh =
      body-ingest s rest b (h3 ∙ hc) h2 (omega (arith, ap length h4))

  ingest-append :
      (r : HttpRequest) (a b : List ℕ)
      → IsRunning r
      → take_in r (a ++ b) ≡ then_ingest (take_in r a) b
  ingest-append r a b v = elim (Bool-cases r.headers_complete) [
    | inl h ↦ elim (Bool-cases r.complete) [
      | inl k ↦
          ingest_complete r (a ++ b) k
          ∙ ap (λ buffer. (none, record r { buffer = buffer })) (sym (append_assoc r.buffer a b))
          ∙ sym (ingest_complete (with_more r a) b k)
          ∙ sym (ap (λ x. then_ingest x b) (ingest_complete r a k))
      | inr k ↦
          ingest_body r (a ++ b) k h
          ∙ body-ingest r a b k h (v.fits h k)
          ∙ sym (ap (λ x. then_ingest x b) (ingest_body r a k h))
    ]
    | inr h ↦
        ingest_head r (a ++ b) (v.flags h) h
        ∙ ap after_scan (scan-append lib on_headers a b r)
        ∙ head_next r (scan lib on_headers r a) b (scan-KeptScan lib on_headers a r) (v.flags h) h
        ∙ sym (ap (λ x. then_ingest x b) (ingest_head r a (v.flags h) h))
  ]

  -- What holds of an answer without an error.
  abbrev Fine : HttpRequest → Option HttpError × HttpRequest → Type 0
  Fine r (none, s) = (s.error ≡ r.error) × IsRunning s
  Fine r (some e, s) = Unit {0}

  after_scan-Fine :
      (r : HttpRequest) (s : Scan)
      → KeptScan lib on_headers r s
      → r.complete ≡ false
      → r.headers_complete ≡ false
      → Fine r (after_scan s)
  after_scan-Fine r (pending s) (h1, h2, h3) hc hh =
      (h1, record { flags = λ e. h3 ∙ hc; fits = λ e f. absurd (cc) })
  after_scan-Fine r (stopped e s) h hc hh = tt
  after_scan-Fine r (found s rest) (h1, h2, h3, h4) hc hh =
      (body-error s rest empty ∙ h1, body-IsRunning s rest h2 (h3 ∙ hc) empty)
    where
      empty : BodyFits s
      empty = omega (arith, ap length h4)

  ingest-Fine : (r : HttpRequest) (input : List ℕ) → IsRunning r → Fine r (take_in r input)
  ingest-Fine r input v = elim (Bool-cases r.headers_complete) [
    | inl h ↦ elim (Bool-cases r.complete) [
      | inl k ↦
          subst (Fine r) (sym (ingest_complete r input k))
            (refl, complete-IsRunning (with_more r input) h k)
      | inr k ↦
          subst (Fine r) (sym (ingest_body r input k h))
            (body-error r input (v.fits h k), body-IsRunning r input h k (v.fits h k))
    ]
    | inr h ↦ subst (Fine r) (sym (ingest_head r input (v.flags h) h)) (
        after_scan-Fine r (scan lib on_headers r input) (scan-KeptScan lib on_headers input r)
          (v.flags h) h)
  ]

  abbrev add : HttpRequest → List ℕ → Option HttpError × HttpRequest
  add r input = add_data_with_body_limit lib on_headers r input

  add_running :
      (r : HttpRequest) (input : List ℕ)
      → r.error ≡ none
      → add r input ≡ keep_error (take_in r input)
  unfolding add_data_with_body_limit
  add_running r input h = rw h refl

  add_stopped :
      (r : HttpRequest) (input : List ℕ) (e : HttpError)
      → r.error ≡ some e
      → add r input ≡ (some e, r)
  unfolding add_data_with_body_limit
  add_stopped r input e h = rw h refl

  add_next :
      (r : HttpRequest) (x : Option HttpError × HttpRequest) (b : List ℕ)
      → Fine r x
      → r.error ≡ none
      → keep_error (then_ingest x b) ≡ add (keep_error x).1 b
  add_next r (none, s) b (h, v) e = sym (add_running s b (h ∙ e))
  add_next r (some x, s) b h e = sym (add_stopped (record s { error = some x }) b x refl)

  -- Input in two pieces: `add_data` of the second after the first answers what `add_data` of both at
  -- once answers, errors included, and leaves the same request.
  pub add_data-append :
      (r : HttpRequest) (a b : List ℕ)
      → IsRequest r
      → add_data_with_body_limit lib on_headers r (a ++ b)
        ≡ add_data_with_body_limit lib on_headers (add_data_with_body_limit lib on_headers r a).1 b
  add_data-append r a b v = elim (Option-cases r.error) [
    | inl e ↦
        add_running r (a ++ b) e
        ∙ ap keep_error (ingest-append r a b (v e))
        ∙ add_next r (take_in r a) b (ingest-Fine r a (v e)) e
        ∙ ap (λ x. add x.1 b) (sym (add_running r a e))
    | inr (x, e) ↦
        add_stopped r (a ++ b) x e
        ∙ sym (add_stopped r b x e)
        ∙ ap (λ y. add y.1 b) (sym (add_stopped r a x e))
  ]

  kept-IsRequest :
      (r : HttpRequest) (x : Option HttpError × HttpRequest) → Fine r x → IsRequest (keep_error x).1
  kept-IsRequest r (none, s) (h, v) = λ e. v
  kept-IsRequest r (some y, s) h = λ e. absurd (cc)

  -- `add_data` keeps a request well formed: unless there was an error, the body that is still read is
  -- not longer than the length that the head gave, and a request is complete only behind its head.
  pub add_data-IsRequest :
      (r : HttpRequest) (input : List ℕ)
      → IsRequest r
      → IsRequest (add_data_with_body_limit lib on_headers r input).1
  add_data-IsRequest r input v = elim (Option-cases r.error) [
    | inl e ↦
        subst (λ x. IsRequest x.1) (sym (add_running r input e))
          (kept-IsRequest r (take_in r input) (ingest-Fine r input (v e)))
    | inr (x, e) ↦ subst (λ y. IsRequest y.1) (sym (add_stopped r input x e)) v
  ]

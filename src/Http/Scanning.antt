-- ===== src/Http/Scanning.antt =====
-- proto/http.rs: the loop over the head, one byte at a time and in pieces.
use mathlib.Core.Path.{subst}
use shairplay_rust.Base.{
  ℕ, min, Bool, true, false, List, [], ◌∷◌, ◌++◌, length, ltb, ◌==◌, if◌then◌else◌, ◌≡◌, refl, ◌∙◌,
  Option-cases, inl, inr, ◌⊎◌,
}
use shairplay_rust.Http.{
  Library, Policy, HttpRequest, HttpError, Status, whole, partial, malformed, Length, given, bad,
  Tried, more, ready, failed, with_length, take_head, normalize_request_version, try_parse_headers,
  within_limit, checked, pushed, take_byte, Scan, pending, stopped, found, scan, at_end,
  max_header_bytes, max_body_bytes, headers_too_long, body_exceeds_policy, unwrap_or_zero,
  insert_headers, parse_content_length,
}

pub Tried-cases :
    (t : Tried)
    → ((r : HttpRequest) × (t ≡ more r))
      ⊎ ((r : HttpRequest) × (t ≡ ready r))
      ⊎ ((e : HttpError) × (r : HttpRequest) × (t ≡ failed e r))
Tried-cases (more r) = inl (r, refl)
Tried-cases (ready r) = inr (inl (r, refl))
Tried-cases (failed e r) = inr (inr (e, r, refl))

-- The flags of a request whose head is still read, and of one whose head was read.
abbrev pub Same : HttpRequest → HttpRequest → Type 0
Same r s =
    (s.error ≡ r.error) × (s.headers_complete ≡ r.headers_complete) × (s.complete ≡ r.complete)

abbrev pub Headed : HttpRequest → HttpRequest → Type 0
Headed r s =
    (s.error ≡ r.error) × (s.headers_complete ≡ true) × (s.complete ≡ r.complete) × (s.buffer ≡ [])

abbrev Kept : HttpRequest → Tried → Type 0
Kept r (more s) = Same r s
Kept r (ready s) = Headed r s
Kept r (failed e s) = Unit {0}

Kept-if :
    (r : HttpRequest) (b : Bool) (t u : Tried) → Kept r t → Kept r u → Kept r (if b then t else u)
Kept-if r true t u h k = h
Kept-if r false t u h k = k

with_length-Kept : (r s : HttpRequest) (l : Length) → Same r s → Kept r (with_length s l)
with_length-Kept r s (bad e) h = tt
with_length-Kept r s (given n) (h1, h2, h3) = (h1, refl, h3, refl)

module _ (lib : Library) where
  take_head-Kept : (r s : HttpRequest) (st : Status) → Same r s → Kept r (take_head lib s st)
  unfolding take_head
  take_head-Kept r s partial h = h
  take_head-Kept r s (malformed e) h = tt
  take_head-Kept r s (whole method url hs) h =
      elim (Option-cases (insert_headers lib hs s.headers).0) [
        | inl e ↦
            rw (e, Kept)
              (with_length-Kept r _ (parse_content_length (insert_headers lib hs s.headers).1) h)
        | inr (x, e) ↦ rw (e, Kept) tt
      ]

  normalize-Same : (r s : HttpRequest) → Same r s → Same r (normalize_request_version s)
  unfolding normalize_request_version
  normalize-Same r s h = elim (Option-cases s.request_line_start) [
    | inl e ↦ rw e h
    | inr (n, e) ↦ rw e h
  ]

  try_parse_headers-Kept : (r s : HttpRequest) → Same r s → Kept r (try_parse_headers lib s)
  unfolding try_parse_headers
  try_parse_headers-Kept r s h =
      take_head-Kept r (normalize_request_version s)
        (lib.parse (normalize_request_version s).buffer) (normalize-Same r s h)

  module _ (on_headers : Policy) where
    within_limit-Kept :
        (r s : HttpRequest) (answer : HttpError ⊎ ℕ) → Headed r s → Kept r (within_limit s answer)
    within_limit-Kept r s (inl e) h = tt
    within_limit-Kept r s (inr limit) h =
        Kept-if r (ltb (min limit max_body_bytes) (unwrap_or_zero s.content_length))
          (failed body_exceeds_policy s) (ready s) tt h

    checked-Kept : (r : HttpRequest) (t : Tried) → Kept r t → Kept r (checked on_headers t)
    checked-Kept r (more s) h = h
    checked-Kept r (failed e s) h = tt
    checked-Kept r (ready s) h = within_limit-Kept r s (on_headers s) h

    take_byte-Kept : (r : HttpRequest) (byte : ℕ) → Kept r (take_byte lib on_headers r byte)
    unfolding take_byte
    take_byte-Kept r byte =
        Kept-if r (length r.buffer == max_header_bytes) (failed headers_too_long r)
          (if at_end s then checked on_headers (try_parse_headers lib s) else more s) tt
          (Kept-if r (at_end s) (checked on_headers (try_parse_headers lib s)) (more s)
            (checked-Kept r (try_parse_headers lib s) (try_parse_headers-Kept r s same)) same)
      where
        s : HttpRequest
        s = pushed r byte

        same : Same r (pushed r byte)
        same = unfold pushed in (refl, refl, refl)

    -- The loop over two pieces.
    abbrev pub then_scan : Scan → List ℕ → Scan
    then_scan (pending r) rest = scan lib on_headers r rest
    then_scan (stopped e r) rest = stopped e r
    then_scan (found r bytes) rest = found r (bytes ++ rest)

    pub scan-append :
        (first second : List ℕ) (r : HttpRequest)
        → scan lib on_headers r (first ++ second) ≡ then_scan (scan lib on_headers r first) second
    unfolding scan
    scan-append [] second r = refl
    scan-append (byte ∷ first) second r = elim (Tried-cases (take_byte lib on_headers r byte)) [
      | inl (s, e) ↦ rw (e, scan) (scan-append first second s)
      | inr (inl (s, e)) ↦ rw (e, scan) refl
      | inr (inr (x, s, e)) ↦ rw (e, scan) refl
    ]

    abbrev pub KeptScan : HttpRequest → Scan → Type 0
    KeptScan r (pending s) = Same r s
    KeptScan r (stopped e s) = Unit {0}
    KeptScan r (found s rest) = Headed r s

    from_Same : (r s : HttpRequest) (o : Scan) → Same r s → KeptScan s o → KeptScan r o
    from_Same r s (pending t) (h1, h2, h3) (k1, k2, k3) = (k1 ∙ h1, k2 ∙ h2, k3 ∙ h3)
    from_Same r s (stopped e t) h k = tt
    from_Same r s (found t rest) (h1, h2, h3) (k1, k2, k3, k4) = (k1 ∙ h1, k2, k3 ∙ h3, k4)

    pub scan-KeptScan :
        (bytes : List ℕ) (r : HttpRequest) → KeptScan r (scan lib on_headers r bytes)
    unfolding scan
    scan-KeptScan [] r = (refl, refl, refl)
    scan-KeptScan (byte ∷ bytes) r = elim (Tried-cases (take_byte lib on_headers r byte)) [
      | inl (s, e) ↦
          rw (e, scan, KeptScan)
            (from_Same r s (scan lib on_headers s bytes) (subst (Kept r) e (take_byte-Kept r byte))
              (scan-KeptScan bytes s))
      | inr (inl (s, e)) ↦ rw (e, scan, KeptScan) (subst (Kept r) e (take_byte-Kept r byte))
      | inr (inr (x, s, e)) ↦ rw (e, scan, KeptScan) tt
    ]

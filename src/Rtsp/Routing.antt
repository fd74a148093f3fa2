-- ===== src/Rtsp/Routing.antt =====
-- raop/rtsp.rs: the route table and the middleware.
use shairplay_rust.Base.{
  ℕ, Bool, true, false, Option, none, some, List, [], ◌∷◌, ◌==◌, ◌≡◌, refl, sym, ap, ◌∙◌, All,
  Bool-cases, inl, inr, ◌⊎◌,
}
use shairplay_rust.Http.{HttpRequest}
use shairplay_rust.Rtsp.{
  Features, Route, routes, path_of, find_route, RouteResolution, no_body, handled, HttpResponse,
  finish, Connection, resolve_handler, is_authorized, unauthorized, not_found, answer_with,
  dispatch, or_empty,
}

-- Every route of the table is the one that its method and path find: none is hidden by one before it.
pub find_route-routes :
    (ap2 hls : Bool)
    → let table = routes (record { ap2 = ap2; hls = hls }) in
      All (λ r. find_route table r.method r.path ≡ some r.handler) table
unfolding routes find_route path_of
find_route-routes true true = (
  refl,
  (
    refl,
    (
      refl,
      (
        refl,
        (
          refl,
          (
            refl,
            (
              refl,
              (
                refl,
                (
                  refl,
                  (
                    refl,
                    (
                      refl,
                      (
                        refl,
                        (
                          refl,
                          (
                            refl,
                            (refl, (refl, (refl, (refl, (refl, (refl, (refl, (refl, tt)))))))),
                          ),
                        ),
                      ),
                    ),
                  ),
                ),
              ),
            ),
          ),
        ),
      ),
    ),
  ),
)
find_route-routes true false = (
  refl,
  (
    refl,
    (
      refl,
      (
        refl,
        (
          refl,
          (
            refl,
            (refl, (refl, (refl, (refl, (refl, (refl, (refl, (refl, (refl, (refl, tt)))))))))),
          ),
        ),
      ),
    ),
  ),
)
find_route-routes false true = (
  refl,
  (
    refl,
    (refl, (refl, (refl, (refl, (refl, (refl, (refl, (refl, (refl, (refl, (refl, tt))))))))))),
  ),
)
find_route-routes false false = (refl, (refl, (refl, (refl, (refl, (refl, (refl, tt)))))))

path_of_step : (c : ℕ) (cs : List ℕ) → (c == b'?') ≡ false → path_of (c ∷ cs) ≡ c ∷ path_of cs
unfolding path_of
path_of_step c cs e = rw e refl

path_of_end : (c : ℕ) (cs : List ℕ) → (c == b'?') ≡ true → path_of (c ∷ cs) ≡ []
unfolding path_of
path_of_end c cs e = rw e refl

path_of-path_of : (url : List ℕ) → path_of (path_of url) ≡ path_of url
unfolding path_of
path_of-path_of [] = refl
path_of-path_of (c ∷ cs) = elim (Bool-cases (c == b'?')) [
  | inl e ↦ ap path_of (path_of_end c cs e) ∙ sym (path_of_end c cs e)
  | inr e ↦
      ap path_of (path_of_step c cs e)
      ∙ path_of_step c (path_of cs) e
      ∙ ap (λ rest. c ∷ rest) (path_of-path_of cs)
      ∙ sym (path_of_step c cs e)
]

find_route-path_of :
    (rs : List Route) (method url : List ℕ)
    → find_route rs method (path_of url) ≡ find_route rs method url
unfolding find_route
find_route-path_of [] method url = refl
find_route-path_of (r ∷ rs) method url =
    rw (path_of-path_of url, find_route-path_of rs method url) refl

module _ {S : Type 0} (f : Features) (k : Connection S) where
  -- The query of a URL does not change the handler that a request is given.
  pub resolve_handler-path_of :
      (request : HttpRequest) (method url : List ℕ) (s : S)
      → resolve_handler f k request method (path_of url) s
        ≡ resolve_handler f k request method url s
  unfolding resolve_handler
  resolve_handler-path_of request method url s = rw (find_route-path_of (routes f) method url) refl

  -- A request that is not authorized changes nothing: the connection is as it was, and the answer is
  -- a 401 that does not close it.
  pub dispatch-is_authorized :
      (request : HttpRequest) (s : S)
      → let (response, s1) = dispatch f k request s in
        (is_authorized f k request (or_empty request.method []) (or_empty request.url []) s ≡ true)
        ⊎ ((s1 ≡ s) × (response.code ≡ 401) × (response.disconnect ≡ false))
  unfolding dispatch unauthorized
  dispatch-is_authorized request s =
      elim (Bool-cases
        (is_authorized f k request (or_empty request.method []) (or_empty request.url []) s)) [
          | inl e ↦ inl e
          | inr e ↦ inr (rw e (refl, refl, refl))
        ]

  answer_with-complete :
      (request : HttpRequest) (cseq : List ℕ) (r : HttpResponse) (o : Option RouteResolution × S)
      → (answer_with f k request cseq r o).0.complete ≡ true
  unfolding answer_with finish not_found
  answer_with-complete request cseq r (none, s) = refl
  answer_with-complete request cseq r (some no_body, s) = refl
  answer_with-complete request cseq r (some (handled h), s) = refl

  -- Every request is answered with a finished response, whatever its handler does.
  pub dispatch-complete :
      (request : HttpRequest) (s : S) → (dispatch f k request s).0.complete ≡ true
  unfolding dispatch unauthorized finish
  dispatch-complete request s =
      elim (Bool-cases
        (is_authorized f k request (or_empty request.method []) (or_empty request.url []) s)) [
          | inl e ↦ rw e (answer_with-complete request _ _ _)
          | inr e ↦ rw e refl
        ]

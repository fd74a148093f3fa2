-- ===== src/Sdp/First.antt =====
-- proto/sdp.rs: the parsed fields by the lines.
use shairplay_rust.Base.{
  ℕ, Option, none, some, List, [], ◌∷◌, ◌==◌, if◌then◌else◌, ◌≡◌, refl, ap, ◌∙◌, arith,
}
use shairplay_rust.Sdp.{
  Sdp, no_sdp, Key, field, put, line_entry, lines, trimmed, put_line, take_lines, parse,
}

-- The number of a key.
abbrev pub index : Key → ℕ
index Key.key_version = 0
index Key.key_connection = 1
index Key.key_rtpmap = 2
index Key.key_fmtp = 3
index Key.key_rsaaeskey = 4
index Key.key_fpaeskey = 5
index Key.key_aesiv = 6
index Key.key_min_latency = 7

abbrev pub found_in : Key → Option (Key × List ℕ) → Option (List ℕ)
found_in k none = none
found_in k (some (j, v)) = if index k == index j then some v else none

abbrev pub first_of : Option (List ℕ) → Option (List ℕ) → Option (List ℕ)
first_of none next = next
first_of (some v) next = some v

field-put :
    (k j : Key) (v : List ℕ) (s : Sdp)
    → field k (put j v s) ≡ first_of (field k s) (found_in k (some (j, v)))
unfolding field put
field-put k j v s = ground arith

first_of_assoc : (a b c : Option (List ℕ)) → first_of (first_of a b) c ≡ first_of a (first_of b c)
first_of_assoc none b c = refl
first_of_assoc (some v) b c = refl

first_of-none : (o : Option (List ℕ)) → o ≡ first_of o none
first_of-none none = refl
first_of-none (some v) = refl

field-put_line :
    (k : Key) (e : Option (Key × List ℕ)) (s : Sdp)
    → field k (put_line e s) ≡ first_of (field k s) (found_in k e)
field-put_line k none s = first_of-none (field k s)
field-put_line k (some (j, v)) s = field-put k j v s

-- The value of the first line that has the key.
unfoldable pub first_entry : Key → List (List ℕ) → Option (List ℕ)
unfolding line_entry
first_entry k [] = none
first_entry k (line ∷ rest) = first_of (found_in k (line_entry (trimmed line))) (first_entry k rest)

field-take_lines :
    (k : Key) (s : Sdp) (ls : List (List ℕ))
    → field k (take_lines s ls) ≡ first_of (field k s) (first_entry k ls)
unfolding take_lines first_entry
field-take_lines k s [] = first_of-none (field k s)
field-take_lines k s (line ∷ rest) =
    let e = line_entry (trimmed line) in
    field-take_lines k (put_line e s) rest
    ∙ ap (λ o. first_of o (first_entry k rest)) (field-put_line k e s)
    ∙ first_of_assoc (field k s) (found_in k e) (first_entry k rest)

field-no_sdp : (k : Key) → field k no_sdp ≡ none
unfolding field
field-no_sdp k = ground arith

-- Each field of a parsed description is the value on the first line that has a value for it, whatever
-- the other lines are.
pub field-parse : (k : Key) (input : List ℕ) → field k (parse input) ≡ first_entry k (lines input)
unfolding parse
field-parse k input =
    field-take_lines k no_sdp (lines input)
    ∙ ap (λ o. first_of o (first_entry k (lines input))) (field-no_sdp k)

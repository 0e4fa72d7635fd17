-- ===== src/Handshake/Answer.antt =====
-- What a server answers, and what `parse_response` reads off it.
use jetsocket.Prelude.{
  ℕ, ◌≡◌, refl, ap, ◌∙◌, Bool, true, not, ◌&&◌, some, List, [], ◌∷◌, ◌++◌, map, ltb, ◌==◌,
}
use jetsocket.Dict.{Dict, put}
use jetsocket.Uri.Texts.{Text, literal}
use jetsocket.Handshake.Texts.{both, line_end, split_once, join, text_eq}
use jetsocket.Handshake.Lines.{
  is_plain, all_of, is_line, are_lines, all_of-append, all_of-join, before_blank-join,
  split_lines-join, split_once_past,
}
use jetsocket.Handshake.Defs.{
  Python, header_line, status_part, read_header, read_headers, check_headers, check_status,
  check_part, check_lines, check_section, decode_section, parse_response,
}

-- The answer of a server that switches, and what it sends after it.
unfoldable pub answer : Text → List (Text × Text) → List ℕ → List ℕ
unfolding join
answer reason headers rest =
    join line_end ((literal "HTTP/1.1 101 " ++ reason) ∷ map header_line headers)
    ++ (line_end ++ line_end ++ rest)

-- The name has no colon, and the line is plain.
abbrev pub is_header : Text × Text → Bool
is_header (name, value) =
    all_of (λ x. not (x == 58)) name && (all_of is_plain name && all_of is_plain value)

abbrev pub are_headers : List (Text × Text) → Bool
are_headers [] = true
are_headers (header ∷ headers) = is_header header && are_headers headers

-- What `decode` and `int` document.
pub record PythonLaws (py : Python) : Type 0 where
  pub decode_ascii :
      (text : Text) → all_of (λ x. ltb x 128) text ≡ true → py.decode text ≡ some text
  pub to_int_101 : py.to_int (literal "101") ≡ some 101

-- The dict of a list of headers, of which a later one replaces an earlier one of its name.
unfoldable pub dict_of : Python → Dict Text Text → List (Text × Text) → Dict Text Text
unfolding put
dict_of py dict [] = dict
dict_of py dict ((name, value) ∷ headers) =
    dict_of py (put dict (py.lower (py.strip name)) (py.strip (32 ∷ value))) headers

filled : (a b : Text) → all_of is_plain (a ++ 58 ∷ b) ≡ true → is_line (a ++ 58 ∷ b) ≡ true
filled [] b h = h
filled (x ∷ a) b h = h

header_line_plain :
    (header : Text × Text) → is_header header ≡ true → is_line (header_line header) ≡ true
header_line_plain (name, value) h =
    let p =
      both (all_of (λ x. not (x == 58)) name) (all_of is_plain name && all_of is_plain value) h in
    let q = both (all_of is_plain name) (all_of is_plain value) p.1 in
    filled name (32 ∷ value) (all_of-append is_plain name (58 ∷ 32 ∷ value) q.0 q.1)

header_lines_plain :
    (headers : List (Text × Text))
    → are_headers headers ≡ true
    → are_lines (map header_line headers) ≡ true
header_lines_plain [] h = refl
header_lines_plain (header ∷ headers) h =
    let p = both (is_header header) (are_headers headers) h in
    rw (header_line_plain header p.0) (header_lines_plain headers p.1)

first_plain :
    (reason : Text) (lines : List Text)
    → all_of is_plain reason ≡ true
    → are_lines lines ≡ true
    → are_lines ((literal "HTTP/1.1 101 " ++ reason) ∷ lines) ≡ true
first_plain reason lines h k = rw (all_of-append is_plain (literal "HTTP/1.1 101 ") reason refl h) k

module _ (py : Python) where
  check_first :
      (laws : PythonLaws py) (key reason : Text) (lines : List Text)
      → check_lines py key ((literal "HTTP/1.1 101 " ++ reason) ∷ lines)
        ≡ check_headers py key (read_headers py [] lines)
  unfolding check_lines check_part check_status status_part split_once
  check_first laws key reason lines = ap (check_status py key lines) laws.to_int_101

  read_header_on :
      (dict : Dict Text Text) (name rest : Text)
      → all_of (λ x. not (x == 58)) name ≡ true
      → read_header py dict (name ++ 58 ∷ rest)
        ≡ put dict (py.lower (py.strip name)) (py.strip rest)
  unfolding read_header
  read_header_on dict name rest h = rw (read_header, split_once_past 58 name rest h) refl

  read_headers_lem :
      (dict : Dict Text Text) (headers : List (Text × Text))
      → are_headers headers ≡ true
      → read_headers py dict (map header_line headers) ≡ dict_of py dict headers
  unfolding read_headers dict_of
  read_headers_lem dict [] h = refl
  read_headers_lem dict ((name, value) ∷ headers) h =
      let p = both (is_header (name, value)) (are_headers headers) h in
      let q =
        both (all_of (λ x. not (x == 58)) name) (all_of is_plain name && all_of is_plain value)
          p.0 in
      ap (λ d. read_headers py d (map header_line headers))
        (read_header_on dict name (32 ∷ value) q.0)
      ∙ read_headers_lem (put dict (py.lower (py.strip name)) (py.strip (32 ∷ value))) headers p.1

  -- Where `decode` gives ASCII text back and `int` reads 101: for every reason and headers of
  -- plain ASCII lines whose names have no colon, `parse_response` reads off a server's answer
  -- exactly those headers: it comes to the checks of the dict that they make, a later header in
  -- place of an earlier one of its name, whatever octets the server has sent after the answer.
  pub parse_response-answer :
      (laws : PythonLaws py) (key reason : Text) (headers : List (Text × Text)) (rest : List ℕ)
      → all_of is_plain reason ≡ true
      → are_headers headers ≡ true
      → parse_response py key (answer reason headers rest)
        ≡ check_headers py key (dict_of py [] headers)
  unfolding parse_response check_section decode_section answer
  parse_response-answer laws key reason headers rest plain h =
      let first : Text = literal "HTTP/1.1 101 " ++ reason in
      let lines : List Text = map header_line headers in
      let fits = first_plain reason lines plain (header_lines_plain headers h) in
      ap (λ o. check_section py key (decode_section py o)) (before_blank-join first lines rest fits)
      ∙ ap (check_section py key)
          (laws.decode_ascii (join line_end (first ∷ lines)) (all_of-join first lines fits))
      ∙ ap (check_lines py key) (split_lines-join first lines fits)
      ∙ check_first laws key reason lines
      ∙ ap (check_headers py key) (read_headers_lem [] headers h)

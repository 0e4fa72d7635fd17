-- ===== src/Handshake/Lines.antt =====
-- Joining lines and cutting them again.
use jetsocket.Prelude.{
  ℕ, ◌≡◌, refl, ap, ◌∙◌, arith, Bool, true, false, not, ◌&&◌, some, List, [], ◌∷◌, ◌++◌,
  append_assoc, append-nil, ltb, ◌==◌, true≢false, sym, ==_iff,
}
use jetsocket.Uri.Texts.{Text}
use jetsocket.Handshake.Texts.{
  both, starts, line_end, on_line, on_text, on_first, split_lines, before_blank, join, split_once,
}

-- An ASCII character that ends no line.
abbrev pub is_plain : ℕ → Bool
is_plain x = ltb x 128 && not (x == 13)

abbrev pub all_of : (ℕ → Bool) → Text → Bool
all_of test [] = true
all_of test (x ∷ xs) = test x && all_of test xs

-- A line that is not empty.
abbrev pub is_line : Text → Bool
is_line [] = false
is_line (x ∷ xs) = all_of is_plain (x ∷ xs)

abbrev pub are_lines : List Text → Bool
are_lines [] = true
are_lines (line ∷ lines) = is_line line && are_lines lines

pub all_of-append :
    (test : ℕ → Bool) (xs ys : Text)
    → all_of test xs ≡ true
    → all_of test ys ≡ true
    → all_of test (xs ++ ys) ≡ true
all_of-append test [] ys h k = k
all_of-append test (x ∷ xs) ys h k =
    let p = both (test x) (all_of test xs) h in rw (p.0) (all_of-append test xs ys p.1 k)

pub is_line-all_of : (line : Text) → is_line line ≡ true → all_of is_plain line ≡ true
is_line-all_of [] h = refl
is_line-all_of (x ∷ xs) h = h

plain_not_end : (x : ℕ) → is_plain x ≡ true → (x == 13) ≡ false
plain_not_end x h = ground arith

end_not_plain : (x : ℕ) → is_plain x ≡ true → (13 == x) ≡ false
end_not_plain x h = ground arith

split_lines_past :
    (x : ℕ) (text : Text)
    → is_plain x ≡ true
    → split_lines (x ∷ text) ≡ on_line x (split_lines text)
unfolding split_lines
split_lines_past x [] h = refl
split_lines_past x (y ∷ text) h = rw (split_lines, plain_not_end x h) refl

split_lines_one : (line : Text) → all_of is_plain line ≡ true → split_lines line ≡ line ∷ []
unfolding split_lines
split_lines_one [] h = refl
split_lines_one (x ∷ xs) h =
    let p = both (is_plain x) (all_of is_plain xs) h in
    split_lines_past x xs p.0 ∙ ap (on_line x) (split_lines_one xs p.1)

split_lines_on :
    (line text : Text)
    → all_of is_plain line ≡ true
    → split_lines (line ++ (line_end ++ text)) ≡ line ∷ split_lines text
unfolding split_lines
split_lines_on [] text h = refl
split_lines_on (x ∷ xs) text h =
    let p = both (is_plain x) (all_of is_plain xs) h in
    split_lines_past x (xs ++ (line_end ++ text)) p.0 ∙ ap (on_line x) (split_lines_on xs text p.1)

pub split_lines-join :
    (line : Text) (lines : List Text)
    → are_lines (line ∷ lines) ≡ true
    → split_lines (join line_end (line ∷ lines)) ≡ line ∷ lines
unfolding join
split_lines-join line [] h =
    split_lines_one line (is_line-all_of line (both (is_line line) true h).0)
split_lines-join line (next ∷ lines) h =
    let p = both (is_line line) (are_lines (next ∷ lines)) h in
    split_lines_on line (join line_end (next ∷ lines)) (is_line-all_of line p.0)
    ∙ ap (λ ls. line ∷ ls) (split_lines-join next lines p.1)

plain_ascii : (xs : Text) → all_of is_plain xs ≡ true → all_of (λ x. ltb x 128) xs ≡ true
plain_ascii [] h = refl
plain_ascii (x ∷ xs) h =
    let p = both (is_plain x) (all_of is_plain xs) h in
    let q = both (ltb x 128) (not (x == 13)) p.0 in rw (q.0) (plain_ascii xs p.1)

pub all_of-join :
    (line : Text) (lines : List Text)
    → are_lines (line ∷ lines) ≡ true
    → all_of (λ x. ltb x 128) (join line_end (line ∷ lines)) ≡ true
unfolding join
all_of-join line [] h = plain_ascii line (is_line-all_of line (both (is_line line) true h).0)
all_of-join line (next ∷ lines) h =
    let p = both (is_line line) (are_lines (next ∷ lines)) h in
    all_of-append (λ x. ltb x 128) line (line_end ++ join line_end (next ∷ lines))
      (plain_ascii line (is_line-all_of line p.0)) (all_of-join next lines p.1)

before_blank_past :
    (line text before : Text)
    → all_of is_plain line ≡ true
    → before_blank text ≡ some before
    → before_blank (line ++ text) ≡ some (line ++ before)
unfolding before_blank starts
before_blank_past [] text before h e = e
before_blank_past (x ∷ xs) text before h e =
    let p = both (is_plain x) (all_of is_plain xs) h in
    rw (before_blank, starts, end_not_plain x p.0)
      (ap (on_text x) (before_blank_past xs text before p.1 e))

before_blank_break :
    (text before : Text)
    → starts line_end text ≡ false
    → before_blank text ≡ some before
    → before_blank (line_end ++ text) ≡ some (line_end ++ before)
unfolding before_blank starts
before_blank_break text before h e = rw h (ap (λ o. on_text 13 (on_text 10 o)) e)

starts-join :
    (line : Text) (lines : List Text) (rest : Text)
    → is_line line ≡ true
    → starts line_end (join line_end (line ∷ lines) ++ rest) ≡ false
unfolding join starts
starts-join [] lines rest h = elim (true≢false (sym h)) [ ]
starts-join (x ∷ xs) [] rest h =
    rw (end_not_plain x (both (is_plain x) (all_of is_plain xs) h).0) refl
starts-join (x ∷ xs) (next ∷ lines) rest h =
    rw (end_not_plain x (both (is_plain x) (all_of is_plain xs) h).0) refl

before_blank_end :
    (line rest : Text)
    → all_of is_plain line ≡ true
    → before_blank (line ++ (line_end ++ line_end ++ rest)) ≡ some line
unfolding before_blank starts
before_blank_end line rest h =
    before_blank_past line (line_end ++ line_end ++ rest) [] h refl ∙ ap some (append-nil line)

pub before_blank-join :
    (line : Text) (lines : List Text) (rest : Text)
    → are_lines (line ∷ lines) ≡ true
    → before_blank (join line_end (line ∷ lines) ++ (line_end ++ line_end ++ rest))
      ≡ some (join line_end (line ∷ lines))
unfolding join
before_blank-join line [] rest h =
    before_blank_end line rest (is_line-all_of line (both (is_line line) true h).0)
before_blank-join line (next ∷ lines) rest h =
    let p = both (is_line line) (are_lines (next ∷ lines)) h in
    let tail : Text = join line_end (next ∷ lines) in
    let end : Text = line_end ++ line_end ++ rest in
    ap before_blank (append_assoc line (line_end ++ tail) end)
    ∙ before_blank_past line (line_end ++ (tail ++ end)) (line_end ++ tail)
        (is_line-all_of line p.0)
        (before_blank_break (tail ++ end) tail
          (starts-join next lines end (both (is_line next) (are_lines lines) p.1).0)
          (before_blank-join next lines rest p.1))

negated : (b : Bool) → not b ≡ true → b ≡ false
negated true h = elim (true≢false (sym h)) [ ]
negated false h = refl

pub split_once_past :
    (mark : ℕ) (name rest : Text)
    → all_of (λ x. not (x == mark)) name ≡ true
    → split_once mark (name ++ mark ∷ rest) ≡ some (name, rest)
unfolding split_once
split_once_past mark [] rest h = rw (split_once, (==_iff mark mark).1 refl) refl
split_once_past mark (x ∷ name) rest h =
    let p = both (not (x == mark)) (all_of (λ x. not (x == mark)) name) h in
    rw (split_once, negated (x == mark) p.0) (ap (on_first x) (split_once_past mark name rest p.1))

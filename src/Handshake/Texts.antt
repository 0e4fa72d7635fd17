-- ===== src/Handshake/Texts.antt =====
-- The methods of str and bytes that the handshake uses and that compare or cut code points.
use jetsocket.Prelude.{
  ℕ, ◌≡◌, refl, ap, ap₂, Bool, true, false, ◌&&◌, ◌||◌, Option, none, some, List, [], ◌∷◌, ◌++◌, Eq,
  ◌==◌, ==_iff, true≢false, sym, ◌∙◌,
}
use jetsocket.Uri.Texts.{Text, same_text}

-- text.startswith(part)
unfoldable pub starts : Text → Text → Bool
starts [] text = true
starts (y ∷ ys) [] = false
starts (y ∷ ys) (x ∷ xs) = y == x && starts ys xs

-- part in text
unfoldable pub is_in : Text → Text → Bool
unfolding starts
is_in part [] = starts part []
is_in part (x ∷ xs) = starts part (x ∷ xs) || is_in part xs

abbrev pub on_first : ℕ → Option (Text × Text) → Option (Text × Text)
on_first x none = none
on_first x (some (before, after)) = some (x ∷ before, after)

-- text.split(mark, 1), and none where the mark does not occur.
unfoldable pub split_once : ℕ → Text → Option (Text × Text)
split_once mark [] = none
split_once mark (x ∷ xs) = elim (x == mark) [
  | true ↦ some ([], xs)
  | false ↦ on_first x (split_once mark xs)
]

abbrev pub on_line : ℕ → List Text → List Text
on_line x [] = (x ∷ []) ∷ []
on_line x (line ∷ lines) = (x ∷ line) ∷ lines

-- text.split(mark)
unfoldable pub split_all : ℕ → Text → List Text
split_all mark [] = [] ∷ []
split_all mark (x ∷ xs) = elim (x == mark) [
  | true ↦ [] ∷ split_all mark xs
  | false ↦ on_line x (split_all mark xs)
]

abbrev pub line_end : Text
line_end = 13 ∷ 10 ∷ []

-- text.split("\r\n")
unfoldable pub split_lines : Text → List Text
split_lines [] = [] ∷ []
split_lines (x ∷ []) = (x ∷ []) ∷ []
split_lines (x ∷ y ∷ xs) = elim (x == 13 && y == 10) [
  | true ↦ [] ∷ split_lines xs
  | false ↦ on_line x (split_lines (y ∷ xs))
]

abbrev pub on_text : ℕ → Option Text → Option Text
on_text x none = none
on_text x (some text) = some (x ∷ text)

-- The text before the first "\r\n\r\n".
unfoldable pub before_blank : Text → Option Text
unfolding starts
before_blank [] = none
before_blank (x ∷ xs) = elim (starts (line_end ++ line_end) (x ∷ xs)) [
  | true ↦ some []
  | false ↦ on_text x (before_blank xs)
]

-- mark.join(texts)
unfoldable pub join : Text → List Text → Text
join mark [] = []
join mark (text ∷ []) = text
join mark (text ∷ next ∷ texts) = text ++ (mark ++ join mark (next ∷ texts))

pub both : (a b : Bool) → (a && b) ≡ true → (a ≡ true) × (b ≡ true)
both true b h = (refl, h)
both false b h = elim (true≢false (sym h)) [ ]

pub same_text→≡ : (xs ys : Text) → same_text xs ys ≡ true → xs ≡ ys
same_text→≡ [] [] h = refl
same_text→≡ [] (y ∷ ys) h = elim (true≢false (sym h)) [ ]
same_text→≡ (x ∷ xs) [] h = elim (true≢false (sym h)) [ ]
same_text→≡ (x ∷ xs) (y ∷ ys) h =
    let p = both (x == y) (same_text xs ys) h in
    ap₂ ◌∷◌ ((==_iff x y).0 p.0) (same_text→≡ xs ys p.1)

pub same_text_refl : (xs : Text) → same_text xs xs ≡ true
same_text_refl [] = refl
same_text_refl (x ∷ xs) = ap₂ ◌&&◌ ((==_iff x x).1 refl) (same_text_refl xs)

instance abbrev pub text_eq : Eq Text
text_eq = record {
  beq = same_text;
  beq_iff = λ xs ys. (same_text→≡ xs ys, λ e. ap (same_text xs) (sym e) ∙ same_text_refl xs);
}

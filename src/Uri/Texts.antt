-- ===== src/Uri/Texts.antt =====
-- Python's text as code points, and a number as an f-string writes it.
use Prim.Native.Char.{code}
use jetsocket.Prelude.{
  ℕ, zero, suc, ◌+◌, ◌/◌, ◌%◌, Bool, true, false, ◌&&◌, String, List, [], ◌∷◌, ◌++◌, ltb, ◌==◌,
  if◌then◌else◌,
}

abbrev pub Text : Type 0
Text = List ℕ

-- A literal.
abbrev pub literal : String → Text
literal String.[] = []
literal (String.◌∷◌ letter letters) = code letter ∷ literal letters

abbrev pub same_text : Text → Text → Bool
same_text [] [] = true
same_text [] (y ∷ ys) = false
same_text (x ∷ xs) [] = false
same_text (x ∷ xs) (y ∷ ys) = x == y && same_text xs ys

-- The decimal digits, of which a number has no more than its value, or one.
decimal_on : ℕ → ℕ → Text
decimal_on zero n = (48 + n % 10) ∷ []
decimal_on (suc fuel) n =
    let high : Text = decimal_on fuel (n / 10) in
    if ltb n 10 then (48 + n) ∷ [] else high ++ ((48 + n % 10) ∷ [])

unfoldable pub decimal : ℕ → Text
unfolding decimal_on
decimal n = decimal_on n n

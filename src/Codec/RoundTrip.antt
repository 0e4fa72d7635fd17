-- ===== src/Codec/RoundTrip.antt =====
-- The parser reads back what the encoder writes.
use Prim.Native.Nat.{bit_or}
use jetsocket.Prelude.{
  ℕ, ◌+◌, ◌/◌, ◌%◌, ◌^◌, ◌≤◌, ◌<◌, ◌≡◌, refl, sym, ap, ◌∙◌, arith, Bool, true, false, Option, none,
  some, List, [], ◌∷◌, ◌++◌, append_assoc, length, length-append, take, take-all, leb,
  if◌then◌else◌, if_true, if_false, Bool-cases, leb→le, inl, inr,
}
use jetsocket.Codec.Bytes.{IsBytes}
use jetsocket.Codec.Mask.{Key, IsKey, key_bytes, apply_mask_c}
use jetsocket.Codec.Words.{apply_mask_c_twice, length-apply_mask_c}
use jetsocket.Codec.Opcode.{Opcode, is_control}
use jetsocket.Codec.Parse.{parsed, frame_payload, parse_frame}
use jetsocket.Codec.Encode.{
  first_octet, mask_bit, length_octets, size_octets, masked_octets, encode_frame,
}
use jetsocket.Codec.Octets.{is_some, first_octet-fields, second_length, second_bit}
use jetsocket.Codec.Whole.{Allowed, whole, size_small, size_medium, size_large, parse-whole}

-- Both ways that the parser takes the payload out of what the encoder put there.
abbrev pub IsMasking : Option Key → Type 0
IsMasking none = Unit {0}
IsMasking (some key) = IsKey key

unmask :
    (payload : List ℕ) (key : Key) (rest : List ℕ)
    → IsBytes payload
    → IsKey key
    → apply_mask_c (take (length payload) (apply_mask_c payload key ++ rest)) key ≡ payload
unmask payload key rest h k =
    ap (λ (n : ℕ). apply_mask_c (take n (apply_mask_c payload key ++ rest)) key)
      (sym (length-apply_mask_c payload key))
    ∙ ap (λ (r : List ℕ). apply_mask_c r key) (take-all (apply_mask_c payload key) rest)
    ∙ apply_mask_c_twice payload key h k

length-masked :
    (payload : List ℕ) (key : Key) (rest : List ℕ)
    → length payload ≤ length (apply_mask_c payload key ++ rest)
length-masked payload key rest =
    omega (arith, length-append (apply_mask_c payload key) rest, length-apply_mask_c payload key)

length-bare : (payload rest : List ℕ) → length payload ≤ length (payload ++ rest)
length-bare payload rest = omega (arith, length-append payload rest)

-- The frame's octets, for a second octet and the length octets after it.
abbrev laid_out : ℕ → ℕ → List ℕ → List ℕ → List ℕ
laid_out f s extended tail = f ∷ s ∷ extended ++ tail

module _ (max : ℕ) (op : Opcode) (payload : List ℕ) (fin rsv1 : Bool) (rest : List ℕ)
    (bytes : IsBytes payload) (fits : length payload ≤ max)
    (allowed : Allowed op fin (length payload)) where
  abbrev first : ℕ
  first = first_octet op fin rsv1

  abbrev Reads : Option Key → ℕ → List ℕ → ℕ → Type 0
  Reads key seven extended h =
      parse_frame max
        (laid_out first (bit_or (mask_bit key) seven) extended (masked_octets key payload ++ rest))
      ≡ whole op fin rsv1 payload (h + length payload)

  small-Reads :
      (key : Option Key)
      → IsMasking key
      → length payload ≤ 125
      → Reads key (length payload) [] (if is_some key then 6 else 2)
  unfolding masked_octets frame_payload
  small-Reads none k le =
      let n : ℕ = length payload in
      parse-whole max first (bit_or 0 n) (payload ++ rest) (first_octet-fields op fin rsv1)
        (second_bit none n (omega arith))
        (size_small _ _ 0 n (second_length none n (omega arith)) le) fits allowed
        (omega (arith, length-bare payload rest)) (take-all payload rest)
  small-Reads (some key) k le =
      let n : ℕ = length payload in
      parse-whole max first (bit_or 0x80 n) (key_bytes key ++ (apply_mask_c payload key ++ rest))
        (first_octet-fields op fin rsv1) (second_bit (some key) n (omega arith))
        (size_small _ _ 4 n (second_length (some key) n (omega arith)) le) fits allowed
        (omega (arith, length-masked payload key rest)) (unmask payload key rest bytes k)

  medium-Reads :
      (key : Option Key)
      → IsMasking key
      → length payload ≤ 65535
      → Reads key 126
          (length payload / 2 ^ 8 % 256 ∷ length payload % 256 ∷ [])
          (if is_some key then 8 else 4)
  unfolding masked_octets frame_payload
  medium-Reads none k le =
      let n : ℕ = length payload in
      parse-whole max first (bit_or 0 126) ((n / 2 ^ 8 % 256 ∷ n % 256 ∷ []) ++ (payload ++ rest))
        (first_octet-fields op fin rsv1) (second_bit none 126 (omega arith))
        (size_medium first (bit_or 0 126) (payload ++ rest) _ 0 n
          (second_length none 126 (omega arith)) le)
        fits allowed (omega (arith, length-bare payload rest)) (take-all payload rest)
  medium-Reads (some key) k le =
      let n : ℕ = length payload in
      let t : List ℕ = key_bytes key ++ (apply_mask_c payload key ++ rest) in
      parse-whole max first (bit_or 0x80 126) ((n / 2 ^ 8 % 256 ∷ n % 256 ∷ []) ++ t)
        (first_octet-fields op fin rsv1) (second_bit (some key) 126 (omega arith))
        (size_medium first (bit_or 0x80 126) t _ 4 n (second_length (some key) 126 (omega arith))
          le)
        fits allowed (omega (arith, length-masked payload key rest))
        (unmask payload key rest bytes k)

  large-Reads :
      (key : Option Key)
      → IsMasking key
      → length payload < 2 ^ 63
      → Reads key 127 (length_octets (length payload)) (if is_some key then 14 else 10)
  unfolding masked_octets frame_payload
  large-Reads none k le =
      let n : ℕ = length payload in
      parse-whole max first (bit_or 0 127) (length_octets n ++ (payload ++ rest))
        (first_octet-fields op fin rsv1) (second_bit none 127 (omega arith))
        (size_large first (bit_or 0 127) (payload ++ rest) _ 0 n
          (second_length none 127 (omega arith)) le)
        fits allowed (omega (arith, length-bare payload rest)) (take-all payload rest)
  large-Reads (some key) k le =
      let n : ℕ = length payload in
      let t : List ℕ = key_bytes key ++ (apply_mask_c payload key ++ rest) in
      parse-whole max first (bit_or 0x80 127) (length_octets n ++ t)
        (first_octet-fields op fin rsv1) (second_bit (some key) 127 (omega arith))
        (size_large first (bit_or 0x80 127) t _ 4 n (second_length (some key) 127 (omega arith)) le)
        fits allowed (omega (arith, length-masked payload key rest))
        (unmask payload key rest bytes k)

  abbrev octets : Option Key → List ℕ
  octets key = encode_frame op payload key fin rsv1

  length-masked_octets :
      (key : Option Key)
      → length (masked_octets key payload) ≡ (if is_some key then 4 else 0) + length payload
  unfolding masked_octets
  length-masked_octets none = omega arith
  length-masked_octets (some key) = omega (arith, length-apply_mask_c payload key)

  -- What the size octets are.
  abbrev Encoded : Option Key → ℕ → List ℕ → Type 0
  Encoded key seven extended =
      size_octets (mask_bit key) (length payload) ≡ bit_or (mask_bit key) seven ∷ extended

  Encoded-Reads :
      (key : Option Key) (seven : ℕ) (extended : List ℕ) (h : ℕ)
      → Encoded key seven extended
      → Reads key seven extended h
      → h ≡ 2 + length extended + (if is_some key then 4 else 0)
      → parse_frame max (octets key ++ rest) ≡ whole op fin rsv1 payload (length (octets key))
  unfolding encode_frame
  Encoded-Reads key seven extended h e r l =
      let z : List ℕ = bit_or (mask_bit key) seven ∷ extended in
      ap (λ (y : List ℕ). parse_frame max (first ∷ (y ++ masked_octets key payload) ++ rest)) e
      ∙ ap (λ (y : List ℕ). parse_frame max (first ∷ y))
          (append_assoc z (masked_octets key payload) rest)
      ∙ r
      ∙ ap (whole op fin rsv1 payload) (
          omega (arith, length-append z (masked_octets key payload), length-masked_octets key, l)
          ∙ ap (λ (y : List ℕ). length (first ∷ y ++ masked_octets key payload)) (sym e))

  size_of :
      (key : Option Key) (a b : ℕ)
      → (if is_some key then a + b else a) ≡ a + (if is_some key then b else 0)
  size_of none a b = omega arith
  size_of (some key) a b = refl

  round_trip :
      (key : Option Key)
      → IsMasking key
      → length payload < 2 ^ 63
      → parse_frame max (octets key ++ rest) ≡ whole op fin rsv1 payload (length (octets key))
  unfolding size_octets
  round_trip key k lt =
      let n : ℕ = length payload in
      elim (Bool-cases (leb n 125)) [
        | inl small ↦
            Encoded-Reads key n [] (if is_some key then 6 else 2) (if_true (leb n 125) _ _ small)
              (small-Reads key k (leb→le n 125 small)) (size_of key 2 4)
        | inr more ↦ elim (Bool-cases (leb n 65535)) [
          | inl medium ↦
              Encoded-Reads key 126 (n / 2 ^ 8 % 256 ∷ n % 256 ∷ []) (if is_some key then 8 else 4)
                (if_false (leb n 125) _ _ more ∙ if_true (leb n 65535) _ _ medium)
                (medium-Reads key k (leb→le n 65535 medium)) (size_of key 4 4)
          | inr large ↦
              Encoded-Reads key 127 (length_octets n) (if is_some key then 14 else 10)
                (if_false (leb n 125) _ _ more ∙ if_false (leb n 65535) _ _ large)
                (large-Reads key k lt) (size_of key 10 4)
        ]
      ]

-- A frame that is encoded and followed by any octets is parsed back: the same opcode, payload, fin
-- and rsv1, with as many octets consumed as were encoded. The payload's and the key's octets are
-- bytes, the payload is within the parser's limit and shorter than 2 ^ 63, and a control frame is
-- final with at most 125 octets.
pub parse_frame-encode_frame :
    (max : ℕ) (op : Opcode) (payload : List ℕ) (key : Option Key) (fin rsv1 : Bool) (rest : List ℕ)
    → IsBytes payload
    → IsMasking key
    → length payload ≤ max
    → length payload < 2 ^ 63
    → (is_control op ≡ true → (length payload ≤ 125) × (fin ≡ true))
    → parse_frame max (encode_frame op payload key fin rsv1 ++ rest)
      ≡ parsed
          (record {
            opcode = op;
            payload = payload;
            fin = fin;
            rsv1 = rsv1;
            rsv2 = false;
            rsv3 = false;
          })
          (length (encode_frame op payload key fin rsv1))
parse_frame-encode_frame max op payload key fin rsv1 rest bytes k le lt ok =
    round_trip max op payload fin rsv1 rest bytes le ok key k lt

-- ===== src/Codec/Whole.antt =====
-- The parser on a buffer that holds a whole frame.
use Prim.Native.Nat.{bit_and}
use jetsocket.Prelude.{
  ℕ, ◌+◌, ◌/◌, ◌%◌, ◌^◌, ◌≤◌, ◌<◌, ◌≡◌, refl, ap, ap₂, ◌∙◌, arith, Bool, true, false, ◌||◌, List,
  ◌∷◌, ◌++◌, length, ltb, leb, ◌==◌, if◌then◌else◌, if_true, if_false, if_either, if_either, lt→ltb,
  le→leb, ==_iff,
}
use jetsocket.Codec.Opcode.{Opcode, is_control, big16}
use jetsocket.Codec.Parse.{
  Parse, parsed, overflow, sized, has_bit, big64, frame_size, frame_payload, parse_payload,
  parse_sized, parse_opcode, parse_frame,
}
use jetsocket.Codec.Encode.{length_octets}
use jetsocket.Codec.Octets.{HasFields}

-- The length octets at each of the three sizes.
pub size_small : (buf : List ℕ) (p m n : ℕ) → p ≡ n → n ≤ 125 → frame_size buf p m ≡ sized (2 + m) n
unfolding frame_size
size_small buf p m n e h =
    if_true (leb p 125) _ _ (le→leb p 125 (omega arith)) ∙ ap (sized (2 + m)) e

halves : (n : ℕ) → n ≤ 65535 → big16 (n / 2 ^ 8 % 256) (n % 256) ≡ n
halves n h = omega arith

pub size_medium :
    (f s : ℕ) (t : List ℕ) (p m n : ℕ)
    → p ≡ 126
    → n ≤ 65535
    → frame_size (f ∷ s ∷ n / 2 ^ 8 % 256 ∷ n % 256 ∷ t) p m ≡ sized (4 + m) n
unfolding frame_size
size_medium f s t p m n e h =
    if_false (leb p 125) _ _ (ground arith)
    ∙ if_true (p == 126) _ _ ((==_iff p 126).1 e)
    ∙ if_false (ltb (length (f ∷ s ∷ n / 2 ^ 8 % 256 ∷ n % 256 ∷ t)) 4) _ _ (ground arith)
    ∙ ap (sized (4 + m)) (halves n h)

pub size_large :
    (f s : ℕ) (t : List ℕ) (p m n : ℕ)
    → p ≡ 127
    → n < 2 ^ 63
    → frame_size (f ∷ s ∷ length_octets n ++ t) p m ≡ sized (10 + m) n
unfolding frame_size
size_large f s t p m n e h =
    let b : List ℕ = f ∷ s ∷ length_octets n ++ t in
    let v : big64 b ≡ n = omega arith in
    if_false (leb p 125) _ _ (ground arith)
    ∙ if_false (p == 126) _ _ (ground arith)
    ∙ if_false (ltb (length b) 10) _ _ (ground arith)
    ∙ if_true (ltb (big64 b) (2 ^ 63)) _ overflow (lt→ltb (big64 b) (2 ^ 63) (omega (arith, v)))
    ∙ ap (sized (10 + m)) v

-- The parser on a buffer whose header it reads and that holds the whole frame.
abbrev pub Allowed : Opcode → Bool → ℕ → Type 0
Allowed op fin n = is_control op ≡ true → (n ≤ 125) × (fin ≡ true)

or_false : (a b : Bool) → a ≡ false → b ≡ false → (a || b) ≡ false
or_false true b h k = absurd cc
or_false false b h k = k

abbrev pub whole : Opcode → Bool → Bool → List ℕ → ℕ → Parse
whole op fin rsv1 payload size =
    parsed
      (record {
        opcode = op;
        payload = payload;
        fin = fin;
        rsv1 = rsv1;
        rsv2 = false;
        rsv3 = false;
      })
      size

parse_payload-whole :
    (buf : List ℕ) (op : Opcode) (fin rsv1 masked : Bool) (h n : ℕ) (payload : List ℕ)
    → h + n ≤ length buf
    → frame_payload buf masked h n ≡ payload
    → parse_payload buf op fin rsv1 masked h n ≡ whole op fin rsv1 payload (h + n)
unfolding parse_payload
parse_payload-whole buf op fin rsv1 masked h n payload fits pl =
    if_false (ltb (length buf) (h + n)) _ _ (ground arith)
    ∙ ap (λ (p : List ℕ). whole op fin rsv1 p (h + n)) pl

parse_sized-whole :
    (max : ℕ) (buf : List ℕ) (op : Opcode) (fin rsv1 masked : Bool) (h n : ℕ)
    → n ≤ max
    → Allowed op fin n
    → parse_sized max buf op fin rsv1 masked (sized h n) ≡ parse_payload buf op fin rsv1 masked h n
unfolding parse_sized
parse_sized-whole max buf op fin rsv1 masked h n le ok =
    if_false (ltb max n) _ _ (ground arith)
    ∙ if_either (λ (r : Parse). r ≡ parse_payload buf op fin rsv1 masked h n) (is_control op)
        (λ c. if_false (ltb 125 n) _ _ (ground (arith, ok c)) ∙ if_true fin _ _ (ok c).1)
        (λ c. refl)

pub parse-whole :
    (max f s : ℕ) (t : List ℕ) {op : Opcode} {fin rsv1 masked : Bool} {h n : ℕ} {payload : List ℕ}
    → HasFields f op fin rsv1
    → has_bit s 0x80 ≡ masked
    → frame_size (f ∷ s ∷ t) (bit_and s 0x7F) (if masked then 4 else 0) ≡ sized h n
    → n ≤ max
    → Allowed op fin n
    → h + n ≤ length (f ∷ s ∷ t)
    → frame_payload (f ∷ s ∷ t) masked h n ≡ payload
    → parse_frame max (f ∷ s ∷ t) ≡ whole op fin rsv1 payload (h + n)
unfolding parse_frame parse_opcode
parse-whole max f s t {op} {fin} {rsv1} {masked} {h} {n} {payload} fs mb sz le ok fits pl =
    let buf : List ℕ = f ∷ s ∷ t in
    if_false (ltb (length buf) 2) _ _ (ground arith)
    ∙ ap (parse_opcode max buf f s) (fs.0)
    ∙ if_false (has_bit f 0x20 || has_bit f 0x10) _ _
        (or_false (has_bit f 0x20) (has_bit f 0x10) (fs.1.0) (fs.1.1.0))
    ∙ ap₂
        (λ (a b : Bool).
          parse_sized max buf op a b (has_bit s 0x80)
            (frame_size buf (bit_and s 0x7F) (if has_bit s 0x80 then 4 else 0)))
        (fs.1.1.1.0) (fs.1.1.1.1)
    ∙ ap
        (λ (m : Bool).
          parse_sized max buf op fin rsv1 m (frame_size buf (bit_and s 0x7F) (if m then 4 else 0)))
        mb
    ∙ ap (parse_sized max buf op fin rsv1 masked) sz
    ∙ parse_sized-whole max buf op fin rsv1 masked h n le ok
    ∙ parse_payload-whole buf op fin rsv1 masked h n payload fits pl

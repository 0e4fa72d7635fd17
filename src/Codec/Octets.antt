-- ===== src/Codec/Octets.antt =====
-- What the parser reads in the first two octets that the encoder writes.
use Prim.Native.Nat.{bit_and, bit_or}
use jetsocket.Prelude.{
  ℕ, zero, suc, ◌<◌, ◌≡◌, refl, arith, Bool, true, false, ◌&&◌, not, Option, none, some, ◌==◌,
  ==_iff,
}
use jetsocket.Codec.Mask.{Key}
use jetsocket.Codec.Opcode.{Opcode, continuation, text, binary, close, ping, pong, opcode_of}
use jetsocket.Codec.Parse.{has_bit}
use jetsocket.Codec.Encode.{first_octet, mask_bit}

-- What the parser reads in a first octet.
abbrev pub HasFields : ℕ → Opcode → Bool → Bool → Type 0
HasFields byte op fin rsv1 =
    (opcode_of (bit_and byte 0x0F) ≡ some op)
    × ((has_bit byte 0x20 ≡ false)
        × ((has_bit byte 0x10 ≡ false) × ((has_bit byte 0x80 ≡ fin) × (has_bit byte 0x40 ≡ rsv1))))

pub first_octet-fields :
    (op : Opcode) (fin rsv1 : Bool) → HasFields (first_octet op fin rsv1) op fin rsv1
unfolding opcode_of
first_octet-fields continuation true true = (refl, (refl, (refl, (refl, refl))))
first_octet-fields continuation true false = (refl, (refl, (refl, (refl, refl))))
first_octet-fields continuation false true = (refl, (refl, (refl, (refl, refl))))
first_octet-fields continuation false false = (refl, (refl, (refl, (refl, refl))))
first_octet-fields text true true = (refl, (refl, (refl, (refl, refl))))
first_octet-fields text true false = (refl, (refl, (refl, (refl, refl))))
first_octet-fields text false true = (refl, (refl, (refl, (refl, refl))))
first_octet-fields text false false = (refl, (refl, (refl, (refl, refl))))
first_octet-fields binary true true = (refl, (refl, (refl, (refl, refl))))
first_octet-fields binary true false = (refl, (refl, (refl, (refl, refl))))
first_octet-fields binary false true = (refl, (refl, (refl, (refl, refl))))
first_octet-fields binary false false = (refl, (refl, (refl, (refl, refl))))
first_octet-fields close true true = (refl, (refl, (refl, (refl, refl))))
first_octet-fields close true false = (refl, (refl, (refl, (refl, refl))))
first_octet-fields close false true = (refl, (refl, (refl, (refl, refl))))
first_octet-fields close false false = (refl, (refl, (refl, (refl, refl))))
first_octet-fields ping true true = (refl, (refl, (refl, (refl, refl))))
first_octet-fields ping true false = (refl, (refl, (refl, (refl, refl))))
first_octet-fields ping false true = (refl, (refl, (refl, (refl, refl))))
first_octet-fields ping false false = (refl, (refl, (refl, (refl, refl))))
first_octet-fields pong true true = (refl, (refl, (refl, (refl, refl))))
first_octet-fields pong true false = (refl, (refl, (refl, (refl, refl))))
first_octet-fields pong false true = (refl, (refl, (refl, (refl, refl))))
first_octet-fields pong false false = (refl, (refl, (refl, (refl, refl))))

-- The second octet holds seven bits of length and the mask bit.
holds_up_to : (ℕ → Bool) → ℕ → Bool
holds_up_to test zero = true
holds_up_to test (suc limit) = holds_up_to test limit && test limit

below-holds_up_to :
    (test : ℕ → Bool) (limit n : ℕ) → holds_up_to test limit ≡ true → n < limit → test n ≡ true
unfolding holds_up_to
below-holds_up_to test zero n table less = absurd (omega arith)
below-holds_up_to test (suc limit) n table less = ground (arith, below-holds_up_to test limit n)

abbrev reads_back : ℕ → ℕ → Bool
reads_back bit n = bit_and (bit_or bit n) 0x7F == n

bare_lengths : holds_up_to (reads_back 0) 128 ≡ true
unfolding holds_up_to
bare_lengths = refl

masked_lengths : holds_up_to (reads_back 0x80) 128 ≡ true
unfolding holds_up_to
masked_lengths = refl

bare_bits : holds_up_to (λ (n : ℕ). not (has_bit (bit_or 0 n) 0x80)) 128 ≡ true
unfolding holds_up_to
bare_bits = refl

masked_bits : holds_up_to (λ (n : ℕ). has_bit (bit_or 0x80 n) 0x80) 128 ≡ true
unfolding holds_up_to
masked_bits = refl

abbrev pub is_some : Option Key → Bool
is_some none = false
is_some (some key) = true

pub second_length :
    (key : Option Key) (n : ℕ) → n < 128 → bit_and (bit_or (mask_bit key) n) 0x7F ≡ n
second_length none n h = (==_iff _ n).0 (below-holds_up_to _ 128 n bare_lengths h)
second_length (some key) n h = (==_iff _ n).0 (below-holds_up_to _ 128 n masked_lengths h)

not-true : (b : Bool) → not b ≡ true → b ≡ false
not-true true h = absurd cc
not-true false h = refl

pub second_bit :
    (key : Option Key) (n : ℕ) → n < 128 → has_bit (bit_or (mask_bit key) n) 0x80 ≡ is_some key
second_bit none n h = not-true _ (below-holds_up_to _ 128 n bare_bits h)
second_bit (some key) n h = below-holds_up_to _ 128 n masked_bits h

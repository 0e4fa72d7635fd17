-- ===== src/Codec/Encode.antt =====
-- `encode`, `encode_close` and `_encode_frame` of jetsocket/_core.pyx. The four octets of
-- os.urandom are an argument, and no key stands for mask=False.
use Prim.Native.Nat.{bit_or}
use jetsocket.Prelude.{
  ℕ, ◌/◌, ◌%◌, ◌^◌, Bool, true, false, Option, none, some, List, [], ◌∷◌, ◌++◌, leb, if◌then◌else◌,
  length,
}
use jetsocket.Codec.Mask.{Key, key_bytes, apply_mask_c}
use jetsocket.Codec.Opcode.{Opcode, close, value}

abbrev pub first_octet : Opcode → Bool → Bool → ℕ
first_octet op fin rsv1 =
    let first_byte : ℕ = bit_or (if fin then 0x80 else 0x00) (value op) in
    if rsv1 then bit_or first_byte 0x40 else first_byte

abbrev pub mask_bit : Option Key → ℕ
mask_bit none = 0x00
mask_bit (some key) = 0x80

-- (payload_len >> (i * 8)) & 0xFF for i from 7 to 0.
abbrev pub length_octets : ℕ → List ℕ
length_octets n =
    n / 2 ^ 56 % 256
    ∷ n / 2 ^ 48 % 256
    ∷ n / 2 ^ 40 % 256
    ∷ n / 2 ^ 32 % 256
    ∷ n / 2 ^ 24 % 256
    ∷ n / 2 ^ 16 % 256
    ∷ n / 2 ^ 8 % 256
    ∷ n % 256
    ∷ []

-- The second octet and the extended length.
unfoldable pub size_octets : ℕ → ℕ → List ℕ
size_octets bit n =
    if leb n 125
    then bit_or bit n ∷ []
    else if leb n 65535
    then bit_or bit 126 ∷ n / 2 ^ 8 % 256 ∷ n % 256 ∷ []
    else bit_or bit 127 ∷ length_octets n

unfoldable pub masked_octets : Option Key → List ℕ → List ℕ
masked_octets none payload = payload
masked_octets (some key) payload = key_bytes key ++ apply_mask_c payload key

unfoldable pub encode_frame : Opcode → List ℕ → Option Key → Bool → Bool → List ℕ
encode_frame op payload key fin rsv1 =
    first_octet op fin rsv1 ∷ size_octets (mask_bit key) (length payload)
    ++ masked_octets key payload

-- struct.pack(">H", code) raises struct.error for a code past 16 bits.
unfoldable pub encode_close : ℕ → List ℕ → Option Key → Option (List ℕ)
encode_close code reason key =
    if leb code 65535
    then some (encode_frame close (code / 2 ^ 8 ∷ code % 256 ∷ reason) key true false)
    else none

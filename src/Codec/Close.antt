-- ===== src/Codec/Close.antt =====
-- The close frame: what `encode_close` writes is what `close_code` and `close_reason` read.
use jetsocket.Prelude.{
  ℕ, ◌/◌, ◌%◌, ◌^◌, ◌≤◌, ◌≡◌, refl, ap, ◌∙◌, arith, true, false, Option, some, List, [], ◌∷◌, ◌++◌,
  length, ltb, leb, if_true, if_false, le→leb,
}
use jetsocket.Codec.Bytes.{IsBytes}
use jetsocket.Codec.Opcode.{close, Frame, close_code, close_reason_octets, big16}
use jetsocket.Codec.Parse.{parsed, parse_frame}
use jetsocket.Codec.Encode.{encode_frame, encode_close}
use jetsocket.Codec.RoundTrip.{IsMasking, parse_frame-encode_frame}
use jetsocket.Codec.Mask.{Key}

abbrev pub close_frame : ℕ → List ℕ → Frame
close_frame code reason = record {
  opcode = close;
  payload = code / 2 ^ 8 ∷ code % 256 ∷ reason;
  fin = true;
  rsv1 = false;
  rsv2 = false;
  rsv3 = false;
}

close_code-close_frame :
    (code : ℕ) (reason : List ℕ) → code ≤ 65535 → close_code (close_frame code reason) ≡ some code
unfolding close_code
close_code-close_frame code reason le =
    if_false (ltb (length (code / 2 ^ 8 ∷ code % 256 ∷ reason)) 2) _ _ (ground arith)
    ∙ ap some (halves code)
  where
    halves : (n : ℕ) → big16 (n / 2 ^ 8) (n % 256) ≡ n
    halves n = omega arith

close_reason_octets-close_frame :
    (code : ℕ) (reason : List ℕ) → close_reason_octets (close_frame code reason) ≡ reason
unfolding close_reason_octets
close_reason_octets-close_frame code [] = refl
close_reason_octets-close_frame code (x ∷ reason) =
    if_false (leb (length (code / 2 ^ 8 ∷ code % 256 ∷ x ∷ reason)) 2) _ _ (ground arith)

-- For a code of 16 bits and a reason of at most 123 octets, `encode_close` gives a frame, the parser
-- reads it back from the front of any buffer whose limit is at least 125, and its close code and its
-- reason are those that were sent.
pub encode_close-close_code :
    (max code : ℕ) (reason : List ℕ) (key : Option Key) (rest : List ℕ)
    → code ≤ 65535
    → IsBytes reason
    → length reason ≤ 123
    → IsMasking key
    → 125 ≤ max
    → (octets : List ℕ) × ((encode_close code reason key ≡ some octets)
        × ((parse_frame max (octets ++ rest) ≡ parsed (close_frame code reason) (length octets))
            × ((close_code (close_frame code reason) ≡ some code)
                × (close_reason_octets (close_frame code reason) ≡ reason))))
unfolding encode_close
encode_close-close_code max code reason key rest le bytes short k lim =
    let payload : List ℕ = code / 2 ^ 8 ∷ code % 256 ∷ reason in
    (
      encode_frame close payload key true false,
      (
        if_true (leb code 65535) _ _ (le→leb code 65535 le),
        (
          parse_frame-encode_frame max close payload key true false rest
              (omega arith, (omega arith, bytes)) k (omega arith) (omega arith)
              (λ c. (omega arith, refl)),
          (close_code-close_frame code reason le, close_reason_octets-close_frame code reason),
        ),
      ),
    )

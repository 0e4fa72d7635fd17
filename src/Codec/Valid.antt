-- ===== src/Codec/Valid.antt =====
-- What every frame that the parser delivers satisfies.
use jetsocket.Prelude.{
  ℕ, ◌+◌, ◌^◌, ◌≤◌, ◌≡◌, refl, ◌∙◌, arith, Bool, true, false, ◌||◌, Option, none, some, List,
  length, take, drop, drop-length, length-take, ltb, leb, ◌==◌, if_either, ◌⊎◌, inl, inr,
  true≢false, sym,
}
use jetsocket.Codec.Words.{length-apply_mask_c}
use jetsocket.Codec.Opcode.{Opcode, is_control, Frame}
use jetsocket.Codec.Parse.{
  Parse, need_more, bad, parsed, Size, short, overflow, sized, octet, has_bit, big64, frame_size,
  frame_payload, parse_payload, parse_sized, parse_opcode, parse_frame,
}

-- A data frame is within the limit and a control frame is final and short; the reserved bits 2 and 3
-- are clear.
abbrev pub IsValid : ℕ → Frame → Type 0
IsValid max frame =
    (length frame.payload ≤ max)
    × (((is_control frame.opcode ≡ false) ⊎ ((length frame.payload ≤ 125) × (frame.fin ≡ true)))
        × ((frame.rsv2 ≡ false) × (frame.rsv3 ≡ false)))

abbrev pub IsSound : ℕ → List ℕ → Parse → Type 0
IsSound max buf need_more = Unit {0}
IsSound max buf (bad error) = Unit {0}
IsSound max buf (parsed frame consumed) =
    IsValid max frame × ((2 + length frame.payload ≤ consumed) × (consumed ≤ length buf))

abbrev Headed : Size → Type 0
Headed short = Unit {0}
Headed overflow = Unit {0}
Headed (sized h n) = 2 ≤ h

frame_size-Headed : (buf : List ℕ) (p m : ℕ) → Headed (frame_size buf p m)
unfolding frame_size
frame_size-Headed buf p m =
    if_either Headed (leb p 125) (λ e. omega arith)
      (λ e.
        if_either Headed (p == 126)
          (λ f. if_either Headed (ltb (length buf) 4) (λ g. tt) (λ g. omega arith))
          (λ f.
            if_either Headed (ltb (length buf) 10) (λ g. tt)
              (λ g. if_either Headed (ltb (big64 buf) (2 ^ 63)) (λ k. omega arith) (λ k. tt))))

length-frame_payload :
    (buf : List ℕ) (masked : Bool) (h n : ℕ)
    → h + n ≤ length buf
    → length (frame_payload buf masked h n) ≡ n
unfolding frame_payload
length-frame_payload buf masked h n le =
    let e : length (take n (drop h buf)) ≡ n =
      length-take n (drop h buf) (omega (arith, drop-length h buf)) in
    if_either (λ (r : List ℕ). length r ≡ n) masked
      (λ m. length-apply_mask_c (take n (drop h buf)) _ ∙ e) (λ m. e)

parse_payload-IsSound :
    (max : ℕ) (buf : List ℕ) (op : Opcode) (fin rsv1 masked : Bool) (h n : ℕ)
    → 2 ≤ h
    → n ≤ max
    → (is_control op ≡ false) ⊎ ((n ≤ 125) × (fin ≡ true))
    → IsSound max buf (parse_payload buf op fin rsv1 masked h n)
unfolding parse_payload
parse_payload-IsSound max buf op fin rsv1 masked h n two le ok =
    if_either (IsSound max buf) (ltb (length buf) (h + n)) (λ e. tt)
      (λ e.
        let l = length-frame_payload buf masked h n (ground arith) in
        (
          (
            omega (arith, l),
            (elim ok [ inl c ↦ inl c | inr c ↦ inr (omega (arith, l, c.0), c.1) ], (refl, refl)),
          ),
          (omega (arith, l), ground arith),
        ))

parse_sized-IsSound :
    (max : ℕ) (buf : List ℕ) (op : Opcode) (fin rsv1 masked : Bool) (size : Size)
    → Headed size
    → IsSound max buf (parse_sized max buf op fin rsv1 masked size)
unfolding parse_sized
parse_sized-IsSound max buf op fin rsv1 masked short headed = tt
parse_sized-IsSound max buf op fin rsv1 masked overflow headed = tt
parse_sized-IsSound max buf op fin rsv1 masked (sized h n) headed =
    if_either (IsSound max buf) (ltb max n) (λ e. tt)
      (λ le.
        if_either (IsSound max buf) (is_control op)
          (λ c.
            if_either (IsSound max buf) (ltb 125 n) (λ e. tt)
              (λ e.
                if_either (IsSound max buf) fin
                  (λ f.
                    parse_payload-IsSound max buf op fin rsv1 masked h n headed (ground arith)
                      (inr (ground arith, f)))
                  (λ f. tt)))
          (λ c. parse_payload-IsSound max buf op fin rsv1 masked h n headed (ground arith) (inl c)))

parse_opcode-IsSound :
    (max : ℕ) (buf : List ℕ) (first second : ℕ) (o : Option Opcode)
    → IsSound max buf (parse_opcode max buf first second o)
unfolding parse_opcode
parse_opcode-IsSound max buf first second none = tt
parse_opcode-IsSound max buf first second (some op) =
    if_either (IsSound max buf) (has_bit first 0x20 || has_bit first 0x10) (λ e. tt)
      (λ e.
        parse_sized-IsSound max buf op (has_bit first 0x80) (has_bit first 0x40)
          (has_bit second 0x80) _ (frame_size-Headed buf _ _))

-- Whatever the buffer holds, a frame that the parser delivers has a payload within its limit, is
-- final with at most 125 octets of payload if it is a control frame, and has its reserved bits 2 and
-- 3 clear; it takes up at least two octets besides its payload, and no more than the buffer has.
pub parse_frame-IsSound : (max : ℕ) (buf : List ℕ) → IsSound max buf (parse_frame max buf)
unfolding parse_frame
parse_frame-IsSound max buf =
    if_either (IsSound max buf) (ltb (length buf) 2) (λ e. tt)
      (λ e. parse_opcode-IsSound max buf (octet buf 0) (octet buf 1) _)

-- The condition on control frames, as the parser tests it.
pub permits :
    (op : Opcode) (fin : Bool) (n : ℕ)
    → (is_control op ≡ false) ⊎ ((n ≤ 125) × (fin ≡ true))
    → is_control op ≡ true
    → (n ≤ 125) × (fin ≡ true)
permits op fin n (inl data_frame) c = absurd (true≢false (sym c ∙ data_frame))
permits op fin n (inr short_and_final) c = short_and_final

-- ===== src/Codec/Prefix.antt =====
-- What the parser made of a buffer does not change when more octets arrive.
use Prim.Native.Nat.{bit_and}
use jetsocket.Prelude.{
  ℕ, ◌+◌, ◌-◌, ◌^◌, ◌≤◌, ◌<◌, ◌≡◌, ◌≢◌, refl, sym, ap, ap₂, ◌∙◌, subst, arith, Bool, true, false,
  ◌||◌, Option, none, some, List, ◌++◌, length, length-append, take, drop, get_or-append,
  drop-append, take-append, drop-length, ltb, leb, ◌==◌, if◌then◌else◌, true≢false,
}
use jetsocket.Codec.Mask.{Key, apply_mask_c}
use jetsocket.Codec.Opcode.{Opcode, opcode_of, is_control, big16}
use jetsocket.Codec.Parse.{
  need_more, bad, parsed, invalid_opcode, reserved_bits, length_overflow, frame_too_large,
  control_too_large, fragmented_control, Size, short, overflow, sized, octet, has_bit, big64,
  frame_size, frame_payload, parse_payload, parse_sized, parse_opcode, parse_frame,
}

-- `y` is `x`, unless `x` is still waiting.
abbrev Stable {ℓ} : {A : Type ℓ} → A → A → A → Type ℓ
Stable wait x y = x ≢ wait → y ≡ x

module _ {ℓ} {A : Type ℓ} where
  Stable-refl : (wait x : A) → Stable wait x x
  Stable-refl wait x ne = refl

  Stable-path : (wait x y : A) → y ≡ x → Stable wait x y
  Stable-path wait x y e ne = e

  if_Stable :
      (wait : A) (b : Bool) (x y z w : A)
      → Stable wait x y
      → Stable wait z w
      → Stable wait (if b then x else z) (if b then y else w)
  if_Stable wait true x y z w h k = h
  if_Stable wait false x y z w h k = k

  guard-Stable :
      (wait : A) (b c : Bool) (x y : A)
      → (b ≡ false → c ≡ false)
      → (b ≡ false → Stable wait x y)
      → Stable wait (if b then wait else x) (if c then wait else y)
  guard-Stable wait true c x y h k ne = absurd (ne refl)
  guard-Stable wait false true x y h k ne = absurd (true≢false (h refl))
  guard-Stable wait false false x y h k ne = k refl ne

-- A tag tells the sizes and the parses apart.
abbrev IsShort : Size → Type 0
IsShort short = Unit {0}
IsShort overflow = ⊥
IsShort (sized h n) = ⊥

overflow≢short : overflow ≢ short
overflow≢short e = subst IsShort (sym e) tt

sized≢short : {h n : ℕ} → sized h n ≢ short
sized≢short e = subst IsShort (sym e) tt

key_path :
    {a b c d p q r s : ℕ}
    → a ≡ p
    → b ≡ q
    → c ≡ r
    → d ≡ s
    → ◌≡◌ {A = Key}
        (record { k0 = a; k1 = b; k2 = c; k3 = d })
        (record { k0 = p; k1 = q; k2 = r; k3 = s })
key_path e f g h = λ i. record { k0 = e i; k1 = f i; k2 = g i; k3 = h i }

module _ (buf more : List ℕ) where
  abbrev longer : List ℕ
  longer = buf ++ more

  enough : (k : ℕ) → ltb (length buf) k ≡ false → ltb (length longer) k ≡ false
  enough k h = ground (arith, length-append buf more)

  octet-longer : (i : ℕ) → i < length buf → octet longer i ≡ octet buf i
  octet-longer i h = get_or-append buf more i 0 h

  big16-longer :
      (i j : ℕ)
      → i < length buf
      → j < length buf
      → big16 (octet longer i) (octet longer j) ≡ big16 (octet buf i) (octet buf j)
  big16-longer i j h k = ap₂ big16 (octet-longer i h) (octet-longer j k)

  big64-longer : 10 ≤ length buf → big64 longer ≡ big64 buf
  big64-longer h = omega (
    arith,
    big16-longer 2 3 (omega arith) (omega arith),
    big16-longer 4 5 (omega arith) (omega arith),
    big16-longer 6 7 (omega arith) (omega arith),
    big16-longer 8 9 (omega arith) (omega arith),
  )

  frame_size-longer : (p m : ℕ) → Stable short (frame_size buf p m) (frame_size longer p m)
  unfolding frame_size
  frame_size-longer p m =
      if_Stable short (leb p 125) _ _ _ _ (Stable-refl short (sized (2 + m) p)) (
        if_Stable short (p == 126) _ _ _ _
          (guard-Stable short (ltb (length buf) 4) (ltb (length longer) 4) _ _ (enough 4) (λ h.
            Stable-path short _ _
              (ap (sized (4 + m)) (big16-longer 2 3 (ground arith) (ground arith)))))
          (guard-Stable short (ltb (length buf) 10) (ltb (length longer) 10) _ _ (enough 10) (λ h.
            Stable-path short _ _ (
              ap (λ (v : ℕ). if ltb v (2 ^ 63) then sized (10 + m) v else overflow)
                (big64-longer (ground arith))))))

  slice-longer : (h n : ℕ) → h + n ≤ length buf → take n (drop h longer) ≡ take n (drop h buf)
  slice-longer h n le =
      ap (take n) (drop-append h buf more (omega arith))
      ∙ take-append n (drop h buf) more (omega (arith, drop-length h buf))

  frame_payload-longer :
      (masked : Bool) (h n : ℕ)
      → 0 < length buf
      → h + n ≤ length buf
      → frame_payload longer masked h n ≡ frame_payload buf masked h n
  unfolding frame_payload
  frame_payload-longer masked h n pos le =
      ap₂ (λ (slice : List ℕ) (key : Key). if masked then apply_mask_c slice key else slice)
        (slice-longer h n le)
        (key_path (octet-longer (h - 4) (omega arith)) (octet-longer (h - 3) (omega arith))
          (octet-longer (h - 2) (omega arith)) (octet-longer (h - 1) (omega arith)))

  parse_payload-longer :
      (op : Opcode) (fin rsv1 masked : Bool) (h n : ℕ)
      → 0 < length buf
      → Stable need_more
          (parse_payload buf op fin rsv1 masked h n)
          (parse_payload longer op fin rsv1 masked h n)
  unfolding parse_payload
  parse_payload-longer op fin rsv1 masked h n pos =
      guard-Stable need_more (ltb (length buf) (h + n)) (ltb (length longer) (h + n)) _ _
        (enough (h + n))
        (λ lt. Stable-path need_more _ _ (
          ap
            (λ (p : List ℕ).
              parsed
                (record {
                  opcode = op;
                  payload = p;
                  fin = fin;
                  rsv1 = rsv1;
                  rsv2 = false;
                  rsv3 = false;
                })
                (h + n))
            (frame_payload-longer masked h n pos (ground arith))))

  parse_sized-longer :
      (max : ℕ) (op : Opcode) (fin rsv1 masked : Bool) (size : Size)
      → 0 < length buf
      → Stable need_more
          (parse_sized max buf op fin rsv1 masked size)
          (parse_sized max longer op fin rsv1 masked size)
  unfolding parse_sized
  parse_sized-longer max op fin rsv1 masked short pos = Stable-refl need_more need_more
  parse_sized-longer max op fin rsv1 masked overflow pos =
      Stable-refl need_more (bad length_overflow)
  parse_sized-longer max op fin rsv1 masked (sized h n) pos =
      let p = parse_payload-longer op fin rsv1 masked h n pos in
      if_Stable need_more (ltb max n) _ _ _ _ (Stable-refl need_more (bad (frame_too_large n max)))
        (if_Stable need_more (is_control op) _ _ _ _
          (if_Stable need_more (ltb 125 n) _ _ _ _
            (Stable-refl need_more (bad (control_too_large n)))
            (if_Stable need_more fin _ _ _ _ p (Stable-refl need_more (bad fragmented_control))))
          p)

  -- A size that is known stays; a size that is not leaves the parser waiting.
  resized :
      (max : ℕ) (op : Opcode) (fin rsv1 masked : Bool) (x y : Size)
      → Stable short x y
      → 0 < length buf
      → Stable need_more
          (parse_sized max buf op fin rsv1 masked x)
          (parse_sized max longer op fin rsv1 masked y)
  unfolding parse_sized
  resized max op fin rsv1 masked short y st pos ne = absurd (ne refl)
  resized max op fin rsv1 masked overflow y st pos ne =
      ap (parse_sized max longer op fin rsv1 masked) (st overflow≢short)
  resized max op fin rsv1 masked (sized h n) y st pos ne =
      ap (parse_sized max longer op fin rsv1 masked) (st sized≢short)
      ∙ parse_sized-longer max op fin rsv1 masked (sized h n) pos ne

  parse_opcode-longer :
      (max first second : ℕ) (o : Option Opcode)
      → 0 < length buf
      → Stable need_more
          (parse_opcode max buf first second o)
          (parse_opcode max longer first second o)
  unfolding parse_opcode
  parse_opcode-longer max first second none pos =
      Stable-refl need_more (bad (invalid_opcode (bit_and first 0x0F)))
  parse_opcode-longer max first second (some op) pos =
      if_Stable need_more (has_bit first 0x20 || has_bit first 0x10) _ _ _ _
        (Stable-refl need_more (bad reserved_bits))
        (resized max op (has_bit first 0x80) (has_bit first 0x40) (has_bit second 0x80) _ _
          (frame_size-longer _ _) pos)

-- A frame or an error that the parser has found in a buffer is what it finds there when more octets
-- have been appended: only a buffer that waits for more can change its answer.
pub parse_frame-append :
    (max : ℕ) (buf more : List ℕ)
    → parse_frame max buf ≢ need_more
    → parse_frame max (buf ++ more) ≡ parse_frame max buf
unfolding parse_frame
parse_frame-append max buf more =
    guard-Stable need_more (ltb (length buf) 2) (ltb (length (buf ++ more)) 2) _ _
      (enough buf more 2)
      (λ two.
        let long : 2 ≤ length buf = ground arith in
        λ ne.
          ap₂ (λ (a b : ℕ). parse_opcode max (buf ++ more) a b (opcode_of (bit_and a 0x0F)))
            (octet-longer buf more 0 (omega (arith, long)))
            (octet-longer buf more 1 (omega (arith, long)))
          ∙ parse_opcode-longer buf more max (octet buf 0) (octet buf 1) _ (omega (arith, long)) ne)

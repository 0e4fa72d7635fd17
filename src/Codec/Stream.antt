-- ===== src/Codec/Stream.antt =====
-- Chunks of a stream, fed one after another as they arrive, and the stream that the encoder wrote.
use jetsocket.Prelude.{
  ℕ, ◌+◌, ◌^◌, ◌<◌, ◌≡◌, refl, sym, ap, subst, ◌∙◌, arith, false, Option, none, some, List, [], ◌∷◌,
  ◌++◌, append_assoc, append-nil, length, length-append, drop-all,
}
use jetsocket.Codec.Bytes.{IsBytes}
use jetsocket.Codec.Mask.{Key}
use jetsocket.Codec.Opcode.{Frame}
use jetsocket.Codec.Parse.{parsed, ParseError, parse_frame}
use jetsocket.Codec.Encode.{encode_frame}
use jetsocket.Codec.RoundTrip.{IsMasking, parse_frame-encode_frame}
use jetsocket.Codec.Valid.{IsValid, permits}
use jetsocket.Codec.Feed.{
  Loop, add_frame, feed_loop, Fed, fed, raised, outcome_on, outcome, FrameParser, with_buffer, feed,
}
use jetsocket.Codec.Fuel.{feed_loop-parsed}
use jetsocket.Codec.Chunks.{run, join, resume_on, run-append}

-- What a caller has got from feeds, one after another up to the first error.
pub record Given : Type 0 where
  pub frames : List Frame
  pub consumed : ℕ
  pub error : Option ParseError

abbrev pub given : List Frame → ℕ → Given
given frames consumed = record { frames = frames; consumed = consumed; error = none }

abbrev pub given_by : Fed → Given
given_by (fed frames consumed) = given frames consumed
given_by (raised error) = record { frames = []; consumed = 0; error = some error }

-- Feeds after one that gave frames, which the caller keeps.
abbrev pub after : List Frame → ℕ → Given → Given
after frames consumed later = record {
  frames = frames ++ later.frames;
  consumed = consumed + later.consumed;
  error = later.error;
}

abbrev pub chain : Fed × FrameParser → (FrameParser → Given × FrameParser) → Given × FrameParser
chain (raised error, parser) next = (given_by (raised error), parser)
chain (fed frames consumed, parser) next =
    let r : Given × FrameParser = next parser in (after frames consumed r.0, r.1)

unfoldable pub feed_chunks : FrameParser → List ℕ → List (List ℕ) → Given × FrameParser
feed_chunks parser chunk [] = let r : Fed × FrameParser = feed parser chunk in (given_by r.0, r.1)
feed_chunks parser chunk (next ∷ chunks) =
    chain (feed parser chunk) (λ later. feed_chunks later next chunks)

abbrev pub concat : List (List ℕ) → List ℕ
concat [] = []
concat (chunk ∷ chunks) = chunk ++ concat chunks

-- What one feed gives, the caller has got; where one feed raises, the caller meets its error.
abbrev pub Matches : Given → Fed → Type 0
Matches g (fed frames consumed) = g ≡ given frames consumed
Matches g (raised error) = g.error ≡ some error

abbrev pub Begins : List Frame → List Frame → Type 0
Begins xs ys = (more : List Frame) × (xs ++ more ≡ ys)

abbrev Tells : Given → Loop → Type 0
Tells g loop = Matches g (outcome loop) × Begins g.frames loop.frames

abbrev loop_of : List Frame → ℕ → List ℕ → Option ParseError → Loop
loop_of frames n buf o = record { frames = frames; total_consumed = n; buffer = buf; error = o }

given_by-Tells :
    (frames : List Frame) (n : ℕ) (buf : List ℕ) (o : Option ParseError)
    → Tells (given_by (outcome_on frames n o)) (loop_of frames n buf o)
given_by-Tells frames n buf none = (refl, ([], append-nil frames))
given_by-Tells frames n buf (some error) = (refl, (frames, refl))

after-Matches :
    (g : Given) (frames more : List Frame) (n m : ℕ) (o : Option ParseError)
    → Matches g (outcome_on more m o)
    → Matches (after frames n g) (outcome_on (frames ++ more) (n + m) o)
after-Matches g frames more n m none h = ap (after frames n) h
after-Matches g frames more n m (some error) h = h

after-Tells :
    (g : Given) (frames : List Frame) (n : ℕ) (buf : List ℕ) (later : Loop)
    → Tells g later
    → Tells (after frames n g) (join (loop_of frames n buf none) later)
after-Tells g frames n buf later h = (
  after-Matches g frames later.frames n later.total_consumed later.error h.0,
  (h.1.0, append_assoc frames g.frames h.1.0 ∙ ap (λ (l : List Frame). frames ++ l) h.1.1),
)

chain-Tells :
    (parser : FrameParser) (next : FrameParser → Given × FrameParser) (frames : List Frame) (n : ℕ)
    (buf more : List ℕ) (o : Option ParseError)
    → Tells (next (with_buffer parser buf)).0 (run parser.max_frame_size (buf ++ more))
    → Tells
        (chain (outcome_on frames n o, with_buffer parser buf) next).0
        (resume_on parser.max_frame_size (loop_of frames n buf o) more o)
chain-Tells parser next frames n buf more none h =
    after-Tells (next (with_buffer parser buf)).0 frames n buf
      (run parser.max_frame_size (buf ++ more)) h
chain-Tells parser next frames n buf more (some error) h = (refl, (frames, refl))

feed_chunks-Tells :
    (parser : FrameParser) (chunk : List ℕ) (chunks : List (List ℕ))
    → Tells
        (feed_chunks parser chunk chunks).0
        (run parser.max_frame_size (parser.buffer ++ (chunk ++ concat chunks)))
unfolding feed_chunks feed
feed_chunks-Tells parser chunk [] =
    let loop : Loop = run parser.max_frame_size (parser.buffer ++ chunk) in
    subst
      (λ (b : List ℕ).
        Tells (given_by (outcome loop)) (run parser.max_frame_size (parser.buffer ++ b)))
      (sym (append-nil chunk))
      (given_by-Tells loop.frames loop.total_consumed loop.buffer loop.error)
feed_chunks-Tells parser chunk (next ∷ chunks) =
    let max : ℕ = parser.max_frame_size in
    let buf : List ℕ = parser.buffer ++ chunk in
    let more : List ℕ = next ++ concat chunks in
    let loop : Loop = run max buf in
    subst (Tells (feed_chunks parser chunk (next ∷ chunks)).0)
      (sym (
        ap (run max) (sym (append_assoc parser.buffer chunk more))
        ∙ run-append (length buf) max buf more (omega arith)))
      (chain-Tells parser (λ later. feed_chunks later next chunks) loop.frames loop.total_consumed
        loop.buffer more loop.error
        (feed_chunks-Tells (with_buffer parser loop.buffer) next chunks))

-- Wherever a stream is cut, its chunks, fed one after another up to the first error, give the frames
-- and the count that one feed of all the octets gives, where that raises nothing. Where it raises an
-- error, the chunks end with the same error, and the frames that were given before it are the first
-- of those that stand before the error in the octets.
pub feed_chunks-concat :
    (parser : FrameParser) (chunk : List ℕ) (chunks : List (List ℕ))
    → let r = feed_chunks parser chunk chunks in
      Matches r.0 (feed parser (chunk ++ concat chunks)).0
      × Begins r.0.frames
          (run parser.max_frame_size (parser.buffer ++ (chunk ++ concat chunks))).frames
unfolding feed
feed_chunks-concat parser chunk chunks = feed_chunks-Tells parser chunk chunks

-- Frames as they are sent, each with its key.
abbrev pub stream : List (Frame × Option Key) → List ℕ
stream [] = []
stream ((frame, key) ∷ sent) =
    encode_frame frame.opcode frame.payload key frame.fin frame.rsv1 ++ stream sent

abbrev pub frames_of : List (Frame × Option Key) → List Frame
frames_of [] = []
frames_of ((frame, key) ∷ sent) = frame ∷ frames_of sent

abbrev pub AllSendable : ℕ → List (Frame × Option Key) → Type 0
AllSendable max [] = Unit {0}
AllSendable max ((frame, key) ∷ sent) =
    (IsBytes frame.payload
      × (IsMasking key × (IsValid max frame × (length frame.payload < 2 ^ 63))))
    × AllSendable max sent

-- The bits that the encoder does not write are clear.
cleared :
    (frame : Frame)
    → frame.rsv2 ≡ false
    → frame.rsv3 ≡ false
    → ◌≡◌ {A = Frame}
        (record {
          opcode = frame.opcode;
          payload = frame.payload;
          fin = frame.fin;
          rsv1 = frame.rsv1;
          rsv2 = false;
          rsv3 = false;
        })
        frame
cleared frame e f = sym (λ i. record {
  opcode = frame.opcode;
  payload = frame.payload;
  fin = frame.fin;
  rsv1 = frame.rsv1;
  rsv2 = e i;
  rsv3 = f i;
})

abbrev all_of : List (Frame × Option Key) → ℕ → Loop
all_of sent n = record { frames = frames_of sent; total_consumed = n; buffer = []; error = none }

run-stream :
    (max : ℕ) (sent : List (Frame × Option Key))
    → AllSendable max sent
    → run max (stream sent) ≡ all_of sent (length (stream sent))
unfolding feed_loop
run-stream max [] h = refl
run-stream max ((frame, key) ∷ sent) h =
    let octets : List ℕ = encode_frame frame.opcode frame.payload key frame.fin frame.rsv1 in
    let rest : List ℕ = stream sent in
    let valid : IsValid max frame = h.0.1.1.0 in
    let e : parse_frame max (octets ++ rest) ≡ parsed frame (length octets) =
      parse_frame-encode_frame max frame.opcode frame.payload key frame.fin frame.rsv1 rest (h.0.0)
        (h.0.1.0) (valid.0) (h.0.1.1.1)
        (permits frame.opcode frame.fin (length frame.payload) (valid.1.0))
      ∙ ap (λ (f : Frame). parsed f (length octets)) (cleared frame (valid.1.1.0) (valid.1.1.1)) in
    feed_loop-parsed (length (octets ++ rest)) max (octets ++ rest) frame (length octets) e
      (omega arith)
    ∙ ap (λ (b : List ℕ). add_frame frame (length octets) (run max b)) (drop-all octets rest)
    ∙ ap (add_frame frame (length octets)) (run-stream max sent (h.1))
    ∙ ap (all_of ((frame, key) ∷ sent)) (sym (length-append octets rest))

-- The octets of encoded frames, cut into chunks anywhere and fed to a parser with an empty buffer,
-- give back exactly those frames, in order, and all the octets are consumed. Each frame is one that the
-- parser admits, its payload and key are bytes and its payload is shorter than 2 ^ 63.
pub feed_chunks-stream :
    (parser : FrameParser) (sent : List (Frame × Option Key)) (chunk : List ℕ)
    (chunks : List (List ℕ))
    → parser.buffer ≡ []
    → AllSendable parser.max_frame_size sent
    → chunk ++ concat chunks ≡ stream sent
    → (feed_chunks parser chunk chunks).0 ≡ given (frames_of sent) (length (stream sent))
unfolding feed
feed_chunks-stream parser sent chunk chunks empty h cut =
    let max : ℕ = parser.max_frame_size in
    let one : outcome (run max (parser.buffer ++ (chunk ++ concat chunks)))
        ≡ fed (frames_of sent) (length (stream sent)) =
      ap (λ (b : List ℕ). outcome (run max (b ++ (chunk ++ concat chunks)))) empty
      ∙ ap (λ (b : List ℕ). outcome (run max b)) cut
      ∙ ap outcome (run-stream max sent h) in
    subst (Matches (feed_chunks parser chunk chunks).0) one
      (feed_chunks-concat parser chunk chunks).0

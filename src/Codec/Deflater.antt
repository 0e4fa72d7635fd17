-- ===== src/Codec/Deflater.antt =====
-- `Deflater` of jetsocket/_core.pyx, over zlib: `C` and `D` are the types of its compressors and
-- decompressors.
use jetsocket.Prelude.{
  ℕ, ◌-◌, Bool, true, false, ◌&&◌, Option, none, some, List, [], ◌∷◌, ◌++◌, leb, ◌==◌,
  if◌then◌else◌, length, take, drop,
}
use jetsocket.Exceptions.{value_error, zlib_error, Result, ok, err}

-- What the code calls of zlib; a decompressor can refuse its input.
pub record Zlib (C D : Type 0) : Type 0 where
  pub compressobj : ℕ → C
  pub compress : C → List ℕ → List ℕ × C
  pub flush : C → List ℕ × C
  pub decompressobj : ℕ → D
  pub decompress : D → List ℕ → Option (List ℕ) × D

pub record Deflater (C D : Type 0) : Type 0 where
  pub client_no_context_takeover : Bool
  pub server_no_context_takeover : Bool
  pub client_max_window_bits : ℕ
  pub server_max_window_bits : ℕ
  pub compressor : C
  pub decompressor : D

-- _DEFLATE_TRAILER
abbrev pub deflate_trailer : List ℕ
deflate_trailer = 0x00 ∷ 0x00 ∷ 0xff ∷ 0xff ∷ []

abbrev same_octets : List ℕ → List ℕ → Bool
same_octets [] [] = true
same_octets [] (y ∷ ys) = false
same_octets (x ∷ xs) [] = false
same_octets (x ∷ xs) (y ∷ ys) = x == y && same_octets xs ys

-- compressed[:-4] if compressed.endswith(_DEFLATE_TRAILER)
unfoldable pub without_trailer : List ℕ → List ℕ
without_trailer compressed =
    if same_octets (drop (length compressed - 4) compressed) deflate_trailer
    then take (length compressed - 4) compressed
    else compressed

module _ {C D : Type 0} (zlib : Zlib C D) where
  unfoldable pub new_deflater : Bool → Bool → ℕ → ℕ → Result (Deflater C D)
  new_deflater cnct snct client_bits server_bits =
      if leb 9 client_bits && leb client_bits 15
      then if leb 9 server_bits && leb server_bits 15
        then ok (record {
          client_no_context_takeover = cnct;
          server_no_context_takeover = snct;
          client_max_window_bits = client_bits;
          server_max_window_bits = server_bits;
          compressor = zlib.compressobj client_bits;
          decompressor = zlib.decompressobj server_bits;
        })
        else err value_error
      else err value_error

  abbrev pub with_compressor : Deflater C D → C → Deflater C D
  with_compressor d c = record {
    client_no_context_takeover = d.client_no_context_takeover;
    server_no_context_takeover = d.server_no_context_takeover;
    client_max_window_bits = d.client_max_window_bits;
    server_max_window_bits = d.server_max_window_bits;
    compressor = c;
    decompressor = d.decompressor;
  }

  abbrev pub with_decompressor : Deflater C D → D → Deflater C D
  with_decompressor d e = record {
    client_no_context_takeover = d.client_no_context_takeover;
    server_no_context_takeover = d.server_no_context_takeover;
    client_max_window_bits = d.client_max_window_bits;
    server_max_window_bits = d.server_max_window_bits;
    compressor = d.compressor;
    decompressor = e;
  }

  unfoldable pub reset_compressor : Deflater C D → Deflater C D
  reset_compressor d = with_compressor d (zlib.compressobj d.client_max_window_bits)

  unfoldable pub reset_decompressor : Deflater C D → Deflater C D
  reset_decompressor d = with_decompressor d (zlib.decompressobj d.server_max_window_bits)

  unfoldable pub compress : Deflater C D → List ℕ → List ℕ × Deflater C D
  compress d octets =
      let head : List ℕ × C = zlib.compress d.compressor octets in
      let tail : List ℕ × C = zlib.flush head.1 in
      let after : Deflater C D = with_compressor d tail.1 in
      (
        without_trailer (head.0 ++ tail.0),
        if d.client_no_context_takeover then reset_compressor after else after,
      )

  -- An error of zlib leaves the decompressor in place.
  unfoldable pub decompressed : Deflater C D → Option (List ℕ) → Result (List ℕ) × Deflater C D
  decompressed d none = (err zlib_error, d)
  decompressed d (some octets) =
      (ok octets, if d.server_no_context_takeover then reset_decompressor d else d)

  unfoldable pub decompress : Deflater C D → List ℕ → Result (List ℕ) × Deflater C D
  decompress d octets =
      let out : Option (List ℕ) × D = zlib.decompress d.decompressor (octets ++ deflate_trailer) in
      decompressed (with_decompressor d out.1) out.0

-- ===== src/PositionUtils/Roundtrip.antt =====
-- Bytes and ranges survive their encodings.
use collaborative_ide.Prelude.{
  ℕ, ◌%◌, ◌^◌, ◌≤◌, ◌≡◌, ◌≢◌, refl, sym, ◌∙◌, some, List, [], ◌∷◌, ◌++◌, map, Text, All, length,
  append-nil, append_assoc, arith,
}
use collaborative_ide.Platform.{Platform, Documented, IsByte}
use collaborative_ide.PositionUtils.{
  from_char_codes, to_base64, from_base64, encode_range, resolve_range, Range,
}

from_char_codes-bytes :
    (s : Text) (bytes : List ℕ) → All IsByte bytes → from_char_codes s bytes ≡ s ++ bytes
unfolding from_char_codes
from_char_codes-bytes s [] h = sym (append-nil s)
from_char_codes-bytes s (b ∷ bytes) (h, k) =
    let e : b % 2 ^ 16 ≡ b = omega arith in
    rw e (from_char_codes-bytes (s ++ b ∷ []) bytes k ∙ append_assoc s (b ∷ []) bytes)

map-mod-bytes : (bytes : List ℕ) → All IsByte bytes → map (λ c. c % 2 ^ 8) bytes ≡ bytes
map-mod-bytes [] h = refl
map-mod-bytes (b ∷ bytes) (h, k) =
    let e : b % 2 ^ 8 ≡ b = omega arith in rw (e, map-mod-bytes bytes k)

module _ (p : Platform) (doc : Documented p) where
  base64-bytes :
      (bytes : List ℕ)
      → All IsByte bytes
      → (b : Text) × (to_base64 p bytes ≡ some b)
        × (from_base64 p b ≡ some bytes)
        × (b ≡ [] → bytes ≡ [])
  unfolding to_base64 from_base64
  base64-bytes bytes h =
      let (b, encoded, decoded, empty) = doc.btoa_lem bytes h in
      (
        b,
        rw (to_base64, from_char_codes-bytes [] bytes h) encoded,
        rw (from_base64, decoded, map-mod-bytes bytes h),
        empty,
      )

  -- `toBase64` takes every array of bytes, and `fromBase64` takes its result back to the array.
  pub from_base64-to_base64 :
      (bytes : List ℕ)
      → All IsByte bytes
      → (b : Text) × (to_base64 p bytes ≡ some b) × (from_base64 p b ≡ some bytes)
  from_base64-to_base64 bytes h =
      let (b, encoded, decoded, _) = base64-bytes bytes h in (b, encoded, decoded)

  position-roundtrip :
      (r : p.Relative)
      → (b : Text) × (to_base64 p (p.encode r) ≡ some b)
        × (from_base64 p b ≡ some (p.encode r))
        × (b ≢ [])
  position-roundtrip r =
      let (b, encoded, decoded, empty) = base64-bytes (p.encode r) (doc.encode-IsByte r) in
      (b, encoded, decoded, λ e. doc.encode-ne-nil r (empty e))

  -- In the document where it was made, an encoded range of the text is there, is not empty in
  -- either half, and resolves to the two indices that it was made from.
  pub resolve_range-encode_range :
      (d : p.Doc) (from to : ℕ)
      → from ≤ length (p.text d)
      → to ≤ length (p.text d)
      → (a : Text) × (b : Text) × (encode_range p d from to ≡ some (a, b))
        × (resolve_range p d a b ≡ some (record { start = from; stop = to }))
        × (a ≢ [])
        × (b ≢ [])
  unfolding encode_range resolve_range
  resolve_range-encode_range d from to h k =
      let (a, enc_a, dec_a, ne_a) = position-roundtrip (p.relative d from) in
      let (b, enc_b, dec_b, ne_b) = position-roundtrip (p.relative d to) in
      (
        a,
        b,
        rw (enc_a, enc_b),
        rw (
          dec_a,
          doc.decode-encode (p.relative d from),
          dec_b,
          doc.decode-encode (p.relative d to),
          doc.absolute-relative d from h,
          doc.absolute-relative d to k,
        ),
        ne_a,
        ne_b,
      )

  -- A range that resolves lies in the text.
  pub resolve_range-le :
      (d : p.Doc) (a b : Text) (r : Range)
      → resolve_range p d a b ≡ some r
      → (r.start ≤ length (p.text d)) × (r.stop ≤ length (p.text d))
  unfolding resolve_range
  resolve_range-le d a b r e = grind (arith, doc.absolute-le)

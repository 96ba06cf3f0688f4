-- ===== src/Sync/Utf8.antt =====
-- UTF-8 as `Buffer` has it: `toString("utf8")` and `Buffer.byteLength`, which sync/ledger.ts uses.
-- A text is its code points.
pub mod Laws
use Prim.Native.Nat.{◌*◌, ◌/◌, ◌%◌}
use codealmanac.Prelude.{
  ℕ, ◌+◌, ◌-◌, Bool, true, false, ◌&&◌, List, [], ◌∷◌, ◌++◌, length, Text, leb, ltb, ◌==◌,
  if◌then◌else◌,
}

unfoldable pub encode_char : ℕ → List ℕ
encode_char c =
    if ltb c 0x80
    then c ∷ []
    else if ltb c 0x800
    then (192 + c / 64) ∷ (128 + c % 64) ∷ []
    else if ltb c 0x10000
    then (224 + c / 4096) ∷ (128 + c / 64 % 64) ∷ (128 + c % 64) ∷ []
    else (240 + c / 262144) ∷ (128 + c / 4096 % 64) ∷ (128 + c / 64 % 64) ∷ (128 + c % 64) ∷ []

unfoldable pub encode_utf8 : Text → List ℕ
unfolding encode_char
encode_utf8 [] = []
encode_utf8 (c ∷ s) = encode_char c ++ encode_utf8 s

-- `Buffer.byteLength(s)`
abbrev pub byte_length : Text → ℕ
byte_length s = length (encode_utf8 s)

-- Between two characters, or inside one: how many bytes are missing, the bounds of the next of
-- them, and what has been read.
pub data Decoder : Type 0 where
  idle : Decoder
  expect : ℕ → ℕ → ℕ → ℕ → Decoder

-- What stands for bytes that are no UTF-8.
abbrev replacement : ℕ
replacement = 0xfffd

abbrev pub start_byte : ℕ → Text × Decoder
start_byte b =
    if ltb b 0x80
    then (b ∷ [], idle)
    else if leb 0xc2 b && leb b 0xdf
    then ([], expect 1 0x80 0xbf (b - 0xc0))
    else if b == 0xe0
    then ([], expect 2 0xa0 0xbf 0)
    else if b == 0xed
    then ([], expect 2 0x80 0x9f 13)
    else if leb 0xe1 b && leb b 0xef
    then ([], expect 2 0x80 0xbf (b - 0xe0))
    else if b == 0xf0
    then ([], expect 3 0x90 0xbf 0)
    else if leb 0xf1 b && leb b 0xf3
    then ([], expect 3 0x80 0xbf (b - 0xf0))
    else if b == 0xf4
    then ([], expect 3 0x80 0x8f 4)
    else (replacement ∷ [], idle)

-- A byte that does not belong to the character is read as the start of another one.
abbrev pub take_byte : Decoder → ℕ → Text × Decoder
take_byte idle b = start_byte b
take_byte (expect missing low high code) b =
    let (out, next) = start_byte b in
    if leb low b && leb b high
    then if missing == 1
      then ((code * 64 + (b - 0x80)) ∷ [], idle)
      else ([], expect (missing - 1) 0x80 0xbf (code * 64 + (b - 0x80)))
    else (replacement ∷ out, next)

abbrev pub decode_from : Decoder → List ℕ → Text
decode_from idle [] = []
decode_from (expect missing low high code) [] = replacement ∷ []
decode_from decoder (b ∷ bytes) =
    let (out, next) = take_byte decoder b in out ++ decode_from next bytes

-- `bytes.toString("utf8")`
unfoldable pub decode_utf8 : List ℕ → Text
decode_utf8 bytes = decode_from idle bytes

-- ===== src/Domain/Guid.antt =====
-- FingerprintGUID of internal/domain/types.go. The MD5 function itself is an argument: it takes the
-- bytes written to the hash and returns its sixteen bytes.
use Prim.Native.Char.{code}
use Prim.Native.String.{◌++◌ as append, slice}
use riquet.Domain.Types.{Reference, Version}
use riquet.Prelude.{
  List, String, [], drop, if◌then◌else◌, ltb, take, ℕ, ◌%◌, ◌++◌, ◌+◌, ◌-◌, ◌/◌, ◌^◌, ◌∷◌,
}

-- The UTF-8 bytes of one code point.
abbrev utf8 : ℕ → List ℕ
utf8 c =
    if ltb c 0x80
    then c ∷ []
    else if ltb c 0x800
    then (0xC0 + c / 64) ∷ (0x80 + c % 64) ∷ []
    else if ltb c 0x10000
    then (0xE0 + c / 4096) ∷ (0x80 + c / 64 % 64) ∷ (0x80 + c % 64) ∷ []
    else (0xF0 + c / 262144) ∷ (0x80 + c / 4096 % 64) ∷ (0x80 + c / 64 % 64) ∷ (0x80 + c % 64) ∷ []

-- []byte(text)
unfoldable pub bytes : String → List ℕ
bytes String.[] = []
bytes (String.◌∷◌ c s) = utf8 (code c) ++ bytes s

-- binary.BigEndian.PutUint32 of uint32(version)
unfoldable pub big_endian : Version → List ℕ
big_endian v =
    let low : ℕ = v % 2 ^ 32 in
    (low / 2 ^ 24) ∷ (low / 2 ^ 16 % 256) ∷ (low / 2 ^ 8 % 256) ∷ (low % 256) ∷ []

unfoldable pub reference_bytes : List Reference → List ℕ
unfolding bytes big_endian
reference_bytes [] = []
reference_bytes (r ∷ rest) =
    bytes r.name ++ (bytes r.subject ++ (big_endian r.version ++ reference_bytes rest))

-- What FingerprintGUID writes to the hash.
unfoldable pub fingerprint_input : String → List Reference → List ℕ
unfolding reference_bytes
fingerprint_input definition references = bytes definition ++ reference_bytes references

-- Two digits of %x.
abbrev hex_byte : ℕ → String
hex_byte b =
    let digits : String = "0123456789abcdef" in
    append (slice digits (b / 16) (b / 16 + 1)) (slice digits (b % 16) (b % 16 + 1))

unfoldable pub hex : List ℕ → String
hex [] = ""
hex (b ∷ rest) = append (hex_byte b) (hex rest)

-- sum[from:to]
abbrev part : ℕ → ℕ → List ℕ → List ℕ
part from to sum = take (to - from) (drop from sum)

abbrev joined : List String → String
joined [] = ""
joined (s ∷ []) = s
joined (s ∷ rest) = append s (append "-" (joined rest))

unfoldable pub fingerprint_guid : (List ℕ → List ℕ) → String → List Reference → String
unfolding fingerprint_input hex
fingerprint_guid md5 definition references =
    let sum = md5 (fingerprint_input definition references) in
    joined (
      hex (part 0 4 sum)
      ∷ hex (part 4 6 sum)
      ∷ hex (part 6 8 sum)
      ∷ hex (part 8 10 sum)
      ∷ hex (part 10 16 sum)
      ∷ [])

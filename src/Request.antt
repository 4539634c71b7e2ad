-- ===== src/Request.antt =====
-- The digests of internal/usecase/onramp_usecase.go that stand for an idempotency key and for the
-- request that came with it. The SHA-256 digest, in hexadecimal digits, is a parameter.
pub mod Distinct
use kailo_be.Prelude.{
  ℕ, suc, ◌+◌, ◌/◌, ◌%◌, String, [], ◌∷◌, ◌++◌, List, length, ltb, if◌then◌else◌, code,
}
use kailo_be.Amount.{Bytes, digits}

-- The bytes of a text.
abbrev pub utf8_char : ℕ → Bytes
utf8_char c =
    if ltb c 0x80
    then c ∷ []
    else if ltb c 0x800
    then (0xc0 + c / 64) ∷ (0x80 + c % 64) ∷ []
    else if ltb c 0x10000
    then (0xe0 + c / 4096) ∷ (0x80 + c / 64 % 64) ∷ (0x80 + c % 64) ∷ []
    else (0xf0 + c / 262144) ∷ (0x80 + c / 4096 % 64) ∷ (0x80 + c / 64 % 64) ∷ (0x80 + c % 64) ∷ []

unfoldable pub utf8 : String → Bytes
utf8 String.[] = []
utf8 (String.◌∷◌ c s) = utf8_char (code c) ++ utf8 s

-- The text that `orderRequestHash` writes: each part behind its length and a colon.
unfoldable pub request_text : List Bytes → Bytes
request_text [] = []
request_text (part ∷ rest) =
    digits (suc (length part)) (length part) ++ b':' ∷ (part ++ request_text rest)

-- `orderRequestHash`.
unfoldable pub order_request_hash : (Bytes → String) → String → List Bytes → String
order_request_hash digest operation values = digest (request_text (utf8 operation ∷ values))

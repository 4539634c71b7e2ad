-- ===== src/Offramp/Memo.antt =====
-- `OfframpDepositMemo` of internal/usecase/offramp_usecase.go: the memo that an order asks a deposit to
-- carry. Texts are their bytes here, and the SHA-256 digest is a parameter.
use kailo_be.Prelude.{
  ℕ, ◌+◌, ◌-◌, ◌*◌, ◌/◌, ◌%◌, true, false, ◌&&◌, Option, none, some, [], ◌∷◌, ◌++◌, length, ltb,
  leb, ◌==◌, if◌then◌else◌,
}
use kailo_be.Amount.{Bytes, codes}
use kailo_be.Store.Queries.{filter, take}

-- `strings.ReplaceAll(orderID, "-", "")`.
abbrev pub without_dashes : Bytes → Bytes
without_dashes id = filter (λ c. if c == b'-' then false else true) id

-- The value of a hexadecimal digit, in either case; 16 for anything else.
abbrev pub hex_value : ℕ → ℕ
hex_value c =
    if leb b'0' c && leb c b'9'
    then c - b'0'
    else if leb b'a' c && leb c b'f'
    then c - 87
    else if leb b'A' c && leb c b'F'
    then c - 55
    else 16

abbrev pub hex_byte : ℕ → ℕ → Option Bytes → Option Bytes
hex_byte a b none = none
hex_byte a b (some rest) =
    if ltb (hex_value a) 16 && ltb (hex_value b) 16
    then some ((hex_value a * 16 + hex_value b) ∷ rest)
    else none

-- `hex.DecodeString`: none is its error.
unfoldable pub decode_hex : Bytes → Option Bytes
decode_hex [] = some []
decode_hex (a ∷ []) = none
decode_hex (a ∷ b ∷ rest) = hex_byte a b (decode_hex rest)

-- The alphabet of `base64.RawURLEncoding`.
abbrev pub sextet : ℕ → ℕ
sextet n =
    if ltb n 26
    then n + b'A'
    else if ltb n 52
    then n + 71
    else if ltb n 62
    then n - 4
    else if n == 62
    then b'-'
    else b'_'

-- `base64.RawURLEncoding.EncodeToString`.
unfoldable pub encode_base64 : Bytes → Bytes
encode_base64 [] = []
encode_base64 (a ∷ []) = sextet (a / 4) ∷ sextet (a % 4 * 16) ∷ []
encode_base64 (a ∷ b ∷ []) =
    sextet (a / 4) ∷ sextet (a % 4 * 16 + b / 16) ∷ sextet (b % 16 * 4) ∷ []
encode_base64 (a ∷ b ∷ c ∷ rest) =
    sextet (a / 4)
    ∷ sextet (a % 4 * 16 + b / 16)
    ∷ sextet (b % 16 * 4 + c / 64)
    ∷ sextet (c % 64)
    ∷ encode_base64 rest

-- `offrampMemoPrefix`, `stellarTextMemoMaxBytes` and `offrampMemoPayloadBytes`.
abbrev pub offramp_memo_prefix : Bytes
offramp_memo_prefix = codes "off"

abbrev pub stellar_text_memo_max_bytes : ℕ
stellar_text_memo_max_bytes = 28

abbrev pub offramp_memo_payload_bytes : ℕ
offramp_memo_payload_bytes = 16

module _ (digest : Bytes → Bytes) where
  abbrev pub plain_memo : Bytes → Bytes
  plain_memo id =
      let memo = offramp_memo_prefix ++ without_dashes id in
      if leb (length memo) stellar_text_memo_max_bytes
      then memo
      else offramp_memo_prefix ++ encode_base64 (take offramp_memo_payload_bytes (digest id))

  abbrev pub memo_from : Bytes → Option Bytes → Bytes
  memo_from id none = plain_memo id
  memo_from id (some payload) =
      if length payload == offramp_memo_payload_bytes
      then offramp_memo_prefix ++ encode_base64 payload
      else plain_memo id

  -- `OfframpDepositMemo`.
  unfoldable pub offramp_deposit_memo : Bytes → Bytes
  offramp_deposit_memo id = memo_from id (decode_hex (without_dashes id))

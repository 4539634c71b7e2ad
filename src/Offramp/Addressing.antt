-- ===== src/Offramp/Addressing.antt =====
-- Deposit memos fit into a Stellar transaction, and tell orders apart.
use kailo_be.Prelude.{
  ℕ, zero, suc, ◌+◌, ◌*◌, ◌/◌, ◌%◌, ◌≤◌, ◌<◌, ◌≡◌, refl, subst, sym, ap, ◌∙◌, arith, Bool, true,
  false, ◌&&◌, Option, none, some, [], ◌∷◌, ◌++◌, length, All, ltb, if◌then◌else◌,
}
use kailo_be.Amount.{Bytes}
use kailo_be.Store.Queries.{take}
use kailo_be.Offramp.Memo.{
  without_dashes, hex_value, hex_byte, decode_hex, sextet, encode_base64, offramp_memo_prefix,
  stellar_text_memo_max_bytes, offramp_memo_payload_bytes, plain_memo, memo_from,
  offramp_deposit_memo,
}

length-encode_base64 : (xs : Bytes) → 3 * length (encode_base64 xs) ≤ 4 * length xs + 2
unfolding encode_base64
length-encode_base64 [] = omega arith
length-encode_base64 (a ∷ []) = omega arith
length-encode_base64 (a ∷ b ∷ []) = omega arith
length-encode_base64 (a ∷ b ∷ c ∷ rest) = omega (arith, length-encode_base64 rest)

length-take : (n : ℕ) (xs : Bytes) → length (take n xs) ≤ n
length-take zero xs = omega arith
length-take (suc n) [] = omega arith
length-take (suc n) (x ∷ xs) = omega (arith, length-take n xs)

-- The memo of a payload of sixteen bytes at most.
encoded_fits :
    (payload : Bytes)
    → length payload ≤ 16
    → length (offramp_memo_prefix ++ encode_base64 payload) ≤ stellar_text_memo_max_bytes
encoded_fits payload h = omega (arith, length-encode_base64 payload)

module _ (digest : Bytes → Bytes) where
  plain_fits : (id : Bytes) → length (plain_memo digest id) ≤ stellar_text_memo_max_bytes
  plain_fits id = ground (arith, encoded_fits (take 16 (digest id)), length-take 16 (digest id))

-- Every memo, of any id and with any digest, fits into the 28 bytes of a text memo on Stellar.
pub memo_fits :
    (digest : Bytes → Bytes) (id : Bytes)
    → length (offramp_deposit_memo digest id) ≤ stellar_text_memo_max_bytes
unfolding offramp_deposit_memo
memo_fits digest id = from (decode_hex (without_dashes id))
  where
    from : (p : Option Bytes) → length (memo_from digest id p) ≤ stellar_text_memo_max_bytes
    from none = plain_fits digest id
    from (some payload) = ground (arith, plain_fits digest id, encoded_fits payload)

abbrev AreBytes : Bytes → Type 0
AreBytes xs = All (λ (x : ℕ). x < 256) xs

sextet-injective : (m n : ℕ) → m < 64 → n < 64 → sextet m ≡ sextet n → m ≡ n
sextet-injective m n h k e = ground arith

-- A group of three bytes from its four sextets.
group_of :
    (a b c x y z : ℕ)
    → a < 256
    → b < 256
    → c < 256
    → x < 256
    → y < 256
    → z < 256
    → sextet (a / 4) ≡ sextet (x / 4)
    → sextet (a % 4 * 16 + b / 16) ≡ sextet (x % 4 * 16 + y / 16)
    → sextet (b % 16 * 4 + c / 64) ≡ sextet (y % 16 * 4 + z / 64)
    → sextet (c % 64) ≡ sextet (z % 64)
    → (a ≡ x) × (b ≡ y) × (c ≡ z)
group_of a b c x y z ha hb hc hx hy hz p q r s = omega (
  arith,
  sextet-injective (a / 4) (x / 4) (omega arith) (omega arith) p,
  sextet-injective (a % 4 * 16 + b / 16) (x % 4 * 16 + y / 16) (omega arith) (omega arith) q,
  sextet-injective (b % 16 * 4 + c / 64) (y % 16 * 4 + z / 64) (omega arith) (omega arith) r,
  sextet-injective (c % 64) (z % 64) (omega arith) (omega arith) s,
)

pair_of :
    (a b x y : ℕ)
    → a < 256
    → b < 256
    → x < 256
    → y < 256
    → sextet (a / 4) ≡ sextet (x / 4)
    → sextet (a % 4 * 16 + b / 16) ≡ sextet (x % 4 * 16 + y / 16)
    → sextet (b % 16 * 4) ≡ sextet (y % 16 * 4)
    → (a ≡ x) × (b ≡ y)
pair_of a b x y ha hb hx hy p q r = omega (
  arith,
  sextet-injective (a / 4) (x / 4) (omega arith) (omega arith) p,
  sextet-injective (a % 4 * 16 + b / 16) (x % 4 * 16 + y / 16) (omega arith) (omega arith) q,
  sextet-injective (b % 16 * 4) (y % 16 * 4) (omega arith) (omega arith) r,
)

encode_base64-injective :
    (xs ys : Bytes) → AreBytes xs → AreBytes ys → encode_base64 xs ≡ encode_base64 ys → xs ≡ ys
unfolding encode_base64
encode_base64-injective [] [] h k e = refl
encode_base64-injective [] (x ∷ []) h k e = cc
encode_base64-injective [] (x ∷ y ∷ []) h k e = cc
encode_base64-injective [] (x ∷ y ∷ z ∷ ys) h k e = cc
encode_base64-injective (a ∷ []) [] h k e = cc
encode_base64-injective (a ∷ []) (x ∷ []) h k e =
    ap (λ (n : ℕ). n ∷ [])
      (omega (
        arith,
        sextet-injective (a / 4) (x / 4) (omega arith) (omega arith) (cc),
        sextet-injective (a % 4 * 16) (x % 4 * 16) (omega arith) (omega arith) (cc),
      ))
encode_base64-injective (a ∷ []) (x ∷ y ∷ []) h k e = cc
encode_base64-injective (a ∷ []) (x ∷ y ∷ z ∷ ys) h k e = cc
encode_base64-injective (a ∷ b ∷ []) [] h k e = cc
encode_base64-injective (a ∷ b ∷ []) (x ∷ []) h k e = cc
encode_base64-injective (a ∷ b ∷ []) (x ∷ y ∷ []) h k e =
    let p = pair_of a b x y h.0 h.1.0 k.0 k.1.0 (cc) (cc) (cc) in cc
encode_base64-injective (a ∷ b ∷ []) (x ∷ y ∷ z ∷ ys) h k e = cc
encode_base64-injective (a ∷ b ∷ c ∷ xs) [] h k e = cc
encode_base64-injective (a ∷ b ∷ c ∷ xs) (x ∷ []) h k e = cc
encode_base64-injective (a ∷ b ∷ c ∷ xs) (x ∷ y ∷ []) h k e = cc
encode_base64-injective (a ∷ b ∷ c ∷ xs) (x ∷ y ∷ z ∷ ys) h k e =
    let p = group_of a b c x y z h.0 h.1.0 h.1.1.0 k.0 k.1.0 k.1.1.0 (cc) (cc) (cc) (cc) in
    let q = encode_base64-injective xs ys h.1.1.1 k.1.1.1 (cc) in cc

-- What a text of hexadecimal digits stands for is bytes.
abbrev AreDecoded : Option Bytes → Type 0
AreDecoded none = Unit
AreDecoded (some payload) = AreBytes payload

decode_hex-AreDecoded : (xs : Bytes) → AreDecoded (decode_hex xs)
unfolding decode_hex
decode_hex-AreDecoded [] = tt
decode_hex-AreDecoded (a ∷ []) = tt
decode_hex-AreDecoded (a ∷ b ∷ rest) = by (decode_hex rest) (decode_hex-AreDecoded rest)
  where
    valid :
        (t : Bool) (bytes : Bytes)
        → (ltb (hex_value a) 16 && ltb (hex_value b) 16) ≡ t
        → AreBytes bytes
        → AreDecoded (if t then some ((hex_value a * 16 + hex_value b) ∷ bytes) else none)
    valid true bytes e h = (ground arith, h)
    valid false bytes e h = tt

    by : (r : Option Bytes) → AreDecoded r → AreDecoded (hex_byte a b r)
    by none h = tt
    by (some bytes) h = valid _ bytes refl h

append-cancel : (x y z : ℕ) {xs ys : Bytes} → (x ∷ y ∷ z ∷ xs) ≡ (x ∷ y ∷ z ∷ ys) → xs ≡ ys
append-cancel x y z e = cc

-- Orders whose ids are UUIDs with different bytes ask for different memos: the bytes of the id, in
-- whatever case and with whatever dashes it is written, can be told from the memo.
pub memo_injective :
    (digest : Bytes → Bytes) (id other : Bytes) (payload other_payload : Bytes)
    → decode_hex (without_dashes id) ≡ some payload
    → decode_hex (without_dashes other) ≡ some other_payload
    → length payload ≡ offramp_memo_payload_bytes
    → length other_payload ≡ offramp_memo_payload_bytes
    → offramp_deposit_memo digest id ≡ offramp_deposit_memo digest other
    → payload ≡ other_payload
unfolding offramp_deposit_memo
memo_injective digest id other payload other_payload d d' l l' e =
    encode_base64-injective payload other_payload
      (subst AreDecoded d (decode_hex-AreDecoded (without_dashes id)))
      (subst AreDecoded d' (decode_hex-AreDecoded (without_dashes other)))
      (append-cancel b'o' b'f' b'f'
        (sym (encoded id payload d l) ∙ e ∙ encoded other other_payload d' l'))
  where
    encoded :
        (id payload : Bytes)
        → decode_hex (without_dashes id) ≡ some payload
        → length payload ≡ offramp_memo_payload_bytes
        → memo_from digest id (decode_hex (without_dashes id))
          ≡ offramp_memo_prefix ++ encode_base64 payload
    encoded id payload d l = rw d (ground (arith, l))

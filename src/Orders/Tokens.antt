-- ===== src/Orders/Tokens.antt =====
-- orders/tokens.py: the signature of a ticket's QR code, `<token>.<sig>`. SHA-256 is a parameter, the
-- digest of a key and a message as a list of bytes, and so is settings.SECRET_KEY. Text is ASCII, so
-- its encoding is the code points.

pub mod Laws
use boxoffice.Common.{
  ℕ, zero, suc, ◌+◌, ◌-◌, ◌*◌, ◌/◌, ◌%◌, ◌≤◌, ◌<◌, ◌≡◌, refl, sym, ap, subst, ◌∙◌, ◌≢◌, ◌⊎◌, inl,
  inr, ◌↔◌, Bool, true, false, not, ◌&&◌, ◌||◌, Option, none, some, List, [], ◌∷◌, ◌++◌, map, arith,
  ltb, leb, ◌==◌, if◌then◌else◌, ltb→lt, lt→ltb, leb→le, ==_iff, ==_refl, &&_split, Bool-cases,
  Option-cases, is_key, is_some, or_else, length, select, find_first, any, update_where, sum_by,
  All, contains, replicate, order_by, count_by, is_empty, insert_by,
}
use boxoffice.Common.Decimal.{decimal}
use boxoffice.Common.Text.{Text, codes, lower, text_eq, is_blank, upper, strip, text_eq_iff}
use boxoffice.Db.{Ticket}

abbrev pub byte_bits : ℕ → List ℕ
byte_bits b =
    (b / 128 % 2)
    ∷ (b / 64 % 2)
    ∷ (b / 32 % 2)
    ∷ (b / 16 % 2)
    ∷ (b / 8 % 2)
    ∷ (b / 4 % 2)
    ∷ (b / 2 % 2)
    ∷ (b % 2)
    ∷ []

abbrev pub bits : List ℕ → List ℕ
bits [] = []
bits (b ∷ bytes) = byte_bits b ++ bits bytes

-- Groups of five bits, the last one filled up with zeros.
abbrev pub quintets : List ℕ → List ℕ
quintets [] = []
quintets (a ∷ []) = (16 * a) ∷ []
quintets (a ∷ b ∷ []) = (16 * a + 8 * b) ∷ []
quintets (a ∷ b ∷ c ∷ []) = (16 * a + 8 * b + 4 * c) ∷ []
quintets (a ∷ b ∷ c ∷ d ∷ []) = (16 * a + 8 * b + 4 * c + 2 * d) ∷ []
quintets (a ∷ b ∷ c ∷ d ∷ e ∷ rest) = (16 * a + 8 * b + 4 * c + 2 * d + e) ∷ quintets rest

-- A to Z, then 2 to 7.
abbrev pub b32_char : ℕ → ℕ
b32_char n = if ltb n 26 then 65 + n else 24 + n

-- `base64.b32encode(...).rstrip(b"=")`: the padding is the only "=".
abbrev pub b32encode : List ℕ → Text
b32encode bytes = map b32_char (quintets (bits bytes))

abbrev pub sig_bytes : ℕ
sig_bytes = 12

abbrev pub first_bytes : ℕ → List ℕ → List ℕ
first_bytes zero bytes = []
first_bytes (suc n) [] = []
first_bytes (suc n) (b ∷ bytes) = b ∷ first_bytes n bytes

module _ (secret_key : Text) (hmac_sha256 : Text → Text → List ℕ) where
  unfoldable pub key_for_org : ℕ → Text
  unfolding decimal
  key_for_org organization = secret_key ++ codes ":ticket-qr:" ++ decimal organization

  unfoldable pub sign_token : Text → ℕ → Text
  unfolding key_for_org
  sign_token token organization =
      b32encode (first_bytes sig_bytes (hmac_sha256 (key_for_org organization) token))

  unfoldable pub sign_ticket : Ticket → Text
  unfolding sign_token
  sign_ticket ticket = sign_token ticket.token ticket.organization

  -- None and the empty signature are refused before the comparison.
  unfoldable pub verify_ticket_sig : Text → Option Text → ℕ → Bool
  unfolding sign_token
  verify_ticket_sig token none organization = false
  verify_ticket_sig token (some sig) organization =
      not (is_blank sig) && text_eq (sign_token token organization) sig

  unfoldable pub scan_code : Ticket → Text
  unfolding sign_ticket
  scan_code ticket = ticket.token ++ (codes "." ++ sign_ticket ticket)

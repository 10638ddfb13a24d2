-- ===== src/Orders/Tokens/Laws.antt =====
-- orders/tokens.py: the shape of a signature, the scan code taken apart again, and the tenants' keys.
use boxoffice.Common.{
  ℕ, zero, suc, ◌+◌, ◌*◌, ◌/◌, ◌≤◌, ◌<◌, ◌≡◌, refl, sym, subst, ◌⊎◌, true, false, some, List, [],
  ◌∷◌, ◌++◌, map, arith, ◌==◌, if◌then◌else◌, length, All, contains,
}
use boxoffice.Common.Text.{Text, is_blank, text_eq_iff}
use boxoffice.Db.{Ticket}
use boxoffice.Orders.Tokens.{
  bits, quintets, b32_char, b32encode, first_bytes, key_for_org, sign_token, sign_ticket,
  verify_ticket_sig, scan_code,
}

-- A character of the base-32 alphabet.
abbrev pub IsB32 : ℕ → Type 0
IsB32 c = ((65 ≤ c) × (c ≤ 90)) ⊎ ((50 ≤ c) × (c ≤ 55))

b32_char-IsB32 : (n : ℕ) → n < 32 → IsB32 (b32_char n)
b32_char-IsB32 n h = ground arith

abbrev IsBit : ℕ → Type 0
IsBit b = b < 2

bits-IsBit : (bytes : List ℕ) → All IsBit (bits bytes)
bits-IsBit [] = tt
bits-IsBit (b ∷ bytes) = (
  omega arith,
  (
    omega arith,
    (
      omega arith,
      (omega arith, (omega arith, (omega arith, (omega arith, (omega arith, bits-IsBit bytes))))),
    ),
  ),
)

quintets-small : (bs : List ℕ) → All IsBit bs → All (λ q. q < 32) (quintets bs)
quintets-small [] h = tt
quintets-small (a ∷ []) h = (omega (arith, h.0), tt)
quintets-small (a ∷ b ∷ []) h = (omega (arith, h.0, h.1.0), tt)
quintets-small (a ∷ b ∷ c ∷ []) h = (omega (arith, h.0, h.1.0, h.1.1.0), tt)
quintets-small (a ∷ b ∷ c ∷ d ∷ []) h = (omega (arith, h.0, h.1.0, h.1.1.0, h.1.1.1.0), tt)
quintets-small (a ∷ b ∷ c ∷ d ∷ e ∷ rest) h =
    (omega (arith, h.0, h.1.0, h.1.1.0, h.1.1.1.0, h.1.1.1.1.0), quintets-small rest h.1.1.1.1.1)

All-map :
    (P Q : ℕ → Type 0) (f : ℕ → ℕ) (xs : List ℕ)
    → ((x : ℕ) → P x → Q (f x))
    → All P xs
    → All Q (map f xs)
All-map P Q f [] g h = tt
All-map P Q f (x ∷ xs) g h = (g x h.0, All-map P Q f xs g h.1)

b32encode-IsB32 : (bytes : List ℕ) → All IsB32 (b32encode bytes)
b32encode-IsB32 bytes =
    All-map (λ q. q < 32) IsB32 b32_char (quintets (bits bytes)) b32_char-IsB32
      (quintets-small (bits bytes) (bits-IsBit bytes))

-- The text before and after the first dot.
abbrev pub split_code : Text → Text × Text
split_code [] = ([], [])
split_code (c ∷ s) =
    let (token, sig) = split_code s in if c == 46 then ([], s) else (c ∷ token, sig)

split_code-append :
    (token sig : Text) → contains 46 token ≡ false → split_code (token ++ 46 ∷ sig) ≡ (token, sig)
split_code-append [] sig h = refl
split_code-append (c ∷ token) sig h = ground (arith, split_code-append token sig)

length-append : (xs ys : List ℕ) → length (xs ++ ys) ≡ length xs + length ys
length-append [] ys = omega arith
length-append (x ∷ xs) ys = omega (arith, length-append xs ys)

length-bits : (bytes : List ℕ) → length (bits bytes) ≡ 8 * length bytes
length-bits [] = refl
length-bits (b ∷ bytes) = omega (arith, length-bits bytes)

length-quintets : (bs : List ℕ) → length (quintets bs) ≡ (length bs + 4) / 5
length-quintets [] = refl
length-quintets (a ∷ []) = refl
length-quintets (a ∷ b ∷ []) = refl
length-quintets (a ∷ b ∷ c ∷ []) = refl
length-quintets (a ∷ b ∷ c ∷ d ∷ []) = refl
length-quintets (a ∷ b ∷ c ∷ d ∷ e ∷ rest) = omega (arith, length-quintets rest)

length-map : (f : ℕ → ℕ) (xs : List ℕ) → length (map f xs) ≡ length xs
length-map f [] = refl
length-map f (x ∷ xs) = omega (arith, length-map f xs)

length-b32encode : (bytes : List ℕ) → length bytes ≡ 12 → length (b32encode bytes) ≡ 20
length-b32encode bytes h = omega (
  arith,
  h,
  length-map b32_char (quintets (bits bytes)),
  length-quintets (bits bytes),
  length-bits bytes,
)

length-first_bytes : (n : ℕ) (bytes : List ℕ) → n ≤ length bytes → length (first_bytes n bytes) ≡ n
length-first_bytes zero bytes h = refl
length-first_bytes (suc n) [] h = absurd (omega (arith, h))
length-first_bytes (suc n) (b ∷ bytes) h =
    omega (arith, length-first_bytes n bytes (omega (arith, h)))

not_blank : (s : Text) (n : ℕ) → length s ≡ suc n → is_blank s ≡ false
not_blank [] n h = absurd (omega (arith, h))
not_blank (c ∷ s) n h = refl

module _ (secret_key : Text) (hmac_sha256 : Text → Text → List ℕ) where
  -- What a scanner needs of the two halves of a code.
  abbrev IsAccepted : Ticket → Text × Text → Type 0
  unfolding verify_ticket_sig
  IsAccepted ticket (token, sig) =
      (token ≡ ticket.token)
      × (verify_ticket_sig secret_key hmac_sha256 token (some sig) ticket.organization ≡ true)
      × (length sig ≡ 20)
      × All IsB32 sig

  sign_ticket-length :
      (ticket : Ticket)
      → 12
        ≤ length (hmac_sha256 (key_for_org secret_key hmac_sha256 ticket.organization) ticket.token)
      → length (sign_ticket secret_key hmac_sha256 ticket) ≡ 20
  unfolding sign_ticket
  sign_ticket-length ticket long = length-b32encode _ (length-first_bytes 12 _ long)

  sign_ticket-IsAccepted :
      (ticket : Ticket)
      → length (sign_ticket secret_key hmac_sha256 ticket) ≡ 20
      → IsAccepted ticket (ticket.token, sign_ticket secret_key hmac_sha256 ticket)
  unfolding sign_ticket verify_ticket_sig
  sign_ticket-IsAccepted ticket long = (
    refl,
    (ground (
      arith,
      not_blank (sign_token secret_key hmac_sha256 ticket.token ticket.organization) 19 long,
      (text_eq_iff (sign_token secret_key hmac_sha256 ticket.token ticket.organization)
            (sign_token secret_key hmac_sha256 ticket.token ticket.organization)).1
          refl,
    )),
    long,
    b32encode-IsB32 _,
  )

  -- A ticket's scan code comes apart at its first dot into the token and a signature that is accepted,
  -- for the ticket's theater and has 20 characters of A-Z and 2-7, if the token has no dot and the
  -- digest has 12 bytes.
  pub scan_code_roundtrip :
      (ticket : Ticket)
      → contains 46 ticket.token ≡ false
      → 12
        ≤ length (hmac_sha256 (key_for_org secret_key hmac_sha256 ticket.organization) ticket.token)
      → let (token, sig) = split_code (scan_code secret_key hmac_sha256 ticket) in
        (token ≡ ticket.token)
        × (verify_ticket_sig secret_key hmac_sha256 token (some sig) ticket.organization ≡ true)
        × (length sig ≡ 20)
        × All IsB32 sig
  unfolding scan_code verify_ticket_sig
  scan_code_roundtrip ticket plain long =
      subst (IsAccepted ticket)
        (sym (split_code-append ticket.token (sign_ticket secret_key hmac_sha256 ticket) plain))
        (sign_ticket-IsAccepted ticket (sign_ticket-length ticket long))

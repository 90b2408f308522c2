-- ===== src/Outbox/Envelope.antt =====
-- Receipts, their envelopes, and what a readable envelope is (pkg/jevshadow/receipt.go and
-- receipt_outbox.go).
use notification_manager.Base.{
  ℕ, Bool, true, false, Option, none, some, [], ◌∷◌, ◌++◌, Str, lit, str_eq, is_empty, leb, ◌==◌,
  ◌&&◌, ◌||◌, not, length, take, if◌then◌else◌,
}
use notification_manager.Spool.Counter.{last_digits}

-- The fields that the outbox reads; `content` stands for all the others.
pub record Receipt : Type 0 where
  pub profile_id : Str
  pub profile_version : Str
  pub card_owner_id : Str
  pub execution_domain : Str
  pub sender_app : Str
  pub delivery_id : Str
  pub message_id : Str
  pub observation : Option Str
  pub content : Str

-- Times are nanoseconds; the zero time is 0. The number of attempts is never negative here.
pub record Envelope : Type 0 where
  pub version : ℕ
  pub id : Str
  pub receipt : Receipt
  pub created_at : ℕ
  pub attempts : ℕ
  pub next_attempt_at : ℕ
  pub last_error : Str
  pub dead_lettered_at : Option ℕ

-- A file holds one JSON envelope without unknown fields and within the size, or anything else.
pub data File : Type 0 where
  json : Envelope → File
  other : Str → File

-- SHA-256 in hexadecimal is the argument `hash`.
unfoldable pub receipt_envelope_id : (Str → Str) → Receipt → Str
receipt_envelope_id hash r = hash (r.delivery_id ++ (0 ∷ r.message_id))

unfoldable pub is_hex_digit : ℕ → Bool
is_hex_digit c =
    (leb b'0' c && leb c b'9') || ((leb b'a' c && leb c b'f') || (leb b'A' c && leb c b'F'))

-- hex.DecodeString: an even number of digits.
unfoldable pub is_hex : Str → Bool
unfolding is_hex_digit
is_hex [] = true
is_hex (a ∷ []) = false
is_hex (a ∷ b ∷ s) = is_hex_digit a && (is_hex_digit b && is_hex s)

unfoldable pub validate_envelope : (Str → Str) → Envelope → Bool
unfolding is_hex receipt_envelope_id
validate_envelope hash e =
    (e.version == 1)
    && ((length e.id == 64)
        && (is_hex e.id
            && (not (is_empty e.receipt.delivery_id || is_empty e.receipt.message_id)
                && (str_eq e.id (receipt_envelope_id hash e.receipt) && not (e.created_at == 0)))))

-- `none` where readReceiptEnvelope returns an error.
unfoldable pub read_envelope : (Str → Str) → Option File → Option Envelope
unfolding validate_envelope
read_envelope hash none = none
read_envelope hash (some (other s)) = none
read_envelope hash (some (json e)) = if validate_envelope hash e then some e else none

unfoldable pub has_prefix : Str → Str → Bool
has_prefix s [] = true
has_prefix [] (c ∷ p) = false
has_prefix (b ∷ s) (c ∷ p) = (b == c) && has_prefix s p

unfoldable pub has_suffix : Str → Str → Bool
has_suffix [] p = is_empty p
has_suffix (b ∷ s) p = str_eq (b ∷ s) p || has_suffix s p

-- strings.TrimSuffix.
unfoldable pub trim_suffix : Str → Str → Str
trim_suffix [] p = []
trim_suffix (b ∷ s) p = let rest = trim_suffix s p in if str_eq (b ∷ s) p then [] else b ∷ rest

unfoldable pub strip_zeros : Str → Str
strip_zeros [] = lit "0"
strip_zeros (c ∷ s) = let rest = strip_zeros s in if c == b'0' then rest else c ∷ s

-- %d of an int64 that is not negative.
unfoldable pub decimal : ℕ → Str
unfolding strip_zeros last_digits
decimal n = strip_zeros (last_digits 20 n [])

unfoldable pub file_name : Str → Str
file_name id = id ++ lit ".json"

unfoldable pub dead_name : Str → ℕ → Str
unfolding decimal
dead_name id now = id ++ (lit "-" ++ (decimal now ++ lit ".json"))

unfoldable pub corrupt_name : Str → ℕ → Str
unfolding trim_suffix decimal
corrupt_name name now =
    trim_suffix name (lit ".json") ++ (lit "-corrupt-" ++ (decimal now ++ lit ".json"))

-- The file beside a corrupt one that keeps the reason.
abbrev pub note_name : Str → Str
note_name name = name ++ lit ".error"

-- White space of ASCII. strings.TrimSpace also trims the other white space of Unicode, which no model
-- of bytes in this development tells apart.
unfoldable pub is_space : ℕ → Bool
is_space c = (c == 32) || (leb 9 c && leb c 13)

unfoldable pub trim_left : Str → Str
unfolding is_space
trim_left [] = []
trim_left (c ∷ s) = let rest = trim_left s in if is_space c then rest else c ∷ s

unfoldable pub trim_right : Str → Str
unfolding is_space
trim_right [] = []
trim_right (c ∷ s) = let rest = trim_right s in if is_space c && is_empty rest then [] else c ∷ rest

unfoldable pub bounded_receipt_error : Str → Str
unfolding trim_left trim_right
bounded_receipt_error message = take 1024 (trim_right (trim_left message))

-- ===== src/RunQueue/Patterns.antt =====
-- The regular expressions and the identifiers of queue.go.
use Prim.Native.Nat.{bit_and, bit_or}
use Prim.Native.Char.{Char}
use Prim.Native.String.{◌++◌, slice}
use proof_layer.Base.{
  ℕ, ◌+◌, Bool, ◌&&◌, ◌||◌, String, none, some, List, [], ◌∷◌, Bytes, leb, nat_eq, if◌then◌else◌,
  codes, to_lower, to_upper, hex, every, length, get_elem?, set,
}

abbrev is_hex_code : ℕ → Bool
is_hex_code c = (leb b'0' c && leb c b'9') || (leb b'a' c && leb c b'f')

abbrev is_dash_position : ℕ → Bool
is_dash_position i = nat_eq i 8 || nat_eq i 13 || nat_eq i 18 || nat_eq i 23

-- `uuidPattern`, from position `i` of the text.
matches_uuid_from : ℕ → List ℕ → Bool
matches_uuid_from i [] = nat_eq i 36
matches_uuid_from i (c ∷ cs) =
    (if is_dash_position i then nat_eq c b'-' else is_hex_code c) && matches_uuid_from (i + 1) cs

unfoldable pub valid_uuid : (Char → Char) → String → Bool
unfolding matches_uuid_from to_lower
valid_uuid wide value = matches_uuid_from 0 (codes (to_lower wide value))

abbrev is_key_code : ℕ → Bool
is_key_code c =
    (leb b'A' c && leb c b'Z')
    || (leb b'a' c && leb c b'z')
    || (leb b'0' c && leb c b'9')
    || nat_eq c b'_'
    || nat_eq c b'-'

-- `idempotencyPattern`
unfoldable pub matches_idempotency : String → Bool
matches_idempotency key =
    let cs = codes key in leb 22 (length cs) && leb (length cs) 64 && every is_key_code cs

-- `buffer[i] = (buffer[i] & mask) | bits`
abbrev stamp : ℕ → ℕ → ℕ → Bytes → Bytes
stamp i mask bits buffer = elim (get_elem? buffer i) [
  | none ↦ buffer
  | some b ↦ set buffer i (bit_or (bit_and b mask) bits)
]

-- `randomUUID` on the 16 bytes read.
unfoldable pub uuid_of : Bytes → String
unfolding hex
uuid_of buffer =
    let encoded = hex (stamp 8 0x3f 0x80 (stamp 6 0x0f 0x40 buffer)) in
    slice encoded 0 8
    ++ ("-"
        ++ (slice encoded 8 12
            ++ ("-"
                ++ (slice encoded 12 16
                    ++ ("-" ++ (slice encoded 16 20 ++ ("-" ++ slice encoded 20 32)))))))

-- `randomCorrelationID` on the 16 bytes read.
unfoldable pub correlation_id_of : Bytes → String
unfolding hex to_upper
correlation_id_of buffer = "PL-" ++ to_upper (hex buffer)

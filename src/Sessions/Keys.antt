-- ===== src/Sessions/Keys.antt =====
-- ProductSessionAdmissionKey and RedisKey of runtime_session_admission.go. A Go string is a sequence
-- of bytes, and the key is built byte by byte, so the texts of a key are lists of bytes.
pub mod RoundTrip
use yuex.Prelude.{
  ℕ, zero, suc, ◌+◌, ◌*◌, ◌/◌, ◌%◌, Bool, true, false, not, ◌&&◌, ◌||◌, List, [], ◌∷◌, ◌++◌, ltb,
  leb, ◌==◌, if◌then◌else◌,
}

abbrev pub Bytes : Type 0
Bytes = List ℕ

-- ==, on strings
unfoldable pub bytes_eq : Bytes → Bytes → Bool
bytes_eq [] [] = true
bytes_eq [] (y ∷ ys) = false
bytes_eq (x ∷ xs) [] = false
bytes_eq (x ∷ xs) (y ∷ ys) = x == y && bytes_eq xs ys

pub record AdmissionKey : Type 0 where
  pub tenant_id : Bytes
  pub thread_id : Bytes
  pub agent_profile : Bytes
  pub context_generation : ℕ
  pub session_generation : ℕ

-- ==, on keys
unfoldable pub key_eq : AdmissionKey → AdmissionKey → Bool
unfolding bytes_eq
key_eq a b =
    bytes_eq a.tenant_id b.tenant_id
    && bytes_eq a.thread_id b.thread_id
    && bytes_eq a.agent_profile b.agent_profile
    && a.context_generation == b.context_generation
    && a.session_generation == b.session_generation

-- The UTF-8 forms of the spaces of unicode.IsSpace, each read as one number.
is_space_form : ℕ → Bool
is_space_form n =
    (leb 9 n && leb n 13)
    || n == 32
    || n == 0xc285
    || n == 0xc2a0
    || n == 0xe19a80
    || (leb 0xe28080 n && leb n 0xe2808a)
    || n == 0xe280a8
    || n == 0xe280a9
    || n == 0xe280af
    || n == 0xe2819f
    || n == 0xe38080

-- What such a form can begin with.
begins_space : ℕ → Bool
begins_space n =
    n == 0xc2
    || n == 0xe1
    || n == 0xe2
    || n == 0xe3
    || n == 0xe19a
    || n == 0xe280
    || n == 0xe281
    || n == 0xe380

-- Nothing but spaces follows the bytes that `begun` stands for.
only_space : ℕ → Bytes → Bool
unfolding is_space_form begins_space
only_space begun [] = begun == 0
only_space begun (b ∷ bs) =
    let n = begun * 256 + b in
    elim (is_space_form n) [
      | true ↦ only_space 0 bs
      | false ↦ elim (begins_space n) [ true ↦ only_space n bs | false ↦ false ]
    ]

-- strings.TrimSpace(s) == ""
unfoldable pub is_blank_text : Bytes → Bool
unfolding only_space
is_blank_text = only_space 0

-- validateProductSessionAdmissionKey
unfoldable pub key_is_valid : AdmissionKey → Bool
unfolding is_blank_text
key_is_valid k = not (
    is_blank_text k.tenant_id
    || is_blank_text k.thread_id
    || is_blank_text k.agent_profile
    || ltb k.context_generation 1
    || ltb k.session_generation 1)

-- digits[d]
unfoldable pub hex_digit : ℕ → ℕ
hex_digit d = if ltb d 10 then 48 + d else 55 + d

-- The bytes that stand for themselves: a to z, A to Z, 0 to 9, and the marks - _ .
unfoldable pub is_plain : ℕ → Bool
is_plain b =
    (leb 97 b && leb b 122)
    || (leb 65 b && leb b 90)
    || (leb 48 b && leb b 57)
    || b == 45
    || b == 95
    || b == 46

-- encodeRuntimeKeySegment
unfoldable pub encode_segment : Bytes → Bytes
unfolding is_plain hex_digit
encode_segment [] = []
encode_segment (b ∷ bs) =
    let rest = encode_segment bs in
    if is_plain b then b ∷ rest else 37 ∷ hex_digit (b / 16) ∷ hex_digit (b % 16) ∷ rest

-- %d of a number that is not negative: the digits of `n` before `rest`. Each round takes a digit off,
-- and `n` rounds are enough.
unfoldable pub decimal_from : ℕ → ℕ → Bytes → Bytes
decimal_from zero n rest = rest
decimal_from (suc rounds) n rest = elim (ltb n 10) [
  | true ↦ (48 + n) ∷ rest
  | false ↦ decimal_from rounds (n / 10) ((48 + n % 10) ∷ rest)
]

unfoldable pub decimal : ℕ → Bytes
unfolding decimal_from
decimal n = decimal_from (suc n) n []

-- "runtime:session:"
abbrev pub key_prefix : Bytes
key_prefix =
    114 ∷ 117 ∷ 110 ∷ 116 ∷ 105 ∷ 109 ∷ 101 ∷ 58 ∷ 115 ∷ 101 ∷ 115 ∷ 115 ∷ 105 ∷ 111 ∷ 110 ∷ 58 ∷ []

-- RedisKey
unfoldable pub redis_key : AdmissionKey → Bytes
unfolding key_is_valid encode_segment decimal
redis_key k =
    let session = decimal k.session_generation in
    let context = decimal k.context_generation ++ (58 ∷ session) in
    let profile = encode_segment k.agent_profile ++ (58 ∷ context) in
    let thread = encode_segment k.thread_id ++ (58 ∷ profile) in
    if key_is_valid k then key_prefix ++ (encode_segment k.tenant_id ++ (58 ∷ thread)) else []

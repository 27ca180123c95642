-- ===== src/Sessions/Keys/RoundTrip.antt =====
-- What can be read back from the text of RedisKey.
use yuex.Prelude.{
  ℕ, zero, suc, ◌+◌, ◌-◌, ◌*◌, ◌/◌, ◌%◌, ◌<◌, ◌≡◌, refl, ap, sym, ◌∙◌, true, ◌&&◌, [], ◌∷◌, ◌++◌,
  ltb, leb, ◌==◌, if◌then◌else◌, arith, All, Bool-cases, inl, inr,
}
use yuex.Sessions.Keys.{
  Bytes, AdmissionKey, bytes_eq, key_eq, hex_digit, is_plain, encode_segment, decimal_from, decimal,
  redis_key, key_is_valid, key_prefix,
}

abbrev pub IsByte : ℕ → Type 0
IsByte b = b < 256

unhex : ℕ → ℕ
unhex d = if ltb d 58 then d - 48 else d - 55

unhex-hex_digit : (d : ℕ) → d < 16 → unhex (hex_digit d) ≡ d
unfolding unhex hex_digit
unhex-hex_digit d h = ground arith

-- A segment up to the colon that ends it, and what stands behind the colon.
read_segment : Bytes → Bytes × Bytes
unfolding unhex
read_segment [] = ([], [])
read_segment (x ∷ []) = if x == 58 then ([], []) else (x ∷ [], [])
read_segment (x ∷ y ∷ []) =
    let plain = read_segment (y ∷ []) in if x == 58 then ([], y ∷ []) else (x ∷ plain.0, plain.1)
read_segment (x ∷ y ∷ z ∷ rest) =
    let escaped = read_segment rest in
    let plain = read_segment (y ∷ z ∷ rest) in
    if x == 58
    then ([], y ∷ z ∷ rest)
    else if x == 37
    then ((unhex y * 16 + unhex z) ∷ escaped.0, escaped.1)
    else (x ∷ plain.0, plain.1)

read_segment_ends : (rest : Bytes) → read_segment (58 ∷ rest) ≡ ([], rest)
unfolding read_segment
read_segment_ends [] = refl
read_segment_ends (y ∷ []) = refl
read_segment_ends (y ∷ z ∷ rest) = refl

read_segment_plain :
    (b : ℕ) (text : Bytes)
    → is_plain b ≡ true
    → read_segment (b ∷ text) ≡ (b ∷ (read_segment text).0, (read_segment text).1)
unfolding read_segment is_plain
read_segment_plain b [] p = ground arith
read_segment_plain b (c ∷ []) p = ground arith
read_segment_plain b (c ∷ d ∷ rest) p = ground arith

read_segment_escaped :
    (b : ℕ) (text : Bytes)
    → IsByte b
    → read_segment (37 ∷ hex_digit (b / 16) ∷ hex_digit (b % 16) ∷ text)
      ≡ (b ∷ (read_segment text).0, (read_segment text).1)
unfolding read_segment
read_segment_escaped b text h =
    ground (arith, unhex-hex_digit (b / 16) (omega arith), unhex-hex_digit (b % 16) (omega arith))

read_segment-encode :
    (text rest : Bytes)
    → All IsByte text
    → read_segment (encode_segment text ++ 58 ∷ rest) ≡ (text, rest)
unfolding encode_segment
read_segment-encode [] rest h = read_segment_ends rest
read_segment-encode (b ∷ bs) rest h = elim (Bool-cases (is_plain b)) [
  | inl p ↦ rw p (
      cc (read_segment_plain b (encode_segment bs ++ 58 ∷ rest) p, read_segment-encode bs rest h.1))
  | inr p ↦ rw p (
      cc (
        read_segment_escaped b (encode_segment bs ++ 58 ∷ rest) h.0,
        read_segment-encode bs rest h.1,
      ))
]

read_number : ℕ → Bytes → ℕ × Bytes
read_number read [] = (read, [])
read_number read (b ∷ bs) =
    let further = read_number (read * 10 + (b - 48)) bs in
    if leb 48 b && leb b 57 then further else (read, bs)

read_number_digit :
    (n read next : ℕ) (rest : Bytes)
    → n < 10
    → read * 10 + n ≡ next
    → read_number read ((48 + n) ∷ rest) ≡ read_number next rest
unfolding read_number
read_number_digit n read next rest h e =
    let e' : read * 10 + (48 + n - 48) ≡ next = omega arith in
    ground (arith, ap (λ k. read_number k rest) e')

read_number-decimal_from :
    (rounds n : ℕ) (rest : Bytes)
    → n < rounds
    → read_number 0 (decimal_from rounds n rest) ≡ read_number n rest
unfolding decimal_from
read_number-decimal_from zero n rest h = absurd (omega arith)
read_number-decimal_from (suc rounds) n rest h = elim (Bool-cases (ltb n 10)) [
  | inl p ↦ rw (p, decimal_from) (read_number_digit n 0 n rest (ground arith) (omega arith))
  | inr p ↦
      rw (p, decimal_from)
        (read_number-decimal_from rounds (n / 10) ((48 + n % 10) ∷ rest) (ground arith)
          ∙ read_number_digit (n % 10) (n / 10) n rest (omega arith) (omega arith))
]

decimal_from_append :
    (rounds n : ℕ) (rest more : Bytes)
    → decimal_from rounds n rest ++ more ≡ decimal_from rounds n (rest ++ more)
unfolding decimal_from
decimal_from_append zero n rest more = refl
decimal_from_append (suc rounds) n rest more = elim (Bool-cases (ltb n 10)) [
  | inl p ↦ rw (p, decimal_from, ◌++◌) refl
  | inr p ↦
      rw (p, decimal_from, ◌++◌) (decimal_from_append rounds (n / 10) ((48 + n % 10) ∷ rest) more)
]

-- A number in front of a colon, and at the end.
read_number-decimal : (n : ℕ) (more : Bytes) → read_number 0 (decimal n ++ 58 ∷ more) ≡ (n, more)
unfolding decimal read_number
read_number-decimal n more =
    ap (read_number 0) (decimal_from_append (suc n) n [] (58 ∷ more))
    ∙ read_number-decimal_from (suc n) n (58 ∷ more) (omega arith)

read_number_last : (n : ℕ) → read_number 0 (decimal n) ≡ (n, [])
unfolding decimal read_number
read_number_last n = read_number-decimal_from (suc n) n [] (omega arith)

skip : ℕ → Bytes → Bytes
skip zero text = text
skip (suc n) [] = []
skip (suc n) (b ∷ bs) = skip n bs

-- Reads a key back: three segments and two numbers, between colons.
pub read_key : Bytes → AdmissionKey
unfolding read_segment read_number skip
read_key text =
    let tenant = read_segment (skip 16 text) in
    let thread = read_segment tenant.1 in
    let profile = read_segment thread.1 in
    let context = read_number 0 profile.1 in
    let session = read_number 0 context.1 in
    record {
      tenant_id = tenant.0;
      thread_id = thread.0;
      agent_profile = profile.0;
      context_generation = context.0;
      session_generation = session.0;
    }

-- The texts of a key are bytes.
abbrev pub HasBytes : AdmissionKey → Type 0
HasBytes k = All IsByte k.tenant_id × All IsByte k.thread_id × All IsByte k.agent_profile

read_key_parts :
    (k : AdmissionKey) (text after_tenant after_thread after_profile after_context rest : Bytes)
    → read_segment (skip 16 text) ≡ (k.tenant_id, after_tenant)
    → read_segment after_tenant ≡ (k.thread_id, after_thread)
    → read_segment after_thread ≡ (k.agent_profile, after_profile)
    → read_number 0 after_profile ≡ (k.context_generation, after_context)
    → read_number 0 after_context ≡ (k.session_generation, rest)
    → read_key text ≡ k
unfolding read_key
read_key_parts k text t1 t2 t3 t4 rest e1 e2 e3 e4 e5 = ground (arith, e1, e2, e3, e4, e5)

-- The text that RedisKey makes of a valid key is read back as that key, whatever bytes stand in
-- its tenant, its thread and its profile: a colon or a percent sign in one of them does not run into
-- the next.
pub read_key-redis_key :
    (k : AdmissionKey) → HasBytes k → key_is_valid k ≡ true → read_key (redis_key k) ≡ k
unfolding redis_key skip
read_key-redis_key k h valid =
    let context_on = decimal k.session_generation in
    let profile_on = decimal k.context_generation ++ (58 ∷ context_on) in
    let thread_on = encode_segment k.agent_profile ++ (58 ∷ profile_on) in
    let tenant_on = encode_segment k.thread_id ++ (58 ∷ thread_on) in
    let text = key_prefix ++ (encode_segment k.tenant_id ++ (58 ∷ tenant_on)) in
    rw valid (
      read_key_parts k text tenant_on thread_on profile_on context_on []
        (read_segment-encode k.tenant_id tenant_on h.0)
        (read_segment-encode k.thread_id thread_on h.1)
        (read_segment-encode k.agent_profile profile_on h.2)
        (read_number-decimal k.context_generation context_on)
        (read_number_last k.session_generation))

-- Two valid keys with one text are one key, so the lock under that text is held for one product
-- session only.
pub redis_key_injective :
    (k l : AdmissionKey)
    → HasBytes k
    → HasBytes l
    → key_is_valid k ≡ true
    → key_is_valid l ≡ true
    → redis_key k ≡ redis_key l
    → k ≡ l
redis_key_injective k l h i v w e =
    sym (read_key-redis_key k h v) ∙ ap read_key e ∙ read_key-redis_key l i w

pub bytes_eq_refl : (xs : Bytes) → bytes_eq xs xs ≡ true
unfolding bytes_eq
bytes_eq_refl [] = refl
bytes_eq_refl (x ∷ xs) = ground (arith, bytes_eq_refl xs)

pub key_eq_refl : (k : AdmissionKey) → key_eq k k ≡ true
unfolding key_eq
key_eq_refl k =
    ground
      (arith, bytes_eq_refl k.tenant_id, bytes_eq_refl k.thread_id, bytes_eq_refl k.agent_profile)

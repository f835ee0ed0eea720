-- ===== src/Recovery.antt =====
-- Recovery codes, of apps/sso/worker/recovery-codes.ts: how a code is made from entropy, shown to
-- its owner, and read back. A text is the list of its code units.
pub mod Encoding
pub mod Reading
pub mod Sets
pub mod Drawing
mod Examples
use sso_pg72_tw.Common.{
  ℕ, suc, zero, ◌+◌, ◌-◌, ◌*◌, ◌/◌, ◌%◌, ◌^◌, ◌&&◌, ◌||◌, Bool, true, false, not, Option, none,
  some, List, [], ◌∷◌, ◌++◌, map, length, all, any, leb, ltb, ◌==◌, if◌then◌else◌, Result, ok,
  throw,
}
use sso_pg72_tw.Common.Results.{◌>>=◌, unless}

-- The character of `RECOVERY_ALPHABET` at a place below 32.
abbrev pub recovery_symbol : ℕ → ℕ
recovery_symbol k =
    if ltb k 10
    then 48 + k
    else if ltb k 18
    then 55 + k
    else if ltb k 20
    then 56 + k
    else if ltb k 22
    then 57 + k
    else if ltb k 27
    then 58 + k
    else 59 + k

abbrev pub is_between : ℕ → ℕ → ℕ → Bool
is_between low high c = leb low c && leb c high

-- A character of `RECOVERY_PAYLOAD_PATTERN`.
abbrev pub is_payload : ℕ → Bool
is_payload c =
    is_between 48 57 c
    || is_between 65 72 c
    || is_between 74 75 c
    || is_between 77 78 c
    || is_between 80 84 c
    || is_between 86 90 c

-- A character of `RECOVERY_INPUT_PATTERN`.
abbrev pub is_input : ℕ → Bool
is_input c = is_between 65 90 c || is_between 97 122 c || is_between 48 57 c || c == 32 || c == 45

-- `replaceAll(character, "")`
unfoldable pub without : ℕ → List ℕ → List ℕ
without character [] = []
without character (c ∷ cs) =
    let rest = without character cs in if c == character then rest else c ∷ rest

-- `toUpperCase` on the characters of the input pattern
abbrev pub to_upper : ℕ → ℕ
to_upper c = if is_between 97 122 c then c - 32 else c

unfoldable pub starts_with : List ℕ → List ℕ → Bool
starts_with [] text = true
starts_with (c ∷ cs) [] = false
starts_with (c ∷ cs) (d ∷ ds) = c == d && starts_with cs ds

unfoldable pub drop : ℕ → List ℕ → List ℕ
drop zero text = text
drop (suc n) [] = []
drop (suc n) (c ∷ cs) = drop n cs

-- "PGIDR1"
abbrev pub canonical_prefix : List ℕ
canonical_prefix = 80 ∷ 71 ∷ 73 ∷ 68 ∷ 82 ∷ 49 ∷ []

abbrev pub matches_payload : List ℕ → Bool
matches_payload text = length text == 32 && all is_payload text

unfoldable pub canonical_of : List ℕ → Option (List ℕ)
unfolding starts_with drop
canonical_of compact =
    if not (starts_with canonical_prefix compact)
    then none
    else if matches_payload (drop 6 compact)
    then some compact
    else none

unfoldable pub canonical_recovery_code : List ℕ → Option (List ℕ)
unfolding canonical_of without
canonical_recovery_code value =
    if length value == 0 || ltb 128 (length value) || not (all is_input value)
    then none
    else canonical_of (map to_upper (without 32 (without 45 value)))

-- The variables of the encoder. The source's `value` is a word of 32 bits, here without its sign,
-- as `>>>` reads it.
pub record Encoder : Type 0 where
  pub bits : ℕ
  pub value : ℕ
  pub output : List ℕ

-- The body of the inner loop.
unfoldable pub emit : Encoder → Encoder
emit e = record {
  bits = e.bits - 5;
  value = e.value;
  output = e.output ++ recovery_symbol (e.value / 2 ^ (e.bits - 5) % 32) ∷ [];
}

-- The inner loop, with rounds to spare.
unfoldable pub drain : ℕ → Encoder → Encoder
unfolding emit
drain zero e = e
drain (suc rounds) e = let rest = drain rounds (emit e) in if leb 5 e.bits then rest else e

-- The body of the outer loop; every round of the inner one takes five bits.
unfoldable pub absorb : Encoder → ℕ → Encoder
unfolding drain
absorb e byte =
    drain (e.bits + 8)
      (record { bits = e.bits + 8; value = e.value * 256 % 2 ^ 32 + byte; output = e.output })

unfoldable pub absorb_all : Encoder → List ℕ → Encoder
unfolding absorb
absorb_all e [] = e
absorb_all e (byte ∷ bytes) = absorb_all (absorb e byte) bytes

abbrev pub fresh_encoder : Encoder
fresh_encoder = record { bits = 0; value = 0; output = [] }

unfoldable pub encode_recovery_payload : List ℕ → Result (List ℕ)
unfolding absorb_all
encode_recovery_payload bytes =
    unless (not (length bytes == 20)) "Recovery entropy must be 20 bytes" (
      let e = absorb_all fresh_encoder bytes in
      unless (not (e.bits == 0) || not (length e.output == 32)) "Recovery entropy encoding failed"
        (ok e.output))

-- The matches of `/.{4}/g`
unfoldable pub groups : List ℕ → List (List ℕ)
groups (a ∷ b ∷ c ∷ d ∷ rest) = (a ∷ b ∷ c ∷ d ∷ []) ∷ groups rest
groups _ = []

-- `join("-")`
unfoldable pub join : List (List ℕ) → List ℕ
join [] = []
join (g ∷ []) = g
join (g ∷ h ∷ gs) = g ++ 45 ∷ join (h ∷ gs)

-- `match(…)?.join("-") ?? payload`
abbrev pub joined_or : List (List ℕ) → List ℕ → List ℕ
joined_or [] payload = payload
joined_or (g ∷ gs) payload = join (g ∷ gs)

-- "PGID-R1-"
abbrev pub display_prefix : List ℕ
display_prefix = 80 ∷ 71 ∷ 73 ∷ 68 ∷ 45 ∷ 82 ∷ 49 ∷ 45 ∷ []

unfoldable pub display_recovery_code : List ℕ → List ℕ
unfolding groups join
display_recovery_code payload = display_prefix ++ joined_or (groups payload) payload

pub record GeneratedRecoveryCodeSet : Type 0 where
  pub codes : List (List ℕ)
  pub hashes : List (List ℕ)

unfoldable pub equal_text : List ℕ → List ℕ → Bool
equal_text [] [] = true
equal_text (c ∷ cs) (d ∷ ds) = c == d && equal_text cs ds
equal_text _ _ = false

-- `canonicalValues.has(canonical)`
abbrev pub has_text : List ℕ → List (List ℕ) → Bool
has_text text texts = any (equal_text text) texts

-- `RECOVERY_CODE_COUNT`
abbrev pub recovery_code_count : ℕ
recovery_code_count = 10

-- The loop, over the random bytes that it draws, with the set so far and `canonicalValues`; none
-- when it wants more than there are. `hash` stands for `sha256Base64Url`.
unfoldable pub generate_from :
    (hash : List ℕ → List ℕ)
    → (draws : List (List ℕ)) → GeneratedRecoveryCodeSet
    → (seen : List (List ℕ)) → Option (Result GeneratedRecoveryCodeSet)
unfolding encode_recovery_payload equal_text display_recovery_code
generate_from hash [] s seen =
    if leb recovery_code_count (length s.codes) then some (ok s) else none
generate_from hash (entropy ∷ draws) s seen = elim (leb recovery_code_count (length s.codes)) [
  | true ↦ some (ok s)
  | false ↦ elim (encode_recovery_payload entropy) [
    | throw message ↦ some (throw message)
    | ok payload ↦ elim (has_text (canonical_prefix ++ payload) seen) [
      | true ↦ generate_from hash draws s seen
      | false ↦
          generate_from hash draws
            (record {
              codes = s.codes ++ display_recovery_code payload ∷ [];
              hashes = s.hashes ++ hash (canonical_prefix ++ payload) ∷ [];
            })
            (seen ++ (canonical_prefix ++ payload) ∷ [])
    ]
  ]
]

unfoldable pub generate_recovery_code_set :
    (hash : List ℕ → List ℕ) → (draws : List (List ℕ)) → Option (Result GeneratedRecoveryCodeSet)
unfolding generate_from
generate_recovery_code_set hash draws =
    generate_from hash draws (record { codes = []; hashes = [] }) []

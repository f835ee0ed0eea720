-- ===== src/Recovery/Encoding.antt =====
-- The encoder of recovery codes in apps/sso/worker/recovery-codes.ts.
use sso_pg72_tw.Common.{
  ℕ, suc, zero, ◌+◌, ◌-◌, ◌*◌, ◌/◌, ◌%◌, ◌^◌, ◌<◌, ◌≡◌, refl, ◌∙◌, ap, sym, true, List, [], ◌∷◌,
  ◌++◌, length, length-append, All, All-append, leb, if◌then◌else◌, ok, arith,
}
use sso_pg72_tw.Common.Results.{ok_injective}
use sso_pg72_tw.Recovery.{
  Encoder, recovery_symbol, is_payload, emit, drain, absorb, absorb_all, fresh_encoder,
  encode_recovery_payload,
}

-- The place of a character in the alphabet.
abbrev pub symbol_value : ℕ → ℕ
symbol_value c =
    if leb c 57
    then c - 48
    else if leb c 72
    then c - 55
    else if leb c 75
    then c - 56
    else if leb c 78
    then c - 57
    else if leb c 84
    then c - 58
    else c - 59

-- A text as a number in base 32, with the most significant digit first, and bytes as one in base
-- 256.
abbrev pub text_number : ℕ → List ℕ → ℕ
text_number n [] = n
text_number n (c ∷ cs) = text_number (n * 32 + symbol_value c) cs

abbrev pub byte_number : ℕ → List ℕ → ℕ
byte_number n [] = n
byte_number n (b ∷ bs) = byte_number (n * 256 + b) bs

symbol_value-recovery_symbol : (k : ℕ) → k < 32 → symbol_value (recovery_symbol k) ≡ k
symbol_value-recovery_symbol k h = ground arith

is_payload-recovery_symbol : (k : ℕ) → k < 32 → is_payload (recovery_symbol k) ≡ true
is_payload-recovery_symbol k h = ground arith

text_number-append :
    (n : ℕ) (xs ys : List ℕ) → text_number n (xs ++ ys) ≡ text_number (text_number n xs) ys
text_number-append n [] ys = refl
text_number-append n (x ∷ xs) ys = text_number-append (n * 32 + symbol_value x) xs ys

push :
    (out : List ℕ) (k : ℕ)
    → k < 32
    → text_number 0 (out ++ recovery_symbol k ∷ []) ≡ text_number 0 out * 32 + k
push out k h =
    text_number-append 0 out (recovery_symbol k ∷ [])
    ∙ ap (λ x. text_number 0 out * 32 + x) (symbol_value-recovery_symbol k h)

abbrev pub ArePayload : List ℕ → Type 0
ArePayload = All (λ c. is_payload c ≡ true)

pushed :
    (out : List ℕ) (k : ℕ) → k < 32 → ArePayload out → ArePayload (out ++ recovery_symbol k ∷ [])
pushed out k h all =
    All-append (λ c. is_payload c ≡ true) out (recovery_symbol k ∷ []) all
      (is_payload-recovery_symbol k h, tt)

-- The number that the encoder has read.
abbrev read_number : Encoder → ℕ
read_number e = text_number 0 e.output * 2 ^ e.bits + e.value % 2 ^ e.bits

-- What a byte adds.
record Adds (e : Encoder) (byte : ℕ) (f : Encoder) : Type 0 where
  counted : length f.output * 5 + f.bits ≡ length e.output * 5 + e.bits + 8
  short : f.bits < 5
  valid : ArePayload e.output → ArePayload f.output
  number : read_number f ≡ read_number e * 256 + byte

-- The word once a byte has been moved in.
abbrev word : ℕ → ℕ → ℕ
word value byte = value * 256 % 2 ^ 32 + byte

absorb-Adds :
    (bits value : ℕ) (out : List ℕ) (byte : ℕ)
    → bits < 5
    → byte < 256
    → let e : Encoder = record { bits = bits; value = value; output = out } in
      Adds e byte (absorb e byte)
unfolding absorb drain emit
absorb-Adds zero value out byte b h =
    let k = word value byte / 8 % 32 in
    record {
      counted = omega (arith, length-append out (recovery_symbol k ∷ []));
      short = omega arith;
      valid = pushed out k (omega arith);
      number = omega (arith, push out k (omega arith));
    }
absorb-Adds (suc zero) value out byte b h =
    let k = word value byte / 16 % 32 in
    record {
      counted = omega (arith, length-append out (recovery_symbol k ∷ []));
      short = omega arith;
      valid = pushed out k (omega arith);
      number = omega (arith, push out k (omega arith));
    }
absorb-Adds (suc (suc zero)) value out byte b h =
    let k = word value byte / 32 % 32 in
    let l = word value byte / 1 % 32 in
    let more = out ++ recovery_symbol k ∷ [] in
    record {
      counted = omega (
        arith,
        length-append out (recovery_symbol k ∷ []),
        length-append more (recovery_symbol l ∷ []),
      );
      short = omega arith;
      valid = λ all. pushed more l (omega arith) (pushed out k (omega arith) all);
      number = omega (arith, push out k (omega arith), push more l (omega arith));
    }
absorb-Adds (suc (suc (suc zero))) value out byte b h =
    let k = word value byte / 64 % 32 in
    let l = word value byte / 2 % 32 in
    let more = out ++ recovery_symbol k ∷ [] in
    record {
      counted = omega (
        arith,
        length-append out (recovery_symbol k ∷ []),
        length-append more (recovery_symbol l ∷ []),
      );
      short = omega arith;
      valid = λ all. pushed more l (omega arith) (pushed out k (omega arith) all);
      number = omega (arith, push out k (omega arith), push more l (omega arith));
    }
absorb-Adds (suc (suc (suc (suc zero)))) value out byte b h =
    let k = word value byte / 128 % 32 in
    let l = word value byte / 4 % 32 in
    let more = out ++ recovery_symbol k ∷ [] in
    record {
      counted = omega (
        arith,
        length-append out (recovery_symbol k ∷ []),
        length-append more (recovery_symbol l ∷ []),
      );
      short = omega arith;
      valid = λ all. pushed more l (omega arith) (pushed out k (omega arith) all);
      number = omega (arith, push out k (omega arith), push more l (omega arith));
    }
absorb-Adds (suc (suc (suc (suc (suc n))))) value out byte b h = absurd (omega arith)

abbrev pub AreBytes : List ℕ → Type 0
AreBytes = All (λ b. b < 256)

-- What is known of the encoder after bytes that make up a number.
record Holds (bytes number : ℕ) (e : Encoder) : Type 0 where
  counted : length e.output * 5 + e.bits ≡ bytes * 8
  short : e.bits < 5
  valid : ArePayload e.output
  number_read : read_number e ≡ number

absorb_all-Holds :
    (e : Encoder) (bytes : List ℕ) (n number : ℕ)
    → Holds n number e
    → AreBytes bytes
    → Holds (n + length bytes) (byte_number number bytes) (absorb_all e bytes)
unfolding absorb_all
absorb_all-Holds e [] n number h all = record {
  counted = omega (arith, h.counted);
  short = h.short;
  valid = h.valid;
  number_read = h.number_read;
}
absorb_all-Holds e (b ∷ bs) n number h all =
    let a = absorb-Adds e.bits e.value e.output b h.short all.0 in
    let rest =
      absorb_all-Holds (absorb e b) bs (n + 1) (number * 256 + b)
        (record {
          counted = omega (arith, a.counted, h.counted);
          short = a.short;
          valid = a.valid h.valid;
          number_read = a.number ∙ ap (λ x. x * 256 + b) h.number_read;
        })
        all.1 in
    record {
      counted = omega (arith, rest.counted);
      short = rest.short;
      valid = rest.valid;
      number_read = rest.number_read;
    }

read_whole :
    (bits value : ℕ) (out : List ℕ)
    → bits ≡ 0
    → read_number (record { bits = bits; value = value; output = out }) ≡ text_number 0 out
read_whole zero value out h = omega arith
read_whole (suc n) value out h = absurd (omega arith)

-- Twenty bytes are encoded without an error, as 32 characters of the alphabet that are the same
-- number.
pub encode_recovery_payload-number :
    (bytes : List ℕ)
    → length bytes ≡ 20
    → AreBytes bytes
    → (p : List ℕ) × (encode_recovery_payload bytes ≡ ok p)
      × (length p ≡ 32)
      × ArePayload p
      × (text_number 0 p ≡ byte_number 0 bytes)
unfolding encode_recovery_payload
encode_recovery_payload-number bytes n all =
    let h =
      absorb_all-Holds fresh_encoder bytes 0 0
        (record { counted = refl; short = omega arith; valid = tt; number_read = refl }) all in
    let e = absorb_all fresh_encoder bytes in
    let none_left : e.bits ≡ 0 = omega (arith, h.counted, h.short) in
    let full : length e.output ≡ 32 = omega (arith, h.counted, h.short) in
    (
      e.output,
      ground arith,
      full,
      h.valid,
      sym (read_whole e.bits e.value e.output none_left) ∙ h.number_read,
    )

byte_number_injective :
    (m n : ℕ) (xs ys : List ℕ)
    → AreBytes xs
    → AreBytes ys
    → length xs ≡ length ys
    → byte_number m xs ≡ byte_number n ys
    → (m ≡ n) × (xs ≡ ys)
byte_number_injective m n [] [] h k l e = (e, refl)
byte_number_injective m n (x ∷ xs) [] h k l e = absurd (omega arith)
byte_number_injective m n [] (y ∷ ys) h k l e = absurd (omega arith)
byte_number_injective m n (x ∷ xs) (y ∷ ys) h k l e =
    let (head, tail) =
      byte_number_injective (m * 256 + x) (n * 256 + y) xs ys h.1 k.1 (omega arith) e in
    let same : m ≡ n = omega (arith, h.0, k.0) in
    let last : x ≡ y = omega (arith, h.0, k.0) in (same, cc)

-- Two entropies of twenty bytes each are encoded without an error, and where their payloads are the
-- same they are the same.
pub encode_recovery_payload_injective :
    (xs ys p : List ℕ)
    → length xs ≡ 20
    → length ys ≡ 20
    → AreBytes xs
    → AreBytes ys
    → encode_recovery_payload xs ≡ ok p
    → encode_recovery_payload ys ≡ ok p
    → xs ≡ ys
encode_recovery_payload_injective xs ys p m n h k a b =
    let (q, encoded, _, _, same) = encode_recovery_payload-number xs m h in
    let (r, coded, _, _, equal) = encode_recovery_payload-number ys n k in
    let left : q ≡ p = ok_injective (sym encoded ∙ a) in
    let right : r ≡ p = ok_injective (sym coded ∙ b) in
    (byte_number_injective 0 0 xs ys h k (omega arith)
      (sym same ∙ ap (text_number 0) (left ∙ sym right) ∙ equal)).1

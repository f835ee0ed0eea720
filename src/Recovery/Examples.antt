-- ===== src/Recovery/Examples.antt =====
-- Runs of the recovery codes of apps/sso/worker/recovery-codes.ts.
use sso_pg72_tw.Common.{
  ℕ, suc, zero, ◌+◌, ◌≤◌, ◌≡◌, refl, some, List, [], ◌∷◌, ◌++◌, map, length, All, arith, ok,
}
use sso_pg72_tw.Recovery.{
  recovery_symbol, canonical_of, without, starts_with, drop, canonical_prefix,
  canonical_recovery_code, display_recovery_code, encode_recovery_payload, GeneratedRecoveryCodeSet,
  generate_recovery_code_set, equal_text,
}
use sso_pg72_tw.Recovery.Encoding.{
  ArePayload, text_number, byte_number, encode_recovery_payload-number,
}
use sso_pg72_tw.Recovery.Reading.{canonical_recovery_code-reread}
use sso_pg72_tw.Recovery.Sets.{IsEntropy, IsUsable}
use sso_pg72_tw.Recovery.Drawing.{novel, generate_recovery_code_set-IsUsable}

abbrev places : ℕ → ℕ → List ℕ
places zero k = []
places (suc n) k = k ∷ places n (k + 1)

-- "0123456789ABCDEFGHJKMNPQRSTVWXYZ"
alphabet :
    map recovery_symbol (places 32 0)
    ≡ places 10 48 ++ places 8 65 ++ places 2 74 ++ places 2 77 ++ places 5 80 ++ places 5 86
alphabet = refl

abbrev entropy : ℕ → List ℕ
entropy n = n ∷ places 19 200

entropy-IsEntropy : IsEntropy (entropy 7)
entropy-IsEntropy = omega arith

encode_recovery_payload-number_example :
    (p : List ℕ) × (encode_recovery_payload (entropy 7) ≡ ok p)
    × (length p ≡ 32)
    × ArePayload p
    × (text_number 0 p ≡ byte_number 0 (entropy 7))
encode_recovery_payload-number_example =
    encode_recovery_payload-number (entropy 7) refl entropy-IsEntropy.1

-- "pgidr1", a space and the payload in one word
abbrev typed : List ℕ
typed = 112 ∷ 103 ∷ 105 ∷ 100 ∷ 114 ∷ 49 ∷ 32 ∷ map recovery_symbol (places 32 0)

typed_read :
    canonical_recovery_code typed ≡ some (canonical_prefix ++ map recovery_symbol (places 32 0))
unfolding canonical_recovery_code canonical_of without starts_with drop
typed_read = refl

canonical_recovery_code-reread_example :
    let c = canonical_prefix ++ map recovery_symbol (places 32 0) in
    (c ≡ canonical_prefix ++ drop 6 c)
    × (length (drop 6 c) ≡ 32)
    × ArePayload (drop 6 c)
    × (canonical_recovery_code (display_recovery_code (drop 6 c)) ≡ some c)
canonical_recovery_code-reread_example =
    canonical_recovery_code-reread typed (canonical_prefix ++ map recovery_symbol (places 32 0))
      typed_read

-- One of the entropies is drawn twice.
abbrev draws : List (List ℕ)
draws = entropy 7 ∷ map entropy (places 9 0) ++ entropy 10 ∷ []

draws-IsEntropy : All IsEntropy draws
draws-IsEntropy = omega arith

ten_novel : 10 ≤ novel [] draws
unfolding equal_text
ten_novel = omega arith

generate_recovery_code_set-IsUsable_example :
    (s : GeneratedRecoveryCodeSet) × (generate_recovery_code_set (λ t. t) draws ≡ some (ok s))
    × (length s.codes ≡ 10)
    × IsUsable (λ t. t) s
generate_recovery_code_set-IsUsable_example =
    generate_recovery_code_set-IsUsable (λ t. t) draws draws-IsEntropy ten_novel

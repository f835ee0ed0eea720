-- ===== src/Recovery/Reading.antt =====
-- What is shown of a recovery code is read back as the canonical text, in
-- apps/sso/worker/recovery-codes.ts.
use sso_pg72_tw.Common.{
  ℕ, suc, zero, ◌+◌, ◌*◌, ◌≡◌, refl, ◌∙◌, ap, sym, subst, Option, none, Bool, not, ltb, ◌||◌,
  if◌then◌else◌, true, false, some, List, [], ◌∷◌, ◌++◌, map, length, All, All-map, all, ◌==◌,
  arith,
}
use sso_pg72_tw.Recovery.{
  is_payload, is_input, to_upper, without, starts_with, drop, canonical_prefix, canonical_of,
  matches_payload, canonical_recovery_code, groups, join, display_prefix, display_recovery_code,
}
use sso_pg72_tw.Recovery.Encoding.{ArePayload}

-- The text is made of groups of four.
abbrev IsGrouped : List ℕ → Type 0
IsGrouped (a ∷ b ∷ c ∷ d ∷ []) = Unit
IsGrouped (a ∷ b ∷ c ∷ d ∷ e ∷ rest) = IsGrouped (e ∷ rest)
IsGrouped _ = ⊥

length-IsGrouped : (n : ℕ) (p : List ℕ) → length p ≡ n * 4 + 4 → IsGrouped p
length-IsGrouped n (a ∷ b ∷ c ∷ d ∷ []) h = tt
length-IsGrouped zero (a ∷ b ∷ c ∷ d ∷ e ∷ rest) h = absurd (omega arith)
length-IsGrouped (suc n) (a ∷ b ∷ c ∷ d ∷ e ∷ rest) h = length-IsGrouped n (e ∷ rest) (omega arith)
length-IsGrouped n [] h = absurd (omega arith)
length-IsGrouped n (a ∷ []) h = absurd (omega arith)
length-IsGrouped n (a ∷ b ∷ []) h = absurd (omega arith)
length-IsGrouped n (a ∷ b ∷ c ∷ []) h = absurd (omega arith)

payload_kept :
    (c : ℕ)
    → is_payload c ≡ true
    → ((c == 45) ≡ false) × ((c == 32) ≡ false) × (to_upper c ≡ c) × (is_input c ≡ true)
payload_kept c h = ground arith

without-kept : (x : ℕ) (p : List ℕ) → All (λ c. (c == x) ≡ false) p → without x p ≡ p
unfolding without
without-kept x [] h = refl
without-kept x (c ∷ cs) h = simp (h.0, without-kept x cs h.1)

upper_kept : (p : List ℕ) → ArePayload p → map to_upper p ≡ p
upper_kept [] h = refl
upper_kept (c ∷ cs) h =
    let (_, _, same, _) = payload_kept c h.0 in let rest = upper_kept cs h.1 in cc

all_payload : (p : List ℕ) → ArePayload p → all is_payload p ≡ true
all_payload [] h = refl
all_payload (c ∷ cs) h = simp (h.0, all_payload cs h.1)

-- The groups with the dashes between them.
abbrev shown : List ℕ → List ℕ
shown p = join (groups p)

shown_next :
    (a b c d e : ℕ) (rest : List ℕ)
    → IsGrouped (e ∷ rest)
    → shown (a ∷ b ∷ c ∷ d ∷ e ∷ rest) ≡ a ∷ b ∷ c ∷ d ∷ 45 ∷ shown (e ∷ rest)
unfolding groups join
shown_next a b c d e (f ∷ g ∷ h ∷ []) k = refl
shown_next a b c d e (f ∷ g ∷ h ∷ i ∷ rest) k = refl
shown_next a b c d e [] k = absurd k
shown_next a b c d e (f ∷ []) k = absurd k
shown_next a b c d e (f ∷ g ∷ []) k = absurd k

kept_45 : (c : ℕ) → is_payload c ≡ true → (c == 45) ≡ false
kept_45 c h = (payload_kept c h).0

kept_32 : (c : ℕ) → is_payload c ≡ true → (c == 32) ≡ false
kept_32 c h = (payload_kept c h).1

input : (c : ℕ) → is_payload c ≡ true → is_input c ≡ true
input c h = (payload_kept c h).3

-- What the parser needs to know of the shown text of a payload.
record Reads (p text : List ℕ) : Type 0 where
  stripped : without 45 text ≡ p
  counted : length text * 4 + 4 ≡ length p * 5
  accepted : all is_input text ≡ true

next-Reads :
    (a b c d : ℕ) (p text : List ℕ)
    → ArePayload (a ∷ b ∷ c ∷ d ∷ [])
    → Reads p text
    → Reads (a ∷ b ∷ c ∷ d ∷ p) (a ∷ b ∷ c ∷ d ∷ 45 ∷ text)
unfolding without
next-Reads a b c d p text (ha, (hb, (hc, (hd, _)))) r = record {
  stripped = simp (kept_45 a ha, kept_45 b hb, kept_45 c hc, kept_45 d hd, r.stripped);
  counted = omega (arith, r.counted);
  accepted = simp (input a ha, input b hb, input c hc, input d hd, r.accepted);
}

shown-Reads : (p : List ℕ) → IsGrouped p → ArePayload p → Reads p (shown p)
unfolding groups join without
shown-Reads (a ∷ b ∷ c ∷ d ∷ []) k (ha, (hb, (hc, (hd, _)))) = record {
  stripped = simp (kept_45 a ha, kept_45 b hb, kept_45 c hc, kept_45 d hd);
  counted = refl;
  accepted = simp (input a ha, input b hb, input c hc, input d hd);
}
shown-Reads (a ∷ b ∷ c ∷ d ∷ e ∷ rest) k (ha, (hb, (hc, (hd, h)))) =
    subst (Reads (a ∷ b ∷ c ∷ d ∷ e ∷ rest)) (sym (shown_next a b c d e rest k)) (
      next-Reads a b c d (e ∷ rest) (shown (e ∷ rest)) (ha, (hb, (hc, (hd, tt))))
        (shown-Reads (e ∷ rest) k h))
shown-Reads [] k h = absurd k
shown-Reads (a ∷ []) k h = absurd k
shown-Reads (a ∷ b ∷ []) k h = absurd k
shown-Reads (a ∷ b ∷ c ∷ []) k h = absurd k

display_grouped : (p : List ℕ) → IsGrouped p → display_recovery_code p ≡ display_prefix ++ shown p
unfolding display_recovery_code groups join
display_grouped (a ∷ b ∷ c ∷ d ∷ rest) k = refl
display_grouped [] k = absurd k
display_grouped (a ∷ []) k = absurd k
display_grouped (a ∷ b ∷ []) k = absurd k
display_grouped (a ∷ b ∷ c ∷ []) k = absurd k

canonical_shown :
    (p text : List ℕ)
    → length p ≡ 32
    → ArePayload p
    → Reads p text
    → canonical_recovery_code (display_prefix ++ text) ≡ some (canonical_prefix ++ p)
unfolding canonical_recovery_code canonical_of without starts_with drop
canonical_shown p text n h r =
    let many : length text ≡ 39 = omega (arith, r.counted) in
    let spaces = without-kept 32 p (All-map _ _ p kept_32 h) in
    simp (many, r.accepted, r.stripped, spaces, upper_kept p h, n, all_payload p h)

-- The code that is shown for a payload of 32 characters of the alphabet is read back as the payload
-- behind the canonical prefix.
pub canonical_recovery_code-display_recovery_code :
    (p : List ℕ)
    → length p ≡ 32
    → ArePayload p
    → canonical_recovery_code (display_recovery_code p) ≡ some (canonical_prefix ++ p)
canonical_recovery_code-display_recovery_code p n h =
    let k = length-IsGrouped 7 p n in
    ap canonical_recovery_code (display_grouped p k)
    ∙ canonical_shown p (shown p) n h (shown-Reads p k h)

all_tested : (p : List ℕ) → all is_payload p ≡ true → ArePayload p
all_tested [] h = tt
all_tested (c ∷ cs) h = (ground (arith, h), all_tested cs (ground (arith, h)))

starts_rest :
    (prefix text : List ℕ)
    → starts_with prefix text ≡ true
    → text ≡ prefix ++ drop (length prefix) text
unfolding starts_with drop
starts_rest [] text h = refl
starts_rest (c ∷ cs) [] h = cc
starts_rest (c ∷ cs) (d ∷ ds) h =
    let same : c ≡ d = ground (arith, h) in
    let rest = starts_rest cs ds (ground (arith, h)) in
    ap (λ x. x ∷ ds) (sym same) ∙ ap (λ x. c ∷ x) rest

both_hold :
    (a b : Bool) (x y : List ℕ)
    → (if not a then none else if b then some x else none) ≡ some y
    → (x ≡ y) × (a ≡ true) × (b ≡ true)
both_hold true true x y h = (cc, refl, refl)
both_hold true false x y h = cc
both_hold false b x y h = cc

canonical_of-some :
    (compact c : List ℕ)
    → canonical_of compact ≡ some c
    → (compact ≡ c)
      × (starts_with canonical_prefix compact ≡ true)
      × (matches_payload (drop 6 compact) ≡ true)
unfolding canonical_of
canonical_of-some compact c h =
    both_hold (starts_with canonical_prefix compact) (matches_payload (drop 6 compact)) compact c h

not_refused :
    (a : Bool) (m : Option (List ℕ)) (y : List ℕ) → (if a then none else m) ≡ some y → m ≡ some y
not_refused true m y h = cc
not_refused false m y h = h

-- Whatever text is accepted, what is read of it is the canonical prefix and a payload of 32 characters
-- of the alphabet, and the code that is shown for this payload is read as the same.
pub canonical_recovery_code-reread :
    (value c : List ℕ)
    → canonical_recovery_code value ≡ some c
    → (c ≡ canonical_prefix ++ drop 6 c)
      × (length (drop 6 c) ≡ 32)
      × ArePayload (drop 6 c)
      × (canonical_recovery_code (display_recovery_code (drop 6 c)) ≡ some c)
unfolding canonical_recovery_code
canonical_recovery_code-reread value c h =
    let compact = map to_upper (without 32 (without 45 value)) in
    let (same, starts, matches) = canonical_of-some compact c (
      not_refused (length value == 0 || ltb 128 (length value) || not (all is_input value)) _ c
        h) in
    let whole : c ≡ canonical_prefix ++ drop 6 c =
      subst (λ x. x ≡ canonical_prefix ++ drop 6 x) same
        (starts_rest canonical_prefix compact starts) in
    let matched = subst (λ x. matches_payload (drop 6 x) ≡ true) same matches in
    let size : length (drop 6 c) ≡ 32 = ground (arith, matched) in
    let valid = all_tested (drop 6 c) (ground (arith, matched)) in
    (
      whole,
      size,
      valid,
      canonical_recovery_code-display_recovery_code (drop 6 c) size valid ∙ ap some (sym whole),
    )

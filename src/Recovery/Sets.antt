-- ===== src/Recovery/Sets.antt =====
-- The set of recovery codes that `generateRecoveryCodeSet` of apps/sso/worker/recovery-codes.ts
-- makes.
use sso_pg72_tw.Common.{
  ℕ, ◌≡◌, ◌≢◌, refl, ◌∙◌, ap, sym, subst, Bool, true, false, some, List, [], ◌∷◌, ◌++◌, map, length,
  All, All-map, All-append, ◌||◌, arith, Bool-cases, inl, inr,
}
use sso_pg72_tw.Recovery.{
  canonical_prefix, drop, canonical_recovery_code, display_recovery_code, GeneratedRecoveryCodeSet,
  equal_text, has_text,
}
use sso_pg72_tw.Recovery.Encoding.{ArePayload, AreBytes}
use sso_pg72_tw.Recovery.Reading.{canonical_recovery_code-display_recovery_code}

-- Twenty random bytes.
abbrev pub IsEntropy : List ℕ → Type 0
IsEntropy bytes = (length bytes ≡ 20) × AreBytes bytes

abbrev pub IsPayload : List ℕ → Type 0
IsPayload p = (length p ≡ 32) × ArePayload p

abbrev pub Distinct : List (List ℕ) → Type 0
Distinct [] = Unit
Distinct (x ∷ xs) = All (λ y. x ≢ y) xs × Distinct xs

-- The codes are the shown forms of distinct payloads, each is read back as its canonical text, and
-- the hashes are those of the canonical texts.
pub record IsUsable (hash : List ℕ → List ℕ) (s : GeneratedRecoveryCodeSet) : Type 0 where
  pub payloads : List (List ℕ)
  pub codes_shown : s.codes ≡ map display_recovery_code payloads
  pub hashes_kept : s.hashes ≡ map (λ p. hash (canonical_prefix ++ p)) payloads
  pub read_back :
      All
        (λ p. canonical_recovery_code (display_recovery_code p) ≡ some (canonical_prefix ++ p))
        payloads
  pub distinct : Distinct payloads

pub equal_text_refl : (a : List ℕ) → equal_text a a ≡ true
unfolding equal_text
equal_text_refl [] = refl
equal_text_refl (c ∷ cs) = ground (arith, equal_text_refl cs)

pub equal_text_eq : (a b : List ℕ) → equal_text a b ≡ true → a ≡ b
unfolding equal_text
equal_text_eq [] [] h = refl
equal_text_eq (c ∷ cs) (d ∷ ds) h =
    let head : c ≡ d = ground (arith, h) in let tail = equal_text_eq cs ds (ground (arith, h)) in cc
equal_text_eq [] (d ∷ ds) h = cc
equal_text_eq (c ∷ cs) [] h = cc

map-append {ℓ κ} :
    {A : Type ℓ} {B : Type κ} (f : A → B) (xs : List A) (y : A)
    → map f (xs ++ y ∷ []) ≡ map f xs ++ f y ∷ []
map-append f [] y = refl
map-append f (x ∷ xs) y = ap (λ r. f x ∷ r) (map-append f xs y)

Distinct-append :
    (xs : List (List ℕ)) (y : List ℕ) → Distinct xs → All (λ x. x ≢ y) xs → Distinct (xs ++ y ∷ [])
Distinct-append [] y h k = (tt, tt)
Distinct-append (x ∷ xs) y h k =
    (All-append (λ z. x ≢ z) xs (y ∷ []) h.0 (k.0, tt), Distinct-append xs y h.1 k.1)

unprefixed : (p q : List ℕ) → canonical_prefix ++ p ≡ canonical_prefix ++ q → p ≡ q
unfolding drop
unprefixed p q e = ap (drop 6) e

pub one_false : (a b : Bool) → a || b ≡ false → (a ≡ false) × (b ≡ false)
one_false a b h = ground arith

-- A canonical text that has been seen is that of a payload, and one that has not is of none.
pub not_seen :
    (p : List ℕ) (ps : List (List ℕ))
    → has_text (canonical_prefix ++ p) (map (λ q. canonical_prefix ++ q) ps) ≡ false
    → All (λ q. q ≢ p) ps
not_seen p [] h = tt
not_seen p (q ∷ qs) h =
    let (here, there) =
      one_false (equal_text (canonical_prefix ++ p) (canonical_prefix ++ q)) _ h in
    (
      λ e.
          let same =
            subst (λ x. equal_text (canonical_prefix ++ p) (canonical_prefix ++ x) ≡ true) (sym e)
              (equal_text_refl (canonical_prefix ++ p)) in
          cc (here, same),
      not_seen p qs there,
    )

pub is_seen :
    (p : List ℕ) (ps : List (List ℕ))
    → has_text (canonical_prefix ++ p) (map (λ q. canonical_prefix ++ q) ps) ≡ true
    → ¬ All (λ q. q ≢ p) ps
is_seen p [] h k = cc
is_seen p (q ∷ qs) h k =
    elim (Bool-cases (equal_text (canonical_prefix ++ p) (canonical_prefix ++ q))) [
      | inl same ↦ k.0 (
          sym (unprefixed p q (equal_text_eq (canonical_prefix ++ p) (canonical_prefix ++ q) same)))
      | inr other ↦ is_seen p qs (ground (arith, h, other)) k.1
    ]

-- What the loop has made of payloads.
pub record Made (hash : List ℕ → List ℕ) (ps : List (List ℕ)) (s : GeneratedRecoveryCodeSet)
    (seen : List (List ℕ)) : Type 0 where
  pub codes_shown : s.codes ≡ map display_recovery_code ps
  pub hashes_kept : s.hashes ≡ map (λ p. hash (canonical_prefix ++ p)) ps
  pub seen_kept : seen ≡ map (λ p. canonical_prefix ++ p) ps
  pub payloads : All IsPayload ps
  pub distinct : Distinct ps

pub Made-IsUsable :
    (hash : List ℕ → List ℕ) (ps seen : List (List ℕ)) (s : GeneratedRecoveryCodeSet)
    → Made hash ps s seen
    → IsUsable hash s
Made-IsUsable hash ps seen s m = record {
  payloads = ps;
  codes_shown = m.codes_shown;
  hashes_kept = m.hashes_kept;
  read_back =
      All-map IsPayload _ ps (λ p h. canonical_recovery_code-display_recovery_code p h.0 h.1)
        m.payloads;
  distinct = m.distinct;
}

pub Made-append :
    (hash : List ℕ → List ℕ) (ps seen : List (List ℕ)) (s : GeneratedRecoveryCodeSet) (p : List ℕ)
    → Made hash ps s seen
    → IsPayload p
    → All (λ q. q ≢ p) ps
    → Made hash
        (ps ++ p ∷ [])
        (record {
          codes = s.codes ++ display_recovery_code p ∷ [];
          hashes = s.hashes ++ hash (canonical_prefix ++ p) ∷ [];
        })
        (seen ++ (canonical_prefix ++ p) ∷ [])
Made-append hash ps seen s p m h fresh = record {
  codes_shown =
      ap (λ x. x ++ display_recovery_code p ∷ []) m.codes_shown
      ∙ sym (map-append display_recovery_code ps p);
  hashes_kept =
      ap (λ x. x ++ hash (canonical_prefix ++ p) ∷ []) m.hashes_kept
      ∙ sym (map-append (λ q. hash (canonical_prefix ++ q)) ps p);
  seen_kept =
      ap (λ x. x ++ (canonical_prefix ++ p) ∷ []) m.seen_kept
      ∙ sym (map-append (λ q. canonical_prefix ++ q) ps p);
  payloads = All-append IsPayload ps (p ∷ []) m.payloads (h, tt);
  distinct = Distinct-append ps p m.distinct fresh;
}

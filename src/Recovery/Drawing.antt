-- ===== src/Recovery/Drawing.antt =====
-- The loop of `generateRecoveryCodeSet` in apps/sso/worker/recovery-codes.ts comes to its end.
use sso_pg72_tw.Common.{
  ℕ, suc, ◌+◌, ◌≤◌, ◌≡◌, ◌≢◌, refl, ◌∙◌, ap, sym, subst, String, throw, Bool, true, false, Option,
  some, List, [], ◌∷◌, ◌++◌, map, length, length-append, All, leb, arith, Result, ok, Bool-cases,
  inl, inr,
}
use sso_pg72_tw.Common.Results.{ok_injective}
use sso_pg72_tw.Recovery.{
  canonical_prefix, display_recovery_code, encode_recovery_payload, GeneratedRecoveryCodeSet,
  equal_text, has_text, recovery_code_count, generate_from, generate_recovery_code_set,
}
use sso_pg72_tw.Recovery.Encoding.{
  encode_recovery_payload-number, encode_recovery_payload_injective,
}
use sso_pg72_tw.Recovery.Sets.{
  IsEntropy, IsUsable, Made, Made-IsUsable, Made-append, equal_text_eq, equal_text_refl, one_false,
  not_seen, is_seen,
}

-- How many of the draws are not among the earlier ones.
abbrev pub novel : List (List ℕ) → List (List ℕ) → ℕ
novel earlier [] = 0
novel earlier (d ∷ draws) = elim (has_text d earlier) [
  | true ↦ novel earlier draws
  | false ↦ suc (novel (earlier ++ d ∷ []) draws)
]

-- The payloads are those of the entropies.
abbrev Encodes : List (List ℕ) → List (List ℕ) → Type 0
Encodes [] [] = Unit
Encodes (e ∷ es) (p ∷ ps) = IsEntropy e × (encode_recovery_payload e ≡ ok p) × Encodes es ps
Encodes _ _ = ⊥

Encodes-append :
    (es ps : List (List ℕ)) (e p : List ℕ)
    → Encodes es ps
    → IsEntropy e
    → encode_recovery_payload e ≡ ok p
    → Encodes (es ++ e ∷ []) (ps ++ p ∷ [])
Encodes-append [] [] e p h k l = (k, l, tt)
Encodes-append (e' ∷ es) (p' ∷ ps) e p h k l = (h.0, h.1, Encodes-append es ps e p h.2 k l)
Encodes-append [] (p' ∷ ps) e p h k l = absurd h
Encodes-append (e' ∷ es) [] e p h k l = absurd h

-- A new entropy has a new payload.
drawn_new :
    (d p : List ℕ) (es ps : List (List ℕ))
    → IsEntropy d
    → encode_recovery_payload d ≡ ok p
    → Encodes es ps
    → has_text d es ≡ false
    → All (λ q. q ≢ p) ps
drawn_new d p [] [] h k l m = tt
drawn_new d p (e ∷ es) (q ∷ ps) h k l m =
    let (here, there) = one_false (equal_text d e) _ m in
    (
      λ s.
          let same =
            encode_recovery_payload_injective d e p h.0 l.0.0 h.1 l.0.1 k (l.1 ∙ ap ok s) in
          cc (here, subst (λ x. equal_text d x ≡ true) same (equal_text_refl d)),
      drawn_new d p es ps h k l.2 there,
    )
drawn_new d p [] (q ∷ ps) h k l m = absurd l
drawn_new d p (e ∷ es) [] h k l m = absurd l

-- An entropy that has been drawn before has a payload that is there.
drawn_again :
    (d p : List ℕ) (es ps : List (List ℕ))
    → encode_recovery_payload d ≡ ok p
    → Encodes es ps
    → has_text d es ≡ true
    → ¬ All (λ q. q ≢ p) ps
drawn_again d p [] ps k l m n = cc
drawn_again d p (e ∷ es) (q ∷ ps) k l m n = elim (Bool-cases (equal_text d e)) [
  | inl same ↦
      let equal = equal_text_eq d e same in
      n.0 (ok_injective (sym l.1 ∙ ap encode_recovery_payload (sym equal) ∙ k))
  | inr other ↦ drawn_again d p es ps k l.2 (ground (arith, m, other)) n.1
]
drawn_again d p (e ∷ es) [] k l m n = absurd l

on_true : {A : Type 0} (b : Bool) (x y : A) → b ≡ true → (elim b [ true ↦ x | false ↦ y ]) ≡ x
on_true true x y h = refl
on_true false x y h = cc

on_false : {A : Type 0} (b : Bool) (x y : A) → b ≡ false → (elim b [ true ↦ x | false ↦ y ]) ≡ y
on_false true x y h = cc
on_false false x y h = refl

on_ok :
    {A : Type 0} (r : Result (List ℕ)) (p : List ℕ) (f : String → A) (g : List ℕ → A)
    → r ≡ ok p
    → (elim r [ throw m ↦ f m | ok q ↦ g q ]) ≡ g p
on_ok (ok q) p f g h = ap g (ok_injective h)
on_ok (throw m) p f g h = cc

module _ (hash : List ℕ → List ℕ) (s : GeneratedRecoveryCodeSet) (seen : List (List ℕ)) where
  stops :
      (draws : List (List ℕ))
      → leb recovery_code_count (length s.codes) ≡ true
      → generate_from hash draws s seen ≡ some (ok s)
  unfolding generate_from
  stops [] h = rw h
  stops (d ∷ draws) h = on_true _ _ _ h

  skips :
      (d p : List ℕ) (draws : List (List ℕ))
      → leb recovery_code_count (length s.codes) ≡ false
      → encode_recovery_payload d ≡ ok p
      → has_text (canonical_prefix ++ p) seen ≡ true
      → generate_from hash (d ∷ draws) s seen ≡ generate_from hash draws s seen
  unfolding generate_from
  skips d p draws h k l =
      on_false _ _ _ h ∙ on_ok (encode_recovery_payload d) p _ _ k ∙ on_true _ _ _ l

  adds :
      (d p : List ℕ) (draws : List (List ℕ))
      → leb recovery_code_count (length s.codes) ≡ false
      → encode_recovery_payload d ≡ ok p
      → has_text (canonical_prefix ++ p) seen ≡ false
      → generate_from hash (d ∷ draws) s seen
        ≡ generate_from hash draws
            (record {
              codes = s.codes ++ display_recovery_code p ∷ [];
              hashes = s.hashes ++ hash (canonical_prefix ++ p) ∷ [];
            })
            (seen ++ (canonical_prefix ++ p) ∷ [])
  unfolding generate_from
  adds d p draws h k l =
      on_false _ _ _ h ∙ on_ok (encode_recovery_payload d) p _ _ k ∙ on_false _ _ _ l

length-map : {A B : Type 0} (f : A → B) (xs : List A) → length (map f xs) ≡ length xs
length-map f [] = refl
length-map f (x ∷ xs) = omega (arith, length-map f xs)

module _ (hash : List ℕ → List ℕ) (es ps seen : List (List ℕ)) (s : GeneratedRecoveryCodeSet)
    (h : Encodes es ps) (m : Made hash ps s seen) (d p : List ℕ) (entropy : IsEntropy d)
    (encoded : encode_recovery_payload d ≡ ok p) where
  kept :
      has_text (canonical_prefix ++ p) seen
      ≡ has_text (canonical_prefix ++ p) (map (λ q. canonical_prefix ++ q) ps)
  kept = ap (has_text (canonical_prefix ++ p)) m.seen_kept

  seen_again : has_text d es ≡ true → has_text (canonical_prefix ++ p) seen ≡ true
  seen_again again = elim (Bool-cases (has_text (canonical_prefix ++ p) seen)) [
    | inl present ↦ present
    | inr missing ↦
        absurd (drawn_again d p es ps encoded h again (not_seen p ps (sym kept ∙ missing)))
  ]

  seen_new : has_text d es ≡ false → has_text (canonical_prefix ++ p) seen ≡ false
  seen_new new = elim (Bool-cases (has_text (canonical_prefix ++ p) seen)) [
    | inl present ↦
        absurd (is_seen p ps (sym kept ∙ present) (drawn_new d p es ps entropy encoded h new))
    | inr missing ↦ missing
  ]

-- The loop returns a usable set of ten.
abbrev Returns : (List ℕ → List ℕ) → Option (Result GeneratedRecoveryCodeSet) → Type 0
Returns hash m =
    (t : GeneratedRecoveryCodeSet) × (m ≡ some (ok t)) × (length t.codes ≡ 10) × IsUsable hash t

-- The loop ends where it has or draws ten distinct entropies.
generate_from-Returns :
    (hash : List ℕ → List ℕ) (draws es ps seen : List (List ℕ)) (s : GeneratedRecoveryCodeSet)
    → All IsEntropy draws
    → Encodes es ps
    → Made hash ps s seen
    → length ps ≤ 10
    → 10 ≤ length ps + novel es draws
    → Returns hash (generate_from hash draws s seen)
generate_from-Returns hash [] es ps seen s all h m few enough =
    let count = ap length m.codes_shown ∙ length-map display_recovery_code ps in
    (
      s,
      stops hash s seen [] (ground (arith, count)),
      omega (arith, count),
      Made-IsUsable hash ps seen s m,
    )
generate_from-Returns hash (d ∷ draws) es ps seen s all h m few enough =
    let count = ap length m.codes_shown ∙ length-map display_recovery_code ps in
    let (p, encoded, size, valid, _) = encode_recovery_payload-number d all.0.0 all.0.1 in
    elim (Bool-cases (leb recovery_code_count (length s.codes))) [
      | inl full ↦ (
        s,
        stops hash s seen (d ∷ draws) full,
        ground (arith, count, full, few),
        Made-IsUsable hash ps seen s m,
      )
      | inr more ↦ elim (Bool-cases (has_text d es)) [
        | inl again ↦
            subst (Returns hash)
              (sym (
                skips hash s seen d p draws more encoded
                  (seen_again hash es ps seen s h m d p all.0 encoded again)))
              (generate_from-Returns hash draws es ps seen s all.1 h m few
                (subst (λ x. 10 ≤ length ps + x) (on_true _ _ _ again) enough))
        | inr new ↦
            subst (Returns hash)
              (sym (
                adds hash s seen d p draws more encoded
                  (seen_new hash es ps seen s h m d p all.0 encoded new)))
              (generate_from-Returns hash draws (es ++ d ∷ []) (ps ++ p ∷ [])
                (seen ++ (canonical_prefix ++ p) ∷ [])
                (record {
                  codes = s.codes ++ display_recovery_code p ∷ [];
                  hashes = s.hashes ++ hash (canonical_prefix ++ p) ∷ [];
                })
                all.1 (Encodes-append es ps d p h all.0 encoded)
                (Made-append hash ps seen s p m (size, valid)
                  (drawn_new d p es ps all.0 encoded h new))
                (ground (arith, count, more, length-append ps (p ∷ [])))
                (omega (
                  arith,
                  length-append ps (p ∷ []),
                  subst (λ x. 10 ≤ length ps + x) (on_false _ _ _ new) enough,
                )))
      ]
    ]

-- Let each draw be twenty bytes and ten of them differ from all before them. Then the generation of
-- a set returns ten codes: the shown forms of distinct payloads, each read back as the canonical text
-- that its hash was taken of.
pub generate_recovery_code_set-IsUsable :
    (hash : List ℕ → List ℕ) (draws : List (List ℕ))
    → All IsEntropy draws
    → 10 ≤ novel [] draws
    → (s : GeneratedRecoveryCodeSet) × (generate_recovery_code_set hash draws ≡ some (ok s))
      × (length s.codes ≡ 10)
      × IsUsable hash s
unfolding generate_recovery_code_set
generate_recovery_code_set-IsUsable hash draws all enough =
    generate_from-Returns hash draws [] [] [] (record { codes = []; hashes = [] }) all tt
      (record {
        codes_shown = refl;
        hashes_kept = refl;
        seen_kept = refl;
        payloads = tt;
        distinct = tt;
      })
      (omega arith) (omega arith)

-- ===== src/Outpost/Identity/Fields.antt =====
-- The six fields of an ARN, as `splitn` in crates/outpost/src/lib.rs cuts them.
use mongodb_dam.Common.{
  ℕ, ◌≡◌, inl, inr, refl, sym, subst, ap, ◌∙◌, arith, true, not, ◌==◌, Option, none, some,
  Option-cases, Bool-cases, Bytes, [], ◌∷◌, ◌++◌, length, drop, starts_with, split_once, all_bytes,
  if◌then◌else◌,
}
use mongodb_dam.Outpost.Identity.{Parts, behind_colon, six_parts}

-- No colon is in the text.
abbrev pub NoColon : Bytes → Type 0
NoColon text = all_bytes (λ c. not (c == b':')) text ≡ true

abbrev with_first : ℕ → Option (Bytes × Bytes) → Option (Bytes × Bytes)
with_first c none = none
with_first c (some (x, y)) = some (c ∷ x, y)

with_first-found :
    (c : ℕ) (o : Option (Bytes × Bytes)) (a b : Bytes)
    → with_first c o ≡ some (a, b)
    → (x : Bytes) × (o ≡ some (x, b)) × (a ≡ c ∷ x)
with_first-found c none a b h = cc
with_first-found c (some (x, y)) a b h =
    let same : y ≡ b = cc in (x, ap (λ (z : Bytes). some (x, z)) same, cc)

split_once-∷ :
    (c : ℕ) (cs : Bytes)
    → split_once b':' (c ∷ cs)
      ≡ (if c == b':' then some ([], cs) else with_first c (split_once b':' cs))
unfolding split_once
split_once-∷ c cs = elim (Option-cases (split_once b':' cs)) [
  | inl gone ↦ rw gone refl
  | inr ((x, y), found) ↦ rw found refl
]

split_once-found :
    (text a b : Bytes) → split_once b':' text ≡ some (a, b) → (text ≡ a ++ (b':' ∷ b)) × NoColon a
unfolding all_bytes
split_once-found [] a b h = unfold split_once in cc
split_once-found (c ∷ cs) a b h = elim (Bool-cases (c == b':')) [
  | inl here ↦
      let split = sym (split_once-∷ c cs) ∙ h in
      let first : (if c == b':' then some ([], cs) else with_first c (split_once b':' cs))
          ≡ some ([], cs) =
        rw here refl in
      let both = sym first ∙ split in
      let empty : a ≡ [] = cc in
      let colon : c ≡ b':' = ground arith in
      let rest : cs ≡ b = cc in rw (empty, colon, rest) (refl, refl)
  | inr later ↦
      let split = sym (split_once-∷ c cs) ∙ h in
      let rest : (if c == b':' then some ([], cs) else with_first c (split_once b':' cs))
          ≡ with_first c (split_once b':' cs) =
        rw later refl in
      let (x, found, first) = with_first-found c (split_once b':' cs) a b (sym rest ∙ split) in
      let (joined, free) = split_once-found cs x b found in
      rw first (ap (λ (t : Bytes). c ∷ t) joined, rw (later, free) refl)
]

split_once-append : (a b : Bytes) → NoColon a → split_once b':' (a ++ (b':' ∷ b)) ≡ some (a, b)
unfolding all_bytes
split_once-append [] b h = split_once-∷ b':' b
split_once-append (c ∷ a) b h = elim (Bool-cases (c == b':')) [
  | inl here ↦ absurd (ground arith)
  | inr later ↦
      split_once-∷ c (a ++ (b':' ∷ b)) ∙ rw (later, split_once-append a b (ground arith)) refl
]

pub starts_with-splits :
    (prefix text : Bytes)
    → starts_with prefix text ≡ true
    → text ≡ prefix ++ drop (length prefix) text
unfolding starts_with
starts_with-splits [] text h = refl
starts_with-splits (p ∷ ps) [] h = ground arith
starts_with-splits (p ∷ ps) (c ∷ cs) h =
    let same : p ≡ c = ground arith in
    let rest = starts_with-splits ps cs (ground arith) in rw same (ap (λ (t : Bytes). c ∷ t) rest)

pub starts_with-append : (prefix text : Bytes) → starts_with prefix (prefix ++ text) ≡ true
unfolding starts_with
starts_with-append [] text = refl
starts_with-append (p ∷ ps) text = ground (arith, starts_with-append ps text)

-- The parts with colons between them.
abbrev pub joined : Parts → Bytes
joined (p0, p1, p2, p3, p4, p5) =
    p0 ++ (b':' ∷ (p1 ++ (b':' ∷ (p2 ++ (b':' ∷ (p3 ++ (b':' ∷ (p4 ++ (b':' ∷ p5)))))))))

abbrev pub AreFields : Parts → Type 0
AreFields (p0, p1, p2, p3, p4, p5) = NoColon p0 × NoColon p1 × NoColon p2 × NoColon p3 × NoColon p4

behind_colon-some :
    (o : Option (Bytes × Bytes)) (rest : Bytes → Bytes → Option Parts) (parts : Parts)
    → behind_colon o rest ≡ some parts
    → (part : Bytes) × (text : Bytes) × (o ≡ some (part, text)) × (rest part text ≡ some parts)
behind_colon-some none rest parts h = cc
behind_colon-some (some (part, text)) rest parts h = (part, text, refl, h)

pub six_parts-joined :
    (value : Bytes) (parts : Parts)
    → six_parts value ≡ some parts
    → (value ≡ joined parts) × AreFields parts
unfolding six_parts
six_parts-joined value parts h =
    let (p0, r0, s0, h0) = behind_colon-some _ _ parts h in
    let (p1, r1, s1, h1) = behind_colon-some _ _ parts h0 in
    let (p2, r2, s2, h2) = behind_colon-some _ _ parts h1 in
    let (p3, r3, s3, h3) = behind_colon-some _ _ parts h2 in
    let (p4, p5, s4, h4) = behind_colon-some _ _ parts h3 in
    let same : ◌≡◌ {A = Parts} (p0, p1, p2, p3, p4, p5) parts = cc in
    let (e0, f0) = split_once-found value p0 r0 s0 in
    let (e1, f1) = split_once-found r0 p1 r1 s1 in
    let (e2, f2) = split_once-found r1 p2 r2 s2 in
    let (e3, f3) = split_once-found r2 p3 r3 s3 in
    let (e4, f4) = split_once-found r3 p4 p5 s4 in
    subst (λ (all : Parts). (value ≡ joined all) × AreFields all) same
      (
        e0
            ∙ ap (λ t. p0 ++ (b':' ∷ t))
                (e1
                  ∙ ap (λ t. p1 ++ (b':' ∷ t))
                      (e2 ∙ ap (λ t. p2 ++ (b':' ∷ t)) (e3 ∙ ap (λ t. p3 ++ (b':' ∷ t)) e4))),
        (f0, f1, f2, f3, f4),
      )

behind_colon-append :
    (a b : Bytes) (rest : Bytes → Bytes → Option Parts)
    → NoColon a
    → behind_colon (split_once b':' (a ++ (b':' ∷ b))) rest ≡ rest a b
behind_colon-append a b rest free = ap (λ o. behind_colon o rest) (split_once-append a b free)

pub six_parts_fields : (parts : Parts) → AreFields parts → six_parts (joined parts) ≡ some parts
unfolding six_parts
six_parts_fields (p0, p1, p2, p3, p4, p5) (f0, f1, f2, f3, f4) =
    behind_colon-append p0 _ _ f0
    ∙ behind_colon-append p1 _ _ f1
    ∙ behind_colon-append p2 _ _ f2
    ∙ behind_colon-append p3 _ _ f3
    ∙ behind_colon-append p4 p5 _ f4

-- ===== src/Config/Label/Correct.antt =====
-- The matcher decides the label's expression, and what the labels are.
use Prim.Native.Nat.{◌≤◌}
use old_broker_repo.Prelude.{
  ℕ, Text, [], ◌∷◌, ◌++◌, ◌≡◌, ◌≢◌, ◌↔◌, ◌∙◌, sym, ◌⊎◌, inl, inr, refl, Bool, true, false, ◌&&◌,
  ◌||◌, arith, length, Bool-cases, All,
}
use old_broker_repo.Config.Label.{
  Regex, void, eps, class, alt, seq, star, nullable, deriv, match_string, is_alnum,
  is_alnum_or_dash, dns1123_label_rex, is_dns1123_label,
}

match_string-void : (s : Text) → match_string void s ≡ false
unfolding match_string
match_string-void [] = refl
match_string-void (c ∷ s) = match_string-void s

match_string-eps : (s : Text) (c : ℕ) → match_string eps (c ∷ s) ≡ false
unfolding match_string
match_string-eps s c = match_string-void s

match_string-alt :
    (r q : Regex) (s : Text) → match_string (alt r q) s ≡ (match_string r s || match_string q s)
unfolding match_string
match_string-alt r q [] = refl
match_string-alt r q (c ∷ s) = match_string-alt (deriv c r) (deriv c q) s

-- A first part may be replaced by one of the same language.
match_string-seq_congr :
    (r r' q : Regex)
    → ((s : Text) → match_string r s ≡ match_string r' s)
    → (s : Text) → match_string (seq r q) s ≡ match_string (seq r' q) s
unfolding match_string
match_string-seq_congr r r' q h [] = ground (arith, h [])
match_string-seq_congr r r' q h (c ∷ s) =
    let ih = match_string-seq_congr (deriv c r) (deriv c r') q (λ t. h (c ∷ t)) s in
    elim (Bool-cases (nullable r)) [
      | inl e ↦
          let e' : nullable r' ≡ true = ground (arith, h []) in
          rw (e, e', match_string-alt, match_string-alt, ih)
      | inr e ↦ let e' : nullable r' ≡ false = ground (arith, h []) in rw (e, e') ih
    ]

match_string-seq_void : (q : Regex) (s : Text) → match_string (seq void q) s ≡ false
unfolding match_string
match_string-seq_void q [] = refl
match_string-seq_void q (c ∷ s) = match_string-seq_void q s

match_string-seq_eps : (q : Regex) (s : Text) → match_string (seq eps q) s ≡ match_string q s
unfolding match_string
match_string-seq_eps q [] = refl
match_string-seq_eps q (c ∷ s) = rw (match_string-alt, match_string-seq_void)

-- A single byte before `q`.
match_string-seq_class :
    (p : ℕ → Bool) (q : Regex) (c : ℕ) (s : Text)
    → match_string (seq (class p) q) (c ∷ s) ≡ (p c && match_string q s)
unfolding match_string
match_string-seq_class p q c s = elim (Bool-cases (p c)) [
  | inl e ↦ rw e (match_string-seq_eps q s)
  | inr e ↦ rw e (match_string-seq_void q s)
]

-- One byte of a star's class, before `q`.
match_string-seq_star :
    (p : ℕ → Bool) (q : Regex) (c : ℕ) (s : Text)
    → match_string (seq (star (class p)) q) (c ∷ s)
      ≡ (p c && match_string (seq (star (class p)) q) s || match_string q (c ∷ s))
unfolding match_string
match_string-seq_star p q c s = elim (Bool-cases (p c)) [
  | inl e ↦ rw (
    e,
    match_string-alt,
    match_string-seq_congr _ (star (class p)) q (match_string-seq_eps (star (class p))),
  )
  | inr e ↦ rw (
    e,
    match_string-alt,
    match_string-seq_congr _ void q
        (λ t. match_string-seq_void (star (class p)) t ∙ sym (match_string-void t)),
    match_string-seq_void,
  )
]

match_string-class : (p : ℕ → Bool) (c : ℕ) → match_string (class p) (c ∷ []) ≡ p c
unfolding match_string
match_string-class p c = ground arith

match_string-class_more :
    (p : ℕ → Bool) (c d : ℕ) (s : Text) → match_string (class p) (c ∷ d ∷ s) ≡ false
unfolding match_string
match_string-class_more p c d s = elim (Bool-cases (p c)) [
  | inl e ↦ rw e (match_string-void s)
  | inr e ↦ rw e (match_string-void s)
]

-- The optional part `[-a-z0-9]*[a-z0-9]`, read by a plain recursion.
tail_matches : Text → Bool
tail_matches [] = false
tail_matches (c ∷ []) = is_alnum c
tail_matches (c ∷ d ∷ s) = is_alnum_or_dash c && tail_matches (d ∷ s)

match_string-tail :
    (s : Text)
    → match_string (seq (star (class is_alnum_or_dash)) (class is_alnum)) s ≡ tail_matches s
unfolding tail_matches
match_string-tail [] = unfold match_string in refl
match_string-tail (c ∷ []) =
    rw (match_string-seq_star, match_string-class, match_string-tail []) (ground arith)
match_string-tail (c ∷ d ∷ s) =
    rw (match_string-seq_star, match_string-class_more, match_string-tail (d ∷ s)) (ground arith)

match_string-label :
    (c : ℕ) (s : Text)
    → match_string dns1123_label_rex (c ∷ s)
      ≡ (is_alnum c && (match_string eps s || tail_matches s))
match_string-label c s = rw (match_string-seq_class, match_string-alt, match_string-tail)

abbrev IsAlnum : ℕ → Type 0
IsAlnum c = ((b'a' ≤ c) × (c ≤ b'z')) ⊎ ((b'0' ≤ c) × (c ≤ b'9'))

-- A label of RFC 1123: up to 63 lower-case letters, digits and dashes, with no dash at its ends.
pub record IsLabel (v : Text) : Type 0 where
  pub short : length v ≤ 63
  pub bytes : All (λ c. IsAlnum c ⊎ (c ≡ b'-')) v
  pub first : (c : ℕ) × (s : Text) × (v ≡ c ∷ s) × IsAlnum c
  pub last : (s : Text) × (c : ℕ) × (v ≡ s ++ c ∷ []) × IsAlnum c

abbrev Tail : Text → Type 0
Tail v =
    All (λ c. IsAlnum c ⊎ (c ≡ b'-')) v × ((s : Text) × (c : ℕ) × (v ≡ s ++ c ∷ []) × IsAlnum c)

is_alnum_sound : (c : ℕ) → is_alnum c ≡ true → IsAlnum c
is_alnum_sound c h = ground arith

is_alnum_complete : (c : ℕ) → IsAlnum c → is_alnum c ≡ true
is_alnum_complete c h = ground arith

tail_matches_sound : (s : Text) → tail_matches s ≡ true → Tail s
unfolding tail_matches
tail_matches_sound [] h = cc
tail_matches_sound (c ∷ []) h = ((inl (is_alnum_sound c h), tt), ([], c, refl, is_alnum_sound c h))
tail_matches_sound (c ∷ d ∷ s) h =
    let (all, (pre, e, p, q)) = tail_matches_sound (d ∷ s) (ground arith) in
    ((ground arith, all), (c ∷ pre, e, cc, q))

tail_matches_complete :
    (s pre : Text) (e : ℕ)
    → All (λ c. IsAlnum c ⊎ (c ≡ b'-')) s
    → s ≡ pre ++ e ∷ []
    → IsAlnum e
    → tail_matches s ≡ true
unfolding tail_matches
tail_matches_complete [] [] e all p q = cc
tail_matches_complete [] (a ∷ pre) e all p q = cc
tail_matches_complete (c ∷ []) [] e all p q = ground (arith, is_alnum_complete c)
tail_matches_complete (c ∷ []) (a ∷ []) e all p q = cc
tail_matches_complete (c ∷ []) (a ∷ b ∷ pre) e all p q = cc
tail_matches_complete (c ∷ d ∷ s) [] e all p q = cc
tail_matches_complete (c ∷ d ∷ s) (a ∷ pre) e all p q =
    ground (arith, tail_matches_complete (d ∷ s) pre e all.1)

-- A label's second byte and what follows end as the label does.
label_tail_complete :
    (c : ℕ) (s pre : Text) (e : ℕ)
    → All (λ c. IsAlnum c ⊎ (c ≡ b'-')) s
    → c ∷ s ≡ pre ++ e ∷ []
    → IsAlnum e
    → s ≢ []
    → tail_matches s ≡ true
label_tail_complete c s [] e all p q ne = absurd (ne cc)
label_tail_complete c s (a ∷ pre) e all p q ne = tail_matches_complete s pre e all (cc) q

IsLabel-sound : (v : Text) → is_dns1123_label v ≡ true → IsLabel v
unfolding is_dns1123_label
IsLabel-sound [] h = cc
IsLabel-sound (c ∷ []) h =
    let p : is_alnum c ≡ true = ground (arith, match_string-label c []) in
    let a = is_alnum_sound c p in
    record {
      short = omega arith;
      bytes = (inl a, tt);
      first = (c, [], refl, a);
      last = ([], c, refl, a);
    }
IsLabel-sound (c ∷ d ∷ s) h =
    let p : is_alnum c ≡ true = ground (arith, match_string-label c (d ∷ s)) in
    let t : tail_matches (d ∷ s) ≡ true =
      ground (arith, match_string-label c (d ∷ s), match_string-eps s d) in
    let (all, (pre, e, q, b)) = tail_matches_sound (d ∷ s) t in
    record {
      short = ground arith;
      bytes = (inl (is_alnum_sound c p), all);
      first = (c, d ∷ s, refl, is_alnum_sound c p);
      last = (c ∷ pre, e, cc, b);
    }

is_dns1123_label-IsLabel : (v : Text) → IsLabel v → is_dns1123_label v ≡ true
unfolding is_dns1123_label
is_dns1123_label-IsLabel [] h = let (c, s, p, q) = h.first in cc
is_dns1123_label-IsLabel (c ∷ []) h =
    let (d, s, p, q) = h.first in
    ground (arith, match_string-label c [], is_alnum_complete c, h.short)
is_dns1123_label-IsLabel (c ∷ d ∷ s) h =
    let (b, t, p, q) = h.first in
    let (pre, e, r, a) = h.last in
    let tail = label_tail_complete c (d ∷ s) pre e h.bytes.1 r a (cc) in
    ground (arith, match_string-label c (d ∷ s), is_alnum_complete c, h.short)

-- The label test, a length bound and a regular expression, accepts exactly the labels of RFC 1123:
-- 1 to 63 bytes, lower-case letters, digits and dashes, with no dash at either end.
pub is_dns1123_label_iff : (v : Text) → (is_dns1123_label v ≡ true) ↔ IsLabel v
is_dns1123_label_iff v = (IsLabel-sound v, is_dns1123_label-IsLabel v)

-- ===== src/Controller/Response/Format/Percent.antt =====
-- What a text is printed as when it is used as the format.
use mathlib.Core.List.{append-nil, append_cancel_left}
use mathlib.Core.Option
use old_broker_repo.Prelude.{
  ℕ, Text, codes, [], ◌∷◌, ◌++◌, true, false, some, ◌≡◌, ◌≢◌, All, arith, byte_eq, byte_eq_iff,
  subst, sym, ◌∙◌,
}
use old_broker_repo.Controller.Response.Format.{
  percent, is_flag, is_other, print_from, print_format,
}

abbrev pub NoPercent : Text → Type 0
NoPercent s = All (λ c. c ≢ percent) s

-- Up to its first percent sign a text is printed as it is.
print_from-append :
    (s t : Text)
    → NoPercent s
    → print_from false (s ++ t) ≡ Option.map (λ u. s ++ u) (print_from false t)
unfolding print_from
print_from-append [] t h = ground arith
print_from-append (c ∷ s) t (p, h) = ground (arith, print_from-append s t h)

-- A text with no percent sign is printed as it is.
pub print_format_verbatim : (s : Text) → NoPercent s → print_format s ≡ some s
unfolding print_format
print_format_verbatim s h =
    subst (λ x. print_from false x ≡ some x) (append-nil s) (print_from-append s [] h)

print_from_verb :
    (t : Text) (c : ℕ)
    → is_flag c ≡ false
    → byte_eq c percent ≡ false
    → is_other c ≡ false
    → print_from true (c ∷ t)
      ≡ Option.map (λ u. codes "%!" ++ (c ∷ (codes "(MISSING)" ++ u))) (print_from false t)
unfolding print_from
print_from_verb t c f p o = rw (f, p, o)

not_bang : (c : ℕ) → is_other c ≡ false → c ≢ b'!'
not_bang c o q = let r : is_other b'!' ≡ false = subst (λ x. is_other x ≡ false) q o in cc

differs :
    (t : Text) (c : ℕ) (u : Text)
    → is_flag c ≡ false
    → c ≢ percent
    → is_other c ≡ false
    → print_from true (c ∷ t) ≡ some u
    → u ≢ percent ∷ c ∷ t
differs t c u f p o r e =
    let q : byte_eq c percent ≡ false = ground (arith, byte_eq_iff c percent) in
    let (v, x, y) = (Option.map-eq-some_iff _ _).0 (sym (print_from_verb t c f q o) ∙ r) in
    not_bang c o (cc)

-- A text whose first percent sign stands before a character that is none of the special ones is not
-- printed as it is: it is printed differently or, further on, not by these rules.
pub print_format_corrupt :
    (s t : Text) (c : ℕ)
    → NoPercent s
    → is_flag c ≡ false
    → c ≢ percent
    → is_other c ≡ false
    → print_format (s ++ percent ∷ c ∷ t) ≢ some (s ++ percent ∷ c ∷ t)
unfolding print_format
print_format_corrupt s t c h f p o e =
    let q : Option.map (λ u. s ++ u) (print_from false (percent ∷ c ∷ t))
        ≡ some (s ++ percent ∷ c ∷ t) =
      rw (print_from-append s (percent ∷ c ∷ t) h) at e in
    let (u, r, x) = (Option.map-eq-some_iff _ _).0 q in
    differs t c u f p o r (append_cancel_left s _ _ x)

-- ===== src/Crd/Names/Kebab.antt =====
-- Camel case can be turned back.
use mathlib.Core.List.{append_assoc, append-nil}
use old_broker_repo.Prelude.{
  ℕ, zero, suc, Bool, leb, ◌<◌, ◌&&◌, Text, List, [], ◌∷◌, ◌++◌, ◌≡◌, ◌≢◌, ◌+◌, refl, arith, All,
  true, false, if◌then◌else◌, sym, ◌∙◌, ap, Bool-cases, inl, inr, byte_eq, ◌-◌,
}
use old_broker_repo.Crd.Names.{
  dash, split, cons_head, is_lower, is_upper, is_separator, title_after, title, concat_titles,
  kabob_case_to_camel_case,
}

-- The bytes behind the first one of the rune at which a text begins, as Go's `range` reads UTF-8: a byte
-- that begins no valid encoding is a rune by itself.
abbrev between : ℕ → ℕ → ℕ → Bool
between low high c = leb low c && leb c high

abbrev is_tail : ℕ → Bool
is_tail = between 128 191

-- The second byte that may follow the first one.
abbrev is_second : ℕ → ℕ → Bool
is_second c d =
    between (if byte_eq c 224 then 160 else if byte_eq c 240 then 144 else 128)
      (if byte_eq c 237 then 159 else if byte_eq c 244 then 143 else 191) d

unfoldable tail_length : ℕ → Text → ℕ
tail_length c [] = 0
tail_length c (d ∷ []) = if between 194 223 c && is_tail d then 1 else 0
tail_length c (d ∷ d' ∷ []) =
    if between 194 223 c && is_tail d
    then 1
    else if between 224 239 c && (is_second c d && is_tail d')
    then 2
    else 0
tail_length c (d ∷ d' ∷ d'' ∷ s) =
    if between 194 223 c && is_tail d
    then 1
    else if between 224 239 c && (is_second c d && is_tail d')
    then 2
    else if between 240 244 c && (is_second c d && (is_tail d' && is_tail d''))
    then 3
    else 0

-- `camelCaseToKabobCase` of conversion_test.go, behind its first byte: of each rune the first byte is
-- written, a dash and the lower-case letter for an upper-case letter. The number is that of the bytes to
-- pass over.
unfoldable camel_rest : ℕ → Text → Text
unfolding tail_length
camel_rest skip [] = []
camel_rest (suc skip) (c ∷ s) = camel_rest skip s
camel_rest zero (c ∷ s) =
    let rest = camel_rest (tail_length c s) s in
    if is_upper c then dash ∷ (c + 32) ∷ rest else c ∷ rest

-- The first byte gets no dash.
unfoldable pub camel_case_to_kabob_case : Text → Text
unfolding camel_rest
camel_case_to_kabob_case [] = []
camel_case_to_kabob_case (c ∷ s) =
    (if is_upper c then c + 32 else c) ∷ camel_rest (tail_length c s) s

-- A word is ASCII, begins with a lower-case letter, and goes on with no upper-case letter and nothing
-- behind which a new word would begin.
abbrev Inner : Text → Type 0
Inner s = All (λ d. (d < 128) × (is_separator d ≡ false) × (is_upper d ≡ false)) s

abbrev IsWord : Text → Type 0
IsWord [] = ⊥
IsWord (c ∷ s) = (is_lower c ≡ true) × Inner s

abbrev IsAscii : Text → Type 0
IsAscii s = All (λ d. d < 128) s

-- A rune of ASCII is one byte.
tail_length_ascii : (c : ℕ) (s : Text) → c < 128 → tail_length c s ≡ 0
unfolding tail_length
tail_length_ascii c [] h = refl
tail_length_ascii c (d ∷ []) h = ground arith
tail_length_ascii c (d ∷ d' ∷ []) h = ground arith
tail_length_ascii c (d ∷ d' ∷ d'' ∷ s) h = ground arith

camel_rest_cons :
    (c : ℕ) (s : Text)
    → c < 128
    → camel_rest 0 (c ∷ s)
      ≡ (if is_upper c then dash ∷ (c + 32) ∷ camel_rest 0 s else c ∷ camel_rest 0 s)
unfolding camel_rest
camel_rest_cons c s h = rw (tail_length_ascii c s h) refl

camel_rest-append :
    (s t : Text) → IsAscii s → camel_rest 0 (s ++ t) ≡ camel_rest 0 s ++ camel_rest 0 t
camel_rest-append [] t h = unfold camel_rest in refl
camel_rest-append (c ∷ s) t (p, h) =
    let rest = camel_rest-append s t h in
    rw (camel_rest_cons c (s ++ t) p, camel_rest_cons c s p) (ground (arith, rest))

Inner-IsAscii : (s : Text) → Inner s → IsAscii s
Inner-IsAscii [] h = tt
Inner-IsAscii (c ∷ s) ((p, _, _), h) = (p, Inner-IsAscii s h)

title_after-Inner :
    (prev : ℕ) (s : Text) → is_separator prev ≡ false → Inner s → title_after prev s ≡ s
unfolding title_after
title_after-Inner prev [] p h = refl
title_after-Inner prev (c ∷ s) p ((a, q, u), h) = rw p (ap (λ t. c ∷ t) (title_after-Inner c s q h))

camel_rest-Inner : (s : Text) → Inner s → camel_rest 0 s ≡ s
camel_rest-Inner [] h = unfold camel_rest in refl
camel_rest-Inner (c ∷ s) ((a, p, u), h) =
    camel_rest_cons c s a ∙ rw u (ap (λ t. c ∷ t) (camel_rest-Inner s h))

-- The titles of the words, and the words with a dash before each.
titles : List Text → Text
titles [] = []
titles (word ∷ words) = title word ++ titles words

dashed : List Text → Text
dashed [] = []
dashed (word ∷ words) = dash ∷ (word ++ dashed words)

join : List Text → Text
unfolding dashed
join [] = []
join (word ∷ words) = word ++ dashed words

concat_titles_lem : (out : Text) (words : List Text) → concat_titles out words ≡ out ++ titles words
unfolding concat_titles titles
concat_titles_lem out [] = sym (append-nil out)
concat_titles_lem out (word ∷ words) =
    concat_titles_lem (out ++ title word) words ∙ append_assoc out (title word) (titles words)

join-cons_head : (c : ℕ) (words : List Text) → join (cons_head c words) ≡ c ∷ join words
unfolding join
join-cons_head c [] = refl
join-cons_head c (word ∷ words) = refl

join-nil_cons : (words : List Text) → words ≢ [] → join ([] ∷ words) ≡ dash ∷ join words
unfolding join
join-nil_cons [] h = absurd (h refl)
join-nil_cons (word ∷ words) h = refl

split-ne-nil : (s : Text) → split s ≢ []
unfolding split
split-ne-nil [] = cc
split-ne-nil (c ∷ s) = ground (arith, split-ne-nil s)

join-split : (s : Text) → join (split s) ≡ s
unfolding split
join-split [] = unfold join in refl
join-split (c ∷ s) = elim (Bool-cases (byte_eq c dash)) [
  | inl e ↦ rw (e, join-nil_cons (split s) (split-ne-nil s), join-split s) (ground arith)
  | inr e ↦ rw (e, join-cons_head) (ap (λ t. c ∷ t) (join-split s))
]

-- The title of a word, and its way back.
title_word : (c : ℕ) (s : Text) → IsWord (c ∷ s) → title (c ∷ s) ≡ (c - 32) ∷ s
unfolding title title_after
title_word c s (p, h) = rw (p, title_after-Inner c s (ground arith) h)

camel_rest_upper :
    (c : ℕ) (s : Text) → is_lower c ≡ true → camel_rest 0 ((c - 32) ∷ s) ≡ dash ∷ c ∷ camel_rest 0 s
camel_rest_upper c s p =
    let small : c - 32 < 128 = ground arith in camel_rest_cons (c - 32) s small ∙ ground arith

camel_rest-titles :
    (words : List Text) → All IsWord words → camel_rest 0 (titles words) ≡ dashed words
unfolding titles dashed
camel_rest-titles [] h = unfold camel_rest in refl
camel_rest-titles ([] ∷ words) h = absurd h.0
camel_rest-titles ((c ∷ s) ∷ words) ((p, i), h) = rw (
  title_word c s (p, i),
  camel_rest_upper c (s ++ titles words) p,
  camel_rest-append s (titles words) (Inner-IsAscii s i),
  camel_rest-Inner s i,
  camel_rest-titles words h,
)

-- Taking the titles of words together is undone by the way back.
camel_case_to_kabob_case-titles :
    (words : List Text) → All IsWord words → camel_case_to_kabob_case (titles words) ≡ join words
unfolding titles join camel_case_to_kabob_case
camel_case_to_kabob_case-titles [] h = refl
camel_case_to_kabob_case-titles ([] ∷ words) h = absurd h.0
camel_case_to_kabob_case-titles ((c ∷ s) ∷ words) ((p, i), h) =
    let small : c - 32 < 128 = ground arith in
    rw
      (
        title_word c s (p, i),
        tail_length_ascii (c - 32) (s ++ titles words) small,
        camel_rest-append s (titles words) (Inner-IsAscii s i),
        camel_rest-Inner s i,
        camel_rest-titles words h,
      )
      (ground arith)

-- If each word of a name is ASCII, begins with a lower-case letter and goes on with no upper-case
-- letter and nothing behind which a new word would begin, then turning the name to camel case and
-- back gives the name.
pub camel_case_to_kabob_case-kabob_case_to_camel_case :
    (s : Text) → All IsWord (split s) → camel_case_to_kabob_case (kabob_case_to_camel_case s) ≡ s
unfolding kabob_case_to_camel_case
camel_case_to_kabob_case-kabob_case_to_camel_case s h =
    rw (concat_titles_lem [] (split s), camel_case_to_kabob_case-titles (split s) h) (join-split s)

-- Two names are the same if they have the same camel case, and each word of both begins with a
-- lower-case letter and goes on with no upper-case letter and nothing behind which a new word would
-- begin.
pub kabob_case_to_camel_case_injective :
    (s t : Text)
    → All IsWord (split s)
    → All IsWord (split t)
    → kabob_case_to_camel_case s ≡ kabob_case_to_camel_case t
    → s ≡ t
kabob_case_to_camel_case_injective s t h k e =
    sym (camel_case_to_kabob_case-kabob_case_to_camel_case s h)
    ∙ ap camel_case_to_kabob_case e
    ∙ camel_case_to_kabob_case-kabob_case_to_camel_case t k

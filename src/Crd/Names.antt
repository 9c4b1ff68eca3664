-- ===== src/Crd/Names.antt =====
-- The names of custom resources (conversion.go, and resourceNames of client.go), over the functions
-- of Go's package strings that they call.
pub mod Plain
pub mod Kebab
use old_broker_repo.Prelude.{
  ℕ, Text, codes, List, [], ◌∷◌, ◌++◌, ◌-◌, Bool, true, false, ◌&&◌, ◌||◌, not, leb, byte_eq,
  if◌then◌else◌,
}
use old_broker_repo.Config.Schema.{Schema}
use old_broker_repo.Config.BrokerStore.{istio_api_group}

abbrev pub dash : ℕ
dash = b'-'

-- `strings.Replace(s, "-", "", -1)`
unfoldable pub resource_name : Text → Text
resource_name [] = []
resource_name (c ∷ s) = let rest = resource_name s in if byte_eq c dash then rest else c ∷ rest

-- A byte before the first word of a list of words.
abbrev pub cons_head : ℕ → List Text → List Text
cons_head c [] = (c ∷ []) ∷ []
cons_head c (word ∷ words) = (c ∷ word) ∷ words

-- `strings.Split(s, "-")`
unfoldable pub split : Text → List Text
split [] = [] ∷ []
split (c ∷ s) = let words = split s in if byte_eq c dash then [] ∷ words else cons_head c words

abbrev pub is_lower : ℕ → Bool
is_lower c = leb b'a' c && leb c b'z'

abbrev pub is_upper : ℕ → Bool
is_upper c = leb b'A' c && leb c b'Z'

abbrev to_upper : ℕ → ℕ
to_upper c = if is_lower c then c - 32 else c

-- Whether a word may begin behind the byte: ASCII letters, digits, underscores and what is not ASCII
-- are inside a word.
abbrev pub is_separator : ℕ → Bool
is_separator c =
    not (is_lower c || is_upper c || (leb b'0' c && leb c b'9') || byte_eq c b'_' || leb 128 c)

-- `strings.Title` on ASCII text, with the byte before the text.
unfoldable pub title_after : ℕ → Text → Text
title_after prev [] = []
title_after prev (c ∷ s) = (if is_separator prev then to_upper c else c) ∷ title_after c s

unfoldable pub title : Text → Text
unfolding title_after
title s = title_after b' ' s

-- `for _, word := range words { out = out + strings.Title(word) }`
unfoldable pub concat_titles : Text → List Text → Text
concat_titles out [] = out
concat_titles out (word ∷ words) = concat_titles (out ++ title word) words

unfoldable pub kabob_case_to_camel_case : Text → Text
unfolding split title concat_titles
kabob_case_to_camel_case s = concat_titles [] (split s)

-- The kind, the singular and the plural name, and the name of the CRD.
unfoldable pub resource_names : {Message : Type 0} → Schema Message → Text × Text × Text × Text
unfolding resource_name kabob_case_to_camel_case
resource_names s =
    let p = resource_name s.plural in
    (kabob_case_to_camel_case s.type, resource_name s.type, p, p ++ (codes "." ++ istio_api_group))

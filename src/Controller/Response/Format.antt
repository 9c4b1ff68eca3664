-- ===== src/Controller/Response/Format.antt =====
-- `fmt.Fprintf(w, format)` with no arguments.
pub mod Percent
use old_broker_repo.Prelude.{
  ℕ, Text, codes, List, [], ◌∷◌, ◌++◌, Bool, true, false, ◌&&◌, ◌||◌, Option, none, some, leb,
  byte_eq, if◌then◌else◌,
}
use mathlib.Core.Option

abbrev pub percent : ℕ
percent = b'%'

-- The flags of a directive: `# 0 + -` and the space.
abbrev pub is_flag : ℕ → Bool
is_flag c = byte_eq c b'#' || byte_eq c b'0' || byte_eq c b'+' || byte_eq c b'-' || byte_eq c b' '

-- Where a width, a precision, an argument's index or a character outside ASCII begins, and `!`.
abbrev pub is_other : ℕ → Bool
is_other c =
    (leb b'1' c && leb c b'9')
    || byte_eq c b'.'
    || byte_eq c b'*'
    || byte_eq c b'['
    || byte_eq c b'!'
    || leb 128 c

-- `in_directive` says that the text stands behind a `%` and its flags. A verb with no argument prints
-- `%!verb(MISSING)`, a directive with no verb `%!(NOVERB)`, and `%%` prints `%`. Directives with a
-- width, a precision, an index or the verb `!` are not modelled: `none`.
unfoldable pub print_from : Bool → Text → Option Text
print_from false [] = some []
print_from true [] = some (codes "%!(NOVERB)")
print_from false (c ∷ s) =
    let directive = print_from true s in
    let rest = print_from false s in
    if byte_eq c percent then directive else Option.map (λ t. c ∷ t) rest
print_from true (c ∷ s) =
    let directive = print_from true s in
    let rest = print_from false s in
    if is_flag c
    then directive
    else if byte_eq c percent
    then Option.map (λ t. percent ∷ t) rest
    else if is_other c
    then none
    else Option.map (λ t. codes "%!" ++ (c ∷ (codes "(MISSING)" ++ t))) rest

unfoldable pub print_format : Text → Option Text
unfolding print_from
print_format format = print_from false format

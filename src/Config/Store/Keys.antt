-- ===== src/Config/Store/Keys.antt =====
-- Keys are unique where types and namespaces hold no slash.
use old_broker_repo.Prelude.{Text, [], ◌∷◌, ◌++◌, ◌≡◌, ◌≢◌, All, arith}
use old_broker_repo.Config.Store.{key}

abbrev pub NoSlash : Text → Type 0
NoSlash s = All (λ c. c ≢ b'/') s

-- Two texts that are cut at their first slash.
split_at_slash :
    (s s' r r' : Text)
    → NoSlash s
    → NoSlash s'
    → s ++ b'/' ∷ r ≡ s' ++ b'/' ∷ r'
    → (s ≡ s') × (r ≡ r')
split_at_slash [] [] r r' h h' e = ground arith
split_at_slash [] (c ∷ s') r r' h (p, h') e = ground arith
split_at_slash (c ∷ s) [] r r' (p, h) h' e = ground arith
split_at_slash (c ∷ s) (c' ∷ s') r r' (p, h) (p', h') e =
    ground (arith, split_at_slash s s' r r' h h')

-- Two objects with the same key have the same type, namespace and name, if their types and
-- namespaces hold no slash.
pub key_injective :
    (typ name namespace typ' name' namespace' : Text)
    → NoSlash typ
    → NoSlash namespace
    → NoSlash typ'
    → NoSlash namespace'
    → key typ name namespace ≡ key typ' name' namespace'
    → (typ ≡ typ') × (namespace ≡ namespace') × (name ≡ name')
unfolding key
key_injective t n ns t' n' ns' p q p' q' e =
    let (a, r) = split_at_slash t t' _ _ p p' e in
    let (b, d) = split_at_slash ns ns' _ _ q q' r in (a, b, d)

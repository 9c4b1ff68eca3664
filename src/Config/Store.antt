-- ===== src/Config/Store.antt =====
-- pkg/model/config/store.go: the interface of a configuration store, and the keys of its objects.
pub mod Keys
use old_broker_repo.Prelude.{Text, codes, List, ◌++◌, Option, Error, Act}
use old_broker_repo.Config.Resource.{Entry}
use old_broker_repo.Config.Descriptor.{Descriptor}

-- The methods of a store that works on the world `W`. `get` has `none` for `nil, false`; `list` may
-- return objects and an error together.
pub record Store (W Message : Type 0) : Type 0 where
  pub descriptor : Descriptor Message
  pub get : Text → Text → Text → Act W (Option (Entry Message))
  pub list : Text → Text → Act W (List (Entry Message) × Option Error)
  pub create : Entry Message → Act W Text
  pub update : Entry Message → Act W Text
  pub delete : Text → Text → Text → Act W (Unit {0})

-- `fmt.Sprintf("%s/%s/%s", typ, namespace, name)`
unfoldable pub key : Text → Text → Text → Text
key typ name namespace = typ ++ (codes "/" ++ (namespace ++ (codes "/" ++ name)))

unfoldable pub entry_key : {Message : Type 0} → Entry Message → Text
unfolding key
entry_key entry = key entry.type entry.name entry.namespace

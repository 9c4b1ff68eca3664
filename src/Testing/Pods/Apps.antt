-- ===== src/Testing/Pods/Apps.antt =====
-- Which pods stand under an app.
use mathlib.Core.List.{append-nil, append_assoc}
use old_broker_repo.Prelude.{
  Text, List, [], ◌∷◌, ◌++◌, none, some, ◌≡◌, sym, ◌∙◌, ap, inl, inr, Option-cases, ◌==?◌, ◌==◌,
  if◌then◌else◌,
}
use old_broker_repo.Prelude.Dict.{Dict, lookup, insert}
use old_broker_repo.Prelude.Dict.Laws.{lookup-insert}
use old_broker_repo.Testing.Pods.{Pod, names_at, add_pods}

-- The name of a pod with the label, and none of another pod.
name_under : Text → Pod → List Text
name_under app pod = elim pod.app [
  | none ↦ []
  | some label ↦ if label == app then pod.name ∷ [] else []
]

-- The names of the pods with the label, in order.
names_under : Text → List Pod → List Text
unfolding name_under
names_under app [] = []
names_under app (pod ∷ items) = name_under app pod ++ names_under app items

abbrev with_pod : Pod → Dict (List Text) → Dict (List Text)
with_pod pod pods = elim pod.app [
  | none ↦ pods
  | some label ↦ insert label (names_at (lookup label pods) ++ pod.name ∷ []) pods
]

lookup-with_pod :
    (app : Text) (pod : Pod) (pods : Dict (List Text))
    → names_at (lookup app (with_pod pod pods)) ≡ names_at (lookup app pods) ++ name_under app pod
unfolding name_under
lookup-with_pod app pod pods = elim (Option-cases pod.app) [
  | inl p ↦ rw p (sym (append-nil _))
  | inr (label, p) ↦ elim (label ==? app) [
    | inl (q, e) ↦
        rw (p, name_under, e, lookup-insert, e)
          (ap (λ l. names_at (lookup l pods) ++ pod.name ∷ []) q)
    | inr (q, e) ↦ rw (p, name_under, e, lookup-insert, e) (sym (append-nil _))
  ]
]

-- After the pods of a namespace are added, the names under an app are those that were there before,
-- and then the names of the pods whose label app says so, in order.
lookup-add_pods :
    (app : Text) (items : List Pod) (pods : Dict (List Text))
    → names_at (lookup app (add_pods items pods))
      ≡ names_at (lookup app pods) ++ names_under app items
unfolding add_pods names_under
lookup-add_pods app [] pods = sym (append-nil _)
lookup-add_pods app (pod ∷ items) pods =
    lookup-add_pods app items (with_pod pod pods)
    ∙ ap (λ l. l ++ names_under app items) (lookup-with_pod app pod pods)
    ∙ append_assoc (names_at (lookup app pods)) (name_under app pod) (names_under app items)

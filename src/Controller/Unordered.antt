-- ===== src/Controller/Unordered.antt =====
-- The catalog is one value, but for the order in which Go visits maps.
use mathlib.Core.List.Permᴰ
use mathlib.Core.Quot
use mathlib.Core.Quot.{Quot}
use old_broker_repo.Prelude.{Text, List, [], ◌∷◌, ok, ◌≡◌, refl, sym, ap, ◌∙◌, subst, Permᴰ}
use old_broker_repo.Prelude.Dict.{Dict}
use old_broker_repo.Prelude.Dict.Same.{SameLookups, SameLookups-perm}
use old_broker_repo.Prelude.Calls.{Ranging}
use old_broker_repo.Proto.{Messages}
use old_broker_repo.Config.Resource.{Entry}
use old_broker_repo.Config.Store.{Store}
use old_broker_repo.Config.BrokerStore.{make_broker_config_store}
use old_broker_repo.Config.BrokerStore.Views.{IsView, IsOffer}
use old_broker_repo.Osb.{Service, Catalog}
use old_broker_repo.Controller.{catalog}
use old_broker_repo.Controller.Offer.{IsServiceOf, AreServicesOf, IsCatalogOf}
use old_broker_repo.Controller.Faithful.{IsSteady, catalog-IsCatalogOf}

-- Services that differ at most in the order of the plans.
abbrev pub SameService : Service → Service → Type 0
SameService a b = (b ≡ record a { plans = b.plans }) × Permᴰ a.plans b.plans

abbrev pub AreSame : List Service → List Service → Type 0
AreSame [] [] = Unit
AreSame [] (b ∷ bs) = ⊥
AreSame (a ∷ xs) [] = ⊥
AreSame (a ∷ xs) (b ∷ bs) = SameService a b × AreSame xs bs

-- Catalogs that differ at most in the order of the services, and of the plans in each.
abbrev pub SameCatalog : Catalog → Catalog → Type 0
SameCatalog a b = (svcs : List Service) × Permᴰ a.services svcs × AreSame svcs b.services

-- A catalog in which the order does not count.
abbrev pub Menu : Type 0
Menu = Quot SameCatalog

module _ (msgs : Messages) (plans : List (Entry msgs.Message)) where
  open msgs use {Message, ServiceClass, as_service_class, as_service_plan}

  views_agree :
      {C : Type 0} {cast : Message → _} {rs : List (Entry Message)} {m n : Dict C}
      → IsView cast rs m
      → IsView cast rs n
      → SameLookups m n
  views_agree u v k c =
      ((λ h. (v.holds k c).1 ((u.holds k c).0 h)), λ h. (u.holds k c).1 ((v.holds k c).0 h))

  offers_agree :
      (k : Text) (all all' d d' : Dict msgs.ServicePlan)
      → SameLookups all all'
      → IsOffer msgs k all d
      → IsOffer msgs k all' d'
      → SameLookups d d'
  offers_agree k all all' d d' same u v j p = (
    (λ h. let (q, m) = (u.holds j p).0 h in (v.holds j p).1 ((same j p).0 q, m)),
    λ h. let (q, m) = (v.holds j p).0 h in (u.holds j p).1 ((same j p).1 q, m),
  )

  -- Two services for one class.
  services_agree :
      (k : Text) (s : ServiceClass) (a b : Service)
      → IsServiceOf msgs plans k s a
      → IsServiceOf msgs plans k s b
      → SameService a b
  services_agree k s a b u v =
      let offers =
        SameLookups-perm u.offer v.offer u.offered.distinct v.offered.distinct
          (offers_agree k _ _ u.offer v.offer (views_agree u.view v.view) u.offered v.offered) in
      let orders = Permᴰ.trans (Permᴰ.symm u.once) (Permᴰ.trans offers v.once) in
      (
        v.made ∙ ap {A = Service} (λ x. record x { plans = b.plans }) (sym u.made),
        rw (u.listed, v.listed) (Permᴰ.map _ orders),
      )

  AreServicesOf-AreSame :
      (sc : Dict ServiceClass) (xs bs : List Service)
      → AreServicesOf msgs plans sc xs
      → AreServicesOf msgs plans sc bs
      → AreSame xs bs
  AreServicesOf-AreSame [] [] [] h h' = tt
  AreServicesOf-AreSame [] [] (b ∷ bs) h h' = elim h' [ ]
  AreServicesOf-AreSame [] (a ∷ xs) bs h h' = elim h [ ]
  AreServicesOf-AreSame ((k, s) ∷ sc) [] bs h h' = elim h [ ]
  AreServicesOf-AreSame ((k, s) ∷ sc) (a ∷ xs) [] h h' = elim h' [ ]
  AreServicesOf-AreSame ((k, s) ∷ sc) (a ∷ xs) (b ∷ bs) (u, h) (v, h') =
      (services_agree k s a b u v, AreServicesOf-AreSame sc xs bs h h')

  -- The services follow the classes into another order.
  AreServicesOf-perm :
      {sc sc' : Dict ServiceClass} (svcs : List Service)
      → Permᴰ sc sc'
      → AreServicesOf msgs plans sc svcs
      → (svcs' : List Service) × Permᴰ svcs svcs' × AreServicesOf msgs plans sc' svcs'
  AreServicesOf-perm [] Permᴰ.nil h = ([], Permᴰ.nil, tt)
  AreServicesOf-perm (a ∷ svcs) Permᴰ.nil h = elim h [ ]
  AreServicesOf-perm [] (Permᴰ.cons e p) h = elim h [ ]
  AreServicesOf-perm [] (Permᴰ.swap e f) h = elim h [ ]
  AreServicesOf-perm (a ∷ []) (Permᴰ.swap e f) (u, h) = elim h [ ]
  AreServicesOf-perm (a ∷ svcs) (Permᴰ.cons e p) (u, h) =
      let (svcs', q, h') = AreServicesOf-perm svcs p h in
      (a ∷ svcs', Permᴰ.cons refl q, (subst (λ x. IsServiceOf msgs plans x.0 x.1 a) e u, h'))
  AreServicesOf-perm (a ∷ b ∷ svcs) (Permᴰ.swap e f) (u, (v, h)) = (
    b ∷ a ∷ svcs,
    Permᴰ.swap refl refl,
    (
      subst (λ x. IsServiceOf msgs plans x.0 x.1 b) f v,
      (subst (λ x. IsServiceOf msgs plans x.0 x.1 a) e u, h),
    ),
  )
  AreServicesOf-perm svcs (Permᴰ.trans p q) h =
      let (svcs', p', h') = AreServicesOf-perm svcs p h in
      let (svcs'', q', h'') = AreServicesOf-perm svcs' q h' in (svcs'', Permᴰ.trans p' q', h'')

  -- Two catalogs of the same objects.
  catalogs_agree :
      (classes : List (Entry Message)) (a b : Catalog)
      → IsCatalogOf msgs classes plans a
      → IsCatalogOf msgs classes plans b
      → SameCatalog a b
  catalogs_agree classes a b u v =
      let maps =
        SameLookups-perm u.all_classes v.all_classes u.view.distinct v.view.distinct
          (views_agree u.view v.view) in
      let orders = Permᴰ.trans (Permᴰ.symm u.once) (Permᴰ.trans maps v.once) in
      let (svcs, p, h) = AreServicesOf-perm a.services orders u.services in
      (svcs, p, AreServicesOf-AreSame v.order svcs b.services h v.services)

module _ {W : Type 0} (msgs : Messages) (visits visits' : Ranging W) (store : Store W msgs.Message)
    {Steady : W → Type 0} {classes plans : List (Entry msgs.Message)}
    (steady : IsSteady msgs visits store Steady classes plans)
    (steady' : IsSteady msgs visits' store Steady classes plans) where
  -- Where the store lists the classes and the plans with no error, two catalog requests, at any
  -- time and with any two ways to visit maps, return catalogs that differ at most in the order of
  -- the services and, in each service, of the plans: they are equal in the quotient of the catalogs
  -- by that order.
  pub catalog-unordered :
      (w w' : W)
      → Steady w
      → Steady w'
      → (a b : Catalog) × (v v' : W) × (catalog msgs visits
            (make_broker_config_store msgs visits store)
            w
          ≡ (ok a, v))
        × (catalog msgs visits' (make_broker_config_store msgs visits' store) w' ≡ (ok b, v'))
        × SameCatalog a b
        × (◌≡◌ {A = Menu} (Quot.mk a) (Quot.mk b))
  catalog-unordered w w' h h' =
      let (a, v, e, _, u) = catalog-IsCatalogOf msgs visits store steady w h in
      let (b, v', e', _, u') = catalog-IsCatalogOf msgs visits' store steady' w' h' in
      let same = catalogs_agree msgs plans classes a b u u' in
      (a, b, v, v', e, e', same, Quot.sound same)

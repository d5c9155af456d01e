-- ===== src/Singleton.antt =====
-- ClientServerFramework/Shared/DesignPatterns/Singleton.hpp: `get_instance` makes its static object
-- on the first call. `none` is the state before that; `made` is the object that a first call would
-- make. The queue of Client/Scraper.hpp is such an object, so all scrapers of one type of data
-- share it.
use tcpclient_server.Prelude.{List, [], ◌∷◌, ◌≡◌, refl, Option, none, some}

module _ {A : Type 0} where
  pub get_instance : A → Option A → A × Option A
  get_instance made none = (made, some made)
  get_instance made (some a) = (a, some a)

  -- Calls one after the other.
  pub get_instances : List A → Option A → List A
  get_instances [] static = []
  get_instances (made ∷ more) static =
      let (a, static') = get_instance made static in a ∷ get_instances more static'

  abbrev pub AllEqual : A → List A → Type 0
  AllEqual a [] = Unit
  AllEqual a (x ∷ xs) = (x ≡ a) × AllEqual a xs

  get_instances-made : (a : A) (mades : List A) → AllEqual a (get_instances mades (some a))
  unfolding get_instances get_instance
  get_instances-made a [] = tt
  get_instances-made a (x ∷ mades) = (refl, get_instances-made a mades)

  -- Every call gets the object of the first.
  pub get_instances-AllEqual :
      (first : A) (mades : List A) → AllEqual first (get_instances (first ∷ mades) none)
  unfolding get_instances get_instance
  get_instances-AllEqual first mades = (refl, get_instances-made first mades)

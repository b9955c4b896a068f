-- ===== src/Router/Table.antt =====
-- task_and_router/Router.h: the map from a method with its URL to a handler.
use kvstore_epoll.Prelude.{
  Option, none, some, List, [], ◌∷◌, Bytes, strcmp_eq, if◌then◌else◌, refl, ◌≡◌, arith,
  strcmp_eq_iff,
}

module _ {ℓ} {H : Type ℓ} where
  -- `_router_map[router_t{key_URL}] = conn`
  unfoldable pub register_router : Bytes → H → List (Bytes × H) → List (Bytes × H)
  register_router key conn [] = (key, conn) ∷ []
  register_router key conn ((k, h) ∷ rest) =
      if strcmp_eq k key then (key, conn) ∷ rest else (k, h) ∷ register_router key conn rest

  unfoldable pub get_handler : Bytes → List (Bytes × H) → Option H
  get_handler key [] = none
  get_handler key ((k, h) ∷ rest) = if strcmp_eq k key then some h else get_handler key rest

  -- A route that is registered is found, with the handler that was registered last, and the other
  -- routes are as before.
  pub get_handler-register_router :
      (key j : Bytes) (conn : H) (routes : List (Bytes × H))
      → get_handler j (register_router key conn routes)
        ≡ (if strcmp_eq key j then some conn else get_handler j routes)
  unfolding register_router get_handler
  get_handler-register_router key j conn [] = refl
  get_handler-register_router key j conn ((k, h) ∷ rest) = ground (
    arith,
    strcmp_eq_iff k key,
    strcmp_eq_iff k j,
    strcmp_eq_iff key j,
    get_handler-register_router key j conn rest,
  )

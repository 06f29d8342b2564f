-- ===== src/Wire/Proxies.antt =====
-- `ConnectionContext::mProxies` and `mNextObjectId` of src/wayland/Connection.cpp: the proxies by
-- object id, where a null pointer marks a proxy that is gone.
use coro_wayland.Base.{
  ℕ, ◌+◌, ◌%◌, ◌^◌, ◌≡◌, refl, Option, none, some, List, [], ◌∷◌, arith, ◌==◌, if◌then◌else◌,
}

-- Object ids against pointers; a proxy is a number.
abbrev pub Proxies : Type 0
Proxies = List (ℕ × Option ℕ)

-- `none` where `find` returns `end()`.
unfoldable pub find : ℕ → Proxies → Option (Option ℕ)
find id [] = none
find id ((k, p) ∷ m) = if k == id then some p else find id m

-- `mProxies[id] = p`.
unfoldable pub insert : ℕ → Option ℕ → Proxies → Proxies
insert id p [] = (id, p) ∷ []
insert id p ((k, q) ∷ m) = if k == id then (id, p) ∷ m else (k, q) ∷ insert id p m

unfoldable pub register_interface : ℕ → ℕ → Proxies → Proxies
unfolding insert
register_interface id proxy m = insert id (some proxy) m

-- `mProxies.at(id) = nullptr`; `none` is the exception `std::out_of_range`.
unfoldable pub unregister_interface : ℕ → Proxies → Option Proxies
unfolding find insert
unregister_interface id m = elim (find id m) [ none ↦ none | some _ ↦ some (insert id none m) ]

-- A null pointer both for an id that was never seen and for a proxy that is gone.
unfoldable pub proxy_from_object_id : ℕ → Proxies → Option ℕ
unfolding find
proxy_from_object_id id m = elim (find id m) [ none ↦ none | some p ↦ p ]

-- `mNextObjectId.fetch_add(1)` on a `std::uint32_t`: the id, and the counter after it.
unfoldable pub get_next_object_id : ℕ → ℕ × ℕ
get_next_object_id next = (next, (next + 1) % 2 ^ 32)

find-insert :
    (id j : ℕ) (p : Option ℕ) (m : Proxies)
    → find j (insert id p m) ≡ (if id == j then some p else find j m)
unfolding find insert
find-insert id j p [] = refl
find-insert id j p ((k, q) ∷ m) = ground (arith, find-insert id j p m)

-- A registered proxy is found under its id, and no other id is touched.
pub proxy_from_object_id-register_interface :
    (id j proxy : ℕ) (m : Proxies)
    → proxy_from_object_id j (register_interface id proxy m)
      ≡ (if id == j then some proxy else proxy_from_object_id j m)
unfolding proxy_from_object_id register_interface
proxy_from_object_id-register_interface id j proxy m =
    ground (arith, find-insert id j (some proxy) m)

-- A proxy that was registered can be unregistered; then its id finds nothing, and every other id
-- finds what it found before.
pub unregister_interface-register_interface :
    (id j proxy : ℕ) (m : Proxies)
    → (m' : Proxies) × (unregister_interface id (register_interface id proxy m) ≡ some m')
      × (proxy_from_object_id j m' ≡ (if id == j then none else proxy_from_object_id j m))
unfolding proxy_from_object_id register_interface unregister_interface
unregister_interface-register_interface id j proxy m = (
  insert id none (insert id (some proxy) m),
  ground (arith, find-insert id id (some proxy) m),
  ground (arith, find-insert id j none (insert id (some proxy) m), find-insert id j (some proxy) m),
)

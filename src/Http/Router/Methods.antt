-- ===== src/Http/Router/Methods.antt =====
-- The methods of the routes that change roles or clients, and the header that their requests have.
use opentrusty.Prelude.{
  ==_iff, Bool, Bool-cases, List, String, [], ap, arith, false, inl, inr, none, not, refl, true,
  ◌==◌, ◌||◌, ◌∷◌, ◌≡◌, ◌≢◌, ◌⊎◌,
}
use opentrusty.Http.{Request, csrf_middleware}
use opentrusty.Http.Router.{
  Route, has_auth, route, route_api, route_auth, route_client, route_oauth2, route_page, route_role,
  route_tenant, route_user, to_admin,
}
use opentrusty.Http.Router.Frames.{changes_tables}

abbrev pub IsWrite : String → Type 0
IsWrite method = (method ≡ "POST") ⊎ (method ≡ "DELETE")

abbrev is_read : String → Bool
is_read m = m == "GET" || m == "HEAD" || m == "OPTIONS" || m == "TRACE"

pub csrf_passes : (r : Request) → csrf_middleware r ≡ none → IsWrite r.method → r.csrf_header ≢ ""
unfolding csrf_middleware
csrf_passes r h (inl m) e =
    let f : is_read r.method ≡ false = ap is_read m in ground (arith, (==_iff r.csrf_header "").1 e)
csrf_passes r h (inr m) e =
    let f : is_read r.method ≡ false = ap is_read m in ground (arith, (==_iff r.csrf_header "").1 e)

route_role-IsWrite :
    (method tenant : String) (path : List String)
    → changes_tables (route_role method tenant path) ≡ true
    → IsWrite method
unfolding route_role
route_role-IsWrite method tenant (u ∷ last ∷ []) h = ground (arith, ==_iff method "POST")
route_role-IsWrite method tenant (u ∷ last ∷ role ∷ []) h = ground (arith, ==_iff method "DELETE")
route_role-IsWrite method tenant _ h = absurd (ground arith)

route_client-IsWrite :
    (method tenant : String) (path : List String)
    → changes_tables (route_client method tenant path) ≡ true
    → IsWrite method
unfolding route_client
route_client-IsWrite method tenant [] h = ground (arith, ==_iff method "POST")
route_client-IsWrite method tenant (id ∷ []) h = ground (arith, ==_iff method "DELETE")
route_client-IsWrite method tenant (id ∷ last ∷ []) h = absurd (ground arith)
route_client-IsWrite method tenant (id ∷ last ∷ x ∷ more) h = absurd (ground arith)

pub route_tenant-IsWrite :
    (method : String) (path : List String)
    → changes_tables (route_tenant method path) ≡ true
    → IsWrite method
unfolding route_tenant
route_tenant-IsWrite method [] h = ground (arith, ==_iff method "POST")
route_tenant-IsWrite method (tenant ∷ []) h = absurd (ground arith)
route_tenant-IsWrite method (tenant ∷ part ∷ more) h =
    ground (arith, route_role-IsWrite method tenant more, route_client-IsWrite method tenant more)

-- A route that changes no role and no client.
abbrev pub is_harmless : Route → Bool
is_harmless (to_admin a) = not (changes_tables a)
is_harmless _ = true

route_user_harmless :
    (method : String) (path : List String) → is_harmless (route_user method path) ≡ true
unfolding route_user
route_user_harmless method [] = refl
route_user_harmless method (part ∷ []) = ground arith
route_user_harmless method (part ∷ x ∷ more) = refl

route_auth_harmless :
    (mode method : String) (path : List String) → is_harmless (route_auth mode method path) ≡ true
unfolding route_auth
route_auth_harmless mode method [] = refl
route_auth_harmless mode method (part ∷ []) = ground arith
route_auth_harmless mode method (part ∷ x ∷ more) = refl

route_api-IsWrite :
    (mode method : String) (path : List String)
    → is_harmless (route_api mode method path) ≡ false
    → IsWrite method
unfolding route_api
route_api-IsWrite mode method [] h = absurd (ground arith)
route_api-IsWrite mode method (part ∷ more) h =
    let user = route_user_harmless method more in
    let auth = route_auth_harmless mode method more in
    elim (Bool-cases (changes_tables (route_tenant method more))) [
      | inl e ↦ route_tenant-IsWrite method more e
      | inr e ↦ absurd (ground arith)
    ]

route_oauth2_harmless : (method part : String) → is_harmless (route_oauth2 method part) ≡ true
unfolding route_oauth2
route_oauth2_harmless method part = ground arith

route_page_harmless :
    (mode method part page : String) → is_harmless (route_page mode method part page) ≡ true
unfolding route_page
route_page_harmless mode method part page =
    let o = route_oauth2_harmless method page in
    elim (Bool-cases (has_auth mode)) [ inl e ↦ ground arith | inr e ↦ ground arith ]

pub route-IsWrite :
    (mode method : String) (path : List String)
    → is_harmless (route mode method path) ≡ false
    → IsWrite method
unfolding route
route-IsWrite mode method [] h = absurd (ground arith)
route-IsWrite mode method (part ∷ []) h = absurd (ground arith)
route-IsWrite mode method (part ∷ page ∷ []) h =
    route_api-IsWrite mode method [] (ground (arith, route_page_harmless mode method part page))
route-IsWrite mode method (part ∷ page ∷ x ∷ more) h =
    route_api-IsWrite mode method (x ∷ more) (ground arith)

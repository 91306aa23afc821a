-- ===== src/Http/Routes.antt =====
-- internal/gateway/server.go: which requests `ServeHTTP` lets through.
use valyrium.Base.{
  Bool, Bool-cases, String, arith, false, if◌then◌else◌, inl, inr, not, refl, text_iff, true, ◌+t◌,
  ◌=t◌, ◌≡◌, ◌⊎◌,
}
use package.text.Mathlib.Text.{starts_with}
use valyrium.Server.Request.{is_authorized}
use valyrium.Http.{
  HttpRequest, Route, chat_route, dashboard_route, healthz_route, is_request, logo_mark_route,
  mcp_route, metrics_route, models_route, no_route, route, route_authorized, unauthorized_route,
}

-- The handlers that show or change what the key protects; a path without a handler is one of them.
unfoldable pub is_protected : Route → Bool
is_protected models_route = true
is_protected chat_route = true
is_protected metrics_route = true
is_protected no_route = true
is_protected healthz_route = false
is_protected dashboard_route = false
is_protected logo_mark_route = false
is_protected unauthorized_route = false
is_protected (mcp_route session_id) = false

unfoldable pub is_turned_down : Route → Bool
is_turned_down unauthorized_route = true
is_turned_down models_route = false
is_turned_down chat_route = false
is_turned_down metrics_route = false
is_turned_down no_route = false
is_turned_down healthz_route = false
is_turned_down dashboard_route = false
is_turned_down logo_mark_route = false
is_turned_down (mcp_route session_id) = false

either_route : (P : Route → Type 0) (b : Bool) (x y : Route) → P x → P y → P (if b then x else y)
either_route P true x y h k = h
either_route P false x y h k = k

-- What holds of every route that needs no key holds of the route, if it holds of what follows the key.
route-cases :
    (P : Route → Type 0) (api_key : String) (r : HttpRequest)
    → P healthz_route
    → P dashboard_route
    → P logo_mark_route
    → ((session_id : String) → P (mcp_route session_id))
    → P (
        if not (is_authorized api_key r.authorization r.x_api_key)
        then unauthorized_route
        else route_authorized r)
    → P (route api_key r)
unfolding route
route-cases P api_key r h d l m k = either_route P (is_request r "GET" "/healthz") _ _ h (
    either_route P (is_request r "GET" "/dashboard") _ _ d (
      either_route P (is_request r "GET" "/logo-mark.svg") _ _ l
        (either_route P (starts_with r.path "/mcp/") _ _ (m _) k)))

behind_key :
    (authorized : Bool) (x : Route)
    → is_protected (if not authorized then unauthorized_route else x) ≡ true
    → authorized ≡ true
unfolding is_protected
behind_key true x h = refl
behind_key false x h = absurd (cc h)

route_authorized-is_turned_down : (r : HttpRequest) → is_turned_down (route_authorized r) ≡ false
unfolding route_authorized is_turned_down
route_authorized-is_turned_down r =
    let P : Route → Type 0 = λ x. is_turned_down x ≡ false in
    either_route P (is_request r "GET" "/v1/models") _ _ refl (
      either_route P (is_request r "POST" "/v1/chat/completions") _ _ refl
        (either_route P (is_request r "GET" "/metrics") _ _ refl refl))

-- What lets a request pass: no key is configured, or it presents the key in one of the two headers.
abbrev pub Presents : String → HttpRequest → Type 0
Presents api_key r =
    (api_key ≡ "") ⊎ ((r.authorization ≡ "Bearer " +t api_key) ⊎ (r.x_api_key ≡ api_key))

is_authorized-Presents :
    (api_key : String) (r : HttpRequest)
    → is_authorized api_key r.authorization r.x_api_key ≡ true
    → Presents api_key r
unfolding is_authorized
is_authorized-Presents api_key r h = elim (Bool-cases (api_key =t "")) [
  | inl e ↦ inl ((text_iff api_key "").0 e)
  | inr e ↦ elim (Bool-cases (r.authorization =t ("Bearer " +t api_key))) [
    | inl e' ↦ inr (inl ((text_iff r.authorization ("Bearer " +t api_key)).0 e'))
    | inr e' ↦ inr (inr ((text_iff r.x_api_key api_key).0 (ground (arith, h, e, e'))))
  ]
]

Presents-is_authorized :
    (api_key : String) (r : HttpRequest)
    → Presents api_key r
    → is_authorized api_key r.authorization r.x_api_key ≡ true
unfolding is_authorized
Presents-is_authorized api_key r (inl e) = ground (arith, (text_iff api_key "").1 e)
Presents-is_authorized api_key r (inr (inl e)) =
    ground (arith, (text_iff r.authorization ("Bearer " +t api_key)).1 e)
Presents-is_authorized api_key r (inr (inr e)) = ground (arith, (text_iff r.x_api_key api_key).1 e)

turned_down-unauthorized :
    (authorized : Bool) (x : Route)
    → is_turned_down x ≡ false
    → is_turned_down (if not authorized then unauthorized_route else x) ≡ true
    → authorized ≡ false
turned_down-unauthorized true x h h' = absurd (ground (arith, h, h'))
turned_down-unauthorized false x h h' = refl

reached :
    (api_key : String) (r : HttpRequest)
    → (is_protected (route api_key r) ≡ true → Presents api_key r)
      × (is_turned_down (route api_key r) ≡ true → ¬ Presents api_key r)
unfolding is_protected is_turned_down
reached api_key r = (
  λ h. is_authorized-Presents api_key r (
      route-cases
        (λ x. is_protected x ≡ true → is_authorized api_key r.authorization r.x_api_key ≡ true)
        api_key r (λ h. cc h) (λ h. cc h) (λ h. cc h) (λ s h. cc h)
        (behind_key (is_authorized api_key r.authorization r.x_api_key) (route_authorized r)) h),
  λ h presents. ground (
    arith,
    Presents-is_authorized api_key r presents,
    route-cases
        (λ x. is_turned_down x ≡ true → is_authorized api_key r.authorization r.x_api_key ≡ false)
        api_key r (λ h. cc h) (λ h. cc h) (λ h. cc h) (λ s h. cc h)
        (turned_down-unauthorized (is_authorized api_key r.authorization r.x_api_key)
          (route_authorized r) (route_authorized-is_turned_down r))
        h,
  ),
)

-- The models, the completions, the metrics and an unknown path are reached only by a request that
-- presents the key in `Authorization: Bearer` or in `x-api-key`, or where no key is configured; and
-- a request of which one of these holds is never turned down for the key.
pub route-is_authorized :
    (api_key : String) (r : HttpRequest)
    → ((is_protected (route api_key r) ≡ false) ⊎ Presents api_key r)
      × ((is_turned_down (route api_key r) ≡ false) ⊎ (¬ Presents api_key r))
route-is_authorized api_key r =
    let (served, turned_away) = reached api_key r in
    (
      (elim (Bool-cases (is_protected (route api_key r))) [
        | inl e ↦ inr (served e)
        | inr e ↦ inl e
      ]),
      (elim (Bool-cases (is_turned_down (route api_key r))) [
        | inl e ↦ inr (turned_away e)
        | inr e ↦ inl e
      ]),
    )

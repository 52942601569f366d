-- ===== src/Aggregator/Api/Router.antt =====
-- services/aggregator/internal/infra/api/router.go: NewRouter with its middlewares. `instrument` is
-- `otelhttp.NewHandler`, and `fallback` the answer of the mux where no route matches.
use devflow_pipeline.Prelude.{ℕ, zero, suc, ◌≡◌, refl, ap, ◌∙◌, List, [], ◌∷◌, length}
use devflow_pipeline.Go.Call.{Call}
use devflow_pipeline.Go.Float.{Float64}
use devflow_pipeline.Aggregator.Api.Defs.{Handler, Request, Response, routes}

-- `mws[i](handler)`; the loop stays below the length.
apply_at : {H : Type 0} → ℕ → List (H → H) → H → H
apply_at i [] handler = handler
apply_at zero (m ∷ ms) handler = m handler
apply_at (suc i) (m ∷ ms) handler = apply_at i ms handler

-- `for i := len(mws) - 1; i >= 0; i-- { handler = mws[i](handler) }`, from `n` = i + 1.
apply_below : {H : Type 0} → ℕ → List (H → H) → H → H
unfolding apply_at
apply_below zero mws handler = handler
apply_below (suc i) mws handler = apply_below i mws (apply_at i mws handler)

-- The first middleware around the second one, and so on.
abbrev pub nested : {H : Type 0} → List (H → H) → H → H
nested [] handler = handler
nested (m ∷ ms) handler = m (nested ms handler)

apply_below-suc :
    {H : Type 0}
    → (n : ℕ) (m : H → H) (ms : List (H → H)) (handler : H)
    → apply_below (suc n) (m ∷ ms) handler ≡ m (apply_below n ms handler)
unfolding apply_below apply_at
apply_below-suc zero m ms handler = refl
apply_below-suc (suc n) m ms handler = apply_below-suc n m ms (apply_at n ms handler)

apply_below-nested :
    {H : Type 0}
    → (mws : List (H → H)) (handler : H) → apply_below (length mws) mws handler ≡ nested mws handler
unfolding apply_below
apply_below-nested [] handler = refl
apply_below-nested (m ∷ ms) handler =
    apply_below-suc (length ms) m ms handler ∙ ap m (apply_below-nested ms handler)

module _ (fl : Float64) (S : Type 0) where
  abbrev pub HttpHandler : Type 0
  HttpHandler = Request → Call S (Response fl)

  -- `NewRouter`
  unfoldable pub new_router :
      (HttpHandler → HttpHandler)
      → HttpHandler
      → Handler fl S
      → List (HttpHandler → HttpHandler)
      → HttpHandler
  unfolding apply_below
  new_router instrument fallback h mws =
      instrument (apply_below (length mws) mws (routes fl S h fallback))

  -- The first middleware is the outermost one around the routes, the second one is next, and so on, and
  -- the instrumentation is around them all.
  pub new_router-nested :
      (instrument : HttpHandler → HttpHandler) (fallback : HttpHandler) (h : Handler fl S)
      (mws : List (HttpHandler → HttpHandler))
      → new_router instrument fallback h mws ≡ instrument (nested mws (routes fl S h fallback))
  unfolding new_router
  new_router-nested instrument fallback h mws =
      ap instrument (apply_below-nested mws (routes fl S h fallback))

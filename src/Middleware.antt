-- ===== src/Middleware.antt =====
-- Use*Middleware of client_publish.go, client_subscribe.go, client_unsubscribe.go and
-- client_stop.go: chains of handlers. `H` is a Publisher, a Subscriber or an Unsubscriber.
pub mod Laws
use courier_go.Base.{ℕ, zero, suc, Option, none, some, List, [], ◌∷◌, ◌++◌, length, get_elem?}

-- The part of the client that a chain takes: the installed middlewares, and the handler to call.
pub record Chain (H : Type 0) : Type 0 where
  pub middlewares : List (H → H)
  pub handler : H

module _ {H : Type 0} where
  -- c.pMiddlewares[i].Middleware(c.publisher)
  wrap_at : List (H → H) → ℕ → H → H
  wrap_at ms i h = elim (get_elem? ms i) [ some m ↦ m h | none ↦ h ]

  -- for i := len(ms) - 1; i >= 0; i--, with the rounds left as the first argument
  wrap_down : ℕ → List (H → H) → H → H
  unfolding wrap_at
  wrap_down zero ms h = h
  wrap_down (suc i) ms h = wrap_down i ms (wrap_at ms i h)

  -- NewClient: no middleware around the client's own handler
  unfoldable pub new_chain : H → Chain H
  new_chain base = record { middlewares = []; handler = base }

  -- for _, fn := range mwf { c.pMiddlewares = append(c.pMiddlewares, fn) }
  append_all : List (H → H) → List (H → H) → List (H → H)
  append_all ms [] = ms
  append_all ms (fn ∷ fns) = append_all (ms ++ fn ∷ []) fns

  -- UsePublisherMiddleware, UseSubscriberMiddleware, UseUnsubscriberMiddleware
  unfoldable pub use_middleware : H → List (H → H) → Chain H → Chain H
  unfolding wrap_down append_all
  use_middleware base mwf c =
      let ms = append_all c.middlewares mwf in
      record { middlewares = ms; handler = wrap_down (length ms) ms base }

  -- UseStopMiddleware: a nil function takes the middleware off
  unfoldable pub use_stop_middleware : H → Option (H → H) → H
  use_stop_middleware base none = base
  use_stop_middleware base (some mwf) = mwf base

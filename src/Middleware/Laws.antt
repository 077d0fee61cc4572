-- ===== src/Middleware/Laws.antt =====
-- The order of a chain of middlewares.
use courier_go.Base.{
  ℕ, zero, suc, List, [], ◌∷◌, ◌++◌, ◌≡◌, refl, ap, sym, ◌∙◌, length, append-nil, append_assoc,
}
use courier_go.Middleware.{wrap_at, wrap_down, Chain, append_all, use_middleware}

module _ {H : Type 0} where
  -- The first middleware is the outermost.
  abbrev pub wrapped : List (H → H) → H → H
  wrapped [] h = h
  wrapped (m ∷ ms) h = m (wrapped ms h)

  append_all-append : (ms fns : List (H → H)) → append_all ms fns ≡ ms ++ fns
  unfolding append_all
  append_all-append ms [] = sym (append-nil ms)
  append_all-append ms (fn ∷ fns) =
      append_all-append (ms ++ fn ∷ []) fns ∙ append_assoc ms (fn ∷ []) fns

  wrap_down-cons :
      (m : H → H) (ms : List (H → H)) (i : ℕ) (h : H)
      → wrap_down (suc i) (m ∷ ms) h ≡ m (wrap_down i ms h)
  unfolding wrap_down wrap_at
  wrap_down-cons m ms zero h = refl
  wrap_down-cons m ms (suc i) h = wrap_down-cons m ms i (wrap_at ms i h)

  wrap_down-wrapped : (ms : List (H → H)) (h : H) → wrap_down (length ms) ms h ≡ wrapped ms h
  unfolding wrap_down
  wrap_down-wrapped [] h = refl
  wrap_down-wrapped (m ∷ ms) h = wrap_down-cons m ms (length ms) h ∙ ap m (wrap_down-wrapped ms h)

  -- Installing middlewares leaves a chain whose handler passes a call through every middleware
  -- installed so far, first installed first, to the client's own handler.
  pub use_middleware-wrapped :
      (base : H) (mwf : List (H → H)) (c : Chain H)
      → use_middleware base mwf c ≡ record {
        middlewares = c.middlewares ++ mwf;
        handler = wrapped (c.middlewares ++ mwf) base;
      }
  unfolding use_middleware
  use_middleware-wrapped base mwf c =
      ap (λ ms. record { middlewares = ms; handler = wrap_down (length ms) ms base })
        (append_all-append c.middlewares mwf)
      ∙ (λ i. record {
        middlewares = c.middlewares ++ mwf;
        handler = wrap_down-wrapped (c.middlewares ++ mwf) base i;
      })

  -- Installing two groups of middlewares one after the other is installing them together.
  pub use_middleware-append :
      (base : H) (xs ys : List (H → H)) (c : Chain H)
      → use_middleware base ys (use_middleware base xs c) ≡ use_middleware base (xs ++ ys) c
  use_middleware-append base xs ys c =
      ap (use_middleware base ys) (use_middleware-wrapped base xs c)
      ∙ use_middleware-wrapped base ys _
      ∙ ap (λ ms. record { middlewares = ms; handler = wrapped ms base })
          (append_assoc c.middlewares xs ys)
      ∙ sym (use_middleware-wrapped base (xs ++ ys) c)

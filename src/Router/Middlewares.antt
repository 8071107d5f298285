-- ===== src/Router/Middlewares.antt =====
-- pkg/middleware/types.go, Chain: the loop is the composition of the middlewares, the first of them
-- outermost.
use cs.Prelude.{ℕ, zero, suc, List, [], ◌∷◌, ◌++◌, ◌≡◌, refl, ap, ◌∙◌, sym}
use cs.Prelude.Lists.{length}
use cs.Router.{Middleware, apply_at, chain_from, chain}

-- The composition, as a function of the rest of the list.
abbrev pub composed : {H : Type 0} → List (Middleware H) → H → H
composed [] handler = handler
composed (m ∷ ms) handler = m (composed ms handler)

module _ {H : Type 0} where
  chain_from-cons :
      (k : ℕ) (m : Middleware H) (ms : List (Middleware H)) (handler : H)
      → chain_from (suc k) (m ∷ ms) handler ≡ m (chain_from k ms handler)
  unfolding chain_from apply_at
  chain_from-cons zero m ms handler = refl
  chain_from-cons (suc k) m ms handler = chain_from-cons k m ms (apply_at ms k handler)

  -- Chain gives the handler to the last middleware, the result to the one before it, and so on to
  -- the first.
  pub chain-composed :
      (ms : List (Middleware H)) (handler : H) → chain handler ms ≡ composed ms handler
  unfolding chain chain_from
  chain-composed [] handler = refl
  chain-composed (m ∷ ms) handler =
      chain_from-cons (length ms) m ms handler ∙ ap m (chain-composed ms handler)

  composed-append :
      (ms ns : List (Middleware H)) (handler : H)
      → composed (ms ++ ns) handler ≡ composed ms (composed ns handler)
  composed-append [] ns handler = refl
  composed-append (m ∷ ms) ns handler = ap m (composed-append ms ns handler)

  -- A chain around a chain is one chain, with the outer middlewares first.
  pub chain-append :
      (outer inner : List (Middleware H)) (handler : H)
      → chain (chain handler inner) outer ≡ chain handler (outer ++ inner)
  chain-append outer inner handler =
      chain-composed outer (chain handler inner)
      ∙ ap (composed outer) (chain-composed inner handler)
      ∙ sym (composed-append outer inner handler)
      ∙ sym (chain-composed (outer ++ inner) handler)

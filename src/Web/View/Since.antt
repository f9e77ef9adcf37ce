-- ===== src/Web/View/Since.antt =====
-- earliestSince of internal/web/view.go.
use is_ntust_down.Prelude.{
  ℕ, ◌≡◌, Bool, false, ◌||◌, Option, none, some, List, [], ◌∷◌, ◌&&◌, leb, any_by, arith,
}
use is_ntust_down.Probe.{State, same_state}
use is_ntust_down.Web.View.{earliest_since}
use is_ntust_down.Web.Shown.{CheckView}

-- a check that is in a state since an instant that passes a test
abbrev pub held : (ℕ → Bool) → State → CheckView → Bool
held test s c = elim c.since [ none ↦ false | some t ↦ same_state c.state s && test t ]

abbrev pub at_most : ℕ → Option ℕ → Bool
at_most t none = false
at_most t (some u) = leb u t

earliest_since-bound :
    (out : Option ℕ)
    → (checks : List CheckView) → (s : State) → (t : ℕ)
    → any_by (held (λ u. leb u t) s) checks || at_most t out
      ≡ at_most t (earliest_since out checks s)
unfolding earliest_since
earliest_since-bound none [] s t = ground arith
earliest_since-bound (some u) [] s t = ground arith
earliest_since-bound out (c ∷ checks) s t =
    grind (arith, λ (o : Option ℕ). earliest_since-bound o checks s t)

-- A service has held its state since an instant at or before `t` if and only if one of its checks that
-- is in that state has been in it since an instant at or before `t`.
earliest_since_iff :
    (checks : List CheckView)
    → (s : State) → (t : ℕ)
    → at_most t (earliest_since none checks s) ≡ any_by (held (λ u. leb u t) s) checks
earliest_since_iff checks s t = ground (arith, earliest_since-bound none checks s t)

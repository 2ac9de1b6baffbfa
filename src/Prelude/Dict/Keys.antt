-- ===== src/Prelude/Dict/Keys.antt =====
-- Dictionaries whose keys are distinct, and what filtering their entries does to a lookup.
use mathlib.Core.Path.{◌≡◌, refl, ap, ◌∙◌}
use mathlib.Core.Logic.{inl, inr}
use mathlib.Core.Bool.{Bool, false}
use mathlib.Core.Option.{Option, none, some}
use mathlib.Core.List.{[], ◌∷◌}
use native.Mathlib.Omega.{arith}
use agentic_guide_system.Prelude.Tests.{if◌then◌else◌, Bool-cases, if_ind, if_cases}
use agentic_guide_system.Prelude.Lists.{keep}
use agentic_guide_system.Prelude.Dict.{Eq, Dict, get, put, get-put}

abbrev pub keep_some {ℓ} : {A : Type ℓ} → (A → Bool) → Option A → Option A
keep_some p none = none
keep_some p (some a) = if p a then some a else none

module _ {ℓ κ} {K : Type ℓ} {V : Type κ} ⦃e : Eq K⦄ where
  -- No key occurs twice.
  abbrev pub HasDistinctKeys : Dict K V → Type κ
  HasDistinctKeys [] = Unit
  HasDistinctKeys ((k, v) ∷ d) = (get d k ≡ none) × HasDistinctKeys d

  -- `{k: v for k, v in d.items() if p(v)}`
  abbrev pub keep_values : (V → Bool) → Dict K V → Dict K V
  keep_values p d = keep (λ entry. p entry.1) d

  missing : (d : Dict K V) (j k : K) → j ≡ k → get d j ≡ none → get d k ≡ none
  missing d j k same gone = rw (← same) gone

  pub get-keep_values :
      (p : V → Bool) (d : Dict K V) (k : K)
      → HasDistinctKeys d
      → get (keep_values p d) k ≡ keep_some p (get d k)
  unfolding get
  get-keep_values p [] k h = refl
  get-keep_values p ((j, v) ∷ d) k h =
      let rest = get-keep_values p d k h.1 in
      elim (Bool-cases (e.beq j k)) [
        | inl same ↦
            let gone = missing d j k ((e.beq_iff j k).0 same) h.0 in
            elim (Bool-cases (p v)) [
              | inl pass ↦ rw (same, pass) (rw same refl)
              | inr fail ↦ rw (same, fail) (rest ∙ ap (keep_some p) gone)
            ]
        | inr other ↦ elim (Bool-cases (p v)) [
          | inl pass ↦ rw (other, pass) (rw other rest)
          | inr fail ↦ rw (other, fail) rest
        ]
      ]

  pub keep_values-HasDistinctKeys :
      (p : V → Bool) (d : Dict K V) → HasDistinctKeys d → HasDistinctKeys (keep_values p d)
  keep_values-HasDistinctKeys p [] h = tt
  keep_values-HasDistinctKeys p ((k, v) ∷ d) h =
      let rest = keep_values-HasDistinctKeys p d h.1 in
      if_ind HasDistinctKeys (p v) (get-keep_values p d k h.1 ∙ ap (keep_some p) h.0, rest) rest

  pub put-HasDistinctKeys :
      (d : Dict K V) (k : K) (v : V) → HasDistinctKeys d → HasDistinctKeys (put d k v)
  unfolding put get
  put-HasDistinctKeys [] k v h = (refl, tt)
  put-HasDistinctKeys ((j, w) ∷ d) k v h =
      if_cases HasDistinctKeys (e.beq j k) (λ same. h)
        (λ other. (get-put d k j v ∙ not_put other h.0, put-HasDistinctKeys d k v h.1))
    where
      not_put : e.beq j k ≡ false → get d j ≡ none → (if e.beq k j then some v else get d j) ≡ none
      not_put other gone = ground (arith, e.beq_iff j k, e.beq_iff k j)

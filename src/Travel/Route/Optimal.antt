-- ===== src/Travel/Route/Optimal.antt =====
-- `_best_order` (src/travel_engine/route_optimizer.py) finds a least order.
use mathlib.Core.List.{Perm}
use mathlib.Core.List.Perm
use mathlib.Core.HLevel.{⊥_prop}
use native.Mathlib.Bridge.{le_prop}
use agentic_guide_system.Prelude.{
  ◌≤◌, ◌≡◌, ◌≢◌, refl, sym, subst, inl, inr, Bool, true, false, if◌then◌else◌, List, [], ◌∷◌, All,
  arith, Bool-cases,
}
use agentic_guide_system.Prelude.Permutations.{
  permutations, permutations-perm, permutations-complete,
}
use agentic_guide_system.Travel.Places.{ScoredPlace}
use agentic_guide_system.Travel.Route.{
  Lookup, Best, score_order, candidate, improves, best_from, best_of, best_order,
}

permutations-ne-nil : (xs : List ScoredPlace) → permutations xs ≢ []
permutations-ne-nil xs e =
    permutations-complete (λ _. ⊥) (λ _. ⊥_prop) xs (subst (All (λ _. ⊥)) (sym e) tt) xs
      (Perm.refl xs)

module _ (lookup : Lookup) where
  improves-le : (new best : Best) → improves new best ≡ true → new.total ≤ best.total
  unfolding improves
  improves-le new best h = ground arith

  not_improves-le : (new best : Best) → improves new best ≡ false → best.total ≤ new.total
  unfolding improves
  not_improves-le new best h = ground arith

  candidate-total :
      (perm : List ScoredPlace) → (candidate lookup perm).total ≡ score_order perm lookup
  unfolding candidate
  candidate-total perm = refl

  best_from-cons :
      (best : Best) (perm : List ScoredPlace) (perms : List (List ScoredPlace))
      → best_from lookup best (perm ∷ perms)
        ≡ best_from lookup
            (if improves (candidate lookup perm) best then candidate lookup perm else best)
            perms
  unfolding best_from
  best_from-cons best perm perms = refl

  best_from-step :
      (best : Best) (perm : List ScoredPlace) (perms : List (List ScoredPlace)) {b : Bool}
      → improves (candidate lookup perm) best ≡ b
      → best_from lookup best (perm ∷ perms)
        ≡ best_from lookup (if b then candidate lookup perm else best) perms
  best_from-step best perm perms e = rw (best_from-cons, e)

  best_from-le :
      (best : Best) (perms : List (List ScoredPlace))
      → (best_from lookup best perms).total ≤ best.total
  best_from-le best [] = unfold best_from in omega arith
  best_from-le best (perm ∷ perms) = elim (Bool-cases (improves (candidate lookup perm) best)) [
    | inl e ↦
        rw (best_from-cons, e)
          (omega (
            arith,
            best_from-le (candidate lookup perm) perms,
            improves-le (candidate lookup perm) best e,
          ))
    | inr e ↦ rw (best_from-cons, e) (best_from-le best perms)
  ]

  -- The best total is below that of every order that was tried.
  best_from-All :
      (best : Best) (perms : List (List ScoredPlace))
      → All (λ q. (best_from lookup best perms).total ≤ score_order q lookup) perms
  best_from-All best [] = tt
  best_from-All best (perm ∷ perms) = elim (Bool-cases (improves (candidate lookup perm) best)) [
    | inl e ↦
        subst (λ (b : Best). All (λ q. b.total ≤ score_order q lookup) (perm ∷ perms))
          (sym (best_from-step best perm perms e))
          (
            omega (arith, best_from-le (candidate lookup perm) perms, candidate-total perm),
            best_from-All (candidate lookup perm) perms,
          )
    | inr e ↦
        let le = not_improves-le (candidate lookup perm) best e in
        subst (λ (b : Best). All (λ q. b.total ≤ score_order q lookup) (perm ∷ perms))
          (sym (best_from-step best perm perms e))
          (
            omega (arith, le, best_from-le best perms, candidate-total perm),
            best_from-All best perms,
          )
  ]

  -- The best order is one of those tried, with its own total.
  abbrev Tried : (List ScoredPlace → Type 0) → Best → Type 0
  Tried P b = P b.order × (b.total ≡ score_order b.order lookup)

  best_from-Tried :
      (P : List ScoredPlace → Type 0) (best : Best) (perms : List (List ScoredPlace))
      → Tried P best
      → All P perms
      → Tried P (best_from lookup best perms)
  best_from-Tried P best [] b h = unfold best_from in b
  best_from-Tried P best (perm ∷ perms) b h =
      elim (Bool-cases (improves (candidate lookup perm) best)) [
        | inl e ↦
            rw (best_from-cons, e)
              (best_from-Tried P (candidate lookup perm) perms (unfold candidate in (h.0, refl))
                h.1)
        | inr e ↦ rw (best_from-cons, e) (best_from-Tried P best perms b h.1)
      ]

  best_of-Tried :
      (P : List ScoredPlace → Type 0) (perms : List (List ScoredPlace))
      → perms ≢ []
      → All P perms
      → Tried P (best_of lookup perms)
  unfolding best_of candidate
  best_of-Tried P [] e h = absurd (e refl)
  best_of-Tried P (perm ∷ perms) e h =
      best_from-Tried P (candidate lookup perm) perms (h.0, refl) h.1

  best_of-All :
      (perms : List (List ScoredPlace))
      → All (λ q. (best_of lookup perms).total ≤ score_order q lookup) perms
  unfolding best_of
  best_of-All [] = tt
  best_of-All (perm ∷ perms) = (
    unfold candidate in best_from-le (candidate lookup perm) perms,
    best_from-All (candidate lookup perm) perms,
  )

  -- For a day with stops, the order found is a rearrangement of them, the total is its travel time,
  -- and no other rearrangement travels less.
  pub best_order-least :
      (s : ScoredPlace) (rest : List ScoredPlace)
      → Perm (best_order (s ∷ rest) lookup).0 (s ∷ rest)
        × ((best_order (s ∷ rest) lookup).1 ≡ score_order (best_order (s ∷ rest) lookup).0 lookup)
        × ((q : List ScoredPlace)
            → Perm q (s ∷ rest)
            → (best_order (s ∷ rest) lookup).1 ≤ score_order q lookup)
  unfolding best_order
  best_order-least s rest =
      let perms = permutations (s ∷ rest) in
      let (perm, total) =
        best_of-Tried (λ q. Perm q (s ∷ rest)) perms (permutations-ne-nil (s ∷ rest))
          (permutations-perm (s ∷ rest)) in
      (
        perm,
        total,
        permutations-complete (λ q. (best_of lookup perms).total ≤ score_order q lookup)
            (λ q. le_prop) (s ∷ rest) (best_of-All perms),
      )

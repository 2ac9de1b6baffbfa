-- ===== src/Prelude/Rearranged.antt =====
-- What rearranged lists share: their native length, and their counts.
use mathlib.Core.List.{Perm, Permᴰ}
use mathlib.Core.Logic.{∥∥₁_elim}
use native.Mathlib.Nat.{ℕ_set}
use mathlib.Core.Path.{◌≡◌, refl, ap, ◌∙◌}
use Prim.Native.Nat.{suc}
use mathlib.Core.List.{List}
use mathlib.Core.Bool.{Bool}
use native.Mathlib.Omega.{arith}
use agentic_guide_system.Prelude.Lists.{length, count_by}

module _ {ℓ} {A : Type ℓ} where
  length-permᴰ : {xs ys : List A} → Permᴰ xs ys → length xs ≡ length ys
  length-permᴰ Permᴰ.nil = refl
  length-permᴰ (Permᴰ.cons e p) = ap suc (length-permᴰ p)
  length-permᴰ (Permᴰ.swap e f) = refl
  length-permᴰ (Permᴰ.trans p q) = length-permᴰ p ∙ length-permᴰ q

  pub length-perm : {xs ys : List A} → Perm xs ys → length xs ≡ length ys
  length-perm p = ∥∥₁_elim p (ℕ_set _ _) length-permᴰ

  module _ (p : A → Bool) where
    count_by-permᴰ : {xs ys : List A} → Permᴰ xs ys → count_by p xs ≡ count_by p ys
    count_by-permᴰ Permᴰ.nil = refl
    count_by-permᴰ (Permᴰ.cons {b = b} e q) = ground (arith, ap p e, count_by-permᴰ q)
    count_by-permᴰ (Permᴰ.swap e f) = ground (arith, ap p e, ap p f)
    count_by-permᴰ (Permᴰ.trans q r) = count_by-permᴰ q ∙ count_by-permᴰ r

    pub count_by-perm : {xs ys : List A} → Perm xs ys → count_by p xs ≡ count_by p ys
    count_by-perm q = ∥∥₁_elim q (ℕ_set _ _) count_by-permᴰ

-- ===== src/Base/Choice.antt =====
-- One way to choose the top of a queue, under any order: the first element, from the front, that none of
-- those behind it outranks.
use mathlib.Core.Path.{◌≡◌}
use mathlib.Core.Bool.{Bool, true, false, Bool-set}
use mathlib.Core.Logic.{inl, inr}
use mathlib.Core.Logic.Or
use mathlib.Core.List.{List, [], ◌∷◌, Mem, Perm, mem-cons, not-mem-nil}
use mathlib.Core.List.Perm
use fuse_native.Base.Tests.{if◌then◌else◌, Bool-cases}

-- `after x y`: x comes after y.
module _ {ℓ} {A : Type ℓ} (after : A → A → Bool) where
  unfoldable pub better : A → A → List A → A × List A
  better x b r = if after x b then (b, x ∷ r) else (x, b ∷ r)

  unfoldable pub select : A → List A → A × List A
  select x [] = (x, [])
  select x (y ∷ ys) = let s = select y ys in better x s.0 s.1

  better-perm : (x b : A) (r : List A) → Perm ((better x b r).0 ∷ (better x b r).1) (x ∷ b ∷ r)
  unfolding better
  better-perm x b r = elim (Bool-cases (after x b)) [
    | inl behind ↦ rw behind (Perm.swap _ _ _)
    | inr ahead ↦ rw ahead (Perm.refl _)
  ]

  pub select-perm : (x : A) (xs : List A) → Perm ((select x xs).0 ∷ (select x xs).1) (x ∷ xs)
  unfolding select
  select-perm x [] = Perm.refl (x ∷ [])
  select-perm x (y ∷ ys) = Perm.trans (better-perm x _ _) (Perm.cons x (select-perm y ys))

  -- It comes after none of the list.
  abbrev pub IsTop : A → List A → Type ℓ
  IsTop t r = (z : A) → Mem z r → after t z ≡ false

module _ {ℓ} {A : Type ℓ} (after : A → A → Bool)
    (after_trans : (a b c : A) → after a b ≡ false → after b c ≡ false → after a c ≡ false)
    (after_total : (a b : A) → after a b ≡ true → after b a ≡ false) where
  IsTop-cons : (t b : A) (r : List A) → after t b ≡ false → IsTop after t r → IsTop after t (b ∷ r)
  IsTop-cons t b r h k z m = Or.elim (Bool-set _ _) (mem-cons.0 m) (λ e. rw e h) (λ n. k z n)

  better-IsTop :
      (x b : A) (r : List A)
      → IsTop after b r
      → IsTop after (better after x b r).0 (better after x b r).1
  unfolding better
  better-IsTop x b r k = elim (Bool-cases (after x b)) [
    | inl behind ↦ rw behind (IsTop-cons b x r (after_total x b behind) k)
    | inr ahead ↦ rw ahead (IsTop-cons x b r ahead (λ z m. after_trans x b z ahead (k z m)))
  ]

  pub select-IsTop : (x : A) (xs : List A) → IsTop after (select after x xs).0 (select after x xs).1
  unfolding select
  select-IsTop x [] = λ z m. absurd (not-mem-nil m)
  select-IsTop x (y ∷ ys) = better-IsTop x _ _ (select-IsTop y ys)

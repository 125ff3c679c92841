-- ===== src/Errno/Lookup.antt =====
-- Lookups in the tables of src/errno_mapping.cc, by key and by value.
use Prim.Native.String.{String}
use text.Mathlib.Text.{◌==◌ as str_eq}
use text.Mathlib.TextEquality.{eq_iff}
use mathlib.Core.Logic.{∥∥₁_elim}
use mathlib.Core.List.{Memᴰ, Perm}
use mathlib.Core.List.Perm
use native.Mathlib.Nat.{ℕ_set}
use fuse_native.Base.{
  ℕ, ◌≡◌, refl, sym, ap, ◌∙◌, ◌⊎◌, inl, inr, Bool, true, false, some, List, [], ◌∷◌, arith, ◌==◌,
  ◌&&◌, ==_iff, Bool-cases,
}
use fuse_native.Errno.{find, string_to_errno}

-- What `find` returns is a pair of the table.
pub find-Memᴰ : (k : ℕ) (s : String) (m : List (ℕ × String)) → find k m ≡ some s → Memᴰ (k, s) m
unfolding find
find-Memᴰ k s [] h = cc
find-Memᴰ k s ((j, v) ∷ m) h = elim (Bool-cases (j == k)) [
  | inl hit ↦
      let h' : some v ≡ some s = rw hit at h in
      let e : j ≡ k = (==_iff j k).0 hit in
      let f : v ≡ s = cc in Memᴰ.head (λ i. (sym e i, sym f i))
  | inr miss ↦ Memᴰ.tail (find-Memᴰ k s m (rw miss at h))
]

-- The walk returns the code of a pair with that name, or 0 where no pair has it.
string_to_errno-cases :
    (s : String) (m : List (ℕ × String))
    → Memᴰ (string_to_errno m s, s) m ⊎ (((k : ℕ) → Memᴰ (k, s) m → ⊥) × (string_to_errno m s ≡ 0))
unfolding string_to_errno
string_to_errno-cases s [] = inr (λ k h. elim h [ ], refl)
string_to_errno-cases s ((j, v) ∷ m) = elim (Bool-cases (str_eq v s)) [
  | inl hit ↦ rw hit (inl (Memᴰ.head (λ i. (j, sym ((eq_iff v s).0 hit) i))))
  | inr miss ↦ rw miss (lift miss (string_to_errno-cases s m))
]
  where
    lift :
        str_eq v s ≡ false
        → Memᴰ (string_to_errno m s, s) m
          ⊎ (((k : ℕ) → Memᴰ (k, s) m → ⊥) × (string_to_errno m s ≡ 0))
        → Memᴰ (string_to_errno m s, s) ((j, v) ∷ m)
          ⊎ (((k : ℕ) → Memᴰ (k, s) ((j, v) ∷ m) → ⊥) × (string_to_errno m s ≡ 0))
    lift miss (inl n) = inl (Memᴰ.tail n)
    lift miss (inr (no_pair, e)) = inr (λ k n. not_here k n, e)
      where
        not_here : (k : ℕ) → Memᴰ (k, s) ((j, v) ∷ m) → ⊥
        not_here k (Memᴰ.head e) =
            let f : s ≡ v = ap (λ (p : ℕ × String). p.1) e in cc ((eq_iff v s).1 (sym f), miss)
        not_here k (Memᴰ.tail n) = no_pair k n

and_left : (a b : Bool) → (a && b) ≡ true → a ≡ true
and_left a b h = ground arith

and_right : (a b : Bool) → (a && b) ≡ true → b ≡ true
and_right a b h = ground arith

-- Every pair of `m` is what the walk over `t` finds for its name.
abbrev pub agree : List (ℕ × String) → List (ℕ × String) → Bool
agree t [] = true
agree t ((k, s) ∷ m) = (string_to_errno t s == k) && agree t m

pub agree-Memᴰ :
    (t m : List (ℕ × String)) (k : ℕ) (s : String)
    → agree t m ≡ true
    → Memᴰ (k, s) m
    → string_to_errno t s ≡ k
agree-Memᴰ t ((j, v) ∷ m) k s h (Memᴰ.head e) =
    let e' : s ≡ v = ap (λ (p : ℕ × String). p.1) e in
    let f : k ≡ j = ap (λ (p : ℕ × String). p.0) e in rw (e', f) ((==_iff _ _).0 (and_left _ _ h))
agree-Memᴰ t ((j, v) ∷ m) k s h (Memᴰ.tail n) = agree-Memᴰ t m k s (and_right _ _ h) n
agree-Memᴰ t [] k s h n = elim n [ ]

-- In whatever order an unordered_map is walked, the walk finds what it finds over the initialiser,
-- if the names of that are distinct.
pub string_to_errno-perm :
    (t order : List (ℕ × String)) (s : String)
    → agree t t ≡ true
    → Perm order t
    → string_to_errno order s ≡ string_to_errno t s
string_to_errno-perm t order s h p = elim (string_to_errno-cases s order) [
  | inl n ↦ ∥∥₁_elim ((Perm.mem_iff p).0 ∣ n ∣₁) (ℕ_set _ _) (λ n'. sym (agree-Memᴰ t t _ s h n'))
  | inr (no_pair, e) ↦ elim (string_to_errno-cases s t) [
    | inl n ↦ ∥∥₁_elim ((Perm.mem_iff p).1 ∣ n ∣₁) (ℕ_set _ _) (λ n'. absurd (no_pair _ n'))
    | inr (_, e') ↦ e ∙ sym e'
  ]
]

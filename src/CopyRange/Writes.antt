-- ===== src/CopyRange/Writes.antt =====
-- What the copy of src/copy_file_range.cc relies on in pread and pwrite, and its inner loop.
use mathlib.Core.Bool.{true≢false}
use fuse_native.Base.{
  ltb, Bool-cases, ltb→lt, ℕ, zero, suc, ◌+◌, ◌-◌, ◌≤◌, ◌<◌, ◌≡◌, ◌≢◌, ◌⊎◌, inl, inr, refl, sym, ap,
  ◌∙◌, Bool, true, false, Option, some, List, [], ◌∷◌, arith, length, drop, length-drop,
}
use fuse_native.CopyRange.{Files, Written, interrupted, write_failed, wrote, write_all}

-- The byte at a place, 0 behind the end.
abbrev pub byte : List ℕ → ℕ → ℕ
byte [] i = 0
byte (b ∷ bs) zero = b
byte (b ∷ bs) (suc i) = byte bs i

pub same_place : (f : ℕ → ℕ) (i j : ℕ) → i ≡ j → f i ≡ f j
same_place f i j e = ap f e

byte-drop : (n i : ℕ) (bs : List ℕ) → byte (drop n bs) i ≡ byte bs (n + i)
byte-drop zero i bs = same_place (byte bs) i (0 + i) (omega arith)
byte-drop (suc n) i [] = refl
byte-drop (suc n) i (b ∷ bs) =
    byte-drop n i bs ∙ same_place (byte (b ∷ bs)) (suc (n + i)) (suc n + i) (omega arith)

-- pread and pwrite at offsets of two different files, whose bytes are `source` and `target`: a read
-- gives at most so many bytes, the source's; a write of `n` bytes writes the first `n`, and no
-- others; one that fails writes none.
pub record IsFiles {ℓ} {W : Type ℓ} (files : Files W) (source target : W → ℕ → ℕ) : Type ℓ where
  pub read_bytes :
      (w : W) (off n : ℕ) (bs : List ℕ)
      → (files.read w (some off) n).0 ≡ some bs
      → (length bs ≤ n) × ((i : ℕ) → i < length bs → byte bs i ≡ source w (off + i))
  pub read_keeps :
      (w : W) (off n x : ℕ)
      → (source (files.read w (some off) n).1 x ≡ source w x)
        × (target (files.read w (some off) n).1 x ≡ target w x)
  pub write_keeps :
      (w : W) (off : ℕ) (bs : List ℕ) (x : ℕ)
      → source (files.write w (some off) bs).1 x ≡ source w x
  pub write_bytes :
      (w : W) (off : ℕ) (bs : List ℕ) (n : ℕ)
      → (files.write w (some off) bs).0 ≡ wrote n
      → (n ≤ length bs)
        × ((x : ℕ)
            → (x < off) ⊎ (off + n ≤ x)
            → target (files.write w (some off) bs).1 x ≡ target w x)
        × ((i : ℕ) → i < n → target (files.write w (some off) bs).1 (off + i) ≡ byte bs i)
  pub write_fails :
      (w : W) (off : ℕ) (bs : List ℕ) (x : ℕ)
      → (files.write w (some off) bs).0 ≡ write_failed
      → target (files.write w (some off) bs).1 x ≡ target w x

-- No write is interrupted.
abbrev pub Calm {ℓ} : {W : Type ℓ} → Files W → Type ℓ
Calm {W = W} files = (w : W) (out : Option ℕ) (bs : List ℕ) → (files.write w out bs).0 ≢ interrupted

pub lt-cases : (a b : ℕ) → (a < b) ⊎ ((c : ℕ) × (a ≡ b + c))
lt-cases a b = elim (Bool-cases (ltb a b)) [
  | inl h ↦ inl (ltb→lt a b h)
  | inr h ↦ inr (a - b, ground (arith, h))
]

either {ℓ ℓ'} :
    {A : Type ℓ} (P : Bool → A → Type ℓ')
    → (ok : Bool) × (a : A) × P ok a
    → ((a : A) × P true a) ⊎ ((a : A) × P false a)
either P (true, a, p) = inl (a, p)
either P (false, a, p) = inr (a, p)

Written-cases : (r : Written) → r ≢ interrupted → (r ≡ write_failed) ⊎ ((n : ℕ) × (r ≡ wrote n))
Written-cases interrupted h = absurd (h refl)
Written-cases write_failed h = inl refl
Written-cases (wrote n) h = inr (n, refl)

-- The source and the bytes before the offset stay, and on success the bytes stand at the offset.
pub record WritesAll {ℓ} {W : Type ℓ} (source target : W → ℕ → ℕ) (w : W) (off : ℕ) (bs : List ℕ)
    (ok : Bool) (w' : W) : Type 0 where
  pub keeps : (x : ℕ) → source w' x ≡ source w x
  pub below : (x : ℕ) → x < off → target w' x ≡ target w x
  pub inside : ok ≡ true → (i : ℕ) → i < length bs → target w' (off + i) ≡ byte bs i

module _ {ℓ} {W : Type ℓ} {files : Files W} {source target : W → ℕ → ℕ}
    (laws : IsFiles files source target) (calm : Calm files) where
  -- After a write of `suc n` bytes, the rest of which is written.
  after_write :
      (w w' : W) (off n : ℕ) (b : ℕ) (bs : List ℕ) (ok : Bool)
      → (files.write w (some off) (b ∷ bs)).0 ≡ wrote (suc n)
      → WritesAll source target
          (files.write w (some off) (b ∷ bs)).1
          (off + suc n)
          (drop n bs)
          ok
          w'
      → WritesAll source target w off (b ∷ bs) ok w'
  after_write w w' off n b bs ok e r =
      let (_, outside, inside) = laws.write_bytes w off (b ∷ bs) (suc n) e in
      record {
        keeps = λ x. r.keeps x ∙ laws.write_keeps w off (b ∷ bs) x;
        below = λ x l. r.below x (omega (arith, l)) ∙ outside x (inl l);
        inside = λ t i l. elim (lt-cases i (suc n)) [
          | inl h ↦ r.below (off + i) (omega (arith, h)) ∙ inside i h
          | inr (j, h) ↦
              same_place (target w') (off + i) (off + suc n + j) (omega (arith, h))
              ∙ r.inside t j (omega (arith, h, l, length-drop n bs))
              ∙ byte-drop n j bs
              ∙ same_place (byte (b ∷ bs)) (suc (n + j)) i (omega (arith, h))
        ];
      }

  pub write_all-WritesAll :
      (fuel : ℕ) (w : W) (off : ℕ) (bs : List ℕ)
      → length bs < fuel
      → (ok : Bool) × (w' : W) × (write_all files fuel w (some off) bs ≡ some (ok, w'))
        × WritesAll source target w off bs ok w'
  unfolding write_all
  write_all-WritesAll zero w off bs h = absurd (omega (arith, h))
  write_all-WritesAll (suc fuel) w off [] h = (
    true,
    w,
    refl,
    record { keeps = λ x. refl; below = λ x l. refl; inside = λ t i l. absurd (omega (arith, l)) },
  )
  write_all-WritesAll (suc fuel) w off (b ∷ bs) h =
      let w1 = (files.write w (some off) (b ∷ bs)).1 in
      elim (Written-cases (files.write w (some off) (b ∷ bs)).0 (calm w (some off) (b ∷ bs))) [
        | inl e ↦ (
          false,
          w1,
          rw (e, write_all) refl,
          record {
            keeps = laws.write_keeps w off (b ∷ bs);
            below = λ x l. laws.write_fails w off (b ∷ bs) x e;
            inside = λ t. absurd (true≢false (sym t));
          },
        )
        | inr (zero, e) ↦ (
          false,
          w1,
          rw (e, write_all) refl,
          record {
            keeps = laws.write_keeps w off (b ∷ bs);
            below = λ x l. (laws.write_bytes w off (b ∷ bs) 0 e).1 x (inl l);
            inside = λ t. absurd (true≢false (sym t));
          },
        )
        | inr (suc n, e) ↦
            let (ok, w', run, r) =
              write_all-WritesAll fuel w1 (off + suc n) (drop n bs)
                (omega (arith, h, length-drop n bs)) in
            (ok, w', rw (e, write_all) run, after_write w w' off n b bs ok e r)
      ]

  abbrev pub Ended : ℕ → W → ℕ → List ℕ → Bool → W → Type ℓ
  Ended fuel w off bs ok w' =
      (write_all files fuel w (some off) bs ≡ some (ok, w'))
      × WritesAll source target w off bs ok w'

  -- With a round for each byte and one more the loop ends.
  pub write_all_ends :
      (fuel : ℕ) (w : W) (off : ℕ) (bs : List ℕ)
      → length bs < fuel
      → ((w' : W) × Ended fuel w off bs true w') ⊎ ((w' : W) × Ended fuel w off bs false w')
  write_all_ends fuel w off bs h =
      let (ok, w', run, a) = write_all-WritesAll fuel w off bs h in
      either (Ended fuel w off bs) (ok, w', (run, a))

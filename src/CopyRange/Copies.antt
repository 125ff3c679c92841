-- ===== src/CopyRange/Copies.antt =====
-- What the chunked copy of src/copy_file_range.cc copies between offsets of two files.
use fuse_native.Base.{
  ℕ, zero, suc, ◌+◌, ◌-◌, ◌≤◌, ◌<◌, ◌≡◌, ◌⊎◌, inl, inr, refl, ◌∙◌, Bool, true, false, Option, none,
  some, List, [], ◌∷◌, ltb, leb, ◌==◌, min, arith, length, Bool-cases,
}
use fuse_native.Base.Int.{ℤ, pos, negsuc}
use fuse_native.CopyRange.{
  Files, Exit, finished, stopped, Result, CopyFileRange, actual_chunk_size, copy_loop, exit_result,
  chunked_copy_file_range,
}
use fuse_native.CopyRange.Writes.{IsFiles, Calm, WritesAll, write_all_ends, lt-cases, same_place}

-- From `w` to `w'` the source stays, and `total` bytes at one offset are the source's at the other.
pub record Copied {ℓ} {W : Type ℓ} (source target : W → ℕ → ℕ) (w : W) (inp out total : ℕ) (w' : W)
    : Type 0 where
  pub keeps : (x : ℕ) → source w' x ≡ source w x
  pub copied : (i : ℕ) → i < total → target w' (out + i) ≡ source w (inp + i)

-- The result of a copy from `inp` to `out`: the count, at most the length, or -1 where nothing was
-- counted; so many bytes are copied; and both offsets are advanced by it or neither is.
pub record CopyResult {ℓ} {W : Type ℓ} (source target : W → ℕ → ℕ) (w : W) (inp out len : ℕ)
    (r : Result W) : Type 0 where
  pub count : ℕ
  pub value : (r.value ≡ pos count) ⊎ ((count ≡ 0) × (r.value ≡ negsuc 0))
  pub bounded : count ≤ len
  pub copied : Copied source target w inp out count r.world
  pub offsets :
      ((r.offset_in ≡ some (inp + count)) × (r.offset_out ≡ some (out + count)))
      ⊎ ((r.offset_in ≡ some inp) × (r.offset_out ≡ some out))

module _ {ℓ} {W : Type ℓ} {files : Files W} {source target : W → ℕ → ℕ}
    (laws : IsFiles files source target) (calm : Calm files) where
  abbrev Exited : W → ℕ → ℕ → ℕ → Exit W → Type 0
  Exited w inp out len (finished n w') = (n ≤ len) × Copied source target w inp out n w'
  Exited w inp out len (stopped n w') = (n ≤ len) × Copied source target w inp out n w'

  -- A read and a write, whole or not, leave what was copied.
  keeps_bytes :
      (w0 w : W) (inp out total p q n : ℕ) (bs : List ℕ) (ok : Bool) (w' : W)
      → q ≡ out + total
      → Copied source target w0 inp out total w
      → WritesAll source target (files.read w (some p) n).1 q bs ok w'
      → Copied source target w0 inp out total w'
  keeps_bytes w0 w inp out total p q n bs ok w' e c r = record {
    keeps = λ x. r.keeps x ∙ (laws.read_keeps w p n x).0 ∙ c.keeps x;
    copied = λ i h.
        r.below (out + i) (omega (arith, e, h))
        ∙ (laws.read_keeps w p n (out + i)).1
        ∙ c.copied i h;
  }

  adds_bytes :
      (w0 w : W) (inp out total p q n : ℕ) (bs : List ℕ) (w' : W)
      → p ≡ inp + total
      → q ≡ out + total
      → (files.read w (some p) n).0 ≡ some bs
      → Copied source target w0 inp out total w
      → WritesAll source target (files.read w (some p) n).1 q bs true w'
      → Copied source target w0 inp out (total + length bs) w'
  adds_bytes w0 w inp out total p q n bs w' ep eq e c r =
      let before = keeps_bytes w0 w inp out total p q n bs true w' eq c r in
      record {
        keeps = before.keeps;
        copied = λ i h. elim (lt-cases i total) [
          | inl l ↦ before.copied i l
          | inr (j, l) ↦
              same_place (target w') (out + i) (q + j) (omega (arith, eq, l))
              ∙ r.inside refl j (omega (arith, h, l))
              ∙ (laws.read_bytes w p n bs e).1 j (omega (arith, h, l))
              ∙ c.keeps (p + j)
              ∙ same_place (source w0) (p + j) (inp + i) (omega (arith, ep, l))
        ];
      }

  read_nothing :
      (w0 w : W) (inp out total p n : ℕ)
      → Copied source target w0 inp out total w
      → Copied source target w0 inp out total (files.read w (some p) n).1
  read_nothing w0 w inp out total p n c = record {
    keeps = λ x. (laws.read_keeps w p n x).0 ∙ c.keeps x;
    copied = λ i h. (laws.read_keeps w p n (out + i)).1 ∙ c.copied i h;
  }

  read-cases :
      (o : Option (List ℕ))
      → (o ≡ none) ⊎ (o ≡ some []) ⊎ ((b : ℕ) × (bs : List ℕ) × (o ≡ some (b ∷ bs)))
  read-cases none = inl refl
  read-cases (some []) = inr (inl refl)
  read-cases (some (b ∷ bs)) = inr (inr (b, bs, refl))

  -- The loop ends, with what it counted copied.
  copy_loop-Exited :
      (fuel retries len chunk : ℕ) (w0 w : W) (inp out total p q : ℕ)
      → len < fuel + total
      → total ≤ len
      → p ≡ inp + total
      → q ≡ out + total
      → Copied source target w0 inp out total w
      → (e : Exit W) × (copy_loop files fuel retries len chunk w (some p) (some q) total ≡ some e)
        × Exited w0 inp out len e
  unfolding copy_loop
  copy_loop-Exited zero retries len chunk w0 w inp out total p q h l ep eq c =
      absurd (omega (arith, h, l))
  copy_loop-Exited (suc fuel) retries len chunk w0 w inp out total p q h l ep eq c =
      let n = min (len - total) chunk in
      let r = files.read w (some p) n in
      elim (Bool-cases (leb len total)) [
        | inl d ↦ (finished total w, rw (d, copy_loop) refl, (l, c))
        | inr d ↦ elim (read-cases r.0) [
          | inl e ↦ (
            stopped total r.1,
            rw (d, e, copy_loop) refl,
            (l, read_nothing w0 w inp out total p n c),
          )
          | inr (inl e) ↦ (
            finished total r.1,
            rw (d, e, copy_loop) refl,
            (l, read_nothing w0 w inp out total p n c),
          )
          | inr (inr (b, bs, e)) ↦
              let count = length (b ∷ bs) in
              let bound = (laws.read_bytes w p n (b ∷ bs) e).0 in
              elim (write_all_ends laws calm (suc (count + retries)) r.1 q (b ∷ bs) (omega arith)) [
                | inr (w', (run, a)) ↦ (
                  stopped total w',
                  rw (d, e, copy_loop, run) refl,
                  (l, keeps_bytes w0 w inp out total p q n (b ∷ bs) false w' eq c a),
                )
                | inl (w', (run, a)) ↦
                    let more = adds_bytes w0 w inp out total p q n (b ∷ bs) w' ep eq e c a in
                    elim (Bool-cases (ltb count n)) [
                      | inl short ↦ (
                        finished (total + count) w',
                        rw (d, e, copy_loop, run, short) refl,
                        (omega (arith, bound, l), more),
                      )
                      | inr whole ↦
                          let (exit, rest, exited) =
                            copy_loop-Exited fuel retries len chunk w0 w' inp out (total + count)
                              (p + count) (q + count) (omega (arith, h)) (omega (arith, bound, l))
                              (omega (arith, ep)) (omega (arith, eq)) more in
                          (exit, rw (d, e, copy_loop, run, whole) rest, exited)
                    ]
              ]
        ]
      ]

  exit_result-CopyResult :
      (w : W) (inp out len : ℕ) (e : Exit W)
      → Exited w inp out len e
      → CopyResult source target w inp out len (exit_result files (some inp) (some out) e)
  exit_result-CopyResult w inp out len (finished n w') (l, c) = record {
    count = n;
    value = inl refl;
    bounded = l;
    copied = c;
    offsets = inl (refl, refl);
  }
  exit_result-CopyResult w inp out len (stopped n w') (l, c) = record {
    count = n;
    value = ground arith;
    bounded = l;
    copied = c;
    offsets = inr (refl, refl);
  }

  nothing :
      (w : W) (inp out len : ℕ) (value : ℤ)
      → (value ≡ pos 0) ⊎ ((zero ≡ zero) × (value ≡ negsuc 0))
      → CopyResult source target w inp out len
          (record { value = value; offset_in = some inp; offset_out = some out; world = w })
  nothing w inp out len value h = record {
    count = 0;
    value = h;
    bounded = omega arith;
    copied = record { keeps = λ x. refl; copied = λ i l. absurd (omega (arith, l)) };
    offsets = inr (refl, refl);
  }

  -- The chunked copy between offsets of two files, where no write is interrupted, ends, within a
  -- round for each byte and one more. Its result is the count of bytes copied, at most the length, or
  -- -1 where none is counted; so many bytes of the target are the source's and the source stays; and
  -- both offsets are advanced by the count or neither is.
  pub chunked_copy_file_range-CopyResult :
      (retries : ℕ) (c : CopyFileRange) (w : W) (allocated : Bool) (inp out len : ℕ)
      → (r : Result W) × (chunked_copy_file_range files retries c w allocated
            (some inp)
            (some out)
            len
          ≡ some r)
        × CopyResult source target w inp out len r
  unfolding chunked_copy_file_range
  chunked_copy_file_range-CopyResult retries c w allocated inp out len =
      elim (Bool-cases (len == 0)) [
        | inl z ↦
            (_, rw (z, chunked_copy_file_range) refl, nothing w inp out len (pos 0) (inl refl))
        | inr z ↦ elim (Bool-cases allocated) [
          | inl a ↦
              let (e, run, exited) =
                copy_loop-Exited (suc len) retries len (actual_chunk_size c len) w w inp out 0 inp
                  out (omega arith) (omega arith) (omega arith) (omega arith)
                  (record { keeps = λ x. refl; copied = λ i h. absurd (omega (arith, h)) }) in
              (
                exit_result files (some inp) (some out) e,
                rw (z, a, chunked_copy_file_range, run) refl,
                exit_result-CopyResult w inp out len e exited,
              )
          | inr a ↦ (
            _,
            rw (z, a, chunked_copy_file_range) refl,
            nothing w inp out len (negsuc 0) (inr (refl, refl)),
          )
        ]
      ]

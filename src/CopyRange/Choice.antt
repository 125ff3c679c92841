-- ===== src/CopyRange/Choice.antt =====
-- Which copy src/copy_file_range.cc chooses, and its functions for JavaScript, each of which has a copier
-- of its own (a static variable inside the function).
use mathlib.Core.Bool.{true≢false}
use fuse_native.Base.{
  ℕ, ◌+◌, ◌≤◌, ◌≡◌, ◌⊎◌, inl, inr, refl, ◌∙◌, Bool, false, Option, ◌==◌, arith, Bool-cases,
}
use fuse_native.CopyRange.{
  Files, Result, CopyFileRange, KernelCopy, kernel_copied, kernel_failed, enosys, eopnotsupp, exdev,
  other_error, default_chunk_size, min_chunk_size, max_chunk_size, new_copy_file_range,
  set_chunk_size, chunked_copy_file_range, copy_file_range, actual_chunk_size,
}

-- The chunk size is always within its bounds, and a chunk is never empty.
actual_chunk_size-set_chunk_size :
    (c : CopyFileRange) (size len : ℕ)
    → (min_chunk_size ≤ (set_chunk_size c size).chunk_size)
      × ((set_chunk_size c size).chunk_size ≤ max_chunk_size)
      × (min_chunk_size ≤ actual_chunk_size (set_chunk_size c size) len)
unfolding set_chunk_size
actual_chunk_size-set_chunk_size c size len = ground arith

Kernel-cases :
    (k : KernelCopy)
    → ((n : ℕ) × (inp out : Option ℕ) × (k ≡ kernel_copied n inp out))
      ⊎ (k ≡ kernel_failed enosys)
      ⊎ (k ≡ kernel_failed eopnotsupp)
      ⊎ (k ≡ kernel_failed exdev)
      ⊎ (k ≡ kernel_failed other_error)
Kernel-cases (kernel_copied n inp out) = inl (n, inp, out, refl)
Kernel-cases (kernel_failed enosys) = inr (inl refl)
Kernel-cases (kernel_failed eopnotsupp) = inr (inr (inl refl))
Kernel-cases (kernel_failed exdev) = inr (inr (inr (inl refl)))
Kernel-cases (kernel_failed other_error) = inr (inr (inr (inr refl)))

module _ {ℓ} {W : Type ℓ} (files : Files W) where
  -- What a copy keeps of its copier, and which copy it is without the kernel's.
  abbrev pub Keeps : CopyFileRange → Option (Result W) → Option (Result W) × CopyFileRange → Type ℓ
  Keeps c chunked r =
      (r.1.chunk_size ≡ c.chunk_size)
      × (c.use_kernel_copy ≡ false → (r.1.use_kernel_copy ≡ false) × (r.0 ≡ chunked))

  -- Every copy keeps the chunk size. Where the kernel's copy is off it stays off, and the copy is the
  -- chunked one.
  pub copy_file_range-Keeps :
      (retries : ℕ) (c : CopyFileRange) (w : W) (allocated : Bool) (inp out : Option ℕ) (len : ℕ)
      → Keeps c
          (chunked_copy_file_range files retries c w allocated inp out len)
          (copy_file_range files retries c w allocated inp out len)
  unfolding copy_file_range chunked_copy_file_range
  copy_file_range-Keeps retries c w allocated inp out len = elim (Bool-cases (len == 0)) [
    | inl z ↦ rw (z, copy_file_range, chunked_copy_file_range) (refl, λ f. (f, refl))
    | inr z ↦ elim (Bool-cases c.use_kernel_copy) [
      | inr off ↦ rw (z, off, copy_file_range) (refl, λ f. (refl, refl))
      | inl on ↦ elim (Kernel-cases (files.kernel_copy w inp out len).0) [
        | inl (n, i, o, k) ↦ rw (z, on, k, copy_file_range) (refl, λ f. absurd (true≢false f))
        | inr (inl k) ↦ rw (z, on, k, copy_file_range) (refl, λ f. absurd (true≢false f))
        | inr (inr (inl k)) ↦ rw (z, on, k, copy_file_range) (refl, λ f. absurd (true≢false f))
        | inr (inr (inr (inl k))) ↦
            rw (z, on, k, copy_file_range) (refl, λ f. absurd (true≢false f))
        | inr (inr (inr (inr k))) ↦
            rw (z, on, k, copy_file_range) (refl, λ f. absurd (true≢false f))
      ]
    ]
  ]

-- The copiers of the functions for JavaScript, and the statistics of the one that copies.
pub record Copiers : Type 0 where
  pub for_copy : CopyFileRange
  pub for_set : CopyFileRange
  pub for_get : CopyFileRange
  pub copied_operations : ℕ
  pub copied_bytes : ℕ
  pub shown_operations : ℕ
  pub shown_bytes : ℕ

unfoldable pub new_copiers : Bool → Copiers
new_copiers supported = record {
  for_copy = new_copy_file_range supported;
  for_set = new_copy_file_range supported;
  for_get = new_copy_file_range supported;
  copied_operations = 0;
  copied_bytes = 0;
  shown_operations = 0;
  shown_bytes = 0;
}

unfoldable pub set_chunk_size_call : Copiers → ℕ → Copiers
set_chunk_size_call cs size = record cs { for_set = set_chunk_size cs.for_set size }

unfoldable pub get_chunk_size_call : Copiers → ℕ
get_chunk_size_call cs = cs.for_get.chunk_size

-- The end of a copy that returned `n`, with `c` the copier after it.
unfoldable pub count_copy : Copiers → CopyFileRange → ℕ → Copiers
count_copy cs c n = record cs {
  for_copy = c;
  copied_operations = cs.copied_operations + 1;
  copied_bytes = cs.copied_bytes + n;
}

unfoldable pub get_stats_call : Copiers → ℕ × ℕ
get_stats_call cs = (cs.shown_operations, cs.shown_bytes)

module _ {ℓ} {W : Type ℓ} (files : Files W) where
  -- Calls from JavaScript; a copy returned `n`.
  pub data Calls (supported : Bool) : Copiers → Type ℓ where
    no_call : Calls supported (new_copiers supported)
    sets :
        {cs : Copiers} (size : ℕ)
        → Calls supported cs
        → Calls supported (set_chunk_size_call cs size)
    copies :
        {cs : Copiers} (retries : ℕ) (w : W) (allocated : Bool) (inp out : Option ℕ) (len n : ℕ)
        → Calls supported cs
        → Calls supported
            (count_copy cs (copy_file_range files retries cs.for_copy w allocated inp out len).1 n)

  -- After every sequence of calls that set a chunk size and that copy, the chunk size shown and the one
  -- used are the default one, and the statistics shown are 0.
  pub Calls-unchanged :
      {supported : Bool} {cs : Copiers}
      → Calls supported cs
      → (get_chunk_size_call cs ≡ default_chunk_size)
        × (cs.for_copy.chunk_size ≡ default_chunk_size)
        × (get_stats_call cs ≡ (0, 0))
  unfolding new_copiers set_chunk_size_call get_chunk_size_call count_copy get_stats_call
  Calls-unchanged no_call = (refl, refl, refl)
  Calls-unchanged (sets size calls) = Calls-unchanged calls
  Calls-unchanged (copies {cs} retries w allocated inp out len n calls) =
      let (shown, used, stats) = Calls-unchanged calls in
      (
        shown,
        (copy_file_range-Keeps files retries cs.for_copy w allocated inp out len).0 ∙ used,
        stats,
      )

-- ===== src/Bridge/Validity.antt =====
-- The buffers that `ConvertJsFuseBufvec` of src/fuse_bridge.cc accepts.
use fuse_native.Base.{
  ℕ, suc, ◌≤◌, ◌<◌, ◌≡◌, ◌⊎◌, inl, inr, refl, ap, Bool, true, false, List, [], ◌∷◌, Option, none,
  some, length, length-take, take, ltb, leb, ◌==◌, All, arith, Bool-cases, if◌then◌else◌,
}
use mathlib.Core.Path.{subst}
use fuse_native.Bridge.Js.{JsValue, elements, get_field}
use fuse_native.Bridge.Objects.Entries.{◌>>=◌}
use fuse_native.Bridge.Buffers.{
  Buf, Bufvec, Source, file, memory, is_fd, size_at, try_get_size, flags_field, fd_field, pos_field,
  mem_field, array_field, convert_source, convert_buf, convert_bufs, convert_bufvec, check_position,
}

-- What a conversion gives, if it gives something, has a property.
data Ensures {ℓ κ} {A : Type ℓ} (P : A → Type κ) : Option A → Type (ℓ ⊔ κ) where
  failed : Ensures P none
  returned : {a : A} → P a → Ensures P (some a)

bind {ℓ κ μ} :
    {A : Type ℓ} {B : Type κ} {P : B → Type μ} (m : Option A) (f : A → Option B)
    → ((a : A) → m ≡ some a → Ensures P (f a))
    → Ensures P (m >>= f)
bind none f h = failed
bind (some a) f h = h a refl

Ensures-some {ℓ κ} :
    {A : Type ℓ} (P : A → Type κ) {o : Option A} {a : A} → Ensures P o → o ≡ some a → P a
Ensures-some P failed e = cc
Ensures-some P (returned h) e = subst P (cc) h

-- A test that refuses.
unless {ℓ κ} :
    {A : Type ℓ} {P : A → Type κ} (b : Bool) (o : Option A)
    → (b ≡ false → Ensures P o)
    → Ensures P (if b then none else o)
unless true o h = failed
unless false o h = h refl

abbrev Fits : Source → ℕ → ℕ → Type 0
Fits (file fd position) size flags = is_fd flags ≡ true
Fits (memory bytes) size flags = (is_fd flags ≡ false) × (length bytes ≡ size)

-- A buffer in memory has as many bytes as it says, and a descriptor stands where its flag says so.
abbrev IsSound : Buf → Type 0
IsSound b = Fits b.source b.size b.flags

convert_source-Fits :
    (entry : JsValue) (size flags : ℕ)
    → Ensures (λ s. Fits s size flags) (convert_source entry size flags)
unfolding convert_source
convert_source-Fits entry size flags = elim (Bool-cases (is_fd flags)) [
  | inl e ↦
      rw (e, convert_source)
        (bind (get_field "fd" entry) _ (λ fd_value h1.
          bind (fd_field fd_value) _
            (λ fd h2. bind (pos_field (get_field "pos" entry)) _ (λ position h3. returned e))))
  | inr e ↦
      rw (e, convert_source)
        (bind (get_field "mem" entry) _ (λ mem_value h1. bind (mem_field mem_value) _ (λ bytes h2.
          unless (ltb (length bytes) size) _
            (λ enough. returned (e, ground (arith, length-take size bytes, enough))))))
]

convert_buf-IsSound : (entry : JsValue) → Ensures IsSound (convert_buf entry)
unfolding convert_buf
convert_buf-IsSound entry = bind (get_field "size" entry) _ (λ size_value h1.
    bind (try_get_size size_value) _ (λ size h2.
      bind (flags_field (get_field "flags" entry)) _ (λ flags h3.
        bind (convert_source entry size flags) _ (λ source h4.
          returned
            (Ensures-some (λ s. Fits s size flags) (convert_source-Fits entry size flags) h4)))))

convert_bufs-IsSound :
    (entries : List JsValue)
    → Ensures (λ bufs. All IsSound bufs × (length bufs ≡ length entries)) (convert_bufs entries)
unfolding convert_bufs
convert_bufs-IsSound [] = returned (tt, refl)
convert_bufs-IsSound (entry ∷ entries) = bind (convert_buf entry) _ (λ buf h1.
    bind (convert_bufs entries) _ (λ bufs h2.
      let rest = Ensures-some _ (convert_bufs-IsSound entries) h2 in
      returned ((Ensures-some IsSound (convert_buf-IsSound entry) h1, rest.0), ap suc rest.1)))

pub record IsValid (v : Bufvec) : Type 0 where
  pub counted : length v.bufs ≡ v.count
  pub sound : All IsSound v.bufs
  pub position : (v.count ≡ 0) ⊎ ((v.idx < v.count) × (v.off ≤ size_at v.idx v.bufs))

check_position-IsValid :
    (count idx off : ℕ) (bufs : List Buf)
    → All IsSound bufs
    → length bufs ≡ count
    → Ensures IsValid (check_position count idx off bufs)
unfolding check_position
check_position-IsValid count idx off bufs sound counted = elim (Bool-cases (count == 0)) [
  | inl none_asked ↦
      rw (none_asked, check_position)
        (returned {a = record { count = 0; idx = 0; off = 0; bufs = [] }}
          (record { counted = refl; sound = tt; position = inl refl }))
  | inr some_asked ↦
      rw (some_asked, check_position)
        (unless (leb count idx) _ (λ below. unless (ltb (size_at idx bufs) off) _ (λ enough.
          returned (record {
            counted = counted;
            sound = sound;
            position = inr (ground arith, ground arith);
          }))))
]

converted : (value : JsValue) → Ensures IsValid (convert_bufvec value)
unfolding convert_bufvec
converted value = bind (get_field "count" value) _ (λ count_value h1.
    bind (try_get_size count_value) _ (λ count h2. bind (get_field "idx" value) _ (λ idx_value h3.
      bind (try_get_size idx_value) _ (λ idx h4. bind (get_field "off" value) _ (λ off_value h5.
        bind (try_get_size off_value) _ (λ off h6. bind (get_field "buf" value) _ (λ buf_value h7.
          bind (array_field buf_value) _ (λ vs h8.
            unless (ltb (length (elements vs)) count) _ (λ enough.
              bind (convert_bufs (take count (elements vs))) _ (λ bufs h9.
                let r = Ensures-some _ (convert_bufs-IsSound (take count (elements vs))) h9 in
                check_position-IsValid count idx off bufs r.0
                  (ground (arith, r.1, length-take count (elements vs), enough))))))))))))

-- What a read_buf handler returns is handed to libfuse only with as many buffers as it says, each with as
-- many bytes as it says or with a descriptor where its flag says so, and with a position in one of them.
pub convert_bufvec-IsValid :
    (value : JsValue) {v : Bufvec} → convert_bufvec value ≡ some v → IsValid v
convert_bufvec-IsValid value h = Ensures-some IsValid (converted value) h

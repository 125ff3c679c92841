-- ===== src/Xattr/Names.antt =====
-- ParseAttributeList of src/xattr_bridge.cc reads the lists of names that the kernel makes, and those
-- that src/fuse_bridge.cc replies to listxattr with.
use Prim.Native.String.{String}
use fuse_native.Base.{
  ℕ, zero, suc, ◌≤◌, ◌≡◌, ◌≢◌, refl, ap, false, some, List, [], ◌∷◌, ◌++◌, map, length, take, drop,
  length-append, arith, All,
}
use fuse_native.Bridge.Js.{string}
use fuse_native.Bridge.Xattrs.{name_list}
use fuse_native.Xattr.{strnlen, has_nul, parse_names, parse_attribute_list}

-- A name that a list can hold.
abbrev pub IsName : List ℕ → Type 0
IsName name = (name ≢ []) × (has_nul name ≡ false)

strnlen-append :
    (name rest : List ℕ) → has_nul name ≡ false → strnlen (name ++ (0 ∷ rest)) ≡ length name
strnlen-append [] rest h = refl
strnlen-append (c ∷ cs) rest h = ground (arith, strnlen-append cs rest)

take_name : (name rest : List ℕ) → take (length name) (name ++ rest) ≡ name
take_name [] rest = refl
take_name (c ∷ cs) rest = ap (λ (l : List ℕ). c ∷ l) (take_name cs rest)

drop_name : (name rest : List ℕ) → drop (suc (length name)) (name ++ (0 ∷ rest)) ≡ rest
drop_name [] rest = refl
drop_name (c ∷ cs) rest = drop_name cs rest

take_all : (bytes : List ℕ) → take (length bytes) bytes ≡ bytes
take_all [] = refl
take_all (c ∷ cs) = ap (λ (l : List ℕ). c ∷ l) (take_all cs)

-- One round of the loop.
parse_round :
    (fuel n : ℕ) (l : List ℕ)
    → strnlen l ≡ suc n
    → parse_names (suc fuel) l ≡ take (suc n) l ∷ parse_names fuel (drop (suc (suc n)) l)
unfolding parse_names
parse_round fuel n [] e = absurd (omega arith)
parse_round fuel n (c ∷ cs) e = rw e (ground arith)

parse_name :
    (fuel : ℕ) (name rest : List ℕ)
    → IsName name
    → parse_names (suc fuel) (name ++ (0 ∷ rest)) ≡ name ∷ parse_names fuel rest
parse_name fuel [] rest h = absurd (h.0 refl)
parse_name fuel (c ∷ cs) rest h = cc (
  parse_round fuel (length cs) ((c ∷ cs) ++ (0 ∷ rest)) (strnlen-append (c ∷ cs) rest h.1),
  take_name (c ∷ cs) (0 ∷ rest),
  drop_name (c ∷ cs) rest,
)

parse_zero : (l : List ℕ) → parse_names 0 l ≡ []
unfolding parse_names
parse_zero l = refl

module _ (utf8 : String → List ℕ) where
  parse_list :
      (fuel : ℕ) (names : List String)
      → All (λ s. IsName (utf8 s)) names
      → length (name_list utf8 false (map string names)) ≤ fuel
      → parse_names fuel (name_list utf8 false (map string names)) ≡ map utf8 names
  unfolding name_list parse_names
  parse_list zero [] h k = refl
  parse_list (suc fuel) [] h k = refl
  parse_list zero (s ∷ names) h k =
      absurd (omega (arith, length-append (utf8 s) (0 ∷ name_list utf8 false (map string names))))
  parse_list (suc fuel) (s ∷ names) h k =
      let fits = length-append (utf8 s) (0 ∷ name_list utf8 false (map string names)) in
      let ih = parse_list fuel names h.1 (omega (arith, fits)) in
      cc (ih, parse_name fuel (utf8 s) (name_list utf8 false (map string names)) h.0)

  -- Names that are not empty and have no NUL are read back, in order, from the bytes that a listxattr
  -- handler's array of them is replied to the kernel with.
  pub parse_attribute_list-name_list :
      (names : List String)
      → All (λ s. IsName (utf8 s)) names
      → let bytes = name_list utf8 false (map string names) in
        parse_attribute_list (some bytes) (length bytes) ≡ map utf8 names
  unfolding parse_attribute_list
  parse_attribute_list-name_list names h =
      let bytes = name_list utf8 false (map string names) in
      let whole : parse_names (length bytes) (take (length bytes) bytes) ≡ map utf8 names =
        rw (take_all bytes) (parse_list (length bytes) names h (omega arith)) in
      let nothing : length bytes ≡ 0 → parse_names (length bytes) (take (length bytes) bytes) ≡ [] =
        λ e. rw e (parse_zero _) in
      ground (arith, whole, nothing)

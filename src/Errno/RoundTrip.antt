-- ===== src/Errno/RoundTrip.antt =====
-- Names and codes of src/errno_mapping.cc, there and back.
use Prim.Native.String.{String}
use mathlib.Core.List.{Perm}
use text.Mathlib.Text.{◌==◌ as str_eq}
use fuse_native.Base.{
  ℕ, ◌≡◌, refl, sym, ◌∙◌, not, ◌&&◌, inl, inr, Bool, true, false, some, List, [], ◌∷◌, arith, ap,
  Option-cases, if◌then◌else◌, ◌==◌,
}
use fuse_native.Base.Int.{ℤ, pos, negsuc}
use fuse_native.Errno.{
  find, errno_to_string_map, errno_to_message_map, errno_to_string, errno_to_message,
  is_valid_errno, string_to_errno, is_found,
}
use fuse_native.Errno.Lookup.{find-Memᴰ, agree, agree-Memᴰ, string_to_errno-perm}

names_distinct : agree errno_to_string_map errno_to_string_map ≡ true
unfolding string_to_errno errno_to_string_map
names_distinct = refl

no_unknown : string_to_errno errno_to_string_map "UNKNOWN" ≡ 0
unfolding string_to_errno errno_to_string_map
no_unknown = refl

on_table :
    (err : ℤ)
    → pos (string_to_errno errno_to_string_map (errno_to_string err))
      ≡ (if is_valid_errno err then err else pos 0)
unfolding errno_to_string is_valid_errno
on_table (pos n) = elim (Option-cases (find n errno_to_string_map)) [
  | inl e ↦ rw e (ap pos no_unknown)
  | inr (s, e) ↦ rw e (ap pos (agree-Memᴰ _ _ n s names_distinct (find-Memᴰ n s _ e)))
]
on_table (negsuc n) = ap pos no_unknown

-- For every order in which the unordered_map `errno_to_string_map` may be walked, the name of a code
-- leads back to the code if it is valid, and to 0 if it is not.
pub string_to_errno-errno_to_string :
    (order : List (ℕ × String)) (err : ℤ)
    → Perm order errno_to_string_map
    → pos (string_to_errno order (errno_to_string err))
      ≡ (if is_valid_errno err then err else pos 0)
unfolding errno_to_string is_valid_errno
string_to_errno-errno_to_string order err p =
    ap pos (string_to_errno-perm errno_to_string_map order _ names_distinct p) ∙ on_table err

pub zero_invalid : is_valid_errno (pos 0) ≡ false
unfolding is_valid_errno find errno_to_string_map
zero_invalid = refl

-- A lookup among keys: whether a table has the key.
keys : List (ℕ × String) → List ℕ
keys [] = []
keys ((k, s) ∷ m) = k ∷ keys m

has : ℕ → List ℕ → Bool
has k [] = false
has k (j ∷ js) = if j == k then true else has k js

is_found-find : (k : ℕ) (m : List (ℕ × String)) → is_found (find k m) ≡ has k (keys m)
unfolding find has keys
is_found-find k [] = refl
is_found-find k ((j, s) ∷ m) = ground (arith, is_found-find k m)

keys_alike : keys errno_to_message_map ≡ keys errno_to_string_map
unfolding keys errno_to_string_map errno_to_message_map
keys_alike = refl

has_message :
    (n : ℕ) → is_found (find n errno_to_message_map) ≡ is_found (find n errno_to_string_map)
has_message n =
    is_found-find n _ ∙ ap (has n) keys_alike ∙ sym (is_found-find n errno_to_string_map)

known : String → Bool
known s = not (str_eq s "Unknown error")

all_known : List (ℕ × String) → Bool
all_known [] = true
all_known ((k, s) ∷ m) = known s && all_known m

find-known :
    (k : ℕ) (m : List (ℕ × String)) (s : String)
    → all_known m ≡ true
    → find k m ≡ some s
    → known s ≡ true
unfolding find all_known
find-known k [] s h e = cc
find-known k ((j, v) ∷ m) s h e = ground (arith, find-known k m s)

messages_known : all_known errno_to_message_map ≡ true
unfolding all_known known errno_to_message_map
messages_known = refl

-- A code has a message of its own, other than "Unknown error", exactly when it is valid: the two
-- tables know the same codes.
errno_to_message-is_valid_errno :
    (err : ℤ) → not (str_eq (errno_to_message err) "Unknown error") ≡ is_valid_errno err
unfolding errno_to_message is_valid_errno
errno_to_message-is_valid_errno (pos n) = elim (Option-cases (find n errno_to_message_map)) [
  | inl e ↦ rw (← has_message n, e) refl
  | inr (s, e) ↦ rw (← has_message n, e) (unfold known in find-known n _ s messages_known e)
]
errno_to_message-is_valid_errno (negsuc n) = refl

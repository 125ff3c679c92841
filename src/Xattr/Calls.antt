-- ===== src/Xattr/Calls.antt =====
-- Which system calls the functions of src/xattr_bridge.cc make, and with what.
use fuse_native.Base.{
  ℕ, ◌≡◌, ◌<◌, ◌≤◌, length, refl, Bool, true, false, not, ◌||◌, List, [], ◌∷◌, arith, ◌==◌,
  if◌then◌else◌, All, Option, none, some,
}
use fuse_native.Base.Int.{ℤ, pos, negsuc, negate}
use fuse_native.Errno.{einval}
use fuse_native.Bridge.Js.{
  JsValue, empty, undefined, null, function, boolean, number, bigint, string, array, array_buffer,
  typed_array, object, big_i64,
}
use fuse_native.Xattr.{
  Texts, Kernel, SysCall, getxattr_called, setxattr_called, listxattr_called, removexattr_called,
  Outcome, thrown, value, Ran, c_str, has_nul, is_valid_attribute_name, size_arg, get_big_uint64,
  finish, get_xattr, set_xattr, list_xattr, remove_xattr, utf8_value, minus, buffer_arg, set_bytes,
}

-- A call that asks for a size alone.
abbrev pub AsksSize : SysCall → Type 0
AsksSize (getxattr_called path name size) = size ≡ 0
AsksSize (listxattr_called path size) = size ≡ 0
AsksSize _ = ⊥

-- An exception or one BigInt.
abbrev pub IsNumberOrThrown : Outcome → Type 0
IsNumberOrThrown thrown = Unit
IsNumberOrThrown (value (bigint u i)) = Unit
IsNumberOrThrown (value _) = ⊥

-- From 1 to 255 bytes, none of them NUL.
abbrev pub FitsName : List ℕ → Type 0
FitsName name = (0 < length name) × (length name ≤ 255) × All (λ c. 0 < c) name

-- A call with the argument's text as its name, which fits.
abbrev pub Names : List ℕ → SysCall → Type 0
Names name (getxattr_called path passed size) = (passed ≡ name) × FitsName name
Names name (setxattr_called path passed bytes flags) = (passed ≡ name) × FitsName name
Names name (listxattr_called path size) = ⊥
Names name (removexattr_called path passed) = (passed ≡ name) × FitsName name

size_arg_zero : (vs : List JsValue) → (size_arg vs).0 ≡ 0
unfolding size_arg get_big_uint64
size_arg_zero [] = refl
size_arg_zero (empty ∷ vs) = refl
size_arg_zero (undefined ∷ vs) = refl
size_arg_zero (null ∷ vs) = refl
size_arg_zero (function ∷ vs) = refl
size_arg_zero (boolean b ∷ vs) = refl
size_arg_zero (number n ∷ vs) = refl
size_arg_zero (bigint u i ∷ vs) = refl
size_arg_zero (string s ∷ vs) = refl
size_arg_zero (array xs ∷ vs) = refl
size_arg_zero (array_buffer bytes ∷ vs) = refl
size_arg_zero (typed_array b bytes offset size ∷ vs) = refl
size_arg_zero (object fs ∷ vs) = refl

c_str_whole : (s : List ℕ) → has_nul s ≡ false → c_str s ≡ s
c_str_whole [] h = refl
c_str_whole (c ∷ cs) h = ground (arith, c_str_whole cs)

valid_whole : (s : List ℕ) → is_valid_attribute_name s ≡ true → c_str s ≡ s
unfolding is_valid_attribute_name
valid_whole [] h = refl
valid_whole (c ∷ cs) h = c_str_whole (c ∷ cs) (ground arith)

no_nul : (s : List ℕ) → has_nul s ≡ false → All (λ c. 0 < c) s
no_nul [] h = tt
no_nul (c ∷ cs) h = (ground (arith, h), no_nul cs (ground (arith, h)))

valid_fits : (s : List ℕ) → is_valid_attribute_name s ≡ true → FitsName s
unfolding is_valid_attribute_name
valid_fits [] h = cc
valid_fits (c ∷ cs) h = (omega arith, ground (arith, h), no_nul (c ∷ cs) (ground (arith, h)))

finish_number :
    (pending : Bool) (u : Option ℕ) (i : Option ℤ) → IsNumberOrThrown (finish pending (bigint u i))
finish_number true u i = tt
finish_number false u i = tt

big_i64_number : (z : ℤ) → IsNumberOrThrown (value (big_i64 z))
big_i64_number (pos n) = tt
big_i64_number (negsuc n) = tt

minus_number : (pending : Bool) (errno : ℕ) → IsNumberOrThrown (finish pending (minus errno))
minus_number true errno = tt
minus_number false errno = big_i64_number (negate (pos errno))

-- What GetXAttr and ListXAttr keep to: sizes and numbers.
record Blind (r : Ran) : Type 0 where
  calls : All AsksSize r.0
  outcome : IsNumberOrThrown r.1

Blind-if : (b : Bool) (r s : Ran) → Blind r → Blind s → Blind (if b then r else s)
Blind-if true r s f g = f
Blind-if false r s f g = g

no_call : (o : Outcome) → IsNumberOrThrown o → Blind ([], o)
no_call o h = record { calls = tt; outcome = h }

one_call : (c : SysCall) (o : Outcome) → AsksSize c → IsNumberOrThrown o → Blind (c ∷ [], o)
one_call c o a h = record { calls = (a, tt); outcome = h }

-- An answer to a call whose size is 0.
sized :
    (c : SysCall) (size : ℕ) (failed : Bool) (o p q : Outcome)
    → AsksSize c
    → size ≡ 0
    → IsNumberOrThrown o
    → IsNumberOrThrown p
    → Blind (if failed then (c ∷ [], o) else if size == 0 then (c ∷ [], p) else (c ∷ [], q))
sized c size failed o p q a e h k = rw e (Blind-if failed _ _ (one_call c o a h) (one_call c p a k))

get_xattr-Blind :
    (texts : Texts) (kernel : Kernel) (args : List JsValue) → Blind (get_xattr texts kernel args)
unfolding get_xattr
get_xattr-Blind texts kernel [] = no_call thrown tt
get_xattr-Blind texts kernel (path ∷ []) = no_call thrown tt
get_xattr-Blind texts kernel (path ∷ name ∷ rest) =
    let none_asked = size_arg_zero rest in
    Blind-if (not (is_valid_attribute_name (utf8_value texts.utf8 name).0)) _ _
      (no_call _ (minus_number _ einval))
      (sized _ (size_arg rest).0 _ _ _ _ none_asked none_asked
        (minus_number
          ((utf8_value texts.utf8 path).1 || (utf8_value texts.utf8 name).1 || (size_arg rest).1)
          (kernel.getxattr (c_str (utf8_value texts.utf8 path).0)
            (c_str (utf8_value texts.utf8 name).0) (size_arg rest).0).errno)
        (finish_number _ _ _))

list_xattr-Blind :
    (texts : Texts) (kernel : Kernel) (args : List JsValue) → Blind (list_xattr texts kernel args)
unfolding list_xattr
list_xattr-Blind texts kernel [] = no_call thrown tt
list_xattr-Blind texts kernel (path ∷ rest) =
    let none_asked = size_arg_zero rest in
    sized _ (size_arg rest).0 _ _ _ _ none_asked none_asked
      (minus_number ((utf8_value texts.utf8 path).1 || (size_arg rest).1)
        (kernel.listxattr (c_str (utf8_value texts.utf8 path).0) (size_arg rest).0).errno)
      (finish_number _ _ _)

-- Whatever the arguments are, GetXAttr and ListXAttr ask the system for sizes only, and give JavaScript
-- an exception or a number: a size that is a number throws, any other is not looked at.
pub get_xattr-AsksSize :
    (texts : Texts) (kernel : Kernel) (args : List JsValue)
    → All AsksSize (get_xattr texts kernel args).0
      × IsNumberOrThrown (get_xattr texts kernel args).1
      × All AsksSize (list_xattr texts kernel args).0
      × IsNumberOrThrown (list_xattr texts kernel args).1
get_xattr-AsksSize texts kernel args = (
  (get_xattr-Blind texts kernel args).calls,
  (get_xattr-Blind texts kernel args).outcome,
  (list_xattr-Blind texts kernel args).calls,
  (list_xattr-Blind texts kernel args).outcome,
)

-- What the functions on one attribute keep to.
record Named (name : List ℕ) (r : Ran) : Type 0 where
  calls : All (Names name) r.0

Named-if :
    {name : List ℕ} (b : Bool) (r s : Ran)
    → (b ≡ true → Named name r)
    → (b ≡ false → Named name s)
    → Named name (if b then r else s)
Named-if true r s f g = f refl
Named-if false r s f g = g refl

-- No call with a name that is not valid, and else this one, whatever comes of it.
Named-sized :
    (name : List ℕ) (c : SysCall) (failed sized : Bool) (n o p q : Outcome)
    → (is_valid_attribute_name name ≡ true → Names name c)
    → Named name (
        if not (is_valid_attribute_name name)
        then ([], n)
        else if failed
        then (c ∷ [], o)
        else if sized
        then (c ∷ [], p)
        else (c ∷ [], q))
Named-sized name c failed sized n o p q h =
    let made = λ (o : Outcome) (e : not (is_valid_attribute_name name) ≡ false).
      let r : Named name (c ∷ [], o) = record { calls = (h (ground arith), tt) } in r in
    Named-if _ _ _ (λ e. record { calls = tt })
      (λ e.
        Named-if failed _ _ (λ f. made o e)
          (λ f. Named-if sized _ _ (λ g. made p e) (λ g. made q e)))

Named-once :
    (name : List ℕ) (c : SysCall) (failed : Bool) (n o q : Outcome)
    → (is_valid_attribute_name name ≡ true → Names name c)
    → Named name (
        if not (is_valid_attribute_name name)
        then ([], n)
        else if failed
        then (c ∷ [], o)
        else (c ∷ [], q))
Named-once name c failed n o q h = Named-sized name c failed false n o n q h

-- The name that the system reads is the argument's, since a valid one has no NUL.
passed_whole :
    (name : List ℕ) → is_valid_attribute_name name ≡ true → (c_str name ≡ name) × FitsName name
passed_whole name h = (valid_whole name h, valid_fits name h)

module _ (texts : Texts) (kernel : Kernel) (path name : JsValue) where
  abbrev text : List ℕ
  text = (utf8_value texts.utf8 name).0

  get_xattr-Named : (rest : List JsValue) → Named text (get_xattr texts kernel (path ∷ name ∷ rest))
  unfolding get_xattr
  get_xattr-Named rest = search (Named-sized, passed_whole)

  set_bytes-Named :
      (bytes : List ℕ) (flags : JsValue) → Named text (set_bytes texts kernel path name bytes flags)
  unfolding set_bytes
  set_bytes-Named bytes flags = search (Named-once, passed_whole)

  set_xattr-Named : (rest : List JsValue) → Named text (set_xattr texts kernel (path ∷ name ∷ rest))
  unfolding set_xattr
  set_xattr-Named [] = record { calls = tt }
  set_xattr-Named (v ∷ []) = record { calls = tt }
  set_xattr-Named (v ∷ flags ∷ rest) =
      elim (buffer_arg v)
        as (λ o. Named text (elim o [
          | none ↦ ([], thrown)
          | some bytes ↦ set_bytes texts kernel path name bytes flags
        ])) [ none ↦ record { calls = tt } | some bytes ↦ set_bytes-Named bytes flags ]

  remove_xattr-Named :
      (rest : List JsValue) → Named text (remove_xattr texts kernel (path ∷ name ∷ rest))
  unfolding remove_xattr
  remove_xattr-Named rest = search (Named-once, passed_whole)

-- The calls of GetXAttr, SetXAttr and RemoveXAttr pass on the name that they were given, and only where it
-- has from 1 to 255 bytes, none of them NUL.
pub xattr-Names :
    (texts : Texts) (kernel : Kernel) (path name : JsValue) (rest : List JsValue)
    → let args = path ∷ name ∷ rest in
      let text = (utf8_value texts.utf8 name).0 in
      All (Names text) (get_xattr texts kernel args).0
      × All (Names text) (set_xattr texts kernel args).0
      × All (Names text) (remove_xattr texts kernel args).0
xattr-Names texts kernel path name rest = (
  (get_xattr-Named texts kernel path name rest).calls,
  (set_xattr-Named texts kernel path name rest).calls,
  (remove_xattr-Named texts kernel path name rest).calls,
)

-- ===== src/Xattr/Tests.antt =====
-- Runs of the models of src/xattr_bridge.cc.
use Prim.Native.Char.{code}
use Prim.Native.String.{String}
use fuse_native.Base.{ℕ, ◌≡◌, refl, true, false, some, List, [], ◌∷◌, length, map, All}
use fuse_native.Base.Int.{pos, negsuc}
use fuse_native.Bridge.Js.{JsValue, string, of_nat, number, typed_array}
use fuse_native.Bridge.Xattrs.{name_list}
use fuse_native.Xattr.{
  Texts, Kernel, parse_attribute_list, parse_names, get_xattr, set_xattr, set_bytes, remove_xattr,
  list_xattr, setxattr_called, is_valid_attribute_name, get_int32, convert_xattr_flags,
}
use fuse_native.Xattr.Names.{IsName, parse_attribute_list-name_list}
use fuse_native.Xattr.Calls.{AsksSize, IsNumberOrThrown, Names, get_xattr-AsksSize, xattr-Names}

abbrev ascii : String → List ℕ
ascii String.[] = []
ascii (String.◌∷◌ c s) = code c ∷ ascii s

abbrev texts : Texts
texts = record { utf8 = ascii; decode = λ bytes. "name" }

abbrev kernel : Kernel
kernel = record {
  getxattr = λ path name size. record { result = pos 3; errno = 0; written = 1 ∷ 2 ∷ 3 ∷ [] };
  setxattr = λ path name bytes flags. record { result = pos 0; errno = 0; written = [] };
  listxattr = λ path size. record { result = negsuc 0; errno = 13; written = [] };
  removexattr = λ path name. record { result = negsuc 0; errno = 61; written = [] };
}

abbrev set_args : List JsValue
set_args =
    string "/f" ∷ string "user.a" ∷ typed_array true (9 ∷ 8 ∷ 7 ∷ []) 1 2 ∷ number (of_nat 1) ∷ []

set_lem :
    (set_xattr texts kernel set_args).0
    ≡ setxattr_called (ascii "/f") (ascii "user.a") (8 ∷ 7 ∷ []) (pos 1) ∷ []
unfolding set_xattr set_bytes is_valid_attribute_name get_int32 convert_xattr_flags
set_lem = refl

-- An empty name ends the list.
cut_short : parse_attribute_list (some (97 ∷ 0 ∷ 0 ∷ 98 ∷ 0 ∷ [])) 5 ≡ (97 ∷ []) ∷ []
unfolding parse_attribute_list parse_names
cut_short = refl

abbrev two_names : List String
two_names = "user.a" ∷ "user.b" ∷ []

two_names-IsName : All (λ s. IsName (ascii s)) two_names
two_names-IsName = ((λ e. absurd (cc), refl), ((λ e. absurd (cc), refl), tt))

parse_attribute_list-name_list_example :
    let bytes = name_list ascii false (map string two_names) in
    parse_attribute_list (some bytes) (length bytes) ≡ map ascii two_names
parse_attribute_list-name_list_example =
    parse_attribute_list-name_list ascii two_names two_names-IsName

abbrev get_args : List JsValue
get_args = string "/f" ∷ string "user.a" ∷ number (of_nat 64) ∷ []

get_xattr-AsksSize_example :
    All AsksSize (get_xattr texts kernel get_args).0
    × IsNumberOrThrown (get_xattr texts kernel get_args).1
    × All AsksSize (list_xattr texts kernel get_args).0
    × IsNumberOrThrown (list_xattr texts kernel get_args).1
get_xattr-AsksSize_example = get_xattr-AsksSize texts kernel get_args

abbrev set_rest : List JsValue
set_rest = typed_array true (9 ∷ []) 0 1 ∷ number (of_nat 1) ∷ []

xattr-Names_example :
    All
      (Names (ascii "user.a"))
      (get_xattr texts kernel (string "/f" ∷ string "user.a" ∷ set_rest)).0
    × All
        (Names (ascii "user.a"))
        (set_xattr texts kernel (string "/f" ∷ string "user.a" ∷ set_rest)).0
    × All
        (Names (ascii "user.a"))
        (remove_xattr texts kernel (string "/f" ∷ string "user.a" ∷ set_rest)).0
xattr-Names_example = xattr-Names texts kernel (string "/f") (string "user.a") set_rest

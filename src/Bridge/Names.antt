-- ===== src/Bridge/Names.antt =====
-- The names of the operations of src/fuse_bridge.cc, and their places in the enumeration.
use text.Mathlib.Text.{◌==◌ as str_eq}
use text.Mathlib.TextEquality.{eq_iff}
use fuse_native.Base.{ℕ, zero, suc, ◌≡◌, refl, sym, ap, ◌∙◌, true, List, [], ◌∷◌, ==_iff}
use fuse_native.Bridge.{
  FuseOpType, op_code, same_op, string_to_fuse_op_type, fuse_op_type_to_string, find_name,
  find_type, op_init, op_destroy, op_forget, op_forget_multi, op_lookup, op_getattr, op_setattr,
  op_readlink, op_mknod, op_mkdir, op_unlink, op_rmdir, op_symlink, op_rename, op_link, op_setxattr,
  op_getxattr, op_listxattr, op_removexattr, op_open, op_read, op_write, op_write_buf, op_read_buf,
  op_flush, op_release, op_fsync, op_fallocate, op_lseek, op_copy_file_range, op_opendir,
  op_readdir, op_readdirplus, op_releasedir, op_fsyncdir, op_statfs, op_access, op_create, op_bmap,
  op_ioctl, op_poll, op_flock, op_getlk, op_setlk, op_retrieve_reply, op_truncate, op_chmod,
  op_chown, op_unknown,
}

-- The name of every operation leads back to it.
pub string_to_fuse_op_type-fuse_op_type_to_string :
    (type : FuseOpType) → string_to_fuse_op_type (fuse_op_type_to_string type) ≡ type
unfolding string_to_fuse_op_type fuse_op_type_to_string find_name find_type
string_to_fuse_op_type-fuse_op_type_to_string op_init = refl
string_to_fuse_op_type-fuse_op_type_to_string _ = refl

-- An alias with a capital is not found, since the name that is looked up is in lower case.
alias_unreached : string_to_fuse_op_type "copyFileRange" ≡ op_unknown
unfolding string_to_fuse_op_type find_name
alias_unreached = refl

abbrev operations : List FuseOpType
operations =
    op_init ∷ op_destroy ∷ op_forget ∷ op_forget_multi ∷ op_lookup ∷ op_getattr ∷ op_setattr
    ∷ op_readlink ∷ op_mknod ∷ op_mkdir ∷ op_unlink ∷ op_rmdir ∷ op_symlink ∷ op_rename ∷ op_link
    ∷ op_setxattr ∷ op_getxattr ∷ op_listxattr ∷ op_removexattr ∷ op_open ∷ op_read ∷ op_write
    ∷ op_write_buf ∷ op_read_buf ∷ op_flush ∷ op_release ∷ op_fsync ∷ op_fallocate ∷ op_lseek
    ∷ op_copy_file_range ∷ op_opendir ∷ op_readdir ∷ op_readdirplus ∷ op_releasedir ∷ op_fsyncdir
    ∷ op_statfs ∷ op_access ∷ op_create ∷ op_bmap ∷ op_ioctl ∷ op_poll ∷ op_flock ∷ op_getlk
    ∷ op_setlk ∷ op_retrieve_reply ∷ op_truncate ∷ op_chmod ∷ op_chown ∷ op_unknown ∷ []

abbrev nth : ℕ → List FuseOpType → FuseOpType
nth i [] = op_unknown
nth zero (type ∷ types) = type
nth (suc i) (type ∷ types) = nth i types

nth-op_code : (type : FuseOpType) → nth (op_code type) operations ≡ type
nth-op_code op_init = refl
nth-op_code _ = refl

pub same_op-eq : (a b : FuseOpType) → same_op a b ≡ true → a ≡ b
same_op-eq a b h =
    sym (nth-op_code a)
    ∙ ap (λ (n : ℕ). nth n operations) ((==_iff (op_code a) (op_code b)).0 h)
    ∙ nth-op_code b

pub same_op_refl : (a : FuseOpType) → same_op a a ≡ true
same_op_refl a = (==_iff (op_code a) (op_code a)).1 refl

-- Operations with one name are one operation.
pub fuse_op_type_to_string-eq :
    (a b : FuseOpType) → str_eq (fuse_op_type_to_string a) (fuse_op_type_to_string b) ≡ true → a ≡ b
fuse_op_type_to_string-eq a b h =
    sym (string_to_fuse_op_type-fuse_op_type_to_string a)
    ∙ ap string_to_fuse_op_type ((eq_iff _ _).0 h)
    ∙ string_to_fuse_op_type-fuse_op_type_to_string b

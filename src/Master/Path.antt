-- ===== src/Master/Path.antt =====
-- SanitizeKey, ResolvePath and GetFsdir (mooncake-store/src/master_service.cpp).
pub mod Clean
use Prim.Native.Char.{Char, code}
use Prim.Native.String as Text
use mooncake.Prelude.{
  ℕ, ◌%◌, ◌/◌, String, ◌||◌, List, [], ◌∷◌, if◌then◌else◌, contains, get_or, nat_eq, string_eq,
  ◌==◌,
}
use mooncake.Types.{Expected, ok}
use mooncake.Master.{Env, Config}

-- kInvalidChars: / \ : * ? " < > |
abbrev pub invalid_chars : List ℕ
invalid_chars = 47 ∷ 92 ∷ 58 ∷ 42 ∷ 63 ∷ 34 ∷ 60 ∷ 62 ∷ 124 ∷ []

abbrev pub sanitize_char : Char → Char
sanitize_char c = if contains invalid_chars (code c) then "_" else c

-- SanitizeKey
unfoldable pub sanitize_key : String → String
sanitize_key Text.[] = ""
sanitize_key (Text.◌∷◌ c s) = Text.◌∷◌ (sanitize_char c) (sanitize_key s)

-- The directories 'a' to 'p', for four bits of the hash.
abbrev pub dir_names : List String
dir_names =
    "a" ∷ "b" ∷ "c" ∷ "d" ∷ "e" ∷ "f" ∷ "g" ∷ "h" ∷ "i" ∷ "j" ∷ "k" ∷ "l" ∷ "m" ∷ "n" ∷ "o" ∷ "p"
    ∷ []

-- ResolvePath
unfoldable pub resolve_path : {S : Type 0} → Env S → Config → String → String
unfolding sanitize_key
resolve_path env c key =
    let hash = env.hash key in
    let dir1 = get_or dir_names (hash % 16) "" in
    let dir2 = get_or dir_names (hash / 16 % 16) "" in
    let dir_path = env.path_join dir1 dir2 in
    env.lexically_normal (
      env.path_join (env.path_join (env.path_join c.root_fs_dir c.cluster_id) dir_path)
        (sanitize_key key))

-- GetFsdir
unfoldable pub get_fsdir : Config → Expected String
get_fsdir c =
    if c.root_fs_dir == "" || c.cluster_id == ""
    then ok ""
    else ok (Text.◌++◌ (Text.◌++◌ c.root_fs_dir "/") c.cluster_id)

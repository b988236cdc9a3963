-- ===== src/BuildScript.antt =====
-- build.rs: what cargo is told, and the link to librados that is made beforehand. Which files exist
-- is a parameter.
use Prim.Native.String.{String}
use librados_rs.Base.{
  ◌≡◌, Bool, true, false, List, [], ◌∷◌, ◌++◌, Option, none, some, if◌then◌else◌,
}
use librados_rs.Error.{Outcome, ok, panic}

-- An effect of the script. A failure of the first two is ignored.
pub data Action : Type 0 where
  remove_file : (dir name : String) → Action
  symlink : (target dir name : String) → Action
  link_search link_lib : String → Action

abbrev pub candidate_paths : List String
candidate_paths =
    "/lib64/librados.so.2" ∷ "/usr/lib64/librados.so.2" ∷ "/usr/lib/x86_64-linux-gnu/librados.so.2"
    ∷ "/usr/lib/aarch64-linux-gnu/librados.so.2" ∷ []

-- `find` of an iterator.
unfoldable pub find : (String → Bool) → List String → Option String
find exists [] = none
find exists (s ∷ ss) = let rest = find exists ss in if exists s then some s else rest

-- `if let Some(target) = link_target`
unfoldable pub link_target : (out_dir : String) → Option String → List Action
link_target out_dir none = []
link_target out_dir (some target) =
    remove_file out_dir "librados.so"
    ∷ symlink target out_dir "librados.so"
    ∷ link_search out_dir
    ∷ []

-- An unset OUT_DIR panics.
unfoldable pub main : (exists : String → Bool) → (out_dir : Option String) → Outcome (List Action)
unfolding find link_target
main exists none = panic
main exists (some out_dir) =
    ok (link_target out_dir (find exists candidate_paths) ++ link_lib "rados" ∷ [])

abbrev NoneExists : (String → Bool) → List String → Type 0
NoneExists exists [] = Unit
NoneExists exists (s ∷ ss) = (exists s ≡ false) × NoneExists exists ss

-- The first path that exists is the one that is found.
find-skips :
    (exists : String → Bool) (before after : List String) (s : String)
    → NoneExists exists before
    → exists s ≡ true
    → find exists (before ++ s ∷ after) ≡ some s
unfolding find
find-skips exists [] after s none_before h = rw h
find-skips exists (b ∷ before) after s none_before h =
    rw none_before.0 (find-skips exists before after s none_before.1 h)

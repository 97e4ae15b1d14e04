-- ===== src/Build.antt =====
-- build.rs, the build script: where it looks for UCX, which bindings the crate is built with, and
-- how it checks the version of UCX. The file system, bindgen, the compiler and the program that is
-- compiled are those of a `Host`.
pub mod Reading
pub mod Decimal
pub mod Output
pub mod Validation
use Prim.Native.String.{String}
use ucx_rs.Base.{
  ℕ, ◌+◌, ◌/◌, ◌%◌, Bool, true, false, ◌&&◌, ◌||◌, Option, none, some, List, [], ◌∷◌, ◌++◌, ltb,
  ◌==◌, if◌then◌else◌,
}
use Reading.{Text, lines, split, starts_with, trim_start_matches, parse_u32, dot}

-- A path, as the pieces that are joined.
abbrev pub FilePath : Type 0
FilePath = List String

abbrev join : FilePath → String → FilePath
join p piece = p ++ piece ∷ []

-- The environment variables, and how what the script starts turns out: `none` is a program that
-- cannot be started.
pub record Host : Type 0 where
  pub ucx_prefix : Option FilePath
  pub ucx_include_dir : Option FilePath
  pub ucx_lib_dir : Option FilePath
  pub generate_bindings : Option Text
  pub out_dir : Option FilePath
  pub exists : FilePath → Bool
  pub copies : Bool
  pub generates : Bool
  pub writes_bindings : Bool
  pub writes_check : Bool
  pub cc : Option Bool
  pub check_output : Option Text

abbrev dirs : FilePath → FilePath × FilePath
dirs p = (join p "include", join p "lib")

-- Whether UCX seems to be under a directory.
unfoldable pub is_there : Host → FilePath → Bool
is_there host c =
    let (inc, lib) = dirs c in
    host.exists (join (join (join inc "ucp") "api") "ucp.h")
    || host.exists (join inc "ucp.h")
    || host.exists (join lib "libucp.so")

unfoldable pub first_there : Host → List FilePath → FilePath × FilePath
first_there host [] = ("/usr/include" ∷ [], "/usr/lib" ∷ [])
first_there host (c ∷ cs) =
    let rest = first_there host cs in if is_there host c then dirs c else rest

abbrev from_dirs : Host → Option FilePath → Option FilePath → FilePath × FilePath
from_dirs host (some include) (some lib) = (include, lib)
from_dirs host _ _ = first_there host (("/usr" ∷ []) ∷ ("/usr/local" ∷ []) ∷ ("/opt/ucx" ∷ []) ∷ [])

unfoldable pub discover_ucx : Host → FilePath × FilePath
discover_ucx host = elim host.ucx_prefix [
  | some prefix ↦ dirs prefix
  | none ↦ from_dirs host host.ucx_include_dir host.ucx_lib_dir
]

abbrev min_major : ℕ
min_major = 1

abbrev min_minor : ℕ
min_minor = 19

abbrev max_major : ℕ
max_major = 1

abbrev max_minor : ℕ
max_minor = 22

-- How the check of the version ends: it is skipped, it panics, or the version is in the range.
pub data Verdict : Type 0 where
  unreadable : Verdict
  below_minimum above_maximum supported : ℕ → ℕ → Verdict

unfoldable pub judge : ℕ → ℕ → Verdict
judge major minor =
    if ltb major min_major || (major == min_major && ltb minor min_minor)
    then below_minimum major minor
    else if ltb max_major major || (major == max_major && ltb max_minor minor)
    then above_maximum major minor
    else supported major minor

abbrev judge_parsed : Option ℕ → Option ℕ → Verdict
judge_parsed (some major) (some minor) = judge major minor
judge_parsed _ _ = unreadable

abbrev judge_parts : List Text → Verdict
judge_parts (major ∷ minor ∷ release ∷ rest) = judge_parsed (parse_u32 major) (parse_u32 minor)
judge_parts _ = unreadable

-- "UCX_VERSION=" and "UCX_VERSION=0.0.0".
abbrev pub version_prefix : Text
version_prefix =
    b'U' ∷ b'C' ∷ b'X' ∷ b'_' ∷ b'V' ∷ b'E' ∷ b'R' ∷ b'S' ∷ b'I' ∷ b'O' ∷ b'N' ∷ b'=' ∷ []

abbrev no_version : Text
no_version = version_prefix ++ b'0' ∷ dot ∷ b'0' ∷ dot ∷ b'0' ∷ []

-- `find` and `unwrap_or`.
unfoldable pub version_line : List Text → Text
version_line [] = no_version
version_line (l ∷ ls) =
    let rest = version_line ls in if starts_with version_prefix l then l else rest

unfoldable pub check_version : Text → Verdict
unfolding version_line
check_version output =
    judge_parts (split dot (trim_start_matches version_prefix (version_line (lines output))))

-- How the script ends. A panic is that of an `expect` or `unwrap`, or of the version.
pub data Ending : Type 0 where
  built : Ending
  broken : Ending
  rejected : Verdict → Ending

abbrev pub by_verdict : Verdict → Ending
by_verdict unreadable = built
by_verdict (below_minimum major minor) = rejected (below_minimum major minor)
by_verdict (above_maximum major minor) = rejected (above_maximum major minor)
by_verdict (supported major minor) = built

-- The program is compiled and run; if it does not compile, the check is skipped.
abbrev pub run_check : Host → Option Bool → Ending
run_check host none = broken
run_check host (some false) = built
run_check host (some true) = elim host.check_output [
  | none ↦ broken
  | some output ↦ by_verdict (check_version output)
]

abbrev validate : Host → Ending
validate host = if host.writes_check then run_check host host.cc else broken

-- What is copied or written to `OUT_DIR`: fresh bindings, or the committed file.
abbrev pub provide : Host → Bool
provide host = if host.generates then host.writes_bindings else host.copies

abbrev pub generate : Host → Bool → Ending
generate host false = if host.copies then built else broken
generate host true = if provide host then validate host else broken

abbrev pub asked : Option Text → Bool
asked (some (c ∷ [])) = c == b'1'
asked _ = false

unfoldable pub main : Host → Ending
main host = elim host.out_dir [
  | none ↦ broken
  | some dir ↦ generate host (asked host.generate_bindings)
]

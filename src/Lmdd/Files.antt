-- ===== src/Lmdd/Files.antt =====
-- The files of src/lmdd.c: `getfile`, for `if=` and `of=`.
use qnx_lmbench_mods.Base.{
  ℕ, Bool, true, false, not, ◌||◌, Option, none, some, List, [], ◌∷◌, length, drop, ◌==◌,
  if◌then◌else◌,
}
use qnx_lmbench_mods.Base.Int.{ℤ, pos, negsuc}
use qnx_lmbench_mods.Lmdd.Args.{Str, codes, starts_with}
use qnx_lmbench_mods.Lmdd.Args.Laws.{same}
use qnx_lmbench_mods.Lmdd.Settings.{given}

-- How a file is opened: `O_WRONLY`, `O_TRUNC`, `O_CREAT`, `O_APPEND`, `O_SYNC`.
pub record Flags : Type 0 where
  pub write_only : Bool
  pub truncate : Bool
  pub create : Bool
  pub append : Bool
  pub osync : Bool

-- What `getfile` comes to: a file descriptor, -2 for the internal file, with the name that `flush` is
-- to use; or the end of the process, as the file cannot be opened.
pub data Found : Type 0 where
  found : (fd : ℤ) (output : Option Str) → Found
  cannot_open : Str → Found

-- Is it one of these texts?
pub is_one_of : List Str → Str → Bool
is_one_of [] a = false
is_one_of (t ∷ ts) a = if same t a then true else is_one_of ts a

-- `oflags`
pub output_flags : (arg : Str → ℕ) → Flags
output_flags arg =
    let append = given (arg (codes "append=")) in
    record {
      write_only = true;
      truncate = not (given (arg (codes "notrunc=")) || append);
      create = not (given (arg (codes "nocreate=")));
      append = append;
      osync = given (arg (codes "osync="));
    }

abbrev pub read_only : Flags
read_only = record {
  write_only = false;
  truncate = false;
  create = false;
  append = false;
  osync = false;
}

-- `ret == -1`
abbrev opened : (fd : ℤ) (path : Str) (output : Option Str) → Found
opened (pos n) path output = found (pos n) output
opened (negsuc n) path output = if n == 0 then cannot_open path else found (negsuc n) output

-- `of=`, for the argument `a`; `path` is its text.
pub output_file : (open_file : Str → Flags → ℤ) (arg : Str → ℕ) (a path : Str) → Found
output_file open_file arg a path =
    if same (codes "of=internal") a
    then found (negsuc 1) none
    else if is_one_of (codes "of=stdout" ∷ codes "of=1" ∷ codes "of=-" ∷ []) a
    then found (pos 1) none
    else if is_one_of (codes "of=stderr" ∷ codes "of=2" ∷ []) a
    then found (pos 2) none
    else opened (open_file path (output_flags arg)) path (some path)

-- `if=`
pub input_file : (open_file : Str → Flags → ℤ) (a path : Str) → Found
input_file open_file a path =
    if same (codes "if=internal") a
    then found (negsuc 1) none
    else if is_one_of (codes "if=stdin" ∷ codes "if=0" ∷ codes "if=-" ∷ []) a
    then found (pos 0) none
    else opened (open_file path read_only) path none

-- `av[i][0] == 'o'`
abbrev is_output : Str → Bool
is_output [] = false
is_output (c ∷ a) = c == b'o'

pub getfile_from : (open_file : Str → Flags → ℤ) (arg : Str → ℕ) (s : Str) → List Str → Found
getfile_from open_file arg s [] = found (negsuc 1) none
getfile_from open_file arg s (a ∷ av) =
    let path = drop (length s) a in
    if starts_with a s
    then (if is_output a then output_file open_file arg a path else input_file open_file a path)
    else getfile_from open_file arg s av

-- `getfile(s, ac, av)`; `arg` is what `getarg` returns.
pub getfile : (open_file : Str → Flags → ℤ) (arg : Str → ℕ) (s : Str) (av : List Str) → Found
getfile open_file arg s av = getfile_from open_file arg s (drop 1 av)

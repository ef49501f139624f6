-- ===== src/Lmdd/Args.antt =====
-- The arguments of src/lmdd.c, each `name=value`: `cmds`, `chkarg`, `getarg`.
pub mod Laws
pub mod Checked
use Prim.Native.Char.{code}
use Prim.Native.String.{String}
use qnx_lmbench_mods.Base.{
  ℕ, zero, suc, ◌+◌, ◌-◌, Bool, true, false, Option, none, some, List, [], ◌∷◌, map, length, drop,
  ◌==◌, if◌then◌else◌,
}
use qnx_lmbench_mods.Clock.{u64}
use qnx_lmbench_mods.Sizes.{bytes}

abbrev pub Str : Type 0
Str = List ℕ

-- The bytes of a text in ASCII.
abbrev pub codes : String → Str
codes String.[] = []
codes (String.◌∷◌ c s) = code c ∷ codes s

-- `cmds[]`
unfoldable pub cmds : List Str
cmds = map codes (
    "bs" ∷ "bufs" ∷ "count" ∷ "flush" ∷ "fork" ∷ "fsync" ∷ "if" ∷ "ipat" ∷ "label" ∷ "mismatch"
    ∷ "move" ∷ "of" ∷ "opat" ∷ "print" ∷ "rand" ∷ "poff" ∷ "skip" ∷ "sync" ∷ "touch" ∷ "usleep"
    ∷ "hash" ∷ "append" ∷ "rtmax" ∷ "wtmax" ∷ "rtmin" ∷ "wtmin" ∷ "realtime" ∷ "notrunc" ∷ "end"
    ∷ "start" ∷ "time" ∷ "srand" ∷ "padin" ∷ "norepeat" ∷ "timeopen" ∷ "nocreate" ∷ "osync" ∷ [])

-- `for (a = arg, b = cmds[i]; *a && *b && *a == *b; a++, b++)`: where `a` stops.
pub common : (a b : Str) → Str
common [] b = []
common (x ∷ a) [] = x ∷ a
common (x ∷ a) (y ∷ b) = if x == y then common a b else x ∷ a

-- `*a == '='`
pub at_equals : Str → Bool
at_equals [] = false
at_equals (x ∷ a) = x == b'='

-- `chkarg(arg)`: does it return? (If not, it ends the process with status 1.)
pub chkarg_in : List Str → Str → Bool
chkarg_in [] arg = false
chkarg_in (c ∷ cs) arg = if at_equals (common arg c) then true else chkarg_in cs arg

pub chkarg : Str → Bool
chkarg = chkarg_in cmds

-- `for (i = 1; i < ac; ++i) chkarg(av[i]);`
pub chkargs : List Str → Bool
chkargs [] = true
chkargs (a ∷ av) = if chkarg a then chkargs av else false

-- `!strncmp(a, s, strlen(s))`
pub starts_with : (a s : Str) → Bool
starts_with a [] = true
starts_with [] (y ∷ s) = false
starts_with (x ∷ a) (y ∷ s) = if x == y then starts_with a s else false

-- `getarg(s, ac, av)` from `av[i]` on. `scan` is what `sscanf` reads as a number, and `address i` is
-- where the text `av[i]` lies: the value of `label=` is the address of its text. -1 if there is no such
-- argument.
pub getarg_from : (scan : Str → Option ℕ) (address : ℕ → ℕ) (i : ℕ) (s : Str) → List Str → Option ℕ
getarg_from scan address i s [] = some (u64 - 1)
getarg_from scan address i s (a ∷ av) =
    if starts_with a s
    then (if starts_with a (codes "label=")
        then some (address i + length s)
        else bytes scan (drop (length s) a))
    else getarg_from scan address (i + 1) s av

pub getarg : (scan : Str → Option ℕ) (address : ℕ → ℕ) (s : Str) (av : List Str) → Option ℕ
unfolding getarg_from
getarg scan address s av = getarg_from scan address 1 s (drop 1 av)

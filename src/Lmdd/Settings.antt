-- ===== src/Lmdd/Settings.antt =====
-- How src/lmdd.c sets itself up from its arguments, up to its loop.
pub mod Ready
use Prim.Native.Nat.{bit_and}
use qnx_lmbench_mods.Base.{
  ℕ, ◌+◌, ◌-◌, ◌*◌, ◌/◌, ◌%◌, ◌^◌, Bool, true, false, not, ◌&&◌, ◌||◌, ltb, ◌==◌, if◌then◌else◌,
}
use qnx_lmbench_mods.Base.Int.{ℤ, pos, negsuc, ltb_ℤ}
use qnx_lmbench_mods.Clock.{u64}
use qnx_lmbench_mods.Lmdd.Args.{Str, codes}
use qnx_lmbench_mods.Lmdd.Pattern.{is_zero, is_minus_one}

-- `(int)v` of an unsigned 64-bit value.
unfoldable pub to_int : ℕ → ℤ
to_int v = if ltb (v % 2 ^ 32) (2 ^ 31) then pos (v % 2 ^ 32) else negsuc (2 ^ 32 - 1 - v % 2 ^ 32)

-- `(uint64)-1`, which `getarg` returns for an argument that is not there.
abbrev pub absent : ℕ
absent = u64 - 1

-- `v != -1` of an unsigned 64-bit value and of an int.
abbrev pub given : ℕ → Bool
given v = not (v == absent)

abbrev pub given_int : ℤ → Bool
given_int v = not (is_minus_one v)

-- `ALIGN(x, bs)`
unfoldable pub align : (x bs : ℕ) → ℕ
align x bs = bit_and ((x + bs + u64 - 1) % u64) ((u64 - bs) % u64)

-- The variables of `main` and the globals that its loop and `done` read. The file descriptors are
-- negative for no file.
pub record Settings : Type 0 where
  pub bsize : ℕ
  pub mismatch : ℤ
  pub inpat : ℤ
  pub outpat : ℤ
  pub slp : ℤ
  pub fork : ℤ
  pub fsync : ℤ
  pub sync : ℤ
  pub flush : ℤ
  pub rand : ℕ
  pub start : ℕ
  pub end : ℕ
  pub poff : Bool
  pub print : ℤ
  pub nbufs : ℤ
  pub rtmax : ℤ
  pub rtmin : ℤ
  pub wtmax : ℤ
  pub wtmin : ℤ
  pub pad_in : ℤ
  pub touch : Bool
  pub hash : Bool
  pub count : ℕ
  pub gotcnt : Bool
  pub size : ℕ
  pub skip : ℕ
  pub norepeat : Bool
  pub input : ℤ
  pub output : ℤ

-- The messages with which `main` ends the process with status 1.
pub data Refusal : Type 0 where
  need_max min_above_max too_many_bufs unaligned small_block no_buffer only_writes only_reads :
      Refusal

-- `fault` is the division by a block size of 0.
pub data Parsed : Type 0 where
  ready : Settings → Parsed
  refuses : Refusal → Parsed
  fault : Parsed

-- `if (Bsize < 0) Bsize = 8192;`
unfoldable pub block_size : ℤ → ℕ
block_size (pos n) = n
block_size (negsuc n) = 8192

-- `if ((max != -1) && (max < 10)) max = 10;`
unfoldable pub clamp_max : ℤ → ℤ
clamp_max max = if given_int max && ltb_ℤ max (pos 10) then pos 10 else max

-- `if ((max != -1) && (min == -1)) min = 0;`
unfoldable pub clamp_min : (max min : ℤ) → ℤ
clamp_min max min = if given_int max && is_minus_one min then pos 0 else min

-- `if ((End != -1) && (Rand != -1) && (End > Rand)) End = Rand;`
unfoldable pub clamp_end : (end rand : ℕ) → ℕ
clamp_end end rand = if given end && given rand && ltb rand end then rand else end

-- `nonzero` of C.
abbrev nonzero : ℤ → Bool
nonzero v = not (is_zero v)

-- The checks of `main` in its order, and what remains to do if none fails.
unfoldable pub checked : (bufs_fit sized : Bool) → Settings → Parsed
checked bufs_fit sized s =
    if (nonzero s.rtmin && is_zero s.rtmax) || (nonzero s.wtmin && is_zero s.wtmax)
    then refuses need_max
    else if ltb_ℤ s.rtmax s.rtmin || ltb_ℤ s.wtmax s.wtmin
    then refuses min_above_max
    else if ltb_ℤ (pos 10) s.nbufs
    then refuses too_many_bufs
    else if sized && s.bsize == 0
    then fault
    else if (given_int s.inpat || given_int s.outpat) && not (s.bsize % 4 == 0)
    then refuses unaligned
    else if s.bsize / 4 == 0
    then refuses small_block
    else if not bufs_fit
    then refuses no_buffer
    else if given_int s.rtmax && ltb_ℤ s.input (pos 0)
    then refuses only_writes
    else if given_int s.wtmax && ltb_ℤ s.output (pos 0)
    then refuses only_reads
    else ready s

-- The variables after the assignments of `main`; `arg` is what `getarg` returns, and `input` and
-- `output` what `getfile` does.
unfoldable pub assigned : (arg : Str → ℕ) (input output : ℤ) → Settings
assigned arg input output =
    let bsize = block_size (to_int (arg (codes "bs="))) in
    let rand = arg (codes "rand=") in
    let rtmax = clamp_max (to_int (arg (codes "rtmax="))) in
    let wtmax = clamp_max (to_int (arg (codes "wtmax="))) in
    let move = arg (codes "move=") in
    let count = if given move then move / bsize else arg (codes "count=") in
    let pad_in = to_int (arg (codes "padin=")) in
    let nbufs = to_int (arg (codes "bufs=")) in
    record {
      bsize = bsize;
      mismatch = to_int (arg (codes "mismatch="));
      inpat = to_int (arg (codes "ipat="));
      outpat = to_int (arg (codes "opat="));
      slp = to_int (arg (codes "usleep="));
      fork = to_int (arg (codes "fork="));
      fsync = to_int (arg (codes "fsync="));
      sync = to_int (arg (codes "sync="));
      flush = to_int (arg (codes "flush="));
      rand = rand;
      start = arg (codes "start=");
      end = clamp_end (arg (codes "end=")) rand;
      poff = given (arg (codes "poff="));
      print = to_int (arg (codes "print="));
      nbufs = if is_minus_one nbufs then pos 1 else nbufs;
      rtmax = rtmax;
      rtmin = clamp_min rtmax (to_int (arg (codes "rtmin=")));
      wtmax = wtmax;
      wtmin = clamp_min wtmax (to_int (arg (codes "wtmin=")));
      pad_in = if is_minus_one pad_in then pos 0 else pad_in;
      touch = given (arg (codes "touch="));
      hash = given (arg (codes "hash="));
      count = count;
      gotcnt = given count;
      size = if given rand then align ((rand + u64 - bsize) % u64) bsize else move;
      skip = arg (codes "skip=");
      norepeat = given (arg (codes "norepeat="));
      input = input;
      output = output;
    }

-- `main` up to its loop. `bufs_fit` tells whether the buffers can be allocated.
unfoldable pub configure : (arg : Str → ℕ) (bufs_fit : Bool) (input output : ℤ) → Parsed
unfolding checked
configure arg bufs_fit input output =
    checked bufs_fit (given (arg (codes "move="))) (assigned arg input output)

-- ===== src/Info.antt =====
-- api/src/imp/sys.rs, api/src/imp/time.rs and api/src/imp/task/thread.rs: what a task may ask about the system,
-- the time and itself.
pub mod Answers
mod Tests
use oscomp_test_listline.Prelude.{
  ℕ, ◌+◌, ◌-◌, ◌/◌, ◌%◌, ◌^◌, List, [], ◌∷◌, ◌++◌, Option, none, some, Bool, true, false, leb, ◌==◌,
  if◌then◌else◌, length, replicate, Text, codes,
}
use oscomp_test_listline.Prelude.Int.{ℤ, pos, negsuc, as_isize}
use oscomp_test_listline.Errno.{LinuxError, einval, enodev, LinuxResult, ok, err, ◌>>=◌}
use oscomp_test_listline.TimeValue.{
  TimeValue, Timespec, timespec_from_time_value, Timeval, timeval_from_time_value,
}
use oscomp_test_listline.TimeStat.{TimeStat, time_stat_output}
use oscomp_test_listline.Clone.{Process, Context, Task}

unfoldable pub sys_getuid : LinuxResult ℕ
sys_getuid = ok 0

unfoldable pub sys_geteuid : LinuxResult ℕ
sys_geteuid = ok 1

unfoldable pub sys_getgid : LinuxResult ℕ
sys_getgid = ok 0

unfoldable pub sys_getegid : LinuxResult ℕ
sys_getegid = ok 1

-- The array of 65 characters; `none` for a text that does not fit, which is refused at compile time.
unfoldable pub pad_str : Text → Option (List ℕ)
pad_str info = if leb (length info) 65 then some (info ++ replicate (65 - length info) 0) else none

-- The texts of `UTSNAME`, in the order of the fields of `new_utsname`.
abbrev pub utsname_texts : List Text
utsname_texts =
    codes "Starry"
    ∷ codes "Starry - machine[0]"
    ∷ codes "10.0.0"
    ∷ codes "10.0.0"
    ∷ codes "10.0.0"
    ∷ codes "https://github.com/oscomp/starry-next"
    ∷ []

unfoldable pub pad_all : List Text → Option (List (List ℕ))
unfolding pad_str
pad_all [] = some []
pad_all (t ∷ ts) = elim (pad_str t) [
  | none ↦ none
  | some field ↦ elim (pad_all ts) [ none ↦ none | some fields ↦ some (field ∷ fields) ]
]

-- `name` is what `get_as_mut` gives; beside the result stands what is stored there.
unfoldable pub sys_uname : LinuxResult (Unit {0}) → LinuxResult ℕ × Option (List (List ℕ))
unfolding pad_all
sys_uname (err e) = (err e, none)
sys_uname (ok u) = (ok 0, pad_all utsname_texts)

-- axhal's clocks, with `nanos_to_ticks`.
pub record Clocks : Type 0 where
  pub wall_time : TimeValue
  pub monotonic_time : TimeValue
  pub monotonic_time_nanos : ℕ
  pub nanos_to_ticks : ℕ → ℕ

-- CLOCK_REALTIME is 0, CLOCK_MONOTONIC is 1.
unfoldable pub clock_time : Clocks → ℤ → LinuxResult TimeValue
clock_time c (pos n) =
    if n == 0 then ok c.wall_time else if n == 1 then ok c.monotonic_time else err einval
clock_time c (negsuc n) = err einval

-- `ts` is what `get_as_mut` gives; beside the result stands what is stored there, here and below.
unfoldable pub sys_clock_gettime :
    Clocks → ℤ → LinuxResult (Unit {0}) → LinuxResult ℕ × Option Timespec
unfolding clock_time timespec_from_time_value
sys_clock_gettime c clock_id ts = elim (clock_time c clock_id) [
  | err e ↦ (err e, none)
  | ok now ↦ elim ts [ err e ↦ (err e, none) | ok u ↦ (ok 0, some (timespec_from_time_value now)) ]
]

unfoldable pub sys_gettimeofday : Clocks → LinuxResult (Unit {0}) → LinuxResult ℕ × Option Timeval
unfolding timeval_from_time_value
sys_gettimeofday c (err e) = (err e, none)
sys_gettimeofday c (ok u) = (ok 0, some (timeval_from_time_value c.wall_time))

pub record Tms : Type 0 where
  pub tms_utime : ℕ
  pub tms_stime : ℕ
  pub tms_cutime : ℕ
  pub tms_cstime : ℕ

unfoldable pub sys_times : Clocks → TimeStat → LinuxResult (Unit {0}) → LinuxResult ℤ × Option Tms
unfolding time_stat_output
sys_times c s (err e) = (err e, none)
sys_times c s (ok u) =
    let (utime_s, utime_us, stime_s, stime_us) = time_stat_output s in
    (
      ok (as_isize (c.nanos_to_ticks c.monotonic_time_nanos)),
      some (record {
        tms_utime = utime_us;
        tms_stime = stime_us;
        tms_cutime = utime_us;
        tms_cstime = stime_us;
      }),
    )

unfoldable pub sys_getpid : Process → LinuxResult ℕ
sys_getpid process = ok process.pid

-- `none` is the panic of a process without a parent.
unfoldable pub sys_getppid : Process → Option (LinuxResult ℕ)
sys_getppid process = elim process.parent [ none ↦ none | some pid ↦ some (ok pid) ]

unfoldable pub sys_gettid : Task → LinuxResult ℕ
sys_gettid task = ok task.tid

unfoldable pub sys_set_tid_address : ℕ → Task → LinuxResult ℕ × Task
sys_set_tid_address clear_child_tid task =
    (ok task.tid, record task { clear_child_tid = clear_child_tid })

-- `ArchPrctlCode`
pub data ArchPrctlCode : Type 0 where
  set_gs set_fs get_fs get_gs get_cpuid set_cpuid : ArchPrctlCode

-- `try_from`
unfoldable pub arch_prctl_code : ℤ → LinuxResult ArchPrctlCode
arch_prctl_code (negsuc n) = err einval
arch_prctl_code (pos n) =
    if n == 4097
    then ok set_gs
    else if n == 4098
    then ok set_fs
    else if n == 4099
    then ok get_fs
    else if n == 4100
    then ok get_gs
    else if n == 4113
    then ok get_cpuid
    else if n == 4114
    then ok set_cpuid
    else err einval

-- The segment bases: `tls` of the trap frame and the register IA32_KERNEL_GSBASE.
pub record Segments : Type 0 where
  pub fs_base : ℕ
  pub gs_base : ℕ

-- `ptr` is what `get_as_mut` gives for `addr`.
unfoldable pub arch_prctl :
    ArchPrctlCode → ℕ → LinuxResult (Unit {0}) → Segments → LinuxResult ℕ × Option ℕ × Segments
arch_prctl get_fs addr (err e) tf = (err e, none, tf)
arch_prctl get_fs addr (ok u) tf = (ok 0, some tf.fs_base, tf)
arch_prctl set_fs addr ptr tf = (ok 0, none, record tf { fs_base = addr })
arch_prctl get_gs addr (err e) tf = (err e, none, tf)
arch_prctl get_gs addr (ok u) tf = (ok 0, some tf.gs_base, tf)
arch_prctl set_gs addr ptr tf = (ok 0, none, record tf { gs_base = addr })
arch_prctl get_cpuid addr ptr tf = (ok 0, none, tf)
arch_prctl set_cpuid addr ptr tf = (err enodev, none, tf)

unfoldable pub sys_arch_prctl :
    ℤ → ℕ → LinuxResult (Unit {0}) → Segments → LinuxResult ℕ × Option ℕ × Segments
unfolding arch_prctl_code arch_prctl
sys_arch_prctl code addr ptr tf = elim (arch_prctl_code code) [
  | err e ↦ (err e, none, tf)
  | ok c ↦ arch_prctl c addr ptr tf
]

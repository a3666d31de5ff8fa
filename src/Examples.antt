-- ===== src/Examples.antt =====
-- Concrete data for runs of the development: a process whose kernel grants every request.
mod Process
mod Clocks
mod Control
mod Services
mod Stored
mod Tree
mod Reached
mod Threads
mod Ctl
mod Cluster
use epochd.Base.{ℕ, false, none, some, [], ◌∷◌, List, ◌++◌}
use epochd.Base.Int.{ℤ, pos}
use epochd.Memory.{Memory}
use epochd.Procmem.{Regs, Machine, Env, stopped}
use epochd.Trampoline.Hooks.{Timespec, Kernel}
use epochd.Inject.Handle.{Handle}
use epochd.Vdso.{VdsoInfo}

abbrev pub blank : Memory
blank a = 0

abbrev pub regs : Regs
regs = record { rip = 64; rax = 1; rdi = 2; rsi = 3; rdx = 4; r10 = 5; r8 = 6; r9 = 7; others = 8 }

-- A process that is not traced.
abbrev pub process : Machine
process = record { mem = blank; regs = regs; attached = false; requests = 0; detaches = [] }

-- Every request is granted, every stop is a SIGTRAP, and a system call maps the page that it asks
-- for.
abbrev pub granting : Env
granting = record {
  fails = λ n. none;
  status = λ n. stopped 5;
  run = λ s. (s.mem, record s.regs { rax = s.regs.rdi });
}

abbrev pub handle : Handle
handle = record { pid = 7; state_addr = 4096; patched = []; gen = 0 }

-- A kernel whose clock stands at 100 s and 500 ns.
abbrev pub kernel : Kernel
kernel = record {
  sys_clock_gettime = λ clk_id tp. (0, record { sec = 100; sub_sec = 500 });
  sys_gettimeofday = λ tv. (0, record { sec = 100; sub_sec = 0 });
  sys_time = λ tloc. (100, none);
}

abbrev pub unset : Timespec
unset = record { sec = 0; sub_sec = 0 }

-- 200 s and 7 ns after the epoch.
abbrev pub target : ℤ
target = pos 200_000_000_007

-- 100 s after the epoch.
abbrev pub now : ℤ
now = pos 100_000_000_000

-- ===== src/Vdso/Within.antt =====
-- The entry points that Locate of pkg/vdso/vdso.go returns, and the range of the mapping.
use epochd.Base.{ℕ, ◌<◌, ◌≤◌, ◌≡◌, some, List, arith}
use epochd.Inject.Gap.{Span}
use epochd.Vdso.{Symbol, VdsoInfo, ProcFs, resolve_entries, locate}

pub record IsWithin (info : VdsoInfo) (addr : ℕ) : Type 0 where
  pub low : info.start ≤ addr
  pub high : addr < info.end

module _ (range : Span) (syms : List Symbol) (info : VdsoInfo)
    (e : resolve_entries range syms ≡ some info) where
  resolve_entries-IsWithin :
      IsWithin info info.clock_gettime_addr
      × IsWithin info info.gettimeofday_addr
      × IsWithin info info.time_addr
  unfolding resolve_entries
  resolve_entries-IsWithin = ground arith

-- Where Locate succeeds, each of the three entry points lies in the mapping that it returns.
pub locate-IsWithin :
    (proc : ProcFs) (info : VdsoInfo)
    → locate proc ≡ some info
    → IsWithin info info.clock_gettime_addr
      × IsWithin info info.gettimeofday_addr
      × IsWithin info info.time_addr
unfolding locate
locate-IsWithin proc info e = grind (arith, resolve_entries-IsWithin)

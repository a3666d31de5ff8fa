-- ===== src/Faketime/Shown.antt =====
-- What a Handle of pkg/faketime/faketime.go says that its process sees, after an update.
use epochd.Base.{ℕ, ◌≡◌, refl, ◌∙◌, Bool, true, false, if◌then◌else◌}
use epochd.Base.Int.{◌+ℤ◌, ◌-ℤ◌, int_laws}
use epochd.Base.Word.{IsInt64, word_of}
use epochd.Clock.{Time, Duration, second, add, sub-eq, add-sub}
use epochd.Procmem.{Env, Machine, ok}
use epochd.Inject.Handle as Hook
use epochd.Inject.Handle.Update.{set_time-clock_gettime}
use epochd.Trampoline.Hooks.{Timespec, Kernel, clock_gettime_entry}
use epochd.Trampoline.Advancing.{instant, IsReading, HasRoom}
use epochd.Trampoline.Reads.{is_wall_clock}
use epochd.Faketime.{Handle, effective_time, set_time, freeze, advance}

-- The handle shows `target` at `now`, in the mode `frozen`.
pub record IsShowing (h : Handle) (frozen : Bool) (now target : Time) : Type 0 where
  pub mode : h.frozen ≡ frozen
  pub shown : effective_time h now ≡ target

pub set_time-IsShowing :
    (env : Env) (h : Handle) (now later target : Time) (s : Machine)
    → (set_time env h now later target s).result ≡ ok tt
    → IsInt64 (target -ℤ later)
    → IsShowing (set_time env h now later target s).handle false later target
unfolding set_time effective_time
set_time-IsShowing env h now later target s e span = record {
  mode = rw e refl;
  shown = rw e (add-sub target later span);
}

pub freeze-IsShowing :
    (env : Env) (h : Handle) (later target : Time) (s : Machine)
    → (freeze env h target s).result ≡ ok tt
    → IsShowing (freeze env h target s).handle true later target
unfolding freeze effective_time
freeze-IsShowing env h later target s e = record { mode = rw e refl; shown = rw e refl }

-- Advance keeps the mode: after a success the handle is frozen exactly if it was, and shows at
-- `later`, its last reading of the clock, what it showed at its first reading plus `d`, for a new
-- offset that a Duration holds.
pub advance-IsShowing :
    (env : Env) (h : Handle) (early now later : Time) (d : Duration) (s : Machine)
    → (advance env h early now later d s).result ≡ ok tt
    → IsInt64 (add (effective_time h early) d -ℤ later)
    → IsShowing
        (advance env h early now later d s).handle
        h.frozen
        later
        (add (effective_time h early) d)
unfolding advance
advance-IsShowing env h early now later d s e span =
    let target = add (effective_time h early) d in
    let fake = freeze env h target s in
    let moving = set_time env h now later target s in
    elim h.frozen
        as (λ b.
          (if b then fake else moving).result ≡ ok tt
          → IsShowing (if b then fake else moving).handle b later target) [
            | true ↦ λ done. freeze-IsShowing env h later target s done
            | false ↦ λ done. set_time-IsShowing env h now later target s done span
          ]
      e

-- After a successful SetTime the process reads what the handle says it sees at that reading of
-- the kernel's clock, plus the time between the two readings of SetTime: for a target within the
-- range of a Duration from both, a wall clock, a well-formed kernel reading, and seconds that
-- stay in int64.
pub set_time-reads_effective :
    (env : Env) (h : Handle) (now later target : Time) (s : Machine) (kernel : Kernel) (clk_id : ℕ)
    (tp : Timespec)
    → (set_time env h now later target s).result ≡ ok tt
    → IsInt64 (target -ℤ now)
    → IsInt64 (target -ℤ later)
    → is_wall_clock clk_id ≡ true
    → IsReading second (kernel.sys_clock_gettime clk_id tp).1
    → HasRoom (kernel.sys_clock_gettime clk_id tp).1.sec (word_of (Hook.diff_sec_nsec target now).0)
    → instant second
        (clock_gettime_entry kernel
          (set_time env h now later target s).machine.mem
          h.h.state_addr
          clk_id
          tp).1
      ≡ effective_time
          (set_time env h now later target s).handle
          (instant second (kernel.sys_clock_gettime clk_id tp).1)
        +ℤ (later -ℤ now)
unfolding set_time effective_time
set_time-reads_effective env h now later target s kernel clk_id tp e span span' wall reading room =
    let (_, moved, _) =
      set_time-clock_gettime env h.h now target s kernel clk_id tp e span wall reading room in
    moved ∙ rw (e, sub-eq target later span') (omega int_laws)

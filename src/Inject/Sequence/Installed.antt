-- ===== src/Inject/Sequence/Installed.antt =====
-- The entries and the state struct in the memory of a process after injectWithTracer of pkg/inject/inject.go.
use epochd.Base.{
  ℕ, ◌+◌, ◌^◌, ◌<◌, ◌≤◌, ◌≡◌, ◌⊎◌, inr, refl, ap, ◌∙◌, true, some, List, [], ◌∷◌, ◌++◌, arith,
  length, take, drop, All,
}
use epochd.Base.Int.{ℤ}
use epochd.Base.Word.{word, le_bytes}
use epochd.Memory.{Memory, write, load, write_outside, load-write_outside, write-append}
use epochd.Procmem.{Env, Machine, Result, ok, pure, ◌>>=◌, bind_ok, read_mem, poke_text, write_mem}
use epochd.Trampoline.{encode_state, state_offset, state_size}
use epochd.Trampoline.Installed.{Holds, Holds-same, write-Holds}
use epochd.Vdso.{VdsoInfo}
use epochd.Inject.Jump.{displacement, fits_rel32, jmp_bytes, jump_target, jump_lands}
use epochd.Inject.Handle.{Handle, PatchedHook}
use epochd.Inject.Sequence.{Hook, Target, hooks_of, build_payload, install, patch_hook, patch_hooks}

abbrev pub stub_of : ℕ → Hook → ℕ
stub_of page hook = word (page + hook.entry_offset)

-- The entry of the hook jumps to its stub.
abbrev pub IsHooked : Memory → ℕ → Hook → Type 0
IsHooked m page hook = jump_target m hook.vdso_addr ≡ some (stub_of page hook)

-- Each of the three functions jumps to the stub that replaces it.
pub record AreHooked (m : Memory) (info : VdsoInfo) (page : ℕ) : Type 0 where
  pub clock_gettime : jump_target m info.clock_gettime_addr ≡ some page
  pub gettimeofday : jump_target m info.gettimeofday_addr ≡ some (page + 141)
  pub time : jump_target m info.time_addr ≡ some (page + 306)

-- Two entries whose five bytes do not meet.
abbrev pub IsApart : ℕ → ℕ → Type 0
IsApart a b = (a + 5 ≤ b) ⊎ (b + 5 ≤ a)

length-jmp_bytes : (d : ℕ) → length (jmp_bytes d) ≡ 5
unfolding jmp_bytes le_bytes
length-jmp_bytes d = refl

jump_target-write :
    (m : Memory) (a b d : ℕ)
    → IsApart a b
    → jump_target (write m b (jmp_bytes d)) a ≡ jump_target m a
unfolding jump_target
jump_target-write m a b d apart = rw (
  write_outside m b (jmp_bytes d) a (omega (arith, length-jmp_bytes d)),
  load-write_outside 4 m b (jmp_bytes d) (a + 1) (omega (arith, length-jmp_bytes d)),
)

-- All entries are words, and no two of them meet.
abbrev pub AllApart : List Hook → Type 0
AllApart [] = Unit
AllApart (hook ∷ hooks) =
    (hook.vdso_addr < 2 ^ 64)
    × All (λ other. IsApart hook.vdso_addr other.vdso_addr) hooks
    × AllApart hooks

-- The `n` bytes from `c` on do not meet the entry.
abbrev IsClear : ℕ → ℕ → ℕ → Type 0
IsClear n c entry = (c + n ≤ entry) ⊎ (entry + 5 ≤ c)

both :
    {A : Type 0} {B : Type 0} (r : Result A × Machine) (a : A) (s' : Machine) {b b' : B}
    → r.0 ≡ ok a
    → pure b r.1 ≡ (ok b', s')
    → r ≡ (ok a, s')
both r a s' done e = ground arith

module _ (env : Env) (page : ℕ) where
  record IsPatched (m m' : Memory) (hook : Hook) : Type 0 where
    fits : fits_rel32 (displacement (stub_of page hook) hook.vdso_addr) ≡ true
    written :
        m' ≡ write m hook.vdso_addr (jmp_bytes (displacement (stub_of page hook) hook.vdso_addr))

  patch_hook_ok :
      (hook : Hook) (s : Machine) (p : PatchedHook)
      → (patch_hook env page hook s).0 ≡ ok p
      → IsPatched s.mem (patch_hook env page hook s).1.mem hook
  unfolding patch_hook read_mem poke_text
  patch_hook_ok hook s p e = record { fits = ground arith; written = ground arith }

  -- Memory before and after the patches of the hooks, one after the other.
  abbrev Chain : Memory → List Hook → Memory → Type 0
  Chain m [] m' = m' ≡ m
  Chain m (hook ∷ hooks) m' = (m1 : Memory) × IsPatched m m1 hook × Chain m1 hooks m'

  patch_hooks_ok :
      (hooks : List Hook) (s s' : Machine) (ps : List PatchedHook)
      → patch_hooks env page hooks s ≡ (ok ps, s')
      → Chain s.mem hooks s'.mem
  unfolding patch_hooks
  patch_hooks_ok [] s s' ps e = ground arith
  patch_hooks_ok (hook ∷ hooks) s s' ps e =
      let first = patch_hook env page hook in
      let others = patch_hooks env page hooks in
      let (p, done, e1) = bind_ok first (λ p. others >>= λ ps'. pure (p ∷ ps')) s s' ps e in
      let (ps', done', e2) = bind_ok others (λ ps'. pure (p ∷ ps')) (first s).1 s' ps e1 in
      (
        (first s).1.mem,
        patch_hook_ok hook s p done,
        patch_hooks_ok hooks (first s).1 s' ps' (both (others (first s).1) ps' s' done' e2),
      )

  Chain-jump :
      (hooks : List Hook) (m m' : Memory) (a : ℕ)
      → All (λ h. IsApart a h.vdso_addr) hooks
      → Chain m hooks m'
      → jump_target m' a ≡ jump_target m a
  Chain-jump [] m m' a apart c = rw c
  Chain-jump (hook ∷ hooks) m m' a apart (m1, patched, c) =
      Chain-jump hooks m1 m' a apart.1 c
      ∙ rw patched.written (
          jump_target-write m a hook.vdso_addr (displacement (stub_of page hook) hook.vdso_addr)
            apart.0)

  Chain-load :
      (hooks : List Hook) (m m' : Memory) (n a : ℕ)
      → All (λ h. IsClear n a h.vdso_addr) hooks
      → Chain m hooks m'
      → load n m' a ≡ load n m a
  Chain-load [] m m' n a clear c = rw c
  Chain-load (hook ∷ hooks) m m' n a clear (m1, patched, c) =
      Chain-load hooks m1 m' n a clear.1 c
      ∙ rw patched.written (
          load-write_outside n m hook.vdso_addr
            (jmp_bytes (displacement (stub_of page hook) hook.vdso_addr)) a (shift clear.0))
    where
      shift :
          IsClear n a hook.vdso_addr
          → (a + n ≤ hook.vdso_addr)
            ⊎ (hook.vdso_addr + length (jmp_bytes (displacement (stub_of page hook) hook.vdso_addr))
                ≤ a)
      shift h = omega (arith, h, length-jmp_bytes (displacement (stub_of page hook) hook.vdso_addr))

  Chain-IsHooked :
      (hooks : List Hook) (m m' : Memory)
      → AllApart hooks
      → Chain m hooks m'
      → All (IsHooked m' page) hooks
  Chain-IsHooked [] m m' apart c = tt
  Chain-IsHooked (hook ∷ hooks) m m' apart (m1, patched, c) = (
    Chain-jump hooks m1 m' hook.vdso_addr apart.1 c
        ∙ rw patched.written
            (jump_lands m (stub_of page hook) hook.vdso_addr (omega arith) apart.0 patched.fits),
    Chain-IsHooked hooks m1 m' apart.2 c,
  )

-- What the kernel and the vDSO guarantee of the new page: it lies below 2 ^ 63 and holds none of the
-- three entries, which do not meet; and the embedded payload has code in front of the state.
pub record IsLaidOut (t : Target) (info : VdsoInfo) (page : ℕ) : Type 0 where
  pub page_small : page < 2 ^ 63
  pub entries : AllApart (hooks_of info)
  pub clear : All (λ h. IsClear 4096 page h.vdso_addr) (hooks_of info)
  pub has_code : length (take state_offset t.payload) ≡ state_offset

write_mem_ok :
    (env : Env) (a : ℕ) (bs : List ℕ) (s : Machine)
    → (write_mem env a bs s).0 ≡ ok tt
    → (write_mem env a bs s).1.mem ≡ write s.mem a bs
unfolding write_mem
write_mem_ok env a bs s e = ground arith

module _ (m : Memory) (page : ℕ) (payload : List ℕ) (sec nsec : ℤ) (mask : ℕ)
    (small_mask : mask < 256) (has_code : length (take state_offset payload) ≡ state_offset) where
  abbrev code : List ℕ
  code = take state_offset payload

  abbrev rest : List ℕ
  rest = drop (state_offset + state_size) payload

  -- The payload in memory holds the given state behind its code.
  payload-Holds :
      Holds
        (write m page (build_payload payload sec nsec mask))
        (page + state_offset)
        sec
        nsec
        mask
        0
  unfolding build_payload
  payload-Holds =
      Holds-same (write m (page + state_offset) (encode_state sec nsec mask 0 ++ rest)) _
        (page + state_offset) sec nsec mask 0
        (λ n c low high.
          ap (λ (m' : Memory). load n m' c) (write-append m page code _)
          ∙ load-write_outside n _ page code c (inr (omega (arith, has_code)))
          ∙ ap (λ (k : ℕ). load n (write m (page + k) (encode_state sec nsec mask 0 ++ rest)) c)
              has_code)
        (rw (write-append m (page + state_offset) (encode_state sec nsec mask 0) rest)
          (write-Holds _ (page + state_offset) sec nsec mask 0 small_mask (omega arith)))

module _ (env : Env) (t : Target) (info : VdsoInfo) (sec nsec : ℤ) (mask page : ℕ)
    (laid : IsLaidOut t info page) (small_mask : mask < 256) where
  state-IsClear :
      (hooks : List Hook) (n c : ℕ)
      → page + state_offset ≤ c
      → c + n ≤ page + state_offset + state_size
      → All (λ h. IsClear 4096 page h.vdso_addr) hooks
      → All (λ h. IsClear n c h.vdso_addr) hooks
  state-IsClear [] n c low high clear = tt
  state-IsClear (hook ∷ hooks) n c low high clear =
      (omega (arith, clear.0), state-IsClear hooks n c low high clear.1)

  -- After a successful installation a call of clock_gettime, of gettimeofday and of time each jumps
  -- to the stub for that function, at offset 0, 141 and 306 of the page, and the given state stands
  -- where the handle says: for a page below 2 ^ 63 that holds no entry, entries
  -- that do not meet, a payload with its code and a mask of one byte.
  pub install-IsHooked :
      (h : Handle) (s s' : Machine)
      → install env t info sec nsec mask page s ≡ (ok h, s')
      → AreHooked s'.mem info page
        × (h.state_addr ≡ page + state_offset)
        × Holds s'.mem h.state_addr sec nsec mask 0
  unfolding install hooks_of
  install-IsHooked h s s' e =
      let payload = build_payload t.payload sec nsec mask in
      let hooks = hooks_of info in
      let handle = λ (patched : List PatchedHook).
        let r : Handle = record {
          pid = t.pid;
          state_addr = word (page + state_offset);
          patched = patched;
          gen = 0;
        } in
        r in
      let patch = patch_hooks env page hooks in
      let (u, wrote, e1) =
        bind_ok (write_mem env page payload) (λ _. patch >>= λ ps. pure (handle ps)) s s' h e in
      let s1 = (write_mem env page payload s).1 in
      let (ps, patched, e2) = bind_ok patch (λ ps. pure (handle ps)) s1 s' h e1 in
      let chain = patch_hooks_ok env page hooks s1 s' ps (both (patch s1) ps s' patched e2) in
      let at : h.state_addr ≡ page + state_offset = ground (arith, laid.page_small) in
      let holds =
        Holds-same s1.mem s'.mem (page + state_offset) sec nsec mask 0
          (λ n c low high.
            Chain-load env page hooks s1.mem s'.mem n c
              (state-IsClear hooks n c low high laid.clear) chain)
          (rw (write_mem_ok env page payload s wrote)
            (payload-Holds s.mem page t.payload sec nsec mask small_mask laid.has_code)) in
      let hooked = Chain-IsHooked env page hooks s1.mem s'.mem laid.entries chain in
      let near = laid.page_small in
      (
        record {
          clock_gettime = hooked.0 ∙ ap some (ground (arith, near));
          gettimeofday = hooked.1.0 ∙ ap some (ground (arith, near));
          time = hooked.1.1.0 ∙ ap some (ground (arith, near));
        },
        at,
        rw at holds,
      )

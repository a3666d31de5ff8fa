-- ===== src/Procmem/Faultless.antt =====
-- What the requests do when the kernel refuses none.
use epochd.Base.{ℕ, suc, ◌≡◌, arith, none, List}
use epochd.Memory.{write, read}
use epochd.Procmem.{
  Env, Machine, Regs, ok, request, get_regs, set_regs, cont, wait, poke_text, read_mem, write_mem,
}

module _ (env : Env) (no_fault : (n : ℕ) → env.fails n ≡ none) (s : Machine) where
  abbrev counted : Machine
  counted = record s { requests = suc s.requests }

  pub request_eq : request env s ≡ (ok tt, counted)
  request_eq = ground (arith, no_fault s.requests)

  pub get_regs_eq : get_regs env s ≡ (ok s.regs, counted)
  unfolding get_regs
  get_regs_eq = ground (arith, no_fault s.requests)

  pub set_regs_eq : (r : Regs) → set_regs env r s ≡ (ok tt, record counted { regs = r })
  unfolding set_regs
  set_regs_eq r = ground (arith, no_fault s.requests)

  pub cont_eq :
      cont env s ≡ (ok tt, record counted { mem = (env.run counted).0; regs = (env.run counted).1 })
  unfolding cont
  cont_eq = ground (arith, no_fault s.requests)

  pub wait_eq : wait env s ≡ (ok (env.status (suc s.requests)), counted)
  unfolding wait
  wait_eq = ground (arith, no_fault s.requests)

  pub poke_text_eq :
      (a : ℕ) (bs : List ℕ)
      → poke_text env a bs s ≡ (ok tt, record counted { mem = write s.mem a bs })
  unfolding poke_text
  poke_text_eq a bs = ground (arith, no_fault s.requests)

  pub write_mem_eq :
      (a : ℕ) (bs : List ℕ)
      → write_mem env a bs s ≡ (ok tt, record counted { mem = write s.mem a bs })
  unfolding write_mem
  write_mem_eq a bs = ground (arith, no_fault s.requests)

  pub read_mem_eq : (a n : ℕ) → read_mem env a n s ≡ (ok (read n s.mem a), counted)
  unfolding read_mem
  read_mem_eq a n = ground (arith, no_fault s.requests)

pub ruleset faultless =
    (get_regs_eq, set_regs_eq, cont_eq, wait_eq, poke_text_eq, write_mem_eq, read_mem_eq)

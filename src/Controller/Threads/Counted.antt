-- ===== src/Controller/Threads/Counted.antt =====
-- The gauge of active timeshifts of cmd/controller/controller.go in every interleaving of its operations.
use epochd.Base.{
  ℕ, suc, ◌+◌, ◌≡◌, refl, sym, ap, ◌∙◌, String, true, none, List, [], ◌∷◌, ◌++◌, map, arith, length,
  keep, All, Option-cases, inl, inr,
}
use epochd.Base.Int.{pos, pos_part, neg_part, ◌+ℤ◌, int_laws}
use epochd.Controller.{Timeshift, Agents}
use epochd.Controller.Registry.{lookup, HasUniqueKeys, length-insert_new, length-insert_old}
use epochd.Controller.Registry.Laws.{
  insert-HasUniqueKeys, remove-HasUniqueKeys, keep-HasUniqueKeys, length-remove-some, length-keep,
  insert-All, remove-All, keep-All, lookup-All,
}
use epochd.Controller.Remove.{drop_active, is_expired}
use epochd.Controller.Invariant.{IsConsistent}
use epochd.Controller.Invariant.Gauge.{inject_container-active, send-active}
use epochd.Controller.Invariant.Kept.{new_timeshift-IsConsistent, retarget-IsConsistent}
use epochd.Controller.Threads.{
  After, finished, reset_one, expire, Thread, counting, encoding, flushing, uncounting, resetting,
  expiring, Shared, adjust, write, after_persist, registered, Move, create_checks, create_conflicts,
  create_injects, create_fails, create_registers, create_counts, persist_encodes, persist_skips,
  persist_flushes, update_begins, advance_begins, update_fails, update_finds, update_copies,
  update_sends, update_applies, delete_removes, delete_counts, sweep_removes, sweep_counts,
  sweep_ends, reset_sends, reset_ends, System, Step, turn, arrival, Steps, stay, go,
}

-- The timeshifts that a thread has registered and not yet counted, and those that it has removed and still
-- counts.
abbrev pub due_inc : Thread → ℕ
due_inc counting = 1
due_inc _ = 0

abbrev pub due_after : After → ℕ
due_after (expire ids) = length ids
due_after _ = 0

abbrev pub due_dec : Thread → ℕ
due_dec (uncounting _) = 1
due_dec (encoding k) = due_after k
due_dec (flushing _ k) = due_after k
due_dec (resetting _ _ ids) = length ids
due_dec (expiring ids) = length ids
due_dec _ = 0

abbrev pub total : (Thread → ℕ) → List Thread → ℕ
total f [] = 0
total f (t ∷ ts) = f t + total f ts

-- Of the shared state, where the threads owe `i` increments and `d` decrements of the gauge.
pub record IsCounted (s : Shared) (i d : ℕ) : Type 0 where
  pub unique : HasUniqueKeys s.ctl.timeshifts
  pub gauge : s.ctl.met.active +ℤ pos i ≡ pos (length s.ctl.timeshifts + d)
  pub consistent : All IsConsistent s.ctl.timeshifts

-- A state with the same registry and gauge.
same-IsCounted :
    (s s' : Shared) (i d : ℕ)
    → s'.ctl.timeshifts ≡ s.ctl.timeshifts
    → s'.ctl.met.active ≡ s.ctl.met.active
    → IsCounted s i d
    → IsCounted s' i d
same-IsCounted s s' i d e a w = record {
  unique = rw e w.unique;
  gauge = rw (e, a) w.gauge;
  consistent = rw e w.consistent;
}

owed_IsCounted :
    (s : Shared) (i i' d d' : ℕ) → i ≡ i' → d ≡ d' → IsCounted s i d → IsCounted s i' d'
owed_IsCounted s i i' d d' e e' w = rw (sym e, sym e') w

after_persist-due : (k : After) → due_dec (after_persist k) ≡ due_after k
after_persist-due finished = refl
after_persist-due (reset_one id) = refl
after_persist-due (expire ids) = refl

after_persist-due_inc : (k : After) → due_inc (after_persist k) ≡ 0
after_persist-due_inc finished = refl
after_persist-due_inc (reset_one id) = refl
after_persist-due_inc (expire ids) = refl

after_persist-IsCounted :
    (s : Shared) (k : After) (i d : ℕ)
    → IsCounted s (0 + i) (due_after k + d)
    → IsCounted s (due_inc (after_persist k) + i) (due_dec (after_persist k) + d)
after_persist-IsCounted s k i d w = rw (after_persist-due k, after_persist-due_inc k) w

registered-IsCounted :
    (s : Shared) (id : String) (t : Timeshift) (i d : ℕ)
    → lookup id s.ctl.timeshifts ≡ none
    → IsConsistent (id, t)
    → IsCounted s i d
    → IsCounted (registered id t s) (1 + i) d
registered-IsCounted s id t i d fresh good w = record {
  unique = insert-HasUniqueKeys id t s.ctl.timeshifts w.unique;
  gauge =
      rw (length-insert_new id t s.ctl.timeshifts fresh)
        (omega (int_laws, ap pos_part w.gauge, ap neg_part w.gauge));
  consistent = insert-All IsConsistent id t s.ctl.timeshifts good w.consistent;
}

adjust-IsCounted :
    (s : Shared) (id : String) (g : Timeshift → Timeshift) (i d : ℕ)
    → ((t : Timeshift) → IsConsistent (id, t) → IsConsistent (id, g t))
    → IsCounted s i d
    → IsCounted (write id g s) i d
unfolding write adjust
adjust-IsCounted s id g i d good w = elim (Option-cases (lookup id s.ctl.timeshifts)) [
  | inl gone ↦ record {
    unique = rw (gone, adjust) w.unique;
    gauge = rw (gone, adjust) w.gauge;
    consistent = rw (gone, adjust) w.consistent;
  }
  | inr (t, there) ↦ record {
    unique = rw (there, adjust) (insert-HasUniqueKeys id _ s.ctl.timeshifts w.unique);
    gauge =
        rw (there, adjust)
          (w.gauge
            ∙ ap (λ n. pos (n + d)) (sym (length-insert_old id (g t) t s.ctl.timeshifts there)));
    consistent =
        rw (there, adjust)
          (insert-All IsConsistent id _ s.ctl.timeshifts
            (good t (lookup-All IsConsistent id t s.ctl.timeshifts there w.consistent))
            w.consistent);
  }
]

length-map : {A B : Type 0} (g : A → B) (xs : List A) → length (map g xs) ≡ length xs
length-map g [] = refl
length-map g (x ∷ xs) = ap suc (length-map g xs)

module _ (agents : Agents) where
  -- A move of one thread, where the others owe `i` increments and `d` decrements.
  Move-IsCounted :
      (s s' : Shared) (t t' : Thread) (i d : ℕ)
      → Move agents s t s' t'
      → IsCounted s (due_inc t + i) (due_dec t + d)
      → IsCounted s' (due_inc t' + i) (due_dec t' + d)
  unfolding drop_active
  Move-IsCounted s _ _ _ i d (create_checks job pod pods ok) w = w
  Move-IsCounted s _ _ _ i d (create_conflicts job pod pods e found) w = w
  Move-IsCounted s _ _ _ i d (create_injects job pod cs todo hs p e) w =
      same-IsCounted s _ _ _ refl
        (ap (λ q. q.met.active) (sym e)
          ∙ inject_container-active agents pod job.target job.freeze cs _)
        w
  Move-IsCounted s _ _ _ i d (create_fails job) w = w
  Move-IsCounted s _ _ _ i d (create_registers job id now h hs fresh) w =
      registered-IsCounted s id _ _ _ fresh
        (new_timeshift-IsConsistent id job.namespace job.label_selector job.target job.ttl
          job.freeze now (h ∷ hs))
        (owed_IsCounted s _ i _ _ (omega arith) refl w)
  Move-IsCounted s _ _ _ i d create_counts w = record {
    unique = w.unique;
    gauge = omega (int_laws, ap pos_part w.gauge, ap neg_part w.gauge);
    consistent = w.consistent;
  }
  Move-IsCounted s _ _ _ i d (persist_encodes k stored) w = w
  Move-IsCounted s _ _ _ i d (persist_skips k none_stored) w = after_persist-IsCounted s k i d w
  Move-IsCounted s _ _ _ i d (persist_flushes ok m k) w =
      after_persist-IsCounted _ k i d (same-IsCounted s _ (0 + i) _ refl refl w)
  Move-IsCounted s _ _ _ i d (update_begins job) w = w
  Move-IsCounted s _ _ _ i d (advance_begins id now delta freeze t there) w = w
  Move-IsCounted s _ _ _ i d (update_fails job gone) w = w
  Move-IsCounted s _ _ _ i d (update_finds job t there) w = w
  Move-IsCounted s _ _ _ i d (update_copies job t there) w = w
  Move-IsCounted s _ _ _ i d (update_sends job copied n h hs us st e) w =
      same-IsCounted s _ _ _ refl
        (ap (λ q. q.met.active) (sym e) ∙ send-active agents job.target job.freeze n h _) w
  Move-IsCounted s _ _ _ i d (update_applies job copied n us now) w =
      adjust-IsCounted s job.id _ _ _
        (λ t good.
          retarget-IsConsistent agents true copied us job.target job.freeze now job.id t good)
        w
  Move-IsCounted s _ _ _ i d (delete_removes id t there) w = record {
    unique = remove-HasUniqueKeys id s.ctl.timeshifts w.unique;
    gauge =
        w.gauge ∙ ap pos (omega (arith, length-remove-some id t s.ctl.timeshifts w.unique there));
    consistent = remove-All IsConsistent id s.ctl.timeshifts w.consistent;
  }
  Move-IsCounted s _ _ _ i d (delete_counts id) w = record {
    unique = w.unique;
    gauge = omega (int_laws, ap pos_part w.gauge, ap neg_part w.gauge);
    consistent = w.consistent;
  }
  Move-IsCounted s _ _ _ i d (sweep_removes now some_expired) w = record {
    unique = keep-HasUniqueKeys _ s.ctl.timeshifts w.unique;
    gauge =
        w.gauge
        ∙ ap pos (
            omega (
              arith,
              length-keep (is_expired now) s.ctl.timeshifts,
              length-map (λ e. e.0) (keep (is_expired now) s.ctl.timeshifts),
            ));
    consistent = keep-All IsConsistent _ s.ctl.timeshifts w.consistent;
  }
  Move-IsCounted s _ _ _ i d (sweep_counts id ids) w = record {
    unique = w.unique;
    gauge = omega (int_laws, ap pos_part w.gauge, ap neg_part w.gauge);
    consistent = w.consistent;
  }
  Move-IsCounted s _ _ _ i d sweep_ends w = w
  Move-IsCounted s _ _ _ i d (reset_sends id n ids t h there at) w =
      same-IsCounted s _ _ _ refl refl w
  Move-IsCounted s _ _ _ i d (reset_ends id n ids t there at) w = w

  total-middle :
      (f : Thread → ℕ) (before after : List Thread) (t : Thread)
      → total f (before ++ t ∷ after) ≡ f t + total f (before ++ after)
  total-middle f [] after t = refl
  total-middle f (b ∷ before) after t = omega (arith, total-middle f before after t)

  abbrev pub IsCountedSystem : System → Type 0
  IsCountedSystem a = IsCounted a.shared (total due_inc a.threads) (total due_dec a.threads)

  Step-IsCounted : (a b : System) → Step agents a b → IsCountedSystem a → IsCountedSystem b
  Step-IsCounted _ _ (turn before after t t' s s' move) w =
      rw (total-middle due_inc before after t', total-middle due_dec before after t')
        (Move-IsCounted s s' t t' _ _ move
          (rw (total-middle due_inc before after t, total-middle due_dec before after t) at w))
  Step-IsCounted _ _ (arrival s ts) w = owed_IsCounted s _ _ _ _ (omega arith) (omega arith) w

  -- In every interleaving of the sections of creates, updates, advances, deletes and sweeps: no id stands twice in
  -- the registry, every timeshift stands under its own id with the time of the mode it is not in reset, and the gauge
  -- of active timeshifts plus the increments that threads still owe is the size of the registry plus the decrements that they owe.
  pub Steps-IsCounted :
      (a b : System)
      → Steps agents a b
      → IsCounted a.shared (total due_inc a.threads) (total due_dec a.threads)
      → IsCounted b.shared (total due_inc b.threads) (total due_dec b.threads)
  Steps-IsCounted a _ (stay _) w = w
  Steps-IsCounted a c (go _ b _ first rest) w =
      Steps-IsCounted b c rest (Step-IsCounted a b first w)

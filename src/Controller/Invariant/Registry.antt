-- ===== src/Controller/Invariant/Registry.antt =====
-- The invariant of the registry of cmd/controller/controller.go through one insertion or removal.
use epochd.Base.{◌≡◌, sym, ap, ◌∙◌, String, Bool, none, some}
use epochd.Base.Int.{ℤ, pos, ◌+ℤ◌, ◌-ℤ◌, int_laws}
use epochd.Controller.{Timeshift, Timeshifts, Controller, persist}
use epochd.Controller.Registry.{lookup, insert, remove, length-insert_new, length-insert_old}
use epochd.Controller.Registry.Laws.{
  insert-HasUniqueKeys, remove-HasUniqueKeys, length-remove-some, insert-All, remove-All,
}
use epochd.Controller.Remove.Deleted.{persist_same}
use epochd.Controller.Invariant.{IsConsistent, IsRegistry, IsWellFormed}

pub persist-IsWellFormed : (b : Bool) (c : Controller) → IsWellFormed c → IsWellFormed (persist b c)
persist-IsWellFormed b c w = let (shifts, met, _) = persist_same b c in rw (shifts, met) w

pub insert_new-IsRegistry :
    (id : String) (s : Timeshift) (m : Timeshifts) (a : ℤ)
    → lookup id m ≡ none
    → IsConsistent (id, s)
    → IsRegistry m a
    → IsRegistry (insert id s m) (a +ℤ pos 1)
insert_new-IsRegistry id s m a fresh good w = record {
  unique = insert-HasUniqueKeys id s m w.unique;
  counted = rw (w.counted, length-insert_new id s m fresh) (omega int_laws);
  consistent = insert-All IsConsistent id s m good w.consistent;
}

pub insert_old-IsRegistry :
    (id : String) (s old : Timeshift) (m : Timeshifts) (a : ℤ)
    → lookup id m ≡ some old
    → IsConsistent (id, s)
    → IsRegistry m a
    → IsRegistry (insert id s m) a
insert_old-IsRegistry id s old m a there good w = record {
  unique = insert-HasUniqueKeys id s m w.unique;
  counted = w.counted ∙ ap pos (sym (length-insert_old id s old m there));
  consistent = insert-All IsConsistent id s m good w.consistent;
}

pub remove-IsRegistry :
    (id : String) (s : Timeshift) (m : Timeshifts) (a : ℤ)
    → lookup id m ≡ some s
    → IsRegistry m a
    → IsRegistry (remove id m) (a -ℤ pos 1)
remove-IsRegistry id s m a there w = record {
  unique = remove-HasUniqueKeys id m w.unique;
  counted = rw (w.counted, sym (length-remove-some id s m w.unique there)) (omega int_laws);
  consistent = remove-All IsConsistent id m w.consistent;
}

-- ===== src/Controller/Store/Restart.antt =====
-- What a controller that starts again makes of the registry in the store (cmd/controller/store.go).
use epochd.Base.{
  ℕ, ◌≡◌, ◌≢◌, refl, sym, ap, ◌∙◌, String, true, false, none, some, List, [], ◌∷◌, ◌++◌, map,
  append-nil, append_assoc, str_eq, str_eq_iff, arith, All,
}
use epochd.Base.Int.{pos}
use epochd.Controller.{ContainerHandle, Timeshift, Timeshifts, Controller}
use epochd.Controller.Registry.{lookup, insert, HasUniqueKeys}
use epochd.Controller.Invariant.{IsConsistent, IsWellFormed}
use epochd.Controller.Store.{
  StoredTimeshift, Json, ConfigMap, Api, store_handle, store_timeshift, load_handle, load_timeshift,
  encode, flush, load_all, load, restore,
}

-- What encoding/json documents: a marshalled list reads back as it was, and its text is not empty.
pub record IsFaithful (json : Json) : Type 0 where
  pub reads_back :
      (sts : List StoredTimeshift) (bytes : List ℕ)
      → json.marshal sts ≡ some bytes
      → json.unmarshal bytes ≡ some sts
  pub nonempty : (sts : List StoredTimeshift) → json.marshal sts ≢ some []

load-store_handles : (hs : List ContainerHandle) → map load_handle (map store_handle hs) ≡ hs
unfolding load_handle store_handle
load-store_handles [] = refl
load-store_handles (h ∷ hs) = ap (λ l. h ∷ l) (load-store_handles hs)

load-store : (s : Timeshift) → load_timeshift (store_timeshift s) ≡ s
unfolding load_timeshift store_timeshift
load-store s = ap (λ hs. record s { handles = hs }) (load-store_handles s.handles)

insert-fresh :
    (k : String) (s : Timeshift) (m : Timeshifts)
    → lookup k m ≡ none
    → insert k s m ≡ m ++ ((k, s) ∷ [])
unfolding insert lookup
insert-fresh k s [] e = refl
insert-fresh k s ((j, v) ∷ m) e = ground (arith, insert-fresh k s m)

lookup-append_none :
    (j k : String) (s : Timeshift) (m es : Timeshifts)
    → lookup j (m ++ ((k, s) ∷ es)) ≡ none
    → str_eq k j ≡ false
unfolding lookup
lookup-append_none j k s [] es e = ground arith
lookup-append_none j k s ((i, v) ∷ m) es e = ground (arith, lookup-append_none j k s m es)

HasUniqueKeys-fresh :
    (k : String) (s : Timeshift) (m es : Timeshifts)
    → HasUniqueKeys (m ++ ((k, s) ∷ es))
    → lookup k m ≡ none
unfolding lookup
HasUniqueKeys-fresh k s [] es u = refl
HasUniqueKeys-fresh k s ((j, v) ∷ m) es (e, u) = ground (
  arith,
  HasUniqueKeys-fresh k s m es u,
  lookup-append_none j k s m es e,
  str_eq_iff j k,
  str_eq_iff k j,
)

abbrev stored_form : String × Timeshift → StoredTimeshift
stored_form e = store_timeshift e.1

load_all-stored :
    (es m : Timeshifts)
    → HasUniqueKeys (m ++ es)
    → All IsConsistent es
    → load_all (map stored_form es) m ≡ m ++ es
unfolding load_all
load_all-stored [] m u a = sym (append-nil m)
load_all-stored ((k, s) ∷ es) m u (good, a) =
    let named : (store_timeshift s).id ≡ k = unfold store_timeshift in good.named in
    let step : insert (store_timeshift s).id (load_timeshift (store_timeshift s)) m
        ≡ m ++ ((k, s) ∷ []) =
      ap (λ (k' : String). insert k' (load_timeshift (store_timeshift s)) m) named
      ∙ ap (λ (s' : Timeshift). insert k s' m) (load-store s)
      ∙ insert-fresh k s m (HasUniqueKeys-fresh k s m es u) in
    ap (load_all (map stored_form es)) step
    ∙ load_all-stored es (m ++ ((k, s) ∷ [])) (rw (append_assoc m ((k, s) ∷ []) es) u) a
    ∙ append_assoc m ((k, s) ∷ []) es

flushed :
    (api : Api) (bytes : List ℕ) (cm cm' : ConfigMap)
    → flush api bytes cm ≡ some cm'
    → cm' ≡ some (("state", bytes) ∷ [])
unfolding flush
flushed api bytes cm cm' e = ground (arith, e)

load-written :
    (json : Json) (faithful : IsFaithful json) (api' : Api) (es : Timeshifts) (bytes : List ℕ)
    → HasUniqueKeys es
    → All IsConsistent es
    → encode json es ≡ some bytes
    → api'.get_fails ≡ false
    → load json api' (some (("state", bytes) ∷ [])) ≡ some es
unfolding load encode lookup
load-written json faithful api' es [] u a encoded readable = absurd (faithful.nonempty _ encoded)
load-written json faithful api' es (b ∷ bs) u a encoded readable =
    rw (readable, faithful.reads_back _ (b ∷ bs) encoded)
      (ap (λ m. some m) (load_all-stored es [] u a))

adopted :
    (json : Json) (api' : Api) (cm' : ConfigMap) (c : Controller) (es : Timeshifts)
    → load json api' cm' ≡ some es
    → HasUniqueKeys es
    → All IsConsistent es
    → c.has_store ≡ true
    → c.timeshifts ≡ []
    → c.met.active ≡ pos 0
    → ((restore json api' cm' c).timeshifts ≡ es) × IsWellFormed (restore json api' cm' c)
unfolding restore
adopted json api' cm' c [] e u a store empty idle =
    rw (store, e, restore)
      (empty, rw (empty, idle) (record { unique = tt; counted = refl; consistent = tt }))
adopted json api' cm' c (x ∷ es) e u a store empty idle =
    rw (store, e, restore) (refl, record { unique = u; counted = refl; consistent = a })

-- A controller that starts with a store, no timeshifts and its gauge at zero, after a successful
-- write of the entries `es` with unique ids and consistent modes, and that reads without an error,
-- holds exactly `es` and is well-formed, its gauge included: where what encoding/json writes reads
-- back as it was and is not empty.
pub restore-flush :
    (json : Json) (faithful : IsFaithful json) (api api' : Api) (es : Timeshifts) (bytes : List ℕ)
    (cm cm' : ConfigMap) (c : Controller)
    → HasUniqueKeys es
    → All IsConsistent es
    → encode json es ≡ some bytes
    → flush api bytes cm ≡ some cm'
    → api'.get_fails ≡ false
    → c.has_store ≡ true
    → c.timeshifts ≡ []
    → c.met.active ≡ pos 0
    → ((restore json api' cm' c).timeshifts ≡ es) × IsWellFormed (restore json api' cm' c)
restore-flush json faithful api api' es bytes cm cm' c u a encoded wrote readable store empty idle =
    adopted json api' cm' c es
      (ap (load json api') (flushed api bytes cm cm' wrote)
        ∙ load-written json faithful api' es bytes u a encoded readable)
      u a store empty idle

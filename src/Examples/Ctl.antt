-- ===== src/Examples/Ctl.antt =====
-- The theorems on the command line tool, at concrete values.
use epochd.Base.{
  ℕ, ◌≡◌, refl, String, true, Option, none, some, [], ◌∷◌, ◌++◌, map, arith, inr, leb,
}
use epochd.Base.Int.{ℤ, pos, ◌*ℤ◌}
use epochd.Clock.{unix}
use epochd.Procmem.{Errno}
use epochd.Controller.Create.{create_timeshift}
use epochd.Sdk.Service.{whole_second}
use epochd.Faketime.Heap.{find}
use epochd.Faketime.Tracker.{detach_all, interrupt_detach, stopped, new_child_tracker, handle_event}
use epochd.Ctl.{refused, required, fine}
use epochd.Ctl.Flags.{token}
use epochd.Ctl.Args.{update_args}
use epochd.Ctl.Commands.{run}
use epochd.Ctl.Commands.Requests.{IsFrugal, run-IsFrugal}
use epochd.Ctl.Documented.{run-id_first, update_args-render}
use epochd.Ctl.Service.{dialled, run-create-refines}
use epochd.Ctl.Watch.{Settings, Loop, Round, nothing, watch_event, run_watch_loop}
use epochd.Faketime.{effective_time}
use epochd.Ctl.Watch.Agrees.{DoesAgree, watch_event-DoesAgree}
use epochd.Ctl.Watch.Ends.{run_watch_loop-returns}
use epochd.Examples.{process, granting, handle, target, now}
use epochd.Examples.Control.{agents, controller, pod}
use epochd.Examples.Services.{formats, decoders, answering, client, ready}
use epochd.Examples.Tree.{reading, tracked}

abbrev no_int : String → Option ℤ
no_int s = none

update_args-render_example :
    update_args no_int formats "" ("--url=http://c" ∷ "--time=t" ∷ "--freeze" ∷ "a" ∷ [])
    ≡ fine (record { url = "http://c"; id = "a"; target = whole_second target; freeze = true })
unfolding token
update_args-render_example =
    update_args-render no_int formats "" "http://c" "t" true "a" [] (whole_second target) refl refl
      refl refl

run-IsFrugal_example :
    IsFrugal client
      (run no_int formats "http://c" (λ url. answering) decoders ("delete" ∷ "a" ∷ []) client)
run-IsFrugal_example =
    run-IsFrugal no_int formats "http://c" (λ url. answering) decoders ("delete" ∷ "a" ∷ []) client

run-id_first_example :
    (run no_int formats "http://c"
        (λ url. answering)
        decoders
        ("update" ∷ "a" ∷ "--time=t" ∷ [])
        client
      ≡ (refused (required "update" "time"), client))
    × (run no_int formats "http://c"
          (λ url. answering)
          decoders
          ("advance" ∷ "a" ∷ "--time=t" ∷ [])
          client
        ≡ (refused (required "advance" "by"), client))
unfolding token
run-id_first_example =
    run-id_first no_int formats "http://c" (λ url. answering) decoders "a" ("--time=t" ∷ []) client
      refl

run-create-refines_example :
    (run no_int formats ""
      (dialled formats agents
        (λ ns sel. some (pod ∷ []))
        (λ ip h. inr "no agent")
        true
        "b"
        now
        now
        now
        decoders
        (λ c. (true, c)))
      decoders
      ("create" ∷ "--url=http://c" ∷ "--namespace=test" ∷ "--selector=app=web" ∷ "--time=t"
        ∷ "--ttl=1m" ∷ "--freeze" ∷ [])
      ready).1.world
    ≡ (create_timeshift agents
        (some (pod ∷ []))
        true
        "b"
        now
        "test"
        "app=web"
        (whole_second target)
        (pos 60)
        true
        controller).1
unfolding ◌*ℤ◌ unix
run-create-refines_example =
    run-create-refines formats agents (λ ns sel. some (pod ∷ [])) (λ ip h. inr "no agent") true "b"
      now now now decoders (λ c. (true, c)) no_int "" "http://c" "test" "app=web" "t" "1m" true
      (whole_second target) (pos 60) ready refl refl refl refl refl refl refl refl refl refl refl
      refl

abbrev settings : Settings
settings = record { parent_pid = 7; target = target; inject_offset = pos 0; frozen = true }

abbrev begun : Loop
begun = record {
  parent = handle;
  child_handles = [];
  pending_stop = [];
  machines = λ pid. process;
  requests = [];
}

watch_event-DoesAgree_example :
    DoesAgree
      (handle_event (λ pid. granting) reading 7 (stopped 5 1) tracked)
      (watch_event (λ pid. granting) settings reading 7 (stopped 5 1) begun)
unfolding find new_child_tracker effective_time
watch_event-DoesAgree_example =
    watch_event-DoesAgree (λ pid. granting) settings reading 7 (stopped 5 1) tracked begun refl refl
      (record { mode = refl; shown = refl })
      (record {
        same_requests = refl;
        same_machines = λ j. refl;
        same_children = λ j. refl;
        same_pending = λ j. refl;
      })

-- The channel is closed after three rounds without an event.
abbrev rounds : ℕ → Round
rounds n = record { closed = leb 3 n; waited = nothing }

run_watch_loop-returns_example :
    (e : Option Errno) × (last : Loop) × (run_watch_loop (λ pid. granting) settings rounds 4 0 begun
      ≡ some (
        e,
        record last {
          requests =
              (last.requests ++ detach_all (map (λ c. c.0) last.child_handles) ∷ [])
              ++ interrupt_detach ∷ [];
        },
      ))
run_watch_loop-returns_example =
    run_watch_loop-returns (λ pid. granting) settings rounds 4 3 0 begun refl (omega arith)

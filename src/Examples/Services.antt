-- ===== src/Examples/Services.antt =====
-- The theorems on the handlers, the client and the lookup of a pid, at concrete values.
use epochd.Base.{
  if◌then◌else◌, ℕ, ◌-◌, ◌≤◌, ◌<◌, ◌≡◌, refl, true, false, Option, none, some, List, [], ◌∷◌, arith,
  ◌==◌, inr,
}
use epochd.Base.Int.{pos, ◌-ℤ◌, ◌*ℤ◌}
use epochd.Clock.{unix, zero_time}
use epochd.Controller.{Timeshift, Controller}
use epochd.Controller.Registry.{lookup}
use epochd.Controller.Handlers.{Formats, handle_create_timeshift}
use epochd.Controller.Handlers.Outcome.{CreateAnswer, handle_create_timeshift_outcome}
use epochd.Controller.Update.Effective.{IsStored, IsShowing}
use epochd.Resolve.{ProcEntry, lookup_pid}
use epochd.Resolve.Lowest.{Names, LookupOutcome, lookup_pid_outcome}
use epochd.Api.{no_body, timeshift_body, list_body, status_body, resolve_body, Response}
use epochd.Sdk.{
  delete_request, Request, create_request, status_request, Decoders, World, Client, Outcome, done,
  ClientTimeshift, create, update,
}
use epochd.Sdk.Scoped.{with_time_mode}
use epochd.Sdk.Cleanup.{IsDeleted, with_time_mode-deletes}
use epochd.Sdk.Service.{whole_second, service, update-IsShowing}
use epochd.Examples.{target, now}
use epochd.Examples.Control.{agents, controller, pod, shift}

-- "docker://0123456789abcdef", and a process 42 in that container among others.
abbrev container_id : List ℕ
container_id =
    100 ∷ 111 ∷ 99 ∷ 107 ∷ 101 ∷ 114 ∷ 58 ∷ 47 ∷ 47 ∷ 48 ∷ 49 ∷ 50 ∷ 51 ∷ 52 ∷ 53 ∷ 54 ∷ 55 ∷ 56
    ∷ 57 ∷ 97 ∷ 98 ∷ 99 ∷ 100 ∷ 101 ∷ 102 ∷ []

abbrev proc : List ProcEntry
proc =
    record {
      name = 52 ∷ 50 ∷ [];
      cgroup = some (
          47 ∷ 48 ∷ 49 ∷ 50 ∷ 51 ∷ 52 ∷ 53 ∷ 54 ∷ 55 ∷ 56 ∷ 57 ∷ 97 ∷ 98 ∷ 99 ∷ 100 ∷ 101 ∷ 102
          ∷ []);
    }
    ∷ record { name = 55 ∷ []; cgroup = none }
    ∷ []

-- What stands behind "docker://" in the id.
abbrev bare : List ℕ
bare = 48 ∷ 49 ∷ 50 ∷ 51 ∷ 52 ∷ 53 ∷ 54 ∷ 55 ∷ 56 ∷ 57 ∷ 97 ∷ 98 ∷ 99 ∷ 100 ∷ 101 ∷ 102 ∷ []

-- The name of the runtime.
abbrev runtime : List ℕ
runtime = 100 ∷ 111 ∷ 99 ∷ 107 ∷ 101 ∷ 114 ∷ []

container_id-Names : Names container_id bare
container_id-Names = inr (runtime, refl, ground arith)

lookup_pid_outcome_example : LookupOutcome bare proc (lookup_pid container_id (some proc))
lookup_pid_outcome_example =
    lookup_pid_outcome container_id bare proc container_id-Names (omega arith)

-- Text in which every instant is written alike.
abbrev pub formats : Formats
formats = record {
  format = λ t. "2026-01-01T00:00:00Z";
  parse = λ s. some (whole_second target);
  parse_duration = λ s. some (pos 60);
  duration_text = λ d. "1m0s";
  sort_strings = λ l. l;
  sort_timeshifts = λ less l. l;
  sort_pods = λ less l. l;
  less = λ s t. false;
}

handle_create_timeshift_outcome_example : CreateAnswer formats now "b" controller (
    handle_create_timeshift formats agents
      (some (pod ∷ []))
      true
      "b"
      now
      now
      (some (record {
        namespace = "test";
        label_selector = "app=web";
        time = "t";
        ttl = "";
        freeze = true;
      }))
      controller)
handle_create_timeshift_outcome_example =
    handle_create_timeshift_outcome formats agents (some (pod ∷ [])) true "b" now now
      (some (record {
        namespace = "test";
        label_selector = "app=web";
        time = "t";
        ttl = "";
        freeze = true;
      }))
      controller

-- The decoding of the bodies as they were sent.
abbrev pub decoders : Decoders
decoders = record {
  timeshift = λ b. elim b [ timeshift_body r ↦ some r | _ ↦ none ];
  timeshifts = λ b. elim b [ list_body r ↦ some r | _ ↦ none ];
  status = λ b. elim b [ status_body r ↦ some r | _ ↦ none ];
  pods = λ b. elim b [ resolve_body r ↦ some r | _ ↦ none ];
}

abbrev answers : Request → Option Response
answers (create_request r) = some (record {
  code = 201;
  body = timeshift_body (record {
    id = "a";
    namespace = "prod";
    time = "t";
    frozen = false;
    expires_at = "";
    applied_to = [];
  });
})
answers (status_request id) = some (record {
  code = 200;
  body = status_body (record {
    id = "a";
    namespace = "prod";
    containers =
        record {
          pod = "web-0";
          container = "app";
          node_ip = "10.0.0.1";
          status =
              some
                (record { generation = 1; last_target = "t"; state_addr = "0x1000"; pid = pos 7 });
          error = "";
        }
        ∷ [];
  });
})
answers (delete_request id) = some (record { code = 204; body = no_body })
answers _ = none

-- A controller whose one container is ready; the state is the number of pauses before the context ends, and
-- nothing is exchanged once it has.
abbrev pub answering : World ℕ
answering = record {
  exchange = λ req n. (if n == 0 then none else answers req, n);
  pause = λ n. (n == 0, n - 1);
}

abbrev pub client : Client ℕ
client = record { world = 3; asked = [] }

exchange_keeps : (req : Request) (n : ℕ) → (answering.exchange req n).1 ≤ n
exchange_keeps req n = omega arith

pause_counts : (n : ℕ) → (answering.pause n).0 ≡ false → (answering.pause n).1 < n
pause_counts n e = ground (arith, e)

abbrev created_shift : ClientTimeshift
created_shift = record {
  id = "a";
  namespace = "prod";
  time = whole_second target;
  frozen = false;
  expires_at = zero_time;
  applied_to = [];
}

abbrev after_create : Client ℕ
after_create = (create answering decoders formats "prod" "app=web" target (pos 60) false client).1

with_time_mode-deletes_example :
    (out : Outcome Unit × Client ℕ) × (with_time_mode answering decoders formats 4 "prod" "app=web"
        target
        (pos 60)
        false
        (λ s st. (done tt, st))
        client
      ≡ some out)
    × IsDeleted answering decoders formats "a" out.1
unfolding create
with_time_mode-deletes_example =
    with_time_mode-deletes answering decoders formats (λ n. n) exchange_keeps pause_counts 4 "prod"
      "app=web" target (pos 60) false (λ s st. (done tt, st)) client after_create created_shift refl
      refl (omega arith)

abbrev pub ready : Client Controller
ready = record { world = controller; asked = [] }

-- The controller behind the client.
abbrev pub behind : World Controller
behind =
    service formats agents (λ ns sel. some (pod ∷ [])) (λ ip h. inr "no agent") true "b" now now now
      decoders (λ c. (true, c))

update-IsShowing_example :
    (s' : Timeshift) × IsStored controller "a" s'
      (update behind decoders formats "a" target true ready).1.world
    × IsShowing s' true now (whole_second target)
unfolding lookup ◌-ℤ◌ ◌*ℤ◌ unix
update-IsShowing_example =
    update-IsShowing formats agents (λ ns sel. some (pod ∷ [])) (λ ip h. inr "no agent") true "b"
      now now now decoders (λ c. (true, c)) target refl refl "a" true shift ready refl
      (record { low = omega arith; high = omega arith })

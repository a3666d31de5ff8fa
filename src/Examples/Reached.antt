-- ===== src/Examples/Reached.antt =====
-- The theorem on the sessions that a program reaches, where a process was attached.
use epochd.Base.{false, none}
use epochd.Faketime.Session as Group
use epochd.Faketime.Session.{Session, new_session}
use epochd.Faketime as Fake
use epochd.Inject.Handle as Hook
use epochd.Faketime.Session.Reached.{Running, added, attached, over, followed, Steps}
use epochd.Examples.{granting, target, now}
use epochd.Examples.Process.{located}
use epochd.Examples.Tree.{heap}

abbrev begun : Running
begun = record { session = new_session now target false none none; heap = heap }

-- The session behind an attach to a process.
abbrev attached_once : Running
attached_once =
    added
      (Group.attach (λ pid. granting) now now now located "/bin/app" (begun.session, begun.heap))

abbrev steps : Steps (λ pid. granting) begun attached_once
steps =
    followed begun attached_once attached_once (attached now now now located "/bin/app" begun)
      (over attached_once)

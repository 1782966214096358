-- ===== src/Client/Adapter/Tests.antt =====
-- The theorems on client_tcp_adapter.cpp at concrete adapters.
use wfc_io.Prelude.{◌≡◌, refl, true, none, some, List, [], ◌∷◌, ◌==◌}
use wfc_io.Iface.{Alive, DataPtr, external}
use wfc_io.Client.Options.{Config, default_config}
use wfc_io.Client.Adapter.{Adapter, init, Wrapper}
use wfc_io.Client.Adapter.Performing.{Wire, perform_io}
use wfc_io.Client.Adapter.Holders.{sends, run}
use wfc_io.Client.Adapter.Sending.{
  Message, run_reports, errors, told, new_failures, refused, sent_flags,
}
use wfc_io.Client.Adapter.Sending

-- Object 5 alone is there.
abbrev only_five : Alive
only_five n = n == 5

abbrev options : Config
options = default_config "localhost" "12345" "" ""

abbrev fresh : Adapter
fresh = init 3 40 true options

-- A client that sends everything, and one that sends nothing.
abbrev open_wire : Wire
open_wire = record { send = λ d. none; send_anew = λ d opt. none }

abbrev closed_wire : Wire
closed_wire = record { send = λ d. d; send_anew = λ d opt. d }

abbrev payload : DataPtr
payload = some (1 ∷ 2 ∷ [])

abbrev first_wrapper : Wrapper
first_wrapper = record { serial = 0; handler = external 2 }

wrapper_made :
    (run
      (sends only_five open_wire payload 9 (external 2) ∷ [])
      (init 3 40 true options)).perform_holder
    ≡ some first_wrapper
unfolding run perform_io init
wrapper_made = refl

abbrev message : Wire → Message
message w = record { alive = only_five; wire = w; body = payload; io_id = 9; handler = external 2 }

abbrev messages : List Message
messages = message closed_wire ∷ message closed_wire ∷ message open_wire ∷ message closed_wire ∷ []

-- Two errors for three failures.
messages-errors : errors (Sending.run messages fresh).1 ≡ 2
unfolding Sending.run perform_io init
messages-errors = refl

run_reports_example :
    let flags = sent_flags messages fresh.options in
    (errors (Sending.run messages fresh).1 ≡ new_failures fresh.error_flag flags)
    × (told (Sending.run messages fresh).1 ≡ refused messages flags)
run_reports_example = run_reports messages fresh

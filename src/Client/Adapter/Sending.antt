-- ===== src/Client/Adapter/Sending.antt =====
-- What a client_tcp_adapter reports when its messages cannot be sent.
use wfc_io.Prelude.{
  ℕ, ◌+◌, ◌≡◌, refl, Bool, true, false, not, none, some, List, [], ◌∷◌, ◌++◌, arith, total,
  total-append, if◌then◌else◌,
}
use wfc_io.Iface.{DataPtr, Alive, Handler, invokes, is_empty}
use wfc_io.Client.Options.{Config}
use wfc_io.Client.Adapter.{Adapter, Event, calls, error}
use wfc_io.Client.Adapter.Performing.{Wire, wrap_holder, send_data, perform_io, try_anew, unsent}

-- One call of `perform_io`, with what the TCP client does with the data.
pub record Message : Type 0 where
  pub alive : Alive
  pub wire : Wire
  pub body : DataPtr
  pub io_id : ℕ
  pub handler : Handler

unfoldable pub perform : Message → Adapter → Adapter × List Event
perform m a = perform_io m.alive m.wire m.body m.io_id m.handler a

unfoldable pub run : List Message → Adapter → Adapter × List Event
unfolding perform
run [] a = (a, [])
run (m ∷ ms) a = let (b, es) = perform m a in let (c, fs) = run ms b in (c, es ++ fs)

-- How many errors a list of events logs.
abbrev pub is_error : Event → ℕ
is_error error = 1
is_error _ = 0

abbrev pub errors : List Event → ℕ
errors = total is_error

-- The calls of handlers in a list of events, each with the data that the handler gets.
abbrev pub told : List Event → List (Handler × DataPtr)
told [] = []
told (calls (invokes h d) ∷ es) = (h, d) ∷ told es
told (e ∷ es) = told es

told-append : (es fs : List Event) → told (es ++ fs) ≡ told es ++ told fs
told-append [] fs = refl
told-append (e ∷ es) fs = ground (arith, told-append es fs)

abbrev is_none : DataPtr → Bool
is_none none = true
is_none (some d) = false

-- Whether the data are sent, on a connection that there is or on a new one.
abbrev pub is_sent : Message → Config → Bool
is_sent m opt = elim (m.wire.send m.body) [
  | none ↦ true
  | some rest ↦ is_none (m.wire.send_anew (some rest) opt)
]

-- The same of each message of a list, under the options of the adapter.
abbrev pub sent_flags : List Message → Config → List Bool
sent_flags [] opt = []
sent_flags (m ∷ ms) opt = is_sent m opt ∷ sent_flags ms opt

-- How many failures follow a success, where `failed` says what was before the first.
abbrev pub new_failures : Bool → List Bool → ℕ
new_failures failed [] = 0
new_failures failed (sent ∷ bs) =
    (if sent then 0 else if failed then 0 else 1) + new_failures (not sent) bs

-- That there is no answer, for the handlers of the messages that were not sent, in their order.
abbrev pub refused : List Message → List Bool → List (Handler × DataPtr)
refused (m ∷ ms) (sent ∷ bs) =
    (if sent then [] else if is_empty m.handler then [] else (m.handler, none) ∷ [])
    ++ refused ms bs
refused _ _ = []

module _ (m : Message) (a : Adapter) where
  wrap_holder_events :
      let (b, es) = wrap_holder m.alive m.io_id m.handler a in
      (errors es ≡ 0) × (told es ≡ []) × (b.error_flag ≡ a.error_flag) × (b.options ≡ a.options)
  unfolding wrap_holder
  wrap_holder_events = ground arith

  perform_lem :
      let (b, es) = perform m a in
      (errors es ≡ (if is_sent m a.options then 0 else if a.error_flag then 0 else 1))
      × (told es ≡ (
          if is_sent m a.options
          then []
          else if is_empty m.handler
          then []
          else (m.handler, none) ∷ []))
      × (b.error_flag ≡ not (is_sent m a.options))
      × (b.options ≡ a.options)
  unfolding perform perform_io send_data try_anew unsent
  perform_lem = ground (arith, wrap_holder_events)

run_lem :
    (ms : List Message) (a : Adapter) (failed : Bool) (opt : Config)
    → a.error_flag ≡ failed
    → a.options ≡ opt
    → let flags = sent_flags ms opt in
      (errors (run ms a).1 ≡ new_failures failed flags) × (told (run ms a).1 ≡ refused ms flags)
unfolding run
run_lem [] a failed opt e o = (refl, refl)
run_lem (m ∷ ms) a failed opt e o =
    let (b, es) = perform m a in
    let fs = (run ms b).1 in
    ground (
      arith,
      perform_lem m a,
      total-append is_error es fs,
      told-append es fs,
      run_lem ms b (not (is_sent m opt)) opt,
    )

-- Over any sequence of messages an adapter logs one error for each failure to send that follows a
-- success, and none for the failures in a row after it; and the handlers that it calls are those of
-- the messages with a handler that were not sent, each of these once and in their order, to tell it
-- that there is no answer.
pub run_reports :
    (ms : List Message) (a : Adapter)
    → let flags = sent_flags ms a.options in
      (errors (run ms a).1 ≡ new_failures a.error_flag flags)
      × (told (run ms a).1 ≡ refused ms flags)
run_reports ms a = run_lem ms a a.error_flag a.options refl refl

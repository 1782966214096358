-- ===== src/Client/Adapter/Performing.antt =====
-- `client_tcp_adapter::perform_io` of client_tcp_adapter.cpp, and the closure that answers through
-- it.
use wfc_io.Prelude.{
  ℕ, suc, Bool, true, false, not, ◌&&◌, ◌||◌, Option, none, some, List, [], ◌∷◌, ◌++◌, ◌==◌,
  if◌then◌else◌,
}
use wfc_io.Iface.{DataPtr, Alive, Handler, invokes, is_empty}
use wfc_io.Client.Options.{Config}
use wfc_io.Client.Adapter.{
  Adapter, Target, Event, calls, sends, sends_anew, error, warning, wrapped, get_holder,
}

unfoldable pub is_missing : Option Target → Bool
is_missing none = true
is_missing (some h) = false

-- The first part of `perform_io`: a wrapper stands in for a holder that did not register.
unfoldable pub wrap_holder : Alive → ℕ → Handler → Adapter → Adapter × List Event
unfolding get_holder is_missing
wrap_holder alive io_id handler a =
    if (is_missing (get_holder alive a) || io_id == 0) && (not (is_empty handler) || io_id == 0)
    then (
      record a {
        holder_id = io_id;
        holder = wrapped a.made;
        perform_holder = some (record { serial = a.made; handler = handler });
        made = suc a.made;
      },
      warning ∷ [],
    )
    else (a, [])

-- What the TCP client gives back: the data that it could not send, on the connections that there
-- are, and on a new one.
pub record Wire : Type 0 where
  pub send : DataPtr → DataPtr
  pub send_anew : DataPtr → Config → DataPtr

-- The last part of `perform_io`: nothing was sent.
unfoldable pub unsent : Handler → Adapter → Adapter × List Event
unsent handler a = (
  record a { error_flag = true },
  (if a.error_flag then [] else error ∷ [])
      ++ (if is_empty handler then [] else calls (invokes handler none) ∷ []),
)

unfoldable pub try_anew : Wire → DataPtr → Handler → Adapter → Adapter × List Event
unfolding unsent
try_anew wire rd1 handler a = elim (wire.send_anew rd1 a.options) [
  | none ↦ (record a { error_flag = false }, [])
  | some rd2 ↦ unsent handler a
]

unfoldable pub send_data : Wire → DataPtr → Handler → Adapter → Adapter × List Event
unfolding try_anew
send_data wire d handler a = elim (wire.send d) [
  | none ↦ (record a { error_flag = false }, sends d ∷ [])
  | some rd1 ↦
      let (a', es) = try_anew wire (some rd1) handler a in
      (a', sends d ∷ sends_anew (some rd1) a.options ∷ es)
]

unfoldable pub perform_io : Alive → Wire → DataPtr → ℕ → Handler → Adapter → Adapter × List Event
unfolding wrap_holder send_data
perform_io alive wire d io_id handler a =
    let (a', es) = wrap_holder alive io_id handler a in
    let (a'', fs) = send_data wire d handler a' in (a'', es ++ fs)

-- The closure that answers over another connection.
unfoldable pub answer : Alive → Wire → DataPtr → Adapter → Adapter × List Event
unfolding perform_io
answer alive wire d a = perform_io alive wire d a.holder_id Handler.empty a

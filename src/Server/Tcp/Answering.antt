-- ===== src/Server/Tcp/Answering.antt =====
-- What comes in over a connection of a server_tcp, and the answers.
use wfc_io.Prelude.{ℕ, ◌≡◌, none, some, [], ◌∷◌, arith, if◌then◌else◌}
use wfc_io.Iface.{DataPtr, Handler, external, closing, performs, invokes, ok}
use wfc_io.Server.Tcp.{
  Accepting, ServerTcp, calls, receive, call_handler, run_options, set_separators,
}

-- What comes in over a connection that an object accepts goes to the target that the object has
-- when the server starts, unchanged and under the connection's identifier; when the target answers,
-- the connection's handler gets the answer unchanged, and then null, which closes the connection,
-- exactly if connections are not kept alive.
pub answer_closes :
    (d reply : DataPtr) (id n t : ℕ) (s : ServerTcp) (a : Accepting)
    → s.target ≡ some t
    → (run_options s).input_handler ≡ some a
    → (handler : Handler) × (receive a d id (external n)
        ≡ ok (calls (performs t d id handler) ∷ []))
      × (call_handler handler reply
          ≡ ok (
              calls (invokes (external n) reply)
              ∷ (if s.options.keep_alive then [] else calls (invokes (external n) none) ∷ [])))
unfolding run_options set_separators receive call_handler
answer_closes d reply id n t s a target input = (
  (if s.options.keep_alive then external n else closing (external n)),
  ground (arith, target, input),
  ground arith,
)

-- ===== src/Proxy/Replying.antt =====
-- What comes in over a connection of a server_tcp in front of a client_tcp, and what goes out.
use wfc_io.Prelude.{
  ℕ, ◌≡◌, refl, ap, ◌∙◌, ◌≢◌, Bool, inl, inr, true, false, Option, some, List, [], ◌∷◌, map, String,
  Bool-cases, Option-cases,
}
use wfc_io.Iface.{DataPtr, Alive, Handler, is_empty, ok}
use wfc_io.Client.Options.{Config}
use wfc_io.Client.Map.{ClientMap, find, null}
use wfc_io.Client.Map
use wfc_io.Client.Adapter
use wfc_io.Client.Adapter.Performing.{Wire, send_data}
use wfc_io.Client.System.{World, Store}
use wfc_io.Client.System.Binding.{operate-Sent, Bound-Delivers}
use wfc_io.Client.System.Binding.{Delivers, adapter_of}
use wfc_io.Client.Tcp.{Statistics}
use wfc_io.Client.Tcp.Driving.{system}
use wfc_io.Client.Tcp.Component.{Component, Request, handle, serve, sends, regs}
use wfc_io.Client.Tcp.Component
use wfc_io.Client.Tcp.Component.Lasting.{Sound}
use wfc_io.Client.Tcp.Component.Staying.{AllAsk, run-SameState}
use wfc_io.Client.Tcp.Component.Passing.{perform_io-passed}
use wfc_io.Client.Tcp.Component.Reaching.{answers_then, run_one}
use wfc_io.Client.Tcp.Component.Serving.{
  Serves, AllSpare, serve-passed, operated, run-Serves, regs-Serves,
}
use wfc_io.Client.Tcp.Component.Starting.{made, IsSound-now}
use wfc_io.Proxy.{Happening, opens, comes, ends, Front, happen, history, outgoing}
use wfc_io.Proxy.Requesting.{
  Fronts, AllThere, request, answerer, requests, history-requests, comes_through,
}

-- Other connections do what they like, and so does this one until it ends, while it is there.
abbrev pub Stays : ℕ → ℕ → World → Happening → Type 0
Stays id conn w (opens other j) = id ≢ j
Stays id conn w (comes j d h) = id ≡ j → w.alive conn ≡ true
Stays id conn w (ends other j) = id ≢ j

abbrev pub AllStay : ℕ → ℕ → List (World × Happening) → Type 0
AllStay id conn [] = Unit
AllStay id conn ((w, h) ∷ hs) = Stays id conn w h × AllStay id conn hs

stays-AllSpare :
    (id conn : ℕ) (f : Front) (hs : List (World × Happening))
    → AllStay id conn hs
    → AllSpare id conn (requests f hs)
stays-AllSpare id conn f [] k = tt
stays-AllSpare id conn f ((w, opens other j) ∷ hs) k = (k.0, stays-AllSpare id conn f hs k.1)
stays-AllSpare id conn f ((w, comes j d h) ∷ hs) k = (k.0, stays-AllSpare id conn f hs k.1)
stays-AllSpare id conn f ((w, ends other j) ∷ hs) k = (k.0, stays-AllSpare id conn f hs k.1)

outgoing-answer :
    (later : Alive) (n : ℕ) (a : Adapter.Adapter) (d : DataPtr) (handler : Handler)
    → Delivers later n a
    → outgoing (Adapter.receive later d handler a) ≡ (n, d) ∷ []
unfolding outgoing
outgoing-answer later n a d handler delivers =
    rw (delivers d handler) (elim (Bool-cases a.keep_alive) [
      | inl kept ↦ rw kept
      | inr closes ↦ rw closes (elim (Bool-cases (is_empty handler)) [
        | inl none_there ↦ rw none_there
        | inr real ↦ rw real
      ])
    ])

-- What is sent is offered to the connections that there are first.
send_data-sends :
    (wire : Wire) (d : DataPtr) (handler : Handler) (a : Adapter.Adapter)
    → (es : List Adapter.Event) × ((send_data wire d handler a).1 ≡ Adapter.sends d ∷ es)
unfolding send_data
send_data-sends wire d handler a = elim (Option-cases (wire.send d)) [
  | inl gone ↦ rw (gone, send_data) ([], refl)
  | inr (rd, left) ↦ rw (left, send_data) (_, refl)
]

-- What comes in over a connection that is served is sent over the client of its source alone.
asks_own :
    (w : World) (f : Front) (d : DataPtr) (id conn h : ℕ) (c : Component) (s : Serves id conn c)
    → c.tcp.suspended ≡ false
    → w.alive conn ≡ true
    → id ≢ 0
    → (next : Component) × (es : List Adapter.Event) × (serve w (request f (comes id d h)) c
        ≡ ok (next, map (λ e. (find id s.map_now, e)) (Adapter.sends d ∷ es)))
unfolding handle
asks_own w f d id conn h c s active there real =
    let op = Map.sends d id (answerer f h) in
    let here = system s.map_now c.adapters in
    let cli = find id s.map_now in
    let passes =
      serve-passed w (sends d id (answerer f h)) op c s.map_now
        (ap ok (perform_io-passed id c.tcp s.map_now s.sound.has_map d (answerer f h) active)) in
    let k =
      operate-Sent w d id conn (answerer f h) here (s.sound.open_map s.started) s.bound there
        real in
    let (es, e) = send_data-sends (w.wire cli) d (answerer f h) (adapter_of id here) in
    let next = (operated w op c s.map_now).0 in
    (next, es, passes ∙ ap (λ os. ok (next, os)) (k.output ∙ ap (map (λ x. (cli, x))) e))

requests-AllAsk : (f : Front) (hs : List (World × Happening)) → AllAsk (requests f hs)
requests-AllAsk f [] = tt
requests-AllAsk f ((w, opens other j) ∷ hs) = (tt, requests-AllAsk f hs)
requests-AllAsk f ((w, comes j d h) ∷ hs) = (tt, requests-AllAsk f hs)
requests-AllAsk f ((w, ends other j) ∷ hs) = (tt, requests-AllAsk f hs)

opened-Serves :
    (t : ℕ) (f : Front) (id conn : ℕ) (w : World) (after : List (World × Happening)) (c : Component)
    (m : ClientMap)
    → Fronts t f
    → AllThere t ((w, opens conn id) ∷ after)
    → AllStay id conn after
    → Sound c.tcp m
    → c.tcp.suspended ≡ false
    → c.tcp.client_started ≡ true
    → id ≢ 0
    → (d : Component) × (history t f ((w, opens conn id) ∷ after) c ≡ ok d)
      × Serves id conn d
      × (d.tcp.suspended ≡ false)
opened-Serves t f id conn w after c m front there stay s active on real =
    let all = (w, opens conn id) ∷ after in
    let (d, e, served) =
      answers_then w (regs id (some conn)) (requests f after) c (Serves id conn) (Serves id conn)
        (regs-Serves w id conn c m s on active)
        (λ (x : Component) (k : Serves id conn x).
          run-Serves (requests f after) id conn x k real (stays-AllSpare id conn f after stay)) in
    (
      d,
      history-requests t f all c front there ∙ e,
      served,
      (run-SameState (requests f all) c d (requests-AllAsk f all) e).0 ∙ active,
    )

module _ (name : String) (suspended : Bool) (options : Config) (statistics : Option Statistics)
    (default : Config) (st : Store) (before : List (World × Request)) (c : Component)
    (reached : Component.run before (made name suspended options statistics default st)
      ≡ ok c) where
  -- A server in front of a client connects its connections one to one: let a component
  -- `client-tcp`, after any history that it returns from, new and initialized, be started and not
  -- suspended, and be the target of a server that is not suspended, whose `winterface` then passes
  -- on what it gets, and whose connections register. If a connection begins with an identifier
  -- other than 0, and then other connections begin, get data and end in any order, and this one
  -- gets data while it is there, with the target of the connections there all the time, then all of
  -- it returns, and the component has a client for the connection. Data that then comes in over the
  -- connection, while it is there, returns, is sent over that client, and every event that follows
  -- is of that client alone; and what then comes in over the client goes out over that connection,
  -- which is there and has a handler for it, once and unchanged, and over no other.
  pub proxied :
      (t : ℕ) (f : Front) (id conn : ℕ) (w w2 : World) (after : List (World × Happening))
      (later : Alive) (request_data reply : DataPtr) (h : ℕ) (handler : Handler)
      → Fronts t f
      → AllThere t ((w, opens conn id) ∷ after)
      → AllStay id conn after
      → c.tcp.suspended ≡ false
      → c.tcp.client_started ≡ true
      → id ≢ 0
      → w2.alive conn ≡ true
      → later conn ≡ true
      → (d : Component) × (m : ClientMap) × (history t f ((w, opens conn id) ∷ after) c ≡ ok d)
        × (d.tcp.client_map ≡ some m)
        × (find id m ≢ null)
        × (next : Component) × (es : List Adapter.Event) × (happen t f w2
              (comes id request_data h)
              d
            ≡ ok next)
        × (serve w2 (request f (comes id request_data h)) d
            ≡ ok (next, map (λ e. (find id m, e)) (Adapter.sends request_data ∷ es)))
        × (outgoing (Adapter.receive later reply handler (adapter_of id (system m d.adapters)))
            ≡ (conn, reply) ∷ [])
  proxied t f id conn w w2 after later asked_data reply h handler front there stay active on real
        here heard =
      let (m, s) = IsSound-now name suspended options statistics default st before c reached in
      let (d, e, served, still) =
        opened-Serves t f id conn w after c m front there stay s active on real in
      let (next, es, asked) = asks_own w2 f asked_data id conn h d served still here real in
      (
        d,
        served.map_now,
        e,
        served.sound.has_map,
        served.bound.0,
        next,
        es,
        comes_through t f front.passing w2 id h asked_data d ∙ run_one w2 _ d next _ asked,
        asked,
        outgoing-answer later conn (adapter_of id (system served.map_now d.adapters)) reply handler
            (Bound-Delivers later id conn (system served.map_now d.adapters) served.bound heard),
      )

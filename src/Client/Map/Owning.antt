-- ===== src/Client/Map/Owning.antt =====
-- Which source an adapter may be noted for by a `client_tcp_map` of client_tcp_map.cpp.
use wfc_io.Prelude.{ℕ, ◌<◌, ◌≡◌, refl, sym, ap, ◌∙◌, ◌≢◌, ◌⊎◌, inl, inr, arith, ◌==◌, Bool-cases}
use wfc_io.Client.Options.{Config}
use wfc_io.Client.Map.{ClientMap, Op, reconfigures, null, find, step, stop, reconfigure_and_start}
use wfc_io.Client.Map.Ownership.{Inv, holds}
use wfc_io.Client.Map.History.{IsInternal, step-Grows, step-Inv}
use wfc_io.Client.Map.Touching.{find-below}
use wfc_io.Client.Map.Restart.{reconfigure_replaces}
use wfc_io.Client.Map.Refinement.{Serves, Forgets, view}
use wfc_io.Client.Map.Refinement.Steps.{serving-holds, Inv-Exclusive}

-- A client that was made and that nobody holds any more.
abbrev pub Gone : ℕ → ClientMap → Type 0
Gone c s = (holds c s ≡ 0) × (c < s.next)

-- A client is noted for no source, for the source that it serves, or it is gone.
abbrev pub Owned : ClientMap → ℕ → ℕ → Type 0
Owned s c id = (id ≡ 0) ⊎ (find id s ≡ c) ⊎ Gone c s

Gone-step :
    (op : Op) (c : ℕ) (s : ClientMap) → IsInternal op → Inv s → Gone c s → Gone c (step op s).0
Gone-step op c s i v (none_held, made) =
    let g = step-Grows op s i v in omega (arith, g.balance c, g.above c made, g.grows, none_held)

null-Gone : (s : ClientMap) → Inv s → Gone null s
null-Gone s v = (v.nonnull, v.positive)

module _ (op : Op) (s : ClientMap) (i : IsInternal op) (v : Inv s) where
  -- The client that serves a source after a request of it was noted for that source, if for any.
  pub Owned-own :
      (id h : ℕ)
      → Serves id (view s) (view (step op s).0)
      → Owned s (find id (step op s).0) h
      → (h ≡ 0) ⊎ (h ≡ id)
  Owned-own id h serves (inl zero_noted) = inl zero_noted
  Owned-own id h serves (inr (inl serving)) = elim (Bool-cases (h == id)) [
    | inl own ↦ inr (ground arith)
    | inr other ↦
        let t = (step op s).0 in
        let e : find id t ≡ find h t = sym serving ∙ sym (serves.others h (ground arith)) in
        inr (sym (Inv-Exclusive t (step-Inv op s i v) id h serves.there e))
  ]
  Owned-own id h serves (inr (inr gone)) =
      let t = (step op s).0 in
      absurd (omega (arith, serving-holds id t serves.there, Gone-step op (find id t) s i v gone))

  -- The others stay as they were noted.
  pub Owned-other :
      (id c h : ℕ)
      → Serves id (view s) (view (step op s).0)
      → c ≢ find id (step op s).0
      → Owned s c h
      → Owned (step op s).0 c h
  Owned-other id c h serves other (inl zero_noted) = inl zero_noted
  Owned-other id c h serves other (inr (inl serving)) = elim (Bool-cases (h == id)) [
    | inl own ↦
        let e : h ≡ id = ground arith in
        elim (Bool-cases (c == null)) [
          | inl nobody ↦ inr (inr (ground (arith, null-Gone (step op s).0 (step-Inv op s i v))))
          | inr real ↦ absurd (
              other (sym (serves.keeps (ground (arith, e)) ∙ ap (λ j. find j s) (sym e) ∙ serving)))
        ]
    | inr foreign ↦ inr (inl (serves.others h (ground arith) ∙ serving))
  ]
  Owned-other id c h serves other (inr (inr gone)) = inr (inr (Gone-step op c s i v gone))

-- The client of a source that leaves was noted for that source, if for any.
pub Owned-leaving :
    (id h : ℕ) (s : ClientMap)
    → Inv s
    → find id s ≢ null
    → Owned s (find id s) h
    → (h ≡ 0) ⊎ (h ≡ id)
Owned-leaving id h s v known (inl zero_noted) = inl zero_noted
Owned-leaving id h s v known (inr (inl serving)) =
    inr (sym (Inv-Exclusive s v id h known (sym serving)))
Owned-leaving id h s v known (inr (inr gone)) =
    absurd (omega (arith, serving-holds id s known, gone))

pub Owned-left :
    (op : Op) (id c h : ℕ) (s : ClientMap)
    → IsInternal op
    → Inv s
    → Forgets id (view s) (view (step op s).0)
    → c ≢ find id s
    → Owned s c h
    → Owned (step op s).0 c h
Owned-left op id c h s i v forgets other (inl zero_noted) = inl zero_noted
Owned-left op id c h s i v forgets other (inr (inl serving)) = elim (Bool-cases (h == id)) [
  | inl own ↦ let e : h ≡ id = ground arith in absurd (other (sym serving ∙ ap (λ j. find j s) e))
  | inr foreign ↦ inr (inl (forgets.others h (ground arith) ∙ serving))
]
Owned-left op id c h s i v forgets other (inr (inr gone)) = inr (inr (Gone-step op c s i v gone))

-- A client that served a source was made.
serving-made : (c h : ℕ) (s : ClientMap) → Inv s → find h s ≡ c → c < s.next
serving-made c h s v serving = elim (Bool-cases (c == null)) [
  | inl nobody ↦ ground (arith, v.positive)
  | inr real ↦
      let known : find h s ≢ null = ground (arith, serving) in
      ground (arith, find-below h s v known, serving)
]

-- After a stop no client is held.
pub Owned-stop : (c h : ℕ) (s : ClientMap) → Inv s → Owned s c h → Owned (stop s).0 c h
unfolding stop
Owned-stop c h s v (inl zero_noted) = inl zero_noted
Owned-stop c h s v (inr (inl serving)) = inr (inr (refl, serving-made c h s v serving))
Owned-stop c h s v (inr (inr gone)) = inr (inr (refl, gone.1))

-- After a new configuration no client is held that was made before.
pub Owned-reconfigure :
    (opt : Config) (c h : ℕ) (s : ClientMap)
    → Inv s
    → Owned s c h
    → Owned (reconfigure_and_start opt s).0 c h
unfolding step
Owned-reconfigure opt c h s v (inl zero_noted) = inl zero_noted
Owned-reconfigure opt c h s v (inr owned) =
    let made : c < s.next = elim owned [
      | inl serving ↦ serving-made c h s v serving
      | inr gone ↦ gone.1
    ] in
    let g = step-Grows (reconfigures opt) s tt v in
    let r = reconfigure_replaces opt s c c v in
    inr (inr (omega (arith, g.above c made, g.grows, r.1), omega (arith, made, g.grows)))

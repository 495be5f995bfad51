-- ===== src/Concept/Listener/Interleaving.antt =====
-- The goroutines of one batch, one for each notification, in any order (ListenForNotifications of
-- concept/service.go).
-- A goroutine is the calls that it has made so far, the latest first.
use aggregate_concept_transf.Common.{
  List, [], ◌∷◌, ◌++◌, All, Exists, ◌≡◌, sym, ap, subst, inl, inr,
}
use aggregate_concept_transf.Effects.{Call, Log}
use aggregate_concept_transf.Sqs.{ConceptUpdate}

pub record Goroutine : Type 0 where
  pub update : ConceptUpdate
  pub calls : Log

-- The log of a batch: one call of some goroutine after the other.
pub data Interleaving : List Goroutine → Log → Type 0 where
  started :
      {batch : List Goroutine} → All (λ (g : Goroutine). g.calls ≡ []) batch → Interleaving batch []
  called :
      (before after : List Goroutine) (g : Goroutine) (call : Call) {log : Log}
      → Interleaving (before ++ g ∷ after) log
      → Interleaving (before ++ record g { calls = call ∷ g.calls } ∷ after) (call ∷ log)

-- The calls of the first log are among those of the second, in the same order.
pub data Within : Log → Log → Type 0 where
  none_left : {log : Log} → Within [] log
  skipped : {calls log : Log} (call : Call) → Within calls log → Within calls (call ∷ log)
  taken : {calls log : Log} (call : Call) → Within calls log → Within (call ∷ calls) (call ∷ log)

All-Within :
    (batch : List Goroutine)
    → All (λ (g : Goroutine). g.calls ≡ []) batch
    → All (λ (g : Goroutine). Within g.calls []) batch
All-Within [] h = tt
All-Within (g ∷ batch) (e, h) =
    (subst (λ calls. Within calls []) (sym e) none_left, All-Within batch h)

-- One goroutine has made a call more.
All-Within_called :
    (before after : List Goroutine) (g : Goroutine) (call : Call) (log : Log)
    → All (λ (h : Goroutine). Within h.calls log) (before ++ g ∷ after)
    → All
        (λ (h : Goroutine). Within h.calls (call ∷ log))
        (before ++ record g { calls = call ∷ g.calls } ∷ after)
All-Within_called [] after g call log (h, hs) = (taken call h, more after hs)
  where
    more :
        (batch : List Goroutine)
        → All (λ (h : Goroutine). Within h.calls log) batch
        → All (λ (h : Goroutine). Within h.calls (call ∷ log)) batch
    more [] h = tt
    more (x ∷ batch) (h, hs) = (skipped call h, more batch hs)
All-Within_called (x ∷ before) after g call log (h, hs) =
    (skipped call h, All-Within_called before after g call log hs)

-- The calls of every goroutine are in the log of the batch, in their order.
Interleaving-Within :
    {batch : List Goroutine} {log : Log}
    → Interleaving batch log
    → All (λ (g : Goroutine). Within g.calls log) batch
Interleaving-Within (started h) = All-Within _ h
Interleaving-Within (called before after g call i) =
    All-Within_called before after g call _ (Interleaving-Within i)

-- The goroutine has made the call, after calls that are among `earlier`.
abbrev pub Made : Call → (earlier : Log) → Goroutine → Type 0
Made call earlier g =
    (later before : Log) × ((g.calls ≡ later ++ call ∷ before) × Within before earlier)

Exists-at :
    (P : Goroutine → Type 0) (before after : List Goroutine) (g g' : Goroutine)
    → (P g → P g')
    → Exists P (before ++ g ∷ after)
    → Exists P (before ++ g' ∷ after)
Exists-at P [] after g g' f h = elim h [ inl p ↦ inl (f p) | inr q ↦ inr q ]
Exists-at P (x ∷ before) after g g' f h = elim h [
  | inl p ↦ inl p
  | inr q ↦ inr (Exists-at P before after g g' f q)
]

Exists-here :
    (P : Goroutine → Type 0) (before after : List Goroutine) (g : Goroutine)
    → P g
    → Exists P (before ++ g ∷ after)
Exists-here P [] after g p = inl p
Exists-here P (x ∷ before) after g p = inr (Exists-here P before after g p)

All-at :
    (P : Goroutine → Type 0) (before after : List Goroutine) (g : Goroutine)
    → All P (before ++ g ∷ after)
    → P g
All-at P [] after g (h, hs) = h
All-at P (x ∷ before) after g (h, hs) = All-at P before after g hs

pub tail_eq : {x y : Call} {xs ys : Log} → x ∷ xs ≡ y ∷ ys → xs ≡ ys
tail_eq h = cc

-- A call in the log of the batch was made by a goroutine, behind calls that stand before it.
pub Interleaving-Made :
    {batch : List Goroutine} {log : Log} (later earlier : Log) (call : Call)
    → Interleaving batch log
    → log ≡ later ++ call ∷ earlier
    → Exists (Made call earlier) batch
Interleaving-Made [] earlier call (started h) e = cc
Interleaving-Made (c ∷ later) earlier call (started h) e = cc
Interleaving-Made [] earlier call (called before after g c i) e =
    Exists-here (Made call earlier) before after (record g { calls = c ∷ g.calls })
      (
        [],
        g.calls,
        (
          cc,
          subst (Within g.calls) (tail_eq e)
              (All-at (λ (h : Goroutine). Within h.calls _) before after g (Interleaving-Within i)),
        ),
      )
Interleaving-Made (l ∷ later) earlier call (called before after g c i) e =
    Exists-at (Made call earlier) before after g (record g { calls = c ∷ g.calls })
      (λ (later', before', (f, within)). (c ∷ later', before', (ap (λ calls. c ∷ calls) f, within)))
      (Interleaving-Made later earlier call i cc)

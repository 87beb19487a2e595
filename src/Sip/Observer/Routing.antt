-- ===== src/Sip/Observer/Routing.antt =====
-- Which call the observer records a message under.
use smoke_tester.Prelude.{
  ℕ, zero, suc, ◌≡◌, inl, inr, refl, ap, ◌∙◌, sym, subst, Option, none, some, List, [], ◌∷◌, ◌++◌,
  arith, Bool-cases, length, get_elem?, All, All-append, ◌&&◌, not,
}
use smoke_tester.Prelude.Dict.{Dict, lookup, lookup-insert, lookup-delete}
use smoke_tester.Prelude.Text.{Text, text_eq, text_eq_iff, is_empty}
use smoke_tester.Sip.Call.{Call, new_call, set_state, remote_bye, is_none}
use smoke_tester.Sip.Message.{Message}
use smoke_tester.Sip.Observer.{
  Dialog, Wire, register, unregister, amend, open_call, record_received, record_sent, on_found,
  observe_request, respond, dialog_over, end_dialog, Event, opens, requested, responded, ends,
  observe, observe_all,
}
use smoke_tester.Sip.State.{Direction, inbound, outbound, ended, is_state}

abbrev pub BearsId : Text → Message → Type 0
BearsId call_id m = m.call_id ≡ call_id

-- Every message on record bears the Call-ID of its call.
abbrev pub IsOwn : Dialog → Type 0
IsOwn d = All (BearsId d.call_id) d.call.sent × All (BearsId d.call_id) d.call.recv

abbrev id_at : List Dialog → ℕ → Option Text
id_at [] p = none
id_at (d ∷ ds) zero = some d.call_id
id_at (d ∷ ds) (suc p) = id_at ds p

-- The registry leads a Call-ID to a call with this Call-ID.
abbrev IsIndex : List Dialog → Dict ℕ → Type 0
IsIndex ds m = (k : Text) (p : ℕ) → lookup k m ≡ some p → id_at ds p ≡ some k

abbrev IsRouted : Wire → Type 0
IsRouted w = IsIndex w.calls w.registry × All IsOwn w.calls

id_at-append :
    (ds more : List Dialog) (p : ℕ) (k : Text) → id_at ds p ≡ some k → id_at (ds ++ more) p ≡ some k
id_at-append [] more p k h = cc
id_at-append (d ∷ ds) more zero k h = h
id_at-append (d ∷ ds) more (suc p) k h = id_at-append ds more p k h

id_at-last : (ds : List Dialog) (d : Dialog) → id_at (ds ++ d ∷ []) (length ds) ≡ some d.call_id
id_at-last [] d = refl
id_at-last (x ∷ ds) d = id_at-last ds d

id_at-amend : (f : Call → Call) (ds : List Dialog) (p q : ℕ) → id_at (amend f ds p) q ≡ id_at ds q
unfolding amend
id_at-amend f [] p q = refl
id_at-amend f (d ∷ ds) zero zero = refl
id_at-amend f (d ∷ ds) zero (suc q) = refl
id_at-amend f (d ∷ ds) (suc p) zero = refl
id_at-amend f (d ∷ ds) (suc p) (suc q) = id_at-amend f ds p q

-- A method that keeps a call's messages its own, where the Call-ID is k.
abbrev Keeps : Text → (Call → Call) → Type 0
Keeps k f =
    (c : Call)
    → IsOwn (record { call_id = k; call = c })
    → IsOwn (record { call_id = k; call = f c })

amend-IsOwn :
    (f : Call → Call) (k : Text) (ds : List Dialog) (p : ℕ)
    → Keeps k f
    → id_at ds p ≡ some k
    → All IsOwn ds
    → All IsOwn (amend f ds p)
unfolding amend
amend-IsOwn f k [] p keeps at h = tt
amend-IsOwn f k (d ∷ ds) zero keeps at h =
    let same : d.call_id ≡ k = cc in
    (
      subst (λ x. IsOwn (record { call_id = x; call = f d.call })) (sym same)
          (keeps d.call (subst (λ x. IsOwn (record { call_id = x; call = d.call })) same h.0)),
      h.1,
    )
amend-IsOwn f k (d ∷ ds) (suc p) keeps at h = (h.0, amend-IsOwn f k ds p keeps at h.1)

found-IsRouted :
    (f : Call → Call) (k : Text) (w : Wire)
    → Keeps k f
    → IsRouted w
    → IsRouted (on_found f w (lookup k w.registry))
unfolding on_found
found-IsRouted f k w keeps h = go (lookup k w.registry) refl
  where
    go : (o : Option ℕ) → lookup k w.registry ≡ o → IsRouted (on_found f w o)
    go none e = h
    go (some p) e = (
      λ (j : Text) (q : ℕ) (l : lookup j w.registry ≡ some q).
          id_at-amend f w.calls p q ∙ h.0 j q l,
      amend-IsOwn f k w.calls p keeps (h.0 k p e) h.1,
    )

received-Keeps : (k : Text) (m : Message) → BearsId k m → Keeps k (record_received m)
received-Keeps k m b c h = (h.0, All-append (BearsId k) c.recv (m ∷ []) h.1 (b, tt))

sent-Keeps : (k : Text) (m : Message) → BearsId k m → Keeps k (record_sent m)
sent-Keeps k m b c h = (All-append (BearsId k) c.sent (m ∷ []) h.0 (b, tt), h.1)

set_state-sent : (now : ℕ) (c : Call) → c.sent ≡ (set_state ended remote_bye now c).sent
unfolding set_state
set_state-sent now c = ground arith

set_state-recv : (now : ℕ) (c : Call) → c.recv ≡ (set_state ended remote_bye now c).recv
unfolding set_state
set_state-recv now c = ground arith

set_state-Keeps : (k : Text) (now : ℕ) → Keeps k (set_state ended remote_bye now)
set_state-Keeps k now c h = (
  subst (All (BearsId k)) (set_state-sent now c) h.0,
  subst (All (BearsId k)) (set_state-recv now c) h.1,
)

open_call-IsRouted :
    (d : Direction) (owner : Text) (invite : Message) (w : Wire)
    → IsRouted w
    → IsRouted (open_call d owner invite w)
unfolding open_call register new_call
open_call-IsRouted d owner invite w h =
    (index, All-append IsOwn w.calls (fresh ∷ []) h.1 (own d, tt))
  where
    k : Text
    k = invite.call_id

    fresh : Dialog
    fresh = record { call_id = k; call = new_call d owner invite }

    own : (d : Direction) → IsOwn (record { call_id = k; call = new_call d owner invite })
    own inbound = (tt, (refl, tt))
    own outbound = ((refl, tt), tt)

    index : IsIndex (w.calls ++ fresh ∷ []) (register k (length w.calls) w.registry)
    index j p e = elim (Bool-cases (is_empty k)) [
      | inl no_id ↦ id_at-append w.calls (fresh ∷ []) p j (h.0 j p (rw no_id at e))
      | inr known ↦ elim (Bool-cases (text_eq k j)) [
        | inl same ↦
            let at : p ≡ length w.calls =
              ground (arith, lookup-insert k j (length w.calls) w.registry) in
            ap (id_at (w.calls ++ fresh ∷ [])) at
            ∙ (id_at-last w.calls fresh ∙ ap some ((text_eq_iff k j).0 same))
        | inr other ↦
            id_at-append w.calls (fresh ∷ []) p j
              (h.0 j p (ground (arith, lookup-insert k j (length w.calls) w.registry)))
      ]
    ]

unregister-IsIndex :
    (k : Text) (ds : List Dialog) (m : Dict ℕ) → IsIndex ds m → IsIndex ds (unregister k m)
unfolding unregister
unregister-IsIndex k ds m h j p e = h j p (ground (arith, lookup-delete k j m))

id_at-get :
    (ds : List Dialog) (p : ℕ) (d : Dialog) → get_elem? ds p ≡ some d → id_at ds p ≡ some d.call_id
id_at-get [] p d e = cc
id_at-get (x ∷ ds) zero d e = cc
id_at-get (x ∷ ds) (suc p) d e = id_at-get ds p d e

dialog_over-IsRouted :
    (p : ℕ) (w : Wire) (o : Option Dialog) (now : ℕ)
    → get_elem? w.calls p ≡ o
    → IsRouted w
    → IsRouted (dialog_over p w o now)
unfolding dialog_over
dialog_over-IsRouted p w none now at h = h
dialog_over-IsRouted p w (some d) now at h = (
  λ (j : Text) (q : ℕ) (l : lookup j (dialog_over p w (some d) now).registry ≡ some q).
      id_at-amend (set_state ended remote_bye now) w.calls p q ∙ index j q l,
  amend-IsOwn (set_state ended remote_bye now) d.call_id w.calls p (set_state-Keeps d.call_id now)
      (id_at-get w.calls p d at) h.1,
)
  where
    index : IsIndex w.calls (dialog_over p w (some d) now).registry
    index = elim (Bool-cases (not (is_state d.call.state ended) && is_none d.call.ended_at)) [
      | inl gone ↦ rw gone (unregister-IsIndex d.call_id w.calls w.registry h.0)
      | inr kept ↦ rw kept h.0
    ]

-- The SIP library gives a response the Call-ID of the request it answers.
abbrev pub IsSound : Event → Type 0
IsSound (responded call_id res) = BearsId call_id res
IsSound _ = Unit

observe-IsRouted : (e : Event) (w : Wire) → IsSound e → IsRouted w → IsRouted (observe e w)
unfolding observe observe_request respond end_dialog
observe-IsRouted (opens d owner invite) w s h = open_call-IsRouted d owner invite w h
observe-IsRouted (requested req) w s h =
    found-IsRouted (record_received req) req.call_id w (received-Keeps req.call_id req refl) h
observe-IsRouted (responded k res) w s h =
    found-IsRouted (record_sent res) k w (sent-Keeps k res s) h
observe-IsRouted (ends p now) w s h = dialog_over-IsRouted p w (get_elem? w.calls p) now refl h

observe_all-IsRouted :
    (es : List Event) (w : Wire) → All IsSound es → IsRouted w → IsRouted (observe_all es w)
observe_all-IsRouted [] w s h = h
observe_all-IsRouted (e ∷ es) w s h =
    observe_all-IsRouted es (observe e w) s.1 (observe-IsRouted e w s.0 h)

-- From no calls, where each response bears the Call-ID of the request it answers: whatever calls
-- open and end and whatever requests come in, in any order, every message on record for a call
-- bears the Call-ID of this call.
pub observed-IsOwn :
    (es : List Event)
    → All IsSound es
    → All IsOwn (observe_all es (record { calls = []; registry = [] })).calls
unfolding lookup
observed-IsOwn es s = (observe_all-IsRouted es (record { calls = []; registry = [] }) s start).1
  where
    start : IsRouted (record { calls = []; registry = [] })
    start = (λ k p e. cc, tt)

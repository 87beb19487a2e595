-- ===== src/Sip/Invite/Release.antt =====
-- What an outbound call leaves behind at the SIP library.
use smoke_tester.Prelude.{
  ℕ, ◌+◌, ◌≡◌, refl, subst, ◌∙◌, Bool, true, false, ◌||◌, if◌then◌else◌, Option, none, some, List,
  [], ◌∷◌, ◌++◌, arith,
}
use mathlib.Core.List.{append_assoc}
use smoke_tester.Prelude.Result.{Result, ok, err}
use smoke_tester.Prelude.Text.{Text}
use smoke_tester.Sip.Call.{Call, new_call, set_state, no_reason}
use smoke_tester.Sip.Invite.{
  Defaults, InviteOptions, SipError, response, early_media, other, InviteError, is_sdp_mode,
  checked, prepare_invite, Traffic, new_dialog, no_dialog, set_mode, sent_invite, sent_ack,
  closed_dialog, sent_cancel, Agent, mode_traffic, invite_traffic, established, received, overtaken,
  acked, invited, dialled, dial, finished, prepared, invite, Response, early_of, early_outcome,
  early_traffic, pending, early_prepared, invite_early_media,
}
use smoke_tester.Sip.Message.{Message}
use smoke_tester.Sip.State.{State, outbound, answered, ended}

-- How often a dialog was closed.
abbrev pub closes : List Traffic → ℕ
closes [] = 0
closes (closed_dialog ∷ ts) = 1 + closes ts
closes (_ ∷ ts) = closes ts

abbrev is_closing : Traffic → Bool
is_closing closed_dialog = true
is_closing _ = false

-- Whether the last thing that was done is the closing, and `b` if nothing was.
abbrev pub ends_closed : Bool → List Traffic → Bool
ends_closed b [] = b
ends_closed b (t ∷ ts) = ends_closed (is_closing t) ts

-- The creation of the dialog failed, and nothing else was done.
abbrev pub is_undialled : List Traffic → Bool
is_undialled (no_dialog d t ∷ []) = true
is_undialled _ = false

abbrev pub is_released : List Traffic → Bool
is_released ts = is_undialled ts || ends_closed true ts

-- The state of the call that Invite returns.
abbrev pub state_after : Bool → State
state_after bye = if bye then ended else answered

abbrev pub Settles : Bool → List Traffic × Result InviteError Call → Type 0
Settles bye (sent, ok c) =
    (closes sent ≡ 0) × (c.state ≡ state_after bye) × (c.direction ≡ outbound)
Settles bye (sent, err e) = is_released sent ≡ true

abbrev pub SettlesEarly : List Traffic × Result InviteError (Option Response) → Type 0
SettlesEarly (sent, ok early) = closes sent ≡ 0
SettlesEarly (sent, err e) = is_released sent ≡ true

ends_closed-append :
    (b : Bool) (ts : List Traffic) → ends_closed b (ts ++ closed_dialog ∷ []) ≡ true
ends_closed-append b [] = refl
ends_closed-append b (t ∷ ts) = ends_closed-append (is_closing t) ts

is_released-append : (ts : List Traffic) → is_released (ts ++ closed_dialog ∷ []) ≡ true
is_released-append ts =
    or_true (is_undialled (ts ++ closed_dialog ∷ [])) (ends_closed-append true ts)
  where
    or_true : (b : Bool) {c : Bool} → c ≡ true → (b || c) ≡ true
    or_true true h = refl
    or_true false h = h

closes-append : (ts us : List Traffic) → closes (ts ++ us) ≡ closes ts + closes us
closes-append [] us = omega arith
closes-append (closed_dialog ∷ ts) us = omega (arith, closes-append ts us)
closes-append (new_dialog d t ∷ ts) us = closes-append ts us
closes-append (no_dialog d t ∷ ts) us = closes-append ts us
closes-append (set_mode m ∷ ts) us = closes-append ts us
closes-append (sent_invite u p h ∷ ts) us = closes-append ts us
closes-append (sent_ack ∷ ts) us = closes-append ts us
closes-append (sent_cancel ∷ ts) us = closes-append ts us

closes-mode_traffic : (o : InviteOptions) → closes (mode_traffic o) ≡ 0
unfolding mode_traffic
closes-mode_traffic o = ground arith

closes-invite_traffic : (dest : Text) (o : InviteOptions) → closes (invite_traffic dest o) ≡ 0
unfolding invite_traffic
closes-invite_traffic dest o =
    closes-append (mode_traffic o) (sent_invite o.username o.password o.headers ∷ [])
    ∙ omega (arith, closes-mode_traffic o)

received-kept :
    (m : Option Message) (c : Call)
    → ((received m c).state ≡ c.state) × ((received m c).direction ≡ c.direction)
unfolding received
received-kept none c = (refl, refl)
received-kept (some m) c = (refl, refl)

established-up :
    (a : Agent) (cfg : Defaults) (dest : Text) (o : InviteOptions)
    → ((established a cfg dest o).state ≡ state_after a.bye_after)
      × ((established a cfg dest o).direction ≡ outbound)
unfolding established overtaken new_call set_state
established-up a cfg dest o =
    let c = overtaken a.bye_after a.now (
      set_state answered no_reason a.now
        (overtaken a.bye_before a.now (new_call outbound cfg.owner (a.request dest o)))) in
    let k = received-kept (a.answer dest o) c in (k.0 ∙ ground arith, k.1 ∙ ground arith)

module _ (a : Agent) (cfg : Defaults) (dest : Text) where
  acked-Settles :
      (o : InviteOptions) (k : Option SipError)
      → Settles a.bye_after (finished a cfg dest o (acked (invite_traffic dest o) k))
  unfolding finished acked
  acked-Settles o none = (
    closes-append (invite_traffic dest o) (sent_ack ∷ [])
        ∙ omega (arith, closes-invite_traffic dest o),
    (established-up a cfg dest o).0,
    (established-up a cfg dest o).1,
  )
  acked-Settles o (some e) =
      subst (λ ts. is_released ts ≡ true)
        (append_assoc (invite_traffic dest o) (sent_ack ∷ []) (closed_dialog ∷ []))
        (is_released-append (invite_traffic dest o ++ sent_ack ∷ []))

  invited-Settles :
      (o : InviteOptions) (i : Option SipError)
      → Settles a.bye_after (finished a cfg dest o (invited a dest o i))
  unfolding finished invited
  invited-Settles o none = acked-Settles o (a.ack_error dest o)
  invited-Settles o (some e) = is_released-append (invite_traffic dest o)

  dialled-Settles :
      (o : InviteOptions) (d : Option SipError)
      → Settles a.bye_after (finished a cfg dest o (dialled a dest o d))
  unfolding finished dialled
  dialled-Settles o none = invited-Settles o (a.invite_error dest o)
  dialled-Settles o (some e) = refl

  prepared-Settles :
      (r : Result InviteError InviteOptions) → Settles a.bye_after (prepared a cfg dest r)
  unfolding prepared dial
  prepared-Settles (ok o) = dialled-Settles o (a.dialog_error dest o)
  prepared-Settles (err e) = refl

  early-SettlesEarly :
      (o : InviteOptions) (rs : List Response) (i : Option SipError)
      → SettlesEarly (invite_traffic dest o ++ early_traffic i, early_outcome i (early_of none rs))
  unfolding early_traffic early_outcome
  early-SettlesEarly o rs none = is_released-append (invite_traffic dest o)
  early-SettlesEarly o rs (some early_media) =
      closes-append (invite_traffic dest o) [] ∙ omega (arith, closes-invite_traffic dest o)
  early-SettlesEarly o rs (some (response r)) = is_released-append (invite_traffic dest o)
  early-SettlesEarly o rs (some (other e)) = is_released-append (invite_traffic dest o)

  pending-SettlesEarly :
      (o : InviteOptions) (rs : List Response) (d : Option SipError)
      → SettlesEarly (pending a dest o rs d)
  unfolding pending
  pending-SettlesEarly o rs none = early-SettlesEarly o rs (a.invite_error dest o)
  pending-SettlesEarly o rs (some e) = refl

  early_prepared-SettlesEarly :
      (rs : List Response) (r : Result InviteError InviteOptions)
      → SettlesEarly (early_prepared a dest rs r)
  unfolding early_prepared
  early_prepared-SettlesEarly rs (ok o) = pending-SettlesEarly o rs (a.dialog_error dest o)
  early_prepared-SettlesEarly rs (err e) = refl

  -- Invite that returns a call has not closed the dialog, and the call is outbound and answered, or
  -- ended if a BYE came in between the change to answered and the return; a BYE before that change
  -- does not show in its state.
  -- InviteEarlyMedia that returns a pending call has not closed the dialog. Either that fails has
  -- done nothing, or could not create the dialog, or has closed it as the last thing it did.
  pub invite-Settles :
      (o : InviteOptions) (rs : List Response)
      → Settles a.bye_after (invite a cfg dest o)
        × SettlesEarly (invite_early_media a cfg dest o rs)
  unfolding invite invite_early_media
  invite-Settles o rs = (
    prepared-Settles (prepare_invite a.uri_error cfg dest o),
    early_prepared-SettlesEarly rs (prepare_invite a.uri_error cfg dest o),
  )

  refused-silent :
      (o : InviteOptions) (u : Option Text)
      → is_sdp_mode o.sdp_mode ≡ false
      → ((prepared a cfg dest (checked cfg o u)).0 ≡ [])
  unfolding prepared checked
  refused-silent o none h = rw h refl
  refused-silent o (some e) h = refl

  -- A mode that is none of the four goes no further than the check: the library is not called.
  pub invite-refuses :
      (o : InviteOptions) → is_sdp_mode o.sdp_mode ≡ false → (invite a cfg dest o).0 ≡ []
  unfolding invite prepare_invite
  invite-refuses o h = refused-silent o (a.uri_error dest) h

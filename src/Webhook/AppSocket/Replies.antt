-- ===== src/Webhook/AppSocket/Replies.antt =====
-- Which messages of an application socket are answered.
use smoke_tester.Prelude.{
  ℕ, ◌≡◌, refl, sym, ap, ◌∙◌, Bool, false, ◌||◌, Option, none, some, List, [], ◌∷◌, ◌++◌,
  Bool-cases, inl, inr, map, if◌then◌else◌,
}
use mathlib.Core.List.{append_assoc, append-nil, map-append}
use smoke_tester.Prelude.Bytes.{Bytes}
use smoke_tester.Prelude.Result.{ok}
use smoke_tester.Prelude.Text.{Text, codes, text_eq}
use smoke_tester.Webhook.AppSocket.{
  AppMsg, AppCodec, AckPayload, Loop, ack, write_ack, ack_payload, with_session, bound_conn,
  capture, reply, on_app_msg, AppFrame, text_in, other_in, on_decoded, on_frame, loop, session_at,
  verb_from_hook_url,
}
use smoke_tester.Webhook.Callback.{HookOutcome}
use smoke_tester.Webhook.Registry.{outcome_for_call_hook, outcome_for_action_hook}

-- The messages to which the protocol expects a verb script.
abbrev pub wants_script : AppMsg → Bool
wants_script msg = text_eq msg.kind (codes "session:new") || text_eq msg.kind (codes "verb:hook")

abbrev asked : Option AppMsg → List Text
asked none = []
asked (some msg) = if wants_script msg then msg.msgid ∷ [] else []

-- The ids of these messages among the frames.
abbrev pub questions : AppCodec → List AppFrame → List Text
questions app [] = []
questions app (other_in b ∷ fs) = questions app fs
questions app (text_in b ∷ fs) = asked (app.decode_msg b) ++ questions app fs

questions-cons :
    (app : AppCodec) (f : AppFrame) (fs : List AppFrame)
    → questions app (f ∷ []) ++ questions app fs ≡ questions app (f ∷ fs)
questions-cons app (other_in b) fs = refl
questions-cons app (text_in b) fs =
    ap (λ ids. ids ++ questions app fs) (append-nil (asked (app.decode_msg b)))

-- Every ack can be marshalled and written, and its message id be read from it.
pub record IsLegible (app : AppCodec) (id_of : Bytes → Text) : Type 0 where
  pub marshalled : Text → AckPayload → Bytes
  pub succeeds : (m : Text) (a : AckPayload) → app.marshal_ack m a ≡ ok (marshalled m a)
  pub arrives : (before : List Bytes) (b : Bytes) → app.write_fails before b ≡ false
  pub legible : (m : Text) (a : AckPayload) → id_of (marshalled m a) ≡ m

module _ (app : AppCodec) (id_of : Bytes → Text) (legible : IsLegible app id_of) where
  ack-ids :
      (m : Text) (o : HookOutcome) (l : Loop)
      → map id_of (ack app m o l).written ≡ map id_of l.written ++ m ∷ []
  unfolding ack write_ack
  ack-ids m o l =
      rw
        (
          legible.succeeds m (ack_payload app o),
          legible.arrives l.written (legible.marshalled m (ack_payload app o)),
        )
        (map-append id_of l.written (legible.marshalled m (ack_payload app o) ∷ [])
          ∙ ap (λ x. map id_of l.written ++ x ∷ []) (legible.legible m (ack_payload app o)))

  reply-ids :
      (msg : AppMsg) (p : ℕ) (l : Loop)
      → map id_of (reply app msg p l).written ≡ map id_of l.written ++ asked (some msg)
  unfolding reply
  reply-ids msg p l = elim (Bool-cases (text_eq msg.kind (codes "session:new"))) [
    | inl first ↦ rw first (ack-ids msg.msgid (outcome_for_call_hook (session_at p l.registry)) l)
    | inr later ↦ rw later (elim (Bool-cases (text_eq msg.kind (codes "verb:hook"))) [
      | inl hook ↦ rw hook (
          ack-ids msg.msgid
            (outcome_for_action_hook (verb_from_hook_url msg.hook) (session_at p l.registry)) l)
      | inr other ↦ rw other (sym (append-nil (map id_of l.written)))
    ])
  ]

  with_session-written :
      (path : Text) (msg : AppMsg) (l : Loop) (o : Option ℕ)
      → (with_session app path msg l o).0.written ≡ l.written
  unfolding with_session bound_conn
  with_session-written path msg l none = refl
  with_session-written path msg l (some p) = refl

  on_app_msg-ids :
      (path : Text) (raw : Bytes) (msg : AppMsg) (l : Loop)
      → map id_of (on_app_msg app path raw msg l).written ≡ map id_of l.written ++ asked (some msg)
  unfolding on_app_msg
  on_app_msg-ids path raw msg l =
      let w = with_session app path msg l l.sess in
      reply-ids msg w.1 (record w.0 { registry = capture app path raw msg w.1 w.0.registry })
      ∙ ap (λ ws. map id_of ws ++ asked (some msg)) (with_session-written path msg l l.sess)

  on_frame-ids :
      (path : Text) (f : AppFrame) (l : Loop)
      → map id_of (on_frame app path f l).written ≡ map id_of l.written ++ questions app (f ∷ [])
  unfolding on_frame on_decoded
  on_frame-ids path (other_in b) l = sym (append-nil (map id_of l.written))
  on_frame-ids path (text_in b) l = go (app.decode_msg b)
    where
      go :
          (o : Option AppMsg)
          → map id_of (on_decoded app path b o l).written ≡ map id_of l.written ++ (asked o ++ [])
      go none = sym (append-nil (map id_of l.written))
      go (some msg) =
          on_app_msg-ids path b msg l
          ∙ ap (λ ids. map id_of l.written ++ ids) (sym (append-nil (asked (some msg))))

  -- When every ack can be marshalled and written, the loop of a connection answers each message of
  -- type session:new or verb:hook by one ack with its message id, in the order in which the messages
  -- came in, and writes nothing else: a message of another type gets no ack, also with a message id.
  -- The commands that tests send over the connection are not part of it.
  pub loop-answers :
      (path : Text) (fs : List AppFrame) (l : Loop)
      → map id_of (loop app path fs l).written ≡ map id_of l.written ++ questions app fs
  unfolding loop
  loop-answers path [] l = sym (append-nil (map id_of l.written))
  loop-answers path (f ∷ fs) l =
      loop-answers path fs (on_frame app path f l)
      ∙ (ap (λ ids. ids ++ questions app fs) (on_frame-ids path f l)
          ∙ (append_assoc (map id_of l.written) (questions app (f ∷ [])) (questions app fs)
              ∙ ap (λ ids. map id_of l.written ++ ids) (questions-cons app f fs)))

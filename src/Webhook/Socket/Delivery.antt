-- ===== src/Webhook/Socket/Delivery.antt =====
-- What the test reads of the frames that come in.
use smoke_tester.Prelude.{
  ◌≤◌, ◌≡◌, refl, sym, ap, subst, ◌∙◌, Bool, true, false, Option, none, some, List, [], ◌∷◌, ◌++◌,
  arith, Bool-cases, inl, inr, ltb, length, length-append, if◌then◌else◌,
}
use mathlib.Core.List.{append_assoc, append-nil}
use smoke_tester.Prelude.Bytes.{Bytes}
use smoke_tester.Prelude.Result.{Result, ok, err, ◌>>=◌, Ends}
use smoke_tester.Webhook.Json.{Fields}
use smoke_tester.Webhook.Registry.Queue.{IsLess, done, keep-last, lose-last}
use smoke_tester.Webhook.Socket.{
  Frame, text_frame, binary_frame, Socket, new_ws_session, room, text_message, binary_message,
  other_message, Panic, enqueue, stash, first_of, on_message, attach, detach, wait_ws_message,
  taken, Receive, got, stream_closed, waiting, Event, attached, sent, ended, read, step, run,
}

-- The frames of an event: those that come in, and the one that the test reads.
abbrev pub incoming : (Bytes → Option Fields) → Event → List Frame
incoming decode (sent (text_message b)) = text_frame b (decode b) ∷ []
incoming decode (sent (binary_message b)) = binary_frame b ∷ []
incoming decode _ = []

abbrev received : Receive → List Frame
received (got f) = f ∷ []
received _ = []

abbrev pub outgoing : Event → Socket → List Frame
outgoing read w = received (wait_ws_message w).0
outgoing _ w = []

abbrev pub frames : (Bytes → Option Fields) → List Event → List Frame
frames decode [] = []
frames decode (e ∷ es) = incoming decode e ++ frames decode es

abbrev after : Result Panic Socket → (Socket → List Frame) → List Frame
after (ok w) more = more w
after (err e) more = []

-- What the test has read when the events are over.
abbrev pub reads : (Bytes → Option Fields) → List Event → Socket → List Frame
reads decode [] w = []
reads decode (e ∷ es) w = outgoing e w ++ after (step decode e w) (reads decode es)

-- The first text frame that holds a JSON object.
abbrev pub first_json : List Frame → Option Fields
first_json [] = none
first_json (text_frame b (some j) ∷ fs) = some j
first_json (text_frame b none ∷ fs) = first_json fs
first_json (binary_frame b ∷ fs) = first_json fs

-- Of the frames `before`, the test has read `gone`.
record IsFair (before gone : List Frame) (w : Socket) : Type 0 where
  ordered : IsLess w.dropped (gone ++ w.inbound) before
  bounded : length w.inbound ≤ room
  stashed : w.metadata ≡ first_json before

first_json-append :
    (fs gs : List Frame) → first_json (fs ++ gs) ≡ first_of (first_json fs) (first_json gs)
first_json-append [] gs = refl
first_json-append (text_frame b (some j) ∷ fs) gs = refl
first_json-append (text_frame b none ∷ fs) gs = first_json-append fs gs
first_json-append (binary_frame b ∷ fs) gs = first_json-append fs gs

first_of-none : (j : Option Fields) → first_of j none ≡ j
first_of-none none = refl
first_of-none (some j) = refl

-- Fair, unless the server has panicked.
abbrev AreFair : List Frame → List Frame → Result Panic Socket → Type 0
AreFair before gone r = Ends (IsFair before gone) (λ _. Unit) r

nothing_received : (b : Bool) → received (if b then stream_closed else waiting) ≡ []
nothing_received true = refl
nothing_received false = refl

module _ (before gone : List Frame) where
  enqueue-AreFair :
      (f : Frame) (w : Socket) (j : Option Fields)
      → IsFair before gone w
      → j ≡ first_json (before ++ f ∷ [])
      → AreFair (before ++ f ∷ []) gone (enqueue f (record w { metadata = j }))
  unfolding enqueue
  enqueue-AreFair f w j h m = elim (Bool-cases w.closed) [
    | inl over ↦ rw over tt
    | inr live ↦ rw live (elim (Bool-cases (ltb (length w.inbound) room)) [
      | inl fits ↦ rw fits (record {
        ordered =
            subst (λ xs. IsLess w.dropped xs (before ++ f ∷ []))
              (append_assoc gone w.inbound (f ∷ [])) (keep-last f h.ordered);
        bounded = ground (arith, fits, length-append w.inbound (f ∷ []));
        stashed = m;
      })
      | inr full ↦ rw full (record {
        ordered =
            subst (λ n. IsLess n (gone ++ w.inbound) (before ++ f ∷ [])) (omega arith)
              (lose-last f h.ordered);
        bounded = h.bounded;
        stashed = m;
      })
    ])
  ]

  stashed-text :
      (b : Bytes) (j : Option Fields) (w : Socket)
      → IsFair before gone w
      → first_of w.metadata j ≡ first_json (before ++ text_frame b j ∷ [])
  stashed-text b j w h =
      ap (λ m. first_of m j) h.stashed
      ∙ (ap (first_of (first_json before)) (only j)
          ∙ sym (first_json-append before (text_frame b j ∷ [])))
    where
      only : (j : Option Fields) → j ≡ first_json (text_frame b j ∷ [])
      only none = refl
      only (some x) = refl

  stashed-binary :
      (b : Bytes) (w : Socket)
      → IsFair before gone w
      → w.metadata ≡ first_json (before ++ binary_frame b ∷ [])
  stashed-binary b w h =
      h.stashed
      ∙ (sym (first_of-none (first_json before))
          ∙ sym (first_json-append before (binary_frame b ∷ [])))

  same-IsFair : (w : Socket) → IsFair before gone w → IsFair (before ++ []) (gone ++ []) w
  same-IsFair w h = rw (append-nil, append-nil) h

  taken-IsFair :
      (fs : List Frame) (w : Socket)
      → w.inbound ≡ fs
      → IsFair before gone w
      → IsFair (before ++ []) (gone ++ received (taken fs w).0) (taken fs w).1
  unfolding taken
  taken-IsFair [] w e h =
      subst (λ xs. IsFair (before ++ []) (gone ++ xs) w) (sym (nothing_received w.closed))
        (same-IsFair w h)
  taken-IsFair (f ∷ fs) w e h = record {
    ordered =
        subst (λ xs. IsLess w.dropped xs (before ++ []))
          (ap (λ xs. gone ++ xs) e ∙ sym (append_assoc gone (f ∷ []) fs))
          (subst (λ xs. IsLess w.dropped (gone ++ w.inbound) xs) (sym (append-nil before))
            h.ordered);
    bounded = omega (arith, h.bounded, ap length e);
    stashed = h.stashed ∙ ap first_json (sym (append-nil before));
  }

  closed-IsFair :
      (w : Socket) (b : Bool)
      → IsFair before gone w
      → IsFair before gone (if b then w else record w { closed = true })
  closed-IsFair w true h = h
  closed-IsFair w false h = record { ordered = h.ordered; bounded = h.bounded; stashed = h.stashed }

  detach-IsFair : (w : Socket) → IsFair before gone w → IsFair before gone (detach w)
  unfolding detach
  detach-IsFair w h = closed-IsFair w w.closed h

module _ (decode : Bytes → Option Fields) where
  step-AreFair :
      (before gone : List Frame) (e : Event) (w : Socket)
      → IsFair before gone w
      → AreFair (before ++ incoming decode e) (gone ++ outgoing e w) (step decode e w)
  unfolding step attach detach on_message stash wait_ws_message
  step-AreFair before gone (attached c) w h =
      let k : IsFair before gone (record w { conn = some c }) = record {
        ordered = h.ordered;
        bounded = h.bounded;
        stashed = h.stashed;
      } in
      same-IsFair before gone (record w { conn = some c }) k
  step-AreFair before gone (sent (text_message b)) w h =
      subst
        (λ xs.
          AreFair (before ++ text_frame b (decode b) ∷ []) xs
            (enqueue (text_frame b (decode b)) (stash (decode b) w)))
        (sym (append-nil gone))
        (enqueue-AreFair before gone (text_frame b (decode b)) w (first_of w.metadata (decode b)) h
          (stashed-text before gone b (decode b) w h))
  step-AreFair before gone (sent (binary_message b)) w h =
      subst (λ xs. AreFair (before ++ binary_frame b ∷ []) xs (enqueue (binary_frame b) w))
        (sym (append-nil gone))
        (enqueue-AreFair before gone (binary_frame b) w w.metadata h
          (stashed-binary before gone b w h))
  step-AreFair before gone (sent (other_message b)) w h = same-IsFair before gone w h
  step-AreFair before gone ended w h =
      same-IsFair before gone (detach w) (detach-IsFair before gone w h)
  step-AreFair before gone read w h = taken-IsFair before gone w.inbound w refl h

  run-AreFair :
      (before gone : List Frame) (es : List Event) (w : Socket)
      → IsFair before gone w
      → AreFair (before ++ frames decode es) (gone ++ reads decode es w) (run decode es w)
  unfolding run
  run-AreFair before gone [] w h = same-IsFair before gone w h
  run-AreFair before gone (e ∷ es) w h =
      subst (λ xs. AreFair xs (gone ++ reads decode (e ∷ es) w) (run decode (e ∷ es) w))
        (append_assoc before (incoming decode e) (frames decode es))
        (subst
          (λ xs.
            AreFair ((before ++ incoming decode e) ++ frames decode es) xs (run decode (e ∷ es) w))
          (append_assoc gone (outgoing e w) (after (step decode e w) (reads decode es)))
          (go (step decode e w) (step-AreFair before gone e w h)
            (λ u k. run-AreFair (before ++ incoming decode e) (gone ++ outgoing e w) es u k)))
    where
      go :
          {before' gone' : List Frame} (r : Result Panic Socket)
          → AreFair before' gone' r
          → ((u : Socket)
              → IsFair before' gone' u
              → AreFair
                  (before' ++ frames decode es)
                  (gone' ++ reads decode es u)
                  (run decode es u))
          → AreFair
              (before' ++ frames decode es)
              (gone' ++ after r (reads decode es))
              (r >>= run decode es)
      go (ok u) k next = next u k
      go (err x) k next = tt

-- Of the frames that come in on the web socket of a session, in any sequence of connections,
-- messages, ends and reads that does not panic: what the test has read, followed by what is queued,
-- is what came in, in its order, less exactly the dropped frames; at most 256 frames are queued;
-- and the metadata is the first JSON object that came in, also behind a binary first frame, and
-- whether its frame was read or dropped.
pub run-delivers :
    (decode : Bytes → Option Fields) (es : List Event) (w : Socket)
    → run decode es new_ws_session ≡ ok w
    → IsLess w.dropped (reads decode es new_ws_session ++ w.inbound) (frames decode es)
      × (length w.inbound ≤ room)
      × (w.metadata ≡ first_json (frames decode es))
unfolding new_ws_session
run-delivers decode es w e =
    let start : IsFair [] [] new_ws_session = record {
      ordered = done;
      bounded = omega arith;
      stashed = refl;
    } in
    let h : IsFair (frames decode es) (reads decode es new_ws_session) w =
      subst (AreFair (frames decode es) (reads decode es new_ws_session)) e
        (run-AreFair decode [] [] es new_ws_session start) in
    (h.ordered, h.bounded, h.stashed)

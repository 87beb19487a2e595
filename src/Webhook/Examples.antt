-- ===== src/Webhook/Examples.antt =====
-- The server at concrete requests.
use smoke_tester.Prelude.{◌≤◌, ◌≡◌, refl, some, [], ◌∷◌, ◌++◌, arith, map, length}
use smoke_tester.Prelude.Result.{ok}
use smoke_tester.Prelude.Itoa.{itoa}
use smoke_tester.Prelude.Text.{ascii, Text, codes, text_eq}
use smoke_tester.Webhook.Callback.{Callback, http, nested_any}
use smoke_tester.Webhook.Callback.Paths.{key, index, spelled, dotted, nested_any-Leads, Leads}
use smoke_tester.Webhook.Correlation.{Request}
use smoke_tester.Webhook.Json.{
  text, array, item, no_items, Fields, field, no_fields, field_at, item_at, items_length,
}
use smoke_tester.Webhook.Registry.{Registry, fresh_session, capacity}
use smoke_tester.Webhook.Registry.Queue.{
  records, takes, recorded, queue_run, IsLess, queue_run-IsLess,
}
use smoke_tester.Webhook.Server.{Codec}

abbrev fields : Fields
fields = field (codes "call_sid") (text (codes "k1")) (
    field (codes "list") (array (item (text (codes "a")) (item (text (codes "b")) no_items)))
      no_fields)

abbrev codec : Codec
codec = record { letters = ascii; decode = λ b. some fields; marshal = λ vs. ok (codes "[]") }

abbrev hook_of : Text → Request
hook_of t = record {
  method = codes "POST";
  path = codes "/hook";
  test_header = t;
  test_query = [];
  headers = [];
  body = codes "{}";
}

abbrev callback : Callback
callback = record {
  hook = codes "call_hook";
  transport = http;
  method = codes "POST";
  headers = [];
  body = codes "{}";
  json = some fields;
  test_id = codes "t1";
}

abbrev two_sessions : Registry
two_sessions = record {
  heap = fresh_session (codes "t1") ∷ fresh_session (codes "t2") ∷ [];
  sessions = (codes "t1", 0) ∷ (codes "t2", 1) ∷ [];
  call_sid_index = [];
}

queue_run-IsLess_example :
    IsLess
      (length
        (queue_run
          (records callback ∷ takes ∷ records callback ∷ [])
          (fresh_session (codes "t1"))).1.errs)
      ((queue_run (records callback ∷ takes ∷ records callback ∷ []) (fresh_session (codes "t1"))).0
        ++ (queue_run
            (records callback ∷ takes ∷ records callback ∷ [])
            (fresh_session (codes "t1"))).1.pending)
      (recorded (records callback ∷ takes ∷ records callback ∷ []))
    × (length
          (queue_run
            (records callback ∷ takes ∷ records callback ∷ [])
            (fresh_session (codes "t1"))).1.pending
        ≤ capacity)
queue_run-IsLess_example =
    queue_run-IsLess (codes "t1") (records callback ∷ takes ∷ records callback ∷ [])

nested_any-Leads_example :
    nested_any callback (dotted (codes "list") (map spelled (index 1 ∷ []))) ≡ text (codes "b")
unfolding field_at item_at items_length text_eq itoa
nested_any-Leads_example =
    nested_any-Leads callback fields (key (codes "list")) (index 1 ∷ []) (text (codes "b")) refl
      (λ e. cc, (refl, (refl, (refl, (refl, tt))))) ((λ e. cc, (refl, tt)), tt)
      (Leads.at_key (Leads.at_item (omega arith) (omega arith) Leads.here))

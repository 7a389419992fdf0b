-- ===== src/Otel.antt =====
-- otel/propagation.go: headers for the correlation id and the trace context. A propagator is one of
-- go.opentelemetry.io/otel (third party): two functions, on which nothing is assumed.
pub mod Carried
mod Tests
use go_amqp_adapter.Base.{
  ℕ, Bool, true, false, ◌||◌, Option, none, some, List, [], ◌∷◌, String, Dict, lookup, insert,
  str_eq, is_some, length, ltb, if◌then◌else◌,
}
use go_amqp_adapter.Config.{Context, Table, Value, text}

-- `propagation.MapCarrier`
abbrev pub Carrier : Type 0
Carrier = Dict String

-- `propagation.TextMapPropagator`
pub record Propagator : Type 0 where
  pub inject : Context → Carrier → Carrier
  pub extract : Context → Carrier → Context

pub record PropagationConfig : Type 0 where
  pub correlation_id_key : String
  pub trace_keys : List String
  pub get_correlation_id : Option (Context → String)
  pub set_correlation_id : Option (Context → String → Context)
  pub propagator : Option Propagator

-- `carrier.Get(key)`: "" for a missing key.
abbrev pub get : Carrier → String → String
get carrier key = elim (lookup key carrier) [ none ↦ "" | some v ↦ v ]

-- `value, ok := headers[key].(string); ok && value != ""`
abbrev pub text_header : Option Value → Option String
text_header (some (text s)) = if str_eq s "" then none else some s
text_header _ = none

-- The loop over the trace keys when headers are built.
unfoldable pub add_trace_headers : List String → Carrier → Table → Table
add_trace_headers [] carrier headers = headers
add_trace_headers (key ∷ keys) carrier headers =
    add_trace_headers keys carrier
      (if str_eq (get carrier key) "" then headers else insert key (text (get carrier key)) headers)

-- The header of the correlation id, if there is one.
unfoldable pub correlation_headers : PropagationConfig → Context → Table
correlation_headers cfg ctx = elim cfg.get_correlation_id [
  | none ↦ []
  | some read ↦
      if str_eq cfg.correlation_id_key "" || str_eq (read ctx) ""
      then []
      else (cfg.correlation_id_key, text (read ctx)) ∷ []
]

-- The loop over the trace keys when a context is restored.
unfoldable pub collect : List String → Table → Carrier → Carrier
collect [] headers carrier = carrier
collect (key ∷ keys) headers carrier =
    collect keys headers
      (elim (text_header (lookup key headers)) [ none ↦ carrier | some v ↦ insert key v carrier ])

-- The context with the correlation id of the headers.
unfoldable pub correlate : PropagationConfig → Context → Table → Context
correlate cfg parent headers = elim cfg.set_correlation_id [
  | none ↦ parent
  | some write ↦
      if str_eq cfg.correlation_id_key ""
      then parent
      else elim (text_header (lookup cfg.correlation_id_key headers)) [
        | none ↦ parent
        | some v ↦ write parent v
      ]
]

-- `composite` stands for `propagation.NewCompositeTextMapPropagator()`.
module _ (composite : Propagator) where
  abbrev pub propagator_of : PropagationConfig → Propagator
  propagator_of cfg = elim cfg.propagator [ none ↦ composite | some p ↦ p ]

  -- `NewPublishHeadersBuilder`
  unfoldable pub new_publish_headers_builder : PropagationConfig → Context → Table
  new_publish_headers_builder cfg ctx =
      let headers = correlation_headers cfg ctx in
      if ltb 0 (length cfg.trace_keys)
      then add_trace_headers cfg.trace_keys ((propagator_of cfg).inject ctx []) headers
      else headers

  -- `NewConsumeHeadersExtractor`
  unfoldable pub new_consume_headers_extractor : PropagationConfig → Context → Table → Context
  new_consume_headers_extractor cfg parent headers =
      let ctx = correlate cfg parent headers in
      let carrier = collect cfg.trace_keys headers [] in
      if ltb 0 (length cfg.trace_keys)
      then (if ltb 0 (length carrier) then (propagator_of cfg).extract ctx carrier else ctx)
      else ctx

-- ===== src/Otel/Carried.antt =====
-- What travels in the headers from the publisher to the consumer.
use go_amqp_adapter.Base.{
  ◌≡◌, ◌≢◌, refl, Bool, false, ◌||◌, Option, none, some, List, [], ◌∷◌, String, lookup, insert,
  lookup-insert, str_eq, eq_iff, length, ltb, arith, if◌then◌else◌,
}
use go_amqp_adapter.Config.{Context, Table, Value, text}
use go_amqp_adapter.Otel.{
  Carrier, Propagator, PropagationConfig, get, add_trace_headers, correlation_headers, correlate,
  propagator_of, new_publish_headers_builder,
}

-- `key` is one of the keys.
unfoldable pub is_key : String → List String → Bool
is_key k [] = false
is_key k (j ∷ js) = str_eq j k || is_key k js

abbrev non_empty : String → Option String
non_empty s = if str_eq s "" then none else some s

abbrev or_text : Option String → Option Value → Option Value
or_text (some s) v = some (text s)
or_text none v = v

lookup-add_trace_headers :
    (keys : List String) (carrier : Carrier) (headers : Table) (k : String)
    → lookup k (add_trace_headers keys carrier headers) ≡ (
        if is_key k keys
        then or_text (non_empty (get carrier k)) (lookup k headers)
        else lookup k headers)
unfolding add_trace_headers is_key
lookup-add_trace_headers [] carrier headers k = refl
lookup-add_trace_headers (j ∷ js) carrier headers k =
    let v = get carrier j in
    let headers' = if str_eq v "" then headers else insert j (text v) headers in
    ground (
      arith,
      lookup-add_trace_headers js carrier headers' k,
      lookup-insert j k (text v) headers,
      eq_iff j k,
    )

-- The tests for an empty list of keys change nothing.
guarded_add :
    (keys : List String) (carrier : Carrier) (headers : Table)
    → (if ltb 0 (length keys) then add_trace_headers keys carrier headers else headers)
      ≡ add_trace_headers keys carrier headers
unfolding add_trace_headers
guarded_add [] carrier headers = refl
guarded_add (k ∷ ks) carrier headers = ground arith

-- The headers that a builder makes, key by key.
lookup-new_publish_headers_builder :
    (composite : Propagator) (cfg : PropagationConfig) (ctx : Context) (k : String)
    → lookup k (new_publish_headers_builder composite cfg ctx) ≡ (
        if is_key k cfg.trace_keys
        then or_text
            (non_empty (get ((propagator_of composite cfg).inject ctx []) k))
            (lookup k (correlation_headers cfg ctx))
        else lookup k (correlation_headers cfg ctx))
unfolding new_publish_headers_builder
lookup-new_publish_headers_builder composite cfg ctx k =
    let carrier = (propagator_of composite cfg).inject ctx [] in
    rw (guarded_add cfg.trace_keys carrier (correlation_headers cfg ctx))
      (lookup-add_trace_headers cfg.trace_keys carrier (correlation_headers cfg ctx) k)

module _ (composite : Propagator) (sender receiver : PropagationConfig) (ctx parent : Context) where
  -- The correlation id arrives. A message is published with the headers of a builder, and consumed
  -- by an extractor with the same key for the correlation id, which is not empty and no trace key
  -- of either. If the publisher's context has an id that is not empty, the consumer's context is
  -- the parent with that id; if it has none, the parent.
  pub correlate-new_publish_headers_builder :
      (read : Context → String) (write : Context → String → Context)
      → sender.get_correlation_id ≡ some read
      → receiver.set_correlation_id ≡ some write
      → receiver.correlation_id_key ≡ sender.correlation_id_key
      → sender.correlation_id_key ≢ ""
      → is_key sender.correlation_id_key sender.trace_keys ≡ false
      → correlate receiver parent (new_publish_headers_builder composite sender ctx)
        ≡ (if str_eq (read ctx) "" then parent else write parent (read ctx))
  unfolding correlate correlation_headers
  correlate-new_publish_headers_builder read write reads writes same named apart = ground (
    arith,
    lookup-new_publish_headers_builder composite sender ctx sender.correlation_id_key,
    eq_iff sender.correlation_id_key "",
    eq_iff sender.correlation_id_key sender.correlation_id_key,
    eq_iff (read ctx) "",
  )

-- ===== src/Otel/Tests.antt =====
-- Runs of the theorems on headers of correlation and trace.
use go_amqp_adapter.Base.{none, some, [], ◌∷◌, String}
use go_amqp_adapter.Config.{Context}
use go_amqp_adapter.Otel.{Propagator, PropagationConfig}

abbrev tracer : Propagator
tracer = record {
  inject = λ ctx carrier. ("traceparent", "00-1") ∷ carrier;
  extract = λ ctx carrier. carrier;
}

abbrev read : Context → String
read ctx = "id-5"

abbrev write : Context → String → Context
write ctx v = ("id", v) ∷ ctx

abbrev settings : PropagationConfig
settings = record {
  correlation_id_key = "x-id";
  trace_keys = "traceparent" ∷ [];
  get_correlation_id = some read;
  set_correlation_id = some write;
  propagator = none;
}

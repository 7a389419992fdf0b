-- ===== src/Config/Options.antt =====
-- options.go: the options of a store and the functions that set them.
use go_amqp_adapter.Base.{ℕ, Option, none, some, List, [], ◌∷◌}
use go_amqp_adapter.Config.{FailJobHandler, PublishHeadersBuilder, ConsumeHeadersExtractor}

-- A logger is known by identity: its methods return nothing.
pub data Logger : Type 0 where
  nil_logger : Logger
  custom : ℕ → Logger

pub record Options : Type 0 where
  pub lgr : Logger
  pub fail_handler : Option FailJobHandler
  pub publish_headers_builder : PublishHeadersBuilder
  pub consume_headers_extractor : ConsumeHeadersExtractor

-- The type `Option` of options.go.
abbrev pub Setter : Type 0
Setter = Options → Options

-- `defaultOptions`
unfoldable pub default_options : Options
default_options = record {
  lgr = nil_logger;
  fail_handler = none;
  publish_headers_builder = λ ctx. [];
  consume_headers_extractor = λ parent headers. parent;
}

-- A nil argument leaves the option alone, except for the handler of failed jobs.
unfoldable pub with_logger : Option Logger → Setter
with_logger none o = o
with_logger (some l) o = record o { lgr = l }

unfoldable pub with_fail_handler : Option FailJobHandler → Setter
with_fail_handler h o = record o { fail_handler = h }

unfoldable pub with_publish_headers_builder : Option PublishHeadersBuilder → Setter
with_publish_headers_builder none o = o
with_publish_headers_builder (some b) o = record o { publish_headers_builder = b }

unfoldable pub with_consume_headers_extractor : Option ConsumeHeadersExtractor → Setter
with_consume_headers_extractor none o = o
with_consume_headers_extractor (some e) o = record o { consume_headers_extractor = e }

-- The loop `for _, opt := range opts { opt(&cfgOpts) }`.
unfoldable pub apply_options : List Setter → Options → Options
apply_options [] o = o
apply_options (f ∷ fs) o = apply_options fs (f o)

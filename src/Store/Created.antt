-- ===== src/Store/Created.antt =====
-- What `New` makes of a configuration.
use go_amqp_adapter.Base.{
  ◌≡◌, subst, ◌↔◌, inl, inr, refl, ◌∙◌, false, Option, none, some, List, [], ◌∷◌, Dict, lookup,
  insert, lookup-insert, eq_iff, arith, Option-cases, if◌then◌else◌,
}
use go_amqp_adapter.Errors.{GoError, ok, err}
use go_amqp_adapter.Config.{Config, QueueItem, QueueName}
use go_amqp_adapter.Config.Options.{Options, Setter, default_options, apply_options}
use go_amqp_adapter.Config.Validate.{validate_config}
use go_amqp_adapter.Config.Validate.Accepted.{IsAccepted, validate_config_iff}
use go_amqp_adapter.Config.Validate.Blamed.{Blames, IfError, validate_config-Blames}
use go_amqp_adapter.Client.{Client, new_publisher_client}
use go_amqp_adapter.Store.{Store, params_of, add_publishers, new_store, new}

-- A map holds a key once.
abbrev pub IsMap : Dict QueueItem → Type 0
IsMap [] = Unit {0}
IsMap ((k, v) ∷ m) = (lookup k m ≡ none) × IsMap m

-- The publisher that a queue should have: none if it is for consumers only.
abbrev pub publisher_for : Config → Options → QueueName → Option QueueItem → Option Client
publisher_for conf opts name none = none
publisher_for conf opts name (some item) =
    if item.consumer_only then none else some (new_publisher_client name item conf opts)

abbrev or_else : Option Client → Option Client → Option Client
or_else none c = c
or_else (some c) _ = some c

module _ (conf : Config) (opts : Options) where
  lookup-add_publishers :
      (params : Dict QueueItem) (acc : Dict Client) (k : QueueName)
      → IsMap params
      → lookup k (add_publishers params conf opts acc)
        ≡ or_else (publisher_for conf opts k (lookup k params)) (lookup k acc)
  unfolding add_publishers
  lookup-add_publishers [] acc k unique = refl
  lookup-add_publishers ((name, param) ∷ rest) acc k unique =
      let clnt = new_publisher_client name param conf opts in
      let acc' = if param.consumer_only then acc else insert name clnt acc in
      ground (
        arith,
        lookup-add_publishers rest acc' k unique.1,
        lookup-insert name k clnt acc,
        eq_iff name k,
        unique.0,
      )

-- `New` succeeds exactly on the accepted configurations.
pub new_iff :
    (conf : Config) (setters : List Setter)
    → ((q : Store) × (new conf setters ≡ ok q))
      ↔ IsAccepted conf (apply_options setters default_options)
unfolding new
new_iff conf setters =
    let opts = apply_options setters default_options in
    (
      λ made. (validate_config_iff opts conf).0 (ground arith),
      λ fine. (new_store conf opts, ground (arith, (validate_config_iff opts conf).1 fine)),
    )

or_else-none : (c : Option Client) → or_else c none ≡ c
or_else-none none = refl
or_else-none (some c) = refl

pub made_is :
    (conf : Config) (setters : List Setter) (q : Store)
    → new conf setters ≡ ok q
    → q ≡ new_store conf (apply_options setters default_options)
unfolding new
made_is conf setters q made =
    let opts = apply_options setters default_options in
    elim (Option-cases (validate_config conf opts)) [
      | inl fine ↦ ground arith
      | inr (e, refused) ↦ absurd (ground arith)
    ]

-- From a map that holds each key once, `New` makes a store that has a publisher, not yet connected,
-- for exactly the queues that are not for consumers only, each with the retry mode of its queue; it
-- has no consumers, and they have not started.
pub new_publishers :
    (conf : Config) (setters : List Setter) (q : Store) (k : QueueName)
    → IsMap (params_of conf)
    → new conf setters ≡ ok q
    → (lookup k q.publishers
        ≡ publisher_for q.config
            (apply_options setters default_options)
            k
            (lookup k (params_of q.config)))
      × (params_of q.config ≡ params_of conf)
      × (q.consumers ≡ [])
      × (q.consumers_started ≡ false)
unfolding new
new_publishers conf setters q k unique made =
    let opts = apply_options setters default_options in
    let conf' = record conf { queue_params = some (params_of conf) } in
    let placed = lookup-add_publishers conf' opts (params_of conf) [] k unique in
    rw (made_is conf setters q made) (
      placed ∙ or_else-none (publisher_for conf' opts k (lookup k (params_of conf))),
      refl,
      refl,
      refl,
    )

-- When `New` fails, its error is of the kind of a rule that the configuration breaks: an empty URL,
-- a delay that is not positive, or a queue in retry mode without a handler of failed jobs, with a
-- delay below a millisecond, or with a retry time that is not positive.
pub new-Blames :
    (conf : Config) (setters : List Setter) (e : GoError)
    → new conf setters ≡ err e
    → Blames conf (apply_options setters default_options) e
unfolding new
new-Blames conf setters e failed =
    let opts = apply_options setters default_options in
    let said : validate_config conf opts ≡ some e =
      elim (Option-cases (validate_config conf opts)) [
        | inl fine ↦ absurd (ground (arith, fine, failed))
        | inr (e', refused) ↦ ground (arith, refused, failed)
      ] in
    subst (IfError (Blames conf opts)) said (validate_config-Blames opts conf)

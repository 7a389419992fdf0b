-- ===== src/Client/Push/Headers.antt =====
-- The headers of a published message.
use go_amqp_adapter.Base.{
  ℕ, ◌≡◌, refl, none, some, [], ◌∷◌, String, arith, lookup, str_eq, lookup-insert, Option-cases,
  inl, inr, if◌then◌else◌,
}
use go_amqp_adapter.Config.{Table, PublishMessage, text}
use go_amqp_adapter.Time.Format.{format_rfc3339}
use go_amqp_adapter.Client.{Client, map_to_amqp_table, add_duration}
use go_amqp_adapter.Client.Push.{publish_headers, retry_limit}

pub map_to_amqp_table_lem : (t : Table) → map_to_amqp_table t ≡ t
unfolding map_to_amqp_table
map_to_amqp_table_lem [] = refl
map_to_amqp_table_lem (e ∷ t) = ground arith

-- In retry mode the header `expired` holds the time of the publish plus the limit of the message,
-- or else of the queue; every other header is that of the context. Without retry mode all are.
pub publish_headers_lem :
    (clnt : Client) (msg : PublishMessage) (headers : Table) (now : ℕ) (k : String)
    → lookup k (publish_headers clnt msg headers now) ≡ (elim clnt.retry [
      | none ↦ lookup k headers
      | some r ↦
          if str_eq "expired" k
          then some (text (format_rfc3339 (add_duration now (retry_limit msg r))))
          else lookup k headers
    ])
unfolding publish_headers
publish_headers_lem clnt msg headers now k = elim (Option-cases clnt.retry) [
  | inl plain ↦ ground (arith, map_to_amqp_table_lem headers)
  | inr (r, retries) ↦
      let deadline = text (format_rfc3339 (add_duration now (retry_limit msg r))) in
      ground (
        arith,
        map_to_amqp_table_lem headers,
        lookup-insert "expired" k deadline (map_to_amqp_table headers),
      )
]

-- ===== src/Tests/Sqls.antt =====
-- crates/db-query: the queries of the transfers of a token.
use topic.Base.{ℕ, ◌+◌, ◌≡◌, refl, true, false, some, List, [], ◌∷◌, String, All, arith, length}
use topic.Base.Results.{ok, err}
use topic.Text.{codes}
use topic.Text.Ints.{ℤ}
use topic.Schema.{ColumnType}
use topic.Sql.{
  Tables, FilterOp, Spec, Bind, QueryError, parse_cursor, format_cursor, query_sql, count_sql,
}
use topic.Sql.Cursors.{parse_cursor-format_cursor}
use topic.Sql.Filters.{IsColumn}
use topic.Sql.Built.{keyset_count}
use topic.Sql.Statements.{query_sql-IsParameterized}

abbrev tables : Tables
tables =
    ("evt_token_transfer", ("from", ColumnType.address) ∷ ("value", ColumnType.uint 256) ∷ []) ∷ []

abbrev spec : String → List ℕ → Spec
spec value cursor = record {
  table = "evt_token_transfer";
  filters =
      record { column = "value"; op = FilterOp.gte; value = codes value }
      ∷ record { column = "height"; op = FilterOp.lt; value = codes "90" }
      ∷ [];
  first = 50;
  after = some cursor;
  include_tx = true;
  include_receipt = false;
  descending = true;
}

abbrev statement : String
statement =
    "SELECT (jsonb_build_object('chain_id', t.chain_id, 'height', t.height, 'block_hash', '0x' || encode(t.block_hash, 'hex'), 'block_time', t.block_time, 'tx_id', '0x' || encode(t.tx_id, 'hex'), 'idx', t.idx, 'from', '0x' || encode(t.\"from\", 'hex'), 'value', t.\"value\"::text))::text AS j, t.height, t.idx FROM evt_token_transfer t WHERE t.\"value\" >= $1::numeric AND t.\"height\" < $2 AND (t.height, t.idx) < ($3, $4) ORDER BY t.height DESC, t.idx DESC LIMIT 51"

abbrev binds : String → ℤ → List Bind
binds value height =
    Bind.text (codes value) ∷ Bind.int (ℤ.pos 90) ∷ Bind.int height ∷ Bind.int (ℤ.pos 2) ∷ []

query_sql_one :
    query_sql tables (spec "100" (codes "80:2")) ≡ some (ok (statement, binds "100" (ℤ.pos 80)))
unfolding query_sql
query_sql_one = refl

query_sql_other :
    query_sql tables (spec "0); DROP TABLE x" (codes "-1:2"))
    ≡ some (ok (statement, binds "0); DROP TABLE x" (ℤ.negsuc 0)))
unfolding query_sql
query_sql_other = refl

count_sql_one :
    count_sql tables (spec "100" (codes "80:2"))
    ≡ some (
        ok (
          "SELECT count(*) FROM evt_token_transfer t WHERE t.\"value\" >= $1::numeric AND t.\"height\" < $2",
          Bind.text (codes "100") ∷ Bind.int (ℤ.pos 90) ∷ [],
        ))
unfolding count_sql
count_sql_one = refl

query_sql-IsParameterized_example :
    (statement ≡ statement)
    × All (λ f. IsColumn tables "evt_token_transfer" f.column) (spec "100" (codes "80:2")).filters
    × (length (binds "100" (ℤ.pos 80))
        ≡ length (spec "100" (codes "80:2")).filters + keyset_count true)
query_sql-IsParameterized_example =
    query_sql-IsParameterized tables (spec "100" (codes "80:2"))
      (spec "0); DROP TABLE x" (codes "-1:2")) statement statement (binds "100" (ℤ.pos 80))
      (binds "0); DROP TABLE x" (ℤ.negsuc 0)) (refl, refl, refl, refl, refl, refl, refl)
      query_sql_one query_sql_other

no_cursor : parse_cursor (codes "123") ≡ err (QueryError.invalid "bad cursor")
unfolding parse_cursor
no_cursor = refl

parse_cursor-format_cursor_example :
    parse_cursor (format_cursor (ℤ.pos 80) (ℤ.negsuc 6)) ≡ ok (ℤ.pos 80, ℤ.negsuc 6)
parse_cursor-format_cursor_example =
    parse_cursor-format_cursor (ℤ.pos 80) (ℤ.negsuc 6) (omega arith) (omega arith)

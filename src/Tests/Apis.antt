-- ===== src/Tests/Apis.antt =====
-- crates/api: the schema of a token's transfers, and a query of a client.
use topic.Base.{◌+◌, ◌^◌, ◌≡◌, refl, true, false, none, some, [], ◌∷◌, map}
use topic.Base.Results.{ok}
use topic.Text.{codes}
use topic.Text.Ints.{ℤ}
use topic.Source.Enrichment.{aux_schemas}
use topic.Api.{Args, Field, Object, build_schema, build_loop, spec_of, first_of}
use topic.Sql.{Bind, count_sql, tables_of}

-- Receipts have no query of their own.
aux_queries : map (λ (f : Field). f.name) (build_schema aux_schemas).1 ≡ "transactions" ∷ []
unfolding build_loop aux_schemas
aux_queries = refl

aux_objects :
    map (λ (o : Object). o.name) (build_schema aux_schemas).0
    ≡ "transactions" ∷ "transactions_connection" ∷ "receipts" ∷ []
unfolding build_loop aux_schemas
aux_objects = refl

abbrev args : Args
args = record {
  first = some (ℤ.pos 5);
  after = none;
  order_by = some "DESC";
  chain_id = some (ℤ.pos 1);
  from_height = some (ℤ.pos 70);
  to_height = none;
  predicates = record { column = "from_addr"; value = codes "0xabcd"; op = some "NE" } ∷ [];
  selects_transaction = true;
  selects_receipt = false;
}

-- The query of a client, down to its statement.
args_sql :
    count_sql (tables_of aux_schemas []) (spec_of "transactions" false args)
    ≡ some (
        ok (
          "SELECT count(*) FROM transactions t WHERE t.\"chain_id\" = $1 AND t.\"height\" >= $2 AND t.\"from_addr\" <> $3",
          Bind.int (ℤ.pos 1) ∷ Bind.int (ℤ.pos 70) ∷ Bind.bytes (171 ∷ 205 ∷ []) ∷ [],
        ))
unfolding count_sql spec_of tables_of aux_schemas
args_sql = refl

-- A size that does not fit in 32 bits wraps around.
first_wraps : first_of (some (ℤ.pos (2 ^ 32 + 7))) ≡ 7
first_wraps = refl
